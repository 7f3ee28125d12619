-- ===== src/Projection/Coherent.antt =====
-- projection.go: what `Apply` keeps of a projection.
use fabricrunner.Prelude.{
  ℕ, ◌≡◌, refl, sym, ap, ◌∙◌, subst, ◌≢◌, ◌⊎◌, inl, inr, Bool, true, false, some, List, [], arith,
  Bool-cases, is_some, Text, text_eq, ok, fail_if-ok, passed,
}
use fabricrunner.Id.{FabricId, is_zero_id}
use fabricrunner.Domain.{Step}
use fabricrunner.Event.{Event}
use fabricrunner.Execution.Recorded.{is_running}
use fabricrunner.Execution.Payload.{check_record-Checked}
use fabricrunner.Projection.{Decoders, find_step, put_step, WorkloadProjection}
use fabricrunner.Projection.Apply.{check_parent, new_step}
use fabricrunner.Projection.Applied.{
  Applied, created, transitioned, step_created, step_transitioned, recorded,
}
use fabricrunner.Projection.Steps.{find_step-cases, is_some-put_step}

-- A step is filed under its ID, belongs to the workload, and its parent, if it names one, is there.
pub record IsFiled (p : WorkloadProjection) (id : FabricId) (s : Step) : Type 0 where
  pub own_id : s.id ≡ id
  pub of_workload : s.workload_id ≡ p.workload.id
  pub parent :
      (is_zero_id s.parent_step_id ≡ true) ⊎ (is_some (find_step s.parent_step_id p.steps) ≡ true)

-- The workload, once created, is the aggregate's; before, there are neither steps nor records.
pub record IsCoherent (p : WorkloadProjection) : Type 0 where
  pub filed : (id : FabricId) (s : Step) → find_step id p.steps ≡ some s → IsFiled p id s
  pub named : (is_zero_id p.workload.id ≡ false) → p.workload.id ≡ p.aggregate.id
  pub bare : (is_zero_id p.workload.id ≡ true) → p.steps ≡ []

pub no_step : (id : FabricId) (t : Step) → find_step id [] ≢ some t
unfolding find_step
no_step id t h = cc

unfound : (id : FabricId) → is_running (find_step id []) ≢ true
unfolding find_step is_running
unfound id h = cc

-- The parent of a step stays present.
parent-put_step :
    (p : WorkloadProjection) (id parent : FabricId) (s : Step)
    → (is_zero_id parent ≡ true) ⊎ (is_some (find_step parent p.steps) ≡ true)
    → (is_zero_id parent ≡ true) ⊎ (is_some (find_step parent (put_step id s p.steps)) ≡ true)
parent-put_step p id parent s (inl z) = inl z
parent-put_step p id parent s (inr h) = inr (is_some-put_step id parent s p.steps h)

check_parent-ok :
    (p : WorkloadProjection) (parent : FabricId)
    → check_parent p parent ≡ ok tt
    → (is_zero_id parent ≡ true) ⊎ (is_some (find_step parent p.steps) ≡ true)
unfolding check_parent
check_parent-ok p parent h = elim (Bool-cases (is_zero_id parent)) [
  | inl z ↦ inl z
  | inr n ↦ inr (ground (arith, fail_if-ok _ _ (passed _ 1 (rw n at h) refl)))
]

module _ (decoders : Decoders) (json_valid : Text → Bool) (sha256 : List ℕ → List ℕ) where
  pub Applied-IsCoherent :
      (p q : WorkloadProjection) (e : Event)
      → IsCoherent p
      → Applied decoders json_valid sha256 p e q
      → IsCoherent q
  unfolding new_step
  Applied-IsCoherent p q e c (created w v z i s h) = subst IsCoherent (sym h) (record {
    filed = λ id t f. absurd (no_step id t (sym (ap (find_step id) (c.bare z)) ∙ f));
    named = λ n. i;
    bare = λ n. c.bare z;
  })
  Applied-IsCoherent p q e c (transitioned to z t h) = subst IsCoherent (sym h) (record {
    filed = λ id s f.
        (let g = c.filed id s f in
          record { own_id = g.own_id; of_workload = g.of_workload; parent = g.parent });
    named = c.named;
    bare = c.bare;
  })
  Applied-IsCoherent p q e c (step_created payload z n k h) =
      subst IsCoherent (sym h) (record { filed = filed; named = c.named; bare = λ y. cc (y, z) })
    where
      filed :
          (id : FabricId) (s : Step)
          → find_step id (put_step payload.id (new_step p e payload) p.steps) ≡ some s
          → IsFiled (record p { steps = put_step payload.id (new_step p e payload) p.steps }) id s
      filed id s f = elim (find_step-cases payload.id id (new_step p e payload) s p.steps f) [
        | inl (i, t) ↦ subst (IsFiled _ id) (sym t) (record {
          own_id = i;
          of_workload = refl;
          parent =
              parent-put_step p payload.id payload.parent_step_id _
                (check_parent-ok p payload.parent_step_id k);
        })
        | inr (n, g) ↦
            (let old = c.filed id s g in
              record {
                own_id = old.own_id;
                of_workload = old.of_workload;
                parent = parent-put_step p payload.id s.parent_step_id _ old.parent;
              })
      ]
  Applied-IsCoherent p q e c (step_transitioned id s to z f t h) =
      subst IsCoherent (sym h) (record { filed = filed; named = c.named; bare = λ y. cc (y, z) })
    where
      next : Step
      next = record s { state = to; updated_at = e.occurred_at }

      filed :
          (other : FabricId) (u : Step)
          → find_step other (put_step s.id next p.steps) ≡ some u
          → IsFiled (record p { steps = put_step s.id next p.steps }) other u
      filed other u g = elim (find_step-cases s.id other next u p.steps g) [
        | inl (i, t) ↦ subst (IsFiled _ other) (sym t) (record {
          own_id = i;
          of_workload = (c.filed id s f).of_workload;
          parent = parent-put_step p s.id s.parent_step_id _ (c.filed id s f).parent;
        })
        | inr (n, k) ↦
            (let old = c.filed other u k in
              record {
                own_id = old.own_id;
                of_workload = old.of_workload;
                parent = parent-put_step p s.id u.parent_step_id _ old.parent;
              })
      ]
  Applied-IsCoherent p q e c (recorded r k h) = subst IsCoherent (sym h) (record {
    filed = λ id s f.
        (let g = c.filed id s f in
          record { own_id = g.own_id; of_workload = g.of_workload; parent = g.parent });
    named = c.named;
    bare = c.bare;
  })

  -- After an event the workload is there.
  pub Applied-present :
      (p q : WorkloadProjection) (e : Event)
      → is_zero_id p.aggregate.id ≡ false
      → IsCoherent p
      → Applied decoders json_valid sha256 p e q
      → is_zero_id q.workload.id ≡ false
  Applied-present p q e a c (created w v z i s h) = rw (ap (λ x. x.workload.id) h) (rw i a)
  Applied-present p q e a c (transitioned to z t h) = rw (ap (λ x. x.workload.id) h) z
  Applied-present p q e a c (step_created payload z n k h) = rw (ap (λ x. x.workload.id) h) z
  Applied-present p q e a c (step_transitioned id s to z f t h) = rw (ap (λ x. x.workload.id) h) z
  Applied-present p q e a c (recorded r k h) = elim (Bool-cases (is_zero_id p.workload.id)) [
    | inr n ↦ rw (ap (λ x. x.workload.id) h) n
    | inl y ↦ absurd (
        unfound r.step_id (
          subst (λ ss. is_running (find_step r.step_id ss) ≡ true) (c.bare y)
            (check_record-Checked json_valid sha256 p.workload.state p.workload.id
              (find_step r.step_id p.steps) p.execution e r k).running))
  ]

  pub Applied-aggregate :
      (p q : WorkloadProjection) (e : Event)
      → Applied decoders json_valid sha256 p e q
      → q.aggregate ≡ p.aggregate
  Applied-aggregate p q e (created w v z i s h) = ap (λ x. x.aggregate) h
  Applied-aggregate p q e (transitioned to z t h) = ap (λ x. x.aggregate) h
  Applied-aggregate p q e (step_created payload z n k h) = ap (λ x. x.aggregate) h
  Applied-aggregate p q e (step_transitioned id s to z f t h) = ap (λ x. x.aggregate) h
  Applied-aggregate p q e (recorded r k h) = ap (λ x. x.aggregate) h
