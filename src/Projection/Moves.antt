-- ===== src/Projection/Moves.antt =====
-- projection.go: what `Apply` does to the states of a projection.
use fabricrunner.Prelude.{
  ℕ, ◌≡◌, refl, sym, ap, ◌∙◌, subst, ◌≢◌, ◌⊎◌, inl, inr, Bool, true, none, some, List, Text,
  Text-discrete, text_eq, ok, same,
}
use fabricrunner.Id.{FabricId}
use fabricrunner.Domain.{WorkloadState, can_transition_workload, Step, can_transition_step}
use fabricrunner.Event.{Event}
use fabricrunner.Projection.{Decoders, find_step, put_step, WorkloadProjection}
use fabricrunner.Projection.Apply.{apply, new_step}
use fabricrunner.Projection.Applied.{
  Applied, created, transitioned, step_created, step_transitioned, recorded, apply-Applied,
}
use fabricrunner.Projection.Steps.{find_step-put_step, find_step-put_step_other}
use fabricrunner.Projection.Coherent.{IsCoherent}

-- From one projection to the next: the workload is created or moves along its diagram, and so does
-- each step; none disappears.
pub record Moves (p q : WorkloadProjection) : Type 0 where
  pub workload_move :
      (q.workload.state ≡ p.workload.state)
      ⊎ (can_transition_workload p.workload.state q.workload.state ≡ true)
      ⊎ ((p.version ≡ 0) × (q.workload.state ≡ WorkloadState.created))
  pub step_move :
      (id : FabricId) (s : Step)
      → find_step id p.steps ≡ some s
      → (t : Step) × (find_step id q.steps ≡ some t)
        × ((t ≡ s) ⊎ (can_transition_step s.state t.state ≡ true))

some_injective : {s t : Step} → some s ≡ some t → s ≡ t
some_injective e = cc

same_step :
    (p : WorkloadProjection) (id other : FabricId) (s u : Step)
    → IsCoherent p
    → find_step id p.steps ≡ some s
    → find_step other p.steps ≡ some u
    → s.id ≡ other
    → u ≡ s
same_step p id other s u c f g e =
    some_injective (sym g ∙ ap (λ k. find_step k p.steps) (sym e ∙ (c.filed id s f).own_id) ∙ f)

module _ (decoders : Decoders) (json_valid : Text → Bool) (sha256 : List ℕ → List ℕ) where
  Applied-Moves :
      (p q : WorkloadProjection) (e : Event)
      → IsCoherent p
      → Applied decoders json_valid sha256 p e q
      → Moves p q
  Applied-Moves p q e c (created w v z i s h) =
      subst (Moves p) (sym h)
        (record { workload_move = inr (inr (v, s)); step_move = λ id t f. (t, f, inl refl) })
  Applied-Moves p q e c (transitioned to z t h) =
      subst (Moves p) (sym h)
        (record { workload_move = inr (inl t); step_move = λ id s f. (s, f, inl refl) })
  Applied-Moves p q e c (step_created payload z n k h) = subst (Moves p) (sym h) (record {
    workload_move = inl refl;
    step_move = λ id s f. (
      s,
      find_step-put_step_other payload.id id (new_step p e payload) p.steps
            (λ i. none_some (sym n ∙ ap (λ k. find_step k p.steps) i ∙ f))
          ∙ f,
      inl refl,
    );
  })
    where
      none_some : {x : Step} → none ≢ some x
      none_some e = cc
  Applied-Moves p q e c (step_transitioned id s to z f t h) =
      subst (Moves p) (sym h) (record { workload_move = inl refl; step_move = moved })
    where
      next : Step
      next = record s { state = to; updated_at = e.occurred_at }

      moved :
          (other : FabricId) (u : Step)
          → find_step other p.steps ≡ some u
          → (v : Step) × (find_step other (put_step s.id next p.steps) ≡ some v)
            × ((v ≡ u) ⊎ (can_transition_step u.state v.state ≡ true))
      moved other u g = elim (Text-discrete s.id other) [
        | yes same ↦ (
          next,
          subst (λ k. find_step k (put_step s.id next p.steps) ≡ some next) same
              (find_step-put_step s.id next p.steps),
          inr (
              subst (λ x. can_transition_step x.state to ≡ true)
                (sym (same_step p id other s u c f g same)) t),
        )
        | no differs ↦ (u, find_step-put_step_other s.id other next p.steps differs ∙ g, inl refl)
      ]
  Applied-Moves p q e c (recorded r k h) =
      subst (Moves p) (sym h)
        (record { workload_move = inl refl; step_move = λ id s f. (s, f, inl refl) })

  -- If `Apply` takes an event on a coherent projection, then the workload keeps its state, moves along
  -- an edge of its diagram, or is created as the first event; every step is kept, and keeps its state or
  -- moves along an edge of its diagram.
  pub apply-Moves :
      (p q : WorkloadProjection) (e : Event)
      → IsCoherent p
      → apply decoders json_valid sha256 p e ≡ ok q
      → Moves p q
  apply-Moves p q e c h =
      let (checked, (changed, applied, final)) = apply-Applied decoders json_valid sha256 p q e h in
      let m = Applied-Moves p changed e c applied in
      subst (Moves p) (sym final)
        (record { workload_move = m.workload_move; step_move = m.step_move })
