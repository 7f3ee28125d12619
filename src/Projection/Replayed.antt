-- ===== src/Projection/Replayed.antt =====
-- projection.go and store.go: Replay and LoadWorkloadProjection: what holds of every projection that
-- is loaded.
use fabricrunner.Prelude.{
  ℕ, ◌+◌, ◌%◌, ◌^◌, ◌<◌, ◌≡◌, refl, sym, ap, ◌∙◌, subst, ◌≢◌, ◌⊎◌, inl, inr, Bool, false, Option,
  none, some, List, [], ◌∷◌, arith, leb, eqb, if◌then◌else◌, eqb_iff, Bool-cases, Option-cases,
  length, drop, ◌!=◌, Text, text_eq, Error, ok, fail_if, prefix_error, fail_if-ok, prefix_error-ok,
  unless-ok, ok_injective, >>=-eq-ok, >>-eq-ok, passed,
}
use fabricrunner.Id.{FabricId, validate_id, is_zero_id}
use fabricrunner.Event.{AggregateRef, validate_ref, Event, validate_event}
use fabricrunner.Store.{Streams, stream, stream_key, load}
use fabricrunner.Execution.LoopEvents.{loop_events}
use fabricrunner.Execution.History.{IsHistory, check_record-IsHistory}
use fabricrunner.Projection.{
  workload_type, Decoders, find_step, WorkloadProjection, new_projection, empty_projection,
}
use fabricrunner.Projection.Apply.{apply, apply_all, check_event, load_projection}
use fabricrunner.Projection.Applied.{
  Applied, created, transitioned, step_created, step_transitioned, recorded, apply-Applied,
}
use fabricrunner.Projection.Coherent.{
  IsCoherent, no_step, Applied-IsCoherent, Applied-present, Applied-aggregate,
}

not_zero : (id : FabricId) → validate_id id ≡ ok tt → is_zero_id id ≡ false
unfolding validate_id
not_zero id h = elim (Bool-cases (is_zero_id id)) [ inl z ↦ absurd (cc (rw z at h)) | inr n ↦ n ]

not_zero_number : (n : ℕ) → eqb n 0 ≡ false → n ≢ 0
not_zero_number n h = ground (arith, h)

pub load-stream :
    (at_load : Option Error) (ref : AggregateRef) (s : Streams) (events : List Event)
    → load at_load ref 0 s ≡ ok events
    → events ≡ stream (stream_key ref) s
unfolding load
load-stream (some e) ref s events h = cc
load-stream none ref s events h =
    all_of (stream (stream_key ref) s) (>>-eq-ok (validate_ref ref) _ h).1
  where
    all_of :
        (old : List Event)
        → (if leb (length old) 0 then ok [] else ok (drop 0 old)) ≡ ok events
        → events ≡ old
    all_of [] h = sym (ok_injective h)
    all_of (e ∷ es) h =
        let some_left : leb (length (e ∷ es)) 0 ≡ false = ground arith in
        sym (ok_injective (rw some_left at h))

zero_add : (n : ℕ) → 0 + n ≡ n
zero_add n = omega arith

pub new_projection-is :
    (ref : AggregateRef) (p : WorkloadProjection)
    → new_projection ref ≡ ok p
    → empty_projection ref ≡ p
unfolding new_projection
new_projection-is ref p h =
    ok_injective
      (>>-eq-ok (fail_if (ref.kind != workload_type) _) _ (>>-eq-ok (validate_ref ref) _ h).1).1

-- What holds after `n` events of a stream.
pub record IsReplayed (ref : AggregateRef) (n : ℕ) (p : WorkloadProjection) : Type 0 where
  pub coherent : IsCoherent p
  pub history : (step : FabricId) → IsHistory p.execution step
  pub of_aggregate : p.aggregate ≡ ref
  pub version_is : p.version ≡ n
  pub version_fits : p.version < 2 ^ 64
  pub present : (n ≡ 0) ⊎ (p.workload.id ≡ ref.id)

-- A replay that took an event: its workload is the aggregate, and it took one.
IsReplayed-workload :
    (ref : AggregateRef) (n : ℕ) (p : WorkloadProjection)
    → IsReplayed ref n p
    → eqb p.version 0 ≡ false
    → p.workload.id ≡ ref.id
IsReplayed-workload ref n p i h = elim i.present [
  | inl z ↦ absurd (not_zero_number p.version h (i.version_is ∙ z))
  | inr there ↦ there
]

IsReplayed-not_empty :
    (ref : AggregateRef) (events : List Event) (p : WorkloadProjection)
    → IsReplayed ref (length events) p
    → eqb p.version 0 ≡ false
    → events ≢ []
IsReplayed-not_empty ref events p i h none_left =
    not_zero_number p.version h (i.version_is ∙ ap length none_left)

module _ (decoders : Decoders) (json_valid : Text → Bool) (sha256 : List ℕ → List ℕ) where
  Applied-IsHistory :
      (p q : WorkloadProjection) (e : Event)
      → ((step : FabricId) → IsHistory p.execution step)
      → Applied decoders json_valid sha256 p e q
      → (step : FabricId) → IsHistory q.execution step
  Applied-IsHistory p q e i (created w v z a s h) step =
      subst (λ x. IsHistory x step) (sym (ap (λ x. x.execution) h)) (i step)
  Applied-IsHistory p q e i (transitioned to z t h) step =
      subst (λ x. IsHistory x step) (sym (ap (λ x. x.execution) h)) (i step)
  Applied-IsHistory p q e i (step_created payload z n k h) step =
      subst (λ x. IsHistory x step) (sym (ap (λ x. x.execution) h)) (i step)
  Applied-IsHistory p q e i (step_transitioned id s to z f t h) step =
      subst (λ x. IsHistory x step) (sym (ap (λ x. x.execution) h)) (i step)
  Applied-IsHistory p q e i (recorded r k h) step =
      subst (λ x. IsHistory x step) (sym (ap (λ x. x.execution) h))
        (check_record-IsHistory json_valid sha256 p.workload.state p.workload.id
          (find_step r.step_id p.steps) p.execution e r i k step)

  -- The facts that the tests on an event leave.
  check_event-ok :
      (p : WorkloadProjection) (e : Event)
      → check_event json_valid sha256 p e ≡ ok tt
      → (is_zero_id p.aggregate.id ≡ false)
        × (e.sequence ≡ (p.version + 1) % 2 ^ 64)
        × (e.sequence ≢ 0)
  unfolding check_event validate_ref validate_id validate_event
  check_event-ok p e h =
      let ref_ok =
        prefix_error-ok "projection aggregate" (validate_ref p.aggregate) (passed _ 0 h refl) in
      let id_ok =
        prefix_error-ok "aggregate ID" (validate_id p.aggregate.id) (passed _ 1 ref_ok refl) in
      let event_ok : validate_event json_valid sha256 e ≡ ok tt = passed _ 2 h refl in
      (
        not_zero p.aggregate.id id_ok,
        (eqb_iff _ _).0 (unless-ok _ _ (passed _ 4 h refl)),
        not_zero_number e.sequence (fail_if-ok _ _ (passed _ 2 event_ok refl)),
      )

  pub apply-IsReplayed :
      (ref : AggregateRef) (n : ℕ) (p q : WorkloadProjection) (e : Event)
      → IsReplayed ref n p
      → apply decoders json_valid sha256 p e ≡ ok q
      → IsReplayed ref (n + 1) q
  apply-IsReplayed ref n p q e i h =
      let (checked, (changed, applied, final)) = apply-Applied decoders json_valid sha256 p q e h in
      let (named, number, nonzero) = check_event-ok p e checked in
      let fits = i.version_fits in
      let count = i.version_is in
      let kept =
        Applied-aggregate decoders json_valid sha256 p changed e applied ∙ i.of_aggregate in
      let coherent = Applied-IsCoherent decoders json_valid sha256 p changed e i.coherent applied in
      let there = Applied-present decoders json_valid sha256 p changed e named i.coherent applied in
      subst (IsReplayed ref (n + 1)) (sym final) (record {
        coherent = record {
          filed = λ id s f.
              (let g = coherent.filed id s f in
                record { own_id = g.own_id; of_workload = g.of_workload; parent = g.parent });
          named = coherent.named;
          bare = coherent.bare;
        };
        history = Applied-IsHistory p changed e i.history applied;
        of_aggregate = kept;
        version_is = omega (arith, number, nonzero, fits, count);
        version_fits = omega (arith, number, nonzero, fits);
        present = inr (coherent.named there ∙ ap (λ x. x.id) kept);
      })

  -- The first step of a replay that succeeds.
  pub apply_all-next :
      (cancelled : ℕ → Option Error) (i : ℕ) (e : Event) (es : List Event)
      (p q : WorkloadProjection)
      → apply_all decoders json_valid sha256 cancelled i (e ∷ es) p ≡ ok q
      → (next : WorkloadProjection) × (apply decoders json_valid sha256 p e ≡ ok next)
        × (apply_all decoders json_valid sha256 cancelled (i + 1) es next ≡ ok q)
  unfolding apply_all
  apply_all-next cancelled i e es p q h = elim (Option-cases (cancelled i)) [
    | inl c ↦
        let (next, applied, rest) =
          >>=-eq-ok (prefix_error "apply event" (apply decoders json_valid sha256 p e)) _
            (rw (c, apply_all) at h) in
        (next, prefix_error-ok _ _ applied, rest)
    | inr (x, c) ↦ absurd (cc (rw (c, apply_all) at h))
  ]

  pub apply_all-IsReplayed :
      (cancelled : ℕ → Option Error) (i : ℕ) (ref : AggregateRef) (n : ℕ) (es : List Event)
      (p q : WorkloadProjection)
      → IsReplayed ref n p
      → apply_all decoders json_valid sha256 cancelled i es p ≡ ok q
      → IsReplayed ref (n + length es) q
  unfolding apply_all
  apply_all-IsReplayed cancelled i ref n [] p q r h =
      subst (IsReplayed ref (n + 0)) (ok_injective h)
        (subst (λ m. IsReplayed ref m p) (omega arith) r)
  apply_all-IsReplayed cancelled i ref n (e ∷ es) p q r h =
      let (next, applied, rest) = apply_all-next cancelled i e es p q h in
      subst (λ m. IsReplayed ref m q) (omega arith)
        (apply_all-IsReplayed cancelled (i + 1) ref (n + 1) es next q
          (apply-IsReplayed ref n p next e r applied) rest)

  empty-IsReplayed : (ref : AggregateRef) → IsReplayed ref 0 (empty_projection ref)
  unfolding is_zero_id loop_events
  empty-IsReplayed ref = record {
    coherent = record {
      filed = λ id s f. absurd (no_step id s f);
      named = λ h. absurd (cc h);
      bare = λ h. refl;
    };
    history = λ step. record { contiguous = tt; finished_last = tt };
    of_aggregate = refl;
    version_is = refl;
    version_fits = omega arith;
    present = inl refl;
  }

  -- A projection that LoadWorkloadProjection returns is of an aggregate whose stream has events, and
  -- has as many versions as there are; its workload has the ID of the aggregate; each step is filed
  -- under its ID, belongs to the workload and has its parent among the steps; for each step, the
  -- recorded loop events are numbered from 1 without a gap, nothing follows the stop of its loop, and
  -- no record follows its finished one.
  pub load_projection-IsReplayed :
      (at_load : Option Error) (cancelled : ℕ → Option Error) (ref : AggregateRef) (s : Streams)
      (q : WorkloadProjection)
      → load_projection decoders json_valid sha256 at_load cancelled ref s ≡ ok q
      → (stream (stream_key ref) s ≢ [])
        × (q.workload.id ≡ ref.id)
        × IsReplayed ref (length (stream (stream_key ref) s)) q
  unfolding load_projection new_projection
  load_projection-IsReplayed at_load cancelled ref s q h =
      let (p, made, h1) = >>=-eq-ok (new_projection ref) _ h in
      let (events, loaded, h2) = >>=-eq-ok (load at_load ref 0 s) _ h1 in
      let (r, applied, h3) =
        >>=-eq-ok (apply_all decoders json_valid sha256 cancelled 0 events p) _ h2 in
      let all = load-stream at_load ref s events loaded in
      let (found, h4) = >>-eq-ok (fail_if (eqb r.version 0) _) _ h3 in
      let replayed : IsReplayed ref (length (stream (stream_key ref) s)) r =
        subst (λ es. IsReplayed ref (length es) r) all
          (subst (λ m. IsReplayed ref m r) (zero_add (length events))
            (apply_all-IsReplayed cancelled 0 ref 0 events p r
              (subst (IsReplayed ref 0) (new_projection-is ref p made) (empty-IsReplayed ref))
              applied)) in
      subst
        (λ x.
          (stream (stream_key ref) s ≢ [])
          × (x.workload.id ≡ ref.id)
          × IsReplayed ref (length (stream (stream_key ref) s)) x)
        (ok_injective h4)
        (
          IsReplayed-not_empty ref (stream (stream_key ref) s) r replayed (fail_if-ok _ _ found),
          IsReplayed-workload ref (length (stream (stream_key ref) s)) r replayed
              (fail_if-ok _ _ found),
          replayed,
        )
