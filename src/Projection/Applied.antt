-- ===== src/Projection/Applied.antt =====
-- projection.go: what each event that `Apply` takes has changed, and what was checked for it.
use fabricrunner.Prelude.{
  ℕ, ◌≡◌, refl, sym, ap, ◌∙◌, inl, inr, Bool, true, false, not, ◌||◌, Option, none, some, List, [],
  ◌∷◌, ◌++◌, arith, eqb, Bool-cases, ◌==◌, ◌!=◌, Text, text, text_eq, ok, fail_if, wrap_error,
  fail_if-ok, wrap_error-ok, ok_injective, >>=-eq-ok, >>-eq-ok, all_checks, passed,
}
use fabricrunner.Id.{FabricId, is_zero_id}
use fabricrunner.Domain.{
  Workload, WorkloadState, workload_state_eq, can_transition_workload, transition_workload, Step,
  StepState, step_state_eq, can_transition_step, transition_step,
}
use fabricrunner.Domain.Transitions.{transition_workload-ok, transition_step-ok}
use fabricrunner.Event.{Event}
use fabricrunner.Execution.{ExecutionRecord}
use fabricrunner.Execution.Recorded.{check_record}
use fabricrunner.Projection.{
  StepCreatedPayload, Decoders, decode_payload, find_step, put_step, WorkloadProjection,
}
use fabricrunner.Projection.Apply.{
  apply_workload_created, apply_workload_transitioned, apply_step_created, apply_step_transitioned,
  apply_execution_recorded, apply_kind, apply, check_event, check_parent, new_step, require_step,
}

require_step-ok : (found : Option Step) (s : Step) → require_step found ≡ ok s → found ≡ some s
unfolding require_step
require_step-ok none s h = cc
require_step-ok (some t) s h = cc

module _ (decoders : Decoders) (json_valid : Text → Bool) (sha256 : List ℕ → List ℕ) where
  pub data Applied (p : WorkloadProjection) (e : Event) (q : WorkloadProjection) : Type 0 where
    created :
        (w : Workload)
        → p.version ≡ 0
        → is_zero_id p.workload.id ≡ true
        → w.id ≡ p.aggregate.id
        → w.state ≡ WorkloadState.created
        → q ≡ record p { workload = w }
        → Applied p e q
    transitioned :
        (to : WorkloadState)
        → is_zero_id p.workload.id ≡ false
        → can_transition_workload p.workload.state to ≡ true
        → q ≡ record p { workload = record p.workload { state = to; updated_at = e.occurred_at } }
        → Applied p e q
    step_created :
        (payload : StepCreatedPayload)
        → is_zero_id p.workload.id ≡ false
        → find_step payload.id p.steps ≡ none
        → check_parent p payload.parent_step_id ≡ ok tt
        → q ≡ record p { steps = put_step payload.id (new_step p e payload) p.steps }
        → Applied p e q
    step_transitioned :
        (id : FabricId) (s : Step) (to : StepState)
        → is_zero_id p.workload.id ≡ false
        → find_step id p.steps ≡ some s
        → can_transition_step s.state to ≡ true
        → q ≡ record p {
          steps = put_step s.id (record s { state = to; updated_at = e.occurred_at }) p.steps;
        }
        → Applied p e q
    recorded :
        (r : ExecutionRecord)
        → check_record json_valid sha256 p.workload.state p.workload.id
            (find_step r.step_id p.steps)
            p.execution
            e
            r
          ≡ ok tt
        → q ≡ record p { execution = p.execution ++ r ∷ [] }
        → Applied p e q

  created-Applied :
      (p q : WorkloadProjection) (e : Event)
      → apply_workload_created decoders p e ≡ ok q
      → Applied p e q
  unfolding apply_workload_created
  created-Applied p q e h =
      let (fresh, h1) =
        >>-eq-ok (fail_if (not (eqb p.version 0) || not (is_zero_id p.workload.id)) _) _ h in
      let (payload, decoded, h2) = >>=-eq-ok (decode_payload (decoders.created e.payload)) _ h1 in
      let (checked, h3) = >>-eq-ok (all_checks _) _ h2 in
      created _ (ground (arith, fail_if-ok _ _ fresh)) (ground (arith, fail_if-ok _ _ fresh)) refl
        refl (sym (ok_injective h3))

  transitioned-Applied :
      (p q : WorkloadProjection) (e : Event)
      → apply_workload_transitioned decoders p e ≡ ok q
      → Applied p e q
  unfolding apply_workload_transitioned transition_workload
  transitioned-Applied p q e h =
      let (present, h1) = >>-eq-ok (fail_if (is_zero_id p.workload.id) _) _ h in
      let (payload, decoded, h2) =
        >>=-eq-ok (decode_payload (decoders.transitioned e.payload)) _ h1 in
      let (checked, h3) = >>-eq-ok (all_checks _) _ h2 in
      let (w, moved, h4) =
        >>=-eq-ok (transition_workload p.workload payload.to_state e.occurred_at) _ h3 in
      let (able, w_is) = transition_workload-ok p.workload w payload.to_state e.occurred_at moved in
      transitioned payload.to_state (fail_if-ok _ _ present) able
        (sym (ok_injective h4) ∙ ap (λ x. record p { workload = x }) w_is)

  step_created-Applied :
      (p q : WorkloadProjection) (e : Event)
      → apply_step_created decoders p e ≡ ok q
      → Applied p e q
  unfolding apply_step_created
  step_created-Applied p q e h =
      let (present, h1) = >>-eq-ok (fail_if (is_zero_id p.workload.id) _) _ h in
      let (payload, decoded, h2) =
        >>=-eq-ok (decode_payload (decoders.step_created e.payload)) _ h1 in
      let (checked, h3) = >>-eq-ok (all_checks _) _ h2 in
      step_created payload (fail_if-ok _ _ present)
        (ground (arith, fail_if-ok _ _ (passed _ 1 checked refl))) (passed _ 6 checked refl)
        (sym (ok_injective h3))

  step_transitioned-Applied :
      (p q : WorkloadProjection) (e : Event)
      → apply_step_transitioned decoders p e ≡ ok q
      → Applied p e q
  unfolding apply_step_transitioned
  step_transitioned-Applied p q e h =
      let (present, h1) = >>-eq-ok (fail_if (is_zero_id p.workload.id) _) _ h in
      let (payload, decoded, h2) =
        >>=-eq-ok (decode_payload (decoders.step_transitioned e.payload)) _ h1 in
      let (checked, h3) = >>-eq-ok (all_checks _) _ h2 in
      let (s, found, h4) = >>=-eq-ok (require_step (find_step payload.step_id p.steps)) _ h3 in
      let (from, h5) = >>-eq-ok (fail_if (payload.from_state != s.state) _) _ h4 in
      let (t, moved, h6) = >>=-eq-ok (transition_step s payload.to_state e.occurred_at) _ h5 in
      let (able, t_is) = transition_step-ok s t payload.to_state e.occurred_at moved in
      step_transitioned payload.step_id s payload.to_state (fail_if-ok _ _ present)
        (require_step-ok _ s found) able
        (sym (ok_injective h6) ∙ ap (λ x. record p { steps = put_step x.id x p.steps }) t_is)

  recorded-Applied :
      (p q : WorkloadProjection) (e : Event)
      → apply_execution_recorded decoders json_valid sha256 p e ≡ ok q
      → Applied p e q
  unfolding apply_execution_recorded
  recorded-Applied p q e h =
      let (r, decoded, h1) = >>=-eq-ok (decode_payload (decoders.recorded e.payload)) _ h in
      let (checked, h2) = >>-eq-ok (check_record json_valid sha256 _ _ _ _ e r) _ h1 in
      recorded r checked (sym (ok_injective h2))

  kind-Applied :
      (p q : WorkloadProjection) (e : Event)
      → apply_kind decoders json_valid sha256 p e ≡ ok q
      → Applied p e q
  unfolding apply_kind
  kind-Applied p q e h = elim (Bool-cases (e.kind == text "workload.created")) [
    | inl a ↦ created-Applied p q e (rw a at h)
    | inr a ↦ elim (Bool-cases (e.kind == text "workload.transitioned")) [
      | inl b ↦ transitioned-Applied p q e (rw (a, b) at h)
      | inr b ↦ elim (Bool-cases (e.kind == text "step.created")) [
        | inl c ↦ step_created-Applied p q e (rw (a, b, c) at h)
        | inr c ↦ elim (Bool-cases (e.kind == text "step.transitioned")) [
          | inl d ↦ step_transitioned-Applied p q e (rw (a, b, c, d) at h)
          | inr d ↦ elim (Bool-cases (e.kind == text "execution.recorded")) [
            | inl r ↦ recorded-Applied p q e (rw (a, b, c, d, r) at h)
            | inr r ↦ absurd (cc (rw (a, b, c, d, r) at h))
          ]
        ]
      ]
    ]
  ]

  -- An event that `Apply` takes passed the checks on events, and made one of the five changes.
  pub apply-Applied :
      (p q : WorkloadProjection) (e : Event)
      → apply decoders json_valid sha256 p e ≡ ok q
      → (check_event json_valid sha256 p e ≡ ok tt)
        × ((changed : WorkloadProjection) × Applied p e changed
            × (q ≡ record changed { version = e.sequence }))
  unfolding apply
  apply-Applied p q e h =
      let (checked, h1) = >>-eq-ok (wrap_error _ (check_event json_valid sha256 p e)) _ h in
      let (changed, applied, h2) =
        >>=-eq-ok (wrap_error _ (apply_kind decoders json_valid sha256 p e)) _ h1 in
      (
        wrap_error-ok _ _ checked,
        (changed, kind-Applied p changed e (wrap_error-ok _ _ applied), sym (ok_injective h2)),
      )
