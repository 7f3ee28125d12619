-- ===== src/Projection/Apply.antt =====
-- projection.go and store.go: the methods that apply an event, Replay and LoadWorkloadProjection.
use fabricrunner.Prelude.{
  ℕ, ◌+◌, ◌%◌, ◌^◌, Bool, not, ◌||◌, Option, none, some, List, [], ◌∷◌, ◌++◌, eqb, if◌then◌else◌,
  is_some, ◌==◌, ◌!=◌, holds, Text, text, text_beq, text_eq, Sentinel, Error, sentinel, message,
  wrap, Result, ok, err, Check, ◌>>=◌, ◌>>◌, fail_if, prefix_error, wrap_error, all_checks, pos,
  ltb_ℤ,
}
use fabricrunner.Id.{FabricId, validate_id, is_zero_id}
use fabricrunner.Strings.{is_blank}
use fabricrunner.Domain.{
  validate_budget, WorkloadState, workload_state_eq, WorkloadState-discrete,
  validate_workload_state, transition_workload, validate_step_kind, Step, StepState, step_state_eq,
  StepState-discrete, validate_step_state, transition_step, validate_requirements,
}
use fabricrunner.Event.{AggregateRef, AggregateRef-discrete, validate_ref, Event, validate_event}
use fabricrunner.Execution.Recorded.{check_record}
use fabricrunner.Store.{Streams, load}
use fabricrunner.Projection.{
  workload_type, core_event_schema, StepCreatedPayload, Decoders, decode_payload, find_step,
  put_step, WorkloadProjection, new_projection,
}

abbrev pub bad_event : Error → Error
bad_event e = wrap (sentinel Sentinel.invalid_projection_event) e

abbrev not_created : Error
not_created = message "workload has not been created"

-- The parent that a step names has been created.
unfoldable pub check_parent : WorkloadProjection → FabricId → Check
unfolding is_zero_id validate_id find_step
check_parent p parent =
    if is_zero_id parent
    then ok tt
    else all_checks (
        prefix_error "parent step ID" (validate_id parent)
        ∷ fail_if (not (is_some (find_step parent p.steps))) (message "parent step does not exist")
        ∷ [])

unfoldable pub new_step : WorkloadProjection → Event → StepCreatedPayload → Step
new_step p e payload = record {
  id = payload.id;
  workload_id = p.workload.id;
  parent_step_id = payload.parent_step_id;
  kind = payload.kind;
  state = StepState.pending;
  requirements = payload.requirements;
  budget = payload.budget;
  attempt = payload.attempt;
  idempotency_key = payload.idempotency_key;
  created_at = e.occurred_at;
  updated_at = e.occurred_at;
}

-- `step, exists := p.Steps[id]`, where a missing step is an error.
unfoldable pub require_step : Option Step → Result Step
require_step none = err (message "step does not exist")
require_step (some s) = ok s

module _ (json_valid : Text → Bool) (sha256 : List ℕ → List ℕ) where
  -- The tests of `Apply` before the switch.
  unfoldable pub check_event : WorkloadProjection → Event → Check
  unfolding validate_ref text_beq validate_event AggregateRef-discrete
  check_event p e = all_checks (
      prefix_error "projection aggregate" (validate_ref p.aggregate)
      ∷ fail_if (p.aggregate.kind != workload_type)
          (message "projection aggregate type is not workload")
      ∷ validate_event json_valid sha256 e
      ∷ fail_if (not (holds (AggregateRef-discrete e.aggregate p.aggregate)))
          (message "event aggregate does not match projection")
      ∷ fail_if (not (eqb e.sequence ((p.version + 1) % 2 ^ 64)))
          (message "event sequence does not follow the version")
      ∷ fail_if (not (eqb e.schema_version core_event_schema))
          (message "schema version is unsupported")
      ∷ [])

module _ (decoders : Decoders) where
  unfoldable pub apply_workload_created : WorkloadProjection → Event → Result WorkloadProjection
  unfolding is_zero_id decode_payload validate_id is_blank validate_budget
  apply_workload_created p e = do
    fail_if (not (eqb p.version 0) || not (is_zero_id p.workload.id))
        (message "workload already created")
    payload ← decode_payload (decoders.created e.payload)
    all_checks (
        prefix_error "session ID" (validate_id payload.session_id)
        ∷ fail_if (is_blank payload.goal) (message "workload goal is required")
        ∷ prefix_error "workload budget" (validate_budget payload.budget)
        ∷ [])
    ok (record p {
      workload = record {
        id = p.aggregate.id;
        session_id = payload.session_id;
        goal = payload.goal;
        state = WorkloadState.created;
        budget = payload.budget;
        created_at = e.occurred_at;
        updated_at = e.occurred_at;
      };
    })

  unfoldable pub apply_workload_transitioned :
      WorkloadProjection → Event → Result WorkloadProjection
  unfolding is_zero_id decode_payload validate_workload_state WorkloadState-discrete
      transition_workload
  apply_workload_transitioned p e = do
    fail_if (is_zero_id p.workload.id) not_created
    payload ← decode_payload (decoders.transitioned e.payload)
    all_checks (
        validate_workload_state payload.from_state
        ∷ validate_workload_state payload.to_state
        ∷ fail_if (payload.from_state != p.workload.state)
            (message "workload state differs from the event's")
        ∷ [])
    w ← transition_workload p.workload payload.to_state e.occurred_at
    ok (record p { workload = w })

  unfoldable pub apply_step_created : WorkloadProjection → Event → Result WorkloadProjection
  unfolding is_zero_id decode_payload validate_id find_step put_step validate_step_kind
      validate_requirements validate_budget check_parent new_step
  apply_step_created p e = do
    fail_if (is_zero_id p.workload.id) not_created
    payload ← decode_payload (decoders.step_created e.payload)
    all_checks (
        prefix_error "step ID" (validate_id payload.id)
        ∷ fail_if (is_some (find_step payload.id p.steps)) (message "step already exists")
        ∷ validate_step_kind payload.kind
        ∷ prefix_error "step requirements" (validate_requirements payload.requirements)
        ∷ prefix_error "step budget" (validate_budget payload.budget)
        ∷ fail_if (ltb_ℤ payload.attempt (pos 1)) (message "step attempt must be positive")
        ∷ check_parent p payload.parent_step_id
        ∷ [])
    ok (record p { steps = put_step payload.id (new_step p e payload) p.steps })

  unfoldable pub apply_step_transitioned : WorkloadProjection → Event → Result WorkloadProjection
  unfolding is_zero_id decode_payload validate_id find_step put_step require_step
      validate_step_state StepState-discrete transition_step
  apply_step_transitioned p e = do
    fail_if (is_zero_id p.workload.id) not_created
    payload ← decode_payload (decoders.step_transitioned e.payload)
    all_checks (
        prefix_error "step ID" (validate_id payload.step_id)
        ∷ validate_step_state payload.from_state
        ∷ validate_step_state payload.to_state
        ∷ [])
    s ← require_step (find_step payload.step_id p.steps)
    fail_if (payload.from_state != s.state) (message "step state differs from the event's")
    t ← transition_step s payload.to_state e.occurred_at
    ok (record p { steps = put_step t.id t p.steps })

  module _ (json_valid : Text → Bool) (sha256 : List ℕ → List ℕ) where
    unfoldable pub apply_execution_recorded : WorkloadProjection → Event → Result WorkloadProjection
    unfolding decode_payload check_record find_step
    apply_execution_recorded p e = do
      r ← decode_payload (decoders.recorded e.payload)
      check_record json_valid sha256 p.workload.state p.workload.id (find_step r.step_id p.steps)
          p.execution e r
      ok (record p { execution = p.execution ++ r ∷ [] })

    unfoldable pub apply_kind : WorkloadProjection → Event → Result WorkloadProjection
    unfolding text_beq apply_workload_created apply_workload_transitioned apply_step_created
        apply_step_transitioned apply_execution_recorded
    apply_kind p e =
        if e.kind == text "workload.created"
        then apply_workload_created p e
        else if e.kind == text "workload.transitioned"
        then apply_workload_transitioned p e
        else if e.kind == text "step.created"
        then apply_step_created p e
        else if e.kind == text "step.transitioned"
        then apply_step_transitioned p e
        else if e.kind == text "execution.recorded"
        then apply_execution_recorded p e
        else err (message "unknown event type")

    -- `Apply`
    unfoldable pub apply : WorkloadProjection → Event → Result WorkloadProjection
    unfolding check_event apply_kind
    apply p e = do
      wrap_error (sentinel Sentinel.invalid_projection_event) (check_event json_valid sha256 p e)
      q ← wrap_error (sentinel Sentinel.invalid_projection_event) (apply_kind p e)
      ok (record q { version = e.sequence })

    -- The loop of `Replay`; `cancelled i` is what `ctx.Err()` returns before the i-th event.
    unfoldable pub apply_all :
        (ℕ → Option Error) → ℕ → List Event → WorkloadProjection → Result WorkloadProjection
    unfolding apply
    apply_all cancelled i [] p = ok p
    apply_all cancelled i (e ∷ es) p = elim (cancelled i) [
      | some c ↦ err c
      | none ↦ do q ← prefix_error "apply event" (apply p e); apply_all cancelled (i + 1) es q
    ]

    -- `LoadWorkloadProjection` on the in-memory store.
    unfoldable pub load_projection :
        Option Error → (ℕ → Option Error) → AggregateRef → Streams → Result WorkloadProjection
    unfolding new_projection load apply_all
    load_projection at_load cancelled ref s = do
      p ← new_projection ref
      events ← load at_load ref 0 s
      q ← apply_all cancelled 0 events p
      fail_if (eqb q.version 0) (sentinel Sentinel.aggregate_not_found)
      ok q
