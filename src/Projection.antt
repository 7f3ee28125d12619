-- ===== src/Projection.antt =====
-- projection.go and store.go: the state of a workload, reconstructed from its events. `json.Valid`,
-- crypto/sha256 and the decoders of encoding/json are arguments. A method changes its receiver at
-- its end only, so it returns the new projection with `ok`, and leaves the old one with an error.
pub mod Apply
pub mod Applied
pub mod Steps
pub mod Coherent
pub mod Moves
pub mod Replayed
pub mod Incremental
mod Examples
use fabricrunner.Prelude.{
  ℕ, zero, suc, ◌+◌, ◌-◌, ◌*◌, ◌/◌, ◌%◌, ◌^◌, ◌≤◌, ◌<◌, String, ◌≡◌, refl, sym, ap, ◌∙◌, subst, ◌≢◌,
  ◌↔◌, ◌⊎◌, inl, inr, Bool, true, false, not, ◌&&◌, ◌||◌, Option, none, some, List, [], ◌∷◌, ◌++◌,
  map, arith, ltb, leb, eqb, if◌then◌else◌, ltb→lt, lt→ltb, eqb_iff, eqb_refl, Bool-cases,
  Option-cases, &&-eq-true, ||-eq-false, is_some, length, is_empty, get_elem?, get_or, take, drop,
  length-append, drop-length_append, append_one-append, All, All-append, length-map, Eq, ◌==◌, ◌!=◌,
  holds, holds_iff, eq_of_discrete, Text, text, text_beq, text_beq_iff, Text-discrete, text_eq,
  text_ltb, Sentinel, Error, sentinel, message, prefixed, wrap, errors_is, Result, ok, err, Check,
  ◌>>=◌, ◌>>◌, fail_if, prefix_error, wrap_error, fail_if-ok, prefix_error-ok, wrap_error-ok,
  unless-ok, ok_injective, >>=-eq-ok, >>-eq-ok, all_checks, passed, all_checks-pass,
  prefix_error-pass, equal_of_same, same, holds_of_not, holds_refl, Sentinel-discrete, fail_if-pass,
  ℤ, pos, negsuc, ℤ-discrete, pos_part, neg_part, ◌+ℤ◌, ◌-ℤ◌, ◌*ℤ◌, ◌≤ℤ◌, ◌<ℤ◌, ltb_ℤ, is_neg,
  +ℤ_parts, -ℤ_parts, eq_of_parts, int_laws, eq-pos_of_not-neg, to_uint64, of_uint64, add64, sub64,
  mul64, add64_exact, add64_overflow,
}
use fabricrunner.Id.{FabricId, validate_id, is_zero_id}
use fabricrunner.Strings.{is_blank}
use fabricrunner.Domain.{
  Time, Budget, validate_budget, Workload, WorkloadState, workload_state_eq, WorkloadState-discrete,
  validate_workload_state, transition_workload, StepKind, validate_step_kind, Step, StepState,
  step_state_eq, StepState-discrete, validate_step_state, transition_step, Requirements,
  validate_requirements,
}
use fabricrunner.Event.{
  AggregateRef, AggregateRef-discrete, validate_ref, Event, EventDraft, validate_draft,
}
use fabricrunner.Execution.{ExecutionRecord}
use fabricrunner.Execution.Recorded.{check_record}
use fabricrunner.Store.{Streams, load}

abbrev pub workload_type : Text
workload_type = text "workload"

abbrev pub core_event_schema : ℕ
core_event_schema = 1

pub record WorkloadCreatedPayload : Type 0 where
  pub session_id : FabricId
  pub goal : Text
  pub budget : Budget

pub record WorkloadTransitionedPayload : Type 0 where
  pub from_state : WorkloadState
  pub to_state : WorkloadState

pub record StepCreatedPayload : Type 0 where
  pub id : FabricId
  pub parent_step_id : FabricId
  pub kind : StepKind
  pub requirements : Requirements
  pub budget : Budget
  pub attempt : ℤ
  pub idempotency_key : Text

pub record StepTransitionedPayload : Type 0 where
  pub step_id : FabricId
  pub from_state : StepState
  pub to_state : StepState

-- What a `json.Decoder` finds behind the first value: the end, another value, or an error.
pub data Trailing : Type 0 where
  at_end another_value : Trailing
  bad_trailing : Error → Trailing

pub record Decoders : Type 0 where
  pub created : Text → Result (WorkloadCreatedPayload × Trailing)
  pub transitioned : Text → Result (WorkloadTransitionedPayload × Trailing)
  pub step_created : Text → Result (StepCreatedPayload × Trailing)
  pub step_transitioned : Text → Result (StepTransitionedPayload × Trailing)
  pub recorded : Text → Result (ExecutionRecord × Trailing)

unfoldable pub decode_payload : {A : Type 0} → Result (A × Trailing) → Result A
decode_payload (err e) = err (prefixed "decode event payload" e)
decode_payload (ok (a, at_end)) = ok a
decode_payload (ok (a, another_value)) = err (message "event payload contains multiple JSON values")
decode_payload (ok (a, bad_trailing e)) = err (prefixed "decode trailing event payload" e)

-- `map[ID]Step`: the first pair with the key holds the step.
abbrev pub Steps : Type 0
Steps = List (FabricId × Step)

unfoldable pub find_step : FabricId → Steps → Option Step
unfolding text_beq
find_step id [] = none
find_step id ((k, s) ∷ rest) = if k == id then some s else find_step id rest

unfoldable pub put_step : FabricId → Step → Steps → Steps
unfolding text_beq
put_step id step [] = (id, step) ∷ []
put_step id step ((k, s) ∷ rest) =
    let after = put_step id step rest in if k == id then (k, step) ∷ rest else (k, s) ∷ after

pub record WorkloadProjection : Type 0 where
  pub aggregate : AggregateRef
  pub version : ℕ
  pub workload : Workload
  pub steps : Steps
  pub execution : List ExecutionRecord

-- The zero value of `Workload`.
abbrev pub no_workload : Workload
no_workload = record {
  id = [];
  session_id = [];
  goal = [];
  state = WorkloadState.other_workload_state [];
  budget = record {
    max_steps = pos 0;
    max_input_tokens = pos 0;
    max_output_tokens = pos 0;
    max_model_calls = pos 0;
    max_tool_calls = pos 0;
    max_child_steps = pos 0;
    max_cost = pos 0;
    max_wall_time = pos 0;
  };
  created_at = pos 0;
  updated_at = pos 0;
}

abbrev pub empty_projection : AggregateRef → WorkloadProjection
empty_projection ref = record {
  aggregate = ref;
  version = 0;
  workload = no_workload;
  steps = [];
  execution = [];
}

unfoldable pub new_projection : AggregateRef → Result WorkloadProjection
unfolding validate_ref text_beq
new_projection ref = do
  validate_ref ref
  fail_if (ref.kind != workload_type)
      (message "workload projection requires aggregate type workload")
  ok (empty_projection ref)

-- `NewCoreEventDraft`; `encoded` is what `json.Marshal` returns for the payload.
unfoldable pub new_core_event_draft : (Text → Bool) → Text → Result Text → Result EventDraft
unfolding validate_draft
new_core_event_draft json_valid kind encoded = do
  payload ← prefix_error "marshal payload" encoded
  (let draft : EventDraft = record {
    kind = kind;
    schema_version = core_event_schema;
    causation_id = [];
    correlation_id = [];
    attempt_id = [];
    payload = payload;
  } in
      validate_draft json_valid draft >> ok draft)
