-- ===== src/Execution/Examples.antt =====
-- The theorem on execution records at the stop of a loop, the first record of its step.
use fabricrunner.Prelude.{
  ℕ, ◌≡◌, refl, Bool, true, false, none, some, List, [], ◌∷◌, Text, text, text_eq, ok, all_checks,
  pos,
}
use native.Mathlib.Decide.{ℕ_discrete}
use fabricrunner.Id.{FabricId, sample_id}
use fabricrunner.Domain.{Budget, public, WorkloadState, Step, StepState, model_turn}
use fabricrunner.Event.{Event}
use fabricrunner.Turn.{stop_end_turn}
use fabricrunner.Loop.{LoopEvent, loop_stopped}
use fabricrunner.Execution.{ExecutionRecord, loop_event}
use fabricrunner.Execution.Recorded.{check_record}
use fabricrunner.Execution.LoopEvents.{loop_events}
use fabricrunner.Execution.History.{IsHistory, check_record-IsHistory}

abbrev any_json : Text → Bool
any_json s = true

abbrev one_digest : List ℕ → List ℕ
one_digest bytes = 1 ∷ 2 ∷ 3 ∷ []

abbrev no_budget : Budget
no_budget = record {
  max_steps = pos 0;
  max_input_tokens = pos 0;
  max_output_tokens = pos 0;
  max_model_calls = pos 0;
  max_tool_calls = pos 0;
  max_child_steps = pos 0;
  max_cost = pos 0;
  max_wall_time = pos 0;
}

abbrev running_step : Step
running_step = record {
  id = sample_id;
  workload_id = sample_id;
  parent_step_id = [];
  kind = model_turn;
  state = StepState.running;
  requirements = record {
    modalities = [];
    required_tools = [];
    min_context_tokens = pos 0;
    min_quality_class = [];
    allowed_zones = [];
    native_tool_use = false;
    structured_output = false;
  };
  budget = no_budget;
  attempt = pos 1;
  idempotency_key = [];
  created_at = pos 1;
  updated_at = pos 1;
}

abbrev stop_event : LoopEvent
stop_event = record {
  checkpoint = none;
  sequence = 1;
  kind = loop_stopped;
  turn = pos 0;
  model = record { provider = []; model = [] };
  model_event = none;
  message_value = none;
  tool_call = none;
  tool_output = none;
  failure_code = [];
  stop = stop_end_turn;
}

abbrev stop_record : ExecutionRecord
stop_record = record {
  step_id = sample_id;
  turn = pos 0;
  stage = loop_event;
  classification = public;
  manifest = none;
  verdict = none;
  routing = none;
  loop = some stop_event;
  result = none;
  failure_code = [];
  sandbox_event = none;
  approval_record = none;
  budget_record = none;
  cleanup_record = none;
  compaction_record = none;
  request_sha256 = [];
}

abbrev carrier : Event
carrier = record {
  id = sample_id;
  aggregate = record { kind = text "workload"; id = sample_id };
  sequence = 7;
  kind = text "execution.recorded";
  schema_version = 1;
  causation_id = [];
  correlation_id = sample_id;
  attempt_id = sample_id;
  occurred_at = pos 9;
  payload = text "{}";
  payload_sha256 = [];
}

checked :
    check_record any_json one_digest WorkloadState.running sample_id
      (some running_step)
      []
      carrier
      stop_record
    ≡ ok tt
unfolding check_record all_checks ℕ_discrete
checked = refl

empty-IsHistory : (step : FabricId) → IsHistory [] step
unfolding loop_events
empty-IsHistory step = record { contiguous = tt; finished_last = tt }

check_record-IsHistory_example : IsHistory (stop_record ∷ []) sample_id
check_record-IsHistory_example =
    check_record-IsHistory any_json one_digest WorkloadState.running sample_id (some running_step)
      [] carrier stop_record empty-IsHistory checked sample_id
