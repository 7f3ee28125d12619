-- ===== src/Engine/Examples.antt =====
-- The theorems on the turn loop at a stream of two events, with every text taken for JSON.
use fabricrunner.Prelude.{
  ℕ, ◌+◌, ◌-◌, ◌^◌, ◌≡◌, refl, ◌⊎◌, Bool, true, false, Option, none, some, List, [], ◌∷◌, ◌++◌, map,
  arith, eqb, if◌then◌else◌, is_some, get_elem?, Text, text, text_eq, Error, message, Result, ok,
  err, Check, all_checks, pos,
}
use fabricrunner.Domain.{Budget, public}
use fabricrunner.Model.{ModelRef, Usage}
use fabricrunner.Turn.{
  ModelEventType, event_start, event_usage, event_stop, ModelEventType-discrete, ToolCall,
  ModelEvent, ToolCall, other_stop, stop_end_turn, StopReason,
}
use fabricrunner.Stream.{ModelStream, Received, received, end_of_stream, drain_stream}
use fabricrunner.Stream.Protocol.{IsStream}
use fabricrunner.Stream.Receiving.{Yields}
use fabricrunner.Id.{sample_id}
use fabricrunner.Message.{choice_auto}
use fabricrunner.Loop.{LoopEvent, LoopResult, LoopRequest, ToolOutput, ToolHandler}
use fabricrunner.Engine.Tools.{ToolExecution, CompiledTool, is_parallel}
use fabricrunner.Engine.Batch.{execute_batch}
use fabricrunner.Engine.Settled.{IsAnswer, Answers, execute_batch-Answers}
use fabricrunner.Engine.{has_negative, add_usage, LoopContext, LoopEmitter}
use fabricrunner.Engine.Accounting.{usage_of, SumsFit, add_usage_exact}
use fabricrunner.Engine.Budgeted.{IsWithin}
use fabricrunner.Engine.Turns.{TurnState, no_data, consume_turn}
use fabricrunner.Engine.Steps.{reports}
use fabricrunner.Engine.Ends.{consume_turn-terminates}
use fabricrunner.Engine.Reported.{consume_turn-drained, consume_turn-IsWithin}

abbrev any_json : Text → Bool
any_json s = true

add_usage_exact_example :
    (SumsFit 1 2 3 4 (2 ^ 63 - 1) 10 20 30 40 1
      × (add_usage (usage_of 1 2 3 4 (2 ^ 63 - 1)) (some (usage_of 10 20 30 40 1))
          ≡ (usage_of (1 + 10) (2 + 20) (3 + 30) (4 + 40) (2 ^ 63 - 1 + 1), ok tt)))
    ⊎ ((¬ SumsFit 1 2 3 4 (2 ^ 63 - 1) 10 20 30 40 1)
        × ((add_usage (usage_of 1 2 3 4 (2 ^ 63 - 1)) (some (usage_of 10 20 30 40 1))).1
            ≡ err (message "usage values overflowed")))
add_usage_exact_example =
    add_usage_exact 1 2 3 4 (2 ^ 63 - 1) 10 20 30 40 1
      (omega arith, omega arith, omega arith, omega arith, omega arith)
      (omega arith, omega arith, omega arith, omega arith, omega arith)

abbrev small_budget : Budget
small_budget = record {
  max_steps = pos 1;
  max_input_tokens = pos 100;
  max_output_tokens = pos 100;
  max_model_calls = pos 1;
  max_tool_calls = pos 1;
  max_child_steps = pos 0;
  max_cost = pos 100;
  max_wall_time = pos 1000;
}

abbrev plain_event : ModelEventType → ℕ → Option Usage → StopReason → ModelEvent
plain_event kind sequence usage stop = record {
  kind = kind;
  sequence = sequence;
  text_value = [];
  tool_call_delta = none;
  tool_call = none;
  usage = usage;
  stop = stop;
  error = none;
  extension = [];
}

abbrev three_events : List ModelEvent
three_events =
    plain_event event_start 1 none (other_stop [])
    ∷ plain_event event_usage 2 (some (usage_of 5 6 0 0 7)) (other_stop [])
    ∷ plain_event event_stop 3 none stop_end_turn
    ∷ []

abbrev recv_three : ℕ → Received
recv_three i = elim (get_elem? three_events i) [ none ↦ end_of_stream | some e ↦ received e ]

abbrev stream_of_three : ModelStream
stream_of_three = record { recv = recv_three; closed = none }

abbrev some_model : ModelRef
some_model = record { provider = text "p"; model = text "m" }

abbrev result_with : Usage → LoopResult
result_with u = record {
  messages = [];
  usage = u;
  stop = other_stop [];
  model_calls = pos 1;
  tool_calls = pos 0;
  failures = [];
  budget_exceeded = [];
}

abbrev emitter_at : ℕ → List LoopEvent → LoopEmitter
emitter_at n given = record { sink = some (λ e. none); sequence = n; failed = false; given = given }

abbrev live : ℕ → LoopContext
live i = record { loop_err = none; budget_cause = false; parent_err = none }

abbrev after_turn : TurnState
after_turn = record {
  gathered = record no_data { stop = stop_end_turn };
  result = result_with (usage_of 5 6 0 0 7);
  emitter = emitter_at 4 (reports (pos 1) some_model 1 three_events);
}

consumed :
    consume_turn any_json
      (pos 1)
      some_model
      small_budget
      live
      live
      (some stream_of_three)
      (result_with (usage_of 0 0 0 0 0))
      (emitter_at 1 [])
      4
    ≡ some (after_turn, none)
unfolding consume_turn all_checks ModelEventType-discrete
consumed = refl

zero-IsWithin : IsWithin small_budget (usage_of 0 0 0 0 0)
unfolding has_negative
zero-IsWithin = record {
  counts = refl;
  input = omega arith;
  output = omega arith;
  cost = omega arith;
}

consume_turn-drained_example :
    (events : List ModelEvent) × Yields recv_three 0 events
    × IsStream any_json events
    × (drain_stream any_json (some stream_of_three) 4 ≡ some (events, none))
    × (after_turn.emitter.given ≡ [] ++ reports (pos 1) some_model 1 events)
consume_turn-drained_example =
    consume_turn-drained any_json (pos 1) some_model small_budget live live stream_of_three
      (result_with (usage_of 0 0 0 0 0)) (emitter_at 1 []) 4 after_turn refl consumed

consume_turn-IsWithin_example : IsWithin small_budget (usage_of 5 6 0 0 7)
consume_turn-IsWithin_example =
    consume_turn-IsWithin any_json (pos 1) some_model small_budget live live stream_of_three
      (result_with (usage_of 0 0 0 0 0)) (emitter_at 1 []) 4 after_turn refl zero-IsWithin consumed

consume_turn-terminates_example :
    is_some (
      consume_turn any_json
        (pos 1)
        some_model
        small_budget
        live
        live
        (some stream_of_three)
        (result_with (usage_of 0 0 0 0 0))
        (emitter_at 1 [])
        (2 ^ 64))
    ≡ true
consume_turn-terminates_example =
    consume_turn-terminates any_json (pos 1) some_model small_budget live live
      (some stream_of_three) (result_with (usage_of 0 0 0 0 0)) (emitter_at 1 []) (2 ^ 64)
      (omega arith)

abbrev no_schema : Text → Result (Unit {0})
no_schema s = ok tt

abbrev any_value : Unit {0} → Text → Check
any_value s v = ok tt

abbrev not_public : Error → Option (Text × Text)
not_public e = none

abbrev code_text : Text → Text → Text
code_text code detail = code

abbrev loop_request : LoopRequest
loop_request = record {
  continuation = none;
  workload_id = sample_id;
  step_id = sample_id;
  attempt_id = sample_id;
  initial = record {
    automatic_compaction = false;
    model = some_model;
    messages = [];
    tools = [];
    tool_choice = record { mode = choice_auto; name = [] };
    output = none;
    max_output_tokens = pos 0;
    metadata = [];
    extension = [];
  };
  tools = [];
  middleware = [];
  selector = none;
  sink = none;
  budget = small_budget;
  parallel_tools = true;
  model_output_class = public;
  tool_error_class = public;
}

abbrev call : Text → ToolCall
call id = record { id = id; name = text "t"; input = text "{}" }

abbrev plain_output : ToolOutput
plain_output = record { json = text "{}"; content = []; classification = public; is_error = false }

-- It answers the first call of a batch, fails at the second and panics at each later one.
abbrev once : ToolHandler
once = record {
  execute = λ k i.
      (if eqb k 0
        then some (ok plain_output)
        else if eqb k 1
        then some (err (message "used up"))
        else none);
  closed = none;
}

abbrev tool : CompiledTool no_schema any_value not_public code_text any_json
tool = record {
  binding = record {
    definition = record {
      side_effecting = false;
      name = text "t";
      description = [];
      input_schema = text "{}";
      output_schema = [];
      strict = false;
    };
    handler = some once;
    parallel_safe = true;
  };
  input = tt;
  output = none;
}

abbrev three_calls : List ToolCall
three_calls = call (text "1") ∷ call (text "2") ∷ call (text "3") ∷ []

abbrev batch : LoopResult × List ToolExecution × Check
batch =
    execute_batch no_schema any_value not_public code_text any_json ((text "t", tool) ∷ [])
      loop_request (pos 1) live (result_with (usage_of 0 0 0 0 0)) three_calls

batch_ends : batch.2 ≡ ok tt
unfolding execute_batch
batch_ends = refl

batch_failures : map (λ (x : ToolExecution). is_some x.failure) batch.1 ≡ false ∷ true ∷ true ∷ []
unfolding execute_batch all_checks
batch_failures = refl

runs_parallel :
    is_parallel no_schema any_value not_public code_text any_json
      ((text "t", tool) ∷ [])
      true
      three_calls
    ≡ true
unfolding is_parallel
runs_parallel = refl

execute_batch-Answers_example : Answers (IsAnswer any_json loop_request) three_calls batch.1
execute_batch-Answers_example =
    execute_batch-Answers no_schema any_value not_public code_text any_json loop_request (pos 1)
      ((text "t", tool) ∷ []) live (result_with (usage_of 0 0 0 0 0)) three_calls batch_ends
