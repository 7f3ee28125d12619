-- ===== src/Engine/Turns.antt =====
-- loop/engine.go: consumeTurn, over the calls of Recv of a stream.
use fabricrunner.Prelude.{
  ℕ, zero, suc, ◌+◌, Bool, not, Option, none, some, List, [], ◌∷◌, ◌++◌, if◌then◌else◌, is_empty,
  Text, text_eq, Sentinel, Error, sentinel, message, wrap, ok, err, Check, ◌>>◌, fail_if, ℤ,
}
use fabricrunner.Domain.{Budget}
use fabricrunner.Model.{ModelRef, Usage}
use fabricrunner.Turn.{
  ToolCall, ModelEventType, event_text_delta, event_tool_call, event_usage, event_stop, event_error,
  ModelEvent, other_stop,
}
use fabricrunner.Stream.{
  ModelStreamValidator, new_validator, accept, complete, Received, received, end_of_stream, failed,
  ModelStream, join,
}
use fabricrunner.Loop.{LoopEvent, loop_model, LoopResult}
use fabricrunner.Engine.{
  LoopContext, context_result, LoopEmitter, emit, TurnData, add_usage, exceeded_usage, over_budget,
}

-- What a turn changes: the data it gathers, the result and the emitter.
pub record TurnState : Type 0 where
  pub gathered : TurnData
  pub result : LoopResult
  pub emitter : LoopEmitter

abbrev pub no_data : TurnData
no_data = record { text_value = []; calls = []; stop = other_stop []; model_error = none }

-- The event that reports a model event.
abbrev pub model_report : ℤ → ModelRef → ModelEvent → LoopEvent
model_report turn model e = record {
  checkpoint = none;
  sequence = 0;
  kind = loop_model;
  turn = turn;
  model = model;
  model_event = some e;
  message_value = none;
  tool_call = none;
  tool_output = none;
  failure_code = [];
  stop = other_stop [];
}

-- `cloneCall(*event.ToolCall)` at the end of the calls; an accepted event has one.
unfoldable pub add_call : List ToolCall → Option ToolCall → List ToolCall
add_call calls none = calls
add_call calls (some c) = calls ++ c ∷ []

-- `result.BudgetExceeded = kind`, where the usage was added and a budget is exceeded.
unfoldable pub exceeded_kind : Check → Text → Text → Text
exceeded_kind (err e) kind before = before
exceeded_kind (ok _) kind before = if is_empty kind then before else kind

-- The case of a usage event.
unfoldable pub gather_usage : Budget → TurnState → Option Usage → TurnState × Check
unfolding add_usage exceeded_usage exceeded_kind
gather_usage b s u =
    let total = (add_usage s.result.usage u).0 in
    let added = (add_usage s.result.usage u).1 in
    let kind = exceeded_usage total b in
    (
      record s {
        result = record s.result {
          usage = total;
          budget_exceeded = exceeded_kind added kind s.result.budget_exceeded;
        };
      },
      added >> fail_if (not (is_empty kind)) over_budget,
    )

-- The switch on the type of an event.
unfoldable pub gather : Budget → TurnState → ModelEvent → ModelEventType → TurnState × Check
unfolding add_call gather_usage
gather b s e event_text_delta = (
  record s { gathered = record s.gathered { text_value = s.gathered.text_value ++ e.text_value } },
  ok tt,
)
gather b s e event_tool_call = (
  record s { gathered = record s.gathered { calls = add_call s.gathered.calls e.tool_call } },
  ok tt,
)
gather b s e event_usage = gather_usage b s e.usage
gather b s e event_stop = (record s { gathered = record s.gathered { stop = e.stop } }, ok tt)
gather b s e event_error =
    (record s { gathered = record s.gathered { model_error = e.error } }, ok tt)
gather b s e _ = (s, ok tt)

-- `if contextErr := contextResult(...); contextErr != nil { return contextErr }; return err`
unfoldable pub receive_error : LoopContext → LoopResult → Error → LoopResult × Error
unfolding context_result
receive_error c r e =
    let (after, checked) = context_result c r in
    elim checked [ err x ↦ (after, x) | ok _ ↦ (after, e) ]

-- How an event ends that was accepted or not, reported or not, and then gathered.
unfoldable pub settle :
    Check
    → Check
    → ModelStreamValidator
    → TurnState
    → TurnState
    → TurnState × Check
    → ModelStreamValidator × TurnState × Check
settle (err x) emitted w s reported g = (w, s, err (wrap (sentinel Sentinel.loop_stream) x))
settle (ok _) (err x) w s reported g = (w, reported, err x)
settle (ok _) (ok _) w s reported g = (w, g.0, g.1)

abbrev pub with_emitter : TurnState → LoopEmitter → TurnState
with_emitter s m = record s { emitter = m }

-- The deferred call of `Close`.
unfoldable pub close_turn :
    Option Error → Option (TurnState × Option Error) → Option (TurnState × Option Error)
unfolding join
close_turn closed none = none
close_turn closed (some (s, failure)) = some (s, join failure closed)

module _ (json_valid : Text → Bool) (turn : ℤ) (model : ModelRef) (b : Budget) where
  -- The part of the loop's body that follows `Recv`, on an event.
  unfoldable pub take_event :
      ModelStreamValidator → TurnState → ModelEvent → ModelStreamValidator × TurnState × Check
  unfolding accept emit gather settle
  take_event v s e =
      let report = emit s.emitter (model_report turn model e) in
      let reported = with_emitter s report.0 in
      let decided = accept json_valid v e in
      settle decided.1 report.1 decided.0 s reported (gather b reported e e.kind)

  -- The loop from its i-th call of `Recv`; `contexts` are those at its head and behind a failure.
  unfoldable pub consume :
      (ℕ → LoopContext)
      → (ℕ → LoopContext)
      → (ℕ → Received)
      → ℕ
      → ℕ
      → ModelStreamValidator
      → TurnState
      → Option (TurnState × Option Error)
  unfolding context_result take_event complete receive_error
  consume at_head at_failure recv zero i v s = none
  consume at_head at_failure recv (suc fuel) i v s =
      let (r, live) = context_result (at_head i) s.result in
      let entered = record s { result = r } in
      elim live [
        | err e ↦ some (entered, some e)
        | ok _ ↦ elim (recv i) [
          | end_of_stream ↦ elim (complete v) [
            | err x ↦ some (entered, some (wrap (sentinel Sentinel.loop_stream) x))
            | ok _ ↦ some (entered, none)
          ]
          | failed e cancelled ↦
              let (after, x) = receive_error (at_failure i) r e in
              some (record entered { result = after }, some x)
          | received event ↦
              let (w, after, taken) = take_event v entered event in
              elim taken [
                | err x ↦ some (after, some x)
                | ok _ ↦ consume at_head at_failure recv fuel (i + 1) w after
              ]
        ]
      ]

  -- `consumeTurn`
  unfoldable pub consume_turn :
      (ℕ → LoopContext)
      → (ℕ → LoopContext)
      → Option ModelStream
      → LoopResult
      → LoopEmitter
      → ℕ
      → Option (TurnState × Option Error)
  unfolding consume close_turn
  consume_turn at_head at_failure none r m fuel = some (
    record { gathered = no_data; result = r; emitter = m },
    some (message "provider returned a nil model stream"),
  )
  consume_turn at_head at_failure (some s) r m fuel = close_turn s.closed (
      consume at_head at_failure s.recv fuel 0 new_validator
        (record { gathered = no_data; result = r; emitter = m }))
