-- ===== src/Engine.antt =====
-- loop/engine.go: the pieces of the turn loop: accounting of usage, failures, emitted events and the
-- messages that a turn makes.
pub mod Turns
pub mod Tools
pub mod Batch
pub mod Settled
pub mod Accounting
pub mod Budgeted
pub mod Steps
pub mod Reported
pub mod Ends
mod Examples
use fabricrunner.Prelude.{
  ℕ, zero, suc, ◌+◌, ◌-◌, ◌*◌, ◌/◌, ◌%◌, ◌^◌, ◌≤◌, ◌<◌, String, ◌≡◌, refl, sym, ap, ◌∙◌, subst, ◌≢◌,
  ◌↔◌, ◌⊎◌, inl, inr, Bool, true, false, not, ◌&&◌, ◌||◌, Option, none, some, List, [], ◌∷◌, ◌++◌,
  map, arith, ltb, leb, eqb, if◌then◌else◌, ltb→lt, lt→ltb, eqb_iff, eqb_refl, Bool-cases,
  Option-cases, &&-eq-true, ||-eq-false, is_some, length, is_empty, get_elem?, get_or, take, drop,
  length-append, drop-length_append, append_one-append, All, All-append, length-map, Eq, ◌==◌, ◌!=◌,
  holds, holds_iff, eq_of_discrete, Text, text, text_beq, text_beq_iff, Text-discrete, text_eq,
  text_ltb, Sentinel, Error, sentinel, message, prefixed, wrap, errors_is, Result, ok, err, Check,
  ◌>>=◌, ◌>>◌, fail_if, prefix_error, wrap_error, fail_if-ok, prefix_error-ok, wrap_error-ok,
  unless-ok, ok_injective, >>=-eq-ok, >>-eq-ok, all_checks, passed, all_checks-pass,
  prefix_error-pass, equal_of_same, same, holds_of_not, holds_refl, Sentinel-discrete, fail_if-pass,
  ℤ, pos, negsuc, ℤ-discrete, pos_part, neg_part, ◌+ℤ◌, ◌-ℤ◌, ◌*ℤ◌, ◌≤ℤ◌, ◌<ℤ◌, ltb_ℤ, is_neg,
  +ℤ_parts, -ℤ_parts, eq_of_parts, int_laws, eq-pos_of_not-neg, to_uint64, of_uint64, add64, sub64,
  mul64, add64_exact, add64_overflow,
}
use fabricrunner.Domain.{Classification, Budget}
use fabricrunner.Model.{Usage, contains}
use fabricrunner.Message.{
  Message, assistant, ContentPart, content_text, content_tool_call, content_tool_result,
  validate_message,
}
use fabricrunner.Turn.{ToolCall, StopReason, ModelError}
use fabricrunner.Loop.{ToolOutput, LoopEvent, LoopResult}

-- `x < 0` for one of the totals.
unfoldable pub has_negative : Usage → Bool
has_negative u =
    is_neg u.input_tokens
    || (is_neg u.output_tokens
        || (is_neg u.cache_read_tokens || (is_neg u.cache_write_tokens || is_neg u.cost)))

unfoldable pub sum_usage : Usage → Usage → Usage
unfolding add64
sum_usage total u = record {
  input_tokens = add64 total.input_tokens u.input_tokens;
  output_tokens = add64 total.output_tokens u.output_tokens;
  cache_read_tokens = add64 total.cache_read_tokens u.cache_read_tokens;
  cache_write_tokens = add64 total.cache_write_tokens u.cache_write_tokens;
  cost = add64 total.cost u.cost;
}

-- `addUsage`: the total is changed before it is tested for an overflow.
unfoldable pub add_usage : Usage → Option Usage → Usage × Check
unfolding has_negative sum_usage
add_usage total none = (total, err (message "usage event has no usage"))
add_usage total (some u) =
    if has_negative u then (total, err (message "usage values cannot be negative")) else (
      sum_usage total u,
      fail_if (has_negative (sum_usage total u)) (message "usage values overflowed"),
    )

unfoldable pub exceeded_usage : Usage → Budget → Text
exceeded_usage u b =
    if ltb_ℤ b.max_input_tokens u.input_tokens
    then text "input_tokens"
    else if ltb_ℤ b.max_output_tokens u.output_tokens
    then text "output_tokens"
    else if ltb_ℤ b.max_cost u.cost
    then text "cost"
    else []

abbrev pub over_budget : Error
over_budget = sentinel Sentinel.loop_budget_exceeded

-- `budgetFailure`
unfoldable pub budget_failure : LoopResult → Text → LoopResult × Option Error
budget_failure r kind = (record r { budget_exceeded = kind }, some over_budget)

-- The context of the loop at one moment: what its `Err` returns, whether its cause is the budget,
-- and what the `Err` of its parent returns.
pub record LoopContext : Type 0 where
  pub loop_err : Option Error
  pub budget_cause : Bool
  pub parent_err : Option Error

-- `contextResult`
unfoldable pub context_result : LoopContext → LoopResult → LoopResult × Check
context_result c r = elim c.loop_err [
  | none ↦ (r, ok tt)
  | some e ↦
      if c.budget_cause && not (is_some c.parent_err)
      then (record r { budget_exceeded = text "wall_time" }, err over_budget)
      else (r, err e)
]

-- `loopFailureCode`
unfoldable pub loop_failure_code : Option Error → LoopResult → Text
unfolding errors_is Sentinel-discrete
loop_failure_code none r = []
loop_failure_code (some e) r =
    if not (is_empty r.budget_exceeded)
    then text "budget_" ++ r.budget_exceeded
    else if errors_is e Sentinel.context_canceled
    then text "cancelled"
    else if errors_is e Sentinel.deadline_exceeded
    then text "deadline_exceeded"
    else if errors_is e Sentinel.loop_panic
    then text "panic"
    else text "failed"

-- `loopEmitter`, with the events that its sink was given.
pub record LoopEmitter : Type 0 where
  pub sink : Option (LoopEvent → Option Error)
  pub sequence : ℕ
  pub failed : Bool
  pub given : List LoopEvent

-- What the sink answers to an event; without a sink, nothing.
unfoldable pub sink_answer : Option (LoopEvent → Option Error) → LoopEvent → Option Error
sink_answer none event = none
sink_answer (some record_event) event = record_event event

unfoldable pub sink_check : Option Error → Check
sink_check none = ok tt
sink_check (some e) = err (prefixed "loop sink" e)

-- `emit`
unfoldable pub emit : LoopEmitter → LoopEvent → LoopEmitter × Check
unfolding sink_answer sink_check
emit m event =
    let numbered = record event { sequence = (m.sequence + 1) % 2 ^ 64 } in
    let answer = sink_answer m.sink numbered in
    (
      record m {
        sequence = (m.sequence + 1) % 2 ^ 64;
        failed = m.failed || is_some answer;
        given = if is_some m.sink then m.given ++ numbered ∷ [] else m.given;
      },
      sink_check answer,
    )

-- `turnData`
pub record TurnData : Type 0 where
  pub text_value : Text
  pub calls : List ToolCall
  pub stop : StopReason
  pub model_error : Option ModelError

-- A part of a message with the fields that the loop sets.
abbrev part_of : Classification → ContentPart
part_of class = record {
  kind = content_text;
  classification = class;
  text_value = [];
  media_type = [];
  artifact_id = [];
  tool_call_id = [];
  tool_name = [];
  json = [];
  is_error = false;
  extension = [];
}

unfoldable pub text_parts : Classification → Text → List ContentPart
text_parts class s = if is_empty s then [] else record (part_of class) { text_value = s } ∷ []

unfoldable pub call_part : Classification → ToolCall → ContentPart
call_part class c = record (part_of class) {
  kind = content_tool_call;
  tool_call_id = c.id;
  tool_name = c.name;
  json = c.input;
}

-- The loop over the calls, with the call IDs seen in the run; it adds the new ones to them.
unfoldable pub call_parts :
    Classification → List Text → List ToolCall → List Text × Result (List ContentPart)
unfolding contains text_beq call_part
call_parts class seen [] = (seen, ok [])
call_parts class seen (c ∷ cs) =
    let (after, rest) = call_parts class (c.id ∷ seen) cs in
    if contains seen c.id
    then (seen, err (wrap (sentinel Sentinel.loop_stream) (message "duplicate tool-call ID")))
    else (after, rest >>= λ parts. ok (call_part class c ∷ parts))

-- `outputParts`
abbrev name_part : ToolCall → ContentPart → ContentPart
name_part call p = record p { tool_call_id = call.id; tool_name = call.name }

unfoldable pub output_parts : ToolCall → ToolOutput → List ContentPart
output_parts call o =
    let named = map (name_part call) o.content in
    if is_empty o.json
    then named
    else record (part_of o.classification) {
      kind = content_tool_result;
      tool_call_id = call.id;
      tool_name = call.name;
      json = o.json;
      is_error = o.is_error;
    }
      ∷ named

module _ (json_valid : Text → Bool) where
  -- The message, where it has any content.
  unfoldable pub finish_message : List ContentPart → Result (Option Message)
  unfolding validate_message
  finish_message [] = ok none
  finish_message (p ∷ ps) = do
    validate_message json_valid (record { role = assistant; content = p ∷ ps })
    ok (some (record { role = assistant; content = p ∷ ps }))

  -- `assistantMessage`
  unfoldable pub assistant_message :
      TurnData → Classification → List Text → List Text × Result (Option Message)
  unfolding call_parts text_parts finish_message
  assistant_message data_of class seen =
      let (after, parts) = call_parts class seen data_of.calls in
      (after, parts >>= λ ps. finish_message (text_parts class data_of.text_value ++ ps))
