-- ===== src/Execution/LoopStage.antt =====
-- execution_event.go: what a record of a loop event asks of the record and of the ones before it.
use fabricrunner.Prelude.{
  ◌+◌, ◌%◌, ◌^◌, Bool, false, not, ◌&&◌, ◌||◌, Option, none, some, List, [], ◌∷◌, ltb, eqb,
  if◌then◌else◌, is_some, ◌==◌, ◌!=◌, holds, Text, text_beq, text_eq, message, ok, err, Check,
  fail_if, all_checks, ℤ, pos, ℤ-discrete, ltb_ℤ,
}
use fabricrunner.Id.{FabricId, is_zero_id}
use fabricrunner.Model.{ModelRef, model_ref_eq, ModelRef-discrete, validate_usage}
use fabricrunner.Routing.Request.{RoutingCandidate}
use fabricrunner.Message.{Message, tool, message_role_eq, MessageRole-discrete, validate_message}
use fabricrunner.Turn.{
  ModelEvent, validate_model_event, stop_tool_use, stop_reason_eq, StopReason-discrete,
}
use fabricrunner.Loop.{
  LoopEvent, LoopEventType, loop_model, message_appended, tool_started, tool_completed,
  loop_stopped, loop_checkpoint, other_loop_event, loop_event_type_eq, LoopEventType-discrete,
  LoopResult, validate_each,
}
use fabricrunner.Execution.{RoutingRecord, Earlier}

-- The number that the next loop event has, and whether the loop still runs.
unfoldable pub check_loop_sequence : Option LoopEvent → LoopEvent → Check
unfolding LoopEventType-discrete
check_loop_sequence none e = fail_if (not (eqb e.sequence 1)) (message "recorded loop sequence gap")
check_loop_sequence (some previous) e = all_checks (
    fail_if (previous.kind == loop_stopped) (message "loop already stopped")
    ∷ fail_if (not (eqb e.sequence ((previous.sequence + 1) % 2 ^ 64)))
        (message "recorded loop sequence gap")
    ∷ [])

-- Some candidate has the ID that was selected and the model of the event.
unfoldable pub has_placement : FabricId → ModelRef → List RoutingCandidate → Bool
unfolding text_beq ModelRef-discrete
has_placement selected model [] = false
has_placement selected model (c ∷ cs) =
    c.id == selected && c.model.ref == model || has_placement selected model cs

unfoldable pub check_loop_placement : Option RoutingRecord → LoopEvent → Check
unfolding is_zero_id has_placement
check_loop_placement none e = err (message "loop activity lacks routing decision")
check_loop_placement (some r) e = all_checks (
    fail_if (is_zero_id r.decision.selected_candidate_id)
      (message "loop activity lacks routing decision")
    ∷ fail_if (not (has_placement r.decision.selected_candidate_id e.model r.request.candidates))
        (message "loop model differs from selected placement")
    ∷ [])

unfoldable pub check_loop_type : LoopEventType → Check
check_loop_type (other_loop_event s) = err (message "unknown recorded loop event")
check_loop_type _ = ok tt

-- The last loop event appended a message of tool results.
unfoldable pub follows_tools : Option LoopEvent → Bool
unfolding LoopEventType-discrete MessageRole-discrete
follows_tools none = false
follows_tools (some previous) =
    previous.kind == message_appended
    && elim previous.message_value [ none ↦ false | some m ↦ m.role == tool ]

module _ (json_valid : Text → Bool) where
  unfoldable pub check_checkpoint : Option LoopEvent → ℤ → Option LoopResult → Check
  unfolding follows_tools ℤ-discrete StopReason-discrete validate_usage validate_each
  check_checkpoint previous turn none = err (message "invalid turn checkpoint")
  check_checkpoint previous turn (some c) = all_checks (
      fail_if
        (not (follows_tools previous)
          || (not (holds (ℤ-discrete c.model_calls turn))
              || (ltb_ℤ c.tool_calls (pos 1) || c.stop != stop_tool_use)))
        (message "invalid turn checkpoint")
      ∷ validate_usage c.usage
      ∷ validate_each json_valid c.messages
      ∷ [])

  unfoldable pub validate_optional_event : Option ModelEvent → Check
  unfolding validate_model_event
  validate_optional_event none = ok tt
  validate_optional_event (some e) = validate_model_event json_valid e

  unfoldable pub validate_optional_message : Option Message → Check
  unfolding validate_message
  validate_optional_message none = ok tt
  validate_optional_message (some m) = validate_message json_valid m

  unfoldable pub check_loop : ℤ → Earlier → Option LoopEvent → Check
  unfolding check_loop_sequence check_loop_placement check_loop_type check_checkpoint
      validate_optional_event validate_optional_message LoopEventType-discrete ℤ-discrete
  check_loop turn earlier none = err (message "invalid recorded loop event")
  check_loop turn earlier (some e) = all_checks (
      fail_if (ltb e.sequence 1 || not (holds (ℤ-discrete e.turn turn)))
        (message "invalid recorded loop event")
      ∷ check_loop_sequence earlier.previous_loop e
      ∷ (if e.kind == loop_stopped then ok tt else check_loop_placement earlier.last_routing e)
      ∷ check_loop_type e.kind
      ∷ validate_optional_event e.model_event
      ∷ fail_if (e.kind == loop_model && not (is_some e.model_event))
          (message "model event payload missing")
      ∷ fail_if (e.kind == message_appended && not (is_some e.message_value))
          (message "message event payload missing")
      ∷ (if e.kind == loop_checkpoint
          then check_checkpoint earlier.previous_loop turn e.checkpoint
          else ok tt)
      ∷ fail_if ((e.kind == tool_started || e.kind == tool_completed) && not (is_some e.tool_call))
          (message "tool event payload missing")
      ∷ validate_optional_message e.message_value
      ∷ [])
