-- ===== src/Turn.antt =====
-- model.go: tool calls, the events of a model stream and their validation. `json.Valid` is an
-- argument.
use fabricrunner.Prelude.{
  ℕ, Bool, true, false, not, ◌&&◌, ◌||◌, Option, none, some, List, [], ◌∷◌, eqb, is_some, is_empty,
  Eq, ◌!=◌, eq_of_discrete, Text, Text-discrete, text_eq, message, ok, err, Check, ◌>>◌, fail_if,
  all_checks, ℤ, is_neg,
}
use fabricrunner.Strings.{is_blank, is_untrimmed}
use fabricrunner.Model.{Usage, validate_usage}
use fabricrunner.Message.{lacks_json}

pub data ModelEventType : Type 0 where
  event_start event_text_delta event_tool_call_delta event_tool_call : ModelEventType
  event_usage event_stop event_error : ModelEventType
  other_event : Text → ModelEventType

unfoldable pub ModelEventType-discrete : Discrete ModelEventType
ModelEventType-discrete = hlevel Text-discrete

instance abbrev pub model_event_type_eq : Eq ModelEventType
model_event_type_eq = eq_of_discrete ModelEventType-discrete

pub record ToolCall : Type 0 where
  pub id : Text
  pub name : Text
  pub input : Text

pub record ToolCallDelta : Type 0 where
  pub index : ℤ
  pub id : Text
  pub name : Text
  pub input_fragment : Text

unfoldable pub validate_delta : ToolCallDelta → Check
unfolding is_untrimmed
validate_delta d = all_checks (
    fail_if (is_neg d.index) (message "tool-call delta index cannot be negative")
    ∷ fail_if (is_empty d.id && (is_empty d.name && is_empty d.input_fragment))
        (message "tool-call delta requires an ID, name, or input fragment")
    ∷ fail_if (not (is_empty d.id) && is_untrimmed d.id)
        (message "tool-call delta ID has invalid whitespace")
    ∷ fail_if (not (is_empty d.name) && is_untrimmed d.name)
        (message "tool-call delta name has invalid whitespace")
    ∷ [])

-- `other_stop []` is the zero value.
pub data StopReason : Type 0 where
  stop_end_turn stop_tool_use stop_max_tokens stop_refusal stop_cancelled : StopReason
  stop_unknown : StopReason
  other_stop : Text → StopReason

unfoldable pub StopReason-discrete : Discrete StopReason
StopReason-discrete = hlevel Text-discrete

instance abbrev pub stop_reason_eq : Eq StopReason
stop_reason_eq = eq_of_discrete StopReason-discrete

unfoldable pub validate_stop : StopReason → Check
validate_stop (other_stop s) = err (message "unknown stop reason")
validate_stop _ = ok tt

pub record ModelError : Type 0 where
  pub code : Text
  pub detail : Text
  pub retryable : Bool
  pub safe_to_reroute : Bool

pub record ModelEvent : Type 0 where
  pub kind : ModelEventType
  pub sequence : ℕ
  pub text_value : Text
  pub tool_call_delta : Option ToolCallDelta
  pub tool_call : Option ToolCall
  pub usage : Option Usage
  pub stop : StopReason
  pub error : Option ModelError
  pub extension : List (Text × Text)

-- `e.Stop != ""`
unfoldable pub has_stop : StopReason → Bool
has_stop (other_stop s) = not (is_empty s)
has_stop _ = true

-- `validatePayload`: the payloads that the type of the event does not allow are absent.
unfoldable pub validate_payload : ModelEvent → Bool → Bool → Bool → Bool → Bool → Check
unfolding has_stop ModelEventType-discrete
validate_payload e text_allowed delta call usage stop = all_checks (
    fail_if (not text_allowed && not (is_empty e.text_value))
      (message "model event contains text payload")
    ∷ fail_if (not delta && is_some e.tool_call_delta)
        (message "model event contains tool-call delta payload")
    ∷ fail_if (not call && is_some e.tool_call)
        (message "model event contains completed tool-call payload")
    ∷ fail_if (not usage && is_some e.usage) (message "model event contains usage payload")
    ∷ fail_if (not stop && has_stop e.stop) (message "model event contains stop payload")
    ∷ fail_if (e.kind != event_error && is_some e.error)
        (message "model event contains error payload")
    ∷ [])

unfoldable pub validate_delta_payload : Option ToolCallDelta → Check
unfolding validate_delta
validate_delta_payload none = err (message "tool-call delta event requires a delta")
validate_delta_payload (some d) = validate_delta d

unfoldable pub validate_usage_payload : Option Usage → Check
unfolding validate_usage
validate_usage_payload none = err (message "usage event requires usage")
validate_usage_payload (some u) = validate_usage u

unfoldable pub validate_error_payload : Option ModelError → Check
unfolding is_untrimmed is_blank
validate_error_payload none = err (message "error event requires a code and message")
validate_error_payload (some x) =
    fail_if (is_untrimmed x.code || is_blank x.detail)
      (message "error event requires a code and message")

module _ (json_valid : Text → Bool) where
  unfoldable pub validate_call_payload : Option ToolCall → Check
  unfolding is_untrimmed lacks_json
  validate_call_payload none = err (message "completed tool-call event is invalid")
  validate_call_payload (some c) =
      fail_if (is_untrimmed c.id || (is_untrimmed c.name || lacks_json json_valid c.input))
        (message "completed tool-call event is invalid")

  -- The switch on the type.
  unfoldable pub validate_body : ModelEventType → ModelEvent → Check
  unfolding validate_delta_payload validate_usage_payload validate_error_payload
      validate_call_payload validate_payload validate_stop
  validate_body event_start e = validate_payload e false false false false false
  validate_body event_text_delta e = do
    fail_if (is_empty e.text_value) (message "text delta is empty")
    validate_payload e true false false false false
  validate_body event_tool_call_delta e = do
    validate_delta_payload e.tool_call_delta
    validate_payload e false true false false false
  validate_body event_usage e = do
    validate_usage_payload e.usage
    validate_payload e false false false true false
  validate_body event_tool_call e = do
    validate_call_payload e.tool_call
    validate_payload e false false true false false
  validate_body event_stop e = do
    validate_stop e.stop
    validate_payload e false false false false true
  validate_body event_error e = do
    validate_error_payload e.error
    validate_payload e false false false false false
  validate_body (other_event s) e = err (message "unknown model event type")

  unfoldable pub validate_model_event : ModelEvent → Check
  unfolding validate_body
  validate_model_event e = do
    fail_if (eqb e.sequence 0) (message "model event sequence must be positive")
    validate_body e.kind e
