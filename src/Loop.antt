-- ===== src/Loop.antt =====
-- loop.go: the contracts of the loop: tool outputs, events, results and requests. The handlers, the
-- middleware, the selector and the sink are functions that a request carries; `json.Valid` is an
-- argument.
use fabricrunner.Prelude.{
  ℕ, Bool, not, ◌&&◌, ◌||◌, Option, none, some, List, [], ◌∷◌, map, ltb, if◌then◌else◌, is_some,
  is_empty, Eq, ◌!=◌, eq_of_discrete, Text, text, text_beq, Text-discrete, text_eq, Error, message,
  Result, ok, err, Check, ◌>>◌, fail_if, prefix_error, all_checks, ℤ, pos, ltb_ℤ, is_neg,
}
use fabricrunner.Id.{FabricId, validate_id}
use fabricrunner.Strings.{trim_space}
use fabricrunner.Domain.{Classification, validate_class, Budget, validate_budget}
use fabricrunner.Model.{ModelRef, Usage, validate_usage, contains}
use fabricrunner.Message.{
  Message, ContentPart, content_text, content_image, content_document, content_artifact,
  ToolDefinition, ModelRequest, has_bad_json, validate_part, validate_message, validate_tool,
  validate_model_request,
}
use fabricrunner.Turn.{
  ToolCall, ModelEvent, StopReason, stop_tool_use, stop_reason_eq, StopReason-discrete,
}
use fabricrunner.Catalog.{Provider}

pub record TurnContext : Type 0 where
  pub workload_id : FabricId
  pub step_id : FabricId
  pub attempt_id : FabricId
  pub turn : ℤ
  pub messages : List Message
  pub usage : Usage

pub record TurnSelection : Type 0 where
  pub messages : List Message
  pub provider : Option Provider
  pub model : ModelRef

pub record ToolInvocation : Type 0 where
  pub workload_id : FabricId
  pub step_id : FabricId
  pub attempt_id : FabricId
  pub turn : ℤ
  pub call : ToolCall

pub record ToolOutput : Type 0 where
  pub json : Text
  pub content : List ContentPart
  pub classification : Classification
  pub is_error : Bool

-- What a tool, a middleware and a selector do is theirs: a function for each. The number that a tool
-- and a middleware are given first is that of the call in its batch, so with the turn it names the
-- one time they run: what they return may be anything each time, as it is where they keep a state or
-- run at once. A call that panics is `none`.
pub record ToolHandler : Type 0 where
  pub execute : ℕ → ToolInvocation → Option (Result ToolOutput)
  pub closed : Option Error

pub record ToolBinding : Type 0 where
  pub definition : ToolDefinition
  pub handler : Option ToolHandler
  pub parallel_safe : Bool

pub data LoopEventType : Type 0 where
  turn_started loop_model message_appended tool_started tool_completed : LoopEventType
  loop_stopped loop_checkpoint : LoopEventType
  other_loop_event : Text → LoopEventType

unfoldable pub LoopEventType-discrete : Discrete LoopEventType
LoopEventType-discrete = hlevel Text-discrete

instance abbrev pub loop_event_type_eq : Eq LoopEventType
loop_event_type_eq = eq_of_discrete LoopEventType-discrete

pub record ToolFailure : Type 0 where
  pub call_id : Text
  pub tool_name : Text
  pub code : Text
  pub detail : Text
  pub cause : Option Error

pub record LoopResult : Type 0 where
  pub messages : List Message
  pub usage : Usage
  pub stop : StopReason
  pub model_calls : ℤ
  pub tool_calls : ℤ
  pub failures : List ToolFailure
  pub budget_exceeded : Text

pub record LoopEvent : Type 0 where
  pub checkpoint : Option LoopResult
  pub sequence : ℕ
  pub kind : LoopEventType
  pub turn : ℤ
  pub model : ModelRef
  pub model_event : Option ModelEvent
  pub message_value : Option Message
  pub tool_call : Option ToolCall
  pub tool_output : Option ToolOutput
  pub failure_code : Text
  pub stop : StopReason

pub record LoopCheckpoint : Type 0 where
  pub sequence : ℕ
  pub result : LoopResult

pub record LoopRequest : Type 0 where
  pub continuation : Option LoopCheckpoint
  pub workload_id : FabricId
  pub step_id : FabricId
  pub attempt_id : FabricId
  pub initial : ModelRequest
  pub tools : List ToolBinding
  pub middleware : List (Option (ℕ → ToolInvocation → ToolOutput → Option (Result ToolOutput)))
  pub selector : Option (TurnContext → Result TurnSelection)
  pub sink : Option (LoopEvent → Option Error)
  pub budget : Budget
  pub parallel_tools : Bool
  pub model_output_class : Classification
  pub tool_error_class : Classification

-- The error of a tool that `errors.As` finds, if any, with its code and message.
unfoldable pub normalize_tool_error : Option (Option (Text × Text)) → Text × Text
unfolding trim_space
normalize_tool_error none = ([], [])
normalize_tool_error (some none) = (text "tool_execution_failed", text "tool execution failed")
normalize_tool_error (some (some (code, detail))) =
    if not (is_empty (trim_space code)) && not (is_empty (trim_space detail))
    then (trim_space code, trim_space detail)
    else (text "tool_execution_failed", text "tool execution failed")

-- A copy of a request: the code makes the map for `Extension` anew before it ranges over it, so the
-- copy has no entry of it.
unfoldable pub clone_model_request : ModelRequest → ModelRequest
clone_model_request r = record r { extension = [] }

-- The types of content that a tool may return.
unfoldable pub check_output_type : ContentPart → Check
check_output_type p = elim p.kind [
  | content_text ↦ ok tt
  | content_image ↦ ok tt
  | content_document ↦ ok tt
  | content_artifact ↦ ok tt
  | _ ↦ err (message "tool output content has unsupported type")
]

module _ (json_valid : Text → Bool) where
  unfoldable pub validate_output_parts : List ContentPart → Check
  unfolding validate_part check_output_type
  validate_output_parts [] = ok tt
  validate_output_parts (p ∷ ps) = do
    prefix_error "tool output content" (validate_part json_valid p)
    check_output_type p
    validate_output_parts ps

  unfoldable pub validate_tool_output : ToolOutput → Check
  unfolding validate_class has_bad_json validate_output_parts
  validate_tool_output o = all_checks (
      validate_class o.classification
      ∷ fail_if (is_empty o.json && is_empty o.content)
          (message "tool output requires JSON or content")
      ∷ fail_if (has_bad_json json_valid o.json) (message "tool output JSON is invalid")
      ∷ validate_output_parts o.content
      ∷ [])

  -- `message.Validate()` for each message, without a prefix.
  unfoldable pub validate_each : List Message → Check
  unfolding validate_message
  validate_each [] = ok tt
  validate_each (m ∷ ms) = do validate_message json_valid m; validate_each ms

  unfoldable pub validate_continuation : Budget → Option LoopCheckpoint → Check
  unfolding validate_usage validate_each StopReason-discrete
  validate_continuation b none = ok tt
  validate_continuation b (some c) = all_checks (
      fail_if
        (ltb c.sequence 1
          || (ltb_ℤ c.result.model_calls (pos 1)
              || (ltb_ℤ b.max_model_calls c.result.model_calls
                  || (is_neg c.result.tool_calls
                      || (ltb_ℤ b.max_tool_calls c.result.tool_calls
                          || c.result.stop != stop_tool_use)))))
        (message "invalid continuation checkpoint")
      ∷ validate_usage c.result.usage
      ∷ validate_each c.result.messages
      ∷ [])

  unfoldable pub validate_bindings : List Text → List ToolBinding → Check
  unfolding validate_tool contains text_beq
  validate_bindings seen [] = ok tt
  validate_bindings seen (b ∷ bs) = do
    fail_if (not (is_some b.handler)) (message "loop tool handler is nil")
    prefix_error "loop tool" (validate_tool json_valid b.definition)
    fail_if (contains seen b.definition.name) (message "loop tool duplicates name")
    validate_bindings (b.definition.name ∷ seen) bs

  unfoldable pub validate_middleware :
      List (Option (ℕ → ToolInvocation → ToolOutput → Option (Result ToolOutput))) → Check
  validate_middleware [] = ok tt
  validate_middleware (m ∷ ms) = do
    fail_if (not (is_some m)) (message "loop result middleware is nil")
    validate_middleware ms

  unfoldable pub validate_loop_request : LoopRequest → Check
  unfolding validate_continuation validate_id validate_budget validate_class validate_bindings
      validate_middleware validate_model_request clone_model_request
  validate_loop_request r = all_checks (
      validate_continuation r.budget r.continuation
      ∷ prefix_error "loop workload ID" (validate_id r.workload_id)
      ∷ prefix_error "loop step ID" (validate_id r.step_id)
      ∷ prefix_error "loop attempt ID" (validate_id r.attempt_id)
      ∷ fail_if (not (is_some r.selector)) (message "loop turn selector is required")
      ∷ validate_budget r.budget
      ∷ fail_if (not (ltb_ℤ (pos 0) r.budget.max_model_calls))
          (message "loop model-call budget must be positive")
      ∷ fail_if (not (ltb_ℤ (pos 0) r.budget.max_wall_time))
          (message "loop wall-time budget must be positive")
      ∷ prefix_error "model output classification" (validate_class r.model_output_class)
      ∷ prefix_error "tool error classification" (validate_class r.tool_error_class)
      ∷ validate_bindings [] r.tools
      ∷ validate_middleware r.middleware
      ∷ prefix_error "initial model request" (
          validate_model_request json_valid
            (record (clone_model_request r.initial) { tools = map (λ b. b.definition) r.tools }))
      ∷ [])
