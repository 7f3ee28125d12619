-- ===== src/Message.antt =====
-- model.go: message parts, messages, tool definitions and model requests. `json.Valid` is an
-- argument.
use fabricrunner.Prelude.{
  Bool, true, false, not, ◌&&◌, ◌||◌, Option, none, some, List, [], ◌∷◌, is_empty, Eq,
  eq_of_discrete, Text, text_beq, Text-discrete, text_eq, message, Result, ok, err, Check, ◌>>=◌,
  ◌>>◌, fail_if, prefix_error, all_checks, ℤ, is_neg,
}
use fabricrunner.Id.{FabricId, validate_id}
use fabricrunner.Domain.{Classification, validate_class}
use fabricrunner.Model.{ModelRef, validate_model_ref, contains}

pub data MessageRole : Type 0 where
  system user assistant tool : MessageRole
  other_role : Text → MessageRole

unfoldable pub MessageRole-discrete : Discrete MessageRole
MessageRole-discrete = hlevel Text-discrete

instance abbrev pub message_role_eq : Eq MessageRole
message_role_eq = eq_of_discrete MessageRole-discrete

pub data ContentType : Type 0 where
  content_text content_image content_document content_artifact : ContentType
  content_tool_call content_tool_result : ContentType
  other_content : Text → ContentType

-- The keys of `Extension` come in some order.
pub record ContentPart : Type 0 where
  pub kind : ContentType
  pub classification : Classification
  pub text_value : Text
  pub media_type : Text
  pub artifact_id : FabricId
  pub tool_call_id : Text
  pub tool_name : Text
  pub json : Text
  pub is_error : Bool
  pub extension : List (Text × Text)

pub record Message : Type 0 where
  pub role : MessageRole
  pub content : List ContentPart

pub record ToolDefinition : Type 0 where
  pub side_effecting : Bool
  pub name : Text
  pub description : Text
  pub input_schema : Text
  pub output_schema : Text
  pub strict : Bool

pub data ToolChoiceMode : Type 0 where
  choice_auto choice_none choice_required choice_named : ToolChoiceMode
  other_choice : Text → ToolChoiceMode

pub record ToolChoice : Type 0 where
  pub mode : ToolChoiceMode
  pub name : Text

pub record OutputConstraint : Type 0 where
  pub name : Text
  pub schema : Text
  pub strict : Bool

pub record ModelRequest : Type 0 where
  pub automatic_compaction : Bool
  pub model : ModelRef
  pub messages : List Message
  pub tools : List ToolDefinition
  pub tool_choice : ToolChoice
  pub output : Option OutputConstraint
  pub max_output_tokens : ℤ
  pub metadata : List (Text × Text)
  pub extension : List (Text × Text)

unfoldable pub validate_role : MessageRole → Check
validate_role (other_role s) = err (message "unknown message role")
validate_role _ = ok tt

unfoldable pub validate_choice_mode : ToolChoiceMode → Check
validate_choice_mode (other_choice s) = err (message "unknown tool choice mode")
validate_choice_mode _ = ok tt

-- `Mode == ToolChoiceNamed`
unfoldable pub is_named : ToolChoice → Bool
is_named c = elim c.mode [ choice_named ↦ true | _ ↦ false ]

module _ (json_valid : Text → Bool) where
  -- `len(x) == 0 || !json.Valid(x)`, and `len(x) > 0 && !json.Valid(x)`.
  unfoldable pub lacks_json : Text → Bool
  lacks_json x = is_empty x || not (json_valid x)

  unfoldable pub has_bad_json : Text → Bool
  has_bad_json x = not (is_empty x) && not (json_valid x)

  -- The switch on the type of a part.
  unfoldable pub validate_part_body : ContentType → ContentPart → Check
  unfolding lacks_json has_bad_json validate_id
  validate_part_body content_text p = ok tt
  validate_part_body content_image p = prefix_error "artifact ID" (validate_id p.artifact_id)
  validate_part_body content_document p = prefix_error "artifact ID" (validate_id p.artifact_id)
  validate_part_body content_artifact p = prefix_error "artifact ID" (validate_id p.artifact_id)
  validate_part_body content_tool_call p = all_checks (
      fail_if (is_empty p.tool_call_id || is_empty p.tool_name)
        (message "tool call ID and name are required")
      ∷ fail_if (lacks_json p.json) (message "tool call input must be valid JSON")
      ∷ [])
  validate_part_body content_tool_result p = all_checks (
      fail_if (is_empty p.tool_call_id) (message "tool result call ID is required")
      ∷ fail_if (has_bad_json p.json) (message "tool result JSON must be valid")
      ∷ [])
  validate_part_body (other_content s) p = err (message "unknown content type")

  unfoldable pub validate_part : ContentPart → Check
  unfolding validate_part_body validate_class
  validate_part p = do validate_class p.classification; validate_part_body p.kind p

  unfoldable pub validate_parts : List ContentPart → Check
  unfolding validate_part
  validate_parts [] = ok tt
  validate_parts (p ∷ ps) = do prefix_error "content part" (validate_part p); validate_parts ps

  unfoldable pub validate_message : Message → Check
  unfolding validate_parts validate_role
  validate_message m = all_checks (
      validate_role m.role
      ∷ fail_if (is_empty m.content) (message "message content is required")
      ∷ validate_parts m.content
      ∷ [])

  unfoldable pub validate_messages : List Message → Check
  unfolding validate_message
  validate_messages [] = ok tt
  validate_messages (m ∷ ms) = do prefix_error "message" (validate_message m); validate_messages ms

  unfoldable pub validate_tool : ToolDefinition → Check
  unfolding lacks_json has_bad_json
  validate_tool t = all_checks (
      fail_if (is_empty t.name) (message "tool name is required")
      ∷ fail_if (lacks_json t.input_schema) (message "tool input schema must be valid JSON")
      ∷ fail_if (has_bad_json t.output_schema) (message "tool output schema must be valid JSON")
      ∷ [])

  -- The loop over the tools of a request, with the names seen so far; it gives `toolNames`.
  unfoldable pub validate_tools : List Text → List ToolDefinition → Result (List Text)
  unfolding contains validate_tool text_beq
  validate_tools seen [] = ok seen
  validate_tools seen (t ∷ ts) = do
    prefix_error "tool" (validate_tool t)
    fail_if (contains seen t.name) (message "duplicate tool name")
    validate_tools (t.name ∷ seen) ts

  unfoldable pub validate_output : Option OutputConstraint → Check
  unfolding lacks_json
  validate_output none = ok tt
  validate_output (some o) =
      fail_if (lacks_json o.schema) (message "output constraint schema must be valid JSON")

  unfoldable pub validate_model_request : ModelRequest → Check
  unfolding validate_model_ref validate_messages validate_tools validate_output is_named
      validate_choice_mode contains
  validate_model_request r = do
    all_checks (
        validate_model_ref r.model
        ∷ fail_if (is_empty r.messages) (message "at least one message is required")
        ∷ fail_if (is_neg r.max_output_tokens) (message "maximum output tokens cannot be negative")
        ∷ validate_messages r.messages
        ∷ [])
    tool_names ← validate_tools [] r.tools
    all_checks (
        validate_output r.output
        ∷ fail_if (is_named r.tool_choice && is_empty r.tool_choice.name)
            (message "named tool choice requires a name")
        ∷ validate_choice_mode r.tool_choice.mode
        ∷ fail_if (is_named r.tool_choice && not (contains tool_names r.tool_choice.name))
            (message "named tool choice is not defined")
        ∷ [])
