-- ===== src/Model.antt =====
-- model.go: model references and capabilities.
use fabricrunner.Prelude.{
  Bool, false, ◌&&◌, ◌||◌, List, [], ◌∷◌, Eq, ◌==◌, eq_of_discrete, Text, Text-discrete, text_eq,
  message, ok, err, Check, ◌>>◌, fail_if, prefix_error, all_checks, ℤ, pos, ltb_ℤ, is_neg,
}
use fabricrunner.Strings.{is_untrimmed}
use fabricrunner.Domain.{CostMicros}

pub record ModelRef : Type 0 where
  pub provider : Text
  pub model : Text

unfoldable pub ModelRef-discrete : Discrete ModelRef
ModelRef-discrete = hlevel Text-discrete

instance abbrev pub model_ref_eq : Eq ModelRef
model_ref_eq = eq_of_discrete ModelRef-discrete

unfoldable pub validate_model_ref : ModelRef → Check
unfolding is_untrimmed
validate_model_ref r = all_checks (
    fail_if (is_untrimmed r.provider)
      (message "provider is required without surrounding whitespace")
    ∷ fail_if (is_untrimmed r.model) (message "model is required without surrounding whitespace")
    ∷ [])

pub data ToolUseMode : Type 0 where
  none_mode native constrained parsed : ToolUseMode
  other_tool_use : Text → ToolUseMode

unfoldable pub ToolUseMode-discrete : Discrete ToolUseMode
ToolUseMode-discrete = hlevel Text-discrete

instance abbrev pub tool_use_eq : Eq ToolUseMode
tool_use_eq = eq_of_discrete ToolUseMode-discrete

unfoldable pub validate_tool_use : ToolUseMode → Check
validate_tool_use (other_tool_use s) = err (message "unknown tool-use mode")
validate_tool_use _ = ok tt

pub record ModelCapabilities : Type 0 where
  pub context_tokens : ℤ
  pub max_output_tokens : ℤ
  pub modalities : List Text
  pub tool_use : ToolUseMode
  pub parallel_tool_calls : Bool
  pub strict_tool_schemas : Bool
  pub dynamic_tools : Bool
  pub multimodal_tool_results : Bool
  pub streaming : Bool
  pub structured_output : Bool
  pub prompt_caching : Bool
  pub automatic_compaction : Bool
  pub reasoning_summaries : Bool

-- `_, exists := seen[x]` for a set of the values seen so far.
unfoldable pub contains {ℓ} : {A : Type ℓ} ⦃e : Eq A⦄ → List A → A → Bool
contains [] a = false
contains (x ∷ xs) a = x == a || contains xs a

validate_modalities : List Text → List Text → Check
unfolding contains is_untrimmed
validate_modalities seen [] = ok tt
validate_modalities seen (m ∷ ms) = do
  fail_if (is_untrimmed m) (message "modality is empty or has surrounding whitespace")
  fail_if (contains seen m) (message "duplicate modality")
  validate_modalities (m ∷ seen) ms

unfoldable pub validate_capabilities : ModelCapabilities → Check
unfolding validate_modalities validate_tool_use ToolUseMode-discrete
validate_capabilities c = all_checks (
    fail_if (is_neg c.context_tokens) (message "context tokens cannot be negative")
    ∷ fail_if (is_neg c.max_output_tokens) (message "maximum output tokens cannot be negative")
    ∷ fail_if (ltb_ℤ (pos 0) c.context_tokens && ltb_ℤ c.context_tokens c.max_output_tokens)
        (message "maximum output tokens cannot exceed context tokens")
    ∷ validate_tool_use c.tool_use
    ∷ fail_if
        (c.tool_use == none_mode
          && (c.parallel_tool_calls
              || (c.strict_tool_schemas || (c.dynamic_tools || c.multimodal_tool_results))))
        (message "tool capabilities require a tool-use mode")
    ∷ validate_modalities [] c.modalities
    ∷ [])

-- `Labels` is a map; the keys come in some order, and the first bad one decides.
pub record ModelDescriptor : Type 0 where
  pub ref : ModelRef
  pub capabilities : ModelCapabilities
  pub labels : List (Text × Text)

validate_labels : List (Text × Text) → Check
unfolding is_untrimmed
validate_labels [] = ok tt
validate_labels ((key, value) ∷ rest) = do
  fail_if (is_untrimmed key) (message "model label key is empty or has surrounding whitespace")
  validate_labels rest

unfoldable pub validate_descriptor : ModelDescriptor → Check
unfolding validate_labels validate_model_ref validate_capabilities
validate_descriptor d = all_checks (
    validate_model_ref d.ref
    ∷ prefix_error "model capabilities" (validate_capabilities d.capabilities)
    ∷ validate_labels d.labels
    ∷ [])

pub record Usage : Type 0 where
  pub input_tokens : ℤ
  pub output_tokens : ℤ
  pub cache_read_tokens : ℤ
  pub cache_write_tokens : ℤ
  pub cost : CostMicros

unfoldable pub validate_usage : Usage → Check
validate_usage u =
    fail_if
      (is_neg u.input_tokens
        || (is_neg u.output_tokens
            || (is_neg u.cache_read_tokens || (is_neg u.cache_write_tokens || is_neg u.cost))))
      (message "usage values cannot be negative")
