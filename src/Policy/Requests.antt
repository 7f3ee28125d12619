-- ===== src/Policy/Requests.antt =====
-- policy.go: execution targets and the requests that policies judge. A nil pointer is `none`; the
-- `Clone` methods copy what a pointer or a slice shares, and are the identity on these values.
use fabricrunner.Prelude.{
  Bool, not, ◌&&◌, Option, none, some, [], ◌∷◌, if◌then◌else◌, is_some, is_empty, Eq, ◌==◌, ◌!=◌,
  eq_of_discrete, Text, Text-discrete, text_eq, message, ok, err, Check, ◌>>◌, fail_if,
  prefix_error, all_checks,
}
use fabricrunner.Id.{FabricId, validate_id}
use fabricrunner.Strings.{is_blank, validate_sha256}
use fabricrunner.Domain.{
  Zone, zone_eq, validate_zone, StepKind, model_turn, tool, StepKind-discrete, step_kind_eq,
  validate_step_kind,
}
use fabricrunner.Model.{ModelRef, model_ref_eq, validate_model_ref}
use fabricrunner.Content.{ContentManifest, validate_manifest}

-- sandbox.go
pub record SandboxCapability : Type 0 where
  pub established : Bool
  pub backend : Text

pub data TargetKind : Type 0 where
  model_target tool_target : TargetKind
  other_target : Text → TargetKind

unfoldable pub TargetKind-discrete : Discrete TargetKind
TargetKind-discrete = hlevel Text-discrete

instance abbrev pub target_kind_eq : Eq TargetKind
target_kind_eq = eq_of_discrete TargetKind-discrete

pub record ExecutionTarget : Type 0 where
  pub sandbox : SandboxCapability
  pub kind : TargetKind
  pub zone : Zone
  pub model : Option ModelRef
  pub tool_name : Text

-- The `switch` of `ExecutionTarget.Validate`.
validate_target_kind : TargetKind → Option ModelRef → Text → Check
unfolding validate_model_ref is_blank
validate_target_kind model_target none name = err (message "model target requires a model")
validate_target_kind model_target (some m) name = all_checks (
    validate_model_ref m
    ∷ fail_if (not (is_empty name)) (message "model target cannot name a tool")
    ∷ [])
validate_target_kind tool_target m name = all_checks (
    fail_if (is_blank name) (message "tool target requires a tool name")
    ∷ fail_if (is_some m) (message "tool target cannot name a model")
    ∷ [])
validate_target_kind (other_target s) m name = err (message "unknown execution target kind")

unfoldable pub validate_target : ExecutionTarget → Check
unfolding validate_target_kind validate_zone
validate_target t = do validate_zone t.zone; validate_target_kind t.kind t.model t.tool_name

pub record ExecutionPolicyRequest : Type 0 where
  pub workload_id : FabricId
  pub step_id : FabricId
  pub attempt_id : FabricId
  pub step_kind : StepKind
  pub target : ExecutionTarget
  pub manifest : ContentManifest
  pub autonomous : Bool

-- The three tests on the step kind and the target kind.
unfoldable pub match_kinds : StepKind → TargetKind → Check
unfolding StepKind-discrete TargetKind-discrete
match_kinds step target = all_checks (
    fail_if (step == model_turn && target != model_target)
      (message "model-turn step requires a model target")
    ∷ fail_if (step == tool && target != tool_target) (message "tool step requires a tool target")
    ∷ fail_if (step != model_turn && step != tool)
        (message "execution policy does not evaluate steps")
    ∷ [])

unfoldable pub validate_execution_request : ExecutionPolicyRequest → Check
unfolding validate_id validate_step_kind validate_target match_kinds validate_manifest
validate_execution_request r = all_checks (
    prefix_error "workload ID" (validate_id r.workload_id)
    ∷ prefix_error "step ID" (validate_id r.step_id)
    ∷ prefix_error "attempt ID" (validate_id r.attempt_id)
    ∷ validate_step_kind r.step_kind
    ∷ prefix_error "execution target" (validate_target r.target)
    ∷ match_kinds r.step_kind r.target.kind
    ∷ prefix_error "execution manifest" (validate_manifest r.manifest)
    ∷ [])

pub record DataEgressPolicyRequest : Type 0 where
  pub workload_id : FabricId
  pub step_id : FabricId
  pub source : Zone
  pub destination : Zone
  pub manifest : ContentManifest
  pub purpose : Text
  pub derived_from_sha : Text

-- `if value != "" { validateSHA256(value) }`
unfoldable pub validate_optional_sha : Text → Check
unfolding validate_sha256
validate_optional_sha value = if is_empty value then ok tt else validate_sha256 value

unfoldable pub validate_egress_request : DataEgressPolicyRequest → Check
unfolding validate_id validate_zone validate_manifest is_blank validate_optional_sha
validate_egress_request r = all_checks (
    prefix_error "workload ID" (validate_id r.workload_id)
    ∷ prefix_error "step ID" (validate_id r.step_id)
    ∷ prefix_error "source zone" (validate_zone r.source)
    ∷ prefix_error "destination zone" (validate_zone r.destination)
    ∷ prefix_error "egress manifest" (validate_manifest r.manifest)
    ∷ fail_if (is_blank r.purpose) (message "egress purpose is required")
    ∷ validate_optional_sha r.derived_from_sha
    ∷ [])
