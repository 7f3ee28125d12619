-- ===== src/Policy/Scope.antt =====
-- policy.go: policy actions, the scope that a verdict is bound to, and verdicts.
use fabricrunner.Prelude.{
  Bool, true, false, not, ◌&&◌, ◌||◌, Option, none, some, [], ◌∷◌, if◌then◌else◌, is_some, is_empty,
  Eq, ◌==◌, ◌!=◌, holds, eq_of_discrete, Text, text_beq, Text-discrete, text_eq, message, ok, err,
  Check, fail_if, prefix_error, all_checks,
}
use fabricrunner.Id.{FabricId, validate_id, is_zero_id}
use fabricrunner.Strings.{is_blank, validate_sha256}
use fabricrunner.Domain.{
  Zone, other_zone, zone_eq, Zone-discrete, validate_zone, StepKind, other_step_kind, model_turn,
  tool, StepKind-discrete, step_kind_eq, validate_step_kind,
}
use fabricrunner.Model.{ModelRef, ModelRef-discrete, model_ref_eq}
use fabricrunner.Policy.Requests.{
  SandboxCapability, TargetKind-discrete, target_kind_eq, model_target, tool_target,
  ExecutionTarget, validate_target, ExecutionPolicyRequest, DataEgressPolicyRequest,
  validate_optional_sha,
}

pub data PolicyAction : Type 0 where
  allow deny require_approval transform redact : PolicyAction
  other_action : Text → PolicyAction

unfoldable pub PolicyAction-discrete : Discrete PolicyAction
PolicyAction-discrete = hlevel Text-discrete

instance abbrev pub policy_action_eq : Eq PolicyAction
policy_action_eq = eq_of_discrete PolicyAction-discrete

unfoldable pub validate_action : PolicyAction → Check
validate_action (other_action s) = err (message "unknown policy action")
validate_action _ = ok tt

pub data ScopeKind : Type 0 where
  execution data_egress : ScopeKind
  other_scope : Text → ScopeKind

pub record PolicyScope : Type 0 where
  pub kind : ScopeKind
  pub workload_id : FabricId
  pub step_id : FabricId
  pub attempt_id : FabricId
  pub step_kind : StepKind
  pub autonomous : Bool
  pub target : Option ExecutionTarget
  pub source : Zone
  pub destination : Zone
  pub purpose : Text
  pub derived_from_sha : Text

-- The zero values of the string types.
abbrev pub no_zone : Zone
no_zone = other_zone []

abbrev pub no_step_kind : StepKind
no_step_kind = other_step_kind []

unfoldable pub scope_for_execution : ExecutionPolicyRequest → PolicyScope
scope_for_execution r = record {
  kind = execution;
  workload_id = r.workload_id;
  step_id = r.step_id;
  attempt_id = r.attempt_id;
  step_kind = r.step_kind;
  autonomous = r.autonomous;
  target = some r.target;
  source = no_zone;
  destination = no_zone;
  purpose = [];
  derived_from_sha = [];
}

unfoldable pub scope_for_egress : DataEgressPolicyRequest → PolicyScope
scope_for_egress r = record {
  kind = data_egress;
  workload_id = r.workload_id;
  step_id = r.step_id;
  attempt_id = [];
  step_kind = no_step_kind;
  autonomous = false;
  target = none;
  source = r.source;
  destination = r.destination;
  purpose = r.purpose;
  derived_from_sha = r.derived_from_sha;
}

-- `source != ""`
unfoldable pub is_set_zone : Zone → Bool
is_set_zone (other_zone s) = not (is_empty s)
is_set_zone _ = true

unfoldable pub is_set_step_kind : StepKind → Bool
is_set_step_kind (other_step_kind s) = not (is_empty s)
is_set_step_kind _ = true

validate_scope_target : StepKind → Option ExecutionTarget → Check
unfolding validate_target validate_step_kind StepKind-discrete TargetKind-discrete
validate_scope_target step none = err (message "execution policy scope requires a target")
validate_scope_target step (some t) = all_checks (
    prefix_error "execution policy scope target" (validate_target t)
    ∷ prefix_error "execution policy scope step kind" (validate_step_kind step)
    ∷ fail_if
        (step == model_turn && t.kind != model_target
          || (step == tool && t.kind != tool_target || step != model_turn && step != tool))
        (message "execution policy scope step and target kinds do not match")
    ∷ [])

-- The `switch` of `PolicyScope.Validate`.
validate_scope_kind : ScopeKind → PolicyScope → Check
unfolding validate_id validate_scope_target is_set_zone is_set_step_kind is_zero_id validate_zone
    is_blank validate_optional_sha
validate_scope_kind execution s = all_checks (
    prefix_error "policy scope attempt ID" (validate_id s.attempt_id)
    ∷ validate_scope_target s.step_kind s.target
    ∷ fail_if
        (is_set_zone s.source
          || (is_set_zone s.destination
              || (not (is_empty s.purpose) || not (is_empty s.derived_from_sha))))
        (message "execution policy scope cannot contain an egress path")
    ∷ [])
validate_scope_kind data_egress s = all_checks (
    fail_if
      (not (is_zero_id s.attempt_id)
        || (is_set_step_kind s.step_kind || (s.autonomous || is_some s.target)))
      (message "data-egress policy scope cannot contain execution fields")
    ∷ prefix_error "policy scope source" (validate_zone s.source)
    ∷ prefix_error "policy scope destination" (validate_zone s.destination)
    ∷ fail_if (is_blank s.purpose) (message "data-egress policy scope purpose is required")
    ∷ validate_optional_sha s.derived_from_sha
    ∷ [])
validate_scope_kind (other_scope k) s = err (message "unknown policy scope kind")

unfoldable pub validate_scope : PolicyScope → Check
unfolding validate_scope_kind validate_id
validate_scope s = all_checks (
    prefix_error "policy scope workload ID" (validate_id s.workload_id)
    ∷ prefix_error "policy scope step ID" (validate_id s.step_id)
    ∷ validate_scope_kind s.kind s
    ∷ [])

unfoldable pub SandboxCapability-discrete : Discrete SandboxCapability
SandboxCapability-discrete = hlevel Text-discrete

unfoldable pub ScopeKind-discrete : Discrete ScopeKind
ScopeKind-discrete = hlevel Text-discrete

-- `left.Model == nil || right.Model == nil`, and the comparison of what they point to.
unfoldable pub models_equal : Option ModelRef → Option ModelRef → Bool
unfolding ModelRef-discrete
models_equal none none = true
models_equal (some a) (some b) = a == b
models_equal _ _ = false

unfoldable pub targets_equal : ExecutionTarget → ExecutionTarget → Bool
unfolding TargetKind-discrete Zone-discrete text_beq SandboxCapability-discrete models_equal
targets_equal l r =
    if l.kind != r.kind
      || (l.zone != r.zone
          || (l.tool_name != r.tool_name
              || not (holds (SandboxCapability-discrete l.sandbox r.sandbox))))
    then false
    else models_equal l.model r.model

unfoldable pub optional_targets_equal : Option ExecutionTarget → Option ExecutionTarget → Bool
unfolding targets_equal
optional_targets_equal none none = true
optional_targets_equal (some a) (some b) = targets_equal a b
optional_targets_equal _ _ = false

abbrev pub bool_ne : Bool → Bool → Bool
bool_ne true b = not b
bool_ne false b = b

-- `PolicyScope.Equal`
unfoldable pub scopes_equal : PolicyScope → PolicyScope → Bool
unfolding optional_targets_equal ScopeKind-discrete StepKind-discrete Zone-discrete text_beq
scopes_equal a b =
    if not (holds (ScopeKind-discrete a.kind b.kind))
      || (a.workload_id != b.workload_id
          || (a.step_id != b.step_id
              || (a.attempt_id != b.attempt_id
                  || (a.step_kind != b.step_kind
                      || (bool_ne a.autonomous b.autonomous
                          || (a.source != b.source
                              || (a.destination != b.destination
                                  || (a.purpose != b.purpose
                                      || a.derived_from_sha != b.derived_from_sha))))))))
    then false
    else optional_targets_equal a.target b.target

pub record PolicyVerdict : Type 0 where
  pub policy : Text
  pub policy_version : Text
  pub rule_id : Text
  pub action : PolicyAction
  pub reason : Text
  pub manifest_sha256 : Text
  pub scope : PolicyScope
  pub transformation : Text

-- `verdict.Action == PolicyTransform || verdict.Action == PolicyRedact`
unfoldable pub requires_transformation : PolicyAction → Bool
requires_transformation transform = true
requires_transformation redact = true
requires_transformation _ = false

unfoldable pub validate_verdict : PolicyVerdict → Check
unfolding is_blank validate_action validate_sha256 validate_scope requires_transformation
validate_verdict v = all_checks (
    fail_if (is_blank v.policy) (message "policy name is required")
    ∷ fail_if (is_blank v.policy_version) (message "policy version is required")
    ∷ fail_if (is_blank v.rule_id) (message "policy rule ID is required")
    ∷ validate_action v.action
    ∷ fail_if (is_blank v.reason) (message "policy reason is required")
    ∷ prefix_error "verdict manifest SHA-256" (validate_sha256 v.manifest_sha256)
    ∷ validate_scope v.scope
    ∷ fail_if (requires_transformation v.action && is_blank v.transformation)
        (message "transform and redact verdicts require transformation instructions")
    ∷ fail_if (not (requires_transformation v.action) && not (is_empty v.transformation))
        (message "transformation instructions require a transform or redact action")
    ∷ [])

unfoldable pub allows : PolicyVerdict → Bool
unfolding PolicyAction-discrete
allows v = v.action == allow

unfoldable pub requires_approval : PolicyVerdict → Bool
unfolding PolicyAction-discrete
requires_approval v = v.action == require_approval
