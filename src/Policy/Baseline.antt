-- ===== src/Policy/Baseline.antt =====
-- policy/baseline/policy.go: the deterministic minimum policy. `cancelled` is what `ctx.Err()`
-- returned.
use fabricrunner.Prelude.{
  ℕ, String, Option, none, some, List, [], if◌then◌else◌, ◌==◌, Text, text, text_eq, Error, message,
  Result, ok, err, Check, ◌>>=◌, ◌>>◌,
}
use fabricrunner.Domain.{
  zone_eq, Zone-discrete, Classification, public, internal, confidential, secret, other_class,
  Classification-discrete, classification_eq,
}
use fabricrunner.Content.{manifest_class, manifest_digest}
use fabricrunner.Policy.Requests.{
  ExecutionPolicyRequest, DataEgressPolicyRequest, TargetKind, model_target, tool_target,
  other_target, validate_execution_request, validate_egress_request,
}
use fabricrunner.Policy.Scope.{
  PolicyVerdict, PolicyScope, PolicyAction, allow, deny, require_approval, scope_for_execution,
  scope_for_egress,
}
use fabricrunner.Policy.Evaluate.{Answer, no_verdict}

unfoldable pub verdict : Text → PolicyScope → PolicyAction → String → String → PolicyVerdict
verdict digest scope action rule_id reason = record {
  policy = text "fabricrunner.baseline";
  policy_version = text "1";
  rule_id = text rule_id;
  action = action;
  reason = text reason;
  manifest_sha256 = digest;
  scope = scope;
  transformation = [];
}

-- `return PolicyVerdict{}, err`
abbrev pub or_no_verdict : Result PolicyVerdict → Answer PolicyVerdict
or_no_verdict (ok v) = (v, none)
or_no_verdict (err e) = (no_verdict, some e)

abbrev pub not_cancelled : Option Error → Check
not_cancelled none = ok tt
not_cancelled (some e) = err e

decide_target : TargetKind → Text → PolicyScope → Result PolicyVerdict
unfolding verdict
decide_target model_target digest scope = ok (
    verdict digest scope allow "execution.model.eligible"
      "model execution is eligible after content classification checks")
decide_target tool_target digest scope = ok (
    verdict digest scope require_approval "execution.tool.approval"
      "baseline policy requires approval for tool execution")
decide_target (other_target s) digest scope = err (message "unsupported target kind")

-- The `switch` on the classification, of content that crosses zones.
decide_crossing : Classification → Text → PolicyScope → Result PolicyVerdict
unfolding verdict
decide_crossing public digest scope =
    ok (verdict digest scope allow "egress.public" "public content may cross trust zones")
decide_crossing internal digest scope = ok (
    verdict digest scope require_approval "egress.approval"
      "non-public content requires approval before crossing trust zones")
decide_crossing confidential digest scope = ok (
    verdict digest scope require_approval "egress.approval"
      "non-public content requires approval before crossing trust zones")
decide_crossing secret digest scope = ok (
    verdict digest scope deny "egress.secret.denied"
      "secret content cannot cross trust zones under baseline policy")
decide_crossing (other_class s) digest scope = err (message "unsupported classification")

module _ (sha256 : List ℕ → List ℕ) where
  baseline_execution : Option Error → ExecutionPolicyRequest → Result PolicyVerdict
  unfolding verdict decide_target manifest_class manifest_digest scope_for_execution
      validate_execution_request Classification-discrete
  baseline_execution cancelled r = do
    not_cancelled cancelled
    validate_execution_request r
    class ← manifest_class r.manifest
    digest ← manifest_digest sha256 r.manifest
    if class == secret
        then ok (
            verdict digest (scope_for_execution r) deny "execution.secret.denied"
              "baseline policy does not grant execution access to secret content")
        else decide_target r.target.kind digest (scope_for_execution r)

  baseline_egress : Option Error → DataEgressPolicyRequest → Result PolicyVerdict
  unfolding verdict decide_crossing manifest_class manifest_digest scope_for_egress
      validate_egress_request Zone-discrete
  baseline_egress cancelled r = do
    not_cancelled cancelled
    validate_egress_request r
    digest ← manifest_digest sha256 r.manifest
    if r.source == r.destination
        then ok (
            verdict digest (scope_for_egress r) allow "egress.same-zone"
              "content remains within the same trust zone")
        else (do
          class ← manifest_class r.manifest
          decide_crossing class digest (scope_for_egress r))

  unfoldable pub evaluate_execution : Option Error → ExecutionPolicyRequest → Answer PolicyVerdict
  unfolding baseline_execution
  evaluate_execution cancelled r = or_no_verdict (baseline_execution cancelled r)

  unfoldable pub evaluate_egress : Option Error → DataEgressPolicyRequest → Answer PolicyVerdict
  unfolding baseline_egress
  evaluate_egress cancelled r = or_no_verdict (baseline_egress cancelled r)
