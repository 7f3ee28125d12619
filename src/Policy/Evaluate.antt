-- ===== src/Policy/Evaluate.antt =====
-- policy.go: EvaluateExecutionPolicy and EvaluateDataEgressPolicy. A policy is an argument: nil, or
-- its method at the context of the call. The answers of `ctx.Err()` on entry and after the call of
-- the policy are arguments too.
use fabricrunner.Prelude.{
  ℕ, String, false, not, ◌&&◌, Option, none, some, List, [], ◌++◌, if◌then◌else◌, is_empty, ◌==◌,
  ◌!=◌, Text, text, text_beq, text_eq, Sentinel, Error, sentinel, message, wrap, ok, err,
}
use fabricrunner.Domain.{secret, Classification-discrete, classification_eq}
use fabricrunner.Content.{manifest_class, digest_unchecked}
use fabricrunner.Policy.Requests.{
  ExecutionPolicyRequest, DataEgressPolicyRequest, model_target, target_kind_eq,
  TargetKind-discrete, validate_execution_request, validate_egress_request,
}
use fabricrunner.Policy.Scope.{
  PolicyVerdict, PolicyScope, other_scope, other_action, deny, scope_for_execution,
  scope_for_egress, validate_verdict, scopes_equal, no_zone, no_step_kind,
}

-- A function that returns a value beside its `error`.
abbrev pub Answer {ℓ} : Type ℓ → Type ℓ
Answer A = A × Option Error

abbrev pub policy_error : Error → Error
policy_error e = wrap (sentinel Sentinel.policy_evaluation) e

abbrev pub no_scope : PolicyScope
no_scope = record {
  kind = other_scope [];
  workload_id = [];
  step_id = [];
  attempt_id = [];
  step_kind = no_step_kind;
  autonomous = false;
  target = none;
  source = no_zone;
  destination = no_zone;
  purpose = [];
  derived_from_sha = [];
}

-- `PolicyVerdict{}`
abbrev pub no_verdict : PolicyVerdict
no_verdict = record {
  policy = [];
  policy_version = [];
  rule_id = [];
  action = other_action [];
  reason = [];
  manifest_sha256 = [];
  scope = no_scope;
  transformation = [];
}

unfoldable pub fail_closed : Text → Text → PolicyScope → PolicyVerdict
fail_closed rule_id digest scope = record {
  policy = text "fabricrunner.fail-closed";
  policy_version = text "1";
  rule_id = rule_id;
  action = deny;
  reason = text "policy evaluation did not produce a valid authorization";
  manifest_sha256 = digest;
  scope = scope;
  transformation = [];
}

-- The tests on the verdict of a policy that returned no error; `rule` gives the rule IDs, and
-- `mismatch` the text of the last error.
unfoldable pub check_verdict :
    (String → Text) → String → Text → PolicyScope → PolicyVerdict → Answer PolicyVerdict
unfolding fail_closed validate_verdict scopes_equal text_beq
check_verdict rule mismatch digest scope v = elim (validate_verdict v) [
  | err e ↦ (fail_closed (rule ".verdict.invalid") digest scope, some (policy_error e))
  | ok _ ↦
      if not (is_empty v.manifest_sha256) && v.manifest_sha256 != digest
      then (
        fail_closed (rule ".verdict.manifest-mismatch") digest scope,
        some (policy_error (message "verdict does not match evaluated manifest")),
      )
      else if not (scopes_equal v.scope scope)
      then (
        fail_closed (rule ".verdict.scope-mismatch") digest scope,
        some (policy_error (message mismatch)),
      )
      else (v, none)
]

-- What is done with the answer of the policy.
unfoldable pub check_answer :
    (String → Text)
    → String
    → Text
    → PolicyScope
    → Option Error
    → Answer PolicyVerdict
    → Answer PolicyVerdict
unfolding check_verdict
check_answer rule mismatch digest scope (some cancelled) answer = (no_verdict, some cancelled)
check_answer rule mismatch digest scope none (v, some e) =
    (fail_closed (rule ".policy.error") digest scope, some (policy_error e))
check_answer rule mismatch digest scope none (v, none) = check_verdict rule mismatch digest scope v

abbrev pub ExecutionPolicy : Type 0
ExecutionPolicy = Option (ExecutionPolicyRequest → Answer PolicyVerdict)

abbrev pub DataEgressPolicy : Type 0
DataEgressPolicy = Option (DataEgressPolicyRequest → Answer PolicyVerdict)

abbrev pub execution_rule : String → Text
execution_rule s = text "execution" ++ text s

abbrev pub egress_rule : String → Text
egress_rule s = text "egress" ++ text s

-- The call of the policy, nil or not.
unfoldable pub ask_execution :
    Text
    → PolicyScope
    → Option Error
    → ExecutionPolicy
    → ExecutionPolicyRequest
    → Answer PolicyVerdict
unfolding check_answer fail_closed
ask_execution digest scope after none r = (
  fail_closed (execution_rule ".policy.missing") digest scope,
  some (policy_error (message "execution policy is nil")),
)
ask_execution digest scope after (some policy) r =
    check_answer execution_rule "verdict does not match execution scope" digest scope after
      (policy r)

unfoldable pub ask_egress :
    Text
    → PolicyScope
    → Option Error
    → DataEgressPolicy
    → DataEgressPolicyRequest
    → Answer PolicyVerdict
unfolding check_answer fail_closed
ask_egress digest scope after none r = (
  fail_closed (egress_rule ".policy.missing") digest scope,
  some (policy_error (message "data egress policy is nil")),
)
ask_egress digest scope after (some policy) r =
    check_answer egress_rule "verdict does not match egress scope" digest scope after (policy r)

module _ (sha256 : List ℕ → List ℕ) where
  -- The body of `EvaluateExecutionPolicy` past the test of the context.
  unfoldable pub evaluate_execution_request :
      Option Error → ExecutionPolicy → ExecutionPolicyRequest → Answer PolicyVerdict
  unfolding fail_closed ask_execution digest_unchecked scope_for_execution
      validate_execution_request manifest_class Classification-discrete TargetKind-discrete
  evaluate_execution_request after policy r =
      let digest = digest_unchecked sha256 r.manifest in
      let scope = scope_for_execution r in
      elim (validate_execution_request r) [
        | err e ↦
            (fail_closed (execution_rule ".request.invalid") digest scope, some (policy_error e))
        | ok _ ↦ elim (manifest_class r.manifest) [
          | err e ↦
              (fail_closed (execution_rule ".manifest.invalid") digest scope, some (policy_error e))
          | ok class ↦
              if r.target.kind == model_target && class == secret
              then (fail_closed (execution_rule ".secret-model.denied") digest scope, none)
              else ask_execution digest scope after policy r
        ]
      ]

  unfoldable pub evaluate_execution_policy :
      Option Error → Option Error → ExecutionPolicy → ExecutionPolicyRequest → Answer PolicyVerdict
  unfolding evaluate_execution_request
  evaluate_execution_policy (some cancelled) after policy r = (no_verdict, some cancelled)
  evaluate_execution_policy none after policy r = evaluate_execution_request after policy r

  unfoldable pub evaluate_egress_request :
      Option Error → DataEgressPolicy → DataEgressPolicyRequest → Answer PolicyVerdict
  unfolding fail_closed ask_egress digest_unchecked scope_for_egress validate_egress_request
  evaluate_egress_request after policy r =
      let digest = digest_unchecked sha256 r.manifest in
      let scope = scope_for_egress r in
      elim (validate_egress_request r) [
        | err e ↦ (fail_closed (egress_rule ".request.invalid") digest scope, some (policy_error e))
        | ok _ ↦ ask_egress digest scope after policy r
      ]

  unfoldable pub evaluate_egress_policy :
      Option Error
      → Option Error
      → DataEgressPolicy
      → DataEgressPolicyRequest
      → Answer PolicyVerdict
  unfolding evaluate_egress_request
  evaluate_egress_policy (some cancelled) after policy r = (no_verdict, some cancelled)
  evaluate_egress_policy none after policy r = evaluate_egress_request after policy r
