-- ===== src/Policy/Authorized.antt =====
-- policy.go: EvaluateExecutionPolicy and EvaluateDataEgressPolicy fail closed, and never let secret
-- content reach a model.
use fabricrunner.Prelude.{
  ℕ, ◌≡◌, refl, inl, inr, true, Option, none, some, List, text_eq, Error, ok,
}
use fabricrunner.Domain.{secret}
use fabricrunner.Content.{manifest_class, digest_unchecked}
use fabricrunner.Policy.Requests.{
  ExecutionPolicyRequest, DataEgressPolicyRequest, model_target, validate_execution_request,
  validate_egress_request,
}
use fabricrunner.Policy.Scope.{PolicyVerdict, scope_for_execution, scope_for_egress}
use fabricrunner.Policy.Evaluate.{
  Answer, ExecutionPolicy, DataEgressPolicy, ask_execution, ask_egress, execution_rule, egress_rule,
  evaluate_execution_policy, evaluate_egress_request, evaluate_egress_policy,
}
use fabricrunner.Policy.FailClosed.{
  permits, IsBound, closed_permits, none_permits, refused, Check-cases, check_answer-permits,
  execution_request-permits,
}

module _ (sha256 : List ℕ → List ℕ) where
  -- If `EvaluateExecutionPolicy` returns a verdict that allows the operation or asks for an approval,
  -- then the context was live on both sides of the call, the request is valid, its target is no model
  -- with secret content, there is a policy, it gave that verdict without an error, and the verdict is
  -- valid, comes with no error, and is bound to the digest and to the scope of the request.
  pub execution_authorized :
      (before after : Option Error) (policy : ExecutionPolicy) (r : ExecutionPolicyRequest)
      (v : PolicyVerdict) (e : Option Error)
      → evaluate_execution_policy sha256 before after policy r ≡ (v, e)
      → permits v ≡ true
      → (before ≡ none)
        × (after ≡ none)
        × (validate_execution_request r ≡ ok tt)
        × ((r.target.kind ≡ model_target) → ¬ (manifest_class r.manifest ≡ ok secret))
        × ((p : ExecutionPolicyRequest → Answer PolicyVerdict) × (policy ≡ some p)
            × (p r ≡ (v, none)))
        × IsBound (digest_unchecked sha256 r.manifest) (scope_for_execution r) v e
  unfolding evaluate_execution_policy ask_execution
  execution_authorized (some x) after policy r v e h k = absurd (refused h none_permits k)
  execution_authorized none after none r v e h k =
      let (valid, hidden, asked) = execution_request-permits sha256 after none r v e h k in
      absurd (
        refused asked
          (closed_permits _ (digest_unchecked sha256 r.manifest) (scope_for_execution r)) k)
  execution_authorized none after (some p) r v e h k =
      let (valid, hidden, asked) = execution_request-permits sha256 after (some p) r v e h k in
      let (live, gave, bound) =
        check_answer-permits execution_rule "verdict does not match execution scope"
          (digest_unchecked sha256 r.manifest) (scope_for_execution r) after (p r) v e asked k in
      (refl, live, valid, hidden, (p, refl, gave), bound)

  -- If `EvaluateDataEgressPolicy` returns a verdict that allows the operation or asks for an approval,
  -- then the context was live on both sides of the call, the request is valid, there is a policy, it
  -- gave that verdict without an error, and the verdict is valid, comes with no error, and is bound to
  -- the digest and to the scope of the request.
  pub egress_authorized :
      (before after : Option Error) (policy : DataEgressPolicy) (r : DataEgressPolicyRequest)
      (v : PolicyVerdict) (e : Option Error)
      → evaluate_egress_policy sha256 before after policy r ≡ (v, e)
      → permits v ≡ true
      → (before ≡ none)
        × (after ≡ none)
        × (validate_egress_request r ≡ ok tt)
        × ((p : DataEgressPolicyRequest → Answer PolicyVerdict) × (policy ≡ some p)
            × (p r ≡ (v, none)))
        × IsBound (digest_unchecked sha256 r.manifest) (scope_for_egress r) v e
  unfolding evaluate_egress_policy evaluate_egress_request ask_egress
  egress_authorized (some x) after policy r v e h k = absurd (refused h none_permits k)
  egress_authorized none after policy r v e h k = elim (Check-cases (validate_egress_request r)) [
    | inr (x, bad) ↦ absurd (
        refused (rw (bad, evaluate_egress_request) at h)
          (closed_permits _ (digest_unchecked sha256 r.manifest) (scope_for_egress r)) k)
    | inl valid ↦ asked policy valid (rw (valid, evaluate_egress_request) at h)
  ]
    where
      asked :
          (q : DataEgressPolicy)
          → validate_egress_request r ≡ ok tt
          → ask_egress (digest_unchecked sha256 r.manifest) (scope_for_egress r) after q r ≡ (v, e)
          → (◌≡◌ {A = Option Error} none none)
            × (after ≡ none)
            × (validate_egress_request r ≡ ok tt)
            × ((p : DataEgressPolicyRequest → Answer PolicyVerdict) × (q ≡ some p)
                × (p r ≡ (v, none)))
            × IsBound (digest_unchecked sha256 r.manifest) (scope_for_egress r) v e
      asked none valid a =
          absurd (
            refused a (closed_permits _ (digest_unchecked sha256 r.manifest) (scope_for_egress r))
              k)
      asked (some p) valid a =
          let (live, gave, bound) =
            check_answer-permits egress_rule "verdict does not match egress scope"
              (digest_unchecked sha256 r.manifest) (scope_for_egress r) after (p r) v e a k in
          (refl, live, valid, (p, refl, gave), bound)
