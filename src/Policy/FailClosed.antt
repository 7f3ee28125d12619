-- ===== src/Policy/FailClosed.antt =====
-- policy.go: what an authorization that EvaluateExecutionPolicy or EvaluateDataEgressPolicy returns
-- says of the request and of the policy.
use fabricrunner.Prelude.{
  ℕ, String, ◌≡◌, refl, sym, ap, ◌∙◌, subst, ◌⊎◌, inl, inr, Bool, true, false, not, ◌&&◌, ◌||◌,
  Option, none, some, List, [], ◌∷◌, arith, Bool-cases, is_empty, ◌==◌, ◌!=◌, Text, text_eq, Error,
  Result, ok, err, Check, prefix_error-ok, passed, equal_of_same,
}
use fabricrunner.Strings.{validate_sha256}
use fabricrunner.Domain.{Classification, secret, classification_eq}
use fabricrunner.Content.{manifest_class, digest_unchecked}
use fabricrunner.Policy.Requests.{
  ExecutionPolicyRequest, TargetKind, model_target, target_kind_eq, validate_execution_request,
}
use fabricrunner.Policy.Scope.{
  PolicyVerdict, PolicyScope, allows, requires_approval, validate_verdict, scopes_equal,
  scope_for_execution, PolicyAction-discrete,
}
use fabricrunner.Policy.Evaluate.{
  Answer, ExecutionPolicy, no_verdict, fail_closed, check_verdict, check_answer, ask_execution,
  evaluate_execution_request,
}
use fabricrunner.Policy.Equal.{scopes_equal_iff}

-- A verdict that lets the operation go on, at once or after an approval.
abbrev pub permits : PolicyVerdict → Bool
permits v = allows v || requires_approval v

-- The verdict stands as the policy gave it: it is valid, no error comes with it, and it is bound to
-- the digest and to the scope.
pub record IsBound (digest : Text) (scope : PolicyScope) (v : PolicyVerdict) (e : Option Error)
    : Type 0 where
  pub no_error : e ≡ none
  pub valid : validate_verdict v ≡ ok tt
  pub manifest : v.manifest_sha256 ≡ digest
  pub bound : v.scope ≡ scope

pub closed_permits :
    (rule digest : Text) (scope : PolicyScope) → permits (fail_closed rule digest scope) ≡ false
unfolding fail_closed allows requires_approval PolicyAction-discrete
closed_permits rule digest scope = refl

pub none_permits : permits no_verdict ≡ false
unfolding allows requires_approval PolicyAction-discrete
none_permits = refl

sha-is_empty : (s : Text) → validate_sha256 s ≡ ok tt → is_empty s ≡ false
unfolding validate_sha256
sha-is_empty [] h = cc (passed _ 0 h refl)
sha-is_empty (a ∷ s) h = refl

verdict_sha : (v : PolicyVerdict) → validate_verdict v ≡ ok tt → is_empty v.manifest_sha256 ≡ false
unfolding validate_verdict
verdict_sha v h = sha-is_empty v.manifest_sha256 (prefix_error-ok _ _ (passed _ 5 h refl))

-- An answer with a verdict that does not permit is not one that does.
pub refused :
    {u v : PolicyVerdict} {d e : Option Error}
    → ◌≡◌ {A = Answer PolicyVerdict} (u, d) (v, e)
    → permits u ≡ false
    → permits v ≡ true
    → ⊥
refused {u} {v} p n y = absurd (cc (ap (λ a. permits a.0) p, n, y))

pub Check-cases : (c : Check) → (c ≡ ok tt) ⊎ ((x : Error) × (c ≡ err x))
Check-cases (ok _) = inl refl
Check-cases (err x) = inr (x, refl)

-- The digest of a valid verdict is there, so the test on it is a test of equality.
manifest_of :
    (u : PolicyVerdict) (digest : Text)
    → validate_verdict u ≡ ok tt
    → (not (is_empty u.manifest_sha256) && u.manifest_sha256 != digest) ≡ false
    → u.manifest_sha256 ≡ digest
manifest_of u digest valid h =
    equal_of_same u.manifest_sha256 digest (rw (verdict_sha u valid) at h)

not-false : (b : Bool) → not b ≡ false → b ≡ true
not-false b h = ground arith

-- What the tests on a verdict let through.
check_verdict-permits :
    (rule : String → Text) (mismatch : String) (digest : Text) (scope : PolicyScope)
    (u v : PolicyVerdict) (e : Option Error)
    → check_verdict rule mismatch digest scope u ≡ (v, e)
    → permits v ≡ true
    → (u ≡ v) × IsBound digest scope v e
unfolding check_verdict
check_verdict-permits rule mismatch digest scope u v e h k =
    elim (Check-cases (validate_verdict u)) [
      | inr (x, bad) ↦
          absurd (refused (rw (bad, check_verdict) at h) (closed_permits _ digest scope) k)
      | inl valid ↦
          elim (Bool-cases (not (is_empty u.manifest_sha256) && u.manifest_sha256 != digest)) [
            | inl other ↦
                absurd (
                  refused (rw (valid, check_verdict, other) at h) (closed_permits _ digest scope) k)
            | inr same_digest ↦ elim (Bool-cases (not (scopes_equal u.scope scope))) [
              | inl other ↦ absurd (
                  refused (rw (valid, check_verdict, same_digest, other) at h)
                    (closed_permits _ digest scope) k)
              | inr same_scope ↦
                  let kept : ◌≡◌ {A = Answer PolicyVerdict} (u, none) (v, e) =
                    rw (valid, check_verdict, same_digest, same_scope) at h in
                  let uv = ap (λ a. a.0) kept in
                  (
                    uv,
                    record {
                      no_error = sym (ap (λ a. a.1) kept);
                      valid = subst (λ w. validate_verdict w ≡ ok tt) uv valid;
                      manifest =
                          subst (λ w. w.manifest_sha256 ≡ digest) uv
                            (manifest_of u digest valid same_digest);
                      bound =
                          subst (λ w. w.scope ≡ scope) uv
                            ((scopes_equal_iff u.scope scope).0 (not-false _ same_scope));
                    },
                  )
            ]
          ]
    ]

-- What the tests on the answer of the policy let through.
pub check_answer-permits :
    (rule : String → Text) (mismatch : String) (digest : Text) (scope : PolicyScope)
    (after : Option Error) (answer : Answer PolicyVerdict) (v : PolicyVerdict) (e : Option Error)
    → check_answer rule mismatch digest scope after answer ≡ (v, e)
    → permits v ≡ true
    → (after ≡ none) × (answer ≡ (v, none)) × IsBound digest scope v e
unfolding check_answer
check_answer-permits rule mismatch digest scope (some x) answer v e h k =
    absurd (refused h none_permits k)
check_answer-permits rule mismatch digest scope none (u, some x) v e h k =
    absurd (refused h (closed_permits _ digest scope) k)
check_answer-permits rule mismatch digest scope none (u, none) v e h k =
    let (uv, bound) = check_verdict-permits rule mismatch digest scope u v e h k in
    (refl, ap (λ x. (x, none)) uv, bound)

Class-cases :
    (c : Result Classification) → ((x : Classification) × (c ≡ ok x)) ⊎ ((x : Error) × (c ≡ err x))
Class-cases (ok c) = inl (c, refl)
Class-cases (err x) = inr (x, refl)

ok_injective : {a b : Classification} → ok a ≡ ok b → a ≡ b
ok_injective h = cc

open_target :
    (kind : TargetKind) (class : Classification)
    → (kind == model_target && class == secret) ≡ false
    → kind ≡ model_target
    → class ≡ secret
    → ⊥
open_target kind class h t s = absurd (
    cc (
      (target_kind_eq.agrees kind model_target).1 t,
      (classification_eq.agrees class secret).1 s,
      rw
          (
            (target_kind_eq.agrees kind model_target).1 t,
            (classification_eq.agrees class secret).1 s,
          )
          at h,
    ))

module _ (sha256 : List ℕ → List ℕ) where
  pub execution_request-permits :
      (after : Option Error) (policy : ExecutionPolicy) (r : ExecutionPolicyRequest)
      (v : PolicyVerdict) (e : Option Error)
      → evaluate_execution_request sha256 after policy r ≡ (v, e)
      → permits v ≡ true
      → (validate_execution_request r ≡ ok tt)
        × ((r.target.kind ≡ model_target) → ¬ (manifest_class r.manifest ≡ ok secret))
        × (ask_execution (digest_unchecked sha256 r.manifest) (scope_for_execution r) after policy r
            ≡ (v, e))
  unfolding evaluate_execution_request
  execution_request-permits after policy r v e h k =
      let digest = digest_unchecked sha256 r.manifest in
      let scope = scope_for_execution r in
      elim (Check-cases (validate_execution_request r)) [
        | inr (x, bad) ↦
            absurd (
              refused (rw (bad, evaluate_execution_request) at h) (closed_permits _ digest scope) k)
        | inl valid ↦ elim (Class-cases (manifest_class r.manifest)) [
          | inr (x, bad) ↦ absurd (
              refused (rw (valid, evaluate_execution_request, bad) at h)
                (closed_permits _ digest scope) k)
          | inl (class, ec) ↦ elim (Bool-cases (r.target.kind == model_target && class == secret)) [
            | inl hidden ↦ absurd (
                refused (rw (valid, evaluate_execution_request, ec, hidden) at h)
                  (closed_permits _ digest scope) k)
            | inr shown ↦ (
              valid,
              (λ t s. open_target r.target.kind class shown t (ok_injective (sym ec ∙ s))),
              rw (valid, evaluate_execution_request, ec, shown) at h,
            )
          ]
        ]
      ]
