-- ===== src/Policy/Equal.antt =====
-- policy.go: `PolicyScope.Equal` is equality.
use fabricrunner.Prelude.{
  ◌≡◌, refl, ap, subst, ◌↔◌, Bool, true, false, Option, none, some, arith, if◌then◌else◌,
  ||-eq-false, text_eq, equal_of_same, same, holds_of_not, holds_refl,
}
use fabricrunner.Domain.{zone_eq, step_kind_eq}
use fabricrunner.Model.{ModelRef, model_ref_eq}
use fabricrunner.Policy.Requests.{ExecutionTarget, target_kind_eq}
use fabricrunner.Policy.Scope.{
  PolicyScope, SandboxCapability-discrete, ScopeKind-discrete, models_equal, targets_equal,
  optional_targets_equal, bool_ne, scopes_equal,
}

bool_of_same : (a b : Bool) → bool_ne a b ≡ false → a ≡ b
bool_of_same a b h = ground arith

guard_true : (t u : Bool) → (if t then false else u) ≡ true → (t ≡ false) × (u ≡ true)
guard_true true u h = cc
guard_true false u h = (refl, h)

models_equal_sound : (a b : Option ModelRef) → models_equal a b ≡ true → a ≡ b
unfolding models_equal
models_equal_sound none none h = refl
models_equal_sound none (some y) h = cc
models_equal_sound (some x) none h = cc
models_equal_sound (some x) (some y) h = ap some ((model_ref_eq.agrees x y).0 h)

models_equal_refl : (a : Option ModelRef) → models_equal a a ≡ true
unfolding models_equal
models_equal_refl none = refl
models_equal_refl (some x) = (model_ref_eq.agrees x x).1 refl

targets_equal_sound : (a b : ExecutionTarget) → targets_equal a b ≡ true → a ≡ b
unfolding targets_equal
targets_equal_sound a b h =
    let (g, model) = guard_true _ _ h in
    let (kind, g1) = ||-eq-false _ _ g in
    let (zone, g2) = ||-eq-false _ _ g1 in
    let (name, box) = ||-eq-false _ _ g2 in
    λ i. record {
      sandbox = holds_of_not (SandboxCapability-discrete a.sandbox b.sandbox) box i;
      kind = equal_of_same a.kind b.kind kind i;
      zone = equal_of_same a.zone b.zone zone i;
      model = models_equal_sound a.model b.model model i;
      tool_name = equal_of_same a.tool_name b.tool_name name i;
    }

targets_equal_refl : (a : ExecutionTarget) → targets_equal a a ≡ true
unfolding targets_equal
targets_equal_refl a =
    rw (same a.kind, same a.zone)
      (rw (same a.tool_name, holds_refl SandboxCapability-discrete a.sandbox)
        (models_equal_refl a.model))

optional_sound : (a b : Option ExecutionTarget) → optional_targets_equal a b ≡ true → a ≡ b
unfolding optional_targets_equal
optional_sound none none h = refl
optional_sound none (some y) h = cc
optional_sound (some x) none h = cc
optional_sound (some x) (some y) h = ap some (targets_equal_sound x y h)

optional_refl : (a : Option ExecutionTarget) → optional_targets_equal a a ≡ true
unfolding optional_targets_equal
optional_refl none = refl
optional_refl (some x) = targets_equal_refl x

scopes_equal_sound : (a b : PolicyScope) → scopes_equal a b ≡ true → a ≡ b
unfolding scopes_equal
scopes_equal_sound a b h =
    let (g, target) = guard_true _ _ h in
    let (kind, g1) = ||-eq-false _ _ g in
    let (workload, g2) = ||-eq-false _ _ g1 in
    let (step, g3) = ||-eq-false _ _ g2 in
    let (attempt, g4) = ||-eq-false _ _ g3 in
    let (step_kind, g5) = ||-eq-false _ _ g4 in
    let (autonomous, g6) = ||-eq-false _ _ g5 in
    let (source, g7) = ||-eq-false _ _ g6 in
    let (destination, g8) = ||-eq-false _ _ g7 in
    let (purpose, derived) = ||-eq-false _ _ g8 in
    λ i. record {
      kind = holds_of_not (ScopeKind-discrete a.kind b.kind) kind i;
      workload_id = equal_of_same a.workload_id b.workload_id workload i;
      step_id = equal_of_same a.step_id b.step_id step i;
      attempt_id = equal_of_same a.attempt_id b.attempt_id attempt i;
      step_kind = equal_of_same a.step_kind b.step_kind step_kind i;
      autonomous = bool_of_same a.autonomous b.autonomous autonomous i;
      target = optional_sound a.target b.target target i;
      source = equal_of_same a.source b.source source i;
      destination = equal_of_same a.destination b.destination destination i;
      purpose = equal_of_same a.purpose b.purpose purpose i;
      derived_from_sha = equal_of_same a.derived_from_sha b.derived_from_sha derived i;
    }

bool_ne_refl : (a : Bool) → bool_ne a a ≡ false
bool_ne_refl true = refl
bool_ne_refl false = refl

pub scopes_equal_refl : (a : PolicyScope) → scopes_equal a a ≡ true
unfolding scopes_equal
scopes_equal_refl a =
    rw (holds_refl ScopeKind-discrete a.kind, same a.workload_id, same a.step_id)
      (rw (same a.attempt_id, same a.step_kind, bool_ne_refl a.autonomous)
        (rw (same a.source, same a.destination)
          (rw (same a.purpose, same a.derived_from_sha) (optional_refl a.target))))

-- Two policy scopes compare as equal exactly where they are equal in every field.
pub scopes_equal_iff : (a b : PolicyScope) → (scopes_equal a b ≡ true) ↔ (a ≡ b)
scopes_equal_iff a b =
    (scopes_equal_sound a b, λ e. subst (λ x. scopes_equal a x ≡ true) e (scopes_equal_refl a))
