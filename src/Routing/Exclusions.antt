-- ===== src/Routing/Exclusions.antt =====
-- routing.go: every exclusion that the gates give has a code and a reason.
use fabricrunner.Prelude.{
  String, ◌≡◌, refl, subst, Bool, true, false, not, ◌&&◌, Option, none, some, List, [], ◌∷◌, ◌++◌,
  arith, ltb, if◌then◌else◌, All, ◌!=◌, Text, text, text_eq, ok, err, Check, all_checks-pass,
  fail_if-pass,
}
use fabricrunner.Strings.Blank.{not_blank}
use fabricrunner.Strings.{is_blank, is_space}
use fabricrunner.Domain.{zone_eq}
use fabricrunner.Policy.Scope.{PolicyVerdict, PolicyScope, validate_verdict, scopes_equal, allows}
use fabricrunner.Routing.Request.{RoutingRequest, RoutingCandidate}
use fabricrunner.Routing.Gates.{
  RoutingExclusion, gate, missing, excluded, policy_excluded, policy_exclusion, egress_gate,
  first_exclusion, quote, routing_egress_scope, routing_execution_scope, bind_verdict, health_gates,
  policy_gates, capability_gates, limit_gates, candidate_exclusion,
}
use fabricrunner.Routing.Decision.{validate_exclusion}

-- Either nothing, or an exclusion that validates.
abbrev IsSound : Option RoutingExclusion → Type 0
IsSound none = Unit
IsSound (some x) = validate_exclusion x ≡ ok tt

-- The text begins with an ASCII byte that is no space.
abbrev solid_head : Text → Bool
solid_head [] = false
solid_head (a ∷ s) = ltb a 128 && not (is_space a)

solid_visible : (s : Text) → solid_head s ≡ true → is_blank s ≡ false
solid_visible [] h = cc
solid_visible (a ∷ s) h = not_blank a (ground arith) (ground arith) s

abbrev Solid : Text → Type 0
Solid s = solid_head s ≡ true

sound_parts : (x : RoutingExclusion) → Solid x.code → Solid x.reason → validate_exclusion x ≡ ok tt
unfolding validate_exclusion
sound_parts x h k =
    all_checks-pass _
      (fail_if-pass _ _ (solid_visible x.code h), (fail_if-pass _ _ (solid_visible x.reason k), tt))

first-IsSound :
    (gates : List (Option RoutingExclusion)) → All IsSound gates → IsSound (first_exclusion gates)
unfolding first_exclusion
first-IsSound [] h = tt
first-IsSound (some x ∷ gates) h = h.0
first-IsSound (none ∷ gates) h = first-IsSound gates h.1

gate-IsSound :
    (b : Bool) (code reason : String)
    → Solid (text code)
    → Solid (text reason)
    → IsSound (gate b code reason)
unfolding gate excluded
gate-IsSound true code reason h k = sound_parts _ h k
gate-IsSound false code reason h k = tt

policy_excluded-IsSound :
    (kind suffix : String) (reason : Text)
    → Solid reason
    → IsSound (policy_excluded kind suffix reason)
unfolding policy_excluded
policy_excluded-IsSound kind suffix reason h = sound_parts _ refl h

ladder :
    (a b c : Bool) (x y z : Option RoutingExclusion)
    → IsSound x
    → IsSound y
    → IsSound z
    → IsSound (if a then x else if b then y else if c then z else none)
ladder true b c x y z hx hy hz = hx
ladder false true c x y z hx hy hz = hy
ladder false false true x y z hx hy hz = hz
ladder false false false x y z hx hy hz = tt

bind_verdict-IsSound :
    (kind : String) (v : PolicyVerdict) (digest : Text) (scope : PolicyScope) (valid : Check)
    → IsSound (bind_verdict kind v digest scope valid)
unfolding bind_verdict
bind_verdict-IsSound kind v digest scope (err e) = policy_excluded-IsSound kind ".invalid" _ refl
bind_verdict-IsSound kind v digest scope (ok _) =
    ladder (v.manifest_sha256 != digest) (not (scopes_equal v.scope scope)) (not (allows v)) _ _ _
      (policy_excluded-IsSound kind ".manifest_mismatch" _ refl)
      (policy_excluded-IsSound kind ".scope_mismatch" _ refl)
      (policy_excluded-IsSound kind ".not_allowed" _ refl)

policy_exclusion-IsSound :
    (kind : String) (v : PolicyVerdict) (digest : Text) (scope : PolicyScope)
    → IsSound (policy_exclusion kind v digest scope)
unfolding policy_exclusion
policy_exclusion-IsSound kind v digest scope =
    bind_verdict-IsSound kind v digest scope (validate_verdict v)

egress_gate-IsSound :
    (r : RoutingRequest) (c : RoutingCandidate) (v : Option PolicyVerdict)
    → IsSound (egress_gate r c v)
unfolding egress_gate excluded
egress_gate-IsSound r c none = sound_parts _ refl refl
egress_gate-IsSound r c (some v) =
    policy_exclusion-IsSound "egress" v r.manifest_sha256 (routing_egress_scope r c)

missing-IsSound :
    (code reason : String) (value : Option Text)
    → Solid (text code)
    → ((s : Text) → Solid (text reason ++ s))
    → IsSound (missing code reason value)
unfolding missing
missing-IsSound code reason none h k = tt
missing-IsSound code reason (some v) h k = sound_parts _ h (k (quote v))

if-IsSound : (b : Bool) (x : Option RoutingExclusion) → IsSound x → IsSound (if b then x else none)
if-IsSound true x h = h
if-IsSound false x h = tt

health-IsSound : (r : RoutingRequest) (c : RoutingCandidate) → IsSound (health_gates r c)
unfolding health_gates
health-IsSound r c = first-IsSound _ (
  gate-IsSound _ _ _ refl refl,
  (
    gate-IsSound _ _ _ refl refl,
    (
      gate-IsSound _ _ _ refl refl,
      (gate-IsSound _ _ _ refl refl, (gate-IsSound _ _ _ refl refl, tt)),
    ),
  ),
)

policy-IsSound : (r : RoutingRequest) (c : RoutingCandidate) → IsSound (policy_gates r c)
unfolding policy_gates
policy-IsSound r c = first-IsSound _ (
  policy_exclusion-IsSound "execution" c.execution_verdict r.manifest_sha256
      (routing_execution_scope r c),
  (
    if-IsSound (c.zone != r.source_zone) (egress_gate r c c.egress_verdict)
        (egress_gate-IsSound r c c.egress_verdict),
    tt,
  ),
)

capability-IsSound : (r : RoutingRequest) (c : RoutingCandidate) → IsSound (capability_gates r c)
unfolding capability_gates
capability-IsSound r c = first-IsSound _ (
  missing-IsSound _ _ _ refl (λ s. refl),
  (
    missing-IsSound _ _ _ refl (λ s. refl),
    (
      gate-IsSound _ _ _ refl refl,
      (gate-IsSound _ _ _ refl refl, (gate-IsSound _ _ _ refl refl, tt)),
    ),
  ),
)

limit-IsSound : (r : RoutingRequest) (c : RoutingCandidate) → IsSound (limit_gates r c)
unfolding limit_gates
limit-IsSound r c = first-IsSound _ (
  gate-IsSound _ _ _ refl refl,
  (
    gate-IsSound _ _ _ refl refl,
    (
      gate-IsSound _ _ _ refl refl,
      (gate-IsSound _ _ _ refl refl, (gate-IsSound _ _ _ refl refl, tt)),
    ),
  ),
)

-- Whatever gate excludes a candidate, the exclusion passes its own validation.
pub candidate_exclusion-IsSound :
    (r : RoutingRequest) (c : RoutingCandidate) (x : RoutingExclusion)
    → candidate_exclusion r c ≡ some x
    → validate_exclusion x ≡ ok tt
unfolding candidate_exclusion
candidate_exclusion-IsSound r c x h = subst IsSound h (
    first-IsSound _
      (health-IsSound r c, (policy-IsSound r c, (capability-IsSound r c, (limit-IsSound r c, tt)))))
