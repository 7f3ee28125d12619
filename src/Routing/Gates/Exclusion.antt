-- ===== src/Routing/Gates/Exclusion.antt =====
-- routing.go: exclusions, the binding of policy verdicts to a routing request, and the helpers of
-- the gates.
use fabricrunner.Prelude.{
  ℕ, ◌+◌, ◌-◌, ◌/◌, ◌%◌, String, false, not, ◌||◌, Option, none, some, List, [], ◌∷◌, ◌++◌, ltb,
  eqb, if◌then◌else◌, ◌!=◌, Text, text, text_beq, text_eq, ok, err, Check,
}
use fabricrunner.Domain.{zone_eq, Time, after, model_turn}
use fabricrunner.Model.{contains, tool_use_eq}
use fabricrunner.Policy.Requests.{model_target, SandboxCapability}
use fabricrunner.Policy.Scope.{
  PolicyVerdict, PolicyScope, validate_verdict, scopes_equal, allows, scope_for_execution,
  scope_for_egress,
}
use fabricrunner.Routing.Request.{RoutingRequest, RoutingCandidate}

pub record RoutingExclusion : Type 0 where
  pub code : Text
  pub reason : Text

unfoldable pub excluded : String → String → Option RoutingExclusion
excluded code reason = some (record { code = text code; reason = text reason })

unfoldable pub policy_excluded : String → String → Text → Option RoutingExclusion
policy_excluded kind suffix reason =
    some (record { code = text "policy." ++ (text kind ++ text suffix); reason = reason })

-- The tests of `routingPolicyExclusion`, below the validity of the verdict.
unfoldable pub bind_verdict :
    String → PolicyVerdict → Text → PolicyScope → Check → Option RoutingExclusion
unfolding text_beq scopes_equal allows
bind_verdict kind v digest scope (err e) =
    policy_excluded kind ".invalid"
      (text "candidate has an invalid " ++ (text kind ++ text " policy verdict"))
bind_verdict kind v digest scope (ok _) =
    if v.manifest_sha256 != digest
    then policy_excluded kind ".manifest_mismatch"
        (text "candidate policy verdict does not bind the routing manifest")
    else if not (scopes_equal v.scope scope)
    then policy_excluded kind ".scope_mismatch"
        (text "candidate policy verdict does not bind the routing scope")
    else if not (allows v)
    then policy_excluded kind ".not_allowed"
        (text "candidate policy verdict does not allow the operation")
    else none

-- `routingPolicyExclusion`
unfoldable pub policy_exclusion :
    String → PolicyVerdict → Text → PolicyScope → Option RoutingExclusion
unfolding validate_verdict bind_verdict
policy_exclusion kind v digest scope = bind_verdict kind v digest scope (validate_verdict v)

abbrev pub no_sandbox : SandboxCapability
no_sandbox = record { established = false; backend = [] }

unfoldable pub routing_execution_scope : RoutingRequest → RoutingCandidate → PolicyScope
unfolding scope_for_execution
routing_execution_scope r c = scope_for_execution (record {
  workload_id = r.workload_id;
  step_id = r.step_id;
  attempt_id = r.attempt_id;
  step_kind = model_turn;
  autonomous = r.autonomous;
  manifest = record { items = [] };
  target = record {
    sandbox = no_sandbox;
    kind = model_target;
    zone = c.zone;
    model = some c.model.ref;
    tool_name = [];
  };
})

unfoldable pub routing_egress_scope : RoutingRequest → RoutingCandidate → PolicyScope
unfolding scope_for_egress
routing_egress_scope r c = scope_for_egress (record {
  workload_id = r.workload_id;
  step_id = r.step_id;
  source = r.source_zone;
  destination = c.zone;
  manifest = record { items = [] };
  purpose = r.egress_purpose;
  derived_from_sha = r.derived_from_sha;
})

-- The first of the values wanted that is missing.
unfoldable pub first_missing : List Text → List Text → Option Text
unfolding contains text_beq
first_missing have [] = none
first_missing have (w ∷ ws) = if contains have w then first_missing have ws else some w

unfoldable pub max_time : Time → Time → Time
max_time l r = if after r l then r else l

-- `%q` on one byte; bytes of 0x80 and above are taken for printable text and left alone.
abbrev pub hex_digit : ℕ → ℕ
hex_digit n = if ltb n 10 then b'0' + n else b'a' + (n - 10)

abbrev pub quote_byte : ℕ → Text
quote_byte c =
    if eqb c 0x22
    then text "\\\""
    else if eqb c 0x5c
    then text "\\\\"
    else if eqb c 7
    then text "\\a"
    else if eqb c 8
    then text "\\b"
    else if eqb c 12
    then text "\\f"
    else if eqb c 10
    then text "\\n"
    else if eqb c 13
    then text "\\r"
    else if eqb c 9
    then text "\\t"
    else if eqb c 11
    then text "\\v"
    else if ltb c 32 || eqb c 127
    then text "\\x" ++ (hex_digit (c / 16) ∷ hex_digit (c % 16) ∷ [])
    else c ∷ []

unfoldable pub quote_bytes : Text → Text
quote_bytes [] = 0x22 ∷ []
quote_bytes (c ∷ cs) = quote_byte c ++ quote_bytes cs

abbrev pub quote : Text → Text
quote s = 0x22 ∷ quote_bytes s
