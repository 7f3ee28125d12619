-- ===== src/Routing/Gates.antt =====
-- routing.go: the ordered gates that decide the eligibility of a candidate.
mod Exclusion
unfoldable pub use Exclusion.*
use fabricrunner.Prelude.{
  ℕ, zero, suc, ◌+◌, ◌-◌, ◌/◌, ◌%◌, String, ◌≡◌, refl, Bool, true, false, not, ◌&&◌, ◌||◌, Option,
  none, some, List, [], ◌∷◌, ◌++◌, ltb, eqb, if◌then◌else◌, is_some, is_empty, get_elem?, All, ◌==◌,
  ◌!=◌, holds, Text, text, text_beq, text_eq, Error, Result, ok, err, Check, ◌>>=◌, ◌>>◌, pos,
  ℤ-discrete, ltb_ℤ,
}
use fabricrunner.Id.{FabricId}
use fabricrunner.Domain.{Zone, zone_eq, Zone-discrete, Time, after, model_turn}
use fabricrunner.Model.{ModelRef, contains, none_mode, native, tool_use_eq, ToolUseMode-discrete}
use fabricrunner.Policy.Requests.{model_target, SandboxCapability}
use fabricrunner.Policy.Scope.{
  PolicyVerdict, PolicyScope, validate_verdict, scopes_equal, allows, scope_for_execution,
  scope_for_egress,
}
use fabricrunner.Routing.Request.{RoutingRequest, RoutingCandidate, sub_time, validate_request}

-- A row of gates: `if x := gate; x != nil { return x }`, one after another.
unfoldable pub first_exclusion : List (Option RoutingExclusion) → Option RoutingExclusion
first_exclusion [] = none
first_exclusion (some x ∷ gates) = some x
first_exclusion (none ∷ gates) = first_exclusion gates

pub first_exclusion-none :
    (gates : List (Option RoutingExclusion)) (i : ℕ) {g : Option RoutingExclusion}
    → first_exclusion gates ≡ none
    → get_elem? gates i ≡ some g
    → g ≡ none
unfolding first_exclusion
first_exclusion-none [] i h e = cc
first_exclusion-none (some x ∷ gates) i h e = cc
first_exclusion-none (none ∷ gates) zero h e = cc
first_exclusion-none (none ∷ gates) (suc i) h e = first_exclusion-none gates i h e

pub none-first_exclusion :
    (gates : List (Option RoutingExclusion))
    → All (λ g. g ≡ none) gates
    → first_exclusion gates ≡ none
unfolding first_exclusion
none-first_exclusion [] h = refl
none-first_exclusion (g ∷ gates) h = rw h.0 (none-first_exclusion gates h.1)

unfoldable pub gate : Bool → String → String → Option RoutingExclusion
gate true code reason = excluded code reason
gate false code reason = none

-- The gates on the state of the candidate and on its zone.
unfoldable pub health_gates : RoutingRequest → RoutingCandidate → Option RoutingExclusion
unfolding contains Zone-discrete
health_gates r c = first_exclusion (
    gate (not c.authenticated) "identity.unauthenticated" "candidate is not authenticated"
    ∷ gate (not c.compatible) "compatibility.unsatisfied"
        "candidate is not protocol or workload compatible"
    ∷ gate (not c.healthy) "health.unhealthy" "candidate is not healthy"
    ∷ gate c.draining "health.draining" "candidate is draining"
    ∷ gate
        (not (is_empty r.requirements.allowed_zones)
          && not (contains r.requirements.allowed_zones c.zone))
        "policy.zone.denied" "candidate zone is not allowed by workload requirements"
    ∷ [])

-- The egress verdict of a candidate in another zone.
unfoldable pub egress_gate :
    RoutingRequest → RoutingCandidate → Option PolicyVerdict → Option RoutingExclusion
unfolding policy_exclusion routing_egress_scope
egress_gate r c none =
    excluded "egress.verdict.missing" "cross-zone candidate requires an egress verdict"
egress_gate r c (some v) = policy_exclusion "egress" v r.manifest_sha256 (routing_egress_scope r c)

unfoldable pub policy_gates : RoutingRequest → RoutingCandidate → Option RoutingExclusion
unfolding policy_exclusion routing_execution_scope egress_gate Zone-discrete
policy_gates r c = first_exclusion (
    policy_exclusion "execution" c.execution_verdict r.manifest_sha256 (routing_execution_scope r c)
    ∷ (if c.zone != r.source_zone then egress_gate r c c.egress_verdict else none)
    ∷ [])

unfoldable pub missing : String → String → Option Text → Option RoutingExclusion
missing code reason none = none
missing code reason (some value) =
    some (record { code = text code; reason = text reason ++ quote value })

unfoldable pub capability_gates : RoutingRequest → RoutingCandidate → Option RoutingExclusion
unfolding first_missing quote_bytes ToolUseMode-discrete
capability_gates r c = first_exclusion (
    missing "capability.modality.missing" "candidate does not support required modality "
      (first_missing c.model.capabilities.modalities r.requirements.modalities)
    ∷ missing "capability.tool.missing" "candidate does not provide required tool "
        (first_missing c.available_tools r.requirements.required_tools)
    ∷ gate
        (not (is_empty r.requirements.required_tools) && c.model.capabilities.tool_use == none_mode)
        "capability.tool_use.missing" "candidate model cannot request tools"
    ∷ gate (r.requirements.native_tool_use && c.model.capabilities.tool_use != native)
        "capability.native_tool_use.missing" "candidate does not support native tool use"
    ∷ gate (r.requirements.structured_output && not c.model.capabilities.structured_output)
        "capability.structured_output.missing" "candidate does not support structured output"
    ∷ [])

-- `start.After(deadline) || latency > deadline.Sub(start)`
unfoldable pub misses_deadline : RoutingRequest → RoutingCandidate → Bool
unfolding max_time sub_time
misses_deadline r c =
    let start = max_time r.observed_at c.available_at in
    after start r.deadline || ltb_ℤ (sub_time r.deadline start) c.expected_latency

unfoldable pub limit_gates : RoutingRequest → RoutingCandidate → Option RoutingExclusion
unfolding misses_deadline ℤ-discrete
limit_gates r c = first_exclusion (
    gate (ltb_ℤ c.model.capabilities.context_tokens r.requirements.min_context_tokens)
      "limit.context.insufficient" "candidate context limit is insufficient"
    ∷ gate (ltb_ℤ c.model.capabilities.max_output_tokens r.budget.max_output_tokens)
        "limit.output.insufficient" "candidate output limit is insufficient"
    ∷ gate (ltb_ℤ r.budget.max_cost c.expected_cost) "budget.cost.unreservable"
        "candidate expected cost exceeds the step budget"
    ∷ gate (holds (ℤ-discrete c.available_slots (pos 0))) "capacity.unavailable"
        "candidate has no available capacity"
    ∷ gate (misses_deadline r c) "capacity.deadline" "candidate cannot complete before the deadline"
    ∷ [])

-- `candidateExclusion`: the gates in their order.
unfoldable pub candidate_exclusion : RoutingRequest → RoutingCandidate → Option RoutingExclusion
unfolding health_gates policy_gates capability_gates limit_gates
candidate_exclusion r c =
    first_exclusion
      (health_gates r c ∷ policy_gates r c ∷ capability_gates r c ∷ limit_gates r c ∷ [])

pub record CandidateEligibility : Type 0 where
  pub candidate_id : FabricId
  pub zone : Zone
  pub model : ModelRef
  pub exclusion : Option RoutingExclusion

-- `Eligible`
abbrev pub is_eligible : CandidateEligibility → Bool
is_eligible e = not (is_some e.exclusion)

-- `ctx.Err()` in its n-th call of an operation.
abbrev pub Context : Type 0
Context = ℕ → Option Error

unfoldable pub ctx_check : Context → ℕ → Check
ctx_check ctx n = elim (ctx n) [ none ↦ ok tt | some e ↦ err e ]

-- The loop of `EvaluateRoutingEligibility`, from the n-th call of `ctx.Err()`.
unfoldable pub assess_all :
    Context → ℕ → RoutingRequest → List RoutingCandidate → Result (List CandidateEligibility)
unfolding candidate_exclusion
assess_all ctx n r [] = ok []
assess_all ctx n r (c ∷ cs) = do
  ctx_check ctx n
  rest ← assess_all ctx (n + 1) r cs
  ok (
      record {
        candidate_id = c.id;
        zone = c.zone;
        model = c.model.ref;
        exclusion = candidate_exclusion r c;
      }
      ∷ rest)

unfoldable pub evaluate_eligibility :
    Context → ℕ → RoutingRequest → Result (List CandidateEligibility)
unfolding assess_all validate_request
evaluate_eligibility ctx n r = do
  ctx_check ctx n
  validate_request r
  assess_all ctx (n + 1) r r.candidates
