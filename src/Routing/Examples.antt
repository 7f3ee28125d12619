-- ===== src/Routing/Examples.antt =====
-- The theorems on routing at one request with two candidates.
use mathlib.Core.List.{Memᴰ}
use fabricrunner.Prelude.{
  ◌≡◌, refl, ◌⊎◌, Bool, true, false, none, some, [], ◌∷◌, arith, All, Text, text, Text-discrete,
  text_eq, ok, all_checks, ℤ, pos,
}
use package.native.Mathlib.Decide.{ℕ_discrete}
use fabricrunner.Id.{FabricId, sample_id}
use fabricrunner.Domain.{personal, model_turn}
use fabricrunner.Model.{ModelDescriptor, native}
use fabricrunner.Policy.Requests.{model_target}
use fabricrunner.Policy.Scope.{PolicyVerdict, execution, allow, no_zone}
use fabricrunner.Routing.Request.{
  RoutingRequest, RoutingCandidate, default_routing_weights, validate_request,
}
use fabricrunner.Routing.Gates.{
  RoutingExclusion, Context, candidate_exclusion, no_sandbox, first_exclusion, gate, excluded,
  missing,
}
use fabricrunner.Routing.Decision.{
  RoutingDecision, RoutingScore, validate_exclusion, validate_score, evaluate_router, no_eligible,
}
use fabricrunner.Routing.Deterministic.{route, score_candidate, scale_permille}
use fabricrunner.Routing.Bounds.{AtMost, scale_permille_part}
use fabricrunner.Routing.Exclusions.{candidate_exclusion-IsSound}
use fabricrunner.Routing.Selection.{IsEligible}
use fabricrunner.Routing.Best.{IsRoutable, IsBest, route-IsBest}
use fabricrunner.Routing.Best.{score_candidate-validates}
use fabricrunner.Routing.Accepted.{route_accepted}

abbrev live : Context
live n = none

abbrev digest : Text
digest = text "00112233445566778899aabbccddeeff00112233445566778899aabbccddeeff"

abbrev first_id : FabricId
first_id = text "018f3c00-0000-7000-8000-000000000001"

abbrev second_id : FabricId
second_id = text "018f3c00-0000-7000-8000-000000000002"

abbrev small_model : ModelDescriptor
small_model = record {
  ref = record { provider = text "local"; model = text "small" };
  capabilities = record {
    context_tokens = pos 8000;
    max_output_tokens = pos 1000;
    modalities = text "text" ∷ [];
    tool_use = native;
    parallel_tool_calls = false;
    strict_tool_schemas = false;
    dynamic_tools = false;
    multimodal_tool_results = false;
    streaming = true;
    structured_output = false;
    prompt_caching = false;
    automatic_compaction = false;
    reasoning_summaries = false;
  };
  labels = [];
}

abbrev allowing : PolicyVerdict
allowing = record {
  policy = text "test";
  policy_version = text "1";
  rule_id = text "rule";
  action = allow;
  reason = text "allowed";
  manifest_sha256 = digest;
  scope = record {
    kind = execution;
    workload_id = sample_id;
    step_id = sample_id;
    attempt_id = sample_id;
    step_kind = model_turn;
    autonomous = false;
    target = some (record {
      sandbox = no_sandbox;
      kind = model_target;
      zone = personal;
      model = some small_model.ref;
      tool_name = [];
    });
    source = no_zone;
    destination = no_zone;
    purpose = [];
    derived_from_sha = [];
  };
  transformation = [];
}

abbrev candidate : FabricId → Bool → RoutingCandidate
candidate id healthy = record {
  id = id;
  zone = personal;
  model = small_model;
  authenticated = true;
  compatible = true;
  healthy = healthy;
  draining = false;
  execution_verdict = allowing;
  egress_verdict = none;
  available_tools = text "search" ∷ [];
  available_slots = pos 3;
  available_at = pos 150;
  expected_cost = pos 20;
  expected_latency = pos 400;
  quality_permille = pos 700;
  cache_affinity_permille = pos 0;
  load_permille = pos 250;
}

abbrev request : RoutingRequest
request = record {
  workload_id = sample_id;
  step_id = sample_id;
  attempt_id = sample_id;
  manifest_sha256 = digest;
  source_zone = personal;
  autonomous = false;
  egress_purpose = [];
  derived_from_sha = [];
  requirements = record {
    modalities = text "text" ∷ [];
    required_tools = text "search" ∷ [];
    min_context_tokens = pos 4000;
    min_quality_class = [];
    allowed_zones = personal ∷ [];
    native_tool_use = true;
    structured_output = false;
  };
  budget = record {
    max_steps = pos 1;
    max_input_tokens = pos 1000;
    max_output_tokens = pos 500;
    max_model_calls = pos 1;
    max_tool_calls = pos 1;
    max_child_steps = pos 0;
    max_cost = pos 100;
    max_wall_time = pos 1000;
  };
  observed_at = pos 100;
  deadline = pos 1100;
  weights = default_routing_weights;
  candidates = candidate first_id false ∷ candidate second_id true ∷ [];
}

request-validates : validate_request request ≡ ok tt
unfolding validate_request all_checks ℕ_discrete
request-validates = refl

request-IsRoutable : IsRoutable request
request-IsRoutable = record { valid = request-validates; in_range = omega arith }

second-IsEligible : IsEligible request (candidate second_id true)
unfolding candidate_exclusion gate all_checks missing first_exclusion Text-discrete ℕ_discrete
second-IsEligible = refl

route_accepted_example : evaluate_router none none (some (route live)) request ≡ route live request
route_accepted_example = route_accepted live request (λ n. refl) request-IsRoutable

route-IsBest_example :
    (d : RoutingDecision) × (((c : RoutingCandidate) × (route live request ≡ some (d, none))
        × IsBest request d.selected_candidate_id c)
      ⊎ ((route live request ≡ some (d, some no_eligible))
          × (d.selected_candidate_id ≡ [])
          × All (λ c. ¬ IsEligible request c) request.candidates))
route-IsBest_example = route-IsBest live request (λ n. refl) request-IsRoutable

score_candidate-validates_example :
    (s : RoutingScore) × (score_candidate request (candidate second_id true) ≡ some s)
    × (validate_score s ≡ ok tt)
score_candidate-validates_example =
    score_candidate-validates request (candidate second_id true) request-IsRoutable
      (Memᴰ.tail (Memᴰ.head refl)) second-IsEligible

abbrev unhealthy : RoutingExclusion
unhealthy = record { code = text "health.unhealthy"; reason = text "candidate is not healthy" }

first_excluded : candidate_exclusion request (candidate first_id false) ≡ some unhealthy
unfolding candidate_exclusion gate excluded first_exclusion
first_excluded = refl

candidate_exclusion-IsSound_example : validate_exclusion unhealthy ≡ ok tt
candidate_exclusion-IsSound_example =
    candidate_exclusion-IsSound request (candidate first_id false) unhealthy first_excluded

scale_permille_part_example : (q : ℤ) × (scale_permille (pos 20) (pos 100) ≡ some q) × AtMost 1000 q
scale_permille_part_example = scale_permille_part 20 100 (omega arith) (omega arith) (omega arith)
