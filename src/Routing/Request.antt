-- ===== src/Routing/Request.antt =====
-- routing.go: routing weights, candidates and requests, and their validation.
use fabricrunner.Prelude.{
  ℕ, ◌-◌, ◌^◌, String, Bool, false, not, ◌&&◌, ◌||◌, Option, List, [], ◌∷◌, if◌then◌else◌, is_empty,
  ◌!=◌, holds, Text, text_beq, text_eq, message, Result, ok, Check, ◌>>=◌, ◌>>◌, fail_if,
  prefix_error, all_checks, ℤ, pos, negsuc, ℤ-discrete, ◌+ℤ◌, ◌-ℤ◌, ltb_ℤ, is_neg,
}
use fabricrunner.Id.{FabricId, validate_id}
use fabricrunner.Strings.{is_blank, validate_sha256}
use fabricrunner.Domain.{
  Zone, zone_eq, Zone-discrete, validate_zone, Requirements, validate_requirements, Budget,
  validate_budget, Time, Duration, CostMicros, is_zero_time, after, equal_time,
}
use fabricrunner.Model.{ModelDescriptor, validate_descriptor, contains, tool_use_eq}
use fabricrunner.Policy.Requests.{validate_optional_sha}
use fabricrunner.Policy.Scope.{PolicyVerdict}

pub record RoutingWeights : Type 0 where
  pub quality : ℤ
  pub locality : ℤ
  pub availability : ℤ
  pub cache_affinity : ℤ
  pub cost : ℤ
  pub latency : ℤ
  pub inverse_load : ℤ

abbrev pub default_routing_weights : RoutingWeights
default_routing_weights = record {
  quality = pos 250;
  locality = pos 200;
  availability = pos 100;
  cache_affinity = pos 100;
  cost = pos 150;
  latency = pos 150;
  inverse_load = pos 50;
}

-- `const ScorePermilleMax = 1000`
abbrev pub score_permille_max : ℕ
score_permille_max = 1000

-- `value < 0 || value > ScorePermilleMax`
unfoldable pub out_of_permille : ℤ → Bool
out_of_permille v = is_neg v || ltb_ℤ (pos score_permille_max) v

-- The loop over the named values: each in range, and their sum.
unfoldable pub check_permille : String → List ℤ → Check
unfolding out_of_permille
check_permille what [] = ok tt
check_permille what (v ∷ vs) = do fail_if (out_of_permille v) (message what); check_permille what vs

abbrev pub weight_values : RoutingWeights → List ℤ
weight_values w =
    w.quality ∷ w.locality ∷ w.availability ∷ w.cache_affinity ∷ w.cost ∷ w.latency ∷ w.inverse_load
    ∷ []

unfoldable pub sum_int : ℤ → List ℤ → ℤ
unfolding ◌+ℤ◌
sum_int total [] = total
sum_int total (v ∷ vs) = sum_int (total +ℤ v) vs

unfoldable pub validate_weights : RoutingWeights → Check
unfolding check_permille sum_int ℤ-discrete
validate_weights w = all_checks (
    check_permille "routing weight must be between 0 and 1000" (weight_values w)
    ∷ fail_if
        (not (holds (ℤ-discrete (sum_int (pos 0) (weight_values w)) (pos score_permille_max))))
        (message "routing weights total")
    ∷ [])

pub record RoutingCandidate : Type 0 where
  pub id : FabricId
  pub zone : Zone
  pub model : ModelDescriptor
  pub authenticated : Bool
  pub compatible : Bool
  pub healthy : Bool
  pub draining : Bool
  pub execution_verdict : PolicyVerdict
  pub egress_verdict : Option PolicyVerdict
  pub available_tools : List Text
  pub available_slots : ℤ
  pub available_at : Time
  pub expected_cost : CostMicros
  pub expected_latency : Duration
  pub quality_permille : ℤ
  pub cache_affinity_permille : ℤ
  pub load_permille : ℤ

-- `validateStringSet`, with the values seen so far.
unfoldable pub validate_strings : List Text → List Text → Check
unfolding is_blank contains text_beq
validate_strings seen [] = ok tt
validate_strings seen (v ∷ vs) = do
  fail_if (is_blank v) (message "is empty")
  fail_if (contains seen v) (message "duplicates")
  validate_strings (v ∷ seen) vs

-- `validateZoneSet`
unfoldable pub validate_zone_set : List Zone → List Zone → Check
unfolding validate_zone contains Zone-discrete
validate_zone_set seen [] = ok tt
validate_zone_set seen (z ∷ zs) = do
  prefix_error "allowed zone" (validate_zone z)
  fail_if (contains seen z) (message "allowed zone duplicates")
  validate_zone_set (z ∷ seen) zs

unfoldable pub validate_candidate : RoutingCandidate → Check
unfolding validate_id validate_zone validate_descriptor validate_strings check_permille ℤ-discrete
validate_candidate c = all_checks (
    prefix_error "candidate ID" (validate_id c.id)
    ∷ prefix_error "candidate zone" (validate_zone c.zone)
    ∷ prefix_error "candidate model" (validate_descriptor c.model)
    ∷ validate_strings [] c.available_tools
    ∷ fail_if (is_neg c.available_slots) (message "candidate available slots cannot be negative")
    ∷ fail_if (is_zero_time c.available_at) (message "candidate available-at time is required")
    ∷ fail_if (is_neg c.expected_cost) (message "candidate expected cost cannot be negative")
    ∷ fail_if (is_neg c.expected_latency) (message "candidate expected latency cannot be negative")
    ∷ check_permille "candidate observation must be between 0 and 1000"
        (c.quality_permille ∷ c.cache_affinity_permille ∷ c.load_permille ∷ [])
    ∷ [])

pub record RoutingRequest : Type 0 where
  pub workload_id : FabricId
  pub step_id : FabricId
  pub attempt_id : FabricId
  pub manifest_sha256 : Text
  pub source_zone : Zone
  pub autonomous : Bool
  pub egress_purpose : Text
  pub derived_from_sha : Text
  pub requirements : Requirements
  pub budget : Budget
  pub observed_at : Time
  pub deadline : Time
  pub weights : RoutingWeights
  pub candidates : List RoutingCandidate

-- `t.Sub(u)`: the difference, held to the range of `time.Duration`.
unfoldable pub sub_time : Time → Time → Duration
unfolding ◌-ℤ◌
sub_time t u =
    let d = t -ℤ u in
    if ltb_ℤ (pos (2 ^ 63 - 1)) d
    then pos (2 ^ 63 - 1)
    else if ltb_ℤ d (negsuc (2 ^ 63 - 1))
    then negsuc (2 ^ 63 - 1)
    else d

-- The loop over the candidates: their validity, distinct IDs, and whether one crosses zones.
unfoldable pub validate_candidates :
    Zone → List FabricId → Bool → List RoutingCandidate → Result Bool
unfolding validate_candidate contains text_beq Zone-discrete
validate_candidates source seen cross [] = ok cross
validate_candidates source seen cross (c ∷ cs) = do
  prefix_error "routing candidate" (validate_candidate c)
  fail_if (contains seen c.id) (message "routing candidate duplicates ID")
  validate_candidates source (c.id ∷ seen) (cross || c.zone != source) cs

-- The part of `RoutingRequest.Validate` above the candidates.
unfoldable pub validate_request_head : RoutingRequest → Check
unfolding validate_id validate_sha256 validate_zone validate_optional_sha validate_requirements
    validate_strings validate_zone_set validate_budget sub_time ◌+ℤ◌ ℤ-discrete validate_weights
validate_request_head r = all_checks (
    prefix_error "workload ID" (validate_id r.workload_id)
    ∷ prefix_error "step ID" (validate_id r.step_id)
    ∷ prefix_error "attempt ID" (validate_id r.attempt_id)
    ∷ validate_sha256 r.manifest_sha256
    ∷ prefix_error "routing source zone" (validate_zone r.source_zone)
    ∷ validate_optional_sha r.derived_from_sha
    ∷ validate_requirements r.requirements
    ∷ validate_strings [] r.requirements.modalities
    ∷ validate_strings [] r.requirements.required_tools
    ∷ validate_zone_set [] r.requirements.allowed_zones
    ∷ validate_budget r.budget
    ∷ fail_if (is_zero_time r.observed_at) (message "routing observation time is required")
    ∷ fail_if (is_zero_time r.deadline || not (after r.deadline r.observed_at))
        (message "routing deadline must be after observation time")
    ∷ fail_if (not (equal_time (r.observed_at +ℤ sub_time r.deadline r.observed_at) r.deadline))
        (message "routing observation-to-deadline window exceeds time.Duration range")
    ∷ validate_weights r.weights
    ∷ [])

unfoldable pub validate_request : RoutingRequest → Check
unfolding validate_request_head validate_candidates is_blank
validate_request r = do
  validate_request_head r
  fail_if (is_empty r.candidates) (message "routing candidates are required")
  cross ← validate_candidates r.source_zone [] false r.candidates
  fail_if (cross && is_blank r.egress_purpose)
      (message "routing egress purpose is required for cross-zone candidates")
