-- ===== src/Routing/Valid.antt =====
-- routing.go: what a routing request that passed its validation provides.
use fabricrunner.Prelude.{
  String, ◌≡◌, refl, Bool, true, false, not, ◌||◌, none, List, [], ◌∷◌, arith, ||-eq-false,
  is_empty, All, ◌!=◌, text_eq, ok, fail_if, prefix_error, fail_if-ok, prefix_error-ok, >>=-eq-ok,
  >>-eq-ok, passed, ℤ, neg_part, ltb_ℤ, is_neg,
}
use fabricrunner.Id.{FabricId, validate_id}
use fabricrunner.Domain.{Zone, zone_eq, validate_zone}
use fabricrunner.Model.{contains, validate_descriptor}
use fabricrunner.Routing.Request.{
  RoutingRequest, RoutingCandidate, check_permille, validate_candidate, validate_candidates,
  validate_request_head, validate_request,
}
use fabricrunner.Routing.Gates.{
  candidate_exclusion, limit_gates, misses_deadline, gate, excluded, first_exclusion-none,
}
use fabricrunner.Routing.Bounds.{check_permille-AtMost, WeightsFit, validate_weights-WeightsFit}
use fabricrunner.Routing.Scores.{WindowFits, window-WindowFits, CandidateFits}

-- The parts of a valid candidate that later steps use.
pub record CandidateIsValid (c : RoutingCandidate) : Type 0 where
  pub id : validate_id c.id ≡ ok tt
  pub zone : validate_zone c.zone ≡ ok tt
  pub model : validate_descriptor c.model ≡ ok tt
  pub slots : is_neg c.available_slots ≡ false
  pub cost : is_neg c.expected_cost ≡ false
  pub latency : is_neg c.expected_latency ≡ false
  pub observations :
      check_permille "candidate observation must be between 0 and 1000"
        (c.quality_permille ∷ c.cache_affinity_permille ∷ c.load_permille ∷ [])
      ≡ ok tt

pub validate_candidate-IsValid :
    (c : RoutingCandidate) → validate_candidate c ≡ ok tt → CandidateIsValid c
unfolding validate_candidate
validate_candidate-IsValid c h = record {
  id = prefix_error-ok _ _ (passed _ 0 h refl);
  zone = prefix_error-ok _ _ (passed _ 1 h refl);
  model = prefix_error-ok _ _ (passed _ 2 h refl);
  slots = fail_if-ok _ _ (passed _ 4 h refl);
  cost = fail_if-ok _ _ (passed _ 6 h refl);
  latency = fail_if-ok _ _ (passed _ 7 h refl);
  observations = passed _ 8 h refl;
}

pub validate_candidates-All :
    (source : Zone) (seen : List FabricId) (cross : Bool) (cs : List RoutingCandidate) {b : Bool}
    → validate_candidates source seen cross cs ≡ ok b
    → All CandidateIsValid cs
unfolding validate_candidates
validate_candidates-All source seen cross [] h = tt
validate_candidates-All source seen cross (c ∷ cs) h =
    let (a, ha) = >>-eq-ok (prefix_error "routing candidate" (validate_candidate c)) _ h in
    let (b, hb) = >>-eq-ok (fail_if (contains seen c.id) _) _ ha in
    (
      validate_candidate-IsValid c (prefix_error-ok _ _ a),
      validate_candidates-All source (c.id ∷ seen) (cross || c.zone != source) cs hb,
    )

not-not : (b : Bool) → not b ≡ false → b ≡ true
not-not b h = ground arith

pub validate_request_head-fits :
    (r : RoutingRequest)
    → validate_request_head r ≡ ok tt
    → WeightsFit r.weights × WindowFits r.observed_at r.deadline
unfolding validate_request_head
validate_request_head-fits r h = (
  validate_weights-WeightsFit r.weights (passed _ 14 h refl),
  window-WindowFits r.observed_at r.deadline
      (not-not _ (||-eq-false _ _ (fail_if-ok _ _ (passed _ 12 h refl))).1)
      (not-not _ (fail_if-ok _ _ (passed _ 13 h refl))),
)

-- What a valid request provides to the router.
pub validate_request-parts :
    (r : RoutingRequest)
    → validate_request r ≡ ok tt
    → WeightsFit r.weights × WindowFits r.observed_at r.deadline × All CandidateIsValid r.candidates
unfolding validate_request
validate_request-parts r h =
    let (head, h1) = >>-eq-ok (validate_request_head r) _ h in
    let (some_candidates, h2) = >>-eq-ok (fail_if (is_empty r.candidates) _) _ h1 in
    let (cross, hc, h3) =
      >>=-eq-ok (validate_candidates r.source_zone [] false r.candidates) _ h2 in
    let (weights, window) = validate_request_head-fits r head in
    (weights, window, validate_candidates-All r.source_zone [] false r.candidates hc)

gate-none : (b : Bool) (code reason : String) → gate b code reason ≡ none → b ≡ false
unfolding gate excluded
gate-none b code reason h = ground arith

nat_of_not_neg : (z : ℤ) → is_neg z ≡ false → neg_part z ≡ 0
nat_of_not_neg z h = ground arith

-- A valid candidate that passed every gate has the numbers that its score needs.
pub eligible-CandidateFits :
    (r : RoutingRequest) (c : RoutingCandidate)
    → CandidateIsValid c
    → candidate_exclusion r c ≡ none
    → CandidateFits r c
unfolding candidate_exclusion limit_gates
eligible-CandidateFits r c v h =
    let limits = first_exclusion-none _ 3 h refl in
    let cost = first_exclusion-none _ 2 limits refl in
    let deadline = first_exclusion-none _ 4 limits refl in
    let seen = check_permille-AtMost _ _ v.observations in
    record {
      quality = seen.0;
      cache_affinity = seen.1.0;
      load = seen.1.1.0;
      slots = nat_of_not_neg _ v.slots;
      cost = nat_of_not_neg _ v.cost;
      affordable = gate-none (ltb_ℤ r.budget.max_cost c.expected_cost) _ _ cost;
      latency = nat_of_not_neg _ v.latency;
      on_time = gate-none (misses_deadline r c) _ _ deadline;
    }
