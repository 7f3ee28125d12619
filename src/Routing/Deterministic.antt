-- ===== src/Routing/Deterministic.antt =====
-- router/deterministic/router.go: the pure routing engine. `none` is a panic, which
-- `bits.Div64` can raise.
use mathlib.Core.Option
use fabricrunner.Prelude.{
  ℕ, suc, ◌+◌, ◌-◌, ◌*◌, ◌/◌, ◌^◌, Bool, true, false, ◌&&◌, ◌||◌, Option, none, some, List, [], ◌∷◌,
  ◌++◌, leb, eqb, if◌then◌else◌, length, ◌==◌, holds, text, text_eq, text_ltb, Result, ok, err, ℤ,
  pos, negsuc, ℤ-discrete, ◌+ℤ◌, ◌*ℤ◌, ltb_ℤ, to_uint64, of_uint64, add64, sub64, mul64,
}
use fabricrunner.Id.{FabricId, is_zero_id}
use fabricrunner.Domain.{zone_eq, Zone-discrete}
use fabricrunner.Policy.Evaluate.{Answer}
use fabricrunner.Routing.Request.{
  RoutingRequest, RoutingCandidate, RoutingWeights, score_permille_max, sub_time,
}
use fabricrunner.Routing.Gates.{
  Context, CandidateEligibility, is_eligible, max_time, evaluate_eligibility,
}
use fabricrunner.Routing.Decision.{
  RoutingScore, CandidateAssessment, RoutingDecision, no_decision, no_eligible,
}

-- `bits.Mul64` and `bits.Div64`: the 128-bit product, and its quotient where that fits 64 bits.
unfoldable pub scale_permille : ℤ → ℤ → Option ℤ
unfolding to_uint64 of_uint64
scale_permille numerator denominator =
    let product = to_uint64 numerator * score_permille_max in
    if leb (to_uint64 denominator) (product / 2 ^ 64)
    then none
    else some (of_uint64 (product / to_uint64 denominator))

unfoldable pub bool_permille : Bool → ℤ
bool_permille true = pos score_permille_max
bool_permille false = pos 0

-- `/` on `int` truncates towards zero.
unfoldable pub div_int : ℤ → ℕ → ℤ
div_int (pos n) k = pos (n / k)
div_int (negsuc n) k = if eqb (suc n / k) 0 then pos 0 else negsuc (suc n / k - 1)

-- The sum of products in `int`; a sum that wraps is the exact one, wrapped.
unfoldable pub weighted_total : RoutingWeights → RoutingScore → ℤ
unfolding ◌+ℤ◌ ◌*ℤ◌ to_uint64 of_uint64 div_int
weighted_total w s =
    div_int
      (of_uint64 (
        to_uint64 (
          s.quality *ℤ w.quality
          +ℤ s.locality *ℤ w.locality
          +ℤ s.availability *ℤ w.availability
          +ℤ s.cache_affinity *ℤ w.cache_affinity
          +ℤ s.cost *ℤ w.cost
          +ℤ s.latency *ℤ w.latency
          +ℤ s.inverse_load *ℤ w.inverse_load)))
      score_permille_max

unfoldable pub availability_score : ℤ → ℤ
unfolding mul64
availability_score slots =
    if ltb_ℤ slots (pos 10) then mul64 slots (pos 100) else pos score_permille_max

-- The cost part, from the cost expected and the cost allowed.
unfoldable pub cost_score : ℤ → ℤ → Option ℤ
unfolding scale_permille sub64
cost_score expected limit =
    if ltb_ℤ (pos 0) limit
    then elim (scale_permille expected limit) [
      | none ↦ none
      | some q ↦ some (sub64 (pos score_permille_max) q)
    ]
    else some (pos score_permille_max)

unfoldable pub latency_score : RoutingRequest → RoutingCandidate → Option ℤ
unfolding scale_permille sub64 max_time sub_time add64
latency_score r c =
    let start = max_time r.observed_at c.available_at in
    let total = add64 (sub_time start r.observed_at) c.expected_latency in
    elim (scale_permille total (sub_time r.deadline r.observed_at)) [
      | none ↦ none
      | some q ↦ some (sub64 (pos score_permille_max) q)
    ]

-- The score from its two parts that are computed by division.
unfoldable pub make_score : RoutingRequest → RoutingCandidate → ℤ → ℤ → RoutingScore
unfolding weighted_total availability_score bool_permille Zone-discrete sub64
make_score r c cost latency =
    let parts : RoutingScore = record {
      quality = c.quality_permille;
      locality = bool_permille (c.zone == r.source_zone);
      availability = availability_score c.available_slots;
      cache_affinity = c.cache_affinity_permille;
      cost = cost;
      latency = latency;
      inverse_load = sub64 (pos score_permille_max) c.load_permille;
      total = pos 0;
    } in
    record parts { total = weighted_total r.weights parts }

unfoldable pub score_candidate : RoutingRequest → RoutingCandidate → Option RoutingScore
unfolding cost_score latency_score make_score
score_candidate r c = elim (cost_score c.expected_cost r.budget.max_cost) [
  | none ↦ none
  | some cost ↦ elim (latency_score r c) [
    | none ↦ none
    | some latency ↦ some (make_score r c cost latency)
  ]
]

-- What the loop of `Route` carries.
pub record Progress : Type 0 where
  pub best_score : ℤ
  pub selected : FabricId
  pub assessments : List CandidateAssessment

-- `score.Total > bestScore || (score.Total == bestScore && id < selected)`
unfoldable pub is_better : ℤ → FabricId → Progress → Bool
unfolding ℤ-discrete text_ltb
is_better total id p =
    ltb_ℤ p.best_score total || holds (ℤ-discrete total p.best_score) && text_ltb id p.selected

unfoldable pub add_scored : RoutingCandidate → RoutingScore → Progress → Progress
unfolding is_better
add_scored c s p =
    let assessed =
      p.assessments
      ++ record {
        candidate_id = c.id;
        zone = c.zone;
        model = c.model.ref;
        eligible = true;
        exclusion = none;
        score = some s;
      }
        ∷ [] in
    if is_better s.total c.id p
    then record { best_score = s.total; selected = c.id; assessments = assessed }
    else record p { assessments = assessed }

unfoldable pub add_excluded : RoutingCandidate → CandidateEligibility → Progress → Progress
add_excluded c e p = record p {
  assessments =
      p.assessments
      ++ record {
        candidate_id = c.id;
        zone = c.zone;
        model = c.model.ref;
        eligible = false;
        exclusion = e.exclusion;
        score = none;
      }
        ∷ [];
}

-- One round of the loop.
unfoldable pub assess :
    RoutingRequest → RoutingCandidate → CandidateEligibility → Progress → Option Progress
unfolding score_candidate add_scored add_excluded
assess r c e p =
    if is_eligible e
    then elim (score_candidate r c) [ none ↦ none | some s ↦ some (add_scored c s p) ]
    else some (add_excluded c e p)

-- The loop, with the number of the next call of `ctx.Err()`.
unfoldable pub route_loop :
    Context
    → ℕ
    → RoutingRequest
    → List RoutingCandidate
    → List CandidateEligibility
    → Progress
    → Option (Result Progress)
unfolding assess
route_loop ctx n r [] es p = some (ok p)
route_loop ctx n r (c ∷ cs) [] p = none
route_loop ctx n r (c ∷ cs) (e ∷ es) p = elim (ctx n) [
  | some cancelled ↦ some (err cancelled)
  | none ↦ elim (assess r c e p) [ none ↦ none | some p' ↦ route_loop ctx (n + 1) r cs es p' ]
]

abbrev pub start : Progress
start = record { best_score = negsuc 0; selected = []; assessments = [] }

unfoldable pub decision_of : RoutingRequest → Progress → RoutingDecision
decision_of r p = record {
  router = text "fabricrunner.deterministic";
  router_version = text "1";
  workload_id = r.workload_id;
  step_id = r.step_id;
  attempt_id = r.attempt_id;
  manifest_sha256 = r.manifest_sha256;
  source_zone = r.source_zone;
  autonomous = r.autonomous;
  egress_purpose = r.egress_purpose;
  derived_from_sha = r.derived_from_sha;
  observed_at = r.observed_at;
  deadline = r.deadline;
  weights = r.weights;
  assessments = p.assessments;
  selected_candidate_id = p.selected;
}

unfoldable pub finish : RoutingRequest → Result Progress → Answer RoutingDecision
unfolding decision_of is_zero_id
finish r (err e) = (no_decision, some e)
finish r (ok p) = (decision_of r p, if is_zero_id p.selected then some no_eligible else none)

-- `Router.Route`
unfoldable pub route : Context → RoutingRequest → Option (Answer RoutingDecision)
unfolding route_loop finish evaluate_eligibility
route ctx r = elim (ctx 0) [
  | some cancelled ↦ some (no_decision, some cancelled)
  | none ↦ elim (evaluate_eligibility ctx 1 r) [
    | err e ↦ some (no_decision, some e)
    | ok es ↦
        Option.map (finish r) (route_loop ctx (2 + length r.candidates) r r.candidates es start)
  ]
]
