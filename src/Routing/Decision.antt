-- ===== src/Routing/Decision.antt =====
-- routing.go: decisions, their validation, and EvaluateRouter.
mod Assessment
unfoldable pub use Assessment.*
use mathlib.Core.Option
use fabricrunner.Prelude.{
  ℕ, ◌+◌, Bool, true, false, not, ◌&&◌, ◌||◌, Option, none, some, List, [], ◌∷◌, eqb, if◌then◌else◌,
  is_some, length, ◌==◌, ◌!=◌, holds, Text, text_beq, Text-discrete, text_eq, Sentinel, Error,
  sentinel, message, wrap, errors_is, Result, ok, err, Check, ◌>>=◌, ◌>>◌, fail_if, prefix_error,
  all_checks, ℤ, pos, ℤ-discrete,
}
use fabricrunner.Id.{FabricId, validate_id, is_zero_id}
use fabricrunner.Strings.{is_blank}
use fabricrunner.Domain.{Zone, zone_eq, Zone-discrete, validate_zone, Time, equal_time}
use fabricrunner.Model.{ModelRef, validate_model_ref, model_ref_eq, ModelRef-discrete}
use fabricrunner.Policy.Scope.{no_zone}
use fabricrunner.Policy.Evaluate.{Answer}
use fabricrunner.Routing.Request.{
  RoutingRequest, RoutingCandidate, RoutingWeights, check_permille, validate_request,
}
use fabricrunner.Routing.Gates.{RoutingExclusion, candidate_exclusion}

pub record RoutingDecision : Type 0 where
  pub router : Text
  pub router_version : Text
  pub workload_id : FabricId
  pub step_id : FabricId
  pub attempt_id : FabricId
  pub manifest_sha256 : Text
  pub source_zone : Zone
  pub autonomous : Bool
  pub egress_purpose : Text
  pub derived_from_sha : Text
  pub observed_at : Time
  pub deadline : Time
  pub weights : RoutingWeights
  pub assessments : List CandidateAssessment
  pub selected_candidate_id : FabricId

unfoldable pub RoutingWeights-discrete : Discrete RoutingWeights
RoutingWeights-discrete = hlevel ℤ-discrete

unfoldable pub RoutingExclusion-discrete : Discrete RoutingExclusion
RoutingExclusion-discrete = hlevel Text-discrete

abbrev pub bool_eq : Bool → Bool → Bool
bool_eq true b = b
bool_eq false b = not b

-- The mandatory eligibility of a candidate against what the decision says of it.
unfoldable pub check_eligibility : Option RoutingExclusion → CandidateAssessment → Check
unfolding RoutingExclusion-discrete
check_eligibility none a =
    fail_if (not a.eligible) (message "routing assessment excluded an eligible candidate")
check_eligibility (some x) a =
    fail_if
      (a.eligible
        || not (elim a.exclusion [ none ↦ false | some y ↦ holds (RoutingExclusion-discrete y x) ]))
      (message "routing assessment changed mandatory eligibility")

-- One round of the loop over the assessments.
unfoldable pub check_assessment : RoutingRequest → RoutingCandidate → CandidateAssessment → Check
unfolding text_beq Zone-discrete ModelRef-discrete validate_assessment check_eligibility
    candidate_exclusion
check_assessment r c a = all_checks (
    fail_if (a.candidate_id != c.id)
      (message "routing assessment does not preserve candidate order")
    ∷ fail_if (a.zone != c.zone || a.model != c.model.ref)
        (message "routing assessment candidate snapshot mismatch")
    ∷ prefix_error "routing assessment" (validate_assessment a)
    ∷ check_eligibility (candidate_exclusion r c) a
    ∷ [])

-- The loop: how many are eligible, and whether the selected one is among them.
unfoldable pub check_assessments :
    RoutingRequest
    → FabricId
    → ℕ
    → Bool
    → List RoutingCandidate
    → List CandidateAssessment
    → Result (ℕ × Bool)
unfolding check_assessment text_beq
check_assessments r selected count found (c ∷ cs) (a ∷ rest) = do
  check_assessment r c a
  check_assessments r selected (if a.eligible then count + 1 else count)
      (found || a.eligible && a.candidate_id == selected) cs rest
check_assessments r selected count found _ _ = ok (count, found)

-- The tests on the selection.
unfoldable pub check_selection : FabricId → ℕ × Bool → Check
unfolding is_zero_id validate_id
check_selection selected (count, found) =
    if is_zero_id selected
    then fail_if (not (eqb count 0))
        (message "routing decision omitted selection with eligible candidates")
    else (do
      prefix_error "selected candidate ID" (validate_id selected)
      fail_if (not found) (message "routing decision selected an ineligible or unknown candidate"))

-- The fields that a decision repeats from its request.
unfoldable pub check_snapshot : RoutingDecision → RoutingRequest → Check
unfolding text_beq Zone-discrete ℤ-discrete RoutingWeights-discrete
check_snapshot d r = all_checks (
    fail_if
      (d.workload_id != r.workload_id || (d.step_id != r.step_id || d.attempt_id != r.attempt_id))
      (message "routing decision request identity mismatch")
    ∷ fail_if (d.manifest_sha256 != r.manifest_sha256)
        (message "routing decision manifest mismatch")
    ∷ fail_if
        (d.source_zone != r.source_zone
          || (not (bool_eq d.autonomous r.autonomous)
              || (d.egress_purpose != r.egress_purpose
                  || (d.derived_from_sha != r.derived_from_sha
                      || (not (equal_time d.observed_at r.observed_at)
                          || not (equal_time d.deadline r.deadline))))))
        (message "routing decision request snapshot mismatch")
    ∷ fail_if (not (holds (RoutingWeights-discrete d.weights r.weights)))
        (message "routing decision weights mismatch")
    ∷ [])

-- `RoutingDecision.Validate`
unfoldable pub validate_decision : RoutingRequest → RoutingDecision → Check
unfolding validate_request is_blank check_snapshot check_assessments check_selection
validate_decision r d = do
  prefix_error "routing decision request" (validate_request r)
  fail_if (is_blank d.router || is_blank d.router_version)
      (message "routing decision requires router name and version")
  check_snapshot d r
  fail_if (not (eqb (length d.assessments) (length r.candidates)))
      (message "routing decision must assess every candidate")
  totals ← check_assessments r d.selected_candidate_id 0 false r.candidates d.assessments
  check_selection d.selected_candidate_id totals

-- `RoutingDecision{}`
abbrev pub no_decision : RoutingDecision
no_decision = record {
  router = [];
  router_version = [];
  workload_id = [];
  step_id = [];
  attempt_id = [];
  manifest_sha256 = [];
  source_zone = no_zone;
  autonomous = false;
  egress_purpose = [];
  derived_from_sha = [];
  observed_at = pos 0;
  deadline = pos 0;
  weights = record {
    quality = pos 0;
    locality = pos 0;
    availability = pos 0;
    cache_affinity = pos 0;
    cost = pos 0;
    latency = pos 0;
    inverse_load = pos 0;
  };
  assessments = [];
  selected_candidate_id = [];
}

abbrev pub routing_error : Error → Error
routing_error e = wrap (sentinel Sentinel.routing_evaluation) e

abbrev pub no_eligible : Error
no_eligible = sentinel Sentinel.no_eligible_candidates

abbrev is_no_eligible : Option Error → Bool
is_no_eligible none = false
is_no_eligible (some e) = errors_is e Sentinel.no_eligible_candidates

-- The result of a router, `none` where it panics. `EvaluateRouter` recovers no panic.
abbrev pub Router : Type 0
Router = RoutingRequest → Option (Answer RoutingDecision)

-- What is done with a decision that came back.
unfoldable pub check_decision :
    RoutingRequest → RoutingDecision → Option Error → Answer RoutingDecision
unfolding errors_is validate_decision is_zero_id
check_decision r d e =
    if is_some e && not (is_no_eligible e)
    then (no_decision, Option.map (λ x. routing_error x) e)
    else elim (validate_decision r d) [
      | err x ↦ (no_decision, some (routing_error x))
      | ok _ ↦
          if is_no_eligible e
          then if not (is_zero_id d.selected_candidate_id)
            then (
              no_decision,
              some (routing_error (message "no-route result selected a candidate")),
            )
            else (d, some no_eligible)
          else if is_zero_id d.selected_candidate_id
          then (no_decision, some (routing_error (message "successful route omitted a selection")))
          else (d, none)
    ]

abbrev after_route : RoutingRequest → Option Error → Answer RoutingDecision → Answer RoutingDecision
after_route r (some cancelled) answer = (no_decision, some cancelled)
after_route r none (d, e) = check_decision r d e

-- `EvaluateRouter`; `before` and `after` are what `ctx.Err()` returns around the call.
unfoldable pub evaluate_router :
    Option Error → Option Error → Option Router → RoutingRequest → Option (Answer RoutingDecision)
unfolding validate_request check_decision
evaluate_router (some cancelled) after router r = some (no_decision, some cancelled)
evaluate_router none after router r = elim (validate_request r) [
  | err e ↦ some (no_decision, some (routing_error e))
  | ok _ ↦ elim router [
    | none ↦ some (no_decision, some (routing_error (message "router is nil")))
    | some route ↦ Option.map (after_route r after) (route r)
  ]
]
