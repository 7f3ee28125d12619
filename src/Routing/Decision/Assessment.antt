-- ===== src/Routing/Decision/Assessment.antt =====
-- routing.go: scores and assessments, and their validation.
use fabricrunner.Prelude.{
  Bool, true, false, Option, none, some, List, [], ◌∷◌, text_eq, message, err, Check, fail_if,
  prefix_error, all_checks, ℤ,
}
use fabricrunner.Id.{FabricId, validate_id}
use fabricrunner.Strings.{is_blank}
use fabricrunner.Domain.{Zone, zone_eq, validate_zone}
use fabricrunner.Model.{ModelRef, validate_model_ref, model_ref_eq}
use fabricrunner.Routing.Request.{check_permille}
use fabricrunner.Routing.Gates.{RoutingExclusion}

unfoldable pub validate_exclusion : RoutingExclusion → Check
unfolding is_blank
validate_exclusion x = all_checks (
    fail_if (is_blank x.code) (message "routing exclusion code is required")
    ∷ fail_if (is_blank x.reason) (message "routing exclusion reason is required")
    ∷ [])

pub record RoutingScore : Type 0 where
  pub quality : ℤ
  pub locality : ℤ
  pub availability : ℤ
  pub cache_affinity : ℤ
  pub cost : ℤ
  pub latency : ℤ
  pub inverse_load : ℤ
  pub total : ℤ

abbrev pub score_values : RoutingScore → List ℤ
score_values s =
    s.quality ∷ s.locality ∷ s.availability ∷ s.cache_affinity ∷ s.cost ∷ s.latency ∷ s.inverse_load
    ∷ s.total ∷ []

unfoldable pub validate_score : RoutingScore → Check
unfolding check_permille
validate_score s = check_permille "routing score must be between 0 and 1000" (score_values s)

pub record CandidateAssessment : Type 0 where
  pub candidate_id : FabricId
  pub zone : Zone
  pub model : ModelRef
  pub eligible : Bool
  pub exclusion : Option RoutingExclusion
  pub score : Option RoutingScore

-- The two halves of `CandidateAssessment.Validate` below the identity of the candidate.
unfoldable pub validate_verdict_of : Bool → Option RoutingExclusion → Option RoutingScore → Check
unfolding validate_score validate_exclusion
validate_verdict_of true none (some s) = validate_score s
validate_verdict_of true _ _ = err (message "eligible candidate requires a score and no exclusion")
validate_verdict_of false (some x) none = validate_exclusion x
validate_verdict_of false _ _ =
    err (message "excluded candidate requires one exclusion and no score")

unfoldable pub validate_assessment : CandidateAssessment → Check
unfolding validate_id validate_zone validate_model_ref validate_verdict_of
validate_assessment a = all_checks (
    prefix_error "assessed candidate ID" (validate_id a.candidate_id)
    ∷ prefix_error "assessed candidate zone" (validate_zone a.zone)
    ∷ prefix_error "assessed candidate model" (validate_model_ref a.model)
    ∷ validate_verdict_of a.eligible a.exclusion a.score
    ∷ [])
