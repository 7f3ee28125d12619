-- ===== src/Routing/Assessments.antt =====
-- router/deterministic/router.go: the assessments that the router writes pass the checks of
-- `RoutingDecision.Validate`.
use fabricrunner.Prelude.{
  ◌≡◌, refl, sym, ap, ◌∙◌, inl, inr, Bool, true, false, Option, none, some, List, [], ◌∷◌, ◌++◌,
  map, Bool-cases, text_eq, ok, passed, all_checks-pass, prefix_error-pass, same, holds_refl,
  fail_if-pass,
}
use fabricrunner.Domain.{zone_eq}
use fabricrunner.Model.{model_ref_eq, validate_model_ref, validate_descriptor}
use fabricrunner.Routing.Request.{RoutingRequest, RoutingCandidate}
use fabricrunner.Routing.Gates.{RoutingExclusion, candidate_exclusion}
use fabricrunner.Routing.Decision.{
  CandidateAssessment, validate_assessment, validate_verdict_of, check_eligibility,
  check_assessment, bool_eq, RoutingExclusion-discrete,
}
use fabricrunner.Routing.Deterministic.{Progress, add_scored, add_excluded, is_better}
use fabricrunner.Routing.Exclusions.{candidate_exclusion-IsSound}
use fabricrunner.Routing.Scores.{RequestFits}
use fabricrunner.Routing.Valid.{CandidateIsValid}
use fabricrunner.Routing.Loop.{score_of, score_of_eligible, step_of, pass}

-- The assessment that the router writes for a candidate, by its exclusion.
abbrev pub assessment_by :
    RoutingRequest → RoutingCandidate → Option RoutingExclusion → CandidateAssessment
assessment_by r c none = record {
  candidate_id = c.id;
  zone = c.zone;
  model = c.model.ref;
  eligible = true;
  exclusion = none;
  score = some (score_of r c);
}
assessment_by r c (some x) = record {
  candidate_id = c.id;
  zone = c.zone;
  model = c.model.ref;
  eligible = false;
  exclusion = some x;
  score = none;
}

abbrev pub assessment_of : RoutingRequest → RoutingCandidate → CandidateAssessment
assessment_of r c = assessment_by r c (candidate_exclusion r c)

step_assessments :
    (r : RoutingRequest) (c : RoutingCandidate) (x : Option RoutingExclusion) (p : Progress)
    → (step_of r c x p).assessments ≡ p.assessments ++ assessment_by r c x ∷ []
unfolding step_of add_scored add_excluded
step_assessments r c (some x) p = refl
step_assessments r c none p = elim (Bool-cases (is_better (score_of r c).total c.id p)) [
  | inl e ↦ rw e
  | inr e ↦ rw e
]

append_one :
    (xs : List CandidateAssessment) (x : CandidateAssessment) (ys : List CandidateAssessment)
    → (xs ++ x ∷ []) ++ ys ≡ xs ++ x ∷ ys
append_one [] x ys = refl
append_one (z ∷ xs) x ys = ap (λ t. z ∷ t) (append_one xs x ys)

append_nil : (xs : List CandidateAssessment) → xs ++ [] ≡ xs
append_nil [] = refl
append_nil (x ∷ xs) = ap (λ t. x ∷ t) (append_nil xs)

pub pass_assessments :
    (r : RoutingRequest) (cs : List RoutingCandidate) (p : Progress)
    → (pass r cs p).assessments ≡ p.assessments ++ map (assessment_of r) cs
unfolding pass
pass_assessments r [] p = sym (append_nil p.assessments)
pass_assessments r (c ∷ cs) p =
    pass_assessments r cs (step_of r c (candidate_exclusion r c) p)
    ∙ ap (λ xs. xs ++ map (assessment_of r) cs) (step_assessments r c (candidate_exclusion r c) p)
    ∙ append_one p.assessments (assessment_of r c) (map (assessment_of r) cs)

pub bool_eq_refl : (b : Bool) → bool_eq b b ≡ true
bool_eq_refl true = refl
bool_eq_refl false = refl

verdict_of-valid :
    (r : RoutingRequest) (c : RoutingCandidate) (x : Option RoutingExclusion)
    → RequestFits r
    → CandidateIsValid c
    → candidate_exclusion r c ≡ x
    → validate_verdict_of
        (assessment_by r c x).eligible
        (assessment_by r c x).exclusion
        (assessment_by r c x).score
      ≡ ok tt
unfolding validate_verdict_of
verdict_of-valid r c none f v e = (score_of_eligible r c f v e).1
verdict_of-valid r c (some x) f v e = candidate_exclusion-IsSound r c x e

eligibility_kept :
    (r : RoutingRequest) (c : RoutingCandidate) (x : Option RoutingExclusion)
    → check_eligibility x (assessment_by r c x) ≡ ok tt
unfolding check_eligibility
eligibility_kept r c none = refl
eligibility_kept r c (some x) = rw (holds_refl RoutingExclusion-discrete x)

descriptor_ref :
    (c : RoutingCandidate) → CandidateIsValid c → validate_model_ref c.model.ref ≡ ok tt
unfolding validate_descriptor
descriptor_ref c v = passed _ 0 v.model refl

identity_kept :
    (r : RoutingRequest) (c : RoutingCandidate) (x : Option RoutingExclusion)
    → let a = assessment_by r c x in
      (a.candidate_id ≡ c.id) × (a.zone ≡ c.zone) × (a.model ≡ c.model.ref)
identity_kept r c none = (refl, refl, refl)
identity_kept r c (some x) = (refl, refl, refl)

pub check_assessment-pass :
    (r : RoutingRequest) (c : RoutingCandidate)
    → RequestFits r
    → CandidateIsValid c
    → check_assessment r c (assessment_of r c) ≡ ok tt
unfolding check_assessment validate_assessment
check_assessment-pass r c f v =
    let x = candidate_exclusion r c in
    let (i, z, m) = identity_kept r c x in
    all_checks-pass _ (
      fail_if-pass _ _ (rw i (same c.id)),
      (
        fail_if-pass _ _ (rw (z, m) (rw (same c.zone) (same c.model.ref))),
        (
          prefix_error-pass _ _ (
              all_checks-pass _ (
                prefix_error-pass _ _ (rw i v.id),
                (
                  prefix_error-pass _ _ (rw z v.zone),
                  (
                    prefix_error-pass _ _ (rw m (descriptor_ref c v)),
                    (verdict_of-valid r c x f v refl, tt),
                  ),
                ),
              )),
          (eligibility_kept r c x, tt),
        ),
      ),
    )
