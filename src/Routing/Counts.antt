-- ===== src/Routing/Counts.antt =====
-- routing.go: what the loop of `RoutingDecision.Validate` counts in the decisions of the
-- deterministic router, and the fields that such a decision repeats.
use mathlib.Core.List.{Memᴰ}
use fabricrunner.Prelude.{
  ℕ, ◌+◌, ◌≡◌, refl, sym, ap, ◌∙◌, subst, Bool, true, false, ◌||◌, Option, none, some, List, [],
  ◌∷◌, map, arith, All, ◌==◌, text_beq_iff, text_eq, ok, all_checks-pass, same, holds_refl,
  fail_if-pass, ℤ-discrete,
}
use fabricrunner.Id.{FabricId}
use fabricrunner.Domain.{zone_eq}
use fabricrunner.Routing.Request.{RoutingRequest, RoutingCandidate}
use fabricrunner.Routing.Gates.{RoutingExclusion, candidate_exclusion}
use fabricrunner.Routing.Decision.{
  CandidateAssessment, check_assessment, check_assessments, check_snapshot, RoutingWeights-discrete,
}
use fabricrunner.Routing.Deterministic.{Progress, decision_of}
use fabricrunner.Routing.Scores.{RequestFits}
use fabricrunner.Routing.Valid.{CandidateIsValid}
use fabricrunner.Routing.Selection.{IsEligible}
use fabricrunner.Routing.Assessments.{
  assessment_by, assessment_of, bool_eq_refl, check_assessment-pass,
}

-- What the loop of the validation counts.
abbrev count_by : Option RoutingExclusion → ℕ → ℕ
count_by none count = count + 1
count_by (some x) count = count

abbrev pub counted : RoutingRequest → List RoutingCandidate → ℕ → ℕ
counted r [] count = count
counted r (c ∷ cs) count = counted r cs (count_by (candidate_exclusion r c) count)

abbrev found_by : FabricId → FabricId → Option RoutingExclusion → Bool → Bool
found_by selected id none found = found || id == selected
found_by selected id (some x) found = found

abbrev pub found_in : RoutingRequest → FabricId → List RoutingCandidate → Bool → Bool
found_in r selected [] found = found
found_in r selected (c ∷ cs) found =
    found_in r selected cs (found_by selected c.id (candidate_exclusion r c) found)

or_false : (b : Bool) → (b || false) ≡ b
or_false true = refl
or_false false = refl

check_assessments-step :
    (r : RoutingRequest) (selected : FabricId) (count : ℕ) (found : Bool) (c : RoutingCandidate)
    (cs : List RoutingCandidate) (rest : List CandidateAssessment) (x : Option RoutingExclusion)
    → check_assessment r c (assessment_by r c x) ≡ ok tt
    → check_assessments r selected count found (c ∷ cs) (assessment_by r c x ∷ rest)
      ≡ check_assessments r selected (count_by x count) (found_by selected c.id x found) cs rest
unfolding check_assessments
check_assessments-step r selected count found c cs rest none h = rw h
check_assessments-step r selected count found c cs rest (some x) h = rw (h, or_false found)

pub check_assessments-pass :
    (r : RoutingRequest) (selected : FabricId) (count : ℕ) (found : Bool)
    (cs : List RoutingCandidate)
    → RequestFits r
    → All CandidateIsValid cs
    → check_assessments r selected count found cs (map (assessment_of r) cs)
      ≡ ok (counted r cs count, found_in r selected cs found)
unfolding check_assessments
check_assessments-pass r selected count found [] f v = refl
check_assessments-pass r selected count found (c ∷ cs) f v =
    check_assessments-step r selected count found c cs (map (assessment_of r) cs)
      (candidate_exclusion r c) (check_assessment-pass r c f v.0)
    ∙ check_assessments-pass r selected (count_by (candidate_exclusion r c) count)
        (found_by selected c.id (candidate_exclusion r c) found) cs f v.1

count_by-kept : (x : Option RoutingExclusion) (count : ℕ) → ¬ (x ≡ none) → count_by x count ≡ count
count_by-kept none count h = absurd (h refl)
count_by-kept (some x) count h = refl

pub none_counted :
    (r : RoutingRequest) (cs : List RoutingCandidate) (count : ℕ)
    → All (λ c. ¬ IsEligible r c) cs
    → counted r cs count ≡ count
none_counted r [] count h = refl
none_counted r (c ∷ cs) count h =
    none_counted r cs (count_by (candidate_exclusion r c) count) h.1
    ∙ count_by-kept (candidate_exclusion r c) count h.0

found_by-true :
    (selected id : FabricId) (x : Option RoutingExclusion) → found_by selected id x true ≡ true
found_by-true selected id none = refl
found_by-true selected id (some x) = refl

found_stays :
    (r : RoutingRequest) (selected : FabricId) (cs : List RoutingCandidate)
    → found_in r selected cs true ≡ true
found_stays r selected [] = refl
found_stays r selected (c ∷ cs) =
    rw (found_by-true selected c.id (candidate_exclusion r c)) (found_stays r selected cs)

found_by-here :
    (selected id : FabricId) (x : Option RoutingExclusion) (found : Bool)
    → x ≡ none
    → selected ≡ id
    → found_by selected id x found ≡ true
found_by-here selected id none found e s =
    let equal = (text_beq_iff id selected).1 (sym s) in ground (arith, equal)
found_by-here selected id (some x) found e s = cc

pub found_member :
    (r : RoutingRequest) (selected : FabricId) (c : RoutingCandidate) (cs : List RoutingCandidate)
    (found : Bool)
    → Memᴰ c cs
    → IsEligible r c
    → selected ≡ c.id
    → found_in r selected cs found ≡ true
found_member r selected c [] found m e s = elim m [ ]
found_member r selected c (d ∷ ds) found (Memᴰ.head h) e s =
    rw
      (found_by-here selected d.id (candidate_exclusion r d) found
        (subst (λ k. candidate_exclusion r k ≡ none) h e) (s ∙ ap (λ k. k.id) h))
      (found_stays r selected ds)
found_member r selected c (d ∷ ds) found (Memᴰ.tail m) e s =
    found_member r selected c ds (found_by selected d.id (candidate_exclusion r d) found) m e s

pub check_snapshot-pass :
    (r : RoutingRequest) (p : Progress) → check_snapshot (decision_of r p) r ≡ ok tt
unfolding check_snapshot decision_of
check_snapshot-pass r p = all_checks-pass _ (
  fail_if-pass _ _ (rw (same r.workload_id) (rw (same r.step_id) (same r.attempt_id))),
  (
    fail_if-pass _ _ (same r.manifest_sha256),
    (
      fail_if-pass _ _ (
          rw (same r.source_zone, bool_eq_refl r.autonomous, same r.egress_purpose)
            (rw
              (
                same r.derived_from_sha,
                holds_refl ℤ-discrete r.observed_at,
                holds_refl ℤ-discrete r.deadline,
              )
              refl)),
      (fail_if-pass _ _ (rw (holds_refl RoutingWeights-discrete r.weights)), tt),
    ),
  ),
)
