-- ===== src/Routing/Accepted.antt =====
-- routing.go and router/deterministic/router.go: `EvaluateRouter` accepts the decisions of the
-- deterministic router.
use fabricrunner.Prelude.{
  ℕ, ◌≡◌, refl, ap, inl, inr, Bool, true, false, Option, none, some, [], ◌∷◌, eqb_refl, length,
  length-map, text_eq, Error, errors_is, ok, Check, ◌>>◌, prefix_error, Sentinel-discrete,
}
use fabricrunner.Id.{FabricId, validate_id, is_zero_id}
use fabricrunner.Routing.Request.{RoutingRequest, validate_request}
use fabricrunner.Routing.Gates.{Context}
use fabricrunner.Routing.Decision.{
  RoutingDecision, check_selection, validate_decision, check_decision, evaluate_router, no_eligible,
}
use fabricrunner.Routing.Deterministic.{start, route, decision_of}
use fabricrunner.Routing.Loop.{IsLive, pass}
use fabricrunner.Routing.Best.{
  IsRoutable, routable_fits, routable_candidates, Memᴰ-valid, pass_outcome, outcome_found,
  found_decision, finish_none, finish_selected, chosen_not_zero,
}
use fabricrunner.Routing.Assessments.{assessment_of, pass_assessments}
use fabricrunner.Routing.Counts.{
  counted, found_in, check_assessments-pass, none_counted, found_member, check_snapshot-pass,
}

-- The validation of the router's decision comes down to the tests on the selection.
validate_found :
    (r : RoutingRequest)
    → IsRoutable r
    → let selected = (pass r r.candidates start).selected in
      check_selection selected (counted r r.candidates 0, found_in r selected r.candidates false)
        ≡ ok tt
      → validate_decision r (found_decision r) ≡ ok tt
unfolding validate_decision decision_of
validate_found r h k =
    let p = pass r r.candidates start in
    rw
      (
        h.valid,
        check_snapshot-pass r p,
        pass_assessments r r.candidates start,
        length-map (assessment_of r) r.candidates,
        eqb_refl (length r.candidates),
        check_assessments-pass r p.selected 0 false r.candidates (routable_fits r h)
            (routable_candidates r h),
      )
      k

both_pass :
    (m k : Check) → m ≡ ok tt → k ≡ ok tt → (prefix_error "selected candidate ID" m >> k) ≡ ok tt
both_pass m k h e = rw (h, e)

selection_none :
    (selected : FabricId) (count : ℕ) (found : Bool)
    → selected ≡ []
    → count ≡ 0
    → check_selection selected (count, found) ≡ ok tt
unfolding check_selection is_zero_id
selection_none selected count found h k = rw (h, k)

selection_found :
    (selected : FabricId) (count : ℕ) (found : Bool)
    → validate_id selected ≡ ok tt
    → found ≡ true
    → check_selection selected (count, found) ≡ ok tt
unfolding check_selection validate_id is_zero_id
selection_found [] count found h k = cc
selection_found (a ∷ s) count found h k = rw k (both_pass (validate_id (a ∷ s)) (ok tt) h refl)

found_decision-validates :
    (r : RoutingRequest) → IsRoutable r → validate_decision r (found_decision r) ≡ ok tt
found_decision-validates r h = elim (pass_outcome r h) [
  | inl (e, out) ↦ validate_found r h (
      selection_none (pass r r.candidates start).selected (counted r r.candidates 0) _ e
        (none_counted r r.candidates 0 out))
  | inr (c, best) ↦
      let valid = Memᴰ-valid r.candidates (routable_candidates r h) best.listed in
      validate_found r h (
        selection_found (pass r r.candidates start).selected (counted r r.candidates 0) _
          (rw best.named valid.id)
          (found_member r (pass r r.candidates start).selected c r.candidates false best.listed
            best.eligible best.named))
]

-- `EvaluateRouter` in a live context passes the answer on.
pass_on :
    (ctx : Context) (r : RoutingRequest) (d : RoutingDecision) (e : Option Error)
    → validate_request r ≡ ok tt
    → route ctx r ≡ some (d, e)
    → check_decision r d e ≡ (d, e)
    → evaluate_router none none (some (route ctx)) r ≡ route ctx r
unfolding evaluate_router
pass_on ctx r d e h f g = rw (h, evaluate_router, f) (ap some g)

check_selected :
    (r : RoutingRequest) (d : RoutingDecision)
    → validate_decision r d ≡ ok tt
    → is_zero_id d.selected_candidate_id ≡ false
    → check_decision r d none ≡ (d, none)
unfolding check_decision
check_selected r d h k = rw (h, k)

check_no_route :
    (r : RoutingRequest) (d : RoutingDecision)
    → validate_decision r d ≡ ok tt
    → is_zero_id d.selected_candidate_id ≡ true
    → check_decision r d (some no_eligible) ≡ (d, some no_eligible)
unfolding check_decision errors_is Sentinel-discrete
check_no_route r d h k = rw (h, k)

-- In a live context, on a valid request whose cost budget fits int64, `EvaluateRouter` returns what
-- the deterministic router returns: its validation rejects none of the router's decisions.
pub route_accepted :
    (ctx : Context) (r : RoutingRequest)
    → IsLive ctx
    → IsRoutable r
    → evaluate_router none none (some (route ctx)) r ≡ route ctx r
unfolding decision_of is_zero_id
route_accepted ctx r live h =
    let p = pass r r.candidates start in
    let valid = found_decision-validates r h in
    elim (pass_outcome r h) [
      | inl (e, out) ↦
          pass_on ctx r (found_decision r) (some no_eligible) h.valid
            (outcome_found ctx r (some no_eligible) live h (finish_none r p e))
            (check_no_route r (found_decision r) valid (rw e))
      | inr (c, best) ↦
          let full = chosen_not_zero r c p.selected h best in
          pass_on ctx r (found_decision r) none h.valid
            (outcome_found ctx r none live h (finish_selected r p full))
            (check_selected r (found_decision r) valid full)
    ]
