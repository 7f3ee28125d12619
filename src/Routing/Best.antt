-- ===== src/Routing/Best.antt =====
-- router/deterministic/router.go: on a valid request `Route` selects the best eligible candidate,
-- and reports no route exactly where no candidate is eligible.
use mathlib.Core.List.{Memᴰ}
use fabricrunner.Prelude.{
  ◌^◌, ◌<◌, ◌≡◌, refl, sym, ap, ◌∙◌, subst, ◌⊎◌, inl, inr, false, Option, none, some, List, [], ◌∷◌,
  arith, All, text_eq, text_ltb, Error, ok, ℤ, negsuc, pos_part, neg_part, ◌≤ℤ◌,
}
use fabricrunner.Id.{FabricId, validate_id, is_zero_id}
use fabricrunner.Routing.Request.{RoutingRequest, RoutingCandidate, validate_request}
use fabricrunner.Routing.Gates.{Context}
use fabricrunner.Routing.Decision.{RoutingDecision, validate_score, score_values, no_eligible}
use fabricrunner.Routing.Deterministic.{Progress, start, route, finish, decision_of}
use fabricrunner.Routing.Decision.{RoutingScore}
use fabricrunner.Routing.Bounds.{check_permille-AtMost}
use fabricrunner.Routing.Deterministic.{score_candidate}
use fabricrunner.Routing.Scores.{RequestFits}
use fabricrunner.Routing.Valid.{CandidateIsValid, validate_request-parts}
use fabricrunner.Routing.Loop.{IsLive, score_of, score_of_eligible, pass, route-pass}
use fabricrunner.Routing.Selection.{IsEligible, total_of, Below, pass_covers, pass_choice}

-- What the router relies on: a request that validates, and a budget in the range of `int64`.
pub record IsRoutable (r : RoutingRequest) : Type 0 where
  pub valid : validate_request r ≡ ok tt
  pub in_range : pos_part r.budget.max_cost < 2 ^ 63

pub routable_fits : (r : RoutingRequest) → IsRoutable r → RequestFits r
routable_fits r h =
    let (w, t, _) = validate_request-parts r h.valid in
    record { weights = w; window = t; max_cost = h.in_range }

pub routable_candidates : (r : RoutingRequest) → IsRoutable r → All CandidateIsValid r.candidates
routable_candidates r h = let (w, t, cs) = validate_request-parts r h.valid in cs

-- The candidate is in the request, eligible, and named by `selected`; no other eligible one has a
-- higher total, or the same total and a smaller ID.
pub record IsBest (r : RoutingRequest) (selected : FabricId) (c : RoutingCandidate) : Type 0 where
  pub listed : Memᴰ c r.candidates
  pub eligible : IsEligible r c
  pub named : selected ≡ c.id
  pub highest :
      All
        (λ d.
          IsEligible r d
          → (total_of r d ≤ℤ total_of r c)
            × (total_of r d ≡ total_of r c → text_ltb d.id c.id ≡ false))
        r.candidates

total_nat :
    (r : RoutingRequest) (c : RoutingCandidate)
    → RequestFits r
    → CandidateIsValid c
    → IsEligible r c
    → neg_part (total_of r c) ≡ 0
unfolding validate_score
total_nat r c f v e =
    let (_, valid) = score_of_eligible r c f v e in
    let bounds = check_permille-AtMost _ (score_values (score_of r c)) valid in
    bounds.1.1.1.1.1.1.1.0.0

below_minus_one : (t b : ℤ) → t ≤ℤ b → b ≡ negsuc 0 → neg_part t ≡ 0 → ⊥
below_minus_one t b h e n = omega (arith, ap pos_part e, ap neg_part e)

none-IsEligible :
    (r : RoutingRequest) (p : Progress) (cs : List RoutingCandidate)
    → RequestFits r
    → p.best_score ≡ negsuc 0
    → All CandidateIsValid cs
    → All (λ c. IsEligible r c → Below p (total_of r c) c.id) cs
    → All (λ c. ¬ IsEligible r c) cs
none-IsEligible r p [] f e v h = tt
none-IsEligible r p (c ∷ cs) f e v h = (
  λ el. below_minus_one (total_of r c) p.best_score (h.0 el).0 e (total_nat r c f v.0 el),
  none-IsEligible r p cs f e v.1 h.1,
)

at_chosen :
    (r : RoutingRequest) (p : Progress) (c : RoutingCandidate) (cs : List RoutingCandidate)
    → p.selected ≡ c.id
    → p.best_score ≡ total_of r c
    → All (λ d. IsEligible r d → Below p (total_of r d) d.id) cs
    → All
        (λ d.
          IsEligible r d
          → (total_of r d ≤ℤ total_of r c)
            × (total_of r d ≡ total_of r c → text_ltb d.id c.id ≡ false))
        cs
at_chosen r p c [] s b h = tt
at_chosen r p c (d ∷ ds) s b h = (
  λ el.
      let below = h.0 el in
      (
        subst (λ k. total_of r d ≤ℤ k) b below.0,
        λ e. subst (λ k. text_ltb d.id k ≡ false) s (below.1 (e ∙ sym b)),
      ),
  at_chosen r p c ds s b h.1,
)

-- What the pass over a routable request selects.
pub pass_outcome :
    (r : RoutingRequest)
    → IsRoutable r
    → let p = pass r r.candidates start in
      ((p.selected ≡ []) × All (λ c. ¬ IsEligible r c) r.candidates)
      ⊎ ((c : RoutingCandidate) × IsBest r p.selected c)
pass_outcome r h =
    let covers = pass_covers r r.candidates start in
    elim (pass_choice r r.candidates start) [
      | inl (s, b) ↦ inl (
        s,
        none-IsEligible r (pass r r.candidates start) r.candidates (routable_fits r h) b
            (routable_candidates r h) covers,
      )
      | inr (c, m, e, s, b) ↦ inr (
        c,
        record {
          listed = m;
          eligible = e;
          named = s;
          highest = at_chosen r (pass r r.candidates start) c r.candidates s b covers;
        },
      )
    ]

abbrev pub found_decision : RoutingRequest → RoutingDecision
found_decision r = decision_of r (pass r r.candidates start)

-- A member of a list of valid candidates has a valid ID, which is not empty.
pub Memᴰ-valid :
    {c : RoutingCandidate} (cs : List RoutingCandidate)
    → All CandidateIsValid cs
    → Memᴰ c cs
    → CandidateIsValid c
Memᴰ-valid [] v m = elim m [ ]
Memᴰ-valid (d ∷ ds) v (Memᴰ.head e) = subst CandidateIsValid (sym e) v.0
Memᴰ-valid (d ∷ ds) v (Memᴰ.tail m) = Memᴰ-valid ds v.1 m

-- An eligible candidate of a valid request whose cost budget fits int64 has a score, that is, no
-- division panics, and the score passes `RoutingScore.Validate`.
pub score_candidate-validates :
    (r : RoutingRequest) (c : RoutingCandidate)
    → IsRoutable r
    → Memᴰ c r.candidates
    → IsEligible r c
    → (s : RoutingScore) × (score_candidate r c ≡ some s) × (validate_score s ≡ ok tt)
score_candidate-validates r c h m e =
    let v = Memᴰ-valid r.candidates (routable_candidates r h) m in
    let (scored, valid) = score_of_eligible r c (routable_fits r h) v e in
    (score_of r c, scored, valid)

pub id_not_zero : (i : FabricId) → validate_id i ≡ ok tt → is_zero_id i ≡ false
unfolding validate_id is_zero_id
id_not_zero [] h = cc
id_not_zero (a ∷ s) h = refl

pub chosen_not_zero :
    (r : RoutingRequest) (c : RoutingCandidate) (selected : FabricId)
    → IsRoutable r
    → IsBest r selected c
    → is_zero_id selected ≡ false
chosen_not_zero r c selected h b =
    let valid = Memᴰ-valid r.candidates (routable_candidates r h) b.listed in
    rw b.named (id_not_zero c.id valid.id)

route_found :
    (ctx : Context) (r : RoutingRequest)
    → IsLive ctx
    → IsRoutable r
    → route ctx r ≡ some (finish r (ok (pass r r.candidates start)))
route_found ctx r live h =
    route-pass ctx r live h.valid (routable_fits r h) (routable_candidates r h)

pub finish_selected :
    (r : RoutingRequest) (p : Progress)
    → is_zero_id p.selected ≡ false
    → finish r (ok p) ≡ (decision_of r p, none)
unfolding finish
finish_selected r p h = rw h

pub finish_none :
    (r : RoutingRequest) (p : Progress)
    → p.selected ≡ []
    → finish r (ok p) ≡ (decision_of r p, some no_eligible)
unfolding finish is_zero_id
finish_none r p h = rw h

pub outcome_found :
    (ctx : Context) (r : RoutingRequest) (e : Option Error)
    → IsLive ctx
    → IsRoutable r
    → finish r (ok (pass r r.candidates start)) ≡ (found_decision r, e)
    → route ctx r ≡ some (found_decision r, e)
outcome_found ctx r e live h f = rw (route_found ctx r live h) (ap some f)

selected_of :
    (r : RoutingRequest) (p : Progress) → (decision_of r p).selected_candidate_id ≡ p.selected
unfolding decision_of
selected_of r p = refl

-- In a live context, on a valid request whose cost budget fits int64, `Route` either returns with no
-- error a decision that selects a candidate of the request which is eligible, and of which no other
-- eligible one has a higher total, or the same total and a smaller ID; or it returns the error for
-- no eligible candidate beside a decision that selects none, and no candidate is eligible.
pub route-IsBest :
    (ctx : Context) (r : RoutingRequest)
    → IsLive ctx
    → IsRoutable r
    → (d : RoutingDecision) × (((c : RoutingCandidate) × (route ctx r ≡ some (d, none))
          × IsBest r d.selected_candidate_id c)
        ⊎ ((route ctx r ≡ some (d, some no_eligible))
            × (d.selected_candidate_id ≡ [])
            × All (λ c. ¬ IsEligible r c) r.candidates))
route-IsBest ctx r live h =
    let p = pass r r.candidates start in
    (
      found_decision r,
      elim (pass_outcome r h) [
        | inl (e, all_out) ↦ inr (
          outcome_found ctx r (some no_eligible) live h (finish_none r p e),
          selected_of r p ∙ e,
          all_out,
        )
        | inr (c, best) ↦ inl (
          c,
          outcome_found ctx r none live h
              (finish_selected r p (chosen_not_zero r c p.selected h best)),
          subst (λ s. IsBest r s c) (sym (selected_of r p)) best,
        )
      ],
    )
