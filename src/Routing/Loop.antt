-- ===== src/Routing/Loop.antt =====
-- router/deterministic/router.go: the loop of `Route` on a valid request never panics, and what it
-- does is a plain pass over the candidates.
use fabricrunner.Prelude.{
  ℕ, ◌+◌, ◌≡◌, refl, inl, inr, Option, none, some, List, [], ◌∷◌, map, Option-cases, length, All,
  text_eq, ok, pos,
}
use fabricrunner.Routing.Request.{RoutingRequest, RoutingCandidate, validate_request}
use fabricrunner.Routing.Gates.{
  Context, ctx_check, CandidateEligibility, RoutingExclusion, candidate_exclusion, assess_all,
  evaluate_eligibility,
}
use fabricrunner.Routing.Decision.{RoutingScore, validate_score}
use fabricrunner.Routing.Deterministic.{
  score_candidate, Progress, add_scored, add_excluded, assess, route_loop, start, finish, route,
}
use fabricrunner.Routing.Scores.{RequestFits, score_candidate_valid}
use fabricrunner.Routing.Valid.{CandidateIsValid, eligible-CandidateFits}

-- The context is never cancelled.
abbrev pub IsLive : Context → Type 0
IsLive ctx = (n : ℕ) → ctx n ≡ none

abbrev pub eligibility_of : RoutingRequest → RoutingCandidate → CandidateEligibility
eligibility_of r c = record {
  candidate_id = c.id;
  zone = c.zone;
  model = c.model.ref;
  exclusion = candidate_exclusion r c;
}

abbrev no_score : RoutingScore
no_score = record {
  quality = pos 0;
  locality = pos 0;
  availability = pos 0;
  cache_affinity = pos 0;
  cost = pos 0;
  latency = pos 0;
  inverse_load = pos 0;
  total = pos 0;
}

-- The score of a candidate; a candidate that is eligible has one.
abbrev or_no_score : Option RoutingScore → RoutingScore
or_no_score none = no_score
or_no_score (some s) = s

unfoldable pub score_of : RoutingRequest → RoutingCandidate → RoutingScore
score_of r c = or_no_score (score_candidate r c)

-- One step of the pass, by the exclusion of the candidate.
unfoldable pub step_of :
    RoutingRequest → RoutingCandidate → Option RoutingExclusion → Progress → Progress
step_of r c none p = add_scored c (score_of r c) p
step_of r c (some x) p = add_excluded c (record (eligibility_of r c) { exclusion = some x }) p

unfoldable pub pass : RoutingRequest → List RoutingCandidate → Progress → Progress
pass r [] p = p
pass r (c ∷ cs) p = pass r cs (step_of r c (candidate_exclusion r c) p)

live_check : (ctx : Context) (n : ℕ) → IsLive ctx → ctx_check ctx n ≡ ok tt
unfolding ctx_check
live_check ctx n h = rw (h n, ctx_check)

assess_all-map :
    (ctx : Context) (n : ℕ) (r : RoutingRequest) (cs : List RoutingCandidate)
    → IsLive ctx
    → assess_all ctx n r cs ≡ ok (map (eligibility_of r) cs)
unfolding assess_all
assess_all-map ctx n r [] h = refl
assess_all-map ctx n r (c ∷ cs) h = rw (live_check ctx n h, assess_all-map ctx (n + 1) r cs h)

pub evaluate_eligibility-map :
    (ctx : Context) (n : ℕ) (r : RoutingRequest)
    → IsLive ctx
    → validate_request r ≡ ok tt
    → evaluate_eligibility ctx n r ≡ ok (map (eligibility_of r) r.candidates)
unfolding evaluate_eligibility
evaluate_eligibility-map ctx n r h v =
    rw (live_check ctx n h, v) (assess_all-map ctx (n + 1) r r.candidates h)

-- An eligible candidate has the valid score that `score_of` names.
pub score_of_eligible :
    (r : RoutingRequest) (c : RoutingCandidate)
    → RequestFits r
    → CandidateIsValid c
    → candidate_exclusion r c ≡ none
    → (score_candidate r c ≡ some (score_of r c)) × (validate_score (score_of r c) ≡ ok tt)
unfolding score_of
score_of_eligible r c f v e =
    let (s, es, valid) = score_candidate_valid r c f (eligible-CandidateFits r c v e) in
    rw es (refl, valid)

assess-step :
    (r : RoutingRequest) (c : RoutingCandidate) (p : Progress)
    → RequestFits r
    → CandidateIsValid c
    → assess r c (eligibility_of r c) p ≡ some (step_of r c (candidate_exclusion r c) p)
unfolding assess step_of add_excluded
assess-step r c p f v = elim (Option-cases (candidate_exclusion r c)) [
  | inl e ↦ rw (e, (score_of_eligible r c f v e).0)
  | inr (x, e) ↦ rw e
]

route_loop-pass :
    (ctx : Context) (n : ℕ) (r : RoutingRequest) (cs : List RoutingCandidate) (p : Progress)
    → IsLive ctx
    → RequestFits r
    → All CandidateIsValid cs
    → route_loop ctx n r cs (map (eligibility_of r) cs) p ≡ some (ok (pass r cs p))
unfolding route_loop pass
route_loop-pass ctx n r [] p h f v = refl
route_loop-pass ctx n r (c ∷ cs) p h f v =
    rw (h n, assess-step r c p f v.0)
      (route_loop-pass ctx (n + 1) r cs (step_of r c (candidate_exclusion r c) p) h f v.1)

-- On a valid request in a live context the router returns what the pass found.
pub route-pass :
    (ctx : Context) (r : RoutingRequest)
    → IsLive ctx
    → validate_request r ≡ ok tt
    → RequestFits r
    → All CandidateIsValid r.candidates
    → route ctx r ≡ some (finish r (ok (pass r r.candidates start)))
unfolding route
route-pass ctx r h v f vs = rw (
  h 0,
  route,
  evaluate_eligibility-map ctx 1 r h v,
  route_loop-pass ctx (2 + length r.candidates) r r.candidates start h f vs,
)
