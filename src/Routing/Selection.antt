-- ===== src/Routing/Selection.antt =====
-- router/deterministic/router.go: which candidate the pass selects.
use mathlib.Core.List.{Memᴰ}
use fabricrunner.Prelude.{
  ◌≡◌, refl, ap, ◌∙◌, ◌⊎◌, inl, inr, true, false, Option, none, some, List, [], ◌∷◌, arith,
  Bool-cases, All, holds_iff, Text, text_eq, text_ltb, ℤ, ℤ-discrete, pos_part, neg_part, ◌≤ℤ◌,
  ◌<ℤ◌,
}
use fabricrunner.Routing.Request.{RoutingRequest, RoutingCandidate}
use fabricrunner.Routing.Gates.{RoutingExclusion, candidate_exclusion}
use fabricrunner.Routing.Decision.{CandidateAssessment, RoutingScore}
use fabricrunner.Routing.Deterministic.{Progress, add_scored, add_excluded, is_better}
use fabricrunner.Routing.Loop.{score_of, step_of, pass}

-- No gate excludes the candidate.
abbrev pub IsEligible : RoutingRequest → RoutingCandidate → Type 0
IsEligible r c = candidate_exclusion r c ≡ none

abbrev pub total_of : RoutingRequest → RoutingCandidate → ℤ
total_of r c = (score_of r c).total

-- A total and an ID do not come before the selected ones: the total is not above the best, and where
-- it equals the best the ID is not the smaller.
abbrev pub Below : Progress → ℤ → Text → Type 0
Below p t i = (t ≤ℤ p.best_score) × (t ≡ p.best_score → text_ltb i p.selected ≡ false)

-- An eligible candidate of the list, with its total, is what the pass stands at.
abbrev pub IsChosen : RoutingRequest → List RoutingCandidate → Progress → Type 0
IsChosen r cs p =
    (c : RoutingCandidate) × Memᴰ c cs
    × IsEligible r c
    × (p.selected ≡ c.id)
    × (p.best_score ≡ total_of r c)

text_ltb_trans : (a b c : Text) → text_ltb a b ≡ true → text_ltb b c ≡ true → text_ltb a c ≡ true
unfolding text_ltb
text_ltb_trans [] [] c h k = cc
text_ltb_trans [] (y ∷ ys) [] h k = cc
text_ltb_trans [] (y ∷ ys) (z ∷ zs) h k = refl
text_ltb_trans (x ∷ xs) [] c h k = cc
text_ltb_trans (x ∷ xs) (y ∷ ys) [] h k = cc
text_ltb_trans (x ∷ xs) (y ∷ ys) (z ∷ zs) h k = ground (arith, text_ltb_trans xs ys zs)

text_ltb_irrefl : (a : Text) → text_ltb a a ≡ false
unfolding text_ltb
text_ltb_irrefl [] = refl
text_ltb_irrefl (x ∷ xs) = ground (arith, text_ltb_irrefl xs)

-- The test of the loop, taken apart.
better_cases :
    (t : ℤ) (i : Text) (p : Progress)
    → is_better t i p ≡ true
    → (p.best_score <ℤ t) ⊎ ((t ≡ p.best_score) × (text_ltb i p.selected ≡ true))
unfolding is_better
better_cases t i p h = ground (arith, holds_iff (ℤ-discrete t p.best_score))

not_better-Below : (t : ℤ) (i : Text) (p : Progress) → is_better t i p ≡ false → Below p t i
unfolding is_better
not_better-Below t i p h =
    (ground arith, λ e. ground (arith, e, h, holds_iff (ℤ-discrete t p.best_score)))

not_eq_of_lt : (b t u : ℤ) → t ≤ℤ b → b <ℤ u → t ≡ u → ⊥
not_eq_of_lt b t u h k e = omega (arith, ap pos_part e, ap neg_part e)

-- What was below stays below, when a better one takes over.
Below-better :
    (p : Progress) (t u : ℤ) (i j : Text) (rest : List CandidateAssessment)
    → is_better u j p ≡ true
    → Below p t i
    → Below (record { best_score = u; selected = j; assessments = rest }) t i
Below-better p t u i j rest h b = elim (better_cases u j p h) [
  | inl more ↦ (omega (arith, b.0), λ e. absurd (not_eq_of_lt p.best_score t u b.0 more e))
  | inr (e, less) ↦ (rw e b.0, λ eq. not_less (Bool-cases (text_ltb i j)) less (b.1 (eq ∙ e)))
]
  where
    not_less :
        (text_ltb i j ≡ true) ⊎ (text_ltb i j ≡ false)
        → text_ltb j p.selected ≡ true
        → text_ltb i p.selected ≡ false
        → text_ltb i j ≡ false
    not_less (inr no_less) l n = no_less
    not_less (inl lt) l n = cc (text_ltb_trans i j p.selected lt l, n)

add_scored-Below :
    (c : RoutingCandidate) (s : RoutingScore) (p : Progress) (t : ℤ) (i : Text)
    → Below p t i
    → Below (add_scored c s p) t i
unfolding add_scored
add_scored-Below c s p t i b = elim (Bool-cases (is_better s.total c.id p)) [
  | inl e ↦ rw e (Below-better p t s.total i c.id [] e b)
  | inr e ↦ rw e b
]

-- The candidate just scored is not better than what is selected behind it.
add_scored_self :
    (c : RoutingCandidate) (s : RoutingScore) (p : Progress) → Below (add_scored c s p) s.total c.id
unfolding add_scored
add_scored_self c s p = elim (Bool-cases (is_better s.total c.id p)) [
  | inl e ↦ rw e (omega arith, λ _. text_ltb_irrefl c.id)
  | inr e ↦ rw e (not_better-Below s.total c.id p e)
]

step-Below :
    (r : RoutingRequest) (c : RoutingCandidate) (x : Option RoutingExclusion) (p : Progress) (t : ℤ)
    (i : Text)
    → Below p t i
    → Below (step_of r c x p) t i
unfolding step_of add_excluded
step-Below r c none p t i b = add_scored-Below c (score_of r c) p t i b
step-Below r c (some x) p t i b = b

pass-Below :
    (r : RoutingRequest) (cs : List RoutingCandidate) (p : Progress) (t : ℤ) (i : Text)
    → Below p t i
    → Below (pass r cs p) t i
unfolding pass
pass-Below r [] p t i b = b
pass-Below r (c ∷ cs) p t i b =
    pass-Below r cs (step_of r c (candidate_exclusion r c) p) t i
      (step-Below r c (candidate_exclusion r c) p t i b)

step_self :
    (r : RoutingRequest) (c : RoutingCandidate) (x : Option RoutingExclusion) (p : Progress)
    → x ≡ none
    → Below (step_of r c x p) (total_of r c) c.id
unfolding step_of
step_self r c none p e = add_scored_self c (score_of r c) p
step_self r c (some x) p e = cc

-- No eligible candidate of the list is better than what the pass selects.
pub pass_covers :
    (r : RoutingRequest) (cs : List RoutingCandidate) (p : Progress)
    → All (λ c. IsEligible r c → Below (pass r cs p) (total_of r c) c.id) cs
unfolding pass
pass_covers r [] p = tt
pass_covers r (c ∷ cs) p = (
  λ e.
      pass-Below r cs (step_of r c (candidate_exclusion r c) p) (total_of r c) c.id
        (step_self r c (candidate_exclusion r c) p e),
  pass_covers r cs (step_of r c (candidate_exclusion r c) p),
)

-- Whether the selection of `q` is that of `p`.
abbrev pub SameChoice : Progress → Progress → Type 0
SameChoice p q = (q.selected ≡ p.selected) × (q.best_score ≡ p.best_score)

step_choice :
    (r : RoutingRequest) (c : RoutingCandidate) (x : Option RoutingExclusion) (p : Progress)
    → SameChoice p (step_of r c x p)
      ⊎ ((x ≡ none)
          × ((step_of r c x p).selected ≡ c.id)
          × ((step_of r c x p).best_score ≡ total_of r c))
unfolding step_of add_scored add_excluded
step_choice r c (some x) p = inl (refl, refl)
step_choice r c none p = elim (Bool-cases (is_better (score_of r c).total c.id p)) [
  | inl e ↦ rw e (inr (refl, refl, refl))
  | inr e ↦ rw e (inl (refl, refl))
]

-- The pass keeps the selection that it began with, or ends at an eligible candidate of the list.
pub pass_choice :
    (r : RoutingRequest) (cs : List RoutingCandidate) (p : Progress)
    → SameChoice p (pass r cs p) ⊎ IsChosen r cs (pass r cs p)
unfolding pass
pass_choice r [] p = inl (refl, refl)
pass_choice r (c ∷ cs) p = elim (pass_choice r cs (step_of r c (candidate_exclusion r c) p)) [
  | inr (d, m, e, s, b) ↦ inr (d, Memᴰ.tail m, e, s, b)
  | inl (s, b) ↦ elim (step_choice r c (candidate_exclusion r c) p) [
    | inl (s', b') ↦ inl (s ∙ s', b ∙ b')
    | inr (e, s', b') ↦ inr (c, Memᴰ.head refl, e, s ∙ s', b ∙ b')
  ]
]
