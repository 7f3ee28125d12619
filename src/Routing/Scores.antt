-- ===== src/Routing/Scores.antt =====
-- router/deterministic/router.go: a candidate that passed the gates of a valid request has a
-- score, and every part of it is a permille.
use fabricrunner.Prelude.{
  ℕ, zero, suc, ◌+◌, ◌-◌, ◌^◌, ◌≤◌, ◌<◌, ◌≡◌, refl, ◌⊎◌, Bool, true, false, some, arith,
  ||-eq-false, ◌==◌, holds_iff, text_eq, ok, ℤ, pos, negsuc, ℤ-discrete, pos_part, neg_part, ◌+ℤ◌,
  ◌-ℤ◌, ◌≤ℤ◌, ltb_ℤ, to_uint64, of_uint64, add64, sub64, add64_exact,
}
use fabricrunner.Domain.{Time, after, equal_time, zone_eq}
use fabricrunner.Routing.Request.{RoutingRequest, RoutingCandidate, sub_time}
use fabricrunner.Routing.Gates.{max_time, misses_deadline}
use fabricrunner.Routing.Decision.{RoutingScore, validate_score, score_values}
use fabricrunner.Routing.Deterministic.{
  scale_permille, cost_score, latency_score, bool_permille, make_score, score_candidate,
}
use fabricrunner.Routing.Bounds.{
  AtMost, AtMost-check_permille, WeightsFit, ScoreFits, weighted_total-AtMost,
  availability_score-AtMost, scale_permille_part,
}

-- t - u as a natural number, where that is less than 2^63.
sub_time_nat :
    (t u : Time)
    → u ≤ℤ t
    → pos_part t + neg_part u < 2 ^ 63 + (pos_part u + neg_part t)
    → (n : ℕ) × (sub_time t u ≡ pos n) × (n + (pos_part u + neg_part t) ≡ pos_part t + neg_part u)
unfolding sub_time ◌-ℤ◌
sub_time_nat t u h k =
    (pos_part t + neg_part u - (pos_part u + neg_part t), ground arith, omega arith)

-- The last test on the window holds only where the difference did not saturate.
window_fits :
    (t u : Time)
    → after t u ≡ true
    → u +ℤ sub_time t u ≡ t
    → pos_part t + neg_part u < 2 ^ 63 + (pos_part u + neg_part t)
unfolding sub_time ◌-ℤ◌ ◌+ℤ◌
window_fits t u h e = ground arith

-- What the validity of a request says of its two instants.
pub record WindowFits (observed deadline : Time) : Type 0 where
  pub later : pos_part observed + neg_part deadline < pos_part deadline + neg_part observed
  pub short :
      pos_part deadline + neg_part observed < 2 ^ 63 + (pos_part observed + neg_part deadline)

pub window-WindowFits :
    (observed deadline : Time)
    → after deadline observed ≡ true
    → equal_time (observed +ℤ sub_time deadline observed) deadline ≡ true
    → WindowFits observed deadline
window-WindowFits o d h e = record {
  later = ground arith;
  short = window_fits d o h ((holds_iff (ℤ-discrete (o +ℤ sub_time d o) d)).0 e);
}

one_minus : (q : ℤ) → AtMost 1000 q → AtMost 1000 (sub64 (pos 1000) q)
unfolding sub64 to_uint64 of_uint64
one_minus q h = ground arith

max_time_bounds : (l r : Time) → (l ≤ℤ max_time l r) × ((max_time l r ≡ l) ⊎ (max_time l r ≡ r))
unfolding max_time
max_time_bounds l r = ground arith

-- The latency part, from the instant at which the work starts.
latency_fits :
    (o d s l : ℤ)
    → WindowFits o d
    → o ≤ℤ s
    → after s d ≡ false
    → neg_part l ≡ 0
    → ltb_ℤ (sub_time d s) l ≡ false
    → (q : ℤ) × (scale_permille (add64 (sub_time s o) l) (sub_time d o) ≡ some q) × AtMost 1000 q
latency_fits o d s (negsuc l) w os sd ln late = absurd (omega arith)
latency_fits o d s (pos l) w os sd ln late =
    let sd' : s ≤ℤ d = ground arith in
    let (whole, ew, nw) = sub_time_nat d o (omega (arith, w.later)) w.short in
    let (wait, ea, na) = sub_time_nat s o os (omega (arith, w.short)) in
    let (left, el, nl) = sub_time_nat d s sd' (omega (arith, w.short)) in
    let fits : l ≤ left = ground (arith, el, late) in
    rw (ew, ea, add64_exact wait l (omega (arith, w.short)))
      (scale_permille_part (wait + l) whole (omega arith) (omega (arith, w.later))
        (omega (arith, w.short)))

-- What the validity of a candidate and the limit gates say of its numbers.
pub record CandidateFits (r : RoutingRequest) (c : RoutingCandidate) : Type 0 where
  pub quality : AtMost 1000 c.quality_permille
  pub cache_affinity : AtMost 1000 c.cache_affinity_permille
  pub load : AtMost 1000 c.load_permille
  pub slots : neg_part c.available_slots ≡ 0
  pub cost : neg_part c.expected_cost ≡ 0
  pub affordable : ltb_ℤ r.budget.max_cost c.expected_cost ≡ false
  pub latency : neg_part c.expected_latency ≡ 0
  pub on_time : misses_deadline r c ≡ false

-- The parts of the request that the scores use.
pub record RequestFits (r : RoutingRequest) : Type 0 where
  pub weights : WeightsFit r.weights
  pub window : WindowFits r.observed_at r.deadline
  pub max_cost : pos_part r.budget.max_cost < 2 ^ 63

cost_step :
    (e q : ℤ) (b : ℕ)
    → scale_permille e (pos (suc b)) ≡ some q
    → cost_score e (pos (suc b)) ≡ some (sub64 (pos 1000) q)
unfolding cost_score
cost_step e q b h = ground arith

latency_step :
    (r : RoutingRequest) (c : RoutingCandidate) (q : ℤ)
    → let start = max_time r.observed_at c.available_at in
      scale_permille
          (add64 (sub_time start r.observed_at) c.expected_latency)
          (sub_time r.deadline r.observed_at)
        ≡ some q
      → latency_score r c ≡ some (sub64 (pos 1000) q)
unfolding latency_score
latency_step r c q h = ground arith

score_step :
    (r : RoutingRequest) (c : RoutingCandidate) (cost latency : ℤ)
    → cost_score c.expected_cost r.budget.max_cost ≡ some cost
    → latency_score r c ≡ some latency
    → score_candidate r c ≡ some (make_score r c cost latency)
unfolding score_candidate
score_step r c cost latency h k = ground arith

cost_fits :
    (e b : ℤ)
    → pos_part b < 2 ^ 63
    → neg_part e ≡ 0
    → ltb_ℤ b e ≡ false
    → (q : ℤ) × (cost_score e b ≡ some q) × AtMost 1000 q
unfolding cost_score
cost_fits (negsuc e) b h n a = absurd (omega arith)
cost_fits (pos e) (negsuc b) h n a = (pos 1000, ground arith, (refl, omega arith))
cost_fits (pos e) (pos zero) h n a = (pos 1000, ground arith, (refl, omega arith))
cost_fits (pos e) (pos (suc b)) h n a =
    let (q, eq, fit) = scale_permille_part e (suc b) (ground arith) (omega arith) h in
    (sub64 (pos 1000) q, cost_step (pos e) q b eq, one_minus q fit)

deadline_parts :
    (r : RoutingRequest) (c : RoutingCandidate)
    → misses_deadline r c ≡ false
    → let start = max_time r.observed_at c.available_at in
      (after start r.deadline ≡ false)
      × (ltb_ℤ (sub_time r.deadline start) c.expected_latency ≡ false)
unfolding misses_deadline
deadline_parts r c h = ||-eq-false _ _ h

latency_score_fits :
    (r : RoutingRequest) (c : RoutingCandidate)
    → RequestFits r
    → CandidateFits r c
    → (q : ℤ) × (latency_score r c ≡ some q) × AtMost 1000 q
unfolding latency_score
latency_score_fits r c fr fc =
    let (before_end, in_time) = deadline_parts r c fc.on_time in
    let (q, eq, fit) =
      latency_fits r.observed_at r.deadline (max_time r.observed_at c.available_at)
        c.expected_latency fr.window (max_time_bounds r.observed_at c.available_at).0 before_end
        fc.latency in_time in
    (sub64 (pos 1000) q, latency_step r c q eq, one_minus q fit)

bool_permille-AtMost : (b : Bool) → AtMost 1000 (bool_permille b)
unfolding bool_permille
bool_permille-AtMost true = omega arith
bool_permille-AtMost false = omega arith

make_score-valid :
    (r : RoutingRequest) (c : RoutingCandidate) (cost latency : ℤ)
    → RequestFits r
    → CandidateFits r c
    → AtMost 1000 cost
    → AtMost 1000 latency
    → validate_score (make_score r c cost latency) ≡ ok tt
unfolding make_score validate_score
make_score-valid r c cost latency fr fc hc hl =
    let parts : ScoreFits (record (make_score r c cost latency) { total = pos 0 }) = record {
      quality = fc.quality;
      locality = bool_permille-AtMost (c.zone == r.source_zone);
      availability = availability_score-AtMost c.available_slots fc.slots;
      cache_affinity = fc.cache_affinity;
      cost = hc;
      latency = hl;
      inverse_load = one_minus c.load_permille fc.load;
    } in
    AtMost-check_permille _ (score_values (make_score r c cost latency)) (
      parts.quality,
      (
        parts.locality,
        (
          parts.availability,
          (
            parts.cache_affinity,
            (
              parts.cost,
              (
                parts.latency,
                (parts.inverse_load, (weighted_total-AtMost r.weights _ fr.weights parts, tt)),
              ),
            ),
          ),
        ),
      ),
    )

-- A candidate within the limits of a valid request has a score, and the score is valid.
pub score_candidate_valid :
    (r : RoutingRequest) (c : RoutingCandidate)
    → RequestFits r
    → CandidateFits r c
    → (s : RoutingScore) × (score_candidate r c ≡ some s) × (validate_score s ≡ ok tt)
unfolding score_candidate
score_candidate_valid r c fr fc =
    let (cost, ec, hc) =
      cost_fits c.expected_cost r.budget.max_cost fr.max_cost fc.cost fc.affordable in
    let (latency, el, hl) = latency_score_fits r c fr fc in
    (
      make_score r c cost latency,
      score_step r c cost latency ec el,
      make_score-valid r c cost latency fr fc hc hl,
    )
