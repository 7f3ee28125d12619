-- ===== src/Routing/Bounds.antt =====
-- router/deterministic/router.go: the arithmetic of the scores stays in range.
use fabricrunner.Prelude.{
  ℕ, ◌+◌, ◌*◌, ◌/◌, ◌^◌, ◌≤◌, ◌<◌, String, ◌≡◌, refl, ap, inl, inr, false, some, List, [], ◌∷◌,
  arith, Bool-cases, All, holds_iff, text_eq, ok, fail_if-ok, passed, ℤ, pos, negsuc, ℤ-discrete,
  pos_part, neg_part, ◌+ℤ◌, ◌*ℤ◌, to_uint64, of_uint64, mul64,
}
use fabricrunner.Routing.Request.{
  RoutingWeights, out_of_permille, check_permille, weight_values, sum_int, validate_weights,
  score_permille_max,
}
use fabricrunner.Routing.Decision.{RoutingScore}
use fabricrunner.Routing.Deterministic.{scale_permille, div_int, weighted_total, availability_score}

-- Not negative, and at most `k`.
abbrev pub AtMost : ℕ → ℤ → Type 0
AtMost k z = (neg_part z ≡ 0) × (pos_part z ≤ k)

pub AtMost-add : (a b : ℕ) (x y : ℤ) → AtMost a x → AtMost b y → AtMost (a + b) (x +ℤ y)
unfolding ◌+ℤ◌
AtMost-add a b x y h k = ground arith

mul_bound : (a b k : ℕ) → a ≤ k → a * b ≤ k * b
mul_bound a b k h = grind arith

pub AtMost-mul : (k : ℕ) (x y : ℤ) → AtMost k x → neg_part y ≡ 0 → AtMost (k * pos_part y) (x *ℤ y)
unfolding ◌*ℤ◌
AtMost-mul k (pos a) (pos b) h n = ground (arith, mul_bound a b k h.1)
AtMost-mul k (pos a) (negsuc b) h n = absurd (omega arith)
AtMost-mul k (negsuc a) y h n = absurd (omega arith)

pub AtMost-permille : (v : ℤ) → out_of_permille v ≡ false → AtMost 1000 v
unfolding out_of_permille
AtMost-permille v h = ground arith

pub check_permille-AtMost :
    (what : String) (vs : List ℤ) → check_permille what vs ≡ ok tt → All (AtMost 1000) vs
unfolding check_permille
check_permille-AtMost what [] h = tt
check_permille-AtMost what (v ∷ vs) h = elim (Bool-cases (out_of_permille v)) [
  | inl out ↦ cc (rw out at h)
  | inr within ↦ (AtMost-permille v within, check_permille-AtMost what vs (rw within at h))
]

pub AtMost-check_permille :
    (what : String) (vs : List ℤ) → All (AtMost 1000) vs → check_permille what vs ≡ ok tt
unfolding check_permille out_of_permille
AtMost-check_permille what [] h = refl
AtMost-check_permille what (v ∷ vs) h = ground (arith, AtMost-check_permille what vs h.1)

-- The weights are natural numbers that add up to 1000.
pub record WeightsFit (w : RoutingWeights) : Type 0 where
  pub quality : AtMost 1000 w.quality
  pub locality : AtMost 1000 w.locality
  pub availability : AtMost 1000 w.availability
  pub cache_affinity : AtMost 1000 w.cache_affinity
  pub cost : AtMost 1000 w.cost
  pub latency : AtMost 1000 w.latency
  pub inverse_load : AtMost 1000 w.inverse_load
  pub total :
      pos_part w.quality
        + pos_part w.locality
        + pos_part w.availability
        + pos_part w.cache_affinity
        + pos_part w.cost
        + pos_part w.latency
        + pos_part w.inverse_load
      ≡ 1000

-- The sum of the naturals that the integers are.
abbrev total_parts : List ℤ → ℕ
total_parts [] = 0
total_parts (v ∷ vs) = pos_part v + total_parts vs

add_nat :
    (a b : ℤ)
    → neg_part a ≡ 0
    → neg_part b ≡ 0
    → (neg_part (a +ℤ b) ≡ 0) × (pos_part (a +ℤ b) ≡ pos_part a + pos_part b)
unfolding ◌+ℤ◌
add_nat a b h k = ground arith

sum_int-total :
    (acc : ℤ) (vs : List ℤ)
    → neg_part acc ≡ 0
    → All (AtMost 1000) vs
    → pos_part (sum_int acc vs) ≡ pos_part acc + total_parts vs
unfolding sum_int
sum_int-total acc [] h k = omega arith
sum_int-total acc (v ∷ vs) h k =
    let (n, p) = add_nat acc v h k.0.0 in omega (arith, p, sum_int-total (acc +ℤ v) vs n k.1)

pub validate_weights-WeightsFit : (w : RoutingWeights) → validate_weights w ≡ ok tt → WeightsFit w
unfolding validate_weights
validate_weights-WeightsFit w h =
    let inrange = passed _ 0 h refl in
    let total = passed _ 1 h refl in
    let a = check_permille-AtMost _ (weight_values w) inrange in
    let s = holds_iff (ℤ-discrete (sum_int (pos 0) (weight_values w)) (pos score_permille_max)) in
    let e : sum_int (pos 0) (weight_values w) ≡ pos 1000 =
      s.0 (ground (arith, fail_if-ok _ _ total)) in
    let t = sum_int-total (pos 0) (weight_values w) refl a in
    record {
      quality = a.0;
      locality = a.1.0;
      availability = a.1.1.0;
      cache_affinity = a.1.1.1.0;
      cost = a.1.1.1.1.0;
      latency = a.1.1.1.1.1.0;
      inverse_load = a.1.1.1.1.1.1.0;
      total = let p = ap pos_part e in omega (arith, t, p);
    }

-- A total within 1000 * 1000 fits `int`, and a thousandth of it is a permille.
div_total : (z : ℤ) → AtMost 1000000 z → AtMost 1000 (div_int (of_uint64 (to_uint64 z)) 1000)
unfolding div_int of_uint64 to_uint64
div_total z h = ground arith

-- The parts of a score but the total.
pub record ScoreFits (s : RoutingScore) : Type 0 where
  pub quality : AtMost 1000 s.quality
  pub locality : AtMost 1000 s.locality
  pub availability : AtMost 1000 s.availability
  pub cache_affinity : AtMost 1000 s.cache_affinity
  pub cost : AtMost 1000 s.cost
  pub latency : AtMost 1000 s.latency
  pub inverse_load : AtMost 1000 s.inverse_load

pub weighted_total-AtMost :
    (w : RoutingWeights) (s : RoutingScore)
    → WeightsFit w
    → ScoreFits s
    → AtMost 1000 (weighted_total w s)
unfolding weighted_total
weighted_total-AtMost w s fw fs =
    let q = AtMost-mul 1000 s.quality w.quality fs.quality fw.quality.0 in
    let l = AtMost-mul 1000 s.locality w.locality fs.locality fw.locality.0 in
    let a = AtMost-mul 1000 s.availability w.availability fs.availability fw.availability.0 in
    let f =
      AtMost-mul 1000 s.cache_affinity w.cache_affinity fs.cache_affinity fw.cache_affinity.0 in
    let c = AtMost-mul 1000 s.cost w.cost fs.cost fw.cost.0 in
    let t = AtMost-mul 1000 s.latency w.latency fs.latency fw.latency.0 in
    let i = AtMost-mul 1000 s.inverse_load w.inverse_load fs.inverse_load fw.inverse_load.0 in
    let sum =
      AtMost-add _ _ _ _
        (AtMost-add _ _ _ _
          (AtMost-add _ _ _ _ (AtMost-add _ _ _ _ (AtMost-add _ _ _ _ (AtMost-add _ _ _ _ q l) a) f)
            c)
          t)
        i in
    div_total _ (sum.0, omega (arith, sum.1, fw.total))

pub availability_score-AtMost : (n : ℤ) → neg_part n ≡ 0 → AtMost 1000 (availability_score n)
unfolding availability_score mul64
availability_score-AtMost n h = ground arith

div_bound : (a b : ℕ) → a ≤ b → 0 < b → a * 1000 / b ≤ 1000
div_bound a b h p = grind arith

-- Scaling a part of a positive whole below 2^63 divides without a panic, and gives at most 1000.
pub scale_permille_part :
    (a b : ℕ)
    → a ≤ b
    → 0 < b
    → b < 2 ^ 63
    → (q : ℤ) × (scale_permille (pos a) (pos b) ≡ some q) × AtMost 1000 q
unfolding scale_permille
scale_permille_part a b h p r =
    (pos (a * 1000 / b), ground (arith, div_bound a b), (refl, div_bound a b h p))
