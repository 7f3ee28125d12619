-- ===== src/Engine/Accounting.antt =====
-- loop/engine.go: addUsage on int64 totals, and the budget of a turn.
use fabricrunner.Prelude.{
  ℕ, ◌+◌, ◌^◌, ◌≤◌, ◌<◌, ◌≡◌, refl, ◌⊎◌, inl, inr, true, false, some, arith, ltb, ltb→lt,
  Bool-cases, text_eq, message, ok, err, pos, is_neg, add64, add64_exact, add64_overflow,
}
use fabricrunner.Model.{Usage}
use fabricrunner.Engine.{has_negative, sum_usage, add_usage}

-- The counts of a usage, none of them negative.
abbrev pub usage_of : ℕ → ℕ → ℕ → ℕ → ℕ → Usage
usage_of input output read write cost = record {
  input_tokens = pos input;
  output_tokens = pos output;
  cache_read_tokens = pos read;
  cache_write_tokens = pos write;
  cost = pos cost;
}

abbrev Fit : ℕ → ℕ → Type 0
Fit a b =
    ((a + b < 2 ^ 63) × (add64 (pos a) (pos b) ≡ pos (a + b)))
    ⊎ ((2 ^ 63 ≤ a + b) × (is_neg (add64 (pos a) (pos b)) ≡ true))

not_below : (n m : ℕ) → ltb n m ≡ false → m ≤ n
not_below n m h = ground arith

Fit-cases : (a b : ℕ) → a < 2 ^ 63 → b < 2 ^ 63 → Fit a b
Fit-cases a b ha hb = elim (Bool-cases (ltb (a + b) (2 ^ 63))) [
  | inl t ↦ inl (ltb→lt _ _ t, add64_exact a b (ltb→lt _ _ t))
  | inr f ↦ inr (not_below _ _ f, add64_overflow a b ha hb (not_below _ _ f))
]

module _ (a b c d e : ℕ) (a' b' c' d' e' : ℕ) where
  -- All five exact sums fit int64.
  abbrev pub SumsFit : Type 0
  SumsFit =
      (a + a' < 2 ^ 63)
      × (b + b' < 2 ^ 63)
      × (c + c' < 2 ^ 63)
      × (d + d' < 2 ^ 63)
      × (e + e' < 2 ^ 63)

  overflowed :
      has_negative (sum_usage (usage_of a b c d e) (usage_of a' b' c' d' e')) ≡ true
      → ¬ SumsFit
      → (SumsFit
          × (add_usage (usage_of a b c d e) (some (usage_of a' b' c' d' e'))
              ≡ (usage_of (a + a') (b + b') (c + c') (d + d') (e + e'), ok tt)))
        ⊎ ((¬ SumsFit)
            × ((add_usage (usage_of a b c d e) (some (usage_of a' b' c' d' e'))).1
                ≡ err (message "usage values overflowed")))
  unfolding add_usage has_negative
  overflowed n f = inr (f, rw n refl)

  -- Where the counts are int64 values and not negative, addUsage gives the exact sums if all of them fit
  -- int64, and else the overflow error.
  pub add_usage_exact :
      (a < 2 ^ 63) × (b < 2 ^ 63) × (c < 2 ^ 63) × (d < 2 ^ 63) × (e < 2 ^ 63)
      → (a' < 2 ^ 63) × (b' < 2 ^ 63) × (c' < 2 ^ 63) × (d' < 2 ^ 63) × (e' < 2 ^ 63)
      → (SumsFit
          × (add_usage (usage_of a b c d e) (some (usage_of a' b' c' d' e'))
              ≡ (usage_of (a + a') (b + b') (c + c') (d + d') (e + e'), ok tt)))
        ⊎ ((¬ SumsFit)
            × ((add_usage (usage_of a b c d e) (some (usage_of a' b' c' d' e'))).1
                ≡ err (message "usage values overflowed")))
  unfolding add_usage has_negative sum_usage
  add_usage_exact h h' = elim (Fit-cases a a' h.0 h'.0) [
    | inr (x, n) ↦ overflowed (rw n refl) (λ f. absurd (omega (arith, x, f.0)))
    | inl (fa, ea) ↦ elim (Fit-cases b b' h.1 h'.1) [
      | inr (x, n) ↦ overflowed (rw (ea, n) refl) (λ f. absurd (omega (arith, x, f.1)))
      | inl (fb, eb) ↦ elim (Fit-cases c c' h.2 h'.2) [
        | inr (x, n) ↦ overflowed (rw (ea, eb, n) refl) (λ f. absurd (omega (arith, x, f.2)))
        | inl (fc, ec) ↦ elim (Fit-cases d d' h.3 h'.3) [
          | inr (x, n) ↦ overflowed (rw (ea, eb, ec, n) refl) (λ f. absurd (omega (arith, x, f.3)))
          | inl (fd, ed) ↦ elim (Fit-cases e e' h.4 h'.4) [
            | inr (x, n) ↦
                overflowed (rw (ea, eb, ec, ed, n) refl) (λ f. absurd (omega (arith, x, f.4)))
            | inl (fe, ee) ↦ inl ((fa, fb, fc, fd, fe), rw (ea, eb, ec, ed, ee) refl)
          ]
        ]
      ]
    ]
  ]
