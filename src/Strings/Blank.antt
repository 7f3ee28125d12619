-- ===== src/Strings/Blank.antt =====
-- package strings: texts that `TrimSpace` does not empty.
use mathlib.Core.List.{reverse, reverse-cons}
use fabricrunner.Prelude.{
  ℕ, ◌<◌, ◌≡◌, refl, inl, inr, Bool, true, false, [], ◌∷◌, ◌++◌, arith, if◌then◌else◌, Bool-cases,
  is_empty, Text, text_eq,
}
use fabricrunner.Strings.{skip_space, trim_space, is_blank, is_space, is_space_two, is_space_three}

empty_reverse : (s : Text) → is_empty s ≡ false → is_empty (reverse s) ≡ false
empty_reverse [] h = h
empty_reverse (a ∷ s) h = rw reverse-cons (append_full (reverse s) a)
  where
    append_full : (xs : Text) (x : ℕ) → is_empty (xs ++ x ∷ []) ≡ false
    append_full [] x = refl
    append_full (y ∷ ys) x = refl

-- The tests in the order of the reversed text.
abbrev two_back : ℕ → ℕ → Bool
two_back b a = is_space_two a b

abbrev three_back : ℕ → ℕ → ℕ → Bool
three_back c b a = is_space_three a b c

-- The ladder of `skip_space` gives a text with bytes where each branch does.
stays_full :
    (t u v : Bool) (w x y z : Text)
    → is_empty w ≡ false
    → is_empty x ≡ false
    → is_empty y ≡ false
    → is_empty z ≡ false
    → is_empty (if t then w else if u then x else if v then y else z) ≡ false
stays_full true u v w x y z hw hx hy hz = hw
stays_full false true v w x y z hw hx hy hz = hx
stays_full false false true w x y z hw hx hy hz = hy
stays_full false false false w x y z hw hx hy hz = hz

-- An ASCII byte that is no space is never dropped from the end of the reversed text.
module _ (a : ℕ) (ascii : a < 128) (solid : is_space a ≡ false) where
  two_kept : (x : ℕ) → two_back x a ≡ false
  two_kept x = ground arith

  three_kept : (x y : ℕ) → three_back x y a ≡ false
  three_kept x y = ground arith

  skip_keeps : (xs : Text) → is_empty (skip_space two_back three_back (xs ++ a ∷ [])) ≡ false
  unfolding skip_space
  skip_keeps [] = rw solid
  skip_keeps (x ∷ []) = elim (Bool-cases (is_space x)) [
    | inl e ↦ rw (e, solid)
    | inr e ↦ rw (e, two_kept x)
  ]
  skip_keeps (x ∷ y ∷ []) = rw (three_kept x y) (
      stays_full (is_space x) (two_back x y) false _ _ (x ∷ []) (x ∷ y ∷ a ∷ [])
        (skip_keeps (y ∷ [])) (rw solid) refl refl)
  skip_keeps (x ∷ y ∷ z ∷ s) =
      stays_full (is_space x) (two_back x y) (three_back x y z) _ _ _ _ (skip_keeps (y ∷ z ∷ s))
        (skip_keeps (z ∷ s)) (skip_keeps s) refl

  skip_front : (s : Text) → skip_space is_space_two is_space_three (a ∷ s) ≡ a ∷ s
  unfolding skip_space
  skip_front [] = ground arith
  skip_front (b ∷ []) = ground arith
  skip_front (b ∷ c ∷ s) = ground arith

  -- A text that begins with such a byte is not blank.
  pub not_blank : (s : Text) → is_blank (a ∷ s) ≡ false
  unfolding is_blank trim_space
  not_blank s = rw (skip_front s, reverse-cons a s) (empty_reverse _ (skip_keeps (reverse s)))
