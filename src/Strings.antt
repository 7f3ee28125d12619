-- ===== src/Strings.antt =====
-- What the code uses of package strings, on the bytes of a text, and validateSHA256 of policy.go.
pub mod Blank
use mathlib.Core.List.{reverse}
use fabricrunner.Prelude.{
  ℕ, zero, suc, ◌+◌, ◌-◌, ◌*◌, ◌/◌, ◌%◌, ◌^◌, ◌≤◌, ◌<◌, String, ◌≡◌, refl, sym, ap, ◌∙◌, subst, ◌≢◌,
  ◌↔◌, ◌⊎◌, inl, inr, Bool, true, false, not, ◌&&◌, ◌||◌, Option, none, some, List, [], ◌∷◌, ◌++◌,
  map, arith, ltb, leb, eqb, if◌then◌else◌, ltb→lt, lt→ltb, eqb_iff, eqb_refl, Bool-cases,
  Option-cases, &&-eq-true, ||-eq-false, is_some, length, is_empty, get_elem?, get_or, take, drop,
  length-append, drop-length_append, All, All-append, length-map, Eq, ◌==◌, ◌!=◌, holds, holds_iff,
  eq_of_discrete, Text, text, text_beq, text_beq_iff, Text-discrete, text_eq, text_ltb, Sentinel,
  Error, sentinel, message, prefixed, wrap, errors_is, Result, ok, err, Check, ◌>>=◌, ◌>>◌, fail_if,
  prefix_error, wrap_error, fail_if-ok, prefix_error-ok, >>=-eq-ok, >>-eq-ok, all_checks, passed,
  all_checks-pass, prefix_error-pass, equal_of_same, same, holds_of_not, holds_refl,
  Sentinel-discrete, fail_if-pass, ℤ, pos, negsuc, ℤ-discrete, pos_part, neg_part, ◌+ℤ◌, ◌-ℤ◌, ◌*ℤ◌,
  ◌≤ℤ◌, ◌<ℤ◌, ltb_ℤ, is_neg, +ℤ_parts, -ℤ_parts, eq_of_parts, int_laws, eq-pos_of_not-neg,
  to_uint64, of_uint64, add64, sub64, mul64, add64_exact, add64_overflow,
}
use fabricrunner.Id.{hex_decode}

-- `unicode.IsSpace` for a rune of one, two and three bytes of UTF-8: U+0009 to U+000D and U+0020;
-- U+0085 and U+00A0; U+1680, U+2000 to U+200A, U+2028, U+2029, U+202F, U+205F and U+3000.
abbrev pub is_space : ℕ → Bool
is_space a = leb 9 a && leb a 13 || eqb a 32

abbrev is_space_two : ℕ → ℕ → Bool
is_space_two a b = eqb a 0xc2 && (eqb b 0x85 || eqb b 0xa0)

abbrev is_space_three : ℕ → ℕ → ℕ → Bool
is_space_three a b c =
    eqb a 0xe1 && (eqb b 0x9a && eqb c 0x80)
    || (eqb a 0xe2
          && eqb b 0x80
          && (leb 0x80 c && leb c 0x8a || (eqb c 0xa8 || (eqb c 0xa9 || eqb c 0xaf)))
        || (eqb a 0xe2 && (eqb b 0x81 && eqb c 0x9f) || eqb a 0xe3 && (eqb b 0x80 && eqb c 0x80)))

-- Drops the spaces in front; the tests are given, so that it serves the reversed text too.
unfoldable pub skip_space : (ℕ → ℕ → Bool) → (ℕ → ℕ → ℕ → Bool) → Text → Text
skip_space two three [] = []
skip_space two three (a ∷ []) = if is_space a then [] else a ∷ []
skip_space two three (a ∷ b ∷ []) =
    let after_one = skip_space two three (b ∷ []) in
    if is_space a then after_one else if two a b then [] else a ∷ b ∷ []
skip_space two three (a ∷ b ∷ c ∷ s) =
    let after_one = skip_space two three (b ∷ c ∷ s) in
    let after_two = skip_space two three (c ∷ s) in
    let after_three = skip_space two three s in
    if is_space a
    then after_one
    else if two a b
    then after_two
    else if three a b c
    then after_three
    else a ∷ b ∷ c ∷ s

-- `strings.TrimSpace`
unfoldable pub trim_space : Text → Text
unfolding skip_space
trim_space s = reverse (
    skip_space (λ b a. is_space_two a b) (λ c b a. is_space_three a b c)
      (reverse (skip_space is_space_two is_space_three s)))

-- `strings.TrimSpace(s) == ""`
unfoldable pub is_blank : Text → Bool
unfolding trim_space
is_blank s = is_empty (trim_space s)

-- `strings.TrimSpace(s) == "" || s != strings.TrimSpace(s)`
unfoldable pub is_untrimmed : Text → Bool
unfolding trim_space text_beq
is_untrimmed s = is_empty (trim_space s) || s != trim_space s

-- `strings.ToLower` on ASCII text.
unfoldable pub to_lower : Text → Text
to_lower s = map (λ c. if leb b'A' c && leb c b'Z' then c + 32 else c) s

unfoldable pub validate_sha256 : Text → Check
unfolding hex_decode to_lower text_beq
validate_sha256 value = all_checks (
    fail_if (not (eqb (length value) 64)) (message "must contain 64 hexadecimal characters")
    ∷ fail_if (not (is_some (hex_decode value))) (message "invalid hexadecimal")
    ∷ fail_if (value != to_lower value) (message "must use lowercase hexadecimal")
    ∷ [])

trims : trim_space (text "  a b  ") ≡ text "a b"
unfolding trim_space
trims = refl
