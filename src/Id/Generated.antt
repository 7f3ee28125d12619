-- ===== src/Id/Generated.antt =====
-- id.go: the identifiers that `newIDAt` makes are accepted by `ParseID`.
use Prim.Native.Nat.{bit_and, bit_or}
use fabricrunner.Prelude.{
  ℕ, zero, suc, ◌/◌, ◌%◌, ◌^◌, ◌<◌, ◌≡◌, refl, sym, ap, ◌∙◌, subst, inl, inr, Bool, true, ◌&&◌,
  ◌||◌, some, List, [], ◌∷◌, arith, ltb, leb, eqb, ltb→lt, eqb_iff, Bool-cases, &&-eq-true, get_or,
  All, Text, text_eq, ok, ℤ, is_neg, to_uint64,
}
use fabricrunner.Id.{
  FabricId, from_hex_char, hex_decode, hex_char, hex_encode, check_bits, parse_id, stamp, encode_id,
  new_id_at,
}

abbrev IsByte : ℕ → Type 0
IsByte b = b < 256

digit_back : (n : ℕ) → n < 16 → from_hex_char (hex_char n) ≡ some n
unfolding from_hex_char hex_char
digit_back n h = ground arith

-- `hex.Decode` undoes `hex.Encode`.
pub hex_decode-encode : (bs : List ℕ) → All IsByte bs → hex_decode (hex_encode bs) ≡ some bs
unfolding hex_decode hex_encode
hex_decode-encode [] h = refl
hex_decode-encode (b ∷ bs) h =
    rw
      (
        digit_back (b / 16) (omega (arith, h.0)),
        digit_back (b % 16) (omega arith),
        hex_decode-encode bs h.1,
      )
      (ap (λ x. some (x ∷ bs)) (omega arith))

-- A test that holds at each number below the bound.
abbrev below : ℕ → (ℕ → Bool) → Bool
below zero t = true
below (suc n) t = t n && below n t

below-holds : (n : ℕ) (t : ℕ → Bool) (i : ℕ) → below n t ≡ true → i < n → t i ≡ true
below-holds zero t i h k = absurd (omega (arith, k))
below-holds (suc n) t i h k =
    let (here, rest) = &&-eq-true _ _ h in
    elim (Bool-cases (eqb i n)) [
      | inl e ↦ subst (λ j. t j ≡ true) (sym ((eqb_iff i n).0 e)) here
      | inr e ↦ below-holds n t i rest (ground (arith, e, k))
    ]

abbrev version_byte : ℕ → ℕ
version_byte b = bit_or (bit_and b 0x0f) 0x70

abbrev variant_byte : ℕ → ℕ
variant_byte b = bit_or (bit_and b 0x3f) 0x80

abbrev good_version : ℕ → Bool
good_version b = eqb (version_byte b / 2 ^ 4) 7 && ltb (version_byte b) 256

abbrev good_variant : ℕ → Bool
good_variant b = eqb (bit_and (variant_byte b) 0xc0) 0x80 && ltb (variant_byte b) 256

all_versions : below 256 good_version ≡ true
all_versions = refl

all_variants : below 256 good_variant ≡ true
all_variants = refl

version_good :
    (b : ℕ) → IsByte b → (eqb (version_byte b / 2 ^ 4) 7 ≡ true) × IsByte (version_byte b)
version_good b h =
    let (v, s) =
      &&-eq-true (eqb (version_byte b / 2 ^ 4) 7) (ltb (version_byte b) 256)
        (below-holds 256 good_version b all_versions h) in
    (v, ltb→lt (version_byte b) 256 s)

variant_good :
    (b : ℕ) → IsByte b → (eqb (bit_and (variant_byte b) 0xc0) 0x80 ≡ true) × IsByte (variant_byte b)
variant_good b h =
    let (v, s) =
      &&-eq-true (eqb (bit_and (variant_byte b) 0xc0) 0x80) (ltb (variant_byte b) 256)
        (below-holds 256 good_variant b all_variants h) in
    (v, ltb→lt (variant_byte b) 256 s)

get_or-IsByte : (bs : List ℕ) (i : ℕ) → All IsByte bs → IsByte (get_or bs i 0)
get_or-IsByte [] i h = omega arith
get_or-IsByte (b ∷ bs) zero h = h.0
get_or-IsByte (b ∷ bs) (suc i) h = get_or-IsByte bs i h.1

stamp-IsByte : (ms : ℕ) (raw : List ℕ) → All IsByte raw → All IsByte (stamp ms raw)
unfolding stamp
stamp-IsByte ms raw h =
    let g : (i : ℕ) → IsByte (get_or raw i 0) = λ i. get_or-IsByte raw i h in
    (
      omega arith,
      (
        omega arith,
        (
          omega arith,
          (
            omega arith,
            (
              omega arith,
              (
                omega arith,
                (
                  (version_good (get_or raw 6 0) (g 6)).1,
                  (
                    g 7,
                    (
                      (variant_good (get_or raw 8 0) (g 8)).1,
                      (g 9, (g 10, (g 11, (g 12, (g 13, (g 14, (g 15, tt))))))),
                    ),
                  ),
                ),
              ),
            ),
          ),
        ),
      ),
    )

-- The sixteen bytes without the dashes.
parse_encoded :
    (ms : ℕ) (raw : List ℕ)
    → parse_id (encode_id (stamp ms raw))
      ≡ check_bits (encode_id (stamp ms raw)) (hex_decode (hex_encode (stamp ms raw)))
unfolding parse_id encode_id stamp hex_encode
parse_encoded ms raw = refl

check_bits-stamp :
    (value : Text) (ms : ℕ) (raw : List ℕ)
    → All IsByte raw
    → check_bits value (some (stamp ms raw)) ≡ ok value
unfolding check_bits stamp
check_bits-stamp value ms raw h =
    let g : (i : ℕ) → IsByte (get_or raw i 0) = λ i. get_or-IsByte raw i h in
    rw ((version_good (get_or raw 6 0) (g 6)).0, (variant_good (get_or raw 8 0) (g 8)).0)

-- An identifier that `newIDAt` makes from entropy bytes parses to itself.
pub new_id_at-parses :
    (millis : ℤ) (raw : List ℕ) (id : FabricId)
    → All IsByte raw
    → new_id_at millis (ok raw) ≡ ok id
    → parse_id id ≡ ok id
unfolding new_id_at
new_id_at-parses millis raw id h e =
    elim (Bool-cases (is_neg millis || leb (2 ^ 48) (to_uint64 millis))) [
      | inl out ↦ cc (rw out at e)
      | inr within ↦
          let made : encode_id (stamp (to_uint64 millis) raw) ≡ id = cc (rw within at e) in
          subst (λ s. parse_id s ≡ ok s) made
            (parse_encoded (to_uint64 millis) raw
              ∙ rw
                  (hex_decode-encode (stamp (to_uint64 millis) raw)
                    (stamp-IsByte (to_uint64 millis) raw h))
                  (check_bits-stamp _ (to_uint64 millis) raw h))
    ]
