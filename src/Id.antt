-- ===== src/Id.antt =====
-- id.go: UUIDv7 identifiers. An ID is a text; the byte slices of the code are lists of numbers.
-- The clock and the entropy reader are arguments: the Unix time in milliseconds, and what
-- `io.ReadFull` returned for the sixteen bytes asked for.
pub mod Generated
pub mod Order
mod Examples
use Prim.Native.Nat.{bit_and, bit_or}
use fabricrunner.Prelude.{
  ℕ, zero, suc, ◌+◌, ◌-◌, ◌*◌, ◌/◌, ◌%◌, ◌^◌, ◌≤◌, ◌<◌, String, ◌≡◌, refl, sym, ap, ◌∙◌, subst, ◌≢◌,
  ◌↔◌, ◌⊎◌, inl, inr, Bool, true, false, not, ◌&&◌, ◌||◌, Option, none, some, List, [], ◌∷◌, ◌++◌,
  map, arith, ltb, leb, eqb, if◌then◌else◌, ltb→lt, lt→ltb, eqb_iff, eqb_refl, Bool-cases,
  Option-cases, &&-eq-true, ||-eq-false, is_some, length, is_empty, get_elem?, get_or, take, drop,
  length-append, drop-length_append, All, All-append, length-map, Eq, ◌==◌, ◌!=◌, holds, holds_iff,
  eq_of_discrete, Text, text, text_beq, text_beq_iff, Text-discrete, text_eq, text_ltb, Sentinel,
  Error, sentinel, message, prefixed, wrap, errors_is, Result, ok, err, Check, ◌>>=◌, ◌>>◌, fail_if,
  prefix_error, wrap_error, fail_if-ok, prefix_error-ok, >>=-eq-ok, >>-eq-ok, all_checks, passed,
  all_checks-pass, prefix_error-pass, equal_of_same, same, holds_of_not, holds_refl,
  Sentinel-discrete, fail_if-pass, ℤ, pos, negsuc, ℤ-discrete, pos_part, neg_part, ◌+ℤ◌, ◌-ℤ◌, ◌*ℤ◌,
  ◌≤ℤ◌, ◌<ℤ◌, ltb_ℤ, is_neg, +ℤ_parts, -ℤ_parts, eq_of_parts, int_laws, eq-pos_of_not-neg,
  to_uint64, of_uint64, add64, sub64, mul64, add64_exact, add64_overflow,
}

-- `type ID string`
abbrev pub FabricId : Type 0
FabricId = Text

abbrev pub dash : ℕ
dash = b'-'

-- The value of one hexadecimal digit, of either case (`encoding/hex`).
unfoldable pub from_hex_char : ℕ → Option ℕ
from_hex_char c =
    if leb b'0' c && leb c b'9'
    then some (c - b'0')
    else if leb b'a' c && leb c b'f'
    then some (c - b'a' + 10)
    else if leb b'A' c && leb c b'F'
    then some (c - b'A' + 10)
    else none

-- Two digits as a byte.
abbrev pub join_nibbles : Option ℕ → Option ℕ → Option ℕ
join_nibbles (some a) (some b) = some (16 * a + b)
join_nibbles _ _ = none

abbrev cons_byte : Option ℕ → Option (List ℕ) → Option (List ℕ)
cons_byte (some b) (some bs) = some (b ∷ bs)
cons_byte _ _ = none

-- `hex.Decode`: none on an odd length or on a character that is no digit.
unfoldable pub hex_decode : Text → Option (List ℕ)
unfolding from_hex_char
hex_decode [] = some []
hex_decode (a ∷ []) = none
hex_decode (a ∷ b ∷ cs) =
    cons_byte (join_nibbles (from_hex_char a) (from_hex_char b)) (hex_decode cs)

unfoldable pub hex_char : ℕ → ℕ
hex_char n = if ltb n 10 then b'0' + n else b'a' + (n - 10)

-- `hex.Encode`, in lower case.
unfoldable pub hex_encode : List ℕ → Text
unfolding hex_char
hex_encode [] = []
hex_encode (b ∷ bs) = hex_char (b / 16) ∷ hex_char (b % 16) ∷ hex_encode bs

-- `value[from:to]`
abbrev pub slice : ℕ → ℕ → Text → Text
slice from to value = take (to - from) (drop from value)

-- `value[i]`; a read out of range does not occur, for the length is tested first.
abbrev at : Text → ℕ → ℕ
at value i = get_or value i 0

abbrev pub invalid_id : String → Error
invalid_id why = wrap (sentinel Sentinel.invalid_id) (message why)

-- The version and variant bits of the decoded bytes.
unfoldable pub check_bits : Text → Option (List ℕ) → Result FabricId
check_bits value none = err (invalid_id "invalid byte")
check_bits value (some raw) =
    if not (eqb (get_or raw 6 0 / 2 ^ 4) 7)
    then err (invalid_id "UUID version is not 7")
    else if not (eqb (bit_and (get_or raw 8 0) 0xc0) 0x80)
    then err (invalid_id "UUID variant is not RFC 9562")
    else ok value

abbrev compact : Text → Text
compact value =
    slice 0 8 value
    ++ (slice 9 13 value ++ (slice 14 18 value ++ (slice 19 23 value ++ slice 24 36 value)))

unfoldable pub parse_id : Text → Result FabricId
unfolding hex_decode check_bits
parse_id value =
    if not (eqb (length value) 36)
      || not (eqb (at value 8) dash)
      || not (eqb (at value 13) dash)
      || not (eqb (at value 18) dash)
      || not (eqb (at value 23) dash)
    then err (invalid_id "malformed UUID")
    else check_bits value (hex_decode (compact value))

-- The six time bytes, the version and the variant over sixteen random bytes.
unfoldable pub stamp : ℕ → List ℕ → List ℕ
stamp ms raw =
    ms / 2 ^ 40 % 256
    ∷ ms / 2 ^ 32 % 256
    ∷ ms / 2 ^ 24 % 256
    ∷ ms / 2 ^ 16 % 256
    ∷ ms / 2 ^ 8 % 256
    ∷ ms % 256
    ∷ bit_or (bit_and (get_or raw 6 0) 0x0f) 0x70
    ∷ get_or raw 7 0
    ∷ bit_or (bit_and (get_or raw 8 0) 0x3f) 0x80
    ∷ get_or raw 9 0
    ∷ get_or raw 10 0
    ∷ get_or raw 11 0
    ∷ get_or raw 12 0
    ∷ get_or raw 13 0
    ∷ get_or raw 14 0
    ∷ get_or raw 15 0
    ∷ []

-- The five groups of digits with the dashes between them.
unfoldable pub encode_id : List ℕ → FabricId
unfolding hex_encode
encode_id raw =
    hex_encode (take 4 raw)
    ++ (dash ∷ hex_encode (take 2 (drop 4 raw))
        ++ (dash ∷ hex_encode (take 2 (drop 6 raw))
            ++ (dash ∷ hex_encode (take 2 (drop 8 raw)) ++ (dash ∷ hex_encode (drop 10 raw)))))

unfoldable pub new_id_at : ℤ → Result (List ℕ) → Result FabricId
unfolding stamp encode_id
new_id_at millis entropy =
    if is_neg millis || leb (2 ^ 48) (to_uint64 millis)
    then err (invalid_id "timestamp outside UUIDv7 range")
    else do raw ← prefix_error "create ID" entropy; ok (encode_id (stamp (to_uint64 millis) raw))

unfoldable pub is_zero_id : FabricId → Bool
is_zero_id id = is_empty id

abbrev forget : Result FabricId → Check
forget (ok id) = ok tt
forget (err e) = err e

unfoldable pub validate_id : FabricId → Check
unfolding is_zero_id parse_id
validate_id id = if is_zero_id id then err (invalid_id "empty") else forget (parse_id id)

-- A well-formed identifier, as an example.
abbrev pub sample_id : FabricId
sample_id = text "018f3c00-0000-7000-8000-00000000000a"

pub sample_id-validates : validate_id sample_id ≡ ok tt
unfolding validate_id
sample_id-validates = refl
