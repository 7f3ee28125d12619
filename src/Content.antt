-- ===== src/Content.antt =====
-- policy.go: content items and manifests. `crypto/sha256` is the argument `sha256`, from bytes to
-- bytes.
pub mod Highest
mod Examples
use fabricrunner.Prelude.{
  ℕ, zero, suc, ◌+◌, ◌-◌, ◌*◌, ◌/◌, ◌%◌, ◌^◌, ◌≤◌, ◌<◌, String, ◌≡◌, refl, sym, ap, ◌∙◌, subst, ◌≢◌,
  ◌↔◌, ◌⊎◌, inl, inr, Bool, true, false, not, ◌&&◌, ◌||◌, Option, none, some, List, [], ◌∷◌, ◌++◌,
  map, arith, ltb, leb, eqb, if◌then◌else◌, ltb→lt, lt→ltb, eqb_iff, eqb_refl, Bool-cases,
  Option-cases, &&-eq-true, ||-eq-false, is_some, length, is_empty, get_elem?, get_or, take, drop,
  length-append, drop-length_append, All, All-append, length-map, Eq, ◌==◌, ◌!=◌, holds, holds_iff,
  eq_of_discrete, Text, text, text_beq, text_beq_iff, Text-discrete, text_eq, text_ltb, Sentinel,
  Error, sentinel, message, prefixed, wrap, errors_is, Result, ok, err, Check, ◌>>=◌, ◌>>◌, fail_if,
  prefix_error, wrap_error, fail_if-ok, prefix_error-ok, >>=-eq-ok, >>-eq-ok, all_checks, passed,
  all_checks-pass, prefix_error-pass, equal_of_same, same, holds_of_not, holds_refl,
  Sentinel-discrete, fail_if-pass, ℤ, pos, negsuc, ℤ-discrete, pos_part, neg_part, ◌+ℤ◌, ◌-ℤ◌, ◌*ℤ◌,
  ◌≤ℤ◌, ◌<ℤ◌, ltb_ℤ, is_neg, +ℤ_parts, -ℤ_parts, eq_of_parts, int_laws, eq-pos_of_not-neg,
  to_uint64, of_uint64, add64, sub64, mul64, add64_exact, add64_overflow,
}
use fabricrunner.Id.{hex_encode}
use fabricrunner.Strings.{is_blank, validate_sha256}
use fabricrunner.Domain.{
  Classification, public, internal, confidential, secret, other_class, validate_class,
}
use fabricrunner.Model.{contains}

pub record ContentItem : Type 0 where
  pub sha256 : Text
  pub media_type : Text
  pub size_bytes : ℤ
  pub classification : Classification

-- `classification == ""`
unfoldable pub is_unlabelled : Classification → Bool
is_unlabelled (other_class s) = is_empty s
is_unlabelled _ = false

unfoldable pub validate_item : ContentItem → Check
unfolding is_unlabelled validate_class is_blank validate_sha256
validate_item item = all_checks (
    validate_sha256 item.sha256
    ∷ fail_if (is_blank item.media_type) (message "content media type is required")
    ∷ fail_if (is_neg item.size_bytes) (message "content size cannot be negative")
    ∷ (if is_unlabelled item.classification then ok tt else validate_class item.classification)
    ∷ [])

unfoldable pub effective_class : ContentItem → Classification
unfolding is_unlabelled
effective_class item =
    if is_unlabelled item.classification then confidential else item.classification

pub record ContentManifest : Type 0 where
  pub items : List ContentItem

-- The loop of `ContentManifest.Validate`, with the digests seen so far.
validate_items : List Text → List ContentItem → Check
unfolding contains validate_item text_beq
validate_items seen [] = ok tt
validate_items seen (item ∷ items) = do
  prefix_error "content item" (validate_item item)
  fail_if (contains seen item.sha256) (message "content item duplicates SHA-256")
  validate_items (item.sha256 ∷ seen) items

unfoldable pub validate_manifest : ContentManifest → Check
unfolding validate_items
validate_manifest m = all_checks (
    fail_if (is_empty m.items) (message "content manifest cannot be empty")
    ∷ validate_items [] m.items
    ∷ [])

unfoldable pub classification_rank : Classification → ℤ
classification_rank public = pos 0
classification_rank internal = pos 1
classification_rank confidential = pos 2
classification_rank secret = pos 3
classification_rank (other_class s) = negsuc 0

-- The loop of `ContentManifest.EffectiveClassification`.
unfoldable pub raise_class : Classification → List ContentItem → Classification
unfolding classification_rank effective_class
raise_class result [] = result
raise_class result (item ∷ items) =
    raise_class
      (if ltb_ℤ (classification_rank result) (classification_rank (effective_class item))
        then effective_class item
        else result)
      items

unfoldable pub manifest_class : ContentManifest → Result Classification
unfolding validate_manifest raise_class
manifest_class m = do validate_manifest m; ok (raise_class public m.items)

-- The bytes of the constants.
unfoldable pub class_text : Classification → Text
class_text public = text "public"
class_text internal = text "internal"
class_text confidential = text "confidential"
class_text secret = text "secret"
class_text (other_class s) = s

-- `binary.BigEndian.PutUint64`
unfoldable pub put_uint64 : ℕ → List ℕ
put_uint64 n =
    n / 2 ^ 56 % 256
    ∷ n / 2 ^ 48 % 256
    ∷ n / 2 ^ 40 % 256
    ∷ n / 2 ^ 32 % 256
    ∷ n / 2 ^ 24 % 256
    ∷ n / 2 ^ 16 % 256
    ∷ n / 2 ^ 8 % 256
    ∷ n % 256
    ∷ []

-- `writeDigestString`
unfoldable pub digest_string : Text → List ℕ
unfolding put_uint64
digest_string value = put_uint64 (length value) ++ value

unfoldable pub digest_item : ContentItem → List ℕ
unfolding digest_string class_text
digest_item item =
    digest_string item.sha256
    ++ (digest_string item.media_type
        ++ (put_uint64 (to_uint64 item.size_bytes)
            ++ digest_string (class_text item.classification)))

unfoldable pub digest_items : List ContentItem → List ℕ
unfolding digest_item
digest_items [] = []
digest_items (item ∷ items) = digest_item item ++ digest_items items

-- What `digestUnchecked` writes to the hash.
unfoldable pub digest_input : ContentManifest → List ℕ
unfolding digest_items
digest_input m = text "fabricrunner.content-manifest.v1" ++ (0 ∷ digest_items m.items)

module _ (sha256 : List ℕ → List ℕ) where
  unfoldable pub digest_unchecked : ContentManifest → Text
  unfolding digest_input hex_encode
  digest_unchecked m = hex_encode (sha256 (digest_input m))

  unfoldable pub manifest_digest : ContentManifest → Result Text
  unfolding digest_unchecked
  manifest_digest m = do validate_manifest m; ok (digest_unchecked m)
