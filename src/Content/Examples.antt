-- ===== src/Content/Examples.antt =====
-- The theorem on the class of a manifest at a manifest with two items.
use mathlib.Core.List.{Memᴰ}
use fabricrunner.Prelude.{◌≡◌, refl, ◌⊎◌, [], ◌∷◌, All, text, text_eq, ok, all_checks, pos}
use fabricrunner.Domain.{public, internal, confidential, other_class}
use fabricrunner.Content.{
  ContentItem, ContentManifest, effective_class, validate_manifest, manifest_class,
}
use fabricrunner.Content.Highest.{AtMostClass, manifest_class_highest}

abbrev labelled : ContentItem
labelled = record {
  sha256 = text "00112233445566778899aabbccddeeff00112233445566778899aabbccddeeff";
  media_type = text "text/plain";
  size_bytes = pos 12;
  classification = internal;
}

abbrev unlabelled : ContentItem
unlabelled = record {
  sha256 = text "ffffffffffffffffffffffffffffffffffffffffffffffffffffffffffffffff";
  media_type = text "image/png";
  size_bytes = pos 0;
  classification = other_class [];
}

abbrev two_items : ContentManifest
two_items = record { items = labelled ∷ unlabelled ∷ [] }

two_items-class : manifest_class two_items ≡ ok confidential
unfolding manifest_class all_checks
two_items-class = refl

manifest_class_highest_example :
    (validate_manifest two_items ≡ ok tt)
    × All (λ i. AtMostClass (effective_class i) confidential) two_items.items
    × ((confidential ≡ public)
        ⊎ ((i : ContentItem) × Memᴰ i two_items.items × (confidential ≡ effective_class i)))
manifest_class_highest_example = manifest_class_highest two_items confidential two_items-class
