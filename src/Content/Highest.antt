-- ===== src/Content/Highest.antt =====
-- policy.go: `EffectiveClassification` of a manifest.
use mathlib.Core.List.{Memᴰ}
use fabricrunner.Prelude.{
  ◌≡◌, refl, ◌∙◌, subst, ◌⊎◌, inl, inr, List, [], ◌∷◌, arith, if◌then◌else◌, Bool-cases, All,
  text_eq, ok, >>-eq-ok, ◌≤ℤ◌, ltb_ℤ,
}
use fabricrunner.Domain.{Classification, public}
use fabricrunner.Content.{
  ContentItem, ContentManifest, classification_rank, effective_class, validate_manifest,
  raise_class, manifest_class,
}

-- The first class ranks below the second, or beside it.
abbrev pub AtMostClass : Classification → Classification → Type 0
AtMostClass a b = classification_rank a ≤ℤ classification_rank b

raised : Classification → Classification → Classification
raised a b = if ltb_ℤ (classification_rank a) (classification_rank b) then b else a

raised-above : (a b : Classification) → AtMostClass a (raised a b) × AtMostClass b (raised a b)
unfolding raised
raised-above a b = elim (Bool-cases (ltb_ℤ (classification_rank a) (classification_rank b))) [
  | inl e ↦ rw e (ground arith, omega arith)
  | inr e ↦ rw e (omega arith, ground arith)
]

raised-cases : (a b : Classification) → (raised a b ≡ a) ⊎ (raised a b ≡ b)
unfolding raised
raised-cases a b = elim (Bool-cases (ltb_ℤ (classification_rank a) (classification_rank b))) [
  | inl e ↦ rw e (inr refl)
  | inr e ↦ rw e (inl refl)
]

raise_class-above :
    (result : Classification) (items : List ContentItem)
    → AtMostClass result (raise_class result items)
      × All (λ i. AtMostClass (effective_class i) (raise_class result items)) items
unfolding raise_class raised
raise_class-above result [] = (omega arith, tt)
raise_class-above result (item ∷ items) =
    let (first, rest) = raise_class-above (raised result (effective_class item)) items in
    let (l, r) = raised-above result (effective_class item) in
    (omega (arith, l, first), (omega (arith, r, first), rest))

raise_class-attained :
    (result : Classification) (items : List ContentItem)
    → (raise_class result items ≡ result)
      ⊎ ((i : ContentItem) × Memᴰ i items × (raise_class result items ≡ effective_class i))
unfolding raise_class raised
raise_class-attained result [] = inl refl
raise_class-attained result (item ∷ items) =
    elim (raise_class-attained (raised result (effective_class item)) items) [
      | inr (i, m, e) ↦ inr (i, Memᴰ.tail m, e)
      | inl e ↦ elim (raised-cases result (effective_class item)) [
        | inl l ↦ inl (e ∙ l)
        | inr r ↦ inr (item, Memᴰ.head refl, e ∙ r)
      ]
    ]

-- If `EffectiveClassification` returns a class, the manifest is valid, no item of it has a class
-- that ranks higher, and the class is that of an item, or public.
pub manifest_class_highest :
    (m : ContentManifest) (class : Classification)
    → manifest_class m ≡ ok class
    → (validate_manifest m ≡ ok tt)
      × All (λ i. AtMostClass (effective_class i) class) m.items
      × ((class ≡ public) ⊎ ((i : ContentItem) × Memᴰ i m.items × (class ≡ effective_class i)))
unfolding manifest_class
manifest_class_highest m class h =
    let (valid, k) = >>-eq-ok (validate_manifest m) (ok (raise_class public m.items)) h in
    let e : raise_class public m.items ≡ class = cc k in
    (
      valid,
      subst (λ c. All (λ i. AtMostClass (effective_class i) c) m.items) e
          (raise_class-above public m.items).1,
      subst (λ c. (c ≡ public) ⊎ ((i : ContentItem) × Memᴰ i m.items × (c ≡ effective_class i))) e
          (raise_class-attained public m.items),
    )
