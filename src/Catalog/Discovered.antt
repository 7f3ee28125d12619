-- ===== src/Catalog/Discovered.antt =====
-- provider.go: what DiscoverModels returns.
use fabricrunner.Prelude.{
  ◌≡◌, refl, sym, ap, ◌∙◌, subst, ◌≢◌, inl, inr, false, Option, none, some, List, [], ◌∷◌,
  Option-cases, ||-eq-false, All, ◌==◌, ◌!=◌, Text, text_beq_iff, text_eq, Error, Result, ok, err,
  fail_if, prefix_error, wrap_error, fail_if-ok, prefix_error-ok, wrap_error-ok, ok_injective,
  >>=-eq-ok, >>-eq-ok, equal_of_same, same,
}
use fabricrunner.Strings.{is_untrimmed}
use fabricrunner.Model.{ModelDescriptor, validate_descriptor, contains}
use fabricrunner.Catalog.{Provider, check_catalog, models_of, discover_models}

-- The models of the descriptors differ from each other.
abbrev pub DistinctModels : List ModelDescriptor → Type 0
DistinctModels [] = Unit
DistinctModels (d ∷ ds) = All (λ x. x.ref.model ≢ d.ref.model) ds × DistinctModels ds

abbrev pub IsOffered : Text → ModelDescriptor → Type 0
IsOffered name d = (validate_descriptor d ≡ ok tt) × (d.ref.provider ≡ name)

abbrev Unseen : List Text → List ModelDescriptor → Type 0
Unseen seen ds = All (λ d. contains seen d.ref.model ≡ false) ds

Unseen-head :
    (m : Text) (seen : List Text) (ds : List ModelDescriptor)
    → Unseen (m ∷ seen) ds
    → All (λ d. d.ref.model ≢ m) ds × Unseen seen ds
unfolding contains
Unseen-head m seen [] u = (tt, tt)
Unseen-head m seen (d ∷ ds) u =
    let (differs, old) = ||-eq-false (m == d.ref.model) _ u.0 in
    let (rest, unseen) = Unseen-head m seen ds u.1 in
    ((λ e. cc (sym differs ∙ (text_beq_iff m d.ref.model).1 (sym e)), rest), (old, unseen))

check_catalog-ok :
    (name : Text) (seen : List Text) (ds out : List ModelDescriptor)
    → check_catalog name seen ds ≡ ok out
    → (ds ≡ out) × All (IsOffered name) ds × Unseen seen ds × DistinctModels ds
unfolding check_catalog
check_catalog-ok name seen [] out h = (ok_injective h, tt, tt, tt)
check_catalog-ok name seen (d ∷ ds) out h =
    let (valid, h1) = >>-eq-ok (wrap_error _ (prefix_error "model" (validate_descriptor d))) _ h in
    let (own, h2) = >>-eq-ok (fail_if (d.ref.provider != name) _) _ h1 in
    let (unseen, h3) = >>-eq-ok (fail_if (contains seen d.ref.model) _) _ h2 in
    let (rest, found, h4) = >>=-eq-ok (check_catalog name (d.ref.model ∷ seen) ds) _ h3 in
    let (same, offered, new, distinct) = check_catalog-ok name (d.ref.model ∷ seen) ds rest found in
    let (differ, old) = Unseen-head d.ref.model seen ds new in
    (
      ap (λ l. d ∷ l) same ∙ ok_injective h4,
      (
        (
          prefix_error-ok _ _ (wrap_error-ok _ _ valid),
          equal_of_same d.ref.provider name (fail_if-ok _ _ own),
        ),
        offered,
      ),
      (fail_if-ok _ _ unseen, old),
      (differ, distinct),
    )

models_of-ok :
    (p : Provider) (on_error after : Option Error) (ds : List ModelDescriptor)
    → models_of p on_error after ≡ ok ds
    → p.models ≡ ok ds
unfolding models_of
models_of-ok p on_error after ds h = listed p.models refl
  where
    listed : (r : Result (List ModelDescriptor)) → p.models ≡ r → r ≡ ok ds
    listed (err e) m = absurd (cc (rw (m, models_of) at h))
    listed (ok all) m = elim (Option-cases after) [
      | inl n ↦ rw (m, n, models_of) at h
      | inr (e, s) ↦ absurd (cc (rw (m, s, models_of) at h))
    ]

-- If DiscoverModels succeeds, then it returns just what the provider lists; the provider is there and
-- has a name without surrounding whitespace; each descriptor passes its validation and belongs to
-- the provider; and no two of them have the same model.
pub discover_models-listed :
    (before on_error after : Option Error) (provider : Option Provider) (ds : List ModelDescriptor)
    → discover_models before on_error after provider ≡ ok ds
    → (p : Provider) × (provider ≡ some p)
      × (is_untrimmed p.name ≡ false)
      × (p.models ≡ ok ds)
      × All (IsOffered p.name) ds
      × DistinctModels ds
unfolding discover_models
discover_models-listed (some e) on_error after provider ds h = cc h
discover_models-listed none on_error after none ds h = cc h
discover_models-listed none on_error after (some p) ds h =
    let (named, h1) = >>-eq-ok (fail_if (is_untrimmed p.name) _) _ h in
    let (listed, found, h2) = >>=-eq-ok (models_of p on_error after) _ h1 in
    let (same, offered, unseen, distinct) = check_catalog-ok p.name [] listed ds h2 in
    (
      p,
      refl,
      fail_if-ok _ _ named,
      models_of-ok p on_error after listed found ∙ ap ok same,
      subst (All (IsOffered p.name)) same offered,
      subst DistinctModels same distinct,
    )
