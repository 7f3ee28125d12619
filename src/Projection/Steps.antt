-- ===== src/Projection/Steps.antt =====
-- projection.go: the map of the steps.
use fabricrunner.Prelude.{
  ◌≡◌, refl, sym, ap, ◌∙◌, subst, ◌≢◌, ◌⊎◌, inl, inr, true, false, some, [], ◌∷◌, arith, Bool-cases,
  is_some, ◌==◌, Text, text_beq_iff, Text-discrete, text_eq,
}
use fabricrunner.Id.{FabricId}
use fabricrunner.Domain.{Step}
use fabricrunner.Projection.{Steps, find_step, put_step}

pub find_step-put_step :
    (id : FabricId) (s : Step) (steps : Steps) → find_step id (put_step id s steps) ≡ some s
unfolding find_step put_step
find_step-put_step id s [] = rw ((text_beq_iff id id).1 refl)
find_step-put_step id s ((k, old) ∷ rest) = elim (Bool-cases (k == id)) [
  | inl e ↦ rw e (rw e refl)
  | inr e ↦ rw e (rw e (find_step-put_step id s rest))
]

pub find_step-put_step_other :
    (id other : FabricId) (s : Step) (steps : Steps)
    → id ≢ other
    → find_step other (put_step id s steps) ≡ find_step other steps
unfolding find_step put_step
find_step-put_step_other id other s [] h = elim (Bool-cases (id == other)) [
  | inl e ↦ absurd (h ((text_beq_iff id other).0 e))
  | inr e ↦ rw e refl
]
find_step-put_step_other id other s ((k, old) ∷ rest) h = elim (Bool-cases (k == id)) [
  | inl e ↦ rw e (ground (arith, differs k e))
  | inr e ↦ rw e (ground (arith, find_step-put_step_other id other s rest h))
]
  where
    differs : (k : Text) → (k == id) ≡ true → (k == other) ≡ false
    differs k e = elim (Bool-cases (k == other)) [
      | inl o ↦ absurd (h (sym ((text_beq_iff k id).0 e) ∙ (text_beq_iff k other).0 o))
      | inr o ↦ o
    ]

-- A step that is found after a write is the one written, or was there.
pub find_step-cases :
    (id other : FabricId) (s t : Step) (steps : Steps)
    → find_step other (put_step id s steps) ≡ some t
    → ((id ≡ other) × (t ≡ s)) ⊎ ((id ≢ other) × (find_step other steps ≡ some t))
find_step-cases id other s t steps h = elim (Text-discrete id other) [
  | yes e ↦ inl (
    e,
    some_injective (
        sym h
        ∙ ap (λ k. find_step k (put_step id s steps)) (sym e)
        ∙ find_step-put_step id s steps),
  )
  | no n ↦ inr (n, sym (find_step-put_step_other id other s steps n) ∙ h)
]
  where
    some_injective : {a b : Step} → some a ≡ some b → a ≡ b
    some_injective e = cc

-- A write keeps every step present.
pub is_some-put_step :
    (id other : FabricId) (s : Step) (steps : Steps)
    → is_some (find_step other steps) ≡ true
    → is_some (find_step other (put_step id s steps)) ≡ true
is_some-put_step id other s steps h = elim (Text-discrete id other) [
  | yes e ↦
      subst (λ k. is_some (find_step k (put_step id s steps)) ≡ true) e
        (ap is_some (find_step-put_step id s steps))
  | no n ↦ ap is_some (find_step-put_step_other id other s steps n) ∙ h
]
