-- ===== src/Prelude/Equality.antt =====
-- Go's `==` on comparable types, as an interface; text and its order.
use Prim.Native.Nat.{ℕ}
use Prim.Native.Char.{code}
use Prim.Native.String.{String}
use mathlib.Core.Path.{◌≡◌, refl}
use mathlib.Core.Bool.{Bool, true, false, ◌&&◌, ◌||◌, not}
use mathlib.Core.Logic.{◌↔◌}
use mathlib.Core.List.{List, [], ◌∷◌}
use native.Mathlib.Omega.{arith}
use fabricrunner.Prelude.Tests.{ltb, eqb}

pub record Eq {ℓ} (A : Type ℓ) : Type ℓ where
  pub test : A → A → Bool
  pub agrees : (a b : A) → (test a b ≡ true) ↔ (a ≡ b)

infix 50 ◌==◌ ◌!=◌
abbrev pub ◌==◌ {ℓ} : {A : Type ℓ} ⦃eq : Eq A⦄ → A → A → Bool
◌==◌ ⦃eq⦄ = eq.test

abbrev pub ◌!=◌ {ℓ} : {A : Type ℓ} ⦃e : Eq A⦄ → A → A → Bool
a != b = not (a == b)

abbrev pub holds {ℓ} : {B : Type ℓ} → Dec B → Bool
holds (yes p) = true
holds (no p) = false

pub holds_iff {ℓ} : {B : Type ℓ} (d : Dec B) → (holds d ≡ true) ↔ B
holds_iff (yes p) = (λ _. p, λ _. refl)
holds_iff (no p) = (λ e. absurd (cc), λ b. absurd (p b))

abbrev pub eq_of_discrete {ℓ} : {A : Type ℓ} → Discrete A → Eq A
eq_of_discrete dec = record { test = λ a b. holds (dec a b); agrees = λ a b. holds_iff (dec a b) }

-- What does not differ is equal, and nothing differs from itself.
pub equal_of_same {ℓ} : {A : Type ℓ} ⦃e : Eq A⦄ (a b : A) → (a != b) ≡ false → a ≡ b
equal_of_same ⦃e⦄ a b h = (e.agrees a b).0 (ground arith)

pub same {ℓ} : {A : Type ℓ} ⦃e : Eq A⦄ (a : A) → (a != a) ≡ false
same ⦃e⦄ a = rw ((e.agrees a a).1 refl)

pub holds_of_not {ℓ} : {B : Type ℓ} (d : Dec B) → not (holds d) ≡ false → B
holds_of_not (yes p) h = p
holds_of_not (no p) h = cc

pub holds_refl {ℓ} : {A : Type ℓ} (dec : Discrete A) (a : A) → holds (dec a a) ≡ true
holds_refl dec a = (holds_iff (dec a a)).1 refl

-- A Go string is its bytes.
abbrev pub Text : Type 0
Text = List ℕ

-- The bytes of an ASCII literal. `String` has its own `[]` and `∷`.
abbrev pub text : String → Text
text String.[] = []
text (String.◌∷◌ c s) = code c ∷ text s

unfoldable pub text_beq : Text → Text → Bool
text_beq [] [] = true
text_beq [] (y ∷ ys) = false
text_beq (x ∷ xs) [] = false
text_beq (x ∷ xs) (y ∷ ys) = eqb x y && text_beq xs ys

pub text_beq_iff : (a b : Text) → (text_beq a b ≡ true) ↔ (a ≡ b)
unfolding text_beq
text_beq_iff [] [] = (λ _. refl, λ _. refl)
text_beq_iff [] (y ∷ ys) = (λ e. cc, λ e. cc)
text_beq_iff (x ∷ xs) [] = (λ e. cc, λ e. cc)
text_beq_iff (x ∷ xs) (y ∷ ys) =
    (λ e. ground (arith, text_beq_iff xs ys), λ e. ground (arith, text_beq_iff xs ys))

unfoldable pub Text-discrete : Discrete Text
Text-discrete a b = dec_of (text_beq a b) (text_beq_iff a b)
  where
    dec_of : (t : Bool) → (t ≡ true) ↔ (a ≡ b) → Dec (a ≡ b)
    dec_of true h = yes (h.0 refl)
    dec_of false h = no (λ e. cc (h.1 e))

instance abbrev pub text_eq : Eq Text
text_eq = record { test = text_beq; agrees = text_beq_iff }

-- `a < b` on strings: by the first difference.
unfoldable pub text_ltb : Text → Text → Bool
text_ltb [] [] = false
text_ltb [] (y ∷ ys) = true
text_ltb (x ∷ xs) [] = false
text_ltb (x ∷ xs) (y ∷ ys) = ltb x y || (eqb x y && text_ltb xs ys)
