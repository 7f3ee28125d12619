-- ===== src/Id/Order.antt =====
-- id.go: the texts of generated identifiers sort by the millisecond of their creation.
use fabricrunner.Prelude.{
  ℕ, ◌/◌, ◌%◌, ◌^◌, ◌<◌, ◌≡◌, refl, ap, subst, ◌⊎◌, inl, inr, true, false, ◌||◌, List, ◌∷◌, arith,
  ltb, leb, Bool-cases, Text, text_ltb, ok, ℤ, pos, negsuc, is_neg, pos_part, ◌<ℤ◌, to_uint64,
}
use fabricrunner.Id.{FabricId, hex_char, hex_encode, stamp, encode_id, new_id_at}

digit_order : (m n : ℕ) → m < n → n < 16 → ltb (hex_char m) (hex_char n) ≡ true
unfolding hex_char
digit_order m n h k = ground arith

-- One digit decides, or hands on.
less_here : (a b : ℕ) (s t : Text) → ltb a b ≡ true → text_ltb (a ∷ s) (b ∷ t) ≡ true
unfolding text_ltb
less_here a b s t h = rw h

less_later : (a b : ℕ) (s t : Text) → a ≡ b → text_ltb s t ≡ true → text_ltb (a ∷ s) (b ∷ t) ≡ true
unfolding text_ltb
less_later a b s t e h = ground (arith, e, h)

-- Two bytes in hexadecimal, by their digits.
byte_order :
    (a b : ℕ) (s t : Text)
    → a < b
    → b < 256
    → text_ltb
        (hex_char (a / 16) ∷ hex_char (a % 16) ∷ s)
        (hex_char (b / 16) ∷ hex_char (b % 16) ∷ t)
      ≡ true
byte_order a b s t h k = elim (Bool-cases (ltb (a / 16) (b / 16))) [
  | inl e ↦
      less_here (hex_char (a / 16)) (hex_char (b / 16)) _ _
        (digit_order (a / 16) (b / 16) (ground (arith, e)) (omega (arith, k)))
  | inr e ↦
      less_later (hex_char (a / 16)) (hex_char (b / 16)) _ _ (ap hex_char (ground (arith, e, h))) (
        less_here (hex_char (a % 16)) (hex_char (b % 16)) s t
          (digit_order (a % 16) (b % 16) (ground (arith, e, h)) (omega arith)))
]

-- A byte that is not less decides, or is the same.
byte_less :
    (a b : ℕ) (s t : Text)
    → b < 256
    → (a < b) ⊎ ((a ≡ b) × (text_ltb s t ≡ true))
    → text_ltb
        (hex_char (a / 16) ∷ hex_char (a % 16) ∷ s)
        (hex_char (b / 16) ∷ hex_char (b % 16) ∷ t)
      ≡ true
byte_less a b s t k (inl h) = byte_order a b s t h k
byte_less a b s t k (inr (e, h)) =
    less_later _ _ _ _ (ap (λ x. hex_char (x / 16)) e)
      (less_later _ _ s t (ap (λ x. hex_char (x % 16)) e) h)

dash_later : (s t : Text) → text_ltb s t ≡ true → text_ltb (b'-' ∷ s) (b'-' ∷ t) ≡ true
dash_later s t h = less_later b'-' b'-' s t refl h

-- The byte at a place decides, or the bytes below it do.
split40 :
    (m n : ℕ)
    → m < n
    → n < 2 ^ 48
    → (m / 2 ^ 40 % 256 < n / 2 ^ 40 % 256)
      ⊎ ((m / 2 ^ 40 % 256 ≡ n / 2 ^ 40 % 256) × (m % 2 ^ 40 < n % 2 ^ 40))
split40 m n h k = ground arith

split32 :
    (m n : ℕ)
    → m % 2 ^ 40 < n % 2 ^ 40
    → (m / 2 ^ 32 % 256 < n / 2 ^ 32 % 256)
      ⊎ ((m / 2 ^ 32 % 256 ≡ n / 2 ^ 32 % 256) × (m % 2 ^ 32 < n % 2 ^ 32))
split32 m n h = ground arith

split24 :
    (m n : ℕ)
    → m % 2 ^ 32 < n % 2 ^ 32
    → (m / 2 ^ 24 % 256 < n / 2 ^ 24 % 256)
      ⊎ ((m / 2 ^ 24 % 256 ≡ n / 2 ^ 24 % 256) × (m % 2 ^ 24 < n % 2 ^ 24))
split24 m n h = ground arith

split16 :
    (m n : ℕ)
    → m % 2 ^ 24 < n % 2 ^ 24
    → (m / 2 ^ 16 % 256 < n / 2 ^ 16 % 256)
      ⊎ ((m / 2 ^ 16 % 256 ≡ n / 2 ^ 16 % 256) × (m % 2 ^ 16 < n % 2 ^ 16))
split16 m n h = ground arith

split8 :
    (m n : ℕ)
    → m % 2 ^ 16 < n % 2 ^ 16
    → (m / 2 ^ 8 % 256 < n / 2 ^ 8 % 256)
      ⊎ ((m / 2 ^ 8 % 256 ≡ n / 2 ^ 8 % 256) × (m % 256 < n % 256))
split8 m n h = ground arith

on_rest {ℓ κ} : {A : Type ℓ} {B C D : Type κ} → (B → C) → A ⊎ (D × B) → A ⊎ (D × C)
on_rest f (inl a) = inl a
on_rest f (inr (d, b)) = inr (d, f b)

stamped_order :
    (m n : ℕ) (raw raw' : List ℕ)
    → m < n
    → n < 2 ^ 48
    → text_ltb (encode_id (stamp m raw)) (encode_id (stamp n raw')) ≡ true
unfolding encode_id stamp hex_encode
stamped_order m n raw raw' h k = byte_less _ _ _ _ (omega arith) (
    on_rest
      (λ h32. byte_less _ _ _ _ (omega arith) (
        on_rest
          (λ h24. byte_less _ _ _ _ (omega arith) (
            on_rest
              (λ h16. byte_less _ _ _ _ (omega arith) (
                on_rest
                  (λ h8. dash_later _ _ (
                    byte_less _ _ _ _ (omega arith)
                      (on_rest (λ h0. byte_less _ _ _ _ (omega arith) (inl h0)) (split8 m n h8))))
                  (split16 m n h16)))
              (split24 m n h24)))
          (split32 m n h32)))
      (split40 m n h k))

made :
    (millis : ℤ) (raw : List ℕ) (id : FabricId)
    → new_id_at millis (ok raw) ≡ ok id
    → (is_neg millis ≡ false)
      × (to_uint64 millis < 2 ^ 48)
      × (encode_id (stamp (to_uint64 millis) raw) ≡ id)
unfolding new_id_at
made millis raw id e = elim (Bool-cases (is_neg millis || leb (2 ^ 48) (to_uint64 millis))) [
  | inl out ↦ cc (rw out at e)
  | inr within ↦ (ground (arith, within), ground (arith, within), cc (rw within at e))
]

-- Of two identifiers that newIDAt makes at int64 milliseconds, the one made in the earlier
-- millisecond has the smaller text, whatever the entropy.
pub new_id_at_order :
    (m n : ℤ) (raw raw' : List ℕ) (id id' : FabricId)
    → pos_part m < 2 ^ 63
    → pos_part n < 2 ^ 63
    → new_id_at m (ok raw) ≡ ok id
    → new_id_at n (ok raw') ≡ ok id'
    → m <ℤ n
    → text_ltb id id' ≡ true
unfolding to_uint64
new_id_at_order (pos m) (pos n) raw raw' id id' hm hn a b h =
    let (x, y, e) = made (pos m) raw id a in
    let (x', y', e') = made (pos n) raw' id' b in
    subst (λ s. text_ltb s id' ≡ true) e
      (subst (λ s. text_ltb (encode_id (stamp (m % 2 ^ 64) raw)) s ≡ true) e'
        (stamped_order (m % 2 ^ 64) (n % 2 ^ 64) raw raw' (omega (arith, h)) y'))
new_id_at_order (negsuc m) n raw raw' id id' hm hn a b h =
    let (x, y, z) = made (negsuc m) raw id a in cc x
new_id_at_order (pos m) (negsuc n) raw raw' id id' hm hn a b h =
    let (x, y, z) = made (negsuc n) raw' id' b in cc x
