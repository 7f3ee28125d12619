-- ===== src/Id/Examples.antt =====
-- The theorems on generated identifiers at two instants and sixteen bytes.
use fabricrunner.Prelude.{
  ℕ, ◌<◌, ◌≡◌, refl, true, List, [], ◌∷◌, arith, All, text, text_eq, text_ltb, ok, pos, to_uint64,
}
use fabricrunner.Id.{FabricId, parse_id, new_id_at}
use fabricrunner.Id.Order.{new_id_at_order}
use fabricrunner.Id.Generated.{new_id_at-parses}

abbrev entropy : List ℕ
entropy = 255 ∷ 255 ∷ 255 ∷ 255 ∷ 255 ∷ 255 ∷ 255 ∷ 1 ∷ 255 ∷ 2 ∷ 3 ∷ 4 ∷ 5 ∷ 6 ∷ 7 ∷ 8 ∷ []

abbrev made_id : FabricId
made_id = text "018bcfe5-6800-7f01-bf02-030405060708"

makes : new_id_at (pos 1700000000000) (ok entropy) ≡ ok made_id
unfolding new_id_at to_uint64
makes = refl

bytes : All (λ b. b < 256) entropy
bytes = (
  omega arith,
  (
    omega arith,
    (
      omega arith,
      (
        omega arith,
        (
          omega arith,
          (
            omega arith,
            (
              omega arith,
              (
                omega arith,
                (
                  omega arith,
                  (
                    omega arith,
                    (
                      omega arith,
                      (omega arith, (omega arith, (omega arith, (omega arith, (omega arith, tt))))),
                    ),
                  ),
                ),
              ),
            ),
          ),
        ),
      ),
    ),
  ),
)

new_id_at-parses_example : parse_id made_id ≡ ok made_id
new_id_at-parses_example = new_id_at-parses (pos 1700000000000) entropy made_id bytes makes

abbrev later_id : FabricId
later_id = text "018bcfe5-6bfd-7f01-bf02-030405060708"

makes_later : new_id_at (pos 1700000001021) (ok entropy) ≡ ok later_id
unfolding new_id_at to_uint64
makes_later = refl

new_id_at_order_example : text_ltb made_id later_id ≡ true
new_id_at_order_example =
    new_id_at_order (pos 1700000000000) (pos 1700000001021) entropy entropy made_id later_id
      (omega arith) (omega arith) makes makes_later (omega arith)
