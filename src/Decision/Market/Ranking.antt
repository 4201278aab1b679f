-- ===== src/Decision/Market/Ranking.antt =====
-- proofops/decision/market.py: the order of the rows.
use Prim.Native.String.{compare}
use Prim.Native.Nat.{Ordering}
use safehire_proofops_bnb.Prelude.{String, Bool, true, false, none, some, List, [], ◌∷◌}
use safehire_proofops_bnb.Decision.Market.{Listing}

abbrev text_then : String → String → Bool → Bool
text_then s t rest = elim (compare s t) [
  | Ordering.lt ↦ true
  | Ordering.eq ↦ rest
  | Ordering.gt ↦ false
]

-- A row with the flag comes first.
abbrev flag_then : Bool → Bool → Bool → Bool
flag_then true true rest = rest
flag_then true false rest = true
flag_then false true rest = false
flag_then false false rest = rest

abbrev pub has_owner : Listing → Bool
has_owner r = elim r.owner_address [ none ↦ false | some o ↦ true ]

-- The order of the sort key.
row_leb : Listing → Listing → Bool
row_leb r s = text_then r.category s.category (
    flag_then r.hire_available s.hire_available (
      flag_then r.category_fit s.category_fit
        (flag_then (has_owner r) (has_owner s) (text_then r.id s.id true))))

unfoldable pub put_row : Listing → List Listing → List Listing
unfolding row_leb
put_row x [] = x ∷ []
put_row x (y ∷ ys) = elim (row_leb x y) [ true ↦ x ∷ y ∷ ys | false ↦ y ∷ put_row x ys ]

unfoldable pub sort_rows : List Listing → List Listing
unfolding put_row
sort_rows [] = []
sort_rows (x ∷ xs) = put_row x (sort_rows xs)
