-- ===== src/Decision/Market/Compare.antt =====
-- proofops/decision/market.py: `compare_market`.
use mathlib.Core.Path.{subst}
use safehire_proofops_bnb.Prelude.{
  suc, ◌≤◌, String, ◌≡◌, refl, sym, ap, ◌∙◌, ◌⊎◌, inl, inr, Bool, true, not, ◌&&◌, Option, none,
  some, List, [], ◌∷◌, leb, str_eq, if◌then◌else◌, arith, eq_iff, Bool-cases, Option-cases, length,
  All,
}
use safehire_proofops_bnb.Prelude.Members.{member, member_iff, AreApart}
use safehire_proofops_bnb.Prelude.Raising.{
  Raising, ok, guard, or_raise, ◌>>=◌, ◌>>◌, then-ok, bind-ok, or_raise-ok, guard-ok, ok_inj,
}
use safehire_proofops_bnb.Decision.Market.{Listing}
use safehire_proofops_bnb.Decision.Market.Projection.{
  MarketError, two_or_three, unknown_id, cross_category, Market,
}
use safehire_proofops_bnb.Decision.Market.Rows.{ids}

pub record Comparison : Type 0 where
  pub compared_category : String
  pub compared : List Listing

-- `len(set(identifiers)) == len(identifiers)`
unfoldable pub all_apart : List String → Bool
all_apart [] = true
all_apart (x ∷ xs) = let rest = all_apart xs in not (member x xs) && rest

-- `by_id.get`: the last row with an ID has it.
unfoldable pub row_with : String → List Listing → Option Listing
row_with id [] = none
row_with id (r ∷ rs) = elim (row_with id rs) [
  | some s ↦ some s
  | none ↦ if str_eq r.id id then some r else none
]

unfoldable pub rows_with : List String → List Listing → Option (List Listing)
unfolding row_with
rows_with [] rows = some []
rows_with (id ∷ rest) rows = elim (row_with id rows) [
  | none ↦ none
  | some r ↦ elim (rows_with rest rows) [ none ↦ none | some rs ↦ some (r ∷ rs) ]
]

abbrev category_of_first : List Listing → String
category_of_first [] = ""
category_of_first (r ∷ rs) = r.category

-- `len({row["category"] for row in selected}) == 1`, where a row was selected
unfoldable pub one_category : String → List Listing → Bool
one_category c [] = true
one_category c (r ∷ rs) = let rest = one_category c rs in str_eq r.category c && rest

unfoldable pub compare_market : Market → List String → Raising MarketError Comparison
unfolding all_apart rows_with one_category
compare_market projected identifiers = do
  guard (leb 2 (length identifiers) && (leb (length identifiers) 3 && all_apart identifiers))
      two_or_three
  selected ← or_raise (rows_with identifiers projected.listings) unknown_id
  guard (one_category (category_of_first selected) selected) cross_category
  ok (record { compared_category = category_of_first selected; compared = selected })

-- The row stands in the list.
abbrev pub Within : Listing → List Listing → Type 0
Within r [] = ⊥
Within r (s ∷ ss) = (r ≡ s) ⊎ Within r ss

all_apart-AreApart : (xs : List String) → all_apart xs ≡ true → AreApart xs
unfolding all_apart
all_apart-AreApart [] e = tt
all_apart-AreApart (x ∷ xs) e = (
  λ l. absurd (ground (arith, (member_iff x xs).1 l, e)),
  all_apart-AreApart xs (ground (arith, e)),
)

row_with-Within :
    (id : String) (rows : List Listing) (r : Listing)
    → row_with id rows ≡ some r
    → (r.id ≡ id) × Within r rows
unfolding row_with
row_with-Within id [] r e = absurd (cc)
row_with-Within id (s ∷ ss) r e = elim (Option-cases (row_with id ss)) [
  | inr (t, at) ↦
      let found = row_with-Within id ss r (ground (arith, at, e)) in (found.0, inr found.1)
  | inl out ↦ elim (Bool-cases (str_eq s.id id)) [
    | inr other ↦ absurd (ground (arith, out, other, e))
    | inl hit ↦
        let same : s ≡ r = ground (arith, out, hit, e) in
        (ap (λ r. r.id) (sym same) ∙ (eq_iff s.id id).0 hit, inl (sym same))
  ]
]

rows_with-Within :
    (xs : List String) (rows selected : List Listing)
    → rows_with xs rows ≡ some selected
    → (ids selected ≡ xs) × All (λ r. Within r rows) selected
unfolding rows_with
rows_with-Within [] rows selected e =
    let same : [] ≡ selected = ground (arith, e) in
    subst (λ s. (ids s ≡ []) × All (λ r. Within r rows) s) same (refl, tt)
rows_with-Within (x ∷ xs) rows selected e = elim (Option-cases (row_with x rows)) [
  | inl out ↦ absurd (ground (arith, out, e))
  | inr (r, at) ↦ elim (Option-cases (rows_with xs rows)) [
    | inl out ↦ absurd (ground (arith, at, out, e))
    | inr (rs, later) ↦
        let same : r ∷ rs ≡ selected = ground (arith, at, later, e) in
        let first = row_with-Within x rows r at in
        let rest = rows_with-Within xs rows rs later in
        subst (λ s. (ids s ≡ x ∷ xs) × All (λ r. Within r rows) s) same
          (ap (λ i. i ∷ ids rs) first.0 ∙ ap (λ l. x ∷ l) rest.0, (first.1, rest.1))
  ]
]

one_category-All :
    (c : String) (rows : List Listing) → one_category c rows ≡ true → All (λ r. r.category ≡ c) rows
unfolding one_category
one_category-All c [] e = tt
one_category-All c (r ∷ rs) e =
    ((eq_iff r.category c).0 (ground (arith, e)), one_category-All c rs (ground (arith, e)))

length-ids : (rows : List Listing) → length rows ≡ length (ids rows)
length-ids [] = refl
length-ids (r ∷ rs) = ap suc (length-ids rs)

-- A comparison that is returned is of two or three different listings of the market, those with
-- the IDs that were asked for and in their order, and all of the category that it names.
pub compare_market-Comparable :
    (projected : Market) (identifiers : List String) (c : Comparison)
    → compare_market projected identifiers ≡ ok c
    → (2 ≤ length c.compared)
      × (length c.compared ≤ 3)
      × AreApart (ids c.compared)
      × (ids c.compared ≡ identifiers)
      × All (λ r. Within r projected.listings) c.compared
      × All (λ r. r.category ≡ c.compared_category) c.compared
unfolding compare_market
compare_market-Comparable projected identifiers c e =
    let (counted, e1) = then-ok (guard _ two_or_three) _ c e in
    let (selected, found, e2) =
      bind-ok (or_raise (rows_with identifiers projected.listings) unknown_id) _ c e1 in
    let (together, e3) =
      then-ok (guard (one_category (category_of_first selected) selected) cross_category) _ c e2 in
    let sized =
      guard-ok (leb 2 (length identifiers) && (leb (length identifiers) 3 && all_apart identifiers))
        two_or_three tt counted in
    let at = or_raise-ok (rows_with identifiers projected.listings) unknown_id selected found in
    let (asked, within) = rows_with-Within identifiers projected.listings selected at in
    let apart = all_apart-AreApart identifiers (ground (arith, sized)) in
    let one =
      one_category-All (category_of_first selected) selected (
        guard-ok (one_category (category_of_first selected) selected) cross_category tt together) in
    let many : length selected ≡ length identifiers = length-ids selected ∙ ap length asked in
    subst
      (λ c.
        (2 ≤ length c.compared)
        × (length c.compared ≤ 3)
        × AreApart (ids c.compared)
        × (ids c.compared ≡ identifiers)
        × All (λ r. Within r projected.listings) c.compared
        × All (λ r. r.category ≡ c.compared_category) c.compared)
      (ok_inj e3)
      (
        ground (arith, sized, many),
        ground (arith, sized, many),
        subst AreApart (sym asked) apart,
        asked,
        within,
        one,
      )
