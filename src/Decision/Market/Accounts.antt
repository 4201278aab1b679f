-- ===== src/Decision/Market/Accounts.antt =====
-- proofops/decision/market.py: every item is listed or counted as rejected, and every listing is
-- counted in one category.
use mathlib.Core.Path.{subst}
use mathlib.Core.Bool.{false≢true}
use safehire_proofops_bnb.Prelude.{
  ℕ, ◌+◌, String, ◌≡◌, refl, sym, ap, ◌∙◌, ◌⊎◌, inl, inr, some, List, [], ◌∷◌, map, arith, length,
  keep, All,
}
use safehire_proofops_bnb.Prelude.Members.{Listed, member_iff, AreApart}
use safehire_proofops_bnb.Prelude.Raising.{ok, bind-ok, ok_inj}
use safehire_proofops_bnb.Domain.Canonical.{Json, Fields}
use safehire_proofops_bnb.Decision.Market.Catalogue.{catalogue}
use safehire_proofops_bnb.Decision.Market.{Python, Listing, listing_of}
use safehire_proofops_bnb.Decision.Market.Ranking.{put_row, sort_rows}
use safehire_proofops_bnb.Decision.Market.Projection.{
  Candidate, candidate_of, id_of, row_of, rows_from, names_of, Coverage, coverage_of, Market,
  agents_of, project_market,
}
use safehire_proofops_bnb.Decision.Market.Candidates.{candidate_of-Listed}
use safehire_proofops_bnb.Decision.Market.Rows.{
  rows_from-step, sort_rows-All, length-sort_rows, ids,
}

module _ (py : Python) (raw : Fields) (now : ℕ) where
  rows_from-length :
      (items : List Json) (seen : List String) (rows : List Listing) (n : ℕ)
      → rows_from py raw now items seen ≡ ok (rows, n)
      → length rows + n ≡ length items
  unfolding rows_from
  rows_from-length [] seen rows n e = let same = ok_inj e in sym (ap (λ p. length (p.0) + p.1) same)
  rows_from-length (item ∷ items) seen rows n e =
      elim (rows_from-step py raw now item items seen rows n e) [
        | inl (k, tail, more) ↦ omega (arith, more, rows_from-length items seen rows k tail)
        | inr (c, rest, at, once, tail, same) ↦
            omega (arith, ap length same, rows_from-length items (id_of py c ∷ seen) rest n tail)
      ]

  rows_from-AreApart :
      (items : List Json) (seen : List String) (rows : List Listing) (n : ℕ)
      → rows_from py raw now items seen ≡ ok (rows, n)
      → AreApart (ids rows) × ((j : String) → Listed j (ids rows) → ¬ Listed j seen)
  unfolding rows_from listing_of
  rows_from-AreApart [] seen rows n e =
      let none_left : [] ≡ rows = ap (λ p. p.0) (ok_inj e) in
      subst (λ r. AreApart (ids r) × ((j : String) → Listed j (ids r) → ¬ Listed j seen)) none_left
        (tt, λ j l. absurd l)
  rows_from-AreApart (item ∷ items) seen rows n e =
      elim (rows_from-step py raw now item items seen rows n e) [
        | inl (k, tail, more) ↦ rows_from-AreApart items seen rows k tail
        | inr (c, rest, at, once, tail, same) ↦
            let (apart, out) = rows_from-AreApart items (id_of py c ∷ seen) rest n tail in
            let fresh_id : ¬ Listed (id_of py c) seen =
              λ l. false≢true (sym once ∙ (member_iff (id_of py c) seen).1 l) in
            subst (λ r. AreApart (ids r) × ((j : String) → Listed j (ids r) → ¬ Listed j seen))
              (sym same)
              (
                (λ l. out (id_of py c) l (inl refl), apart),
                λ j l. elim l [
                  | inl here ↦ λ s. fresh_id (subst (λ z. Listed z seen) here s)
                  | inr later ↦ λ s. out j later (inr s)
                ],
              )
      ]

  pub rows_from-All :
      (P : Listing → Type 0)
      → ((item : Json) (c : Candidate)
          → candidate_of py item ≡ ok (some c)
          → P (row_of py raw now c))
      → (items : List Json) (seen : List String) (rows : List Listing) (n : ℕ)
      → rows_from py raw now items seen ≡ ok (rows, n)
      → All P rows
  unfolding rows_from
  rows_from-All P f [] seen rows n e = subst (All P) (ap (λ p. p.0) (ok_inj e)) tt
  rows_from-All P f (item ∷ items) seen rows n e =
      elim (rows_from-step py raw now item items seen rows n e) [
        | inl (k, tail, more) ↦ rows_from-All P f items seen rows k tail
        | inr (c, rest, at, once, tail, same) ↦
            subst (All P) (sym same)
              (f item c at, rows_from-All P f items (id_of py c ∷ seen) rest n tail)
      ]

Listed-put_row :
    (j : String) (x : Listing) (ys : List Listing)
    → Listed j (ids (put_row x ys))
    → (j ≡ x.id) ⊎ Listed j (ids ys)
unfolding put_row
Listed-put_row j x [] h = h
Listed-put_row j x (y ∷ ys) h = ground (arith, h, Listed-put_row j x ys)

put_row-AreApart :
    (x : Listing) (ys : List Listing)
    → ¬ Listed x.id (ids ys)
    → AreApart (ids ys)
    → AreApart (ids (put_row x ys))
unfolding put_row
put_row-AreApart x [] out h = (out, h)
put_row-AreApart x (y ∷ ys) out h =
    ground (arith, out, h, Listed-put_row y.id x ys, put_row-AreApart x ys (λ l. out (inr l)) h.1)

Listed-sort_rows :
    (j : String) (xs : List Listing) → Listed j (ids (sort_rows xs)) → Listed j (ids xs)
unfolding sort_rows
Listed-sort_rows j [] h = h
Listed-sort_rows j (x ∷ xs) h = elim (Listed-put_row j x (sort_rows xs) h) [
  | inl e ↦ inl e
  | inr l ↦ inr (Listed-sort_rows j xs l)
]

sort_rows-AreApart : (xs : List Listing) → AreApart (ids xs) → AreApart (ids (sort_rows xs))
unfolding sort_rows
sort_rows-AreApart [] h = h
sort_rows-AreApart (x ∷ xs) h =
    put_row-AreApart x (sort_rows xs) (λ l. h.0 (Listed-sort_rows x.id xs l))
      (sort_rows-AreApart xs h.1)

-- How many rows the categories have together.
abbrev pub total : List Coverage → ℕ
total [] = 0
total (c ∷ cs) = c.listing_count + total cs

total_listings :
    (rows : List Listing)
    → All (λ r. Listed r.category (names_of catalogue)) rows
    → total (map (coverage_of rows) catalogue) ≡ length rows
unfolding coverage_of keep
total_listings [] h = refl
total_listings (r ∷ rs) h =
    let ih = total_listings rs h.1 in
    elim h.0 [
      | inl e ↦ rw e (omega (arith, ih))
      | inr (inl e) ↦ rw e (omega (arith, ih))
      | inr (inr (inl e)) ↦ rw e (omega (arith, ih))
      | inr (inr (inr (inl e))) ↦ rw e (omega (arith, ih))
      | inr (inr (inr (inr none_left))) ↦ absurd none_left
    ]

-- Of a projection that is returned: every item is listed or counted as rejected, no registry ID is
-- listed twice, and every listing is counted in exactly one of the categories.
pub project_market-Accounts :
    (py : Python) (raw : Fields) (now : ℕ) (m : Market)
    → project_market py raw now ≡ ok m
    → (items : List Json) × (agents_of raw ≡ ok items)
      × (length m.listings + m.rejected_rows ≡ length items)
      × AreApart (ids m.listings)
      × (total m.categories ≡ length m.listings)
unfolding project_market listing_of
project_market-Accounts py raw now m e =
    let (items, at, e1) = bind-ok (agents_of raw) _ m e in
    let (found, loop, e2) = bind-ok (rows_from py raw now items []) _ m e1 in
    let rows = sort_rows found.0 in
    let shown : rows ≡ m.listings = ap (λ m. m.listings) (ok_inj e2) in
    let rejected : found.1 ≡ m.rejected_rows = ap (λ m. m.rejected_rows) (ok_inj e2) in
    let counted : map (coverage_of rows) catalogue ≡ m.categories =
      ap (λ m. m.categories) (ok_inj e2) in
    let named =
      rows_from-All py raw now (λ r. Listed r.category (names_of catalogue))
        (λ item c at. candidate_of-Listed py item c at) items [] found.0 found.1 loop in
    (
      items,
      at,
      omega (
        arith,
        ap length shown,
        rejected,
        length-sort_rows found.0,
        rows_from-length py raw now items [] found.0 found.1 loop,
      ),
      subst (λ r. AreApart (ids r)) shown
          (sort_rows-AreApart found.0
            (rows_from-AreApart py raw now items [] found.0 found.1 loop).0),
      sym (ap total counted)
          ∙ total_listings rows
              (sort_rows-All (λ r. Listed r.category (names_of catalogue)) found.0 named)
          ∙ ap length shown,
    )
