-- ===== src/Decision/Market/Rows.antt =====
-- proofops/decision/market.py: where the rows of a market come from, and the lists that its counts
-- are taken of.
use safehire_proofops_bnb.Prelude.{
  ℕ, suc, String, ◌≡◌, refl, sym, ap, ◌∙◌, ◌⊎◌, inl, inr, false, none, some, List, [], ◌∷◌, map,
  arith, Bool-cases, length, All,
}
use safehire_proofops_bnb.Prelude.Members.{member}
use safehire_proofops_bnb.Prelude.Raising.{Raising, ok, err, Result-cases, ok_inj}
use safehire_proofops_bnb.Domain.Canonical.{Json, Fields}
use safehire_proofops_bnb.Decision.Market.{Python, Listing}
use safehire_proofops_bnb.Decision.Market.Ranking.{put_row, sort_rows}
use safehire_proofops_bnb.Decision.Market.Projection.{
  MarketError, Candidate, candidate_of, id_of, row_of, rows_from, reject_row, show_row,
}

put_row-All :
    (P : Listing → Type 0) (x : Listing) (ys : List Listing) → P x → All P ys → All P (put_row x ys)
unfolding put_row
put_row-All P x [] p all = (p, all)
put_row-All P x (y ∷ ys) p all = ground (arith, p, all, put_row-All P x ys p all.1)

pub sort_rows-All : (P : Listing → Type 0) (xs : List Listing) → All P xs → All P (sort_rows xs)
unfolding sort_rows
sort_rows-All P [] all = all
sort_rows-All P (x ∷ xs) all = put_row-All P x (sort_rows xs) all.0 (sort_rows-All P xs all.1)

length-put_row : (x : Listing) (ys : List Listing) → length (put_row x ys) ≡ suc (length ys)
unfolding put_row
length-put_row x [] = refl
length-put_row x (y ∷ ys) = ground (arith, length-put_row x ys)

pub length-sort_rows : (xs : List Listing) → length (sort_rows xs) ≡ length xs
unfolding sort_rows
length-sort_rows [] = refl
length-sort_rows (x ∷ xs) = length-put_row x (sort_rows xs) ∙ ap suc (length-sort_rows xs)

abbrev pub ids : List Listing → List String
ids rows = map (λ r. r.id) rows

-- An item is rejected, or its row is listed.
abbrev pub Rejected : Python → Fields → ℕ → List Json → List String → List Listing → ℕ → Type 0
Rejected py raw now items seen rows n =
    (k : ℕ) × (rows_from py raw now items seen ≡ ok (rows, k)) × (n ≡ suc k)

abbrev pub Shown : Python → Fields → ℕ → Json → List Json → List String → List Listing → ℕ → Type 0
Shown py raw now item items seen rows n =
    (c : Candidate) × (rest : List Listing) × (candidate_of py item ≡ ok (some c))
    × (member (id_of py c) seen ≡ false)
    × (rows_from py raw now items (id_of py c ∷ seen) ≡ ok (rest, n))
    × (rows ≡ row_of py raw now c ∷ rest)

reject_row-ok :
    (t : Raising MarketError (List Listing × ℕ)) (rows : List Listing) (n : ℕ)
    → reject_row t ≡ ok (rows, n)
    → (k : ℕ) × (t ≡ ok (rows, k)) × (n ≡ suc k)
unfolding reject_row
reject_row-ok (err x) rows n e = absurd (cc)
reject_row-ok (ok (rs, k)) rows n e =
    let same = ok_inj e in (k, ap (λ r. ok (r, k)) (ap (λ p. p.0) same), sym (ap (λ p. p.1) same))

show_row-ok :
    (r : Listing) (t : Raising MarketError (List Listing × ℕ)) (rows : List Listing) (n : ℕ)
    → show_row r t ≡ ok (rows, n)
    → (rest : List Listing) × (t ≡ ok (rest, n)) × (rows ≡ r ∷ rest)
unfolding show_row
show_row-ok r (err x) rows n e = absurd (cc)
show_row-ok r (ok (rs, k)) rows n e =
    let same = ok_inj e in (rs, ap (λ k. ok (rs, k)) (ap (λ p. p.1) same), sym (ap (λ p. p.0) same))

pub rows_from-step :
    (py : Python) (raw : Fields) (now : ℕ) (item : Json) (items : List Json) (seen : List String)
    (rows : List Listing) (n : ℕ)
    → rows_from py raw now (item ∷ items) seen ≡ ok (rows, n)
    → Rejected py raw now items seen rows n ⊎ Shown py raw now item items seen rows n
unfolding rows_from
rows_from-step py raw now item items seen rows n e = elim (Result-cases (candidate_of py item)) [
  | inl (x, at) ↦ absurd (ground (arith, at, e))
  | inr (none, at) ↦
      inl (reject_row-ok (rows_from py raw now items seen) rows n (ground (arith, at, e)))
  | inr (some c, at) ↦ elim (Bool-cases (member (id_of py c) seen)) [
    | inl twice ↦
        inl (reject_row-ok (rows_from py raw now items seen) rows n (ground (arith, at, twice, e)))
    | inr once ↦
        let (rest, tail, same) =
          show_row-ok (row_of py raw now c) (rows_from py raw now items (id_of py c ∷ seen)) rows n
            (ground (arith, at, once, e)) in
        inr (c, rest, at, once, tail, same)
  ]
]
