-- ===== src/Execution/Store/Budget/Laws.antt =====
-- What `add_spend` of proofops/execution/store.py does to each day's total.
use safehire_proofops_bnb.Prelude.{ℕ, String, ◌≡◌, ◌≢◌, ◌⊎◌, List, [], ◌∷◌, arith, eq_iff}
use safehire_proofops_bnb.Domain.Models.{Floats, FloatLaws}
use safehire_proofops_bnb.Execution.Store.Schema.{SpendRow}
use safehire_proofops_bnb.Execution.Store.Budget.{spent_on, add_row}

module _ {F : Type 0} ⦃fl : Floats F⦄ (p : String) (day : ℕ) (v : F) where
  -- The day's total after a spend compares as the old total and the spend do.
  pub lt-spent-add_row :
      (laws : FloatLaws fl) (d : F) (rows : List (SpendRow F))
      → fl.lt d (spent_on p day (add_row p day v rows)) ≡ fl.lt d (fl.add (spent_on p day rows) v)
  unfolding spent_on add_row
  lt-spent-add_row laws d [] = ground (arith, laws.lt-add_zero d v, eq_iff p p)
  lt-spent-add_row laws d (r ∷ rows) = ground (arith, lt-spent-add_row laws d rows)

  -- No other policy's total changes, and no other day's.
  pub spent-add_row_ne :
      (q : String) (other : ℕ) (rows : List (SpendRow F))
      → (q ≢ p) ⊎ (other ≢ day)
      → spent_on q other (add_row p day v rows) ≡ spent_on q other rows
  unfolding spent_on add_row
  spent-add_row_ne q other [] h = ground (arith, eq_iff p q)
  spent-add_row_ne q other (r ∷ rows) h =
      ground (arith, spent-add_row_ne q other rows h, eq_iff r.policy_id p, eq_iff r.policy_id q)
