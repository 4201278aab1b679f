-- ===== src/Execution/Store/Budget.antt =====
-- The `policy_spend` and `flags` tables of proofops/execution/store.py.
pub mod Laws
use safehire_proofops_bnb.Prelude.{
  ℕ, ◌/◌, String, Bool, ◌&&◌, Option, none, some, List, [], ◌∷◌, ◌==◌, str_eq, if◌then◌else◌,
}
use safehire_proofops_bnb.Prelude.Dict.{lookup, insert}
use safehire_proofops_bnb.Domain.Models.{Floats}
use safehire_proofops_bnb.Execution.Store.Schema.{SpendRow, Database}

-- The UTC date of a time.
abbrev pub day_of : ℕ → ℕ
day_of now = now / 86400000000

module _ {F : Type 0} ⦃fl : Floats F⦄ where
  pub is_row : String → ℕ → SpendRow F → Bool
  is_row policy_id day r = str_eq r.policy_id policy_id && r.day == day

  unfoldable pub spent_on : String → ℕ → List (SpendRow F) → F
  unfolding is_row
  spent_on policy_id day [] = fl.zero_usd
  spent_on policy_id day (r ∷ rows) =
      if is_row policy_id day r then r.spent_usd else spent_on policy_id day rows

  unfoldable pub spent_today : ℕ → String → Database F → F
  unfolding spent_on
  spent_today now policy_id db = spent_on policy_id (day_of now) db.policy_spend

  unfoldable pub add_row : String → ℕ → F → List (SpendRow F) → List (SpendRow F)
  unfolding is_row
  add_row policy_id day value [] =
      record { policy_id = policy_id; day = day; spent_usd = value } ∷ []
  add_row policy_id day value (r ∷ rows) =
      if is_row policy_id day r
      then record r { spent_usd = fl.add r.spent_usd value } ∷ rows
      else r ∷ add_row policy_id day value rows

  unfoldable pub add_spend : ℕ → String → F → Database F → Database F
  unfolding add_row
  add_spend now policy_id value db = record db {
    policy_spend = add_row policy_id (day_of now) value db.policy_spend;
  }

module _ {F : Type 0} where
  unfoldable pub set_flag : String → String → Database F → Database F
  set_flag name value db = record db { flags = insert name value db.flags }

  unfoldable pub get_flag : String → String → Database F → String
  get_flag name default db = elim (lookup name db.flags) [ none ↦ default | some v ↦ v ]
