-- ===== src/Tests/Plugins.antt =====
-- Runs of proofops/plugins: a ledger of two records under a digest that is one text.
use safehire_proofops_bnb.Prelude.{String, ◌≡◌, refl, ◌↔◌, true, [], ◌∷◌}
use safehire_proofops_bnb.Domain.Canonical.{Json, dict, end, field, text}
use safehire_proofops_bnb.Plugins.Evidence.{
  LedgerRecord, Ledger, genesis_hash, append, verify, record_of, last_from, unsigned_of,
}
use safehire_proofops_bnb.Plugins.Evidence.Chain.{
  Chained, verify-Chained, SameLedger, verify-SameLedger,
}
use safehire_proofops_bnb.Plugins.Evidence.Appended.{Rereads, Appended, append-Appended}

abbrev digest : Json → String
digest _ = "h"

law : Rereads digest
law = record { same = λ j. refl }

abbrev payload : Json
payload = dict (field "token" (text "x") end)

first : LedgerRecord
first = (append digest "now" "kind" "source" payload []).0

ledger : Ledger
unfolding first
ledger = (append digest "later" "kind" "source" payload (first ∷ [])).1

-- The same records under other ids.
renamed : Ledger → Ledger
renamed [] = []
renamed (r ∷ rs) = record r { record_id = "ev_" } ∷ renamed rs

verify-Chained_example :
    ((verify digest ledger).valid ≡ true) ↔ Chained digest 0 genesis_hash ledger
verify-Chained_example = verify-Chained digest ledger

verify-SameLedger_example : SameLedger ledger (renamed ledger)
unfolding ledger first renamed verify append record_of last_from unsigned_of
verify-SameLedger_example =
    verify-SameLedger digest ledger (renamed ledger)
      ((λ _. refl), (λ _. refl), ((λ _. refl), (λ _. refl), tt)) refl refl refl refl

append-Appended_example :
    Appended digest payload ledger
      (append digest "now" "kind" "source" payload ledger).0
      (append digest "now" "kind" "source" payload ledger).1
unfolding ledger first verify append record_of last_from
append-Appended_example = append-Appended digest law "now" "kind" "source" payload ledger refl
