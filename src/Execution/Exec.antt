-- ===== src/Execution/Exec.antt =====
-- A method of `TaskService`: it acts on the database and the ledger and may raise. What was written
-- before an exception stays written, since each store call commits by itself.
use safehire_proofops_bnb.Prelude.{Bool, true, false, List, [], ◌∷◌, ◌++◌}
use safehire_proofops_bnb.Domain.Models.{Policy, Intent}
use safehire_proofops_bnb.Execution.Errors.{Error, Result, ok, err}
use safehire_proofops_bnb.Execution.RiskGate.{Decision}
use safehire_proofops_bnb.Execution.Store.Schema.{Task, Database}

-- The `kind` and the payload of a ledger append.
pub data Event (F : Type 0) : Type 0 where
  permission_created permission_revoked : Policy F → Event F
  task_created task_simulated task_approved task_executed task_revoked : Task F → Event F
  risk_decision : Intent F → Decision → Event F

pub record World (F : Type 0) : Type 0 where
  pub db : Database F
  pub ledger : List (Event F)

abbrev pub Exec : Type 0 → Type 0 → Type 0
Exec F A = World F → Result A × World F

module _ {F A : Type 0} where
  abbrev pub pure : A → Exec F A
  pure a w = (ok a, w)

  abbrev pub raise : Error → Exec F A
  raise e w = (err e, w)

  abbrev pub read : (Database F → Result A) → Exec F A
  read f w = (f w.db, w)

  abbrev pub commit : World F → Result (A × Database F) → Result A × World F
  commit w (ok (a, db)) = (ok a, record w { db = db })
  commit w (err e) = (err e, w)

  abbrev pub write : (Database F → Result (A × Database F)) → Exec F A
  write f w = commit w (f w.db)

module _ {F A B : Type 0} where
  abbrev pub continue : Result A → World F → (A → Exec F B) → Result B × World F
  continue (ok a) w f = f a w
  continue (err e) w f = (err e, w)

  infixl 5 ◌>>=◌ ◌>>◌
  abbrev pub ◌>>=◌ : Exec F A → (A → Exec F B) → Exec F B
  ◌>>=◌ m f w = let (r, w') = m w in continue r w' f

  abbrev pub ◌>>◌ : Exec F A → Exec F B → Exec F B
  m >> n = m >>= λ _. n

module _ {F : Type 0} where
  abbrev pub require : Bool → Error → Exec F (Unit {0})
  require true e w = (ok tt, w)
  require false e w = (err e, w)

  abbrev pub append : Event F → Exec F (Unit {0})
  append e w = (ok tt, record w { ledger = w.ledger ++ (e ∷ []) })
