-- ===== src/Execution/Service/Interleaving.antt =====
-- The service of proofops/execution/service.py as one event loop runs it: a method runs to its end
-- before another begins, but for `execute`, which awaits its adapter between `begin` and `finish`.
pub mod Consistency
pub mod Preservation
pub mod Reachable
pub mod Policies
pub mod Guarantees
pub mod Scenario
pub mod Overspend
use safehire_proofops_bnb.Prelude.{ℕ, String, ◌≡◌, Bool, List, [], ◌∷◌, ◌++◌}
use safehire_proofops_bnb.Domain.Canonical.{Json, Fields}
use safehire_proofops_bnb.Domain.Models.{Floats}
use safehire_proofops_bnb.Execution.Errors.{Error, Result, ok, err}
use safehire_proofops_bnb.Execution.Store.Schema.{empty_database}
use safehire_proofops_bnb.Execution.Store.Budget.{set_flag}
use safehire_proofops_bnb.Execution.Exec.{World}
use safehire_proofops_bnb.Execution.Service.{
  PolicyRequest, create_policy, revoke_policy, new_task, simulate, approve, revoke_task,
}
use safehire_proofops_bnb.Execution.Service.Execute.{Call, Answer, Pending, begin, finish}

-- A call of any method but `execute`, with the clock reading and the id that it draws.
pub data Request (F : Type 0) : Type 0 where
  ask_policy : ℕ → String → PolicyRequest F → Request F
  ask_revoke_policy : ℕ → String → Request F
  ask_task : ℕ → String → String → String → Json → String → Request F
  ask_simulate : ℕ → String → Fields → Request F
  ask_approve : ℕ → String → Request F
  ask_revoke_task : ℕ → String → Request F
  ask_flag : String → String → Request F

pub record System (F : Type 0) : Type 0 where
  pub world : World F
  pub pending : List (Pending F)

module _ {F : Type 0} (sha256_hex : Json → String) where
  unfoldable pub perform : Request F → World F → World F
  perform (ask_policy now id r) w = (create_policy now id r w).1
  perform (ask_revoke_policy now id) w = (revoke_policy now id w).1
  perform (ask_task now id agent policy request key) w =
      (new_task now id agent policy request key w).1
  perform (ask_simulate now id result) w = (simulate sha256_hex now id result w).1
  perform (ask_approve now id) w = (approve now id w).1
  perform (ask_revoke_task now id) w = (revoke_task now id w).1
  perform (ask_flag name value) w = record w { db = set_flag name value w.db }

abbrev pub start : {F : Type 0} → System F
start = record { world = record { db = empty_database; ledger = [] }; pending = [] }

module _ {F : Type 0} ⦃fl : Floats F⦄ (sha256_hex : Json → String) (allow_bsc_mainnet : Bool) where
  pub data Step : System F → System F → Type 0 where
    call :
        (s : System F) (r : Request F) → Step s (record s { world = perform sha256_hex r s.world })
    started :
        (s : System F) (now : ℕ) (id : String) (c : Call F) (p : Pending F) (w : World F)
        → begin sha256_hex allow_bsc_mainnet now id c s.world ≡ (ok p, w)
        → Step s (record { world = w; pending = p ∷ s.pending })
    refused :
        (s : System F) (now : ℕ) (id : String) (c : Call F) (e : Error) (w : World F)
        → begin sha256_hex allow_bsc_mainnet now id c s.world ≡ (err e, w)
        → Step s (record s { world = w })
    -- The adapters answer in any order.
    answered :
        (w : World F) (before : List (Pending F)) (p : Pending F) (after : List (Pending F))
        (now : ℕ) (a : Answer F)
        → Step
            (record { world = w; pending = before ++ (p ∷ after) })
            (record { world = (finish now p a w).1; pending = before ++ after })

  pub data Reach (s : System F) : System F → Type 0 where
    here : Reach s s
    next : {t u : System F} → Reach s t → Step t u → Reach s u
