-- ===== src/Execution/Service/Interleaving/Guarantees.antt =====
-- What the service of proofops/execution/service.py guarantees of an execution that starts in a
-- reachable state and is not overlapped by another.
use safehire_proofops_bnb.Prelude.{ℕ, String, ◌≡◌, Bool}
use safehire_proofops_bnb.Domain.Canonical.{Json}
use safehire_proofops_bnb.Domain.Models.{Floats, Intent}
use safehire_proofops_bnb.Execution.Errors.{ok}
use safehire_proofops_bnb.Execution.Store.Schema.{Task}
use safehire_proofops_bnb.Execution.Service.Execute.{Call, Answer, execute}
use safehire_proofops_bnb.Execution.Service.Execute.Safety.{Certified, execute-Certified}
use safehire_proofops_bnb.Execution.Service.Interleaving.{System, start, Reach}
use safehire_proofops_bnb.Execution.Service.Interleaving.Reachable.{
  Reach-IsConsistent, start-IsConsistent,
}

module _ {F : Type 0} ⦃fl : Floats F⦄ (sha256_hex : Json → String) (allow : Bool)
    (adapter : Intent F → Answer F) (now later : ℕ) (id : String) (c : Call F) (s : System F)
    (r : Reach sha256_hex allow start s) where
  -- In a reachable state, an execution that returns was authorised: the task was APPROVED, its
  -- policy grants the intent every authority, the mode is DEMO, and the stored simulation passed
  -- for this very request and policy and had not expired. The task ends SUCCEEDED or FAILED.
  pub reachable-Certified :
      (t : Task F)
      → (execute sha256_hex allow adapter now later id c s.world).0 ≡ ok t
      → Certified sha256_hex allow adapter now later id c s.world t
  reachable-Certified t e =
      execute-Certified sha256_hex allow adapter now later id c s.world t
        (Reach-IsConsistent sha256_hex allow r (start-IsConsistent sha256_hex allow)).1.keyed e
