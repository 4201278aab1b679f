-- ===== src/Execution/Errors.antt =====
-- The exceptions of proofops/domain/errors.py that the execution code raises, with Python's own
-- `KeyError`, `ValueError` and `RuntimeError`, and the result of a call that may raise.
pub use safehire_proofops_bnb.Prelude.Raising.{
  ok, err, guard, or_raise, bind-ok, guard-ok, or_raise-ok, Result-cases, ◌>>=◌, ◌>>◌,
}
use safehire_proofops_bnb.Prelude.Raising.{Raising}
use safehire_proofops_bnb.Prelude.{String, List}
use safehire_proofops_bnb.Domain.Models.{TaskState}
use safehire_proofops_bnb.Execution.RiskGate.{Reason}

pub data Error : Type 0 where
  policy_not_found task_not_found : String → Error
  challenge_not_found session_not_found : Error
  -- `DuplicateRequestError`, with the task that holds the key
  duplicate_request : String → Error
  -- `RuntimeError("optimistic lock conflict")`
  lock_conflict : Error
  -- `sqlite3.IntegrityError` of an `INSERT` whose primary key is taken
  integrity : Error
  -- `TaskTransitionError`
  bad_transition : TaskState → TaskState → Error
  -- `RiskRejectedError` of the gate, of `simulate` and of `execute`
  risk_rejected : List Reason → Error
  simulation_requires_explicit_pass trusted_chain_simulator_not_configured : Error
  -- `ValueError`
  bad_ttl empty_allowlist agent_mismatch : Error
  challenge_used challenge_expired message_mismatch signer_mismatch bad_address bad_signature :
      Error
  token_required session_expired wrong_owner : Error

abbrev pub Result {ℓ} : Type ℓ → Type ℓ
Result A = Raising Error A
