-- ===== src/Execution/Store/Schema.antt =====
-- The tables of proofops/execution/store.py.
use safehire_proofops_bnb.Prelude.{ℕ, String, Bool, List, [], Option}
use safehire_proofops_bnb.Prelude.Dict.{Dict}
use safehire_proofops_bnb.Domain.Canonical.{Json}
use safehire_proofops_bnb.Domain.Models.{TaskState, Policy, Receipt}

-- The `simulation_json` column, which only `TaskService.simulate` writes.
pub record Simulation : Type 0 where
  pub passed : Bool
  pub request_hash : String
  pub policy_id : String
  pub expires_at : ℕ
  pub result : Json

-- The `receipt_json` column: the adapter's receipt, or the failure that `execute` records.
pub data Outcome (F : Type 0) : Type 0 where
  receipt : Receipt F → Outcome F
  raised : String → String → Outcome F

-- `TaskRecord`
pub record Task (F : Type 0) : Type 0 where
  pub task_id : String
  pub agent_id : String
  pub policy_id : String
  pub state : TaskState
  pub request : Json
  pub simulation : Option Simulation
  pub receipt : Option (Outcome F)
  pub created_at : ℕ
  pub updated_at : ℕ
  pub version : ℕ

pub record PolicyRow (F : Type 0) : Type 0 where
  pub policy : Policy F
  pub created_at : ℕ
  pub updated_at : ℕ

pub record KeyRow : Type 0 where
  pub task_id : String
  pub recorded_at : ℕ

pub record SpendRow (F : Type 0) : Type 0 where
  pub policy_id : String
  pub day : ℕ
  pub spent_usd : F

pub record Challenge : Type 0 where
  pub message : String
  pub expires_at : ℕ
  pub used : Bool

pub record Session : Type 0 where
  pub owner : String
  pub expires_at : ℕ

pub record Database (F : Type 0) : Type 0 where
  pub tasks : Dict (Task F)
  pub policies : Dict (PolicyRow F)
  pub idempotency : Dict KeyRow
  pub policy_spend : List (SpendRow F)
  pub flags : Dict String
  pub wallet_challenges : Dict Challenge
  pub wallet_sessions : Dict Session

abbrev pub empty_database : {F : Type 0} → Database F
empty_database = record {
  tasks = [];
  policies = [];
  idempotency = [];
  policy_spend = [];
  flags = [];
  wallet_challenges = [];
  wallet_sessions = [];
}
