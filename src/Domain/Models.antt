-- ===== src/Domain/Models.antt =====
-- proofops/domain/models.py. A datetime is the number of its microseconds. A float is a value of a
-- type `F` with the operations of `Floats`: the code only compares and adds amounts of USD.
use safehire_proofops_bnb.Prelude.{ℕ, String, ◌≡◌, Bool, List, Option, leb, ◌*◌}
use safehire_proofops_bnb.Domain.Canonical.{Json}

pub record Floats (F : Type 0) : Type 0 where
  pub zero_usd : F
  pub add : F → F → F
  pub lt : F → F → Bool

-- IEEE addition of 0.0 changes no comparison, also at -0.0 and NaN.
pub record FloatLaws {F : Type 0} (fl : Floats F) : Type 0 where
  pub lt-add_zero : (d v : F) → fl.lt d (fl.add fl.zero_usd v) ≡ fl.lt d v

pub data DataSource : Type 0 where
  live_onchain verified_historical testnet_evidence benchmark_generated demo_fixture self_reported :
      DataSource

pub data ExecutionMode : Type 0 where
  demo bsc_testnet bsc_mainnet : ExecutionMode

pub data TaskState : Type 0 where
  draft simulated approval_required approved executing succeeded failed revoked : TaskState

-- `PermissionPolicy`
pub record Policy (F : Type 0) : Type 0 where
  pub policy_id : String
  pub owner : String
  pub agent_id : String
  pub chain_id : ℕ
  pub allowed_targets : List String
  pub allowed_methods : List String
  pub max_value_usd : F
  pub daily_value_usd : F
  pub max_slippage_bps : ℕ
  pub expires_at : ℕ
  pub require_human_approval : Bool
  pub revoked : Bool

abbrev pub minutes : ℕ → ℕ
minutes n = n * 60000000

unfoldable pub is_expired : {F : Type 0} → Policy F → ℕ → Bool
is_expired p now = leb p.expires_at now

-- `ExecutionIntent`; `metadata` is what the caller sent, beside the task's policy
pub record Intent (F : Type 0) : Type 0 where
  pub task_id : String
  pub idempotency_key : String
  pub agent_id : String
  pub chain_id : ℕ
  pub target : String
  pub method : String
  pub value_usd : F
  pub slippage_bps : ℕ
  pub deadline : ℕ
  pub mode : ExecutionMode
  pub simulation_passed : Bool
  pub human_approved : Bool
  pub source : DataSource
  pub metadata : Json
  pub policy_id : String

-- `ExecutionReceipt`
pub record Receipt (F : Type 0) : Type 0 where
  pub task_id : String
  pub success : Bool
  pub mode : ExecutionMode
  pub tx_hash : Option String
  pub chain_id : ℕ
  pub gas_used : Option ℕ
  pub cost_usd : Option F
  pub source : DataSource
  pub result : Json
  pub error_code : Option String
  pub error_message : Option String
