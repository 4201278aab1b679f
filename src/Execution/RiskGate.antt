-- ===== src/Execution/RiskGate.antt =====
-- proofops/execution/risk_gate.py: the deterministic authorization boundary.
pub mod Authorization
use safehire_proofops_bnb.Prelude.{
  ℕ, String, Bool, true, false, not, ◌&&◌, ◌||◌, List, [], ◌∷◌, map, ◌==◌, leb, ltb, str_eq,
  if◌then◌else◌, is_empty,
}
use safehire_proofops_bnb.Prelude.Members.{member}
use safehire_proofops_bnb.Prelude.Text.{lower}
use safehire_proofops_bnb.Domain.Models.{
  Floats, DataSource, demo_fixture, ExecutionMode, demo, bsc_testnet, bsc_mainnet, Policy, Intent,
  is_expired,
}

pub data Reason : Type 0 where
  global_kill_switch_enabled policy_revoked policy_expired intent_deadline_expired : Reason
  agent_not_authorized chain_not_authorized unsupported_chain bsc_mainnet_disabled : Reason
  target_not_allowlisted method_not_allowlisted negative_value : Reason
  per_transaction_cap_exceeded daily_cap_exceeded slippage_cap_exceeded : Reason
  simulation_required human_approval_required idempotency_key_required : Reason
  duplicate_idempotency_key fixture_cannot_execute_onchain mode_chain_mismatch : Reason
  all_checks_passed : Reason

-- What the gate reads besides its arguments: its settings and the answers of its callables.
pub record GateView (F : Type 0) : Type 0 where
  pub allow_bsc_mainnet : Bool
  pub kill_switch : Bool
  pub spent_today : String → F
  pub idempotency_seen : String → Bool

pub record Decision : Type 0 where
  pub allowed : Bool
  pub reasons : List Reason
  pub policy_id : String

abbrev pub is_fixture : DataSource → Bool
is_fixture demo_fixture = true
is_fixture _ = false

abbrev pub is_demo : ExecutionMode → Bool
is_demo demo = true
is_demo _ = false

abbrev pub is_mainnet : ExecutionMode → Bool
is_mainnet bsc_mainnet = true
is_mainnet _ = false

abbrev pub is_testnet : ExecutionMode → Bool
is_testnet bsc_testnet = true
is_testnet _ = false

-- The reasons whose condition holds, in the order of the checks.
unfoldable pub collect : List (Bool × Reason) → List Reason
collect [] = []
collect ((failed, r) ∷ checks) = let rest = collect checks in if failed then r ∷ rest else rest

pub or_passed : List Reason → List Reason
or_passed [] = all_checks_passed ∷ []
or_passed (r ∷ rs) = r ∷ rs

module _ {F : Type 0} ⦃fl : Floats F⦄ where
  -- The `if` statements of `evaluate`, each with the reason that it appends.
  pub checks : GateView F → ℕ → Intent F → Policy F → List (Bool × Reason)
  unfolding is_expired
  checks gate now intent policy =
      (gate.kill_switch, global_kill_switch_enabled)
      ∷ (policy.revoked, policy_revoked)
      ∷ (is_expired policy now, policy_expired)
      ∷ (leb intent.deadline now, intent_deadline_expired)
      ∷ (not (str_eq intent.agent_id policy.agent_id), agent_not_authorized)
      ∷ (not (intent.chain_id == policy.chain_id), chain_not_authorized)
      ∷ (not (intent.chain_id == 56 || intent.chain_id == 97), unsupported_chain)
      ∷ (intent.chain_id == 56 && not gate.allow_bsc_mainnet, bsc_mainnet_disabled)
      ∷ (
        not (member (lower intent.target) (map lower policy.allowed_targets)),
        target_not_allowlisted,
      )
      ∷ (
        not (member (lower intent.method) (map lower policy.allowed_methods)),
        method_not_allowlisted,
      )
      ∷ (fl.lt intent.value_usd fl.zero_usd, negative_value)
      ∷ (fl.lt policy.max_value_usd intent.value_usd, per_transaction_cap_exceeded)
      ∷ (
        fl.lt policy.daily_value_usd (fl.add (gate.spent_today policy.policy_id) intent.value_usd),
        daily_cap_exceeded,
      )
      ∷ (ltb policy.max_slippage_bps intent.slippage_bps, slippage_cap_exceeded)
      ∷ (not intent.simulation_passed, simulation_required)
      ∷ (policy.require_human_approval && not intent.human_approved, human_approval_required)
      ∷ (str_eq intent.idempotency_key "", idempotency_key_required)
      ∷ (
        not (str_eq intent.idempotency_key "") && gate.idempotency_seen intent.idempotency_key,
        duplicate_idempotency_key,
      )
      ∷ (is_fixture intent.source && not (is_demo intent.mode), fixture_cannot_execute_onchain)
      ∷ (is_mainnet intent.mode && not (intent.chain_id == 56), mode_chain_mismatch)
      ∷ (is_testnet intent.mode && not (intent.chain_id == 97), mode_chain_mismatch)
      ∷ []

  unfoldable pub evaluate : GateView F → ℕ → Intent F → Policy F → Decision
  unfolding collect checks or_passed
  evaluate gate now intent policy =
      let reasons = collect (checks gate now intent policy) in
      record {
        allowed = is_empty reasons;
        reasons = or_passed reasons;
        policy_id = policy.policy_id;
      }
