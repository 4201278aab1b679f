-- ===== src/Execution/Service/Execute.antt =====
-- `TaskService.execute` of proofops/execution/service.py, in the two parts that its `await` makes:
-- `begin` runs up to the call of the adapter, `finish` from its answer on.
pub mod Laws
pub mod Safety
use safehire_proofops_bnb.Prelude.{
  ℕ, ◌+◌, String, Bool, true, false, ◌&&◌, Option, none, some, ltb, str_eq, if◌then◌else◌,
}
use safehire_proofops_bnb.Prelude.Text.{lower}
use safehire_proofops_bnb.Domain.Canonical.{Json}
use safehire_proofops_bnb.Domain.Models.{
  Floats, DataSource, ExecutionMode, TaskState, approved, executing, succeeded, failed, Intent,
  Receipt, minutes,
}
use safehire_proofops_bnb.Execution.StateMachine.{can_transition, state_eq}
use safehire_proofops_bnb.Execution.RiskGate.{GateView, evaluate, is_demo}
use safehire_proofops_bnb.Execution.Errors.{
  Error, Result, ok, err, task_not_found, lock_conflict, bad_transition, risk_rejected,
  trusted_chain_simulator_not_configured,
}
use safehire_proofops_bnb.Execution.Store.Schema.{
  Simulation, Outcome, receipt, raised, Task, Database,
}
use safehire_proofops_bnb.Execution.Store.Tasks.{get_task, update_task, get_policy}
use safehire_proofops_bnb.Execution.Store.Budget.{spent_today, add_spend, get_flag}
use safehire_proofops_bnb.Execution.Service.{require_transition, advance}
use safehire_proofops_bnb.Execution.Exec.{
  risk_decision, task_executed, World, Exec, pure, read, write, ◌>>=◌, ◌>>◌, require, append,
}

-- The keyword arguments of `execute`.
pub record Call (F : Type 0) : Type 0 where
  pub idempotency_key : String
  pub chain_id : ℕ
  pub target : String
  pub method : String
  pub value_usd : F
  pub slippage_bps : ℕ
  pub mode : ExecutionMode
  pub source : DataSource
  pub metadata : Json

-- What the awaited adapter does: it returns a receipt, or raises an exception with a type and a text.
pub data Answer (F : Type 0) : Type 0 where
  returned : Receipt F → Answer F
  threw : String → String → Answer F

-- The state that `execute` holds across its `await`.
pub record Pending (F : Type 0) : Type 0 where
  pub task : Task F
  pub intent : Intent F

-- The stored simulation passed, binds this request and policy, and has not expired.
unfoldable pub simulation_valid : (Json → String) → ℕ → Json → String → Option Simulation → Bool
simulation_valid sha256_hex now request policy_id none = false
simulation_valid sha256_hex now request policy_id (some s) =
    s.passed
    && (str_eq s.request_hash (sha256_hex request)
        && (str_eq s.policy_id policy_id && ltb now s.expires_at))

-- The exception that `update_task` raises, as `execute` records it.
failure_of : {F : Type 0} → Error → Outcome F
failure_of lock_conflict = raised "RuntimeError" "optimistic lock conflict"
failure_of (task_not_found id) = raised "KeyError" id
failure_of _ = raised "Exception" ""

module _ {F : Type 0} ⦃fl : Floats F⦄ where
  -- bootstrap.py: creation keys are no execution keys, so no key has been seen.
  unfoldable pub gate_view : Bool → ℕ → Database F → GateView F
  gate_view allow_bsc_mainnet now db = record {
    allow_bsc_mainnet = allow_bsc_mainnet;
    kill_switch = str_eq (get_flag "kill_switch" "false" db) "true";
    spent_today = λ id. spent_today now id db;
    idempotency_seen = λ _. false;
  }

  unfoldable pub intent_of : (Json → String) → ℕ → Call F → Task F → Intent F
  unfolding simulation_valid
  intent_of sha256_hex now call task = record {
    task_id = task.task_id;
    idempotency_key = call.idempotency_key;
    agent_id = task.agent_id;
    chain_id = call.chain_id;
    target = lower call.target;
    method = lower call.method;
    value_usd = call.value_usd;
    slippage_bps = call.slippage_bps;
    deadline = now + minutes 5;
    mode = call.mode;
    simulation_passed = simulation_valid sha256_hex now task.request task.policy_id task.simulation;
    human_approved = state_eq task.state approved;
    source = call.source;
    metadata = call.metadata;
    policy_id = task.policy_id;
  }

  unfoldable pub begin : (Json → String) → Bool → ℕ → String → Call F → Exec F (Pending F)
  unfolding gate_view intent_of require_transition advance
  begin sha256_hex allow_bsc_mainnet now id call = do
    task ← read (get_task id)
    policy ← read (get_policy task.policy_id)
    require (is_demo call.mode) trusted_chain_simulator_not_configured
    let intent = intent_of sha256_hex now call task
    decision ← read (λ db. ok (evaluate (gate_view allow_bsc_mainnet now db) now intent policy))
    append (risk_decision intent decision)
    require decision.allowed (risk_rejected decision.reasons)
    require_transition task.state executing
    task' ← advance now task executing none none
    pure (record { task = task'; intent = intent })

  -- The `except` branch: the failure is written at the version of the task at hand.
  record_failure : ℕ → Task F → Outcome F → Exec F (Task F)
  unfolding advance
  record_failure now task why = advance now task failed none (some why)

  spend : ℕ → Pending F → Bool → Exec F (Unit {0})
  spend now p success w = (
    ok tt,
    if success then record w { db = add_spend now p.task.policy_id p.intent.value_usd w.db } else w,
  )

  -- The `try` body after the adapter's receipt, and the `except` if the update raises.
  settle : ℕ → Pending F → Receipt F → Exec F (Task F)
  unfolding record_failure spend advance
  settle now p r w =
      let target_state = if r.success then succeeded else failed in
      let (done, w') = advance now p.task target_state none (some (receipt r)) w in
      elim done [
        | ok task' ↦ (spend now p r.success >> pure task') w'
        | err e ↦ record_failure now p.task (failure_of e) w'
      ]

  conclude : ℕ → Pending F → Answer F → Exec F (Task F)
  unfolding settle record_failure failure_of
  conclude now p (returned r) = settle now p r
  conclude now p (threw name why) = record_failure now p.task (raised name why)

  unfoldable pub finish : ℕ → Pending F → Answer F → Exec F (Task F)
  unfolding conclude
  finish now p answer = do task ← conclude now p answer; append (task_executed task); pure task

  -- The whole method, when nothing else runs while the adapter is awaited.
  unfoldable pub execute :
      (Json → String) → Bool → (Intent F → Answer F) → ℕ → ℕ → String → Call F → Exec F (Task F)
  execute sha256_hex allow_bsc_mainnet adapter now later id call = do
    p ← begin sha256_hex allow_bsc_mainnet now id call
    finish later p (adapter p.intent)
