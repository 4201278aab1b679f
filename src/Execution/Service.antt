-- ===== src/Execution/Service.antt =====
-- proofops/execution/service.py: `TaskService`, with the gate wired as in services/bootstrap.py.
-- `sha256_hex` is the digest of canonical.py; ids and clock readings are arguments of each method.
pub mod Execute
pub mod Tracks
pub mod Keeps
pub mod Methods
pub mod Interleaving
use safehire_proofops_bnb.Prelude.{
  ℕ, ◌+◌, String, ◌≡◌, Bool, true, false, not, ◌&&◌, ◌||◌, Option, none, some, List, [], ◌∷◌, map,
  ltb, leb, ◌==◌, str_eq, if◌then◌else◌, is_empty,
}
use safehire_proofops_bnb.Prelude.Text.{lower}
use safehire_proofops_bnb.Domain.Canonical.{Json, Fields, dict, end, field, bool}
use safehire_proofops_bnb.Domain.Models.{
  TaskState, simulated, approval_required, approved, revoked, Policy, minutes,
}
use safehire_proofops_bnb.Execution.StateMachine.{can_transition}
use safehire_proofops_bnb.Execution.Errors.{
  Error, Result, ok, bad_transition, bad_ttl, empty_allowlist, agent_mismatch,
  simulation_requires_explicit_pass,
}
use safehire_proofops_bnb.Execution.Store.Schema.{Simulation, Outcome, Task}
use safehire_proofops_bnb.Execution.Store.Tasks.{
  get_task, create_task, update_task, get_policy, save_policy,
}
use safehire_proofops_bnb.Execution.Exec.{
  Event, permission_created, permission_revoked, task_created, task_simulated, task_approved,
  task_revoked, World, Exec, pure, raise, read, write, ◌>>=◌, ◌>>◌, require, append,
}

-- `result.get("passed") is True`; a JSON object has a key once.
abbrev pub passed_is_true : Fields → Bool
passed_is_true end = false
passed_is_true (field k (bool true) fs) = str_eq k "passed" || passed_is_true fs
passed_is_true (field k _ fs) = not (str_eq k "passed") && passed_is_true fs

-- The keyword arguments of `create_policy`.
pub record PolicyRequest (F : Type 0) : Type 0 where
  pub owner : String
  pub agent_id : String
  pub chain_id : ℕ
  pub allowed_targets : List String
  pub allowed_methods : List String
  pub max_value_usd : F
  pub daily_value_usd : F
  pub max_slippage_bps : ℕ
  pub ttl_minutes : ℕ
  pub require_human_approval : Bool

module _ {F : Type 0} where
  unfoldable pub require_transition : TaskState → TaskState → Exec F (Unit {0})
  unfolding can_transition
  require_transition current target =
      require (can_transition current target) (bad_transition current target)

  unfoldable pub policy_of : ℕ → String → PolicyRequest F → Policy F
  policy_of now id r = record {
    policy_id = id;
    owner = r.owner;
    agent_id = r.agent_id;
    chain_id = r.chain_id;
    allowed_targets = map lower r.allowed_targets;
    allowed_methods = map lower r.allowed_methods;
    max_value_usd = r.max_value_usd;
    daily_value_usd = r.daily_value_usd;
    max_slippage_bps = r.max_slippage_bps;
    expires_at = now + minutes r.ttl_minutes;
    require_human_approval = r.require_human_approval;
    revoked = false;
  }

  unfoldable pub create_policy : ℕ → String → PolicyRequest F → Exec F (Policy F)
  unfolding policy_of
  create_policy now id r = do
    require (ltb 0 r.ttl_minutes && leb r.ttl_minutes 1440) bad_ttl
    require (not (is_empty r.allowed_targets || is_empty r.allowed_methods)) empty_allowlist
    policy ← write (λ db. ok (save_policy now (policy_of now id r) db))
    append (permission_created policy)
    pure policy

  unfoldable pub revoke_policy : ℕ → String → Exec F (Policy F)
  revoke_policy now id = do
    current ← read (get_policy id)
    revoked_policy ← write (λ db. ok (save_policy now (record current { revoked = true }) db))
    append (permission_revoked revoked_policy)
    pure revoked_policy

  unfoldable pub new_task : ℕ → String → String → String → Json → String → Exec F (Task F)
  new_task now id agent_id policy_id request key = do
    policy ← read (get_policy policy_id)
    require (str_eq policy.agent_id agent_id) agent_mismatch
    task ← write (create_task now id agent_id policy_id request key)
    append (task_created task)
    pure task

  -- `self._store.update_task` with the version of the task at hand
  unfoldable pub advance :
      ℕ → Task F → TaskState → Option Simulation → Option (Outcome F) → Exec F (Task F)
  advance now task state simulation receipt =
      write (update_task now task.task_id task.version state simulation receipt)

  unfoldable pub simulation_of : (Json → String) → ℕ → Task F → Fields → Simulation
  simulation_of sha256_hex now task result = record {
    passed = true;
    request_hash = sha256_hex task.request;
    policy_id = task.policy_id;
    expires_at = now + minutes 5;
    result = dict result;
  }

  unfoldable pub simulate : (Json → String) → ℕ → String → Fields → Exec F (Task F)
  unfolding require_transition advance simulation_of
  simulate sha256_hex now id result = do
    task ← read (get_task id)
    require_transition task.state simulated
    require (passed_is_true result) simulation_requires_explicit_pass
    task' ← advance now task simulated (some (simulation_of sha256_hex now task result)) none
    require_transition task'.state approval_required
    task'' ← advance now task' approval_required none none
    append (task_simulated task'')
    pure task''

  unfoldable pub approve : ℕ → String → Exec F (Task F)
  unfolding require_transition advance
  approve now id = do
    task ← read (get_task id)
    require_transition task.state approved
    task' ← advance now task approved none none
    append (task_approved task')
    pure task'

  unfoldable pub revoke_task : ℕ → String → Exec F (Task F)
  unfolding require_transition advance
  revoke_task now id = do
    task ← read (get_task id)
    require_transition task.state revoked
    task' ← advance now task revoked none none
    append (task_revoked task')
    pure task'
