-- ===== src/Execution/Store/Tasks.antt =====
-- The `tasks`, `idempotency` and `policies` tables of proofops/execution/store.py.
pub mod Laws
use Prim.Native.Nat.{min, max}
use safehire_proofops_bnb.Prelude.{
  ℕ, zero, suc, ◌+◌, String, Bool, Option, none, some, List, [], ◌∷◌, map, ◌==◌, leb, str_eq,
  if◌then◌else◌, take, keep,
}
use safehire_proofops_bnb.Prelude.Dict.{Dict, lookup, insert}
use safehire_proofops_bnb.Prelude.Text.{lower}
use safehire_proofops_bnb.Domain.Canonical.{Json}
use safehire_proofops_bnb.Domain.Models.{TaskState, draft, Policy}
use safehire_proofops_bnb.Execution.Errors.{
  Result, ok, err, policy_not_found, task_not_found, duplicate_request, lock_conflict, integrity,
}
use safehire_proofops_bnb.Execution.Store.Schema.{
  Simulation, Outcome, Task, PolicyRow, KeyRow, Database,
}

abbrev pub or_else {ℓ} : {A : Type ℓ} → Option A → Option A → Option A
or_else none old = old
or_else (some new) old = some new

-- `ORDER BY created_at DESC`; rows of equal age stay in the order of insertion.
module _ {R : Type 0} (created : R → ℕ) where
  place : R → List R → List R
  place r [] = r ∷ []
  place r (s ∷ rs) = if leb (created s) (created r) then r ∷ s ∷ rs else s ∷ place r rs

  unfoldable pub newest_first : List R → List R
  unfolding place
  newest_first [] = []
  newest_first (r ∷ rs) = place r (newest_first rs)

module _ {F : Type 0} where
  unfoldable pub get_task : String → Database F → Result (Task F)
  get_task id db = elim (lookup id db.tasks) [ none ↦ err (task_not_found id) | some t ↦ ok t ]

  unfoldable pub draft_task : ℕ → String → String → String → Json → Task F
  draft_task now id agent_id policy_id request = record {
    task_id = id;
    agent_id = agent_id;
    policy_id = policy_id;
    state = draft;
    request = request;
    simulation = none;
    receipt = none;
    created_at = now;
    updated_at = now;
    version = 0;
  }

  unfoldable pub create_task :
      ℕ → String → String → String → Json → String → Database F → Result (Task F × Database F)
  unfolding draft_task
  create_task now id agent_id policy_id request key db = elim (lookup key db.idempotency) [
    | some held ↦ err (duplicate_request held.task_id)
    | none ↦ elim (lookup id db.tasks) [
      | some _ ↦ err integrity
      | none ↦
          let task = draft_task now id agent_id policy_id request in
          ok (
            task,
            record db {
              tasks = insert id task db.tasks;
              idempotency = insert key (record { task_id = id; recorded_at = now }) db.idempotency;
            },
          )
    ]
  ]

  unfoldable pub updated : ℕ → TaskState → Option Simulation → Option (Outcome F) → Task F → Task F
  updated now state simulation receipt t = record t {
    state = state;
    simulation = or_else simulation t.simulation;
    receipt = or_else receipt t.receipt;
    updated_at = now;
    version = t.version + 1;
  }

  -- The optimistic lock: the row changes only at the version that the caller has read.
  unfoldable pub update_task :
      ℕ
      → String
      → ℕ
      → TaskState
      → Option Simulation
      → Option (Outcome F)
      → Database F
      → Result (Task F × Database F)
  unfolding updated
  update_task now id expected_version state simulation receipt db = elim (lookup id db.tasks) [
    | none ↦ err (task_not_found id)
    | some t ↦
        let t' = updated now state simulation receipt t in
        if t.version == expected_version
        then ok (t', record db { tasks = insert id t' db.tasks })
        else err lock_conflict
  ]

  values : Dict (Task F) → List (Task F)
  values = map (λ e. e.1)

  pub list_tasks : String → ℕ → Database F → List (Task F)
  unfolding values newest_first
  list_tasks policy_id limit db =
      let all = values db.tasks in
      let rows =
        if str_eq policy_id "" then all else keep (λ t. str_eq t.policy_id policy_id) all in
      take (max 1 (min limit 500)) (newest_first (λ t. t.created_at) rows)

  unfoldable pub has_idempotency : String → Database F → Bool
  has_idempotency key db = elim (lookup key db.idempotency) [
    | none ↦ Bool.false
    | some _ ↦ Bool.true
  ]

  unfoldable pub get_policy : String → Database F → Result (Policy F)
  get_policy id db = elim (lookup id db.policies) [
    | none ↦ err (policy_not_found id)
    | some r ↦ ok r.policy
  ]

  -- The upsert keeps `created_at` of a row that is there.
  created : ℕ → Option (PolicyRow F) → ℕ
  created now none = now
  created now (some r) = r.created_at

  unfoldable pub row_of : ℕ → Policy F → Database F → PolicyRow F
  unfolding created
  row_of now policy db = record {
    policy = policy;
    created_at = created now (lookup policy.policy_id db.policies);
    updated_at = now;
  }

  unfoldable pub save_policy : ℕ → Policy F → Database F → Policy F × Database F
  unfolding row_of
  save_policy now policy db =
      (policy, record db { policies = insert policy.policy_id (row_of now policy db) db.policies })

  pub list_policies : String → Database F → List (Policy F)
  unfolding newest_first
  list_policies owner db =
      let all : List (PolicyRow F) = map (λ e. e.1) db.policies in
      let rows =
        if str_eq owner ""
        then all
        else keep (λ r. str_eq (lower r.policy.owner) (lower owner)) all in
      map (λ r. r.policy) (newest_first (λ r. r.created_at) rows)
