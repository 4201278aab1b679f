-- ===== src/Execution/Store/Tasks/Laws.antt =====
-- What the optimistic lock and the idempotency keys of proofops/execution/store.py guarantee.
use text.Mathlib.TextPositions.{eq_refl}
use safehire_proofops_bnb.Prelude.{
  ℕ, ◌≤◌, String, ◌≡◌, ◌≢◌, Option, some, arith, str_eq, if◌then◌else◌, min, max, length,
  length-take_le,
}
use safehire_proofops_bnb.Prelude.Dict.{lookup, insert, lookup-insert}
use safehire_proofops_bnb.Domain.Canonical.{Json}
use safehire_proofops_bnb.Domain.Models.{TaskState, draft, Policy}
use safehire_proofops_bnb.Execution.Errors.{ok, err, duplicate_request, lock_conflict}
use safehire_proofops_bnb.Execution.Store.Schema.{Simulation, Outcome, Task, Database}
use safehire_proofops_bnb.Execution.Store.Tasks.{
  create_task, updated, update_task, list_tasks, get_policy, row_of, save_policy,
}

module _ {F : Type 0} where
  -- Writing at the version that is stored succeeds, and the database is known.
  pub update_task_current :
      (now : ℕ) (id : String) (s : TaskState) (sim : Option Simulation) (r : Option (Outcome F))
      (db : Database F) (t : Task F)
      → lookup id db.tasks ≡ some t
      → update_task now id t.version s sim r db
        ≡ ok (
          updated now s sim r t,
          record db { tasks = insert id (updated now s sim r t) db.tasks },
        )
  unfolding update_task
  update_task_current now id s sim r db t e = rw (e, update_task) (ground arith)

  -- Writing at any other version is refused.
  pub update_task_stale :
      (now : ℕ) (id : String) (v : ℕ) (s : TaskState) (sim : Option Simulation)
      (r : Option (Outcome F)) (db : Database F) (t : Task F)
      → lookup id db.tasks ≡ some t
      → t.version ≢ v
      → update_task now id v s sim r db ≡ err lock_conflict
  unfolding update_task
  update_task_stale now id v s sim r db t e ne = rw (e, update_task) (ground arith)

  -- Of two writers that read a row at the same version, only the first succeeds: the second is
  -- refused with a lock conflict, whatever state, simulation or receipt it writes.
  pub second_writer_conflicts :
      (now later : ℕ) (id : String) (v : ℕ) (s s' : TaskState) (sim sim' : Option Simulation)
      (r r' : Option (Outcome F)) (db : Database F) (t : Task F) (db' : Database F)
      → update_task now id v s sim r db ≡ ok (t, db')
      → update_task later id v s' sim' r' db' ≡ err lock_conflict
  unfolding update_task updated
  second_writer_conflicts now later id v s s' sim sim' r r' db t db' e =
      ground (arith, lookup-insert id id t db.tasks, eq_refl id)

  -- Creating a task takes its key: every later creation under the key is refused, with the task
  -- that holds it.
  pub create_task-key :
      (now later : ℕ) (id id' agent agent' policy policy' key : String) (request request' : Json)
      (db : Database F) (t : Task F) (db' : Database F)
      → create_task now id agent policy request key db ≡ ok (t, db')
      → (create_task later id' agent' policy' request' key db' ≡ err (duplicate_request id))
        × (lookup id db'.tasks ≡ some t)
        × (t.state ≡ draft)
        × (t.version ≡ 0)
  unfolding create_task
  create_task-key now later id id' agent agent' policy policy' key request request' db t db' e =
      ground (
        arith,
        lookup-insert id id t db.tasks,
        lookup-insert key key (record { task_id = id; recorded_at = now }) db.idempotency,
        eq_refl id,
        eq_refl key,
      )

  -- A listing has at most 500 tasks, and at most as many as asked for where that is positive.
  pub list_tasks-bounded :
      (policy_id : String) (limit : ℕ) (db : Database F)
      → length (list_tasks policy_id limit db) ≤ max 1 (min limit 500)
  unfolding list_tasks
  list_tasks-bounded policy_id limit db = length-take_le _ _

  -- Reading a policy after a save gives the saved one under its id, and what was there under any
  -- other id.
  pub get_policy-save_policy :
      (now : ℕ) (id : String) (q : Policy F) (db : Database F)
      → get_policy id (save_policy now q db).1
        ≡ (if str_eq q.policy_id id then ok q else get_policy id db)
  unfolding get_policy save_policy
  get_policy-save_policy now id q db =
      ground (arith, lookup-insert q.policy_id id (row_of now q db) db.policies)
