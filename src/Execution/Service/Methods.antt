-- ===== src/Execution/Service/Methods.antt =====
-- Each method of `TaskService` but `execute` keeps the tasks on the table of transitions.
use safehire_proofops_bnb.Prelude.{
  ℕ, String, ◌≡◌, refl, ◌≢◌, inl, inr, Bool, true, ◌&&◌, none, some, arith, str_eq, Bool-cases,
  Option-cases,
}
use safehire_proofops_bnb.Prelude.Dict.{lookup, insert, lookup-insert_self}
use safehire_proofops_bnb.Domain.Canonical.{Json, Fields}
use safehire_proofops_bnb.Domain.Models.{
  TaskState, executing, succeeded, failed, simulated, approval_required, approved, revoked,
}
use safehire_proofops_bnb.Execution.StateMachine.{can_transition, stay}
use safehire_proofops_bnb.Execution.Store.Schema.{Task}
use safehire_proofops_bnb.Execution.Store.Tasks.{
  get_task, draft_task, create_task, updated, update_task, get_policy, save_policy,
}
use safehire_proofops_bnb.Execution.Exec.{World}
use safehire_proofops_bnb.Execution.Service.{
  PolicyRequest, require_transition, create_policy, revoke_policy, new_task, advance, simulate,
  simulation_of, passed_is_true, approve, revoke_task,
}
use safehire_proofops_bnb.Execution.Service.Tracks.{
  WellKeyed, Tracks-trans, Tracks-insert, WellKeyed-insert, home,
}
use safehire_proofops_bnb.Execution.Service.Keeps.{
  Keeps, Keeps-same, Keeps-moved, Freezes-trans, Freezes-insert, moved_idle,
}

-- No target of these methods is reached from EXECUTING.
idle_before :
    (s target : TaskState)
    → can_transition s target ≡ true
    → target ≢ succeeded
    → target ≢ failed
    → s ≢ executing
unfolding can_transition
idle_before executing executing can a b e = cc
idle_before executing succeeded can a b e = a refl
idle_before executing failed can a b e = b refl
idle_before executing _ can a b e = cc
idle_before _ target can a b e = cc

module _ {F : Type 0} where
  pub create_policy-Keeps :
      (now : ℕ) (id : String) (r : PolicyRequest F) (w : World F)
      → WellKeyed w
      → Keeps (create_policy now id r) w
  unfolding create_policy save_policy
  create_policy-Keeps now id r w k = Keeps-same (ground arith) k

  pub revoke_policy-Keeps :
      (now : ℕ) (id : String) (w : World F) → WellKeyed w → Keeps (revoke_policy now id) w
  unfolding revoke_policy save_policy get_policy
  revoke_policy-Keeps now id w k = Keeps-same (ground arith) k

  pub approve-Keeps : (now : ℕ) (id : String) (w : World F) → WellKeyed w → Keeps (approve now id) w
  unfolding approve require_transition advance get_task update_task
  approve-Keeps now id w k = elim (Option-cases (lookup id w.db.tasks)) [
    | inl gone ↦ Keeps-same (ground arith) k
    | inr (t, here) ↦
        let stored = home id t k here in
        let own = k.keyed id t here in
        elim (Bool-cases (can_transition t.state approved)) [
          | inl can ↦
              Keeps-moved now t approved none none stored can
                (idle_before _ _ can (λ e. cc) (λ e. cc)) (λ e. cc) (ground arith) k
          | inr cannot ↦ Keeps-same (ground arith) k
        ]
  ]

  pub revoke_task-Keeps :
      (now : ℕ) (id : String) (w : World F) → WellKeyed w → Keeps (revoke_task now id) w
  unfolding revoke_task require_transition advance get_task update_task
  revoke_task-Keeps now id w k = elim (Option-cases (lookup id w.db.tasks)) [
    | inl gone ↦ Keeps-same (ground arith) k
    | inr (t, here) ↦
        let stored = home id t k here in
        let own = k.keyed id t here in
        elim (Bool-cases (can_transition t.state revoked)) [
          | inl can ↦
              Keeps-moved now t revoked none none stored can
                (idle_before _ _ can (λ e. cc) (λ e. cc)) (λ e. cc) (ground arith) k
          | inr cannot ↦ Keeps-same (ground arith) k
        ]
  ]

  -- Both writes of a simulation that passes.
  simulated_twice :
      (sha256_hex : Json → String) (now : ℕ) (id : String) (result : Fields) (w : World F)
      (t : Task F)
      → WellKeyed w
      → lookup id w.db.tasks ≡ some t
      → lookup t.task_id w.db.tasks ≡ some t
      → (can_transition t.state simulated && passed_is_true result) ≡ true
      → Keeps (simulate sha256_hex now id result) w
  unfolding simulate require_transition advance get_task update_task
  simulated_twice sha256_hex now id result w t k here stored passed =
      let own = k.keyed id t here in
      let sim = some (simulation_of sha256_hex now t result) in
      let t' = updated now simulated sim none t in
      let w' : World F = record w { db = record w.db { tasks = insert t.task_id t' w.db.tasks } } in
      let (tr, wk, fr) =
        moved_idle {w = w} {w' = w'} now t simulated sim none stored (ground arith)
          (idle_before t.state simulated (ground arith) (λ e. cc) (λ e. cc)) (λ e. cc) refl k in
      let again : lookup t'.task_id w'.db.tasks ≡ some t' =
        lookup-insert_self t.task_id t' w.db.tasks in
      let (tr', wk', fr') =
        moved_idle {w = w'} {w' = (simulate sha256_hex now id result w).1} now t' approval_required
          none none again refl (λ e. cc) (λ e. cc) (ground (arith, again)) wk in
      record { tracks = Tracks-trans tr tr'; keyed = wk'; freezes = Freezes-trans fr fr' }

  pub simulate-Keeps :
      (sha256_hex : Json → String) (now : ℕ) (id : String) (result : Fields) (w : World F)
      → WellKeyed w
      → Keeps (simulate sha256_hex now id result) w
  unfolding simulate require_transition advance get_task update_task
  simulate-Keeps sha256_hex now id result w k = elim (Option-cases (lookup id w.db.tasks)) [
    | inl gone ↦ Keeps-same (ground arith) k
    | inr (t, here) ↦
        let stored = home id t k here in
        let own = k.keyed id t here in
        elim (Bool-cases (can_transition t.state simulated && passed_is_true result)) [
          | inr refused ↦ Keeps-same (ground arith) k
          | inl passed ↦ simulated_twice sha256_hex now id result w t k here stored passed
        ]
  ]

  -- The key is free and the policy is the agent's.
  accepted : String → String → String → World F → Bool
  accepted policy_id agent_id key w = elim (lookup policy_id w.db.policies) [
    | none ↦ Bool.false
    | some r ↦
        str_eq r.policy.agent_id agent_id
        && elim (lookup key w.db.idempotency) [ none ↦ true | some _ ↦ Bool.false ]
  ]

  pub new_task-Keeps :
      (now : ℕ) (id agent_id policy_id : String) (request : Json) (key : String) (w : World F)
      → WellKeyed w
      → Keeps (new_task now id agent_id policy_id request key) w
  unfolding new_task get_policy create_task accepted
  new_task-Keeps now id agent_id policy_id request key w k =
      elim (Option-cases (lookup id w.db.tasks)) [
        | inr (t, taken) ↦ Keeps-same (ground arith) k
        | inl free ↦ elim (Bool-cases (accepted policy_id agent_id key w)) [
          | inr refused ↦ Keeps-same (ground arith) k
          | inl fine ↦
              let t = draft_task now id agent_id policy_id request in
              let e : (new_task now id agent_id policy_id request key w).1.db.tasks
                  ≡ insert id t w.db.tasks =
                ground arith in
              record {
                tracks = Tracks-insert id t e (rw free stay);
                keyed = WellKeyed-insert id t e refl k;
                freezes = Freezes-insert id t e (λ u there x. cc) (λ x. cc);
              }
        ]
      ]
