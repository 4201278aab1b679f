-- ===== src/Execution/Service/Execute/Laws.antt =====
-- The two halves of `execute` (proofops/execution/service.py) by the world that they leave.
use safehire_proofops_bnb.Prelude.{
  ℕ, String, ◌≡◌, refl, sym, ◌⊎◌, inl, inr, Bool, true, false, ◌&&◌, none, some, [], ◌∷◌, ◌++◌,
  arith, if◌then◌else◌, Bool-cases,
}
use mathlib.Core.Path.{subst}
use safehire_proofops_bnb.Prelude.Dict.{lookup, insert, lookup-insert_self}
use safehire_proofops_bnb.Domain.Canonical.{Json}
use safehire_proofops_bnb.Domain.Models.{
  Floats, TaskState, approved, executing, succeeded, failed, Policy,
}
use safehire_proofops_bnb.Execution.StateMachine.{can_transition}
use safehire_proofops_bnb.Execution.RiskGate.{Decision, evaluate, is_demo}
use safehire_proofops_bnb.Execution.Errors.{
  Error, Result, ok, err, bad_transition, risk_rejected, trusted_chain_simulator_not_configured,
}
use safehire_proofops_bnb.Execution.Store.Schema.{Outcome, receipt, raised, Task, Database}
use safehire_proofops_bnb.Execution.Store.Tasks.{get_task, get_policy, updated, update_task}
use safehire_proofops_bnb.Execution.Store.Budget.{add_spend}
use safehire_proofops_bnb.Execution.Exec.{risk_decision, task_executed, World}
use safehire_proofops_bnb.Execution.Service.{require_transition, advance}
use safehire_proofops_bnb.Execution.Service.Tracks.{WellKeyed}
use safehire_proofops_bnb.Execution.Service.Execute.{
  Call, Answer, returned, threw, Pending, gate_view, intent_of, begin, finish, conclude, settle,
  record_failure, spend,
}

-- Only an approved task may begin to execute.
approved_of_can : (s : TaskState) → can_transition s executing ≡ true → s ≡ approved
unfolding can_transition
approved_of_can approved e = refl
approved_of_can _ e = cc

Result-cases : {A : Type 0} (r : Result A) → ((a : A) × (r ≡ ok a)) ⊎ ((e : Error) × (r ≡ err e))
Result-cases (ok a) = inl (a, refl)
Result-cases (err e) = inr (e, refl)

pub stored_of_get :
    {F : Type 0} (id : String) (t : Task F) (db : Database F)
    → get_task id db ≡ ok t
    → lookup id db.tasks ≡ some t
unfolding get_task
stored_of_get id t db e = ground arith

module _ {F : Type 0} ⦃fl : Floats F⦄ (sha256_hex : Json → String) (allow : Bool) (now : ℕ)
    (id : String) (c : Call F) (w : World F) where
  abbrev pub decide : Task F → Policy F → Decision
  decide t policy = evaluate (gate_view allow now w.db) now (intent_of sha256_hex now c t) policy

  abbrev pub started_world : Task F → Policy F → World F
  started_world t policy = record {
    db = record w.db { tasks = insert t.task_id (updated now executing none none t) w.db.tasks };
    ledger = w.ledger ++ (risk_decision (intent_of sha256_hex now c t) (decide t policy) ∷ []);
  }

  -- What holds where `begin` hands an intent to the adapter.
  pub record Began (p : Pending F) (w' : World F) : Type 0 where
    pub task : Task F
    pub policy : Policy F
    pub stored : lookup id w.db.tasks ≡ some task
    pub own_id : task.task_id ≡ id
    pub has_policy : get_policy task.policy_id w.db ≡ ok policy
    pub was_approved : task.state ≡ approved
    pub demo_only : is_demo c.mode ≡ true
    pub allowed : (decide task policy).allowed ≡ true
    pub now_executing : p.task ≡ updated now executing none none task
    pub its_intent : p.intent ≡ intent_of sha256_hex now c task
    pub its_world : w' ≡ started_world task policy

  abbrev pub Verdict : Result (Pending F) × World F → Type 0
  Verdict (ok p, w') = Began p w'
  Verdict (err e, w') = w'.db ≡ w.db

  pub Began-stored :
      (p : Pending F) (w' : World F) → Began p w' → lookup p.task.task_id w'.db.tasks ≡ some p.task
  unfolding updated
  Began-stored p w' b =
      rw (b.its_world, b.now_executing)
        (lookup-insert_self b.task.task_id (updated now executing none none b.task) w.db.tasks)

  pub begin_allowed :
      (t : Task F) (policy : Policy F)
      → lookup id w.db.tasks ≡ some t
      → t.task_id ≡ id
      → get_policy t.policy_id w.db ≡ ok policy
      → t.state ≡ approved
      → is_demo c.mode ≡ true
      → (decide t policy).allowed ≡ true
      → begin sha256_hex allow now id c w ≡ (
        ok (record {
          task = updated now executing none none t;
          intent = intent_of sha256_hex now c t;
        }),
        started_world t policy,
      )
  unfolding begin get_task require_transition can_transition advance update_task
  begin_allowed t policy stored own has state demo allowed = ground arith

  -- The other ways through `begin`; each raises, and at most the decision is in the ledger.
  abbrev Refused : Result (Pending F) × World F → Type 0
  Refused m = (e : Error) × (w' : World F) × (m ≡ (err e, w')) × (w'.db ≡ w.db)

  Refused-early :
      ((e : Error) × (get_task id w.db ≡ err e))
        ⊎ ((t : Task F) × (e : Error) × (get_task id w.db ≡ ok t)
            × (get_policy t.policy_id w.db ≡ err e))
      → Refused (begin sha256_hex allow now id c w)
  unfolding begin
  Refused-early (inl (e, gone)) = (e, w, ground arith, refl)
  Refused-early (inr (t, e, found, gone)) = (e, w, ground arith, refl)

  Refused-late :
      (t : Task F) (policy : Policy F)
      → get_task id w.db ≡ ok t
      → get_policy t.policy_id w.db ≡ ok policy
      → (is_demo c.mode && ((decide t policy).allowed && can_transition t.state executing)) ≡ false
      → Refused (begin sha256_hex allow now id c w)
  unfolding begin require_transition
  Refused-late t policy found has fails =
      let d = decide t policy in
      let logged : World F = record w {
        ledger = w.ledger ++ (risk_decision (intent_of sha256_hex now c t) d ∷ []);
      } in
      elim (Bool-cases (is_demo c.mode)) [
        | inr other ↦ (trusted_chain_simulator_not_configured, w, ground arith, refl)
        | inl demo ↦ elim (Bool-cases d.allowed) [
          | inr rejected ↦ (risk_rejected d.reasons, logged, ground arith, refl)
          | inl allowed ↦ (bad_transition t.state executing, logged, ground arith, refl)
        ]
      ]

  of_Refused :
      Refused (begin sha256_hex allow now id c w) → Verdict (begin sha256_hex allow now id c w)
  of_Refused (e, w', threw_e, same) = subst Verdict (sym threw_e) same

  -- `begin` hands an intent on, or raises and leaves the database as it was.
  pub begin_lem : WellKeyed w → Verdict (begin sha256_hex allow now id c w)
  begin_lem k = elim (Result-cases (get_task id w.db)) [
    | inr (e, gone) ↦ of_Refused (Refused-early (inl (e, gone)))
    | inl (t, found) ↦ elim (Result-cases (get_policy t.policy_id w.db)) [
      | inr (e, gone) ↦ of_Refused (Refused-early (inr (t, e, found, gone)))
      | inl (policy, has) ↦
          elim (Bool-cases
            (is_demo c.mode && ((decide t policy).allowed && can_transition t.state executing))) [
              | inr fails ↦ of_Refused (Refused-late t policy found has fails)
              | inl all ↦
                  let stored = stored_of_get id t w.db found in
                  let own = k.keyed id t stored in
                  let state = approved_of_can t.state (ground arith) in
                  let demo : is_demo c.mode ≡ true = ground arith in
                  let allowed : (decide t policy).allowed ≡ true = ground arith in
                  subst Verdict (sym (begin_allowed t policy stored own has state demo allowed))
                    (record {
                      task = t;
                      policy = policy;
                      stored = stored;
                      own_id = own;
                      has_policy = has;
                      was_approved = state;
                      demo_only = demo;
                      allowed = allowed;
                      now_executing = refl;
                      its_intent = refl;
                      its_world = refl;
                    })
            ]
    ]
  ]

-- What `finish` writes for the adapter's answer.
abbrev pub final_state : {F : Type 0} → Answer F → TaskState
final_state (returned r) = if r.success then succeeded else failed
final_state (threw name why) = failed

abbrev pub final_outcome : {F : Type 0} → Answer F → Outcome F
final_outcome (returned r) = receipt r
final_outcome (threw name why) = raised name why

module _ {F : Type 0} ⦃fl : Floats F⦄ where
  abbrev pub charge : ℕ → Pending F → Answer F → Database F → Database F
  charge now p (returned r) db =
      if r.success then add_spend now p.task.policy_id p.intent.value_usd db else db
  charge now p (threw name why) db = db

  -- While the row is the one that `begin` wrote, `finish` closes it and never raises.
  pub finish_lem :
      (now : ℕ) (p : Pending F) (a : Answer F) (w : World F)
      → lookup p.task.task_id w.db.tasks ≡ some p.task
      → let t = updated now (final_state a) none (some (final_outcome a)) p.task in
        finish now p a w ≡ (
          ok t,
          record {
            db = charge now p a (record w.db { tasks = insert p.task.task_id t w.db.tasks });
            ledger = w.ledger ++ (task_executed t ∷ []);
          },
        )
  unfolding finish conclude settle record_failure spend advance update_task
  finish_lem now p (returned r) w e = ground arith
  finish_lem now p (threw name why) w e = ground arith

  -- `finish` writes no policy.
  pub finish-policies :
      (now : ℕ) (p : Pending F) (a : Answer F) (w : World F)
      → (finish now p a w).1.db.policies ≡ w.db.policies
  unfolding finish conclude settle record_failure spend advance update_task add_spend
  finish-policies now p (returned r) w = ground arith
  finish-policies now p (threw name why) w = ground arith
