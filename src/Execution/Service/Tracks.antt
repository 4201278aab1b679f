-- ===== src/Execution/Service/Tracks.antt =====
-- Every method of `TaskService` moves a task along the table of transitions and never back in
-- version, and keeps each row under its own id.
use safehire_proofops_bnb.Prelude.{
  ℕ, ◌≤◌, String, ◌≡◌, refl, ◌∙◌, inl, inr, true, Option, none, some, arith, str_eq, Bool-cases,
  eq_iff,
}
use safehire_proofops_bnb.Prelude.Dict.{lookup, insert, lookup-insert}
use safehire_proofops_bnb.Domain.Models.{TaskState, draft}
use safehire_proofops_bnb.Execution.StateMachine.{can_transition, ◌⟶*◌, stay, move}
use safehire_proofops_bnb.Execution.Errors.{ok}
use safehire_proofops_bnb.Execution.Store.Schema.{Simulation, Outcome, Task}
use safehire_proofops_bnb.Execution.Store.Tasks.{updated}
use safehire_proofops_bnb.Execution.Store.Tasks.Laws.{update_task_current}
use safehire_proofops_bnb.Execution.Exec.{World}
use safehire_proofops_bnb.Execution.Service.{advance}

⟶*-trans : {s t u : TaskState} → s ⟶* t → t ⟶* u → s ⟶* u
⟶*-trans h stay = h
⟶*-trans h (move k e) = move (⟶*-trans h k) e

module _ {F : Type 0} where
  -- What may become of a row: none is lost, a new one is a draft, and an old one keeps its task,
  -- agent, policy and request.
  pub record Grows (t t' : Task F) : Type 0 where
    pub path : t.state ⟶* t'.state
    pub versions : t.version ≤ t'.version
    pub same_id : t'.task_id ≡ t.task_id
    pub same_agent : t'.agent_id ≡ t.agent_id
    pub same_policy : t'.policy_id ≡ t.policy_id
    pub same_request : t'.request ≡ t.request

  abbrev pub Evolves : Option (Task F) → Option (Task F) → Type 0
  Evolves none none = Unit
  Evolves none (some t) = draft ⟶* t.state
  Evolves (some t) none = ⊥
  Evolves (some t) (some t') = Grows t t'

  pub record Tracks (w w' : World F) : Type 0 where
    pub rows : (id : String) → Evolves (lookup id w.db.tasks) (lookup id w'.db.tasks)

  -- Each row stands under its own id.
  pub record WellKeyed (w : World F) : Type 0 where
    pub keyed : (id : String) (t : Task F) → lookup id w.db.tasks ≡ some t → t.task_id ≡ id

  Evolves-refl : (o : Option (Task F)) → Evolves o o
  Evolves-refl none = tt
  Evolves-refl (some t) = record {
    path = stay;
    versions = omega arith;
    same_id = refl;
    same_agent = refl;
    same_policy = refl;
    same_request = refl;
  }

  Evolves-trans : (a b c : Option (Task F)) → Evolves a b → Evolves b c → Evolves a c
  Evolves-trans none none none h k = tt
  Evolves-trans none none (some t) h k = k
  Evolves-trans none (some t) none h k = absurd k
  Evolves-trans none (some t) (some u) h k = ⟶*-trans h k.path
  Evolves-trans (some t) none c h k = absurd h
  Evolves-trans (some t) (some u) none h k = absurd k
  Evolves-trans (some t) (some u) (some v) h k = record {
    path = ⟶*-trans h.path k.path;
    versions = omega arith;
    same_id = k.same_id ∙ h.same_id;
    same_agent = k.same_agent ∙ h.same_agent;
    same_policy = k.same_policy ∙ h.same_policy;
    same_request = k.same_request ∙ h.same_request;
  }

  pub Tracks-refl : (w : World F) → Tracks w w
  Tracks-refl w = record { rows = λ id. Evolves-refl (lookup id w.db.tasks) }

  pub Tracks-trans : {u v w : World F} → Tracks u v → Tracks v w → Tracks u w
  Tracks-trans {u} {v} {w} h k = record {
    rows = λ id.
        Evolves-trans (lookup id u.db.tasks) (lookup id v.db.tasks) (lookup id w.db.tasks)
          (h.rows id) (k.rows id);
  }

  -- A step that leaves the table of tasks alone.
  pub Tracks-same : {w w' : World F} → w'.db.tasks ≡ w.db.tasks → Tracks w w'
  Tracks-same {w} {w'} e = record { rows = λ id. rw e (Evolves-refl (lookup id w.db.tasks)) }

  -- A write of one row.
  pub Tracks-insert :
      {w w' : World F} (id : String) (t' : Task F)
      → w'.db.tasks ≡ insert id t' w.db.tasks
      → Evolves (lookup id w.db.tasks) (some t')
      → Tracks w w'
  Tracks-insert {w} {w'} id t' e h = record {
    rows = λ j.
        rw (e, lookup-insert)
          (elim (Bool-cases (str_eq id j)) [
            | inl same ↦ rw same (rw (← (eq_iff id j).0 same) h)
            | inr other ↦ rw other (Evolves-refl (lookup j w.db.tasks))
          ]);
  }

  pub WellKeyed-insert :
      {w w' : World F} (id : String) (t' : Task F)
      → w'.db.tasks ≡ insert id t' w.db.tasks
      → t'.task_id ≡ id
      → WellKeyed w
      → WellKeyed w'
  WellKeyed-insert {w} {w'} id t' e own h = record {
    keyed = λ j t found. ground (arith, h.keyed j t, eq_iff id j, lookup-insert id j t' w.db.tasks);
  }

  -- Writing the row that is stored succeeds, and the new world is known.
  pub advance_current :
      (now : ℕ) (t : Task F) (s : TaskState) (sim : Option Simulation) (r : Option (Outcome F))
      (w : World F)
      → lookup t.task_id w.db.tasks ≡ some t
      → advance now t s sim r w ≡ (
        ok (updated now s sim r t),
        record w {
          db = record w.db { tasks = insert t.task_id (updated now s sim r t) w.db.tasks };
        },
      )
  unfolding advance
  advance_current now t s sim r w e = rw (update_task_current now t.task_id s sim r w.db t e)

  pub updated-Grows :
      (now : ℕ) (t : Task F) (s : TaskState) (sim : Option Simulation) (r : Option (Outcome F))
      → can_transition t.state s ≡ true
      → Grows t (updated now s sim r t)
  unfolding updated
  updated-Grows now t s sim r h = record {
    path = move stay h;
    versions = omega arith;
    same_id = refl;
    same_agent = refl;
    same_policy = refl;
    same_request = refl;
  }

  -- A permitted write of the stored row.
  pub moved :
      {w w' : World F} (now : ℕ) (t : Task F) (s : TaskState) (sim : Option Simulation)
      (r : Option (Outcome F))
      → lookup t.task_id w.db.tasks ≡ some t
      → can_transition t.state s ≡ true
      → w'.db.tasks ≡ insert t.task_id (updated now s sim r t) w.db.tasks
      → WellKeyed w
      → Tracks w w' × WellKeyed w'
  unfolding updated
  moved {w} {w'} now t s sim r here can e k = (
    Tracks-insert t.task_id (updated now s sim r t) e (rw here (updated-Grows now t s sim r can)),
    WellKeyed-insert t.task_id (updated now s sim r t) e refl k,
  )

  pub home :
      {w : World F} (id : String) (t : Task F)
      → WellKeyed w
      → lookup id w.db.tasks ≡ some t
      → lookup t.task_id w.db.tasks ≡ some t
  home id t k here = simp (k.keyed id t here) here
