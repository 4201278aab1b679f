-- ===== src/Execution/Service/Keeps.antt =====
-- What every method but `execute` guarantees of the tasks, and the two ways to show it.
use safehire_proofops_bnb.Prelude.{ℕ, String, ◌≡◌, ◌≢◌, ◌↔◌, true, Option, some, arith, eq_iff}
use safehire_proofops_bnb.Prelude.Dict.{lookup, insert, lookup-insert}
use safehire_proofops_bnb.Domain.Models.{TaskState, executing}
use safehire_proofops_bnb.Execution.StateMachine.{can_transition}
use safehire_proofops_bnb.Execution.Store.Schema.{Simulation, Outcome, Task}
use safehire_proofops_bnb.Execution.Store.Tasks.{updated}
use safehire_proofops_bnb.Execution.Exec.{World, Exec}
use safehire_proofops_bnb.Execution.Service.Tracks.{WellKeyed, Tracks, Tracks-same, moved}

module _ {F : Type 0} where
  -- No row enters, leaves or changes the state EXECUTING.
  pub record Freezes (w w' : World F) : Type 0 where
    pub frozen :
        (id : String) (t : Task F)
        → t.state ≡ executing
        → (lookup id w.db.tasks ≡ some t) ↔ (lookup id w'.db.tasks ≡ some t)

  pub Freezes-same : {w w' : World F} → w'.db.tasks ≡ w.db.tasks → Freezes w w'
  Freezes-same {w} {w'} e = record { frozen = λ id t run. (λ h. rw e h, λ h. rw e at h) }

  pub Freezes-trans : {u v w : World F} → Freezes u v → Freezes v w → Freezes u w
  Freezes-trans h k = record {
    frozen = λ id t run. (
      λ a. (k.frozen id t run).0 ((h.frozen id t run).0 a),
      λ a. (h.frozen id t run).1 ((k.frozen id t run).1 a),
    );
  }

  -- A write of a row that is not EXECUTING before or after.
  pub Freezes-insert :
      {w w' : World F} (id : String) (t' : Task F)
      → w'.db.tasks ≡ insert id t' w.db.tasks
      → ((t : Task F) → lookup id w.db.tasks ≡ some t → t.state ≢ executing)
      → t'.state ≢ executing
      → Freezes w w'
  Freezes-insert {w} {w'} id t' e idle idle' = record {
    frozen = λ j t run. (
      λ a. ground (arith, eq_iff id j, lookup-insert id j t' w.db.tasks, idle t),
      λ a. ground (arith, eq_iff id j, lookup-insert id j t' w.db.tasks),
    );
  }

  -- A permitted write of the stored row, which is not EXECUTING before or after.
  pub moved_idle :
      {w w' : World F} (now : ℕ) (t : Task F) (s : TaskState) (sim : Option Simulation)
      (r : Option (Outcome F))
      → lookup t.task_id w.db.tasks ≡ some t
      → can_transition t.state s ≡ true
      → t.state ≢ executing
      → s ≢ executing
      → w'.db.tasks ≡ insert t.task_id (updated now s sim r t) w.db.tasks
      → WellKeyed w
      → Tracks w w' × WellKeyed w' × Freezes w w'
  unfolding updated
  moved_idle now t s sim r here can idle idle' e k =
      let (tr, wk) = moved now t s sim r here can e k in
      (tr, wk, Freezes-insert t.task_id (updated now s sim r t) e (λ u there x. idle (cc)) idle')

  pub record Keeps {A : Type 0} (m : Exec F A) (w : World F) : Type 0 where
    pub tracks : Tracks w (m w).1
    pub keyed : WellKeyed (m w).1
    pub freezes : Freezes w (m w).1

  pub Keeps-same :
      {A : Type 0} {m : Exec F A} {w : World F}
      → (m w).1.db.tasks ≡ w.db.tasks
      → WellKeyed w
      → Keeps m w
  Keeps-same {A} {m} {w} e k = record {
    tracks = Tracks-same e;
    keyed = record { keyed = λ id t found. k.keyed id t (rw e at found) };
    freezes = Freezes-same e;
  }

  pub Keeps-moved :
      {A : Type 0} {m : Exec F A} {w : World F} (now : ℕ) (t : Task F) (s : TaskState)
      (sim : Option Simulation) (r : Option (Outcome F))
      → lookup t.task_id w.db.tasks ≡ some t
      → can_transition t.state s ≡ true
      → t.state ≢ executing
      → s ≢ executing
      → (m w).1.db.tasks ≡ insert t.task_id (updated now s sim r t) w.db.tasks
      → WellKeyed w
      → Keeps m w
  Keeps-moved now t s sim r here can idle idle' e k =
      let (tr, wk, fr) = moved_idle now t s sim r here can idle idle' e k in
      record { tracks = tr; keyed = wk; freezes = fr }
