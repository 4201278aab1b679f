-- ===== src/Execution/Service/Interleaving/Reachable.antt =====
-- The reachable states of the service: what holds in each, and how an execution closes.
use mathlib.Core.Path.{subst}
use safehire_proofops_bnb.Prelude.{
  ℕ, String, ◌≡◌, refl, sym, ap, ◌∙◌, ◌≢◌, inl, inr, Bool, none, some, List, [], ◌∷◌, ◌++◌,
}
use safehire_proofops_bnb.Prelude.Dict.{lookup, insert, lookup-insert_self}
use safehire_proofops_bnb.Domain.Canonical.{Json}
use safehire_proofops_bnb.Domain.Models.{Floats, executing}
use safehire_proofops_bnb.Execution.Errors.{ok}
use safehire_proofops_bnb.Execution.Store.Schema.{Task}
use safehire_proofops_bnb.Execution.Store.Tasks.{updated}
use safehire_proofops_bnb.Execution.Service.Tracks.{Tracks, Tracks-refl, Tracks-trans, home}
use safehire_proofops_bnb.Execution.Service.Execute.{Answer, Pending, finish}
use safehire_proofops_bnb.Execution.Service.Execute.Laws.{finish_lem, final_state, final_outcome}
use safehire_proofops_bnb.Execution.Service.Interleaving.{System, start, Reach, here, next}
use safehire_proofops_bnb.Execution.Service.Interleaving.Consistency.{Awaits, IsConsistent}
use safehire_proofops_bnb.Execution.Service.Interleaving.Preservation.{
  Step-IsConsistent, charge-tasks,
}

module _ {F : Type 0} ⦃fl : Floats F⦄ (sha256_hex : Json → String) (allow : Bool) where
  nothing : (id : String) (t : Task F) → lookup id (start {F = F}).world.db.tasks ≢ some t
  unfolding lookup
  nothing id t e = cc

  pub start-IsConsistent : IsConsistent (start {F = F})
  start-IsConsistent = record {
    keyed = record { keyed = λ id t found. absurd (nothing id t found) };
    held = tt;
    distinct = tt;
    covered = λ id t found run. absurd (nothing id t found);
  }

  -- From an empty service, every step keeps the system consistent, and moves each task that exists
  -- only along the table of transitions, with its request, agent and policy unchanged.
  pub Reach-IsConsistent :
      {s u : System F}
      → Reach sha256_hex allow s u
      → IsConsistent s
      → Tracks s.world u.world × IsConsistent u
  Reach-IsConsistent {s} here k = (Tracks-refl s.world, k)
  Reach-IsConsistent (next r st) k =
      let (tr, c) = Reach-IsConsistent r k in
      let (tr', c') = Step-IsConsistent sha256_hex allow st c in (Tracks-trans tr tr', c')

  pub reachable-Tracks :
      (s u : System F)
      → Reach sha256_hex allow start s
      → Reach sha256_hex allow s u
      → Tracks s.world u.world
  reachable-Tracks s u r r' = (Reach-IsConsistent r' (Reach-IsConsistent r start-IsConsistent).1).0

  awaited :
      (t : Task F) (ps : List (Pending F))
      → Awaits t ps
      → (before : List (Pending F)) × (p : Pending F) × (after : List (Pending F)) × (ps
          ≡ before ++ (p ∷ after))
        × (p.task ≡ t)
  awaited t [] h = elim h [ ]
  awaited t (p ∷ ps) (inl e) = ([], p, ps, refl, e)
  awaited t (q ∷ ps) (inr h) =
      let (before, p, after, e, e') = awaited t ps h in
      (q ∷ before, p, after, ap (λ l. q ∷ l) e, e')

  -- A task that is EXECUTING in a reachable state has an execution in flight, and whatever its
  -- adapter answers, `finish` returns and leaves the task SUCCEEDED or FAILED with that answer.
  pub executing_closes :
      (s : System F) (id : String) (t : Task F) (now : ℕ) (a : Answer F)
      → Reach sha256_hex allow start s
      → lookup id s.world.db.tasks ≡ some t
      → t.state ≡ executing
      → (before : List (Pending F)) × (p : Pending F) × (after : List (Pending F)) × (s.pending
          ≡ before ++ (p ∷ after))
        × ((finish now p a s.world).0
            ≡ ok (updated now (final_state a) none (some (final_outcome a)) t))
        × (lookup id (finish now p a s.world).1.db.tasks
            ≡ some (updated now (final_state a) none (some (final_outcome a)) t))
  executing_closes s id t now a r found run =
      let c = (Reach-IsConsistent r start-IsConsistent).1 in
      let (before, p, after, place, same) = awaited t s.pending (c.covered id t found run) in
      let own : lookup p.task.task_id s.world.db.tasks ≡ some p.task =
        subst (λ x. lookup x.task_id s.world.db.tasks ≡ some x) (sym same)
          (home id t c.keyed found) in
      let close = λ (x : Task F). updated now (final_state a) none (some (final_outcome a)) x in
      let done = finish_lem now p a s.world own in
      let tasks : (finish now p a s.world).1.db.tasks
          ≡ insert p.task.task_id (close p.task) s.world.db.tasks =
        ap (λ m. m.1.db.tasks) done
        ∙ charge-tasks now p a
            (record s.world.db { tasks = insert p.task.task_id (close p.task) s.world.db.tasks }) in
      let its_id : p.task.task_id ≡ id = ap (λ x. x.task_id) same ∙ c.keyed.keyed id t found in
      (
        before,
        p,
        after,
        place,
        ap (λ m. m.0) done ∙ ap (λ x. ok (close x)) same,
        ap (lookup id) tasks
            ∙ subst
                (λ j. lookup id (insert j (close p.task) s.world.db.tasks) ≡ some (close p.task))
                (sym its_id) (lookup-insert_self id (close p.task) s.world.db.tasks)
            ∙ ap (λ x. some (close x)) same,
      )
