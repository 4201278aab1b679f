-- ===== src/Execution/Service/Interleaving/Preservation.antt =====
-- Every step of the service keeps the executions in flight and the EXECUTING rows in agreement.
use mathlib.Core.Path.{subst}
use safehire_proofops_bnb.Prelude.{
  ℕ, String, ◌≡◌, refl, sym, ap, ◌∙◌, ◌≢◌, ◌⊎◌, inl, inr, Bool, true, none, some, List, ◌∷◌, ◌++◌,
  arith, str_eq, eq_iff, Bool-cases, All-map, All-zip, All-middle,
}
use safehire_proofops_bnb.Prelude.Dict.{lookup, insert, lookup-insert}
use safehire_proofops_bnb.Domain.Canonical.{Json}
use safehire_proofops_bnb.Domain.Models.{Floats, approved, executing}
use safehire_proofops_bnb.Execution.StateMachine.{can_transition}
use safehire_proofops_bnb.Execution.Store.Schema.{Task, Database}
use safehire_proofops_bnb.Execution.Store.Tasks.{updated}
use safehire_proofops_bnb.Execution.Store.Budget.{add_spend}
use safehire_proofops_bnb.Execution.Exec.{World}
use safehire_proofops_bnb.Execution.Service.Tracks.{Tracks, Tracks-same, moved, home}
use safehire_proofops_bnb.Execution.Service.Keeps.{Freezes-same}
use safehire_proofops_bnb.Execution.Service.Execute.{Call, Answer, returned, threw, Pending, finish}
use safehire_proofops_bnb.Execution.Service.Execute.Laws.{
  Began, Began-stored, Verdict, begin_lem, finish_lem, final_state, final_outcome, charge,
}
use safehire_proofops_bnb.Execution.Service.Interleaving.{
  System, perform, Step, call, started, refused, answered,
}
use safehire_proofops_bnb.Execution.Service.Interleaving.Consistency.{
  id_of, Holds, IsConsistent, Distinct-middle, Awaits-middle, perform-Keeps, IsConsistent-frozen,
}

approved_can :
    {F : Type 0} (t : Task F) → t.state ≡ approved → can_transition t.state executing ≡ true
unfolding can_transition
approved_can t e = ground arith

can_finish :
    {F : Type 0} (t : Task F) (a : Answer F)
    → t.state ≡ executing
    → can_transition t.state (final_state a) ≡ true
unfolding can_transition
can_finish t (returned r) e = ground arith
can_finish t (threw name why) e = ground arith

final_not_executing : {F : Type 0} (a : Answer F) → final_state a ≢ executing
final_not_executing (returned r) e = ground arith
final_not_executing (threw name why) e = cc

pub charge-tasks :
    {F : Type 0} ⦃fl : Floats F⦄ (now : ℕ) (p : Pending F) (a : Answer F) (db : Database F)
    → (charge now p a db).tasks ≡ db.tasks
unfolding add_spend
charge-tasks now p (returned r) db = ground arith
charge-tasks now p (threw name why) db = refl

-- One row is not EXECUTING and APPROVED at once.
clash :
    {F : Type 0} (w : World F) (q : Pending F) (t : Task F)
    → Holds w q
    → lookup t.task_id w.db.tasks ≡ some t
    → id_of q ≡ t.task_id
    → t.state ≢ approved
clash w q t h own e state = cc

elsewhere :
    {F : Type 0} (w w' : World F) (i j : String) (v : Task F)
    → w'.db.tasks ≡ insert i v w.db.tasks
    → j ≢ i
    → lookup j w'.db.tasks ≡ lookup j w.db.tasks
elsewhere w w' i j v e ne = ground (arith, lookup-insert i j v w.db.tasks, eq_iff i j)

at_itself :
    {F : Type 0} (w w' : World F) (i j : String) (v u : Task F)
    → w'.db.tasks ≡ insert i v w.db.tasks
    → i ≡ j
    → lookup j w'.db.tasks ≡ some u
    → u ≡ v
at_itself w w' i j v u e same found = ground (arith, lookup-insert i j v w.db.tasks, eq_iff i j)

same_text : (i j : String) → (i ≡ j) ⊎ (j ≢ i)
same_text i j = elim (Bool-cases (str_eq i j)) [
  | inl hit ↦ inl ((eq_iff i j).0 hit)
  | inr miss ↦ inr (λ e. cc ((eq_iff i j).1 (sym e)))
]

module _ {F : Type 0} ⦃fl : Floats F⦄ (sha256_hex : Json → String) (allow : Bool) where
  -- The row that begins was APPROVED, so no execution in flight has its id.
  begin-IsConsistent :
      (s : System F) (now : ℕ) (id : String) (c : Call F) (p : Pending F) (w : World F)
      → IsConsistent s
      → Began sha256_hex allow now id c s.world p w
      → Tracks s.world w × IsConsistent (record { world = w; pending = p ∷ s.pending })
  unfolding updated
  begin-IsConsistent s now id c p w k b =
      let t = b.task in
      let own = home id t k.keyed b.stored in
      let now_running = updated now executing none none t in
      let e : w.db.tasks ≡ insert t.task_id now_running s.world.db.tasks =
        ap (λ x. x.db.tasks) b.its_world in
      let (tr, wk) =
        moved {w = s.world} {w' = w} now t executing none none own (approved_can t b.was_approved) e
          k.keyed in
      let same_id : id_of p ≡ t.task_id = ap (λ x. x.task_id) b.now_executing in
      let running : p.task.state ≡ executing = ap (λ x. x.state) b.now_executing in
      let apart : (q : Pending F) → Holds s.world q → id_of q ≢ id_of p =
        λ q h x. clash s.world q t h own (x ∙ same_id) b.was_approved in
      (
        tr,
        record {
          keyed = wk;
          held = (
            (Began-stored sha256_hex allow now id c s.world p w b, running),
            All-map (Holds s.world) (Holds w) s.pending
                (λ q h. (
                  elsewhere s.world w t.task_id (id_of q) now_running e
                        (λ x. clash s.world q t h own x b.was_approved)
                      ∙ h.0,
                  h.1,
                ))
                k.held,
          );
          distinct =
              (All-map (Holds s.world) (λ q. id_of q ≢ id_of p) s.pending apart k.held, k.distinct);
          covered = λ j u found run. elim (same_text t.task_id j) [
            | inl same ↦
                inl (
                  b.now_executing
                  ∙ sym (at_itself s.world w t.task_id j now_running u e same found))
            | inr other ↦ inr (
                k.covered j u (sym (elsewhere s.world w t.task_id j now_running e other) ∙ found)
                  run)
          ];
        },
      )

  finish-IsConsistent :
      (w : World F) (before : List (Pending F)) (p : Pending F) (after : List (Pending F)) (now : ℕ)
      (a : Answer F)
      → IsConsistent (record { world = w; pending = before ++ (p ∷ after) })
      → Tracks w (finish now p a w).1
        × IsConsistent (record { world = (finish now p a w).1; pending = before ++ after })
  unfolding updated
  finish-IsConsistent w before p after now a k =
      let t = updated now (final_state a) none (some (final_outcome a)) p.task in
      let w' = (finish now p a w).1 in
      let (holds, others) = All-middle (Holds w) before p after k.held in
      let (apart, distinct) = Distinct-middle before p after k.distinct in
      let e : w'.db.tasks ≡ insert (id_of p) t w.db.tasks =
        ap (λ m. m.1.db.tasks) (finish_lem now p a w holds.0)
        ∙ charge-tasks now p a (record w.db { tasks = insert (id_of p) t w.db.tasks }) in
      let (tr, wk) =
        moved {w = w} {w' = w'} now p.task (final_state a) none (some (final_outcome a)) holds.0
          (can_finish p.task a holds.1) e k.keyed in
      (
        tr,
        record {
          keyed = wk;
          held =
              All-map (λ q. Holds w q × (id_of q ≢ id_of p)) (Holds w') (before ++ after)
                (λ q h. (elsewhere w w' (id_of p) (id_of q) t e h.1 ∙ h.0.0, h.0.1))
                (All-zip (Holds w) (λ q. id_of q ≢ id_of p) (before ++ after) others apart);
          distinct = distinct;
          covered = λ j u found run. elim (same_text (id_of p) j) [
            | inl same ↦ absurd (
                final_not_executing a
                  (ap (λ x. x.state) (sym (at_itself w w' (id_of p) j t u e same found)) ∙ run))
            | inr other ↦
                let old = sym (elsewhere w w' (id_of p) j t e other) ∙ found in
                elim (Awaits-middle u before p after (k.covered j u old run)) [
                  | inl it ↦ absurd (other (sym (ap (λ x. x.task_id) it ∙ k.keyed.keyed j u old)))
                  | inr rest ↦ rest
                ]
          ];
        },
      )

  pub Step-IsConsistent :
      {s u : System F}
      → Step sha256_hex allow s u
      → IsConsistent s
      → Tracks s.world u.world × IsConsistent u
  Step-IsConsistent (call s r) k =
      let (tr, wk, fr) = perform-Keeps sha256_hex r s.world k.keyed in
      (tr, IsConsistent-frozen s (perform sha256_hex r s.world) k wk fr)
  Step-IsConsistent (started s now id c p w e) k = begin-IsConsistent s now id c p w k (
      subst (Verdict sha256_hex allow now id c s.world) e
        (begin_lem sha256_hex allow now id c s.world k.keyed))
  Step-IsConsistent (refused s now id c x w e) k =
      let same : w.db ≡ s.world.db =
        subst (Verdict sha256_hex allow now id c s.world) e
          (begin_lem sha256_hex allow now id c s.world k.keyed) in
      let tasks = ap (λ db. db.tasks) same in
      (
        Tracks-same tasks,
        IsConsistent-frozen s w k
            (record { keyed = λ j t found. k.keyed.keyed j t (rw tasks at found) })
            (Freezes-same tasks),
      )
  Step-IsConsistent (answered w before p after now a) k =
      finish-IsConsistent w before p after now a k
