-- ===== src/Execution/Service/Interleaving/Consistency.antt =====
-- Under every interleaving each EXECUTING row has exactly one execution in flight, which closes it.
use safehire_proofops_bnb.Prelude.{
  String, ◌≡◌, refl, sym, ◌≢◌, ◌⊎◌, inl, inr, some, List, [], ◌∷◌, ◌++◌, All, All-map, All-middle,
}
use safehire_proofops_bnb.Prelude.Dict.{lookup}
use safehire_proofops_bnb.Domain.Canonical.{Json}
use safehire_proofops_bnb.Domain.Models.{executing}
use safehire_proofops_bnb.Execution.Store.Schema.{Task}
use safehire_proofops_bnb.Execution.Store.Budget.{set_flag}
use safehire_proofops_bnb.Execution.Exec.{World}
use safehire_proofops_bnb.Execution.Service.Tracks.{WellKeyed, Tracks, Tracks-same}
use safehire_proofops_bnb.Execution.Service.Keeps.{Freezes, Freezes-same}
use safehire_proofops_bnb.Execution.Service.Methods.{
  create_policy-Keeps, revoke_policy-Keeps, new_task-Keeps, simulate-Keeps, approve-Keeps,
  revoke_task-Keeps,
}
use safehire_proofops_bnb.Execution.Service.Execute.{Pending}
use safehire_proofops_bnb.Execution.Service.Interleaving.{
  Request, ask_policy, ask_revoke_policy, ask_task, ask_simulate, ask_approve, ask_revoke_task,
  ask_flag, System, perform,
}

module _ {F : Type 0} where
  abbrev pub id_of : Pending F → String
  id_of p = p.task.task_id

  -- An execution in flight for this very row.
  abbrev pub Awaits : Task F → List (Pending F) → Type 0
  Awaits t [] = ⊥
  Awaits t (p ∷ ps) = (p.task ≡ t) ⊎ Awaits t ps

  abbrev pub Distinct : List (Pending F) → Type 0
  Distinct [] = Unit
  Distinct (p ∷ ps) = All (λ q. id_of q ≢ id_of p) ps × Distinct ps

  -- The row that an execution in flight has written is still stored.
  abbrev pub Holds : World F → Pending F → Type 0
  Holds w p = (lookup (id_of p) w.db.tasks ≡ some p.task) × (p.task.state ≡ executing)

  pub record IsConsistent (s : System F) : Type 0 where
    pub keyed : WellKeyed s.world
    pub held : All (Holds s.world) s.pending
    pub distinct : Distinct s.pending
    pub covered :
        (id : String) (t : Task F)
        → lookup id s.world.db.tasks ≡ some t
        → t.state ≡ executing
        → Awaits t s.pending

  pub Distinct-middle :
      (xs : List (Pending F)) (p : Pending F) (ys : List (Pending F))
      → Distinct (xs ++ (p ∷ ys))
      → All (λ q. id_of q ≢ id_of p) (xs ++ ys) × Distinct (xs ++ ys)
  Distinct-middle [] p ys h = h
  Distinct-middle (x ∷ xs) p ys h =
      let (apart, rest) = Distinct-middle xs p ys h.1 in
      let (px, others) = All-middle (λ q. id_of q ≢ id_of x) xs p ys h.0 in
      (((λ e. px (sym e)), apart), (others, rest))

  pub Awaits-middle :
      (t : Task F) (xs : List (Pending F)) (p : Pending F) (ys : List (Pending F))
      → Awaits t (xs ++ (p ∷ ys))
      → (p.task ≡ t) ⊎ Awaits t (xs ++ ys)
  Awaits-middle t [] p ys h = h
  Awaits-middle t (x ∷ xs) p ys (inl e) = inr (inl e)
  Awaits-middle t (x ∷ xs) p ys (inr h) = elim (Awaits-middle t xs p ys h) [
    | inl e ↦ inl e
    | inr k ↦ inr (inr k)
  ]

  module _ (sha256_hex : Json → String) where
    pub perform-Keeps :
        (r : Request F) (w : World F)
        → WellKeyed w
        → Tracks w (perform sha256_hex r w)
          × WellKeyed (perform sha256_hex r w)
          × Freezes w (perform sha256_hex r w)
    unfolding perform set_flag
    perform-Keeps (ask_policy now id r) w k =
        let h = create_policy-Keeps now id r w k in (h.tracks, h.keyed, h.freezes)
    perform-Keeps (ask_revoke_policy now id) w k =
        let h = revoke_policy-Keeps now id w k in (h.tracks, h.keyed, h.freezes)
    perform-Keeps (ask_task now id agent policy request key) w k =
        let h = new_task-Keeps now id agent policy request key w k in (h.tracks, h.keyed, h.freezes)
    perform-Keeps (ask_simulate now id result) w k =
        let h = simulate-Keeps sha256_hex now id result w k in (h.tracks, h.keyed, h.freezes)
    perform-Keeps (ask_approve now id) w k =
        let h = approve-Keeps now id w k in (h.tracks, h.keyed, h.freezes)
    perform-Keeps (ask_revoke_task now id) w k =
        let h = revoke_task-Keeps now id w k in (h.tracks, h.keyed, h.freezes)
    perform-Keeps (ask_flag name value) w k =
        (Tracks-same refl, record { keyed = k.keyed }, Freezes-same refl)

  -- What leaves the EXECUTING rows alone keeps a system consistent.
  pub IsConsistent-frozen :
      (s : System F) (w : World F)
      → IsConsistent s
      → WellKeyed w
      → Freezes s.world w
      → IsConsistent (record s { world = w })
  IsConsistent-frozen s w c k f = record {
    keyed = k;
    held =
        All-map (Holds s.world) (Holds w) s.pending
          (λ p h. ((f.frozen (id_of p) p.task h.1).0 h.0, h.1)) c.held;
    distinct = c.distinct;
    covered = λ id t found run. c.covered id t ((f.frozen id t run).1 found) run;
  }
