-- ===== src/Arena/Store/Conflict.antt =====
-- A second submission to proofops/arena/store.py for a version that is no longer the task's.
use mathlib.Core.Path.{subst}
use text.Mathlib.TextPositions.{eq_refl}
use safehire_proofops_bnb.Prelude.{
  ℕ, ◌+◌, String, ◌≡◌, sym, true, false, Option, none, some, ◌==◌, str_eq, arith,
}
use safehire_proofops_bnb.Prelude.Dict.{lookup-insert_self}
use safehire_proofops_bnb.Prelude.Raising.{ok, err}
use safehire_proofops_bnb.Arena.Store.{
  Arena, Tables, TaskRow, ProposalRow, Submitted, find_proposal, get_row, row_of, record_proposal,
  submit_new, answer, submit, is_request_key, version_changed, add_event,
}
use safehire_proofops_bnb.Arena.Store.Submission.{
  submit-Parts, submit_new-Written, own_token, get_row_of,
}

module _ {T P R : Type 0} (arena : Arena T P R) where
  -- A new submission moves its task on to the next version, and takes no other key.
  Moved-on :
      (now : ℕ) (task_id token proposal_id text key key' : String) (proposal : P) (expected : ℕ)
      (row : TaskRow T) (db : Tables T R) (o : Option (ProposalRow R))
      (result : Submitted R × Tables T R)
      → get_row arena task_id token db ≡ ok row
      → answer arena now task_id proposal_id text proposal key expected row db o ≡ ok result
      → result.0.replayed ≡ false
      → find_proposal task_id key' db.arena_proposals ≡ none
      → str_eq key key' ≡ false
      → (row' : TaskRow T) × (get_row arena task_id token result.1 ≡ ok row')
        × ((row'.version == expected) ≡ false)
        × (find_proposal task_id key' result.1.arena_proposals ≡ none)
  unfolding answer record_proposal add_event row_of find_proposal
  Moved-on now task_id token proposal_id text key key' proposal expected row db none result a e new
        free other =
      let w =
        submit_new-Written arena now task_id proposal_id text key proposal expected row db result
          e in
      let row' = record row { version = row.version + 1 } in
      let at = w.current in
      (
        row',
        subst (λ r. get_row arena task_id token r.1 ≡ ok row') (sym w.made)
            (get_row_of arena task_id token row'
              (record_proposal arena now task_id row
                (row_of arena task_id proposal_id key text proposal w.report (row.version + 1)) db)
              (lookup-insert_self task_id row' db.arena_tasks)
              (own_token arena task_id token row db a)),
        ground (arith, at),
        subst (λ r. find_proposal task_id key' r.1.arena_proposals ≡ none) (sym w.made)
            (ground (arith, free, other, eq_refl task_id)),
      )
  Moved-on now task_id token proposal_id text key key' proposal expected row db (some old) result a
        e new free other =
      absurd (ground (arith, e, new))

  submit_stale :
      (now : ℕ) (task_id token proposal_id text key : String) (expected : ℕ) (db : Tables T R)
      (proposal : P) (row : TaskRow T)
      → is_request_key key ≡ true
      → arena.parse_proposal text ≡ ok proposal
      → get_row arena task_id token db ≡ ok row
      → find_proposal task_id key db.arena_proposals ≡ none
      → (row.version == expected) ≡ false
      → submit arena now task_id token proposal_id text key expected db ≡ err version_changed
  unfolding submit answer submit_new
  submit_stale now task_id token proposal_id text key expected db proposal row fits parsed at free
        stale =
      ground (arith, fits, parsed, at, free, stale)

  -- Of two submissions for the same version of a task, under different keys of which the second is
  -- well formed and not taken, only the first is recorded: once it was, a second one whose text is a
  -- proposal is refused with a version conflict.
  pub second_submission_conflicts :
      (now later : ℕ) (task_id token proposal_id proposal_id' text text' key key' : String)
      (expected : ℕ) (db : Tables T R) (s : Submitted R) (db' : Tables T R) (proposal' : P)
      → submit arena now task_id token proposal_id text key expected db ≡ ok (s, db')
      → s.replayed ≡ false
      → is_request_key key' ≡ true
      → arena.parse_proposal text' ≡ ok proposal'
      → find_proposal task_id key' db.arena_proposals ≡ none
      → str_eq key key' ≡ false
      → submit arena later task_id token proposal_id' text' key' expected db' ≡ err version_changed
  second_submission_conflicts now later task_id token proposal_id proposal_id' text text' key key'
        expected db s db' proposal' e new fits parsed free other =
      let p = submit-Parts arena now task_id token proposal_id text key expected db (s, db') e in
      let (row', at, stale, still_free) =
        Moved-on now task_id token proposal_id text key key' p.proposal expected p.row db
          (find_proposal task_id key db.arena_proposals) (s, db') p.authorized p.answered new free
          other in
      submit_stale later task_id token proposal_id' text' key' expected db' proposal' row' fits
        parsed at still_free stale
