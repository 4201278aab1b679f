-- ===== src/Arena/Store/Submission.antt =====
-- What a submission to proofops/arena/store.py does to the next one.
use mathlib.Core.Path.{subst}
use text.Mathlib.TextPositions.{eq_refl}
use safehire_proofops_bnb.Prelude.{
  ℕ, ◌+◌, String, ◌≡◌, refl, sym, ap, ◌∙◌, inl, inr, true, false, not, Option, none, some, ◌==◌,
  leb, str_eq, keep, length, arith, Bool-cases, Option-cases, eq_iff,
}
use safehire_proofops_bnb.Prelude.Dict.{lookup, lookup-insert_self}
use safehire_proofops_bnb.Prelude.Raising.{Raising, ok, guard, bind-ok, then-ok, guard-ok, ok_inj}
use safehire_proofops_bnb.Arena.Store.{
  Arena, ArenaError, Tables, TaskRow, ProposalRow, Submitted, find_proposal, get_row, row_of,
  record_proposal, submit_new, answer, submit, is_request_key, bad_request_key, version_changed,
  proposal_capacity, add_event, of_task,
}

module _ {T P R : Type 0} (arena : Arena T P R) where
  abbrev replay_of : ProposalRow R → Submitted R
  replay_of old = record {
    proposal_id = old.proposal_id;
    version = old.version;
    report = old.report;
    replayed = true;
  }

  abbrev Result : Type 0
  Result = Raising ArenaError (Submitted R × Tables T R)

  -- A submission that returns: its row, and one of two ways.
  pub record Parts (now : ℕ) (task_id token proposal_id text key : String) (expected : ℕ)
      (db : Tables T R) (result : Submitted R × Tables T R) : Type 0 where
    pub key_fits : is_request_key key ≡ true
    pub proposal : P
    pub parsed : arena.parse_proposal text ≡ ok proposal
    pub row : TaskRow T
    pub authorized : get_row arena task_id token db ≡ ok row
    pub answered :
        answer arena now task_id proposal_id text proposal key expected row db
          (find_proposal task_id key db.arena_proposals)
        ≡ ok result

  pub submit-Parts :
      (now : ℕ) (task_id token proposal_id text key : String) (expected : ℕ) (db : Tables T R)
      (result : Submitted R × Tables T R)
      → submit arena now task_id token proposal_id text key expected db ≡ ok result
      → Parts now task_id token proposal_id text key expected db result
  unfolding submit
  submit-Parts now task_id token proposal_id text key expected db result e =
      let (fits, e1) = then-ok (guard (is_request_key key) bad_request_key) _ result e in
      let (proposal, parsed, e2) = bind-ok (arena.parse_proposal text) _ result e1 in
      let (row, authorized, e3) = bind-ok (get_row arena task_id token db) _ result e2 in
      record {
        key_fits = guard-ok (is_request_key key) bad_request_key tt fits;
        proposal = proposal;
        parsed = parsed;
        row = row;
        authorized = authorized;
        answered = e3;
      }

  -- A new submission that returns, and what it wrote.
  pub record Written (now : ℕ) (task_id proposal_id text key : String) (proposal : P) (expected : ℕ)
      (row : TaskRow T) (db : Tables T R) (result : Submitted R × Tables T R) : Type 0 where
    pub current : row.version ≡ expected
    pub room :
        leb arena.max_proposals (length (keep (of_task arena task_id) db.arena_proposals)) ≡ false
    pub report : R
    pub evaluated : arena.evaluate row.task proposal now ≡ ok report
    pub made : result ≡ (
      record {
        proposal_id = proposal_id;
        version = row.version + 1;
        report = report;
        replayed = false;
      },
      record_proposal arena now task_id row
          (row_of arena task_id proposal_id key text proposal report (row.version + 1))
          db,
    )

  pub submit_new-Written :
      (now : ℕ) (task_id proposal_id text key : String) (proposal : P) (expected : ℕ)
      (row : TaskRow T) (db : Tables T R) (result : Submitted R × Tables T R)
      → submit_new arena now task_id proposal_id text proposal key expected row db ≡ ok result
      → Written now task_id proposal_id text key proposal expected row db result
  unfolding submit_new
  submit_new-Written now task_id proposal_id text key proposal expected row db result e =
      let (fresh, e1) = then-ok (guard (row.version == expected) version_changed) _ result e in
      let (space, e2) =
        then-ok
          (guard
            (not
              (leb arena.max_proposals (length (keep (of_task arena task_id) db.arena_proposals))))
            proposal_capacity)
          _ result e1 in
      let (report, evaluated, e3) = bind-ok (arena.evaluate row.task proposal now) _ result e2 in
      record {
        current = ground arith;
        room = ground arith;
        report = report;
        evaluated = evaluated;
        made = sym (ok_inj e3);
      }

  -- What a submission that returns leaves: its key is taken by a row with its answer.
  record Taken (task_id key text : String) (result : Submitted R × Tables T R) : Type 0 where
    holder : ProposalRow R
    found : find_proposal task_id key result.1.arena_proposals ≡ some holder
    same_text : holder.raw_sha256 ≡ arena.sha256_text text
    same_id : holder.proposal_id ≡ result.0.proposal_id
    same_version : holder.version ≡ result.0.version
    same_report : holder.report ≡ result.0.report

  Taken-of :
      (now : ℕ) (task_id proposal_id text key : String) (proposal : P) (expected : ℕ)
      (row : TaskRow T) (db : Tables T R) (o : Option (ProposalRow R))
      (result : Submitted R × Tables T R)
      → find_proposal task_id key db.arena_proposals ≡ o
      → answer arena now task_id proposal_id text proposal key expected row db o ≡ ok result
      → Taken task_id key text result
  unfolding answer record_proposal add_event find_proposal row_of
  Taken-of now task_id proposal_id text key proposal expected row db none result fresh e =
      let w =
        submit_new-Written now task_id proposal_id text key proposal expected row db result e in
      subst (Taken task_id key text) (sym w.made) (record {
        holder = row_of arena task_id proposal_id key text proposal w.report (row.version + 1);
        found = ground (arith, eq_refl task_id, eq_refl key);
        same_text = refl;
        same_id = refl;
        same_version = refl;
        same_report = refl;
      })
  Taken-of now task_id proposal_id text key proposal expected row db (some old) result at e =
      elim (Bool-cases (str_eq old.raw_sha256 (arena.sha256_text text))) [
        | inr other ↦ absurd (ground (arith, other, e))
        | inl same ↦
            let made : (replay_of old, db) ≡ result = ground (arith, same, e) in
            subst (Taken task_id key text) made (record {
              holder = old;
              found = at;
              same_text = (eq_iff old.raw_sha256 (arena.sha256_text text)).0 same;
              same_id = refl;
              same_version = refl;
              same_report = refl;
            })
      ]

  pub own_token :
      (task_id token : String) (row : TaskRow T) (db : Tables T R)
      → get_row arena task_id token db ≡ ok row
      → str_eq row.token_hash (arena.sha256_text token) ≡ true
  unfolding get_row
  own_token task_id token row db e = elim (Option-cases (lookup task_id db.arena_tasks)) [
    | inl gone ↦ absurd (ground (arith, gone, e))
    | inr (r, at) ↦ ground (arith, at, e)
  ]

  pub get_row_of :
      (task_id token : String) (row : TaskRow T) (db : Tables T R)
      → lookup task_id db.arena_tasks ≡ some row
      → str_eq row.token_hash (arena.sha256_text token) ≡ true
      → get_row arena task_id token db ≡ ok row
  unfolding get_row
  get_row_of task_id token row db at own = ground (arith, at, own)

  submit_replay :
      (now : ℕ) (task_id token proposal_id text key : String) (expected : ℕ) (db : Tables T R)
      (proposal : P) (row : TaskRow T) (holder : ProposalRow R)
      → is_request_key key ≡ true
      → arena.parse_proposal text ≡ ok proposal
      → get_row arena task_id token db ≡ ok row
      → find_proposal task_id key db.arena_proposals ≡ some holder
      → str_eq holder.raw_sha256 (arena.sha256_text text) ≡ true
      → submit arena now task_id token proposal_id text key expected db ≡ ok (replay_of holder, db)
  unfolding submit answer
  submit_replay now task_id token proposal_id text key expected db proposal row holder fits parsed
        at found same =
      ground (arith, fits, parsed, at, found, same)

  -- The token that a submission was made with still opens the task.
  still_authorized :
      (now : ℕ) (task_id token proposal_id text key : String) (proposal : P) (expected : ℕ)
      (row : TaskRow T) (db : Tables T R) (o : Option (ProposalRow R))
      (result : Submitted R × Tables T R)
      → get_row arena task_id token db ≡ ok row
      → answer arena now task_id proposal_id text proposal key expected row db o ≡ ok result
      → (row' : TaskRow T) × (get_row arena task_id token result.1 ≡ ok row')
  unfolding answer record_proposal add_event row_of
  still_authorized now task_id token proposal_id text key proposal expected row db none result a e =
      let w =
        submit_new-Written now task_id proposal_id text key proposal expected row db result e in
      let row' = record row { version = row.version + 1 } in
      (
        row',
        subst (λ r. get_row arena task_id token r.1 ≡ ok row') (sym w.made)
            (get_row_of task_id token row'
              (record_proposal arena now task_id row
                (row_of arena task_id proposal_id key text proposal w.report (row.version + 1)) db)
              (lookup-insert_self task_id row' db.arena_tasks) (own_token task_id token row db a)),
      )
  still_authorized now task_id token proposal_id text key proposal expected row db (some old) result
        a e =
      elim (Bool-cases (str_eq old.raw_sha256 (arena.sha256_text text))) [
        | inr other ↦ absurd (ground (arith, other, e))
        | inl same ↦
            let made : (replay_of old, db) ≡ result = ground (arith, same, e) in
            (row, subst (λ r. get_row arena task_id token r.1 ≡ ok row) made a)
      ]

  -- A submission that returns can be repeated: the same text under the same key returns the same
  -- proposal, version and report, marked as replayed, and changes nothing, whatever version the
  -- caller expects by then.
  pub submit_again :
      (now later : ℕ) (task_id token proposal_id proposal_id' text key : String)
      (expected expected' : ℕ) (db : Tables T R) (s : Submitted R) (db' : Tables T R)
      → submit arena now task_id token proposal_id text key expected db ≡ ok (s, db')
      → submit arena later task_id token proposal_id' text key expected' db'
        ≡ ok (record s { replayed = true }, db')
  submit_again now later task_id token proposal_id proposal_id' text key expected expected' db s db'
        e =
      let p = submit-Parts now task_id token proposal_id text key expected db (s, db') e in
      let t =
        Taken-of now task_id proposal_id text key p.proposal expected p.row db
          (find_proposal task_id key db.arena_proposals) (s, db') refl p.answered in
      let (row', again) =
        still_authorized now task_id token proposal_id text key p.proposal expected p.row db
          (find_proposal task_id key db.arena_proposals) (s, db') p.authorized p.answered in
      let same = (eq_iff t.holder.raw_sha256 (arena.sha256_text text)).1 t.same_text in
      let whole : replay_of t.holder ≡ record s { replayed = true } =
        cc (t.same_id, t.same_version, t.same_report) in
      submit_replay later task_id token proposal_id' text key expected' db' p.proposal row' t.holder
        p.key_fits p.parsed again t.found same
      ∙ ap (λ x. ok (x, db')) whole
