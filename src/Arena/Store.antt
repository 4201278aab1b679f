-- ===== src/Arena/Store.antt =====
-- proofops/arena/store.py: `TaskStore`. A task, a proposal and a report are values of any types `T`,
-- `P` and `R`: what arena/models.py and arena/planners.py make of them is an argument.
pub mod Conflict
pub mod Submission
use Prim.Native.Char.{code}
use safehire_proofops_bnb.Prelude.{
  ℕ, ◌+◌, String, Bool, true, false, not, ◌&&◌, Option, none, some, List, [], ◌∷◌, leb, ltb, ◌==◌,
  str_eq, if◌then◌else◌, keep, length, is_empty,
}
use safehire_proofops_bnb.Prelude.Dict.{Dict, lookup, insert}
use safehire_proofops_bnb.Prelude.Raising.{Raising, ok, err, guard, ◌>>=◌, ◌>>◌}
use safehire_proofops_bnb.Domain.Canonical.{Json}

pub data ArenaError : Type 0 where
  stale_snapshot bad_request_key missing_task : ArenaError
  -- `Conflict` and `CapacityError`
  key_reused version_changed task_capacity proposal_capacity : ArenaError
  -- what reading a proposal or evaluating it raises
  invalid : String → ArenaError

pub record TaskRow (T : Type 0) : Type 0 where
  pub token_hash : String
  pub task : T
  pub task_hash : String
  pub version : ℕ
  pub created_at : ℕ

pub record ProposalRow (R : Type 0) : Type 0 where
  pub task_id : String
  pub proposal_id : String
  pub request_key : String
  pub raw_text : String
  pub raw_sha256 : String
  pub proposal_hash : String
  pub report : R
  pub source_mode : String
  pub version : ℕ

pub data EventData : Type 0 where
  -- the task's hash, and what the server's own collector observed, if it opened the task
  task_opened : String → Option Json → EventData
  -- the proposal's id, the hashes of its text, of the proposal and of the report, and its source
  proposal_checked : String → String → String → String → String → EventData

pub record EventBody : Type 0 where
  pub task_id : String
  pub sequence : ℕ
  pub observed_at : ℕ
  pub details : EventData
  pub previous_hash : String

pub record EventRow : Type 0 where
  pub body : EventBody
  pub event_hash : String

pub record Tables (T R : Type 0) : Type 0 where
  pub arena_tasks : Dict (TaskRow T)
  pub arena_proposals : List (ProposalRow R)
  -- the newest first
  pub arena_events : List EventRow

pub record Arena (T P R : Type 0) : Type 0 where
  pub is_fresh : T → ℕ → Bool
  pub task_hash : T → String
  pub parse_proposal : String → Raising ArenaError P
  pub proposal_hash : P → String
  pub evaluate : T → P → ℕ → Raising ArenaError R
  pub sha256_text : String → String
  pub digest_report : R → String
  pub digest_event : EventBody → String
  pub max_tasks : ℕ
  pub max_proposals : ℕ

pub record Submitted (R : Type 0) : Type 0 where
  pub proposal_id : String
  pub version : ℕ
  pub report : R
  pub replayed : Bool

abbrev pub genesis_hash : String
genesis_hash = "0000000000000000000000000000000000000000000000000000000000000000"

-- `8 <= len(request_key) <= 128 and request_key.isascii()`
text_length : String → ℕ
text_length String.[] = 0
text_length (String.◌∷◌ c s) = text_length s + 1

all_ascii : String → Bool
all_ascii String.[] = true
all_ascii (String.◌∷◌ c s) = let rest = all_ascii s in ltb (code c) 128 && rest

unfoldable pub is_request_key : String → Bool
unfolding text_length all_ascii
is_request_key key = leb 8 (text_length key) && (leb (text_length key) 128 && all_ascii key)

abbrev pub is_of : String → EventRow → Bool
is_of task_id e = str_eq e.body.task_id task_id

-- The newest event of a task, as the sequence number and the hash that the next one continues.
unfoldable pub next_of : String → List EventRow → ℕ × String
next_of task_id [] = (1, genesis_hash)
next_of task_id (e ∷ es) =
    let rest = next_of task_id es in
    if is_of task_id e then (e.body.sequence + 1, e.event_hash) else rest

unfoldable pub find_proposal :
    {R : Type 0} → String → String → List (ProposalRow R) → Option (ProposalRow R)
find_proposal task_id key [] = none
find_proposal task_id key (p ∷ ps) =
    if str_eq p.task_id task_id && str_eq p.request_key key
    then some p
    else find_proposal task_id key ps

module _ {T P R : Type 0} (arena : Arena T P R) where
  -- `_event`
  unfoldable pub add_event : String → ℕ → EventData → Tables T R → Tables T R
  unfolding next_of
  add_event task_id now details db =
      let (sequence, head) = next_of task_id db.arena_events in
      let body : EventBody = record {
        task_id = task_id;
        sequence = sequence;
        observed_at = now;
        details = details;
        previous_hash = head;
      } in
      record db {
        arena_events =
            record { body = body; event_hash = arena.digest_event body } ∷ db.arena_events;
      }

  unfoldable pub create :
      ℕ → String → String → T → Option Json → Tables T R → Raising ArenaError (Tables T R)
  unfolding add_event
  create now task_id token task source_observation db = do
    guard (arena.is_fresh task now) stale_snapshot
    guard (not (leb arena.max_tasks (length db.arena_tasks))) task_capacity
    ok (
        add_event task_id now (task_opened (arena.task_hash task) source_observation) (record db {
          arena_tasks =
              insert task_id
                (record {
                  token_hash = arena.sha256_text token;
                  task = task;
                  task_hash = arena.task_hash task;
                  version = 1;
                  created_at = now;
                })
                db.arena_tasks;
        }))

  -- `_get`: the row, if the token is its own.
  unfoldable pub get_row : String → String → Tables T R → Raising ArenaError (TaskRow T)
  get_row task_id token db = elim (lookup task_id db.arena_tasks) [
    | none ↦ err missing_task
    | some row ↦
        if str_eq row.token_hash (arena.sha256_text token) then ok row else err missing_task
  ]

  unfoldable pub row_of : String → String → String → String → P → R → ℕ → ProposalRow R
  row_of task_id proposal_id key proposal_text proposal report version = record {
    task_id = task_id;
    proposal_id = proposal_id;
    request_key = key;
    raw_text = proposal_text;
    raw_sha256 = arena.sha256_text proposal_text;
    proposal_hash = arena.proposal_hash proposal;
    report = report;
    source_mode = "caller_import";
    version = version;
  }

  -- The three writes of `submit`.
  unfoldable pub record_proposal : ℕ → String → TaskRow T → ProposalRow R → Tables T R → Tables T R
  unfolding add_event
  record_proposal now task_id row p db =
      add_event task_id now
        (proposal_checked p.proposal_id p.raw_sha256 p.proposal_hash (arena.digest_report p.report)
          p.source_mode)
        (record db {
          arena_proposals = p ∷ db.arena_proposals;
          arena_tasks = insert task_id (record row { version = p.version }) db.arena_tasks;
        })

  abbrev of_task : String → ProposalRow R → Bool
  of_task task_id p = str_eq p.task_id task_id

  -- A submission under a key that is new for the task.
  unfoldable pub submit_new :
      ℕ
      → String
      → String
      → String
      → P
      → String
      → ℕ
      → TaskRow T
      → Tables T R
      → Raising ArenaError (Submitted R × Tables T R)
  unfolding row_of record_proposal
  submit_new now task_id proposal_id proposal_text proposal key expected_version row db = do
    guard (row.version == expected_version) version_changed
    guard (not (leb arena.max_proposals (length (keep (of_task task_id) db.arena_proposals))))
        proposal_capacity
    report ← arena.evaluate row.task proposal now
    let p = row_of task_id proposal_id key proposal_text proposal report (row.version + 1)
    ok (
      record {
        proposal_id = proposal_id;
        version = row.version + 1;
        report = report;
        replayed = false;
      },
      record_proposal now task_id row p db,
    )

  -- The answer, with the row that the key has already, if any: a replay or a new submission.
  unfoldable pub answer :
      ℕ
      → String
      → String
      → String
      → P
      → String
      → ℕ
      → TaskRow T
      → Tables T R
      → Option (ProposalRow R)
      → Raising ArenaError (Submitted R × Tables T R)
  answer now task_id proposal_id proposal_text proposal key expected_version row db (some old) =
      if str_eq old.raw_sha256 (arena.sha256_text proposal_text)
      then ok (
        record {
          proposal_id = old.proposal_id;
          version = old.version;
          report = old.report;
          replayed = true;
        },
        db,
      )
      else err key_reused
  answer now task_id proposal_id proposal_text proposal key expected_version row db none =
      submit_new now task_id proposal_id proposal_text proposal key expected_version row db

  unfoldable pub submit :
      ℕ
      → String
      → String
      → String
      → String
      → String
      → ℕ
      → Tables T R
      → Raising ArenaError (Submitted R × Tables T R)
  unfolding get_row find_proposal answer is_request_key
  submit now task_id token proposal_id proposal_text key expected_version db = do
    guard (is_request_key key) bad_request_key
    proposal ← arena.parse_proposal proposal_text
    row ← get_row task_id token db
    answer now task_id proposal_id proposal_text proposal key expected_version row db
        (find_proposal task_id key db.arena_proposals)
