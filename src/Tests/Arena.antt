-- ===== src/Tests/Arena.antt =====
-- Runs of proofops/arena/store.py: a proposal is its text, a report a number.
use safehire_proofops_bnb.Prelude.{ℕ, String, ◌≡◌, refl, true, false, [], ◌∷◌, keep}
use safehire_proofops_bnb.Prelude.Dict.{lookup}
use safehire_proofops_bnb.Prelude.Raising.{ok, err}
use safehire_proofops_bnb.Arena.Store.{
  Arena, Tables, Submitted, submit, version_changed, submit_new,
}
use safehire_proofops_bnb.Arena.Store.Submission.{submit_again}
use safehire_proofops_bnb.Arena.Store.Conflict.{second_submission_conflicts}

abbrev arena : Arena String String ℕ
arena = record {
  is_fresh = λ t now. true;
  task_hash = λ t. t;
  parse_proposal = λ text. ok text;
  proposal_hash = λ p. p;
  evaluate = λ t p now. ok 7;
  sha256_text = λ s. s;
  digest_report = λ r. "r";
  digest_event = λ e. "e";
  max_tasks = 2;
  max_proposals = 2;
}

abbrev opened : Tables String ℕ
opened = record {
  arena_tasks =
      (
        "t",
        record {
          token_hash = "tok";
          task = "task";
          task_hash = "task";
          version = 1;
          created_at = 0;
        },
      )
      ∷ [];
  arena_proposals = [];
  arena_events = [];
}

abbrev first_answer : Submitted ℕ
first_answer = record { proposal_id = "p1"; version = 2; report = 7; replayed = false }

after_first : Tables String ℕ
after_first = elim (submit arena 0 "t" "tok" "p1" "text" "key-0001" 1 opened) [
  | ok (s, db) ↦ db
  | _ ↦ opened
]

submit_again_example :
    submit arena 9 "t" "tok" "p2" "text" "key-0001" 1 after_first
    ≡ ok (record first_answer { replayed = true }, after_first)
unfolding after_first submit lookup submit_new keep
submit_again_example =
    submit_again arena 0 9 "t" "tok" "p1" "p2" "text" "key-0001" 1 1 opened first_answer after_first
      refl

second_submission_conflicts_example :
    submit arena 9 "t" "tok" "p2" "other" "key-0002" 1 after_first ≡ err version_changed
unfolding after_first submit lookup submit_new keep
second_submission_conflicts_example =
    second_submission_conflicts arena 0 9 "t" "tok" "p1" "p2" "text" "other" "key-0001" "key-0002" 1
      opened first_answer after_first "other" refl refl refl refl refl refl
