-- ===== src/Workspace/Store.antt =====
-- proofops/workspace/store.py: `Journal`, its tables and one function per method. A time is the
-- number of its microseconds; ids, tokens' digests and clock readings are arguments; a `spec` and a
-- `data` are the texts that `json.dumps` prints. The events stand with the newest first.
pub mod Claims
use safehire_proofops_bnb.Prelude.{
  ℕ, ◌+◌, ◌*◌, zero, suc, String, ◌≡◌, Bool, true, false, not, ◌&&◌, ◌||◌, Option, none, some, List,
  [], ◌∷◌, map, leb, ltb, ◌==◌, str_eq, if◌then◌else◌, keep, length, is_empty, take,
}
use safehire_proofops_bnb.Prelude.Raising.{Raising, ok, err, guard, ◌>>=◌, ◌>>◌}

pub data JournalError : Type 0 where
  workspace_quota watch_quota workspace_not_found watch_not_found : JournalError
  terminal_order action_limit integrity : JournalError

abbrev pub seconds : ℕ → ℕ
seconds n = n * 1000000

pub record Space : Type 0 where
  pub id : String
  pub secret : String
  pub created : ℕ

pub record Watch : Type 0 where
  pub id : String
  pub space : String
  pub kind : String
  pub spec : String
  pub active : Bool
  pub created : ℕ
  pub expires : ℕ
  pub due : ℕ
  pub lease : ℕ
  pub attempts : ℕ
  pub latest : String
  pub state : String

pub record Attempt : Type 0 where
  pub job : ℕ
  pub attempts : ℕ
  pub next_at : ℕ

pub record Event : Type 0 where
  pub seq : ℕ
  pub watch : String
  pub at : ℕ
  pub kind : String
  pub data_text : String
  pub read_at : Option ℕ

pub record Journal : Type 0 where
  pub spaces : List Space
  pub watches : List Watch
  pub notify_attempts : List Attempt
  pub events : List Event
  pub last_seq : ℕ
  pub provider_probes : List (ℕ × String)

abbrev pub empty_journal : Journal
empty_journal = record {
  spaces = [];
  watches = [];
  notify_attempts = [];
  events = [];
  last_seq = 0;
  provider_probes = [];
}

abbrev pub Outcome : Type 0 → Type 0
Outcome A = Raising JournalError A

-- The first row of a table that a test finds.
unfoldable pub find : {A : Type 0} → (A → Bool) → List A → Option A
find p [] = none
find p (x ∷ xs) = if p x then some x else find p xs

unfoldable pub or_missing : {A : Type 0} → Option A → JournalError → Outcome A
or_missing none e = err e
or_missing (some a) e = ok a

-- `UPDATE … WHERE`
unfoldable pub change : {A : Type 0} → (A → Bool) → (A → A) → List A → List A
change p f [] = []
change p f (x ∷ xs) = (if p x then f x else x) ∷ change p f xs

abbrev pub of_space : String → Watch → Bool
of_space space w = str_eq w.space space

abbrev pub is_watch : String → Watch → Bool
is_watch id w = str_eq w.id id

abbrev pub is_own : String → String → Watch → Bool
is_own space id w = str_eq w.id id && str_eq w.space space

-- `INSERT INTO events`
unfoldable pub record_event : String → ℕ → String → String → Journal → Journal
record_event watch now kind data_text j = record j {
  events =
      record {
        seq = j.last_seq + 1;
        watch = watch;
        at = now;
        kind = kind;
        data_text = data_text;
        read_at = none;
      }
      ∷ j.events;
  last_seq = j.last_seq + 1;
}

unfoldable pub create_space : ℕ → String → String → Journal → Outcome Journal
unfolding find
create_space now id secret j = do
  guard (not (leb 500 (length j.spaces))) workspace_quota
  guard (is_empty (keep (λ s. str_eq s.id id) j.spaces)) integrity
  ok (record j { spaces = record { id = id; secret = secret; created = now } ∷ j.spaces })

unfoldable pub authorize : String → String → Journal → Outcome (Unit {0})
unfolding find or_missing
authorize space secret j = do
  row ← or_missing (find (λ s. str_eq s.id space) j.spaces) workspace_not_found
  guard (str_eq row.secret secret) workspace_not_found

abbrev pub ttl_of : String → ℕ
ttl_of kind = if str_eq kind "order" then seconds 864000 else seconds 86400

abbrev pub new_watch : ℕ → String → String → String → String → Watch
new_watch now id space kind spec = record {
  id = id;
  space = space;
  kind = kind;
  spec = spec;
  active = true;
  created = now;
  expires = now + ttl_of kind;
  due = now;
  lease = 0;
  attempts = 0;
  latest = "{}";
  state = "pending";
}

abbrev pub same_watch : String → String → String → Watch → Bool
same_watch space kind spec w = str_eq w.space space && (str_eq w.kind kind && str_eq w.spec spec)

-- The id of the watch, an old one's if it is there; `created_text` is the data of its event.
unfoldable pub add :
    ℕ → String → String → String → String → String → Journal → Outcome (String × Journal)
unfolding find record_event
add now id space kind spec created_text j = elim (find (same_watch space kind spec) j.watches) [
  | some old ↦ ok (old.id, j)
  | none ↦
      if leb 200 (length j.watches) || leb 10 (length (keep (of_space space) j.watches))
      then err watch_quota
      else if is_empty (keep (is_watch id) j.watches)
      then ok (
        id,
        record_event id now "created" created_text
            (record j { watches = new_watch now id space kind spec ∷ j.watches }),
      )
      else err integrity
]

unfoldable pub pause : String → String → Journal → Outcome Journal
unfolding find change
pause space watch j = elim (find (is_own space watch) j.watches) [
  | none ↦ err watch_not_found
  | some _ ↦ ok (record j {
    watches = change (is_own space watch) (λ w. record w { active = false }) j.watches;
  })
]

abbrev unread : Event → Bool
unread e = elim e.read_at [ none ↦ true | some _ ↦ false ]

unfoldable pub acknowledge : ℕ → String → String → Journal → Journal
unfolding find change
acknowledge now space watch j = elim (find (is_own space watch) j.watches) [
  | none ↦ j
  | some _ ↦ record j {
    events =
        change (λ e. str_eq e.watch watch && unread e) (λ e. record e { read_at = some now })
          j.events;
  }
]

abbrev pub is_over : ℕ → Watch → Bool
is_over now w = w.active && leb w.expires now

abbrev pub is_ready : ℕ → Watch → Bool
is_ready now w = w.active && (leb w.due now && leb w.lease now)

abbrev pub expire : Watch → Watch
expire w = record w { active = false; state = "expired" }

-- `ORDER BY due LIMIT 1`: of two rows due at one time, the earlier in the table.
unfoldable pub earliest : List Watch → Option Watch
earliest [] = none
earliest (w ∷ ws) = elim (earliest ws) [
  | none ↦ some w
  | some v ↦ if ltb v.due w.due then some v else some w
]

unfoldable pub claim : ℕ → Journal → Option Watch × Journal
unfolding change earliest
claim now j =
    let swept = change (is_over now) expire j.watches in
    elim (earliest (keep (is_ready now) swept)) [
      | none ↦ (none, record j { watches = swept })
      | some w ↦ (
        some w,
        record j {
          watches = change (is_watch w.id) (λ v. record v { lease = now + seconds 180 }) swept;
        },
      )
    ]
