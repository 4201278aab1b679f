-- ===== src/Workspace/FollowUp.antt =====
-- proofops/workspace/store.py: the methods of `Journal` that follow a watch up.
pub mod Notifications
pub mod Retention
use safehire_proofops_bnb.Prelude.{
  ℕ, ◌+◌, zero, suc, String, Bool, true, false, ◌&&◌, ◌||◌, not, Option, none, some, List, [], ◌∷◌,
  map, leb, ltb, ◌==◌, str_eq, if◌then◌else◌, keep, length, is_empty, take,
}
use safehire_proofops_bnb.Prelude.Raising.{ok, err, guard, ◌>>=◌, ◌>>◌}
use safehire_proofops_bnb.Workspace.Store.{
  Journal, Watch, Attempt, Event, Outcome, find, change, or_missing, record_event, is_watch, is_own,
  of_space, ttl_of, seconds, watch_not_found, terminal_order, action_limit,
}

unfoldable pub put_attempt : ℕ → ℕ → ℕ → List Attempt → List Attempt
put_attempt job attempts next_at [] =
    record { job = job; attempts = attempts; next_at = next_at } ∷ []
put_attempt job attempts next_at (a ∷ rows) =
    if a.job == job
    then record { job = job; attempts = attempts; next_at = next_at } ∷ rows
    else a ∷ put_attempt job attempts next_at rows

abbrev pub of_job : ℕ → Attempt → Bool
of_job job a = a.job == job

unfoldable pub reserve_notification : ℕ → ℕ → Journal → Bool × Journal
unfolding find put_attempt
reserve_notification now job j = elim (find (of_job job) j.notify_attempts) [
  | none ↦
      (true, record j { notify_attempts = put_attempt job 1 (now + seconds 300) j.notify_attempts })
  | some a ↦ if leb 3 a.attempts || ltb now a.next_at then (false, j) else (
    true,
    record j {
      notify_attempts = put_attempt job (a.attempts + 1) (now + seconds 300) j.notify_attempts;
    },
  )
]

-- The newest `n` events of a watch stay, with every event of another.
unfoldable pub retain : String → ℕ → List Event → List Event
retain watch n [] = []
retain watch zero (e ∷ es) =
    let rest = retain watch zero es in if str_eq e.watch watch then rest else e ∷ rest
retain watch (suc n) (e ∷ es) = elim (str_eq e.watch watch) [
  | true ↦ e ∷ retain watch n es
  | false ↦ e ∷ retain watch (suc n) es
]

abbrev pub alerts : String → Bool
alerts state =
    str_eq state "alert"
    || (str_eq state "error" || (str_eq state "acceptance_failed" || str_eq state "overdue"))

-- The kind of the event that `finish` records, of the new and the old state.
abbrev pub event_kind : String → String → String
event_kind state old =
    if str_eq state "submitted" && not (str_eq old state)
    then "delivery_ready"
    else (if alerts state && not (str_eq old state) then "alert" else "observation")

abbrev pub finished : ℕ → String → String → ℕ → Bool → Bool → Watch → Watch
finished now state raw interval attempted terminal w = record w {
  latest = raw;
  state = state;
  due = now + interval;
  lease = 0;
  attempts = w.attempts + (if attempted then 1 else 0);
  active = not terminal && w.active;
}

unfoldable pub finish : ℕ → String → String → String → ℕ → Bool → Bool → Journal → Outcome Journal
unfolding find change record_event retain
finish now watch state raw interval attempted terminal j = elim (find (is_watch watch) j.watches) [
  | none ↦ err watch_not_found
  | some row ↦
      let j' = record_event watch now (event_kind state row.state) raw (record j {
        watches =
            change (is_watch watch) (finished now state raw interval attempted terminal) j.watches;
      }) in
      ok (record j' { events = retain watch 300 j'.events })
]

-- A row as `list` shows it, with its newest 300 events.
pub record Listed : Type 0 where
  pub row : Watch
  pub events : List Event

place : Watch → List Watch → List Watch
place w [] = w ∷ []
place w (v ∷ vs) = if leb v.created w.created then w ∷ v ∷ vs else v ∷ place w vs

newest : List Watch → List Watch
unfolding place
newest [] = []
newest (w ∷ ws) = place w (newest ws)

unfoldable pub list_watches : String → Journal → List Listed
unfolding newest
list_watches space j =
    map (λ w. record { row = w; events = take 300 (keep (λ e. str_eq e.watch w.id) j.events) })
      (newest (keep (of_space space) j.watches))

unfoldable pub watch_of : String → String → Journal → Outcome Listed
unfolding find or_missing list_watches
watch_of space watch j =
    or_missing (find (λ r. str_eq r.row.id watch) (list_watches space j)) watch_not_found

abbrev pub is_closed_order : Watch → Bool
is_closed_order w =
    str_eq w.kind "order" && (str_eq w.state "completed" || str_eq w.state "rejected")

unfoldable pub resume : ℕ → String → String → String → Journal → Outcome Journal
unfolding find change record_event or_missing
resume now space watch resumed_text j = do
  row ← or_missing (find (is_own space watch) j.watches) watch_not_found
  guard (not (is_closed_order row)) terminal_order
  ok (
      record_event watch now "resumed" resumed_text (record j {
        watches =
            change (is_watch watch)
              (λ w. record w { active = true; expires = now + ttl_of row.kind; due = now })
              j.watches;
      }))

abbrev pub is_plan : String → Event → Bool
is_plan watch e = str_eq e.watch watch && str_eq e.kind "action_plan"

unfoldable pub save_action : ℕ → String → String → String → Journal → Outcome Journal
unfolding find record_event or_missing
save_action now space watch value_text j = do
  row ← or_missing (find (is_own space watch) j.watches) watch_not_found
  guard (not (leb 20 (length (keep (is_plan watch) j.events)))) action_limit
  ok (record_event watch now "action_plan" value_text j)

put_probe : ℕ → String → List (ℕ × String) → List (ℕ × String)
put_probe token value [] = (token, value) ∷ []
put_probe token value ((t, v) ∷ rows) =
    if t == token then (token, value) ∷ rows else (t, v) ∷ put_probe token value rows

unfoldable pub save_provider_probe : ℕ → String → Journal → Journal
unfolding put_probe
save_provider_probe token value j = record j {
  provider_probes = put_probe token value j.provider_probes;
}
