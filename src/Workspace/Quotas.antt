-- ===== src/Workspace/Quotas.antt =====
-- The quotas of proofops/workspace/store.py over any sequence of its methods.
use safehire_proofops_bnb.Prelude.{
  ℕ, ◌+◌, ◌≤◌, String, ◌≡◌, refl, Bool, true, false, List, [], ◌∷◌, keep, length, arith, Bool-cases,
  Option-cases, inl, inr, eq_iff,
}
use safehire_proofops_bnb.Prelude.Raising.{ok, err, Result-cases}
use safehire_proofops_bnb.Workspace.Store.{
  Journal, Watch, Outcome, change, find, of_space, empty_journal, create_space, add, pause,
  acknowledge, claim, record_event, earliest, or_missing, is_own, is_watch, is_over, is_ready,
  expire, seconds, ttl_of,
}
use safehire_proofops_bnb.Workspace.FollowUp.{
  reserve_notification, finish, finished, is_closed_order, resume, save_action, save_provider_probe,
}

-- A call of a method that writes, with what it draws from its surroundings.
pub data Call : Type 0 where
  ask_space : ℕ → String → String → Call
  ask_add : ℕ → String → String → String → String → String → Call
  ask_pause : String → String → Call
  ask_acknowledge : ℕ → String → String → Call
  ask_claim : ℕ → Call
  ask_reserve : ℕ → ℕ → Call
  ask_finish : ℕ → String → String → String → ℕ → Bool → Bool → Call
  ask_resume : ℕ → String → String → String → Call
  ask_action : ℕ → String → String → String → Call
  ask_probe : ℕ → String → Call

-- A method that raises rolls its transaction back.
abbrev settled : Journal → Outcome Journal → Journal
settled j (ok j') = j'
settled j (err e) = j

abbrev settled_add : Journal → Outcome (String × Journal) → Journal
settled_add j (ok (id, j')) = j'
settled_add j (err e) = j

pub perform : Call → Journal → Journal
perform (ask_space now id secret) j = settled j (create_space now id secret j)
perform (ask_add now id space kind spec data_text) j =
    settled_add j (add now id space kind spec data_text j)
perform (ask_pause space watch) j = settled j (pause space watch j)
perform (ask_acknowledge now space watch) j = acknowledge now space watch j
perform (ask_claim now) j = (claim now j).1
perform (ask_reserve now job) j = (reserve_notification now job j).1
perform (ask_finish now watch state raw interval attempted terminal) j =
    settled j (finish now watch state raw interval attempted terminal j)
perform (ask_resume now space watch data_text) j = settled j (resume now space watch data_text j)
perform (ask_action now space watch value) j = settled j (save_action now space watch value j)
perform (ask_probe token value) j = save_provider_probe token value j

pub perform_all : List Call → Journal → Journal
unfolding perform
perform_all [] j = j
perform_all (c ∷ cs) j = perform_all cs (perform c j)

pub record Within (j : Journal) : Type 0 where
  pub spaces : length j.spaces ≤ 500
  pub watches : length j.watches ≤ 200
  pub per_space : (space : String) → length (keep (of_space space) j.watches) ≤ 10

-- An update that leaves the rows' spaces alone changes no count.
change_counts :
    (p : Watch → Bool) (f : Watch → Watch) (ws : List Watch)
    → ((w : Watch) → (f w).space ≡ w.space)
    → (length (change p f ws) ≡ length ws)
      × ((space : String)
          → length (keep (of_space space) (change p f ws)) ≡ length (keep (of_space space) ws))
unfolding change keep
change_counts p f [] same = (refl, λ s. refl)
change_counts p f (w ∷ ws) same =
    let ih = change_counts p f ws same in
    (ground (arith, ih.0), λ s. ground (arith, ih.1 s, same w))

Within-change :
    (p : Watch → Bool) (f : Watch → Watch) (j j' : Journal)
    → ((w : Watch) → (f w).space ≡ w.space)
    → j'.spaces ≡ j.spaces
    → j'.watches ≡ change p f j.watches
    → Within j
    → Within j'
Within-change p f j j' same s w h =
    let counts = change_counts p f j.watches same in
    record {
      spaces = rw s h.spaces;
      watches = rw (w, counts.0) h.watches;
      per_space = λ space. rw (w, counts.1 space) (h.per_space space);
    }

Within-same :
    (j j' : Journal) → j'.spaces ≡ j.spaces → j'.watches ≡ j.watches → Within j → Within j'
Within-same j j' s w h = record {
  spaces = rw s h.spaces;
  watches = rw w h.watches;
  per_space = λ space. rw w (h.per_space space);
}

create_space-Within :
    (now : ℕ) (id secret : String) (j : Journal)
    → Within j
    → Within (settled j (create_space now id secret j))
unfolding create_space
create_space-Within now id secret j h = record {
  spaces = ground (arith, h.spaces);
  watches = ground (arith, h.watches);
  per_space = λ space. ground (arith, h.per_space space);
}

add-Within :
    (now : ℕ) (id space kind spec data_text : String) (j : Journal)
    → Within j
    → Within (settled_add j (add now id space kind spec data_text j))
unfolding add record_event keep
add-Within now id space kind spec data_text j h = record {
  spaces = ground (arith, h.spaces);
  watches = ground (arith, h.watches);
  per_space = λ other. ground (arith, h.per_space other, h.per_space space, eq_iff space other);
}

pause-Within :
    (space watch : String) (j : Journal) → Within j → Within (settled j (pause space watch j))
unfolding pause
pause-Within space watch j h = elim (Result-cases (pause space watch j)) [
  | inl (e, failed) ↦ rw failed h
  | inr (j', done) ↦
      Within-change (is_own space watch) (λ w. record w { active = false }) j
        (settled j (pause space watch j)) (λ w. refl) (ground (arith, done)) (ground (arith, done))
        h
]

finish-Within :
    (now : ℕ) (watch state raw : String) (interval : ℕ) (attempted terminal : Bool) (j : Journal)
    → Within j
    → Within (settled j (finish now watch state raw interval attempted terminal j))
unfolding finish record_event
finish-Within now watch state raw interval attempted terminal j h =
    elim (Option-cases (find (is_watch watch) j.watches)) [
      | inl gone ↦ Within-same j _ (ground (arith, gone)) (ground (arith, gone)) h
      | inr (row, found) ↦
          Within-change (is_watch watch) (finished now state raw interval attempted terminal) j _
            (λ w. refl) (ground (arith, found)) (ground (arith, found)) h
    ]

resume-Within :
    (now : ℕ) (space watch data_text : String) (j : Journal)
    → Within j
    → Within (settled j (resume now space watch data_text j))
unfolding resume record_event or_missing
resume-Within now space watch data_text j h =
    elim (Option-cases (find (is_own space watch) j.watches)) [
      | inl gone ↦ Within-same j _ (ground (arith, gone)) (ground (arith, gone)) h
      | inr (row, found) ↦ elim (Bool-cases (is_closed_order row)) [
        | inl over ↦ Within-same j _ (ground (arith, found, over)) (ground (arith, found, over)) h
        | inr live ↦
            Within-change (is_watch watch)
              (λ w. record w { active = true; expires = now + ttl_of row.kind; due = now }) j _
              (λ w. refl) (ground (arith, found, live)) (ground (arith, found, live)) h
      ]
    ]

claim-Within : (now : ℕ) (j : Journal) → Within j → Within (claim now j).1
unfolding claim
claim-Within now j h =
    let swept : Journal = record j { watches = change (is_over now) expire j.watches } in
    let within = Within-change (is_over now) expire j swept (λ w. refl) refl refl h in
    elim (Option-cases (earliest (keep (is_ready now) swept.watches))) [
      | inl nothing ↦ Within-same swept _ (ground (arith, nothing)) (ground (arith, nothing)) within
      | inr (w, found) ↦
          Within-change (is_watch w.id) (λ v. record v { lease = now + seconds 180 }) swept _
            (λ w. refl) (ground (arith, found)) (ground (arith, found)) within
    ]

perform-Within : (c : Call) (j : Journal) → Within j → Within (perform c j)
unfolding perform acknowledge reserve_notification save_action record_event save_provider_probe
    or_missing
perform-Within (ask_space now id secret) j h = create_space-Within now id secret j h
perform-Within (ask_add now id space kind spec data_text) j h =
    add-Within now id space kind spec data_text j h
perform-Within (ask_pause space watch) j h = pause-Within space watch j h
perform-Within (ask_acknowledge now space watch) j h =
    Within-same j _ (ground arith) (ground arith) h
perform-Within (ask_claim now) j h = claim-Within now j h
perform-Within (ask_reserve now job) j h = Within-same j _ (ground arith) (ground arith) h
perform-Within (ask_finish now watch state raw interval attempted terminal) j h =
    finish-Within now watch state raw interval attempted terminal j h
perform-Within (ask_resume now space watch data_text) j h =
    resume-Within now space watch data_text j h
perform-Within (ask_action now space watch value) j h =
    Within-same j _ (ground arith) (ground arith) h
perform-Within (ask_probe token value) j h = Within-same j _ refl refl h

perform_all-Within : (cs : List Call) (j : Journal) → Within j → Within (perform_all cs j)
unfolding perform_all
perform_all-Within [] j h = h
perform_all-Within (c ∷ cs) j h = perform_all-Within cs (perform c j) (perform-Within c j h)

-- Whatever methods are called, in any order and with any arguments, a new journal never holds more
-- than 500 spaces, 200 watches, or 10 watches of one space.
pub quotas_hold : (cs : List Call) → Within (perform_all cs empty_journal)
unfolding keep
quotas_hold cs =
    perform_all-Within cs empty_journal
      (record { spaces = omega arith; watches = omega arith; per_space = λ space. omega arith })
