-- ===== src/Workspace/Worker/Calls.antt =====
-- How often the rounds of proofops/workspace/worker.py call the provider of a job.
use mathlib.Core.Path.{subst}
use safehire_proofops_bnb.Prelude.{
  ℕ, ◌+◌, ◌≤◌, String, ◌≡◌, refl, sym, ap, inl, inr, Bool, false, ◌&&◌, Option, none, some, List,
  [], ◌∷◌, ◌==◌, str_eq, if◌then◌else◌, arith, Option-cases, Bool-cases,
}
use safehire_proofops_bnb.Prelude.Raising.{ok, err, Result-cases}
use safehire_proofops_bnb.LiveHire.Chain.{JobState, raised}
use safehire_proofops_bnb.LiveHire.Status.{live_job_status}
use safehire_proofops_bnb.Workspace.Store.{
  Journal, Watch, find, is_watch, record_event, claim, seconds,
}
use safehire_proofops_bnb.Workspace.FollowUp.{reserve_notification, finish, of_job}
use safehire_proofops_bnb.Workspace.FollowUp.Notifications.{
  attempts_of, count_of, one_if, step_own, step_other,
}
use safehire_proofops_bnb.Workspace.Worker.{
  World, Clock, OrderSpec, Looked, Processed, finishing, job_if,
}
use safehire_proofops_bnb.Workspace.Worker.Rounds.{
  notice_of, look_at_order, look_at_source, close, caught_by, is_late, is_funded, is_terminal,
  follow_up, process, tick,
}

abbrev called_one : ℕ → Option ℕ → ℕ
called_one job none = 0
called_one job (some k) = if k == job then 1 else 0

-- A call to the job's provider is on record, and the record does not pass three.
abbrev Counts : ℕ → Journal → Option ℕ → Journal → Type 0
Counts job j called j' =
    (attempts_of job j + called_one job called ≤ attempts_of job j')
    × (attempts_of job j ≤ 3 → attempts_of job j' ≤ 3)

still : (job : ℕ) (j : Journal) → Counts job j none j
still job j = (omega arith, λ h. h)

finish-attempts :
    (now : ℕ) (watch state raw : String) (interval : ℕ) (attempted terminal : Bool) (j j' : Journal)
    → finish now watch state raw interval attempted terminal j ≡ ok j'
    → j'.notify_attempts ≡ j.notify_attempts
unfolding finish record_event
finish-attempts now watch state raw interval attempted terminal j j' e =
    elim (Option-cases (find (is_watch watch) j.watches)) [
      | inl gone ↦ absurd (ground (arith, gone, e))
      | inr (row, found) ↦ ground (arith, found, e)
    ]

claim-attempts : (now : ℕ) (j : Journal) → (claim now j).1.notify_attempts ≡ j.notify_attempts
unfolding claim
claim-attempts now j = ground arith

-- Whether the journal is written or not, its attempts stay.
finishing-attempts :
    (j : Journal) (called : Option ℕ) (now : ℕ) (watch state raw : String) (interval : ℕ)
    (attempted terminal : Bool)
    → let p = finishing j called (finish now watch state raw interval attempted terminal j) in
      (p.journal.notify_attempts ≡ j.notify_attempts) × (p.called ≡ called)
finishing-attempts j called now watch state raw interval attempted terminal =
    elim (Result-cases (finish now watch state raw interval attempted terminal j)) [
      | inl (e, at) ↦ rw at (refl, refl)
      | inr (j', at) ↦
          rw at (finish-attempts now watch state raw interval attempted terminal j j' at, refl)
    ]

reserve-Counts :
    (now other job : ℕ) (j : Journal)
    → let m = reserve_notification now other j in Counts job j (job_if m.0 other) m.1
reserve-Counts now other job j = elim (Bool-cases (other == job)) [
  | inl hit ↦
      let mine : other ≡ job = ground (arith, hit) in
      let (more, room) =
        subst
          (λ x.
            let m = reserve_notification now x j in
            (attempts_of job m.1 ≡ attempts_of job j + one_if m.0)
            × (attempts_of job j ≤ 3 → attempts_of job m.1 ≤ 3))
          (sym mine) (step_own now job j) in
      (ground (arith, hit, more), room)
  | inr miss ↦
      let same = step_other now other job j (ground (arith, miss)) in
      (ground (arith, miss, same), ground (arith, same))
]

module _ {D : Type 0} (w : World D) (t : Clock) (job : ℕ) where
  notice-Counts :
      (spec : OrderSpec) (state : JobState) (j : Journal)
      → let n = notice_of w t spec state j in
        Counts job j (job_if n.attempted spec.job_id) n.journal
  unfolding notice_of
  notice-Counts spec state j = elim (Bool-cases (is_funded state && spec.notify_provider)) [
    | inr silent ↦ rw silent (still job j)
    | inl asked ↦
        let m = reserve_notification t.at_reserve spec.job_id j in
        let counts = reserve-Counts t.at_reserve spec.job_id job j in
        elim (Bool-cases m.0) [
          | inl allowed ↦
              rw asked
                (rw allowed (subst (λ b. Counts job j (job_if b spec.job_id) m.1) allowed counts))
          | inr refused ↦
              rw asked
                (rw refused (subst (λ b. Counts job j (job_if b spec.job_id) m.1) refused counts))
        ]
  ]

  close-attempts :
      (row : Watch) (called : Option ℕ) (looked : Looked)
      → let p = close w t row called looked in
        (p.journal.notify_attempts ≡ looked.journal.notify_attempts) × (p.called ≡ called)
  unfolding close
  close-attempts row called looked = elim (Result-cases looked.outcome) [
    | inr ((state, report), at) ↦ rw at (
        finishing-attempts looked.journal called t.at_finish row.id state report (seconds 300)
          looked.attempted (is_terminal w t row state))
    | inl (e, at) ↦ elim (Bool-cases (caught_by w t e)) [
      | inl caught ↦ rw at (
          rw caught (
            finishing-attempts looked.journal called t.at_finish row.id "error"
              (w.print_error e t.at_finish) (seconds 300) looked.attempted false))
      | inr uncaught ↦ rw at (rw uncaught (refl, refl))
    ]
  ]

  look_at_order-Counts :
      (row : Watch) (j : Journal) (spec : OrderSpec)
      → let looked = look_at_order w t row j spec in
        Counts job j (job_if looked.attempted spec.job_id) looked.journal
  unfolding look_at_order
  look_at_order-Counts row j spec =
      elim (Result-cases (live_job_status w.rpc t.at_status spec.job_id)) [
        | inl (e, at) ↦ rw (look_at_order, at) (still job j)
        | inr (status, at) ↦ rw (look_at_order, at) (notice-Counts spec status.status j)
      ]

  -- What a result has of the attempts and of the call is what was counted before.
  Counts-same :
      (j : Journal) (called : Option ℕ) (before : Journal) (p : Processed)
      → Counts job j called before
      → (p.journal.notify_attempts ≡ before.notify_attempts) × (p.called ≡ called)
      → Counts job j p.called p.journal
  Counts-same j called before p counts (same, own) =
      let held : attempts_of job p.journal ≡ attempts_of job before =
        ap (λ rows. count_of (find (of_job job) rows)) same in
      rw own (rw held counts)

  process-Counts :
      (row : Watch) (j : Journal) → let p = process w t row j in Counts job j p.called p.journal
  unfolding process
  process-Counts row j = elim (Bool-cases (str_eq row.kind "order")) [
    | inr other ↦
        let looked : Looked = record {
          journal = j;
          attempted = false;
          outcome = look_at_source w t row;
        } in
        rw other (
          Counts-same j none j (close w t row none looked) (still job j)
            (close-attempts row none looked))
    | inl order ↦ elim (Result-cases (w.order_spec row.spec)) [
      | inl (e, at) ↦
          let looked : Looked = record { journal = j; attempted = false; outcome = err e } in
          rw order (
            rw at (
              Counts-same j none j (close w t row none looked) (still job j)
                (close-attempts row none looked)))
      | inr (spec, at) ↦
          let looked = look_at_order w t row j spec in
          let called = job_if looked.attempted spec.job_id in
          rw order (
            rw at (
              Counts-same j called looked.journal (close w t row called looked)
                (look_at_order-Counts row j spec) (close-attempts row called looked)))
    ]
  ]

  claimed-Counts :
      (j j' : Journal) (called : Option ℕ) (j'' : Journal)
      → j'.notify_attempts ≡ j.notify_attempts
      → Counts job j' called j''
      → Counts job j called j''
  claimed-Counts j j' called j'' same counts =
      let held : attempts_of job j' ≡ attempts_of job j =
        ap (λ rows. count_of (find (of_job job) rows)) same in
      subst
        (λ n. (n + called_one job called ≤ attempts_of job j'') × (n ≤ 3 → attempts_of job j'' ≤ 3))
        held counts

  follow_up-Counts :
      (claimed : Option Watch × Journal)
      → let p = follow_up w t claimed in Counts job claimed.1 p.called p.journal
  unfolding follow_up
  follow_up-Counts (none, j) = still job j
  follow_up-Counts (some row, j) =
      let p = process w t row j in
      let counts = process-Counts row j in
      elim (Bool-cases (is_late w t p.failure)) [
        | inr timely ↦ rw timely counts
        | inl late ↦
            let last = finishing p.journal p.called (
              finish t.at_finish row.id "error" (w.print_error (raised "TimeoutError") t.at_finish)
                (seconds 300) false false p.journal) in
            let same =
              finishing-attempts p.journal p.called t.at_finish row.id "error"
                (w.print_error (raised "TimeoutError") t.at_finish) (seconds 300) false false in
            rw late (Counts-same j p.called p.journal last counts same)
      ]

  tick-Counts : (j : Journal) → let p = tick w t j in Counts job j p.called p.journal
  unfolding tick
  tick-Counts j =
      let p = follow_up w t (claim t.at_claim j) in
      claimed-Counts j (claim t.at_claim j).1 p.called p.journal (claim-attempts t.at_claim j)
        (follow_up-Counts (claim t.at_claim j))

module _ {D : Type 0} where
  -- How many of the rounds call the provider of a job.
  unfoldable pub calls : ℕ → List (World D × Clock) → Journal → ℕ
  calls job [] j = 0
  calls job ((w, t) ∷ rounds) j =
      let p = tick w t j in let rest = calls job rounds p.journal in called_one job p.called + rest

  -- Whatever the chain, the provider and the clock answer in each round, and whether a call raises or
  -- not, the worker calls the provider of a job at most three times, less the attempts that its
  -- journal has on record, where these are at most three.
  pub called_at_most_three :
      (job : ℕ) (rounds : List (World D × Clock)) (j : Journal)
      → attempts_of job j ≤ 3
      → calls job rounds j + attempts_of job j ≤ 3
  unfolding calls
  called_at_most_three job [] j h = omega (arith, h)
  called_at_most_three job ((w, t) ∷ rounds) j h =
      let p = tick w t j in
      let (more, room) = tick-Counts w t job j in
      let ih = called_at_most_three job rounds p.journal (room h) in omega (arith, more, ih)
