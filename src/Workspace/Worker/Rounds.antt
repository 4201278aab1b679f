-- ===== src/Workspace/Worker/Rounds.antt =====
-- proofops/workspace/worker.py: `process` and a round of `run`.
use safehire_proofops_bnb.Prelude.{
  ℕ, ◌+◌, String, Bool, true, false, not, ◌&&◌, ◌||◌, Option, none, some, ltb, str_eq,
  if◌then◌else◌,
}
use safehire_proofops_bnb.Prelude.Raising.{Raising, ok, err}
use safehire_proofops_bnb.LiveHire.Chain.{
  HireError, raised, JobState, open_job, funded, submitted, completed, rejected, expired, unknown,
}
use safehire_proofops_bnb.LiveHire.Status.{live_job_status}
use safehire_proofops_bnb.LiveHire.Notify.{notify_live_agent}
use safehire_proofops_bnb.LiveHire.Delivery.{Delivery, live_delivery}
use safehire_proofops_bnb.Workspace.Store.{Journal, Watch, seconds, claim}
use safehire_proofops_bnb.Workspace.FollowUp.{reserve_notification, finish}
use safehire_proofops_bnb.Workspace.Worker.{
  Reading, health_read, lp_read, grid_read, yield_read, OrderSpec, World, Clock, Notice, Looked,
  Processed, Failure, not_finished, escaped, no_notice, finishing, job_if,
}

abbrev phase_name : JobState → String
phase_name open_job = "open"
phase_name funded = "funded"
phase_name submitted = "submitted"
phase_name completed = "completed"
phase_name rejected = "rejected"
phase_name expired = "expired"
phase_name unknown = "unknown"

abbrev pub is_funded : JobState → Bool
is_funded funded = true
is_funded _ = false

module _ {D : Type 0} (w : World D) (t : Clock) where
  abbrev pub called_notice : ℕ → Journal → Notice
  called_notice id j = record {
    journal = j;
    attempted = true;
    answer = elim (notify_live_agent w.rpc w.net t.at_notice id) [
      | err e ↦ err e
      | ok n ↦ ok (some n)
    ];
  }

  unfoldable pub notice_of : OrderSpec → JobState → Journal → Notice
  notice_of spec state j =
      if is_funded state && spec.notify_provider
      then (let (allowed, j') = reserve_notification t.at_reserve spec.job_id j in
          if allowed then called_notice spec.job_id j' else no_notice j')
      else no_notice j

  abbrev waits_long : Watch → Bool
  waits_long row = ltb (row.created + seconds 600) t.at_check

  -- The delivery of a job that was submitted, and the phase with it.
  unfoldable pub phase_with :
      OrderSpec → Watch → JobState → Raising HireError (String × Option Delivery)
  phase_with spec row state =
      if str_eq (phase_name state) "submitted" || str_eq (phase_name state) "completed"
      then elim (live_delivery w.rpc w.node t.at_delivery spec.job_id) [
        | err e ↦ err e
        | ok d ↦ elim d.passed [
          | some false ↦ ok ("acceptance_failed", some d)
          | _ ↦ ok (phase_name state, some d)
        ]
      ]
      else ok (if is_funded state && waits_long row then "overdue" else phase_name state, none)

  unfoldable pub look_at_order : Watch → Journal → OrderSpec → Looked
  unfolding notice_of phase_with
  look_at_order row j spec = elim (live_job_status w.rpc t.at_status spec.job_id) [
    | err e ↦ record { journal = j; attempted = false; outcome = err e }
    | ok status ↦
        let n = notice_of spec status.status j in
        record {
          journal = n.journal;
          attempted = n.attempted;
          outcome = elim n.answer [
            | err e ↦ err e
            | ok notification ↦ elim (phase_with spec row status.status) [
              | err e ↦ err e
              | ok (phase, delivery) ↦ ok (
                phase,
                w.print_order row t.at_check
                    (record { chain = status; notification = notification; delivery = delivery }),
              )
            ]
          ];
        }
  ]

  unfoldable pub reading_state : Reading D → String
  reading_state (health_read none threshold) = "no_debt"
  reading_state (health_read (some factor) threshold) =
      if w.below factor threshold then "alert" else "observing"
  reading_state (lp_read lower tick upper) =
      if not (w.below tick lower) && w.below tick upper then "observing" else "alert"
  reading_state (grid_read lower price upper) =
      if not (w.below price lower) && not (w.below upper price) then "observing" else "alert"
  reading_state (yield_read triggered) = if triggered then "alert" else "observing"

  abbrev is_observed : String → Bool
  is_observed kind =
      str_eq kind "health" || (str_eq kind "lp" || (str_eq kind "grid" || str_eq kind "yield"))

  unfoldable pub look_at_source : Watch → Raising HireError (String × String)
  unfolding reading_state
  look_at_source row =
      if is_observed row.kind
      then elim (w.observe row.kind row.spec) [
        | err e ↦ err e
        | ok reading ↦ ok (reading_state reading, w.print_reading reading)
      ]
      else err (raised "Unsupported watch")

  abbrev pub caught_by : HireError → Bool
  caught_by e = elim e [ raised s ↦ str_eq s "Unsupported watch" || w.is_caught s | _ ↦ true ]

  abbrev pub is_terminal : Watch → String → Bool
  is_terminal row state =
      str_eq row.kind "order"
      && (str_eq state "completed" || (str_eq state "rejected" || str_eq state "expired"))

  unfoldable pub close : Watch → Option ℕ → Looked → Processed
  close row called looked = elim looked.outcome [
    | ok (state, report) ↦ finishing looked.journal called (
        finish t.at_finish row.id state report (seconds 300) looked.attempted
          (is_terminal row state) looked.journal)
    | err e ↦
        if caught_by e
        then finishing looked.journal called (
            finish t.at_finish row.id "error" (w.print_error e t.at_finish) (seconds 300)
              looked.attempted false looked.journal)
        else record { journal = looked.journal; called = called; failure = some (escaped e) }
  ]

  unfoldable pub process : Watch → Journal → Processed
  unfolding look_at_order look_at_source close
  process row j =
      if str_eq row.kind "order"
      then elim (w.order_spec row.spec) [
        | err e ↦ close row none (record { journal = j; attempted = false; outcome = err e })
        | ok spec ↦
            let looked = look_at_order row j spec in
            close row (job_if looked.attempted spec.job_id) looked
      ]
      else close row none (record { journal = j; attempted = false; outcome = look_at_source row })

  abbrev pub is_late : Option Failure → Bool
  is_late none = false
  is_late (some (not_finished e)) = false
  is_late (some (escaped (raised s))) = w.is_timeout s
  is_late (some (escaped e)) = false

  unfoldable pub follow_up : Option Watch × Journal → Processed
  unfolding process
  follow_up (none, j) = record { journal = j; called = none; failure = none }
  follow_up (some row, j) =
      let done = process row j in
      if is_late done.failure
      then finishing done.journal done.called (
          finish t.at_finish row.id "error" (w.print_error (raised "TimeoutError") t.at_finish)
            (seconds 300) false false done.journal)
      else done

  -- A round of `run`.
  unfoldable pub tick : Journal → Processed
  unfolding follow_up
  tick j = follow_up (claim t.at_claim j)
