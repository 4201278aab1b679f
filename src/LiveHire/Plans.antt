-- ===== src/LiveHire/Plans.antt =====
-- proofops/services/live_erc8183.py: the transactions that a buyer is asked to sign. The label of a
-- transaction is left out.
pub mod Exclusive
pub mod Funding
pub mod Resume
pub mod Started
use safehire_proofops_bnb.Prelude.{
  ℕ, String, Bool, true, false, not, ◌&&◌, ◌||◌, Option, none, some, List, [], ◌∷◌, ◌++◌, ltb, ◌==◌,
  str_eq, if◌then◌else◌,
}
use safehire_proofops_bnb.Prelude.Text.{lower}
use safehire_proofops_bnb.Prelude.Raising.{Raising, ok, err, or_raise, guard, ◌>>=◌, ◌>>◌}
use safehire_proofops_bnb.Domain.Canonical.{Json}
use safehire_proofops_bnb.LiveHire.Chain.{
  HireError, JobState, open_job, submitted, Verdict, undecided, TaskSpec, Sources, policy, commerce,
  router, u_token, zero_address, not_owner, not_open, no_progress, unexpected_policy,
  unexpected_budget, outside_dispute_window, already_completed, not_submitted, review_open,
  no_verdict, not_refundable,
}
use safehire_proofops_bnb.LiveHire.Status.{JobStatus, Progress, Review, live_job_status, is_final}

-- The call data of a transaction.
pub data Call : Type 0 where
  register_job : ℕ → String → Call
  set_budget fund_job : ℕ → ℕ → Call
  approve_u : String → ℕ → Call
  dispute_job settle_job claim_refund : ℕ → Call

pub record Transaction : Type 0 where
  pub to : String
  pub call : Call

pub record FollowupPlan : Type 0 where
  pub job_id : ℕ
  pub task_spec : TaskSpec
  pub description_verification : Json
  pub price : ℕ
  pub transactions : List Transaction

pub record DisputePlan : Type 0 where
  pub job_id : ℕ
  pub seconds_remaining : ℕ
  pub transaction : Transaction

pub record SettlePlan : Type 0 where
  pub job_id : ℕ
  pub policy_verdict : Verdict
  pub review_window_closed : Bool
  pub transaction : Transaction

pub record RefundPlan : Type 0 where
  pub job_id : ℕ
  pub transaction : Transaction

abbrev pub is_open : JobState → Bool
is_open s = elim s [ open_job ↦ true | _ ↦ false ]

abbrev pub is_submitted : JobState → Bool
is_submitted s = elim s [ submitted ↦ true | _ ↦ false ]

-- `status.get(…)`, for a status that may have no review
abbrev pub can_settle_of : Option Review → Bool
can_settle_of none = false
can_settle_of (some r) = r.can_settle

abbrev pub can_dispute_of : Option Review → Bool
can_dispute_of none = false
can_dispute_of (some r) = r.can_dispute

abbrev pub seconds_of : Option Review → ℕ
seconds_of none = 0
seconds_of (some r) = r.seconds_until_settle

abbrev pub verdict_of : Option Review → Verdict
verdict_of none = undecided
verdict_of (some r) = r.policy_verdict

abbrev pub closed_of : Option Review → Bool
closed_of none = false
closed_of (some r) = r.review_window_closed

-- The transactions that are missing, from what is registered, budgeted and allowed.
unfoldable pub missing_transactions : ℕ → ℕ → String → ℕ → ℕ → List Transaction
missing_transactions id price registered budget allowance =
    (if str_eq registered zero_address
      then record { to = router; call = register_job id policy } ∷ []
      else [])
    ++ ((if budget == 0 then record { to = commerce; call = set_budget id price } ∷ [] else [])
        ++ ((if not (allowance == price)
              then record { to = u_token; call = approve_u commerce price } ∷ []
              else [])
            ++ (record { to = commerce; call = fund_job id price } ∷ [])))

module _ (rpc : Sources) (now : ℕ) where
  unfoldable pub live_followup_plan : String → ℕ → Raising HireError FollowupPlan
  unfolding missing_transactions
  live_followup_plan buyer id = do
    owner ← rpc.checksum buyer
    status ← live_job_status rpc now id
    guard (str_eq (lower status.job.client) (lower owner)) not_owner
    guard (is_open status.status) (not_open status.status)
    progress ← or_raise status.open_progress no_progress
    registered ← rpc.checksum progress.registered_policy
    guard (str_eq registered zero_address || str_eq registered policy) unexpected_policy
    guard (status.job.budget == 0 || status.job.budget == status.price) unexpected_budget
    ok (record {
      job_id = id;
      task_spec = status.task_spec;
      description_verification = status.description_verification;
      price = status.price;
      transactions =
          missing_transactions id status.price registered status.job.budget progress.allowance_raw;
    })

  unfoldable pub live_dispute_plan : String → ℕ → Raising HireError DisputePlan
  live_dispute_plan buyer id = do
    owner ← rpc.checksum buyer
    status ← live_job_status rpc now id
    guard (str_eq (lower status.job.client) (lower owner)) not_owner
    guard (is_submitted status.status && can_dispute_of status.review) outside_dispute_window
    ok (record {
      job_id = id;
      seconds_remaining = seconds_of status.review;
      transaction = record { to = policy; call = dispute_job id };
    })

  unfoldable pub live_settle_plan : ℕ → Raising HireError SettlePlan
  live_settle_plan id = do
    status ← live_job_status rpc now id
    guard (not status.is_completed) already_completed
    guard (is_submitted status.status) not_submitted
    guard (can_settle_of status.review) (
        if ltb 0 (seconds_of status.review)
        then review_open (seconds_of status.review)
        else no_verdict)
    guard (is_final (verdict_of status.review)) no_verdict
    ok (record {
      job_id = id;
      policy_verdict = verdict_of status.review;
      review_window_closed = closed_of status.review;
      transaction = record { to = router; call = settle_job id };
    })

  unfoldable pub live_refund_plan : ℕ → Raising HireError RefundPlan
  live_refund_plan id = do
    status ← live_job_status rpc now id
    guard status.can_refund not_refundable
    ok (record { job_id = id; transaction = record { to = commerce; call = claim_refund id } })
