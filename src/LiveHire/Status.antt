-- ===== src/LiveHire/Status.antt =====
-- proofops/services/live_erc8183.py: `live_job_status`.
pub mod Facts
use safehire_proofops_bnb.Prelude.{
  ℕ, ◌+◌, ◌-◌, String, Bool, true, false, not, ◌&&◌, ◌||◌, Option, none, some, leb, ltb, ◌==◌,
  str_eq, if◌then◌else◌,
}
use safehire_proofops_bnb.Prelude.Raising.{Raising, ok, err, or_raise, guard, ◌>>=◌, ◌>>◌}
use safehire_proofops_bnb.Domain.Canonical.{Json, Fields}
use safehire_proofops_bnb.LiveHire.Chain.{
  HireError, Job, JobState, Verdict, PolicyReading, TaskSpec, Sources, get, as_object, state_name,
  verdict_name, reviewed_price, policy, router, invalid_job_id, different_job,
  malformed_description, missing_price, budget_mismatch, unexpected_evaluator, undecided, approve,
  reject, unknown_verdict,
}

pub record Progress : Type 0 where
  pub registered_policy : String
  pub policy_registered : Bool
  pub allowance_raw : ℕ
  pub exact_allowance : Bool

-- What the status of a submitted job has besides.
pub record Review : Type 0 where
  pub can_settle : Bool
  pub can_dispute : Bool
  pub policy_final : Bool
  pub policy_verdict : Verdict
  pub policy_reason : String
  pub policy_submitted_at : ℕ
  pub dispute_window_seconds : ℕ
  pub settle_after : ℕ
  pub seconds_until_settle : ℕ
  pub review_window_closed : Bool
  pub disputed : Bool

pub record JobStatus : Type 0 where
  pub job : Job
  pub description : Fields
  pub task_spec : TaskSpec
  pub description_verification : Json
  pub price : ℕ
  pub status : JobState
  pub is_expired : Bool
  pub is_completed : Bool
  pub can_refund : Bool
  pub result_available : Bool
  pub open_progress : Option Progress
  pub review : Option Review

abbrev pub is_final : Verdict → Bool
is_final approve = true
is_final reject = true
is_final undecided = false
is_final unknown_verdict = false

abbrev pub is_reject : Verdict → Bool
is_reject reject = true
is_reject approve = false
is_reject undecided = false
is_reject unknown_verdict = false

-- The policy of a submitted job, as of `now`.
unfoldable pub review_of : ℕ → PolicyReading → Review
review_of now r =
    let settle_after = r.policy_submitted_at + r.dispute_window in
    let seconds = settle_after - now in
    let closed = seconds == 0 in
    let verdict = verdict_name r.verdict_value in
    record {
      can_settle = is_final verdict && (is_reject verdict || closed);
      can_dispute = not r.is_disputed && not closed;
      policy_final = is_final verdict;
      policy_verdict = verdict;
      policy_reason = r.reason;
      policy_submitted_at = r.policy_submitted_at;
      dispute_window_seconds = r.dispute_window;
      settle_after = settle_after;
      seconds_until_settle = seconds;
      review_window_closed = closed;
      disputed = r.is_disputed;
    }

module _ (rpc : Sources) where
  -- `_open_job_progress`, with the exact allowance of the signed price
  unfoldable pub open_job_progress : Job → ℕ → Raising HireError Progress
  open_job_progress job signed_price = do
    registered ← rpc.job_policy job.job_id
    allowance ← rpc.allowance job.client
    ok (record {
      registered_policy = registered;
      policy_registered = str_eq registered policy;
      allowance_raw = allowance;
      exact_allowance = allowance == signed_price;
    })

  unfoldable pub progress_of : Job → ℕ → Raising HireError (Option Progress)
  unfolding open_job_progress
  progress_of job signed_price =
      if job.status_value == 0
      then (open_job_progress job signed_price >>= λ p. ok (some p))
      else ok none

  unfoldable pub review_at : ℕ → Job → Raising HireError (Option Review)
  unfolding review_of
  review_at now job =
      if job.status_value == 2
      then (rpc.read_policy job.job_id >>= λ r. ok (some (review_of now r)))
      else ok none

  -- `int(description['price'])`
  unfoldable pub signed_price_of : Fields → Raising HireError ℕ
  signed_price_of description = do
    price ← or_raise (get "price" description) missing_price
    rpc.as_int price

  unfoldable pub live_job_status : ℕ → ℕ → Raising HireError JobStatus
  unfolding progress_of review_at signed_price_of
  live_job_status now id = do
    guard (ltb 0 id) invalid_job_id
    job ← rpc.get_job id
    guard (job.job_id == id) different_job
    loaded ← or_raise (rpc.loads job.description) malformed_description
    description ← as_object loaded
    task_spec ← rpc.parse_task_spec description job.provider
    verification ←
        rpc.verify_description description job.provider (reviewed_price job.provider)
          (job.status_value == 0)
    price ← signed_price_of description
    guard (job.status_value == 0 || job.budget == price) budget_mismatch
    guard (str_eq job.evaluator router) unexpected_evaluator
    progress ← progress_of job price
    review ← review_at now job
    ok (record {
      job = job;
      description = description;
      task_spec = task_spec;
      description_verification = verification;
      price = price;
      status = state_name job.status_value;
      is_expired = leb job.expired_at now;
      is_completed = job.status_value == 3;
      can_refund = job.status_value == 1 && leb job.expired_at now;
      result_available = job.status_value == 2 || job.status_value == 3;
      open_progress = progress;
      review = review;
    })
