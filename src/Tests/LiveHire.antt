-- ===== src/Tests/LiveHire.antt =====
-- Runs of proofops/services/live_erc8183.py: job 7 of the client "0xb", at a price of 5, on a chain
-- whose state is the policy, the budget and the allowance of the job.
use safehire_proofops_bnb.Prelude.{
  ℕ, ◌≡◌, refl, ◌≢◌, ◌↔◌, String, true, false, Option, none, some, List, ◌==◌, str_eq,
  if◌then◌else◌,
}
use safehire_proofops_bnb.Prelude.Raising.{Raising, ok, err}
use safehire_proofops_bnb.Domain.Canonical.{Fields, end, field, number, null, dict, text}
use safehire_proofops_bnb.LiveHire.Chain.{
  HireError, Job, Sources, PolicyReading, approve, policy, commerce, router, zero_address,
  invalid_job_id, submitted, get, as_object, state_name, verdict_name,
}
use safehire_proofops_bnb.LiveHire.Status.{live_job_status, JobStatus, review_of}
use safehire_proofops_bnb.LiveHire.Plans.{
  Transaction, FollowupPlan, register_job, set_budget, approve_u, live_settle_plan,
  live_dispute_plan, live_refund_plan, SettlePlan, settle_job, dispute_job, claim_refund,
}
use safehire_proofops_bnb.LiveHire.Plans.Exclusive.{Settles, settle_plan_exactly, approval_excludes}

pub record World : Type 0 where
  registered : String
  budget : ℕ
  allowed : ℕ

abbrev description : Fields
description = field "price" (number "5") end

abbrev params : Fields
params = field "deliverable_url" (text "https://x/m") end

abbrev pub genesis_hash : String
genesis_hash = "0x0000000000000000000000000000000000000000000000000000000000000000"

-- The literals of the manifest below.
abbrev literal : String → Option ℕ
literal s =
    if str_eq s "1"
    then some 1
    else if str_eq s "7"
    then some 7
    else if str_eq s "56"
    then some 56
    else none

abbrev job_at : ℕ → ℕ → Job
job_at status budget = record {
  job_id = 7;
  client = "0xb";
  provider = "0xp";
  evaluator = router;
  description = "d";
  budget = budget;
  expired_at = 100;
  status_value = status;
  submitted_at = 20;
  deliverable_hash = genesis_hash;
}

abbrev only : {A : Type 0} → A → ℕ → Raising HireError A
only a j = if j == 7 then ok a else err invalid_job_id

abbrev pub read_at : ℕ → World → Sources
read_at status w = record {
  get_job = only (job_at status w.budget);
  job_policy = only w.registered;
  allowance = λ a. if str_eq a "0xb" then ok w.allowed else ok 0;
  read_policy = λ j. ok (record {
    verdict_value = 1;
    reason = "r";
    policy_submitted_at = 20;
    dispute_window = 30;
    is_disputed = false;
  });
  loads = λ s. if str_eq s "d" then some (dict description) else some (dict params);
  checksum = λ s. ok s;
  as_int = λ v. ok 5;
  natural_of = literal;
  parse_task_spec =
      λ d p. ok (record { service = "grid_plan"; erc8004_token_id = 9; task_input = end });
  verify_description = λ d p n c. ok null;
}

abbrev read : World → Sources
read = read_at 0

abbrev send : Transaction → World → World
send t w = elim t.call [
  | register_job id p ↦ record w { registered = p }
  | set_budget id b ↦ record w { budget = b }
  | approve_u spender v ↦ record w { allowed = v }
  | _ ↦ w
]

abbrev fresh : World
fresh = record { registered = zero_address; budget = 0; allowed = 3 }

abbrev plan : List Transaction → FollowupPlan
plan ts = record {
  job_id = 7;
  task_spec = record { service = "grid_plan"; erc8004_token_id = 9; task_input = end };
  description_verification = null;
  price = 5;
  transactions = ts;
}

abbrev pub exact_world : World
exact_world = record { registered = policy; budget = 5; allowed = 5 }

abbrev reading : PolicyReading
reading = record {
  verdict_value = 1;
  reason = "r";
  policy_submitted_at = 20;
  dispute_window = 30;
  is_disputed = false;
}

submitted_status : JobStatus
submitted_status = record {
  job = job_at 2 5;
  description = description;
  task_spec = record { service = "grid_plan"; erc8004_token_id = 9; task_input = end };
  description_verification = null;
  price = 5;
  status = submitted;
  is_expired = false;
  is_completed = false;
  can_refund = false;
  result_available = true;
  open_progress = none;
  review = some (review_of 60 reading);
}

abbrev settle_plan : SettlePlan
settle_plan = record {
  job_id = 7;
  policy_verdict = approve;
  review_window_closed = true;
  transaction = record { to = router; call = settle_job 7 };
}

settle_plan_exactly_example :
    ((p : SettlePlan) × (live_settle_plan (read_at 2 exact_world) 60 7 ≡ ok p)) ↔ (
      (r : PolicyReading) × (submitted_status.job.status_value ≡ 2)
      × ((read_at 2 exact_world).read_policy submitted_status.job.job_id ≡ ok r)
      × Settles 60 r)
unfolding submitted_status live_job_status get as_object state_name
settle_plan_exactly_example = settle_plan_exactly (read_at 2 exact_world) 60 7 submitted_status refl

approval_excludes_example :
    (live_dispute_plan (read_at 2 exact_world) 60 "0xb" 7
      ≢ ok (record {
        job_id = 7;
        seconds_remaining = 0;
        transaction = record { to = policy; call = dispute_job 7 };
      }))
    × (live_refund_plan (read_at 2 exact_world) 60 7
        ≢ ok (record { job_id = 7; transaction = record { to = commerce; call = claim_refund 7 } }))
unfolding live_settle_plan live_job_status get as_object state_name review_of verdict_name
approval_excludes_example =
    approval_excludes (read_at 2 exact_world) 60 7 settle_plan "0xb"
      (record {
        job_id = 7;
        seconds_remaining = 0;
        transaction = record { to = policy; call = dispute_job 7 };
      })
      (record { job_id = 7; transaction = record { to = commerce; call = claim_refund 7 } }) refl
      refl
