-- ===== src/Workspace/Worker.antt =====
-- proofops/workspace/worker.py: what the worker reads, and what it makes of a watch. What
-- it sends to, reads from and prints is an argument; `row['spec']` is read from its text.
pub mod Calls
pub mod Closed
pub mod Rounds
use safehire_proofops_bnb.Prelude.{
  ℕ, ◌+◌, String, Bool, true, false, not, ◌&&◌, ◌||◌, Option, none, some, ltb, str_eq,
  if◌then◌else◌,
}
use safehire_proofops_bnb.Prelude.Raising.{Raising, ok, err}
use safehire_proofops_bnb.LiveHire.Chain.{
  HireError, raised, JobState, open_job, funded, submitted, completed, rejected, expired, unknown,
  Sources,
}
use safehire_proofops_bnb.LiveHire.Status.{JobStatus, live_job_status}
use safehire_proofops_bnb.LiveHire.Notify.{Network, Notified, notify_live_agent}
use safehire_proofops_bnb.LiveHire.Delivery.{Node, Delivery, live_delivery}
use safehire_proofops_bnb.Workspace.Store.{Journal, JournalError, Watch, seconds, claim}
use safehire_proofops_bnb.Workspace.FollowUp.{reserve_notification, finish}

-- What an observation of a source is compared with, in decimals or ticks.
pub data Reading (D : Type 0) : Type 0 where
  -- the factor, if there is a debt, and the threshold
  health_read : Option D → D → Reading D
  -- the position's lower tick, the pool's tick and the upper tick
  lp_read : D → D → D → Reading D
  -- the plan's lower price, the market's and the upper price
  grid_read : D → D → D → Reading D
  -- whether the comparison is triggered
  yield_read : Bool → Reading D

pub record OrderSpec : Type 0 where
  pub job_id : ℕ
  pub notify_provider : Bool

pub record OrderReport : Type 0 where
  pub chain : JobStatus
  -- of a call now; without one the row's latest is printed again
  pub notification : Option Notified
  pub delivery : Option Delivery

pub record World (D : Type 0) : Type 0 where
  pub rpc : Sources
  pub node : Node
  pub net : Network
  pub order_spec : String → Raising HireError OrderSpec
  pub observe : String → String → Raising HireError (Reading D)
  pub below : D → D → Bool
  pub print_order : Watch → ℕ → OrderReport → String
  pub print_reading : Reading D → String
  pub print_error : HireError → ℕ → String
  -- of the exceptions of other code: `httpx.HTTPError`, `ValueError`, `TypeError`, `KeyError` and
  -- `OverflowError`, and the `TimeoutError` after 150 seconds
  pub is_caught : String → Bool
  pub is_timeout : String → Bool

-- The readings of the clock.
pub record Clock : Type 0 where
  pub at_claim : ℕ
  pub at_status : ℕ
  pub at_reserve : ℕ
  pub at_notice : ℕ
  pub at_check : ℕ
  pub at_delivery : ℕ
  pub at_finish : ℕ

-- The notification of a job: the journal, whether a call was attempted, and what it gave.
pub record Notice : Type 0 where
  pub journal : Journal
  pub attempted : Bool
  pub answer : Raising HireError (Option Notified)

-- The journal and whether a call was attempted, also where an exception ends the work.
pub record Looked : Type 0 where
  pub journal : Journal
  pub attempted : Bool
  pub outcome : Raising HireError (String × String)

pub data Failure : Type 0 where
  not_finished : JournalError → Failure
  escaped : HireError → Failure

-- With the job whose provider was called.
pub record Processed : Type 0 where
  pub journal : Journal
  pub called : Option ℕ
  pub failure : Option Failure

-- `attempted=False`, with no call
abbrev pub no_notice : Journal → Notice
no_notice j = record { journal = j; attempted = false; answer = ok none }

-- The journal after `finish`, or its exception.
abbrev pub finishing : Journal → Option ℕ → Raising JournalError Journal → Processed
finishing j called done = elim done [
  | err e ↦ record { journal = j; called = called; failure = some (not_finished e) }
  | ok j' ↦ record { journal = j'; called = called; failure = none }
]

abbrev pub job_if : Bool → ℕ → Option ℕ
job_if called job = if called then some job else none
