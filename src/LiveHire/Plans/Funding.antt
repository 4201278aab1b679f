-- ===== src/LiveHire/Plans/Funding.antt =====
-- What stands before the escrow of proofops/services/live_erc8183.py is funded.
use safehire_proofops_bnb.Prelude.{ℕ, String, ◌≡◌}
use safehire_proofops_bnb.Prelude.Raising.{ok}
use safehire_proofops_bnb.LiveHire.Chain.{Job, Sources, policy}
use safehire_proofops_bnb.LiveHire.Plans.Started.{Started}

-- The reads of the chain when an escrow may be funded: the official policy, and a budget and an
-- allowance of exactly the price.
pub record IsExact (rpc : Sources) (id price : ℕ) (job : Job) (registered : String) : Type 0 where
  pub found : rpc.get_job id ≡ ok job
  pub budgeted : job.budget ≡ price
  pub allowed : rpc.allowance job.client ≡ ok price
  pub registers : rpc.job_policy job.job_id ≡ ok registered
  pub official : rpc.checksum registered ≡ ok policy
