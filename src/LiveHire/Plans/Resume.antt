-- ===== src/LiveHire/Plans/Resume.antt =====
-- A hire of proofops/services/live_erc8183.py that stops half-way and is planned again. `W` is the
-- state of the chain; what the escrow's contracts document is in `EscrowLaws`.
use safehire_proofops_bnb.Prelude.{ℕ, String, ◌≡◌, List, [], ◌∷◌, ◌==◌, str_eq, if◌then◌else◌}
use safehire_proofops_bnb.Prelude.Raising.{Raising, ok, err}
use safehire_proofops_bnb.LiveHire.Chain.{
  HireError, Job, Sources, policy, commerce, router, u_token,
}
use safehire_proofops_bnb.LiveHire.Plans.{
  Transaction, FollowupPlan, register_job, set_budget, approve_u, fund_job, live_followup_plan,
}
use safehire_proofops_bnb.LiveHire.Plans.Started.{Started}

abbrev pub registration : ℕ → Transaction
registration id = record { to = router; call = register_job id policy }

abbrev pub budgeting : ℕ → ℕ → Transaction
budgeting id price = record { to = commerce; call = set_budget id price }

abbrev pub approval : ℕ → Transaction
approval price = record { to = u_token; call = approve_u commerce price }

abbrev pub funding : ℕ → ℕ → Transaction
funding id price = record { to = commerce; call = fund_job id price }

-- `getJob` after `setBudget`
abbrev pub with_budget : ℕ → Raising HireError Job → Raising HireError Job
with_budget price (ok job) = ok (record job { budget = price })
with_budget price (err e) = err e

-- The transactions of a plan write what they say, while the job is open, and nothing else that is
-- read.
pub record EscrowLaws {W : Type 0} (read : W → Sources) (send : Transaction → W → W)
    (buyer : String) (id : ℕ) : Type 0 where
  pub registers :
      (w : W)
      → Started (read w) buyer id
      → read (send (registration id) w)
        ≡ record (read w) { job_policy = λ j. if j == id then ok policy else (read w).job_policy j }
  pub budgets :
      (w : W) (price : ℕ)
      → Started (read w) buyer id
      → read (send (budgeting id price) w) ≡ record (read w) {
        get_job =
            λ j. if j == id then with_budget price ((read w).get_job j) else (read w).get_job j;
      }
  pub approves :
      (w : W) (price : ℕ) (s : Started (read w) buyer id)
      → read (send (approval price) w) ≡ record (read w) {
        allowance = λ a. if str_eq a s.job.client then ok price else (read w).allowance a;
      }

module _ (buyer : String) (id : ℕ) (now : ℕ) where
  abbrev Replans : Sources → FollowupPlan → List Transaction → Type 0
  Replans rpc p rest = live_followup_plan rpc now buyer id ≡ ok (record p { transactions = rest })

module _ {W : Type 0} (read : W → Sources) (send : Transaction → W → W) (now : ℕ) (buyer : String)
    (id : ℕ) (laws : EscrowLaws read send buyer id) where
  abbrev send_all : List Transaction → W → W
  send_all [] w = w
  send_all (t ∷ ts) w = send_all ts (send t w)
