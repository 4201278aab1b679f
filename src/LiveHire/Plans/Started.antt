-- ===== src/LiveHire/Plans/Started.antt =====
-- When `live_followup_plan` of proofops/services/live_erc8183.py returns, and what.
use safehire_proofops_bnb.Prelude.{
  ℕ, String, ◌≡◌, inl, inr, true, ◌||◌, Option, some, ltb, ◌==◌, str_eq, arith, Bool-cases,
}
use safehire_proofops_bnb.Prelude.Text.{lower}
use safehire_proofops_bnb.Prelude.Raising.{
  ok, guard, or_raise, bind-ok, then-ok, guard-ok, or_raise-ok, ok_inj,
}
use safehire_proofops_bnb.Domain.Canonical.{Json, Fields}
use safehire_proofops_bnb.LiveHire.Chain.{
  Job, TaskSpec, Sources, get, as_object, state_name, reviewed_price, policy, router, zero_address,
  not_owner, not_open, no_progress, unexpected_policy, unexpected_budget,
}
use safehire_proofops_bnb.LiveHire.Status.{
  Progress, progress_of, open_job_progress, live_job_status,
}
use safehire_proofops_bnb.LiveHire.Status.Facts.{status-Facts}
use safehire_proofops_bnb.LiveHire.Plans.{
  FollowupPlan, is_open, missing_transactions, live_followup_plan,
}

-- All that the calls return on the way to a plan.
pub record Started (rpc : Sources) (buyer : String) (id : ℕ) : Type 0 where
  pub owner : String
  pub job : Job
  pub loaded : Json
  pub description : Fields
  pub task_spec : TaskSpec
  pub verification : Json
  pub price_json : Json
  pub price : ℕ
  pub registered : String
  pub checked : String
  pub allowance : ℕ
  pub owner_checked : rpc.checksum buyer ≡ ok owner
  pub id_positive : ltb 0 id ≡ true
  pub found : rpc.get_job id ≡ ok job
  pub same_id : (job.job_id == id) ≡ true
  pub loads_to : rpc.loads job.description ≡ some loaded
  pub is_object : as_object loaded ≡ ok description
  pub parsed : rpc.parse_task_spec description job.provider ≡ ok task_spec
  pub verified :
      rpc.verify_description description job.provider (reviewed_price job.provider) true
      ≡ ok verification
  pub has_price : get "price" description ≡ some price_json
  pub price_is : rpc.as_int price_json ≡ ok price
  pub at_open : (job.status_value == 0) ≡ true
  pub evaluated : str_eq job.evaluator router ≡ true
  pub reads_policy : rpc.job_policy job.job_id ≡ ok registered
  pub reads_allowance : rpc.allowance job.client ≡ ok allowance
  pub owned : str_eq (lower job.client) (lower owner) ≡ true
  pub registered_checked : rpc.checksum registered ≡ ok checked
  pub policy_fits : (str_eq checked zero_address || str_eq checked policy) ≡ true
  pub budget_fits : (job.budget == 0 || job.budget == price) ≡ true

module _ {rpc : Sources} {buyer : String} {id : ℕ} where
  abbrev pub plan_of : Started rpc buyer id → FollowupPlan
  plan_of s = record {
    job_id = id;
    task_spec = s.task_spec;
    description_verification = s.verification;
    price = s.price;
    transactions = missing_transactions id s.price s.checked s.job.budget s.allowance;
  }

module _ (rpc : Sources) (now : ℕ) (buyer : String) (id : ℕ) where
  pub Started-plan :
      (s : Started rpc buyer id) → live_followup_plan rpc now buyer id ≡ ok (plan_of s)
  unfolding live_followup_plan live_job_status open_job_progress state_name
  Started-plan s = ground (
    arith, s.owner_checked, s.found, s.loads_to, s.is_object, s.parsed, s.verified, s.has_price,
    s.price_is, s.reads_policy, s.reads_allowance, s.registered_checked,
  )

  progress_read :
      (job : Job) (price : ℕ) (o : Option Progress) (p : Progress)
      → progress_of rpc job price ≡ ok o
      → o ≡ some p
      → ((job.status_value == 0) ≡ true)
        × (rpc.job_policy job.job_id ≡ ok p.registered_policy)
        × (rpc.allowance job.client ≡ ok p.allowance_raw)
  unfolding progress_of open_job_progress
  progress_read job price o p e at = elim (Bool-cases (job.status_value == 0)) [
    | inr other ↦ absurd (ground (arith, other, e, at))
    | inl opened ↦
        let (progress, e1, e2) =
          bind-ok (open_job_progress rpc job price) (λ q. ok (some q)) o
            (ground (arith, opened, e)) in
        let (registered, r, e3) = bind-ok (rpc.job_policy job.job_id) _ progress e1 in
        let (allowance, a, e4) = bind-ok (rpc.allowance job.client) _ progress e3 in
        let same : progress ≡ p = ground (arith, e2, at) in
        (opened, ground (arith, r, e4, same), ground (arith, a, e4, same))
  ]

  pub plan-Started :
      (p : FollowupPlan)
      → live_followup_plan rpc now buyer id ≡ ok p
      → (s : Started rpc buyer id) × (plan_of s ≡ p)
  unfolding live_followup_plan
  plan-Started p e =
      let (owner, owner_checked, e1) = bind-ok (rpc.checksum buyer) _ p e in
      let (status, st, e2) = bind-ok (live_job_status rpc now id) _ p e1 in
      let f = status-Facts rpc now id status st in
      let job = status.job in
      let (c1, e3) = then-ok (guard (str_eq (lower job.client) (lower owner)) not_owner) _ p e2 in
      let (c2, e4) = then-ok (guard (is_open status.status) (not_open status.status)) _ p e3 in
      let (progress, c3, e5) = bind-ok (or_raise status.open_progress no_progress) _ p e4 in
      let raw = progress.registered_policy in
      let (checked, registered_checked, e6) = bind-ok (rpc.checksum raw) _ p e5 in
      let (c4, e7) =
        then-ok (guard (str_eq checked zero_address || str_eq checked policy) unexpected_policy) _ p
          e6 in
      let (c5, e8) =
        then-ok (guard (job.budget == 0 || job.budget == status.price) unexpected_budget) _ p e7 in
      let (at_open, reads_policy, reads_allowance) =
        progress_read job status.price status.open_progress progress f.progress
          (or_raise-ok status.open_progress no_progress progress c3) in
      (
        record {
          owner = owner;
          job = job;
          loaded = f.loaded;
          description = status.description;
          task_spec = status.task_spec;
          verification = status.description_verification;
          price_json = f.price_json;
          price = status.price;
          registered = raw;
          checked = checked;
          allowance = progress.allowance_raw;
          owner_checked = owner_checked;
          id_positive = f.id_positive;
          found = f.found;
          same_id = f.same_id;
          loads_to = f.loads_to;
          is_object = f.is_object;
          parsed = f.parsed;
          verified = rw (← at_open) f.verified;
          has_price = f.has_price;
          price_is = f.price_is;
          at_open = at_open;
          evaluated = f.evaluated;
          reads_policy = reads_policy;
          reads_allowance = reads_allowance;
          owned = guard-ok _ _ tt c1;
          registered_checked = registered_checked;
          policy_fits = guard-ok _ _ tt c4;
          budget_fits = guard-ok _ _ tt c5;
        },
        ok_inj e8,
      )
