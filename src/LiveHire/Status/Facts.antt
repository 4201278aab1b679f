-- ===== src/LiveHire/Status/Facts.antt =====
-- What `live_job_status` of proofops/services/live_erc8183.py has checked and read when it returns.
use mathlib.Core.Path.{subst}
use safehire_proofops_bnb.Prelude.{ℕ, ◌≡◌, refl, true, ◌||◌, ◌&&◌, some, ltb, leb, ◌==◌, str_eq}
use safehire_proofops_bnb.Prelude.Raising.{
  ok, guard, or_raise, bind-ok, then-ok, guard-ok, or_raise-ok, ok_inj,
}
use safehire_proofops_bnb.Domain.Canonical.{Json}
use safehire_proofops_bnb.LiveHire.Chain.{
  Sources, get, as_object, state_name, reviewed_price, router, invalid_job_id, different_job,
  malformed_description, missing_price, budget_mismatch, unexpected_evaluator,
}
use safehire_proofops_bnb.LiveHire.Status.{
  JobStatus, progress_of, review_at, signed_price_of, live_job_status,
}

pub record Facts (rpc : Sources) (now id : ℕ) (s : JobStatus) : Type 0 where
  pub id_positive : ltb 0 id ≡ true
  pub found : rpc.get_job id ≡ ok s.job
  pub same_id : (s.job.job_id == id) ≡ true
  pub loaded : Json
  pub loads_to : rpc.loads s.job.description ≡ some loaded
  pub is_object : as_object loaded ≡ ok s.description
  pub parsed : rpc.parse_task_spec s.description s.job.provider ≡ ok s.task_spec
  pub verified :
      rpc.verify_description s.description s.job.provider
        (reviewed_price s.job.provider)
        (s.job.status_value == 0)
      ≡ ok s.description_verification
  pub price_json : Json
  pub has_price : get "price" s.description ≡ some price_json
  pub price_is : rpc.as_int price_json ≡ ok s.price
  pub budgeted : (s.job.status_value == 0 || s.job.budget == s.price) ≡ true
  pub evaluated : str_eq s.job.evaluator router ≡ true
  pub progress : progress_of rpc s.job s.price ≡ ok s.open_progress
  pub reviewed : review_at rpc now s.job ≡ ok s.review
  pub named : s.status ≡ state_name s.job.status_value
  pub completes : s.is_completed ≡ (s.job.status_value == 3)
  pub refunds : s.can_refund ≡ (s.job.status_value == 1 && leb s.job.expired_at now)

pub status-Facts :
    (rpc : Sources) (now id : ℕ) (s : JobStatus)
    → live_job_status rpc now id ≡ ok s
    → Facts rpc now id s
unfolding live_job_status signed_price_of
status-Facts rpc now id s e =
    let (c1, e1) = then-ok (guard (ltb 0 id) invalid_job_id) _ s e in
    let (job, found, e2) = bind-ok (rpc.get_job id) _ s e1 in
    let (c2, e3) = then-ok (guard (job.job_id == id) different_job) _ s e2 in
    let (loaded, c3, e4) =
      bind-ok (or_raise (rpc.loads job.description) malformed_description) _ s e3 in
    let (description, is_object, e5) = bind-ok (as_object loaded) _ s e4 in
    let (task_spec, parsed, e6) = bind-ok (rpc.parse_task_spec description job.provider) _ s e5 in
    let (verification, verified, e7) =
      bind-ok
        (rpc.verify_description description job.provider (reviewed_price job.provider)
          (job.status_value == 0))
        _ s e6 in
    let (price, priced, e8) = bind-ok (signed_price_of rpc description) _ s e7 in
    let (c4, e9) =
      then-ok (guard (job.status_value == 0 || job.budget == price) budget_mismatch) _ s e8 in
    let (c5, e10) = then-ok (guard (str_eq job.evaluator router) unexpected_evaluator) _ s e9 in
    let (progress, progressed, e11) = bind-ok (progress_of rpc job price) _ s e10 in
    let (review, reviewed, e12) = bind-ok (review_at rpc now job) _ s e11 in
    let (price_json, c6, price_is) =
      bind-ok (or_raise (get "price" description) missing_price) _ price priced in
    subst (Facts rpc now id) (ok_inj e12) (record {
      id_positive = guard-ok _ _ tt c1;
      found = found;
      same_id = guard-ok _ _ tt c2;
      loaded = loaded;
      loads_to = or_raise-ok _ _ loaded c3;
      is_object = is_object;
      parsed = parsed;
      verified = verified;
      price_json = price_json;
      has_price = or_raise-ok _ _ price_json c6;
      price_is = price_is;
      budgeted = guard-ok _ _ tt c4;
      evaluated = guard-ok _ _ tt c5;
      progress = progressed;
      reviewed = reviewed;
      named = refl;
      completes = refl;
      refunds = refl;
    })
