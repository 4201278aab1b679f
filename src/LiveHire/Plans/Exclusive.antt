-- ===== src/LiveHire/Plans/Exclusive.antt =====
-- When proofops/services/live_erc8183.py offers to settle, to dispute or to refund a job.
use mathlib.Core.Path.{subst}
use safehire_proofops_bnb.Prelude.{
  ℕ, zero, suc, ◌+◌, ◌≤◌, String, ◌≡◌, ◌↔◌, ◌≢◌, ◌⊎◌, refl, sym, ap, ◌∙◌, inl, inr, Bool, true,
  false, not, ◌&&◌, ◌||◌, ◌-◌, some, ◌==◌, str_eq, arith,
}
use safehire_proofops_bnb.Prelude.Text.{lower}
use safehire_proofops_bnb.Prelude.Raising.{ok, guard, bind-ok, then-ok, guard-ok, ok_inj}
use safehire_proofops_bnb.LiveHire.Chain.{
  PolicyReading, Sources, Verdict, approve, reject, undecided, unknown_verdict, state_name,
  verdict_name, router, not_owner, outside_dispute_window, already_completed, not_submitted,
  no_verdict, not_refundable,
}
use safehire_proofops_bnb.LiveHire.Status.{
  JobStatus, review_of, review_at, live_job_status, is_final, is_reject,
}
use safehire_proofops_bnb.LiveHire.Status.Facts.{Facts, status-Facts}
use safehire_proofops_bnb.LiveHire.Plans.{
  SettlePlan, DisputePlan, RefundPlan, is_submitted, can_settle_of, can_dispute_of, verdict_of,
  closed_of, settle_job, live_settle_plan, live_dispute_plan, live_refund_plan,
}

submitted-two : (n : ℕ) → is_submitted (state_name n) ≡ true → (n == 2) ≡ true
unfolding state_name
submitted-two zero h = ground (arith, h)
submitted-two (suc zero) h = ground (arith, h)
submitted-two (suc (suc zero)) h = refl
submitted-two (suc (suc (suc zero))) h = ground (arith, h)
submitted-two (suc (suc (suc (suc zero)))) h = ground (arith, h)
submitted-two (suc (suc (suc (suc (suc zero))))) h = ground (arith, h)
submitted-two (suc (suc (suc (suc (suc (suc n)))))) h = ground (arith, h)

two-submitted : (n : ℕ) → n ≡ 2 → is_submitted (state_name n) ≡ true
unfolding state_name
two-submitted n e = rw e refl

review_is :
    (rpc : Sources) (now : ℕ) (s : JobStatus) (id : ℕ)
    → Facts rpc now id s
    → (s.job.status_value == 2) ≡ true
    → (r : PolicyReading) × (rpc.read_policy s.job.job_id ≡ ok r)
      × (s.review ≡ some (review_of now r))
unfolding review_at
review_is rpc now s id f two =
    let (r, reads, e) =
      bind-ok (rpc.read_policy s.job.job_id) (λ q. ok (some (review_of now q))) s.review
        (ground (arith, two, f.reviewed)) in
    (r, reads, sym (ok_inj e))

-- What the policy says when a job may be settled: rejected, or approved with the review window over.
abbrev pub Settles : ℕ → PolicyReading → Type 0
Settles now r =
    (verdict_name r.verdict_value ≡ reject)
    ⊎ ((verdict_name r.verdict_value ≡ approve) × (r.policy_submitted_at + r.dispute_window ≤ now))

settle_test :
    (v : Verdict) (n now : ℕ)
    → ((is_final v && (is_reject v || (n - now == 0))) ≡ true)
      ↔ ((v ≡ reject) ⊎ ((v ≡ approve) × (n ≤ now)))
settle_test undecided n now =
    (λ h. absurd (cc), λ h. elim h [ inl e ↦ absurd (cc) | inr (e, _) ↦ absurd (cc) ])
settle_test unknown_verdict n now =
    (λ h. absurd (cc), λ h. elim h [ inl e ↦ absurd (cc) | inr (e, _) ↦ absurd (cc) ])
settle_test reject n now = (λ h. inl refl, λ h. refl)
settle_test approve n now = (
  λ h. inr (refl, ground arith),
  λ h. elim h [ inl e ↦ absurd (cc) | inr (_, le) ↦ ground arith ],
)

Settles-can_settle :
    (now : ℕ) (r : PolicyReading) → ((review_of now r).can_settle ≡ true) ↔ Settles now r
unfolding review_of
Settles-can_settle now r =
    settle_test (verdict_name r.verdict_value) (r.policy_submitted_at + r.dispute_window) now

can-final :
    (now : ℕ) (r : PolicyReading)
    → (review_of now r).can_settle ≡ true
    → is_final (review_of now r).policy_verdict ≡ true
unfolding review_of
can-final now r h = ground (arith, h)

closed_when :
    (now : ℕ) (r : PolicyReading)
    → (review_of now r).policy_verdict ≡ approve
    → (review_of now r).can_settle ≡ true
    → (review_of now r).can_dispute ≡ false
unfolding review_of
closed_when now r e h = ground (arith, e, h)

both : (a b : Bool) → (a && b) ≡ true → b ≡ true
both true b h = h
both false b h = cc

module _ (rpc : Sources) (now id : ℕ) where
  -- What stands behind a plan to settle.
  settle_parts :
      (p : SettlePlan)
      → live_settle_plan rpc now id ≡ ok p
      → (s : JobStatus) × (live_job_status rpc now id ≡ ok s)
        × (is_submitted s.status ≡ true)
        × (can_settle_of s.review ≡ true)
        × (p.policy_verdict ≡ verdict_of s.review)
  unfolding live_settle_plan
  settle_parts p e =
      let (s, at, e1) = bind-ok (live_job_status rpc now id) _ p e in
      let (c1, e2) = then-ok (guard (not s.is_completed) already_completed) _ p e1 in
      let (c2, e3) = then-ok (guard (is_submitted s.status) not_submitted) _ p e2 in
      let (c3, e4) = then-ok (guard (can_settle_of s.review) _) _ p e3 in
      let (c4, e5) = then-ok (guard (is_final (verdict_of s.review)) no_verdict) _ p e4 in
      (s, at, guard-ok _ _ tt c2, guard-ok _ _ tt c3, sym (ap (λ q. q.policy_verdict) (ok_inj e5)))

  -- A plan to settle is returned for a job whose status is read exactly when it was submitted and
  -- its policy has a final verdict: a rejection at any time, an approval once the review window is
  -- over.
  pub settle_plan_exactly :
      (s : JobStatus)
      → live_job_status rpc now id ≡ ok s
      → ((p : SettlePlan) × (live_settle_plan rpc now id ≡ ok p)) ↔ (
          (r : PolicyReading) × (s.job.status_value ≡ 2)
          × (rpc.read_policy s.job.job_id ≡ ok r)
          × Settles now r)
  unfolding live_settle_plan
  settle_plan_exactly s at =
      let f = status-Facts rpc now id s at in
      (
        (λ (p, e).
            let (s', at', sub, can, _) = settle_parts p e in
            let same : s' ≡ s = ok_inj (sym at' ∙ at) in
            let two =
              submitted-two s.job.status_value (
                ap is_submitted (sym f.named) ∙ ap (λ x. is_submitted x.status) (sym same) ∙ sub) in
            let (r, reads, rev) = review_is rpc now s id f two in
            (
              r,
              ground (arith, two),
              reads,
              (Settles-can_settle now r).0
                  (ap can_settle_of (sym rev) ∙ ap (λ x. can_settle_of x.review) (sym same) ∙ can),
            )),
        (λ (r, two, reads, law).
            let (r', reads', rev) = review_is rpc now s id f (ground (arith, two)) in
            let same : r' ≡ r = ok_inj (sym reads' ∙ reads) in
            let sub = ap is_submitted f.named ∙ two-submitted s.job.status_value two in
            let can =
              ap can_settle_of rev
              ∙ (Settles-can_settle now r').1 (subst (Settles now) (sym same) law) in
            let final =
              ap (λ o. is_final (verdict_of o)) rev
              ∙ can-final now r' (sym (ap can_settle_of rev) ∙ can) in
            let incomplete : s.is_completed ≡ false = f.completes ∙ ground (arith, two) in
            (
              record {
                job_id = id;
                policy_verdict = verdict_of s.review;
                review_window_closed = closed_of s.review;
                transaction = record { to = router; call = settle_job id };
              },
              ground (arith, at, sub, can, final, incomplete),
            )),
      )

  -- A plan that settles an approved delivery excludes the others at the same reads: then no plan to
  -- dispute the delivery and no plan to refund the job is returned, whoever asks.
  pub approval_excludes :
      (p : SettlePlan) (buyer : String) (d : DisputePlan) (q : RefundPlan)
      → live_settle_plan rpc now id ≡ ok p
      → p.policy_verdict ≡ approve
      → (live_dispute_plan rpc now buyer id ≢ ok d) × (live_refund_plan rpc now id ≢ ok q)
  unfolding live_dispute_plan live_refund_plan
  approval_excludes p buyer d q e approved =
      let (s, at, sub, can, says) = settle_parts p e in
      let f = status-Facts rpc now id s at in
      let two = submitted-two s.job.status_value (ap is_submitted (sym f.named) ∙ sub) in
      let (r, _, rev) = review_is rpc now s id f two in
      let verdict = ap verdict_of (sym rev) ∙ sym says ∙ approved in
      let over = closed_when now r verdict (ap can_settle_of (sym rev) ∙ can) in
      (
        (λ h.
            let (owner, _, h1) = bind-ok (rpc.checksum buyer) _ d h in
            let (s', at', h2) = bind-ok (live_job_status rpc now id) _ d h1 in
            let (_, h3) =
              then-ok (guard (str_eq (lower s'.job.client) (lower owner)) not_owner) _ d h2 in
            let (c, _) =
              then-ok
                (guard (is_submitted s'.status && can_dispute_of s'.review) outside_dispute_window)
                _ d h3 in
            let same : s' ≡ s = ok_inj (sym at' ∙ at) in
            let open_still =
              both (is_submitted s'.status) (can_dispute_of s'.review) (guard-ok _ _ tt c) in
            let open_now =
              ap can_dispute_of (sym rev)
              ∙ ap (λ x. can_dispute_of x.review) (sym same)
              ∙ open_still in
            cc (over, open_now)),
        (λ h.
            let (s', at', h1) = bind-ok (live_job_status rpc now id) _ q h in
            let (c, _) = then-ok (guard s'.can_refund not_refundable) _ q h1 in
            let same : s' ≡ s = ok_inj (sym at' ∙ at) in
            let refunds = sym f.refunds ∙ ap (λ x. x.can_refund) (sym same) ∙ guard-ok _ _ tt c in
            ground (arith, refunds, two)),
      )
