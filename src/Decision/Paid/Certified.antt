-- ===== src/Decision/Paid/Certified.antt =====
-- What a replayed settlement of proofops/decision/paid.py shows of the chain.
use mathlib.Core.Path.{subst}
use safehire_proofops_bnb.Prelude.{
  ℕ, ◌+◌, ◌-◌, ◌≤◌, ◌<◌, String, ◌≡◌, ◌≢◌, refl, sym, ap, ◌∙◌, Bool, true, false, ◌&&◌, Option,
  some, List, leb, ltb, arith,
}
use safehire_proofops_bnb.Prelude.Text.{lower}
use safehire_proofops_bnb.Prelude.Raising.{ok, guard, bind-ok, then-ok, guard-ok, ok_inj}
use safehire_proofops_bnb.Domain.Canonical.{Fields}
use safehire_proofops_bnb.LiveHire.Delivery.{same_address}
use safehire_proofops_bnb.Decision.Paid.{
  Settlement, SettledJob, Identity, Output, Claim, VerifiedDelivery, verified_of, check_claim,
  check_settlement, check_identity, check_job, verify_delivery, payment_of, paid_router,
  no_matching_payment, reorganized,
}
use safehire_proofops_bnb.Decision.Paid.BscReader.{
  RawReceipt, RawTransaction, RawJob, Rpc, transfers_of, settlement_of, settlement_at, job_at,
  identity_at, bsc_reader,
}
use safehire_proofops_bnb.Decision.Paid.Facts.{
  SettlementFacts, IdentityFacts, JobFacts, JobRead, IdentityRead, Sealed, settlement_checked,
  identity_checked, job_checked, both, settlement_at-Sealed, payment_of-lower, ne_of_false,
  eq_of_true, job_at-JobRead, identity_at-IdentityRead,
}

-- What a verified delivery stands on: a successful transaction to the router that settles its job, in
-- a block that is canonical and at least twelve blocks deep; in that block the job is COMPLETED
-- between its buyer and its provider and commits to the output, and the provider, but not the
-- buyer, holds the agent; and the receipt pays the provider from the escrow, within the budget.
pub record Certified (rpc : Rpc) (output : Output) (v : VerifiedDelivery) (tx : String)
    : Type 0 where
  pub receipt : RawReceipt
  pub transaction : RawTransaction
  pub head : ℕ
  pub job : RawJob
  pub wallet : String
  pub owner : String
  pub canonical : String
  pub same_tx : lower tx ≡ v.settlement_tx_hash
  pub has_receipt : rpc.receipt tx ≡ ok (some receipt)
  pub has_transaction : rpc.transaction tx ≡ ok (some transaction)
  pub succeeded : receipt.status ≡ 1
  pub to_router : lower transaction.to ≡ paid_router
  pub settles : rpc.decode_settle transaction.input ≡ ok v.verified_job
  pub has_head : rpc.head ≡ ok head
  pub deep : receipt.receipt_block + 11 ≤ head
  pub block_at : rpc.block_hash_of receipt.receipt_block ≡ ok canonical
  pub on_chain : same_address canonical receipt.receipt_block_hash ≡ true
  pub has_job : rpc.get_job v.verified_job receipt.receipt_block_hash ≡ ok job
  pub completed : job.raw_status ≡ 3
  pub buyer : lower job.raw_buyer ≡ v.buyer
  pub provider : lower job.raw_provider ≡ v.provider
  pub committed : same_address job.raw_deliverable output.keccak ≡ true
  pub has_wallet : rpc.agent_wallet v.token_id receipt.receipt_block_hash ≡ ok wallet
  pub wallet_is : lower wallet ≡ v.provider
  pub has_owner : rpc.owner_of v.token_id receipt.receipt_block_hash ≡ ok owner
  pub strangers : v.buyer ≢ v.provider
  pub not_owner : lower owner ≢ v.buyer
  pub paid : payment_of v.provider (transfers_of rpc receipt.raw_logs) ≡ v.provider_payment_raw
  pub positive : 0 < v.provider_payment_raw
  pub within : v.provider_payment_raw ≤ job.raw_budget

-- The facts of a verification, put together.
certify :
    (rpc : Rpc) (output : Output) (c : Claim) (s : Settlement) (i : Identity) (j : SettledJob)
    (canonical : String)
    → same_address c.claimed_buyer c.claimed_provider ≡ false
    → Sealed rpc c.claimed_tx s
    → SettlementFacts c s
    → IdentityRead rpc c.claimed_token s.block_hash i
    → IdentityFacts c i
    → JobRead rpc c.claimed_job s.block_hash j
    → JobFacts c output j
    → (ltb 0 (payment_of c.claimed_provider s.transfers)
        && leb (payment_of c.claimed_provider s.transfers) j.budget_raw)
      ≡ true
    → rpc.block_hash_of s.settlement_block ≡ ok canonical
    → same_address canonical s.block_hash ≡ true
    → Certified rpc output (verified_of c output s) c.claimed_tx
unfolding verified_of settlement_of
certify rpc output c s i j canonical strangers seal (succeeded, routed, same_job, deep)
      (has_wallet, has_owner) (wallet_is, owner_not)
      (raw, has_job, complete, buyer, provider, out, budget)
      (_, is_complete, buyer_is, provider_is, commits) fits block_at on_chain =
    let made = seal.made in
    let at_block =
      λ (P : String → Type 0) (x : P s.block_hash). subst P (sym (ap (λ y. y.block_hash) made)) x in
    let head_is : seal.head + 1 - seal.receipt.receipt_block ≡ s.confirmations =
      ap (λ y. y.confirmations) made in
    let (positive, within) =
      both (ltb 0 (payment_of c.claimed_provider s.transfers))
        (leb (payment_of c.claimed_provider s.transfers) j.budget_raw) fits in
    record {
      receipt = seal.receipt;
      transaction = seal.transaction;
      head = seal.head;
      job = raw;
      wallet = i.wallet;
      owner = i.owner;
      canonical = canonical;
      same_tx = refl;
      has_receipt = seal.has_receipt;
      has_transaction = seal.has_transaction;
      succeeded = ap (λ y. y.receipt_status) made ∙ succeeded;
      to_router = ap (λ y. lower y.target) made ∙ eq_of_true _ _ routed;
      settles = seal.settles ∙ ap ok same_job;
      has_head = seal.has_head;
      deep = omega (arith, head_is, deep);
      block_at = ap (λ y. rpc.block_hash_of y.settlement_block) made ∙ block_at;
      on_chain = at_block (λ b. same_address canonical b ≡ true) on_chain;
      has_job = at_block (λ b. rpc.get_job c.claimed_job b ≡ ok raw) has_job;
      completed = ground (arith, complete, is_complete);
      buyer = ap lower buyer ∙ eq_of_true _ _ buyer_is;
      provider = ap lower provider ∙ eq_of_true _ _ provider_is;
      committed = ap (λ y. same_address y output.keccak) out ∙ commits;
      has_wallet = at_block (λ b. rpc.agent_wallet c.claimed_token b ≡ ok i.wallet) has_wallet;
      wallet_is = eq_of_true _ _ wallet_is;
      has_owner = at_block (λ b. rpc.owner_of c.claimed_token b ≡ ok i.owner) has_owner;
      strangers = ne_of_false _ _ strangers;
      not_owner = ne_of_false _ _ owner_not;
      paid =
          payment_of-lower c.claimed_provider (transfers_of rpc seal.receipt.raw_logs)
          ∙ ap (λ y. payment_of c.claimed_provider y.transfers) made;
      positive = ground (arith, positive);
      within = ground (arith, within, budget);
    }

module _ (int_of natural_of : String → Option ℕ) (is_account : String → Bool)
    (price_text : ℕ → String) (rpc : Rpc) (reviewed : List (ℕ × String)) where
  claim_strangers :
      (claim : Fields) (output : Output) (c : Claim)
      → check_claim int_of natural_of is_account price_text (bsc_reader rpc) reviewed claim output
        ≡ ok c
      → same_address c.claimed_buyer c.claimed_provider ≡ false
  unfolding check_claim
  claim_strangers claim output c e = ground (arith, e)

  -- A delivery is verified only where the chain shows it: a successful transaction to the router
  -- settles its job, in a canonical block at least twelve blocks deep; in that block the job is
  -- COMPLETED between its buyer and its provider, who differ, and commits to the output, the provider
  -- is the agent's wallet and the buyer is not its owner; and the receipt's transfers of the payment
  -- token from the escrow to the provider add up to the payment, which is positive and within the
  -- budget.
  pub verified-Certified :
      (claim : Fields) (output : Output) (v : VerifiedDelivery)
      → verify_delivery int_of natural_of is_account price_text
          (bsc_reader rpc)
          reviewed
          claim
          output
        ≡ ok v
      → (tx : String) × Certified rpc output v tx
  unfolding verify_delivery
  verified-Certified claim output v e =
      let reads = bsc_reader rpc in
      let (c, said, e1) =
        bind-ok (check_claim int_of natural_of is_account price_text reads reviewed claim output) _
          v e in
      let (s, settled, e2) = bind-ok (settlement_at rpc c.claimed_tx) _ v e1 in
      let (s_ok, e3) = then-ok (check_settlement c s) _ v e2 in
      let (i, identified, e4) = bind-ok (identity_at rpc c.claimed_token s.block_hash) _ v e3 in
      let (i_ok, e5) = then-ok (check_identity c i) _ v e4 in
      let (j, found, e6) = bind-ok (job_at rpc c.claimed_job s.block_hash) _ v e5 in
      let (j_ok, e7) = then-ok (check_job natural_of price_text c output j) _ v e6 in
      let payment = payment_of c.claimed_provider s.transfers in
      let (fits, e8) =
        then-ok (guard (ltb 0 payment && leb payment j.budget_raw) no_matching_payment) _ v e7 in
      let (canonical, block_at, e9) = bind-ok (rpc.block_hash_of s.settlement_block) _ v e8 in
      let (on_chain, e10) =
        then-ok (guard (same_address canonical s.block_hash) reorganized) _ v e9 in
      (
        c.claimed_tx,
        subst (λ x. Certified rpc output x c.claimed_tx) (ok_inj e10)
            (certify rpc output c s i j canonical (claim_strangers claim output c said)
              (settlement_at-Sealed rpc c.claimed_tx s settled) (settlement_checked c s tt s_ok)
              (identity_at-IdentityRead rpc c.claimed_token s.block_hash i identified)
              (identity_checked c i tt i_ok) (job_at-JobRead rpc c.claimed_job s.block_hash j found)
              (job_checked natural_of price_text c output j tt j_ok) (guard-ok _ _ tt fits) block_at
              (guard-ok _ _ tt on_chain)),
      )
