-- ===== src/Decision/Paid/Facts.antt =====
-- What each step of a replay in proofops/decision/paid.py has checked when it returns.
use mathlib.Core.Bool.{false≢true}
use safehire_proofops_bnb.Prelude.{
  ℕ, ◌≤◌, String, ◌≡◌, ◌≢◌, refl, sym, ap, ◌∙◌, Bool, true, false, not, ◌&&◌, Option, some, List,
  [], ◌∷◌, ◌==◌, str_eq, arith, eq_iff,
}
use safehire_proofops_bnb.Prelude.Text.{lower, lower_idem}
use safehire_proofops_bnb.Prelude.Raising.{
  ok, guard, or_raise, bind-ok, then-ok, guard-ok, or_raise-ok, ok_inj,
}
use safehire_proofops_bnb.LiveHire.Chain.{zero_address}
use safehire_proofops_bnb.LiveHire.Delivery.{same_address}
use safehire_proofops_bnb.Decision.Paid.{
  Transfer, Settlement, unset_account, SettledJob, Identity, Output, Claim, check_settlement,
  check_identity, check_job, payment_of, paid_router, rpc_chain, failed_transaction,
  receipt_mismatch, mixed_blocks,
}
use safehire_proofops_bnb.Decision.Paid.BscReader.{
  RawReceipt, RawTransaction, RawJob, Rpc, settlement_of, settlement_at, job_at, identity_at,
}

abbrev pub SettlementFacts : Claim → Settlement → Type 0
SettlementFacts c s =
    (s.receipt_status ≡ 1)
    × (str_eq (lower s.target) paid_router ≡ true)
    × (s.job_id ≡ c.claimed_job)
    × (12 ≤ s.confirmations)

pub settlement_checked :
    (c : Claim) (s : Settlement) (u : Unit {0}) → check_settlement c s ≡ ok u → SettlementFacts c s
unfolding check_settlement
settlement_checked c s u e = ground (arith, e)

abbrev pub IdentityFacts : Claim → Identity → Type 0
IdentityFacts c i =
    (same_address i.wallet c.claimed_provider ≡ true)
    × (same_address i.owner c.claimed_buyer ≡ false)

pub identity_checked :
    (c : Claim) (i : Identity) (u : Unit {0}) → check_identity c i ≡ ok u → IdentityFacts c i
unfolding check_identity
identity_checked c i u e = ground (arith, e)

abbrev pub JobFacts : Claim → Output → SettledJob → Type 0
JobFacts c output j =
    (j.settled_id ≡ c.claimed_job)
    × (j.is_complete ≡ true)
    × (same_address j.job_buyer c.claimed_buyer ≡ true)
    × (same_address j.job_provider c.claimed_provider ≡ true)
    × (same_address j.commitment output.keccak ≡ true)

pub job_checked :
    (natural_of : String → Option ℕ) (price_text : ℕ → String) (c : Claim) (output : Output)
    (j : SettledJob) (u : Unit {0})
    → check_job natural_of price_text c output j ≡ ok u
    → JobFacts c output j
unfolding check_job
job_checked natural_of price_text c output j u e = ground (arith, e)

-- The chain's own records behind a settlement.
pub record Sealed (rpc : Rpc) (tx : String) (s : Settlement) : Type 0 where
  pub receipt : RawReceipt
  pub transaction : RawTransaction
  pub head : ℕ
  pub chain : ℕ
  pub has_receipt : rpc.receipt tx ≡ ok (some receipt)
  pub has_transaction : rpc.transaction tx ≡ ok (some transaction)
  pub has_head : rpc.head ≡ ok head
  pub same_block : transaction.tx_block_hash ≡ receipt.receipt_block_hash
  pub settles : rpc.decode_settle transaction.input ≡ ok s.job_id
  pub made : settlement_of rpc chain tx receipt transaction s.job_id head ≡ s

pub both : (a b : Bool) → (a && b) ≡ true → (a ≡ true) × (b ≡ true)
both true b h = (refl, h)
both false b h = absurd (ground (arith, h))

pub settlement_at-Sealed :
    (rpc : Rpc) (tx : String) (s : Settlement) → settlement_at rpc tx ≡ ok s → Sealed rpc tx s
unfolding settlement_at settlement_of
settlement_at-Sealed rpc tx s e =
    let (chain, _, e1) = bind-ok rpc.eth_chain_id _ s e in
    let (_, e2) = then-ok (guard (chain == 56) rpc_chain) _ s e1 in
    let (found, at, e3) = bind-ok (rpc.receipt tx) _ s e2 in
    let (sent, sent_at, e4) = bind-ok (rpc.transaction tx) _ s e3 in
    let (r, c1, e5) = bind-ok (or_raise found failed_transaction) _ s e4 in
    let (t, c2, e6) = bind-ok (or_raise sent failed_transaction) _ s e5 in
    let (_, e7) =
      then-ok (guard (same_address r.receipt_tx tx && same_address t.hash tx) receipt_mismatch) _ s
        e6 in
    let same = str_eq t.tx_block_hash r.receipt_block_hash in
    let (c3, e8) = then-ok (guard (same && t.tx_block == r.receipt_block) mixed_blocks) _ s e7 in
    let (job, decoded, e9) = bind-ok (rpc.decode_settle t.input) _ s e8 in
    let (head, has_head, e10) = bind-ok rpc.head _ s e9 in
    let made = ok_inj e10 in
    let job_is : job ≡ s.job_id = ap (λ x. x.job_id) made in
    record {
      receipt = r;
      transaction = t;
      head = head;
      chain = chain;
      has_receipt = at ∙ ap ok (or_raise-ok found failed_transaction r c1);
      has_transaction = sent_at ∙ ap ok (or_raise-ok sent failed_transaction t c2);
      has_head = has_head;
      same_block =
          (eq_iff t.tx_block_hash r.receipt_block_hash).0
            (both same (t.tx_block == r.receipt_block) (guard-ok _ _ tt c3)).0;
      settles = decoded ∙ ap ok job_is;
      made = ap (λ j. settlement_of rpc chain tx r t j head) (sym job_is) ∙ made;
    }

pub payment_of-lower : (p : String) (ts : List Transfer) → payment_of (lower p) ts ≡ payment_of p ts
unfolding payment_of
payment_of-lower p [] = refl
payment_of-lower p (t ∷ ts) = rw (lower_idem p, payment_of-lower p ts) refl

pub ne_of_false : (a b : String) → str_eq a b ≡ false → a ≢ b
ne_of_false a b h e = false≢true (sym h ∙ (eq_iff a b).1 e)

pub eq_of_true : (a b : String) → str_eq a b ≡ true → a ≡ b
eq_of_true a b h = (eq_iff a b).0 h

abbrev pub JobRead : Rpc → ℕ → String → SettledJob → Type 0
JobRead rpc id block j =
    (raw : RawJob) × (rpc.get_job id block ≡ ok raw)
    × ((raw.raw_status == 3) ≡ j.is_complete)
    × (raw.raw_buyer ≡ j.job_buyer)
    × (raw.raw_provider ≡ j.job_provider)
    × (raw.raw_deliverable ≡ j.commitment)
    × (raw.raw_budget ≡ j.budget_raw)

pub job_at-JobRead :
    (rpc : Rpc) (id : ℕ) (block : String) (j : SettledJob)
    → job_at rpc id block ≡ ok j
    → JobRead rpc id block j
unfolding job_at
job_at-JobRead rpc id block j e =
    let (raw, at, e1) = bind-ok (rpc.get_job id block) _ j e in
    let made = ok_inj e1 in
    (
      raw,
      at,
      ap (λ x. x.is_complete) made,
      ap (λ x. x.job_buyer) made,
      ap (λ x. x.job_provider) made,
      ap (λ x. x.commitment) made,
      ap (λ x. x.budget_raw) made,
    )

abbrev pub IdentityRead : Rpc → ℕ → String → Identity → Type 0
IdentityRead rpc token block i =
    (rpc.agent_wallet token block ≡ ok i.wallet) × (rpc.owner_of token block ≡ ok i.owner)

pub identity_at-IdentityRead :
    (rpc : Rpc) (token : ℕ) (block : String) (i : Identity)
    → identity_at rpc token block ≡ ok i
    → IdentityRead rpc token block i
unfolding identity_at
identity_at-IdentityRead rpc token block i e =
    let (w, at, e1) = bind-ok (rpc.agent_wallet token block) _ i e in
    let (_, e2) = then-ok (guard (not (str_eq (lower w) zero_address)) unset_account) _ i e1 in
    let (o, own, e3) = bind-ok (rpc.owner_of token block) _ i e2 in
    let (_, e4) = then-ok (guard (not (str_eq (lower o) zero_address)) unset_account) _ i e3 in
    let made = ok_inj e4 in (at ∙ ap (λ x. ok x.wallet) made, own ∙ ap (λ x. ok x.owner) made)
