-- ===== src/LiveHire/Delivery/Payment.antt =====
-- proofops/services/live_erc8183.py: the dossier of a job that was paid out.
use safehire_proofops_bnb.Prelude.{
  ℕ, String, Bool, true, false, ◌&&◌, Option, none, some, List, [], ◌∷◌, leb, ltb, str_eq,
  if◌then◌else◌,
}
use safehire_proofops_bnb.Prelude.Raising.{Raising, ok, or_raise, guard, ◌>>=◌, ◌>>◌}
use safehire_proofops_bnb.Domain.Canonical.{Json, Fields}
use safehire_proofops_bnb.LiveHire.Chain.{
  HireError, JobState, completed, Sources, reviewed_price, commerce, u_token, not_paid_out,
  no_settlement, no_payment, no_hash,
}
use safehire_proofops_bnb.LiveHire.Status.{live_job_status}
use safehire_proofops_bnb.LiveHire.Logs.{Log, find_event_log}
use safehire_proofops_bnb.LiveHire.Delivery.{Node, same_address, is_hash, live_delivery}

pub record VerifiedReceipt : Type 0 where
  pub job_id : ℕ
  pub provider : String
  pub client : String
  pub erc8004_token_id : ℕ
  pub skill_id : String
  pub task_input : Fields
  pub quote : Json
  pub manifest_url : String
  pub deliverable_hash : String
  pub manifest : Fields
  pub settlement_tx_hash : String
  pub settlement_block_number : ℕ
  pub payment_raw : ℕ
  pub quoted_price_raw : ℕ

abbrev pub is_completed_state : JobState → Bool
is_completed_state s = elim s [ completed ↦ true | _ ↦ false ]

module _ (rpc : Sources) (node : Node) where
  -- A transfer of the payment token from the escrow to the provider.
  unfoldable pub is_payment : String → Log → Bool
  is_payment provider l = elim l.topics [
    | t0 ∷ ts ↦ elim ts [
      | t1 ∷ ts' ↦ elim ts' [
        | t2 ∷ _ ↦
            same_address l.address u_token
            && (same_address t0 node.transfer_topic
                && (same_address t1 (node.topic_address commerce)
                    && same_address t2 (node.topic_address provider)))
        | [] ↦ false
      ]
      | [] ↦ false
    ]
    | [] ↦ false
  ]

  -- The first transfer of an amount between one and the price.
  unfoldable pub payment_in : String → List Log → Raising HireError (Option ℕ)
  unfolding is_payment
  payment_in provider [] = ok none
  payment_in provider (l ∷ ls) =
      let rest = payment_in provider ls in
      if is_payment provider l
      then (node.amount_of l.event_data >>= λ amount.
          if ltb 0 amount && leb amount (reviewed_price provider) then ok (some amount) else rest)
      else rest

  unfoldable pub verified_payment : String → String → Raising HireError (Option ℕ)
  unfolding payment_in
  verified_payment tx_hash provider = do
    found ← node.receipt_of tx_hash
    elim found [
      | none ↦ ok none
      | some r ↦ if r.succeeded then payment_in provider r.logs else ok none
    ]

  unfoldable pub build_verified_receipt : ℕ → ℕ → Raising HireError VerifiedReceipt
  unfolding verified_payment is_hash
  build_verified_receipt now id = do
    status ← live_job_status rpc now id
    guard (is_completed_state status.status) not_paid_out
    delivery ← live_delivery rpc node now id
    found ← find_event_log node.block_number (node.get_logs commerce node.completed_topic id)
    completion ← or_raise found no_settlement
    paid ← verified_payment completion.transaction_hash status.job.provider
    payment ← or_raise paid no_payment
    let deliverable_hash =
        if str_eq status.job.deliverable_hash ""
        then delivery.verification.computed_hash
        else status.job.deliverable_hash
    guard (is_hash deliverable_hash) no_hash
    ok (record {
      job_id = id;
      provider = status.job.provider;
      client = status.job.client;
      erc8004_token_id = status.task_spec.erc8004_token_id;
      skill_id = status.task_spec.service;
      task_input = status.task_spec.task_input;
      quote = status.description_verification;
      manifest_url = delivery.manifest_url;
      deliverable_hash = deliverable_hash;
      manifest = delivery.manifest;
      settlement_tx_hash = completion.transaction_hash;
      settlement_block_number = completion.block_number;
      payment_raw = payment;
      quoted_price_raw = reviewed_price status.job.provider;
    })
