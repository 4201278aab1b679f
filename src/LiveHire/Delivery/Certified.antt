-- ===== src/LiveHire/Delivery/Certified.antt =====
-- What a dossier of proofops/services/live_erc8183.py proves of the job.
use safehire_proofops_bnb.Prelude.{ℕ, ◌≤◌, ◌<◌, String, ◌≡◌, ◌⊎◌, true, some, List, [], ◌∷◌}
use safehire_proofops_bnb.Prelude.Raising.{ok}
use safehire_proofops_bnb.Domain.Canonical.{Fields}
use safehire_proofops_bnb.LiveHire.Chain.{
  Sources, get, reviewed_price, chain_id, commerce, router, policy,
}
use safehire_proofops_bnb.LiveHire.Status.{JobStatus, live_job_status}
use safehire_proofops_bnb.LiveHire.Logs.{Log, find_event_log}
use safehire_proofops_bnb.LiveHire.Delivery.{Node, Receipt, Delivery, object_of, says, same_address}
use safehire_proofops_bnb.LiveHire.Delivery.Payment.{VerifiedReceipt, is_payment}

module _ (rpc : Sources) (node : Node) where
  -- A manifest that names the job, the chain and the three contracts, and is the one committed to.
  pub record Commits (manifest : Fields) (id : ℕ) (expected_hash : String) : Type 0 where
    pub version : says rpc node "version" manifest 1 ≡ true
    pub job : says rpc node "job_id" manifest id ≡ true
    pub chain : says rpc node "chain_id" manifest chain_id ≡ true
    pub contracts : Fields
    pub has_contracts : object_of (get "contracts" manifest) ≡ ok contracts
    pub names_commerce : node.address_of (get "commerce" contracts) ≡ ok commerce
    pub names_router : node.address_of (get "router" contracts) ≡ ok router
    pub names_policy : node.address_of (get "policy" contracts) ≡ ok policy
    pub hashed : same_address (node.keccak_canonical manifest) expected_hash ≡ true

  -- One of the logs transfers this payment, which is at least one and at most the price.
  abbrev pub Pays : String → ℕ → List Log → Type 0
  Pays provider payment [] = ⊥
  Pays provider payment (l ∷ ls) =
      ((is_payment rpc node provider l ≡ true)
        × (node.amount_of l.event_data ≡ ok payment)
        × (0 < payment)
        × (payment ≤ reviewed_price provider))
      ⊎ Pays provider payment ls

  -- What a dossier shows: the job is COMPLETED on the chain, its provider and client are those of
  -- the dossier, the manifest is the one that the job commits to, and a successful settlement paid.
  pub record Certified (now id : ℕ) (r : VerifiedReceipt) : Type 0 where
    pub status : JobStatus
    pub read : live_job_status rpc now id ≡ ok status
    pub found : rpc.get_job id ≡ ok status.job
    pub is_completed : status.job.status_value ≡ 3
    pub provider : r.provider ≡ status.job.provider
    pub client : r.client ≡ status.job.client
    pub commits : Commits r.manifest id status.job.deliverable_hash
    pub completion : Log
    pub settled :
        find_event_log node.block_number (node.get_logs commerce node.completed_topic id)
        ≡ ok (some completion)
    pub settlement : r.settlement_tx_hash ≡ completion.transaction_hash
    pub receipt : Receipt
    pub has_receipt : node.receipt_of completion.transaction_hash ≡ ok (some receipt)
    pub succeeded : receipt.succeeded ≡ true
    pub pays : Pays status.job.provider r.payment_raw receipt.logs
