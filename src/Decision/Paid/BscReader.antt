-- ===== src/Decision/Paid/BscReader.antt =====
-- proofops/decision/paid.py: `BscReader`, over the nodes' answers as they are decoded.
use safehire_proofops_bnb.Prelude.{
  ℕ, ◌+◌, ◌-◌, String, Bool, not, ◌&&◌, Option, none, some, List, [], ◌∷◌, ◌==◌, str_eq,
  if◌then◌else◌,
}
use safehire_proofops_bnb.Prelude.Text.{lower}
use safehire_proofops_bnb.Prelude.Raising.{Raising, ok, or_raise, guard, ◌>>=◌, ◌>>◌}
use safehire_proofops_bnb.Domain.Canonical.{Fields}
use safehire_proofops_bnb.LiveHire.Chain.{zero_address}
use safehire_proofops_bnb.LiveHire.Delivery.{is_hash, same_address}
use safehire_proofops_bnb.Decision.Paid.{
  PaidError, Transfer, Settlement, SettledJob, Identity, Reader, rpc_chain, failed_transaction,
  receipt_mismatch, mixed_blocks, unset_account,
}

pub record RawLog : Type 0 where
  pub log_address : String
  pub log_topics : List String
  pub log_data : String
  pub is_removed : Bool

pub record RawReceipt : Type 0 where
  pub receipt_tx : String
  pub status : ℕ
  pub receipt_block_hash : String
  pub receipt_block : ℕ
  pub raw_logs : List RawLog

pub record RawTransaction : Type 0 where
  pub hash : String
  pub to : String
  pub tx_block_hash : String
  pub tx_block : ℕ
  pub input : String

pub record RawJob : Type 0 where
  pub raw_id : ℕ
  pub raw_buyer : String
  pub raw_provider : String
  pub raw_description : Option Fields
  pub raw_budget : ℕ
  pub raw_status : ℕ
  pub raw_deliverable : String

pub record Rpc : Type 0 where
  pub eth_chain_id : Raising PaidError ℕ
  pub receipt : String → Raising PaidError (Option RawReceipt)
  pub transaction : String → Raising PaidError (Option RawTransaction)
  pub head : Raising PaidError ℕ
  -- the job of canonical `settle` calldata
  pub decode_settle : String → Raising PaidError ℕ
  pub transfer_topic : String
  -- the last 40 digits of a topic, as an address, and the number of a word
  pub account_of : String → String
  pub word_of : String → ℕ
  pub get_job : ℕ → String → Raising PaidError RawJob
  pub agent_wallet : ℕ → String → Raising PaidError String
  pub owner_of : ℕ → String → Raising PaidError String
  pub block_hash_of : ℕ → Raising PaidError String

module _ (rpc : Rpc) where
  -- A log that is a transfer, read as one.
  unfoldable pub transfer_of : RawLog → Option Transfer
  unfolding is_hash
  transfer_of l = elim l.log_topics [
    | t0 ∷ ts ↦ elim ts [
      | t1 ∷ ts' ↦ elim ts' [
        | t2 ∷ more ↦ elim more [
          | [] ↦
              if str_eq (lower t0) rpc.transfer_topic
                && (not l.is_removed
                    && (is_hash t0 && (is_hash t1 && (is_hash t2 && is_hash l.log_data))))
              then some (record {
                token = l.log_address;
                sender = rpc.account_of t1;
                receiver = rpc.account_of t2;
                amount_raw = rpc.word_of l.log_data;
              })
              else none
          | _ ∷ _ ↦ none
        ]
        | [] ↦ none
      ]
      | [] ↦ none
    ]
    | [] ↦ none
  ]

  unfoldable pub transfers_of : List RawLog → List Transfer
  unfolding transfer_of
  transfers_of [] = []
  transfers_of (l ∷ ls) =
      let rest = transfers_of ls in elim (transfer_of l) [ none ↦ rest | some t ↦ t ∷ rest ]

  unfoldable pub settlement_of : ℕ → String → RawReceipt → RawTransaction → ℕ → ℕ → Settlement
  unfolding transfers_of
  settlement_of chain tx_hash r t job head = record {
    settlement_chain = chain;
    receipt_status = r.status;
    tx_hash = tx_hash;
    target = t.to;
    function = "settle(uint256,bytes)";
    job_id = job;
    settlement_block = r.receipt_block;
    block_hash = r.receipt_block_hash;
    confirmations = head + 1 - r.receipt_block;
    transfers = transfers_of r.raw_logs;
  }

  unfoldable pub settlement_at : String → Raising PaidError Settlement
  unfolding settlement_of
  settlement_at tx_hash = do
    chain ← rpc.eth_chain_id
    guard (chain == 56) rpc_chain
    found ← rpc.receipt tx_hash
    sent ← rpc.transaction tx_hash
    r ← or_raise found failed_transaction
    t ← or_raise sent failed_transaction
    guard (same_address r.receipt_tx tx_hash && same_address t.hash tx_hash) receipt_mismatch
    guard (str_eq t.tx_block_hash r.receipt_block_hash && t.tx_block == r.receipt_block)
        mixed_blocks
    job ← rpc.decode_settle t.input
    head ← rpc.head
    ok (settlement_of chain tx_hash r t job head)

  unfoldable pub job_at : ℕ → String → Raising PaidError SettledJob
  job_at id block = do
    j ← rpc.get_job id block
    ok (record {
      settled_id = j.raw_id;
      is_complete = j.raw_status == 3;
      job_buyer = j.raw_buyer;
      job_provider = j.raw_provider;
      task_description = j.raw_description;
      budget_raw = j.raw_budget;
      commitment = j.raw_deliverable;
    })

  unfoldable pub identity_at : ℕ → String → Raising PaidError Identity
  identity_at token block = do
    wallet ← rpc.agent_wallet token block
    guard (not (str_eq (lower wallet) zero_address)) unset_account
    owner ← rpc.owner_of token block
    guard (not (str_eq (lower owner) zero_address)) unset_account
    ok (record { wallet = wallet; owner = owner })

  abbrev pub bsc_reader : Reader
  bsc_reader = record {
    settlement = settlement_at;
    job = job_at;
    canonical_block_hash = rpc.block_hash_of;
    identity = identity_at;
  }
