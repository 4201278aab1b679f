-- ===== src/LiveHire/Delivery.antt =====
-- proofops/services/live_erc8183.py: a delivery and its commitment on BSC.
pub mod Certified
pub mod Payment
use Prim.Native.Char.{code}
use safehire_proofops_bnb.Prelude.{
  ℕ, zero, suc, ◌+◌, String, Bool, true, false, not, ◌&&◌, ◌||◌, Option, none, some, List, [], ◌∷◌,
  map, leb, ltb, ◌==◌, str_eq, if◌then◌else◌, keep, length, is_empty,
}
use safehire_proofops_bnb.Prelude.Text.{lower}
use safehire_proofops_bnb.Prelude.Raising.{Raising, ok, err, or_raise, guard, ◌>>=◌, ◌>>◌}
use safehire_proofops_bnb.Domain.Canonical.{
  Json, Fields, Items, nil, cons, end, field, dict, null, bool, number, text, list, tuple,
}
use safehire_proofops_bnb.LiveHire.Chain.{
  HireError, JobState, submitted, completed, TaskSpec, Sources, Verdict, get, equals_number,
  chain_id, commerce, router, policy, invalid_hint, failed_receipt, not_canonical,
  no_delivery_event, different_deliverable, invalid_params, no_deliverable_url, unsupported_version,
  different_binding, missing_parts, contract_mismatch, no_content, no_content_type, different_hash,
  no_delivery,
}
use safehire_proofops_bnb.LiveHire.Status.{JobStatus, Review, live_job_status}
use safehire_proofops_bnb.LiveHire.Plans.{
  can_settle_of, can_dispute_of, seconds_of, verdict_of, closed_of,
}
use safehire_proofops_bnb.LiveHire.Logs.{Log, find_event_log}

-- A receipt, with whether its status is "0x1".
pub record Receipt : Type 0 where
  pub succeeded : Bool
  pub receipt_hash : String
  pub receipt_block : ℕ
  pub receipt_block_hash : String
  pub logs : List Log

-- The other reads of the chain, and the library functions of a delivery.
pub record Node : Type 0 where
  pub block_number : Raising HireError ℕ
  -- of an address, a topic, a job, and blocks from one to another
  pub get_logs : String → String → ℕ → ℕ → ℕ → Raising HireError (List Log)
  pub receipt_of : String → Raising HireError (Option Receipt)
  pub block_hash_at : ℕ → Raising HireError (Option String)
  -- the reviewed hints of live-delivery-receipt-hints.json
  pub hint_of : ℕ → Option String
  pub initialised_topic : String
  pub completed_topic : String
  pub transfer_topic : String
  pub topic_uint : ℕ → String
  pub topic_address : String → String
  -- the deliverable hash, the time and the parameters, as text, of an event
  pub decode_event : String → Raising HireError (String × ℕ × String)
  pub amount_of : String → Raising HireError ℕ
  pub fetch_manifest : String → Raising HireError (Fields × String)
  pub address_of : Option Json → Raising HireError String
  pub strip : String → String
  -- `keccak(text=canonical_json(…))`
  pub keccak_canonical : Fields → String
  -- `reviewed_grid.acceptance`
  pub acceptance : Fields → String → Raising HireError Bool

is_hex : ℕ → Bool
is_hex c = (leb b'0' c && leb c b'9') || ((leb b'a' c && leb c b'f') || (leb b'A' c && leb c b'F'))

unfoldable pub all_hex : ℕ → String → Bool
unfolding is_hex
all_hex zero String.[] = true
all_hex zero (String.◌∷◌ c s) = false
all_hex (suc n) String.[] = false
all_hex (suc n) (String.◌∷◌ c s) = let rest = all_hex n s in is_hex (code c) && rest

-- `^0x[0-9a-fA-F]{64}$`
unfoldable pub is_hash : String → Bool
unfolding all_hex
is_hash (String.◌∷◌ z (String.◌∷◌ x s)) = code z == b'0' && (code x == b'x' && all_hex 64 s)
is_hash _ = false

same_texts : List String → List String → Bool
same_texts [] [] = true
same_texts (s ∷ ss) (t ∷ ts) = let rest = same_texts ss ts in str_eq s t && rest
same_texts _ _ = false

abbrev pub same_address : String → String → Bool
same_address a b = str_eq (lower a) (lower b)

-- `deliverable_url`
unfoldable pub url_in : Option Json → Raising HireError String
url_in none = err invalid_params
url_in (some value) = elim value [
  | dict fs ↦ elim (get "deliverable_url" fs) [
    | none ↦ err no_deliverable_url
    | some url ↦ elim url [ text s ↦ ok s | _ ↦ err no_deliverable_url ]
  ]
  | _ ↦ err no_deliverable_url
]

pub record Pointer : Type 0 where
  pub deliverable_url : String
  pub pointer_hash : String
  pub submitted_at : ℕ
  pub pointer_block : ℕ
  pub pointer_transaction : String

pub record ManifestCheck : Type 0 where
  pub computed_hash : String
  pub content : String
  pub content_type : String

pub record Delivery : Type 0 where
  pub job_id : ℕ
  pub provider : String
  pub task_spec : TaskSpec
  pub passed : Option Bool
  pub onchain : Pointer
  pub manifest_url : String
  pub manifest : Fields
  pub verification : ManifestCheck
  pub can_settle : Bool
  pub can_dispute : Bool
  pub review_window_closed : Bool
  pub seconds_until_settle : ℕ
  pub policy_verdict : Verdict

abbrev pub object_of : Option Json → Raising HireError Fields
object_of none = err missing_parts
object_of (some value) = elim value [ dict fs ↦ ok fs | _ ↦ err missing_parts ]

abbrev pub text_of : HireError → Option Json → Raising HireError String
text_of why none = err why
text_of why (some value) = elim value [ text s ↦ ok s | _ ↦ err why ]

module _ (rpc : Sources) (node : Node) where
  unfoldable pub is_delivery : ℕ → String → ℕ → String → Log → Bool
  unfolding same_texts
  is_delivery id tx_hash block block_hash l =
      same_address l.address policy
      && (same_texts (map lower l.topics) (lower node.initialised_topic ∷ node.topic_uint id ∷ [])
          && (not l.removed
              && (same_address l.transaction_hash tx_hash
                  && (l.block_number == block && same_address l.block_hash block_hash))))

  unfoldable pub receipt_delivery_log : ℕ → String → Raising HireError Log
  unfolding is_delivery is_hash
  receipt_delivery_log id tx_hash = do
    guard (is_hash tx_hash) invalid_hint
    found ← node.receipt_of tx_hash
    receipt ← or_raise found failed_receipt
    guard (receipt.succeeded && same_address receipt.receipt_hash tx_hash) failed_receipt
    block ← node.block_hash_at receipt.receipt_block
    block_hash ← or_raise block not_canonical
    guard (not (str_eq block_hash "") && same_address block_hash receipt.receipt_block_hash)
        not_canonical
    elim (keep (is_delivery id tx_hash receipt.receipt_block block_hash) receipt.logs) [
      | [] ↦ err no_delivery_event
      | l ∷ ls ↦ if is_empty ls then ok l else err no_delivery_event
    ]

  -- The log of a reviewed hint, or the newest that a search finds.
  unfoldable pub delivery_log : ℕ → Option String → Raising HireError Log
  unfolding receipt_delivery_log
  delivery_log id (some hint) = receipt_delivery_log id hint
  delivery_log id none = do
    found ← find_event_log node.block_number (node.get_logs policy node.initialised_topic id)
    or_raise found no_delivery_event

  unfoldable pub delivery_pointer : ℕ → String → Raising HireError Pointer
  unfolding delivery_log url_in
  delivery_pointer id expected_hash = do
    l ← delivery_log id (node.hint_of id)
    event ← node.decode_event l.event_data
    guard (same_address event.0 expected_hash) different_deliverable
    url ← url_in (rpc.loads event.2)
    ok (record {
      deliverable_url = url;
      pointer_hash = event.0;
      submitted_at = event.1;
      pointer_block = l.block_number;
      pointer_transaction = l.transaction_hash;
    })

  -- Whether a value of the manifest is this number.
  abbrev pub says : String → Fields → ℕ → Bool
  says key fs n = elim (get key fs) [ none ↦ false | some v ↦ equals_number rpc.natural_of v n ]

  abbrev pub names_contract : String → Fields → String → Raising HireError (Unit {0})
  names_contract name contracts expected = do
    named ← node.address_of (get name contracts)
    guard (str_eq named expected) contract_mismatch

  unfoldable pub verify_manifest : Fields → ℕ → String → Raising HireError ManifestCheck
  verify_manifest manifest id expected_hash = do
    guard (says "version" manifest 1) unsupported_version
    guard (says "job_id" manifest id && says "chain_id" manifest chain_id) different_binding
    contracts ← object_of (get "contracts" manifest)
    response ← object_of (get "response" manifest)
    names_contract "commerce" contracts commerce
    names_contract "router" contracts router
    names_contract "policy" contracts policy
    content ← text_of no_content (get "content" response)
    guard (not (str_eq (node.strip content) "")) no_content
    content_type ← text_of no_content_type (get "content_type" response)
    guard (not (str_eq (node.strip content_type) "")) no_content_type
    guard (same_address (node.keccak_canonical manifest) expected_hash) different_hash
    ok (record {
      computed_hash = node.keccak_canonical manifest;
      content = content;
      content_type = content_type;
    })

  abbrev pub is_delivered : JobState → Bool
  is_delivered s = elim s [ submitted ↦ true | completed ↦ true | _ ↦ false ]

  -- The grid provider's answers are checked against the task.
  unfoldable pub quality_of : TaskSpec → String → Raising HireError (Option Bool)
  quality_of task content =
      if task.erc8004_token_id == 269224
      then (node.acceptance task.task_input content >>= λ b. ok (some b))
      else ok none

  unfoldable pub live_delivery : ℕ → ℕ → Raising HireError Delivery
  unfolding delivery_pointer verify_manifest quality_of
  live_delivery now id = do
    status ← live_job_status rpc now id
    guard (is_delivered status.status) no_delivery
    pointer ← delivery_pointer id status.job.deliverable_hash
    fetched ← node.fetch_manifest pointer.deliverable_url
    verification ← verify_manifest fetched.0 id status.job.deliverable_hash
    quality ← quality_of status.task_spec verification.content
    ok (record {
      job_id = id;
      provider = status.job.provider;
      task_spec = status.task_spec;
      passed = quality;
      onchain = pointer;
      manifest_url = fetched.1;
      manifest = fetched.0;
      verification = verification;
      can_settle = can_settle_of status.review;
      can_dispute = can_dispute_of status.review;
      review_window_closed = closed_of status.review;
      seconds_until_settle = seconds_of status.review;
      policy_verdict = verdict_of status.review;
    })
