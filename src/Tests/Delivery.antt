-- ===== src/Tests/Delivery.antt =====
-- Runs of proofops/services/live_erc8183.py: the delivery of job 7, and the notification of its provider.
use safehire_proofops_bnb.Prelude.{
  ℕ, ◌+◌, ◌≡◌, refl, ◌&&◌, true, false, none, some, List, [], ◌∷◌, str_eq, leb, ltb, if◌then◌else◌,
  keep, arith,
}
use safehire_proofops_bnb.Prelude.Raising.{Raising, ok, err}
use safehire_proofops_bnb.Domain.Canonical.{
  Fields, end, field, number, null, dict, text, list, nil, cons,
}
use safehire_proofops_bnb.LiveHire.Chain.{
  HireError, policy, commerce, router, u_token, no_content, price_raw, get, as_object, state_name,
  funded, equals_number,
}
use safehire_proofops_bnb.LiveHire.Status.{live_job_status, JobStatus}
use safehire_proofops_bnb.LiveHire.Delivery.{Node}
use safehire_proofops_bnb.LiveHire.Delivery.Payment.{VerifiedReceipt}
use safehire_proofops_bnb.LiveHire.Delivery.Certified.{Certified}
use safehire_proofops_bnb.LiveHire.Notify.{Route, Network, notify_live_agent}
use safehire_proofops_bnb.LiveHire.Notify.Acknowledged.{IsAccepted, notified-IsAccepted}
use safehire_proofops_bnb.LiveHire.Logs.{Log, last?, find_event_log}
use safehire_proofops_bnb.LiveHire.Logs.Scan.{find_event_log-newest}
use safehire_proofops_bnb.Tests.LiveHire.{genesis_hash, read_at, exact_world}

abbrev log_at : ℕ → Log
log_at block = record {
  address = policy;
  topics = [];
  event_data = "";
  block_number = block;
  block_hash = "0xbb";
  transaction_hash = "0xaa";
  removed = false;
}

abbrev history : List Log
history = log_at 5 ∷ log_at 700_000 ∷ log_at 700_900 ∷ []

abbrev get_logs : ℕ → ℕ → Raising HireError (List Log)
get_logs from to = ok (keep (λ l. leb from l.block_number && leb l.block_number to) history)

find_event_log-newest_example :
    find_event_log (ok 702_000) get_logs
    ≡ ok (
        last?
          (keep (λ l. leb l.block_number 702_000 && ltb 702_000 (l.block_number + 300000)) history))
find_event_log-newest_example =
    find_event_log-newest (ok 702_000) get_logs history 702_000 refl (λ from to. refl) (omega arith)

abbrev manifest : Fields
manifest = field "version" (number "1") (
    field "job_id" (number "7") (
      field "chain_id" (number "56") (
        field "contracts"
          (dict (
            field "commerce" (text commerce)
              (field "router" (text router) (field "policy" (text policy) end))))
          (field "response"
            (dict (field "content" (text "c") (field "content_type" (text "t") end))) end))))

abbrev transfer : Log
transfer = record (log_at 9) {
  address = u_token;
  topics = "transfer" ∷ "from" ∷ "to" ∷ [];
  event_data = "v";
}

abbrev pub node : Node
node = record {
  block_number = ok 10;
  get_logs = λ a t j from to. ok (log_at 9 ∷ []);
  receipt_of = λ h. ok (
      some (record {
        succeeded = true;
        receipt_hash = h;
        receipt_block = 9;
        receipt_block_hash = "0xbb";
        logs = transfer ∷ [];
      }));
  block_hash_at = λ b. ok (some "0xbb");
  hint_of = λ j. none;
  initialised_topic = "initialised";
  completed_topic = "completed";
  transfer_topic = "transfer";
  topic_uint = λ n. "7";
  topic_address = λ a. if str_eq a commerce then "from" else "to";
  decode_event = λ e. ok (genesis_hash, 20, "p");
  amount_of = λ v. ok 5;
  fetch_manifest = λ url. ok (manifest, url);
  address_of = λ v. elim v [
    | none ↦ err no_content
    | some a ↦ elim a [ text s ↦ ok s | _ ↦ err no_content ]
  ];
  strip = λ s. s;
  keccak_canonical = λ m. genesis_hash;
  acceptance = λ task content. ok true;
}

abbrev dossier : VerifiedReceipt
dossier = record {
  job_id = 7;
  provider = "0xp";
  client = "0xb";
  erc8004_token_id = 9;
  skill_id = "grid_plan";
  task_input = end;
  quote = null;
  manifest_url = "https://x/m";
  deliverable_hash = genesis_hash;
  manifest = manifest;
  settlement_tx_hash = "0xaa";
  settlement_block_number = 9;
  payment_raw = 5;
  quoted_price_raw = price_raw;
}

abbrev route : Route
route = record { operator = "op"; endpoint = "https://x" }

abbrev pub network : Network
network = record {
  resolve_agent = λ service token. ok route;
  post = λ endpoint r. ok (
      dict (
        field "result"
          (dict (
            field "parts"
              (list (
                cons
                  (dict (
                    field "data"
                      (dict (field "status" (text "accepted") (field "job_id" (number "7") end)))
                      end))
                  nil))
              end))
          end));
  strip = λ s. s;
}

notified-IsAccepted_example :
    (s : JobStatus) × (live_job_status (read_at 1 exact_world) 60 7 ≡ ok s)
    × (s.status ≡ funded)
    × (s.job.budget ≡ s.price)
    × IsAccepted (read_at 1 exact_world) 7 network s route
unfolding notify_live_agent live_job_status get as_object state_name equals_number
notified-IsAccepted_example = notified-IsAccepted (read_at 1 exact_world) 7 network 60 route refl
