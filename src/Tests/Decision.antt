-- ===== src/Tests/Decision.antt =====
-- A run of proofops/decision/paid.py: an account is any text, and a number is printed as it is.
use safehire_proofops_bnb.Prelude.{
  ℕ, String, refl, true, false, Option, none, some, [], ◌∷◌, str_eq, if◌then◌else◌,
}
use safehire_proofops_bnb.Prelude.Text.{lower}
use safehire_proofops_bnb.Prelude.Raising.{ok}
use safehire_proofops_bnb.Domain.Canonical.{Fields, end, field, number, text}
use safehire_proofops_bnb.LiveHire.Chain.{get, equals_number}
use safehire_proofops_bnb.Decision.Paid.{
  Output, VerifiedDelivery, verify_delivery, paid_commerce, paid_router, paid_token,
}
use safehire_proofops_bnb.Decision.Paid.BscReader.{Rpc, settlement_at, identity_at, job_at}
use safehire_proofops_bnb.Decision.Paid.Certified.{Certified, verified-Certified}

abbrev digest : String
digest = "0x0000000000000000000000000000000000000000000000000000000000000000"

abbrev sender_topic : String
sender_topic = "0x000000000000000000000000ea4daa3100a767e86fded867729ae7446476eba6"

abbrev literal : String → Option ℕ
literal s =
    if str_eq s "7"
    then some 7
    else if str_eq s "9"
    then some 9
    else if str_eq s "56"
    then some 56
    else none

abbrev paid_claim : Fields
paid_claim = field "settlement_tx_hash" (text digest) (
    field "job_id" (number "7") (
      field "chain_id" (number "56") (
        field "commitment_scheme" (text "keccak256_exact_utf8_bytes") (
          field "buyer" (text "0xB") (
            field "provider" (text "0xP")
              (field "token_id" (number "9") (field "skill_id" (text "grid_plan") end)))))))

abbrev described : Fields
described = field "schema_version" (text "safehire-live-hire-v1") (
    field "service" (text "grid_plan") (
      field "erc8004_token_id" (number "9")
        (field "provider" (text "0xp") (field "price_raw" (text "5") end))))

abbrev output : Output
output = record { size = 10; is_utf8 = true; keccak = digest }

abbrev node : Rpc
node = record {
  eth_chain_id = ok 56;
  receipt = λ tx. ok (
      some (record {
        receipt_tx = tx;
        status = 1;
        receipt_block_hash = digest;
        receipt_block = 100;
        raw_logs =
            record {
              log_address = paid_token;
              log_topics = digest ∷ sender_topic ∷ digest ∷ [];
              log_data = digest;
              is_removed = false;
            }
            ∷ [];
      }));
  transaction = λ tx. ok (
      some (record {
        hash = tx;
        to = paid_router;
        tx_block_hash = digest;
        tx_block = 100;
        input = "settle";
      }));
  head = ok 200;
  decode_settle = λ d. ok 7;
  transfer_topic = digest;
  account_of = λ t. if str_eq t sender_topic then paid_commerce else "0xp";
  word_of = λ w. 5;
  get_job = λ id block. ok (record {
    raw_id = 7;
    raw_buyer = "0xb";
    raw_provider = "0xp";
    raw_description = some described;
    raw_budget = 5;
    raw_status = 3;
    raw_deliverable = digest;
  });
  agent_wallet = λ token block. ok "0xp";
  owner_of = λ token block. ok "0xo";
  block_hash_of = λ b. ok digest;
}

abbrev delivery : VerifiedDelivery
delivery = record {
  verified_job = 7;
  settlement_tx_hash = digest;
  provider = "0xp";
  buyer = "0xb";
  token_id = 9;
  skill_id = "grid_plan";
  provider_payment_raw = 5;
  output_commitment = digest;
  verified_block = digest;
  verified_confirmations = 101;
}

verified-Certified_example : (tx : String) × Certified node output delivery tx
unfolding verify_delivery get equals_number lower settlement_at identity_at job_at
verified-Certified_example =
    verified-Certified literal literal (λ a. true) (λ n. "5") node ((9, "grid_plan") ∷ [])
      paid_claim output delivery refl
