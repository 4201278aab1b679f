-- ===== src/Decision/Paid.antt =====
-- proofops/decision/paid.py: the replay of a settlement. A claim is JSON; what a reader returns is
-- typed, and an account is its hexadecimal text.
pub mod BscReader
pub mod Certified
pub mod Facts
use Prim.Native.Char.{code}
use safehire_proofops_bnb.Prelude.{
  ℕ, ◌+◌, ◌*◌, ◌^◌, String, Bool, true, false, not, ◌&&◌, ◌||◌, Option, none, some, List, [], ◌∷◌,
  leb, ltb, ◌==◌, str_eq, if◌then◌else◌,
}
use safehire_proofops_bnb.Prelude.Text.{lower}
use safehire_proofops_bnb.Prelude.Raising.{Raising, ok, err, or_raise, guard, ◌>>=◌, ◌>>◌}
use safehire_proofops_bnb.Domain.Canonical.{Json, Fields, number, text}
use safehire_proofops_bnb.LiveHire.Chain.{get, equals_number}
use safehire_proofops_bnb.LiveHire.Delivery.{is_hash, same_address}

abbrev pub paid_commerce : String
paid_commerce = "0xea4daa3100a767e86fded867729ae7446476eba6"

abbrev pub paid_router : String
paid_router = "0x51895229e12f9876011789b04f8698af06ccd6da"

abbrev pub paid_token : String
paid_token = "0xce24439f2d9c6a2289f741120fe202248b666666"

pub data PaidError : Type 0 where
  invalid_settlement_hash invalid_claim_job other_chain bad_output other_scheme : PaidError
  invalid_buyer invalid_provider self_hire invalid_token invalid_skill not_reviewed : PaidError
  rpc_chain failed_transaction receipt_mismatch other_target unbound_calldata : PaidError
  few_confirmations no_block_hash not_agent_wallet buyer_owns_agent : PaidError
  incomplete_job buyer_mismatch provider_mismatch no_description other_schema : PaidError
  unbound_description description_provider budget_differs other_bytes : PaidError
  no_matching_payment reorganized : PaidError
  mixed_blocks unset_account : PaidError
  -- what a node or a decoder raises
  reader_raised : String → PaidError

pub record Transfer : Type 0 where
  pub token : String
  pub sender : String
  pub receiver : String
  pub amount_raw : ℕ

pub record Settlement : Type 0 where
  pub settlement_chain : ℕ
  pub receipt_status : ℕ
  pub tx_hash : String
  pub target : String
  pub function : String
  pub job_id : ℕ
  pub settlement_block : ℕ
  pub block_hash : String
  pub confirmations : ℕ
  pub transfers : List Transfer

pub record SettledJob : Type 0 where
  pub settled_id : ℕ
  pub is_complete : Bool
  pub job_buyer : String
  pub job_provider : String
  -- `json.loads` of the description, where it is an object
  pub task_description : Option Fields
  pub budget_raw : ℕ
  pub commitment : String

pub record Identity : Type 0 where
  pub wallet : String
  pub owner : String

-- The `Reader` protocol.
pub record Reader : Type 0 where
  pub settlement : String → Raising PaidError Settlement
  pub job : ℕ → String → Raising PaidError SettledJob
  pub canonical_block_hash : ℕ → Raising PaidError String
  pub identity : ℕ → String → Raising PaidError Identity

-- The bytes of a deliverable, as the code looks at them.
pub record Output : Type 0 where
  pub size : ℕ
  pub is_utf8 : Bool
  pub keccak : String

pub record VerifiedDelivery : Type 0 where
  pub verified_job : ℕ
  pub settlement_tx_hash : String
  pub provider : String
  pub buyer : String
  pub token_id : ℕ
  pub skill_id : String
  pub provider_payment_raw : ℕ
  pub output_commitment : String
  pub verified_block : String
  pub verified_confirmations : ℕ

-- A field that is an `int` and not negative, or a text.
abbrev pub int_field : (String → Option ℕ) → String → Fields → Option ℕ
int_field int_of key fs = elim (get key fs) [
  | none ↦ none
  | some v ↦ elim v [ number s ↦ int_of s | _ ↦ none ]
]

abbrev pub text_field : String → Fields → Option String
text_field key fs = elim (get key fs) [
  | none ↦ none
  | some v ↦ elim v [ text s ↦ some s | _ ↦ none ]
]

abbrev pub is_some_text : String → Option String → Bool
is_some_text s o = elim o [ none ↦ false | some t ↦ str_eq t s ]

-- `str(value) == s`, for a text of digits
abbrev pub prints_as : String → Option Json → Bool
prints_as s o = elim o [
  | none ↦ false
  | some v ↦ elim v [ text t ↦ str_eq t s | number t ↦ str_eq t s | _ ↦ false ]
]

abbrev pub is_some_nat : ℕ → Option ℕ → Bool
is_some_nat n o = elim o [ none ↦ false | some k ↦ k == n ]

abbrev pub equals_field : (String → Option ℕ) → String → Fields → ℕ → Bool
equals_field natural_of key fs n = elim (get key fs) [
  | none ↦ false
  | some v ↦ equals_number natural_of v n
]

is_reviewed : ℕ → String → List (ℕ × String) → Bool
is_reviewed token skill [] = false
is_reviewed token skill ((t, s) ∷ agents) =
    (t == token && str_eq s skill) || is_reviewed token skill agents

-- A transfer from the escrow to the provider.
abbrev pub is_payout : String → Transfer → Bool
is_payout provider t =
    str_eq (lower t.token) paid_token
    && (str_eq (lower t.sender) paid_commerce && same_address t.receiver provider)

unfoldable pub payment_of : String → List Transfer → ℕ
payment_of provider [] = 0
payment_of provider (t ∷ ts) =
    let rest = payment_of provider ts in if is_payout provider t then t.amount_raw + rest else rest

abbrev pub two_mebibytes : ℕ
two_mebibytes = 2 * 1024 * 1024

-- What the claim says, checked.
pub record Claim : Type 0 where
  pub claimed_tx : String
  pub claimed_job : ℕ
  pub claimed_buyer : String
  pub claimed_provider : String
  pub claimed_token : ℕ
  pub claimed_skill : String

unfoldable pub check_settlement : Claim → Settlement → Raising PaidError (Unit {0})
unfolding is_hash
check_settlement c s = do
  guard (s.settlement_chain == 56) rpc_chain
  guard (s.receipt_status == 1) failed_transaction
  guard (same_address s.tx_hash c.claimed_tx) receipt_mismatch
  guard (str_eq (lower s.target) paid_router) other_target
  guard (str_eq s.function "settle(uint256,bytes)" && s.job_id == c.claimed_job) unbound_calldata
  guard (leb 12 s.confirmations) few_confirmations
  guard (is_hash s.block_hash) no_block_hash

unfoldable pub check_identity : Claim → Identity → Raising PaidError (Unit {0})
check_identity c i = do
  guard (same_address i.wallet c.claimed_provider) not_agent_wallet
  guard (not (same_address i.owner c.claimed_buyer)) buyer_owns_agent

unfoldable pub check_job :
    (String → Option ℕ) → (ℕ → String) → Claim → Output → SettledJob → Raising PaidError (Unit {0})
check_job natural_of price_text c output j = do
  guard (j.settled_id == c.claimed_job && j.is_complete) incomplete_job
  guard (same_address j.job_buyer c.claimed_buyer) buyer_mismatch
  guard (same_address j.job_provider c.claimed_provider) provider_mismatch
  d ← or_raise j.task_description no_description
  guard (is_some_text "safehire-live-hire-v1" (text_field "schema_version" d)) other_schema
  guard
      (is_some_text c.claimed_skill (text_field "service" d)
        && equals_field natural_of "erc8004_token_id" d c.claimed_token)
      unbound_description
  described ← or_raise (text_field "provider" d) description_provider
  guard (same_address described c.claimed_provider) description_provider
  guard (ltb 0 j.budget_raw) budget_differs
  guard (prints_as (price_text j.budget_raw) (get "price_raw" d)) budget_differs
  guard (same_address j.commitment output.keccak) other_bytes

unfoldable pub verified_of : Claim → Output → Settlement → VerifiedDelivery
unfolding payment_of
verified_of c output s = record {
  verified_job = c.claimed_job;
  settlement_tx_hash = lower c.claimed_tx;
  provider = lower c.claimed_provider;
  buyer = lower c.claimed_buyer;
  token_id = c.claimed_token;
  skill_id = c.claimed_skill;
  provider_payment_raw = payment_of c.claimed_provider s.transfers;
  output_commitment = output.keccak;
  verified_block = s.block_hash;
  verified_confirmations = s.confirmations;
}

-- The numbers that literals stand for, as an `int` and in `==`, the test of an account's text, the
-- decimal text of a number, and the catalogue.
module _ (int_of natural_of : String → Option ℕ) (is_account : String → Bool)
    (price_text : ℕ → String) (reader : Reader) (reviewed_agents : List (ℕ × String)) where
  unfoldable pub check_claim : Fields → Output → Raising PaidError Claim
  unfolding is_reviewed is_hash
  check_claim claim output = do
    tx ← or_raise (text_field "settlement_tx_hash" claim) invalid_settlement_hash
    guard (is_hash tx) invalid_settlement_hash
    job ← or_raise (int_field int_of "job_id" claim) invalid_claim_job
    guard (ltb 0 job && ltb job (2 ^ 256)) invalid_claim_job
    guard (is_some_nat 56 (int_field int_of "chain_id" claim)) other_chain
    guard (ltb 0 output.size && leb output.size two_mebibytes) bad_output
    guard (is_some_text "keccak256_exact_utf8_bytes" (text_field "commitment_scheme" claim))
        other_scheme
    guard output.is_utf8 bad_output
    buyer ← or_raise (text_field "buyer" claim) invalid_buyer
    guard (is_account buyer) invalid_buyer
    provider ← or_raise (text_field "provider" claim) invalid_provider
    guard (is_account provider) invalid_provider
    guard (not (same_address buyer provider)) self_hire
    token ← or_raise (int_field int_of "token_id" claim) invalid_token
    guard (ltb 0 token) invalid_token
    skill ← or_raise (text_field "skill_id" claim) invalid_skill
    guard (not (str_eq skill "")) invalid_skill
    guard (is_reviewed token skill reviewed_agents) not_reviewed
    ok (record {
      claimed_tx = tx;
      claimed_job = job;
      claimed_buyer = buyer;
      claimed_provider = provider;
      claimed_token = token;
      claimed_skill = skill;
    })

  unfoldable pub verify_delivery : Fields → Output → Raising PaidError VerifiedDelivery
  unfolding check_claim check_settlement check_identity check_job payment_of verified_of
  verify_delivery claim output = do
    c ← check_claim claim output
    s ← reader.settlement c.claimed_tx
    check_settlement c s
    i ← reader.identity c.claimed_token s.block_hash
    check_identity c i
    j ← reader.job c.claimed_job s.block_hash
    check_job natural_of price_text c output j
    let payment = payment_of c.claimed_provider s.transfers
    guard (ltb 0 payment && leb payment j.budget_raw) no_matching_payment
    canonical ← reader.canonical_block_hash s.settlement_block
    guard (same_address canonical s.block_hash) reorganized
    ok (verified_of c output s)
