-- ===== src/LiveHire/Chain.antt =====
-- What proofops/services/live_erc8183.py reads from BSC and raises. The nodes' answers, as eth_abi
-- decodes them, and the code of other modules are functions that the methods take; a checksummed
-- address is its text.
use safehire_proofops_bnb.Prelude.{
  ℕ, String, Bool, true, false, not, ◌||◌, Option, none, some, List, [], ◌∷◌, ◌==◌, str_eq,
  if◌then◌else◌, get_elem?,
}
use safehire_proofops_bnb.Prelude.Text.{lower}
use safehire_proofops_bnb.Prelude.Raising.{Raising, ok, err}
use safehire_proofops_bnb.Domain.Canonical.{
  Json, Fields, end, field, dict, null, bool, number, text, list, tuple, nil, cons,
}

abbrev pub chain_id : ℕ
chain_id = 56

abbrev pub price_raw : ℕ
price_raw = 100_000_000_000_000_000

abbrev pub reviewed_price_raw : ℕ
reviewed_price_raw = 500_000_000_000_000_000

abbrev pub commerce : String
commerce = "0xea4daa3100a767e86fded867729ae7446476eba6"

abbrev pub router : String
router = "0x51895229e12f9876011789b04f8698af06ccd6da"

abbrev pub policy : String
policy = "0x9c01845705b3078aa2e8cff7520a6376fd766de5"

abbrev pub u_token : String
u_token = "0xce24439f2d9c6a2289f741120fe202248b666666"

abbrev pub zero_address : String
zero_address = "0x0000000000000000000000000000000000000000"

pub data JobState : Type 0 where
  open_job funded submitted completed rejected expired unknown : JobState

pub data HireError : Type 0 where
  invalid_job_id different_job malformed_description not_an_object : HireError
  missing_price budget_mismatch unexpected_evaluator : HireError
  not_owner unexpected_policy unexpected_budget no_progress : HireError
  must_be_funded not_notifiable no_operator rejected_notification : HireError
  different_job_acknowledged not_acknowledged : HireError
  no_delivery outside_dispute_window : HireError
  already_completed not_submitted no_verdict not_refundable : HireError
  invalid_hint failed_receipt not_canonical no_delivery_event : HireError
  different_deliverable invalid_params no_deliverable_url : HireError
  unsupported_version different_binding missing_parts contract_mismatch : HireError
  no_content no_content_type different_hash : HireError
  not_paid_out no_settlement no_payment no_hash : HireError
  not_open : JobState → HireError
  review_open : ℕ → HireError
  -- what a node, or another module, raises
  raised : String → HireError

-- `getJob`; what the code does not read is left out.
pub record Job : Type 0 where
  pub job_id : ℕ
  pub client : String
  pub provider : String
  pub evaluator : String
  pub description : String
  pub budget : ℕ
  pub expired_at : ℕ
  pub status_value : ℕ
  pub submitted_at : ℕ
  pub deliverable_hash : String

abbrev pub state_names : List JobState
state_names = open_job ∷ funded ∷ submitted ∷ completed ∷ rejected ∷ expired ∷ []

pub data Verdict : Type 0 where
  undecided approve reject unknown_verdict : Verdict

abbrev pub verdict_names : List Verdict
verdict_names = undecided ∷ approve ∷ reject ∷ []

abbrev pub or_else {ℓ} : {A : Type ℓ} → A → Option A → A
or_else a none = a
or_else a (some b) = b

unfoldable pub state_name : ℕ → JobState
state_name n = or_else unknown (get_elem? state_names n)

unfoldable pub verdict_name : ℕ → Verdict
verdict_name n = or_else unknown_verdict (get_elem? verdict_names n)

-- `check`, `submittedAt`, `disputeWindow` and `disputed`
pub record PolicyReading : Type 0 where
  pub verdict_value : ℕ
  pub reason : String
  pub policy_submitted_at : ℕ
  pub dispute_window : ℕ
  pub is_disputed : Bool

-- `_parse_task_spec`
pub record TaskSpec : Type 0 where
  pub service : String
  pub erc8004_token_id : ℕ
  pub task_input : Fields

-- The calls that `live_job_status` makes.
pub record Sources : Type 0 where
  pub get_job : ℕ → Raising HireError Job
  pub job_policy : ℕ → Raising HireError String
  pub allowance : String → Raising HireError ℕ
  pub read_policy : ℕ → Raising HireError PolicyReading
  -- `to_checksum_address`
  pub checksum : String → Raising HireError String
  -- `json.loads` and `int`
  pub loads : String → Option Json
  pub as_int : Json → Raising HireError ℕ
  -- the natural number that a literal stands for, if it stands for one
  pub natural_of : String → Option ℕ
  pub parse_task_spec : Fields → String → Raising HireError TaskSpec
  -- `verify_job_description`, with the price and whether the quote must be current
  pub verify_description : Fields → String → ℕ → Bool → Raising HireError Json

-- `.get`
unfoldable pub get : String → Fields → Option Json
get key end = none
get key (field k v fs) = if str_eq k key then some v else get key fs

unfoldable pub as_object : Json → Raising HireError Fields
as_object (dict fs) = ok fs
as_object _ = err not_an_object

-- `value == n`, in Python
unfoldable pub equals_number : (String → Option ℕ) → Json → ℕ → Bool
equals_number natural_of (number s) n = elim (natural_of s) [ none ↦ false | some k ↦ k == n ]
equals_number natural_of (bool b) n = if b then n == 1 else n == 0
equals_number natural_of null n = false
equals_number natural_of (text s) n = false
equals_number natural_of (list xs) n = false
equals_number natural_of (tuple xs) n = false
equals_number natural_of (dict fs) n = false

-- `bool(value)`, in Python; a zero is printed in three ways
unfoldable pub truthy : Json → Bool
truthy null = false
truthy (bool b) = b
truthy (number s) = not (str_eq s "0" || (str_eq s "0.0" || str_eq s "-0.0"))
truthy (text s) = not (str_eq s "")
truthy (list nil) = false
truthy (list (cons x xs)) = true
truthy (tuple nil) = false
truthy (tuple (cons x xs)) = true
truthy (dict end) = false
truthy (dict (field k v fs)) = true

-- `reviewed_calculators.token_for_wallet`
unfoldable pub token_for_wallet : String → Option ℕ
token_for_wallet wallet =
    if str_eq (lower wallet) "0x91f4602760e1627007bfc16f78a74cf8b9de8da2"
    then some 269228
    else if str_eq (lower wallet) "0xccae2da18278c663fc808fa858fd89cc34cf701f"
    then some 269226
    else none

abbrev is_some {ℓ} : {A : Type ℓ} → Option A → Bool
is_some none = false
is_some (some _) = true

-- `_reviewed_price`
unfoldable pub reviewed_price : String → ℕ
unfolding token_for_wallet
reviewed_price provider =
    if str_eq (lower provider) "0xb8143345687aa5a527f4f9568d508ebbc612d06d"
      || is_some (token_for_wallet provider)
    then reviewed_price_raw
    else price_raw
