-- ===== src/Plugins/Evidence.antt =====
-- proofops/plugins/evidence.py: the ledger, a file with one JSON record a line, each record with the
-- hash of its payload and of the record before it. Blank lines carry nothing. `sha256_hex` is the
-- digest of a JSON value; the time of an append is an argument.
pub mod Chain
pub mod Appended
use Prim.Native.String.{◌++◌ as join}
use safehire_proofops_bnb.Prelude.{
  ℕ, ◌+◌, String, ◌≡◌, Bool, true, false, not, Option, none, some, List, [], ◌∷◌, ◌++◌, ◌==◌,
  str_eq, if◌then◌else◌, is_empty, zero, suc,
}
use safehire_proofops_bnb.Prelude.Raising.{Raising, ok, err}
use safehire_proofops_bnb.Domain.Canonical.{
  Json, text, dict, Fields, end, field, integer, redact_secrets, reread,
}

pub record LedgerRecord : Type 0 where
  pub index : ℕ
  pub record_id : String
  pub occurred_at : String
  pub kind : String
  pub source : String
  pub payload : Json
  pub payload_hash : String
  pub previous_hash : String
  pub record_hash : String

-- The lines of the file, as `json.loads` reads them.
abbrev pub Ledger : Type 0
Ledger = List LedgerRecord

abbrev pub genesis_hash : String
genesis_hash = "0000000000000000000000000000000000000000000000000000000000000000"

pub data ChainError : Type 0 where
  index_mismatch : ℕ → ℕ → ChainError
  payload_hash_mismatch previous_hash_mismatch record_hash_mismatch : ℕ → ChainError

pub record Verification : Type 0 where
  pub valid : Bool
  pub records : ℕ
  pub head_hash : String
  pub errors : List ChainError

unfoldable pub unsigned_of : ℕ → String → String → String → String → String → Json
unfolding integer
unsigned_of index occurred_at kind source payload_hash previous_hash = dict (
    field "index" (integer index) (
      field "occurred_at" (text occurred_at) (
        field "kind" (text kind) (
          field "source" (text source) (
            field "payload_hash" (text payload_hash)
              (field "previous_hash" (text previous_hash) end))))))

abbrev pub unsigned : LedgerRecord → Json
unsigned r = unsigned_of r.index r.occurred_at r.kind r.source r.payload_hash r.previous_hash

-- `_last`, with the index one up: the index of the next record and the hash before it.
unfoldable pub last_from : ℕ → String → Ledger → ℕ × String
last_from next hash [] = (next, hash)
last_from next hash (r ∷ rs) = last_from (r.index + 1) r.record_hash rs

-- `s[:n]`
unfoldable first_chars : ℕ → String → String
first_chars zero s = String.[]
first_chars (suc n) String.[] = String.[]
first_chars (suc n) (String.◌∷◌ c s) = String.◌∷◌ c (first_chars n s)

module _ (sha256_hex : Json → String) where
  unfoldable pub record_of : String → String → String → Json → ℕ × String → LedgerRecord
  unfolding first_chars
  record_of now kind source clean_payload (index, previous_hash) =
      let payload_hash = sha256_hex clean_payload in
      let record_hash = sha256_hex (unsigned_of index now kind source payload_hash previous_hash) in
      record {
        index = index;
        record_id = join "ev_" (first_chars 20 record_hash);
        occurred_at = now;
        kind = kind;
        source = source;
        payload = reread clean_payload;
        payload_hash = payload_hash;
        previous_hash = previous_hash;
        record_hash = record_hash;
      }

  unfoldable pub append : String → String → String → Json → Ledger → LedgerRecord × Ledger
  append now kind source payload ledger =
      let r =
        record_of now kind source (redact_secrets payload) (last_from 0 genesis_hash ledger) in
      (r, ledger ++ (r ∷ []))

  -- The errors of one record that should be number `count` and follow `expected_previous`.
  unfoldable pub record_errors : ℕ → String → LedgerRecord → List ChainError
  record_errors count expected_previous r =
      let a = if r.index == count then [] else index_mismatch count r.index ∷ [] in
      let b =
        if str_eq r.payload_hash (sha256_hex r.payload)
        then []
        else payload_hash_mismatch r.index ∷ [] in
      let c =
        if str_eq r.previous_hash expected_previous
        then []
        else previous_hash_mismatch r.index ∷ [] in
      let d =
        if str_eq r.record_hash (sha256_hex (unsigned r))
        then []
        else record_hash_mismatch r.index ∷ [] in
      a ++ (b ++ (c ++ d))

  -- The loop of `verify`: the errors, the count and the head.
  unfoldable pub verify_from : ℕ → String → Ledger → List ChainError × (ℕ × String)
  unfolding record_errors
  verify_from count expected_previous [] = ([], (count, expected_previous))
  verify_from count expected_previous (r ∷ rs) =
      let (errors, head) = verify_from (count + 1) r.record_hash rs in
      (record_errors count expected_previous r ++ errors, head)

  unfoldable pub verify : Ledger → Verification
  unfolding verify_from
  verify ledger =
      let (errors, (records, head_hash)) = verify_from 0 genesis_hash ledger in
      record { valid = is_empty errors; records = records; head_hash = head_hash; errors = errors }

  unfoldable pub require_valid : Ledger → Raising (List ChainError) (Unit {0})
  unfolding verify
  require_valid ledger = if (verify ledger).valid then ok tt else err (verify ledger).errors

  -- `EvidencePlugin.load` on the file at the configured path, and `start`.
  unfoldable pub load : Ledger → Raising (List ChainError) Ledger
  unfolding require_valid
  load ledger = elim (require_valid ledger) [ err errors ↦ err errors | ok _ ↦ ok ledger ]

  unfoldable pub start : String → String → Ledger → Ledger
  unfolding append
  start now plugin_id ledger = (append now "plugin_started" plugin_id (dict end) ledger).1
