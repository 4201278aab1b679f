-- ===== src/Domain/Canonical.antt =====
-- proofops/domain/canonical.py: JSON values, and the redaction that precedes every ledger write.
pub mod Redaction
use Prim.Native.Char.{Char}
use safehire_proofops_bnb.Prelude.{
  ℕ, zero, suc, ◌+◌, ◌/◌, ◌%◌, ◌==◌, String, ◌≡◌, Bool, true, false, ◌||◌, str_eq, if◌then◌else◌,
}
use safehire_proofops_bnb.Prelude.Text.{lower}

-- What `json.loads` returns. A number is kept as the literal that `json.dumps` prints for it. A
-- tuple is printed as a list.
mutual
  pub data Json : Type 0 where
    null : Json
    bool : Bool → Json
    number : String → Json
    text : String → Json
    list : Items → Json
    tuple : Items → Json
    dict : Fields → Json

  pub data Items : Type 0 where
    nil : Items
    cons : Json → Items → Items

  pub data Fields : Type 0 where
    end : Fields
    field : String → Json → Fields → Fields

unfoldable pub sensitive : String → Bool
sensitive k =
    str_eq k "private_key"
    || (str_eq k "api_key"
        || (str_eq k "authorization"
            || (str_eq k "token" || (str_eq k "secret" || str_eq k "password"))))

abbrev pub redacted : Json
redacted = text "<redacted>"

unfoldable mutual
  pub redact_secrets : Json → Json
  redact_secrets null = null
  redact_secrets (bool b) = bool b
  redact_secrets (number n) = number n
  redact_secrets (text s) = text s
  redact_secrets (list xs) = list (redact_items xs)
  redact_secrets (tuple xs) = tuple (redact_items xs)
  redact_secrets (dict fs) = dict (redact_fields fs)

  pub redact_items : Items → Items
  redact_items nil = nil
  redact_items (cons x xs) = cons (redact_secrets x) (redact_items xs)

  pub redact_fields : Fields → Fields
  redact_fields end = end
  redact_fields (field k v fs) =
      field k (if sensitive (lower k) then redacted else redact_secrets v) (redact_fields fs)

-- No key at any depth that is sensitive, in any case of its letters, has a value of its own.
abbrev mutual
  pub IsClean : Json → Type 0
  IsClean null = Unit
  IsClean (bool b) = Unit
  IsClean (number n) = Unit
  IsClean (text s) = Unit
  IsClean (list xs) = AllClean xs
  IsClean (tuple xs) = AllClean xs
  IsClean (dict fs) = NoSecret fs

  pub AllClean : Items → Type 0
  AllClean nil = Unit
  AllClean (cons x xs) = IsClean x × AllClean xs

  pub NoSecret : Fields → Type 0
  NoSecret end = Unit
  NoSecret (field k v fs) = (sensitive (lower k) ≡ true → v ≡ redacted) × IsClean v × NoSecret fs

digit : ℕ → Char
digit d =
    if d == 0
    then "0"
    else if d == 1
    then "1"
    else if d == 2
    then "2"
    else if d == 3
    then "3"
    else if d == 4
    then "4"
    else if d == 5
    then "5"
    else if d == 6
    then "6"
    else if d == 7
    then "7"
    else if d == 8
    then "8"
    else "9"

-- The digits of `n` before the text `after`; `fuel` above `n` is enough.
decimal_before : ℕ → ℕ → String → String
unfolding digit
decimal_before zero n after = after
decimal_before (suc fuel) n after = elim (n / 10 == 0) [
  | true ↦ String.◌∷◌ (digit (n % 10)) after
  | false ↦ decimal_before fuel (n / 10) (String.◌∷◌ (digit (n % 10)) after)
]

-- How `json.dumps` prints an `int` that is not negative.
unfoldable pub integer : ℕ → Json
unfolding decimal_before
integer n = number (decimal_before (n + 1) n String.[])

-- What `json.loads` makes of what `json.dumps` prints: a tuple comes back as a list.
unfoldable mutual
  pub reread : Json → Json
  reread null = null
  reread (bool b) = bool b
  reread (number n) = number n
  reread (text s) = text s
  reread (list xs) = list (reread_items xs)
  reread (tuple xs) = list (reread_items xs)
  reread (dict fs) = dict (reread_fields fs)

  pub reread_items : Items → Items
  reread_items nil = nil
  reread_items (cons x xs) = cons (reread x) (reread_items xs)

  pub reread_fields : Fields → Fields
  reread_fields end = end
  reread_fields (field k v fs) = field k (reread v) (reread_fields fs)
