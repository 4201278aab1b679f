-- ===== src/Services/WalletAuth.antt =====
-- proofops/services/wallet_auth.py: sign-in by a wallet signature. The signature's recovery is
-- eth_account's, the token's digest is hashlib's: both are parameters, with the text of a time.
pub mod Laws
use Prim.Native.Char.{code}
use Prim.Native.String.{◌++◌ as join}
use safehire_proofops_bnb.Prelude.{
  ℕ, ◌+◌, String, Bool, true, false, not, ◌&&◌, ◌||◌, Option, none, some, List, [], ◌∷◌, ◌==◌, leb,
  str_eq, if◌then◌else◌, length,
}
use safehire_proofops_bnb.Prelude.Text.{lower}
use safehire_proofops_bnb.Domain.Models.{minutes}
use safehire_proofops_bnb.Execution.Errors.{
  Error, Result, ok, err, challenge_used, challenge_expired, message_mismatch, signer_mismatch,
  bad_signature, bad_address, token_required, session_expired, wrong_owner, ◌>>=◌, ◌>>◌, guard,
  or_raise,
}
use safehire_proofops_bnb.Execution.Store.Schema.{Challenge, Session, Database}
use safehire_proofops_bnb.Execution.Store.Wallets.{
  save_wallet_challenge, get_wallet_challenge, consume_wallet_challenge, save_wallet_session,
  get_wallet_session,
}

codes : String → List ℕ
codes String.[] = []
codes (String.◌∷◌ c s) = code c ∷ codes s

is_hex : ℕ → Bool
is_hex c = (leb b'0' c && leb c b'9') || ((leb b'a' c && leb c b'f') || (leb b'A' c && leb c b'F'))

all_hex : List ℕ → Bool
all_hex [] = true
all_hex (c ∷ cs) = is_hex c && all_hex cs

-- `0x[a-fA-F0-9]{40}` on the whole text
is_address : List ℕ → Bool
is_address (z ∷ x ∷ digits) = (z == b'0' && x == b'x') && (length digits == 40 && all_hex digits)
is_address _ = false

unfoldable pub normalize_address : String → Result String
unfolding codes is_hex all_hex is_address
normalize_address owner = if is_address (codes owner) then ok (lower owner) else err bad_address

-- `if owner and session_owner != self.normalize_address(owner)`: an empty owner is not checked.
controls : Option String → String → Result (Unit {0})
controls none session_owner = ok tt
controls (some owner) session_owner = if str_eq owner "" then ok tt else do
  normalized ← normalize_address owner
  guard (str_eq session_owner normalized) wrong_owner

-- What the service takes from its libraries and its settings.
pub record Wallets : Type 0 where
  pub recover : String → String → Option String
  pub token_hash : String → String
  pub isoformat : ℕ → String
  pub challenge_minutes : ℕ
  pub session_minutes : ℕ

pub record Issued : Type 0 where
  pub owner : String
  pub message : String
  pub expires_at : ℕ

pub record SignedIn : Type 0 where
  pub owner : String
  pub session_token : String
  pub expires_at : ℕ

module _ (ws : Wallets) where
  message_of : String → String → ℕ → String
  message_of owner nonce expires_at = join "SafeHire wallet sign-in\n" (
      join "Owner: " (
        join owner (
          join "\nNonce: " (
            join nonce (
              join "\nExpires: " (
                join (ws.isoformat expires_at) (
                  join "\nPurpose: create and control scoped agent permissions.\n"
                    "This signature does not authorize a blockchain transaction.")))))))

  module _ {F : Type 0} where
    unfoldable pub challenge : ℕ → String → String → Database F → Result (Issued × Database F)
    unfolding message_of
    challenge now nonce owner db = do
      normalized ← normalize_address owner
      let expires_at = now + minutes ws.challenge_minutes
      let message = message_of normalized nonce expires_at
      ok (
        record { owner = normalized; message = message; expires_at = expires_at },
        save_wallet_challenge normalized message expires_at db,
      )

    -- The checks of `verify`, up to the first write.
    unfoldable pub check_signature : ℕ → String → String → String → Database F → Result String
    check_signature now owner message signature db = do
      normalized ← normalize_address owner
      c ← get_wallet_challenge normalized db
      guard (not c.used) challenge_used
      guard (not (leb c.expires_at now)) challenge_expired
      guard (str_eq message c.message) message_mismatch
      recovered ← or_raise (ws.recover message signature) bad_signature
      guard (str_eq (lower recovered) normalized) signer_mismatch
      ok normalized

    open_session : ℕ → String → String → Database F → Result SignedIn × Database F
    open_session now token normalized db =
        let expires_at = now + minutes ws.session_minutes in
        elim (save_wallet_session (ws.token_hash token) normalized expires_at db) [
          | err e ↦ (err e, db)
          | ok db' ↦ (
            ok (record { owner = normalized; session_token = token; expires_at = expires_at }),
            db',
          )
        ]

    -- The challenge is consumed before the session is saved, and stays so if that fails.
    unfoldable pub verify :
        ℕ → String → String → String → String → Database F → Result SignedIn × Database F
    unfolding open_session check_signature
    verify now token owner message signature db =
        elim (check_signature now owner message signature db) [
          | err e ↦ (err e, db)
          | ok normalized ↦ elim (consume_wallet_challenge normalized db) [
            | err e ↦ (err e, db)
            | ok db' ↦ open_session now token normalized db'
          ]
        ]

    unfoldable pub require_session : ℕ → String → Option String → Database F → Result String
    unfolding controls
    require_session now token owner db = do
      guard (not (str_eq token "")) token_required
      s ← get_wallet_session (ws.token_hash token) db
      guard (not (leb s.expires_at now)) session_expired
      controls owner s.owner
      ok s.owner
