-- ===== src/Tests/Services.antt =====
-- Runs of proofops/services: a wallet that signs its challenge, with a signature that recovers to
-- it and a digest that is the token itself.
use mathlib.Core.Bool.{false≢true}
use safehire_proofops_bnb.Prelude.{
  ℕ, String, ◌≡◌, ◌≢◌, refl, true, false, some, [], ◌∷◌, leb, str_eq, if◌then◌else◌, eq_iff,
}
use safehire_proofops_bnb.Prelude.Dict.{lookup, insert}
use safehire_proofops_bnb.Prelude.Text.{lower}
use safehire_proofops_bnb.Domain.Models.{minutes}
use safehire_proofops_bnb.Execution.Errors.{ok, err, session_expired, wrong_owner, signer_mismatch}
use safehire_proofops_bnb.Execution.Store.Schema.{Database, empty_database}
use safehire_proofops_bnb.Execution.Store.Wallets.{
  get_wallet_challenge, consume_wallet_challenge, save_wallet_session,
}
use safehire_proofops_bnb.Services.WalletAuth.{
  Wallets, SignedIn, normalize_address, verify, require_session,
}
use safehire_proofops_bnb.Services.WalletAuth.Laws.{
  Signed, verify_certifies, verify_refused, session_lasts,
}

abbrev owner : String
owner = "0xABCDEF0123456789abcdef0123456789abcdef01"

abbrev lowered : String
lowered = "0xabcdef0123456789abcdef0123456789abcdef01"

abbrev wallets : Wallets
wallets = record {
  recover = λ _ signature. some signature;
  token_hash = λ t. t;
  isoformat = λ _. "";
  challenge_minutes = 10;
  session_minutes = 60;
}

abbrev challenged : Database ℕ
challenged = record empty_database {
  wallet_challenges = (lowered, record { message = "m"; expires_at = 10; used = false }) ∷ [];
}

abbrev signed_in : Database ℕ
signed_in = record empty_database {
  wallet_challenges = (lowered, record { message = "m"; expires_at = 10; used = true }) ∷ [];
  wallet_sessions = ("tok", record { owner = lowered; expires_at = minutes 60 }) ∷ [];
}

abbrev answer : SignedIn
answer = record { owner = lowered; session_token = "tok"; expires_at = minutes 60 }

signs_in : verify wallets 0 "tok" owner "m" owner challenged ≡ (ok answer, signed_in)
unfolding verify lookup insert normalize_address lower get_wallet_challenge consume_wallet_challenge
    save_wallet_session
signs_in = refl

verify_certifies_example :
    Signed wallets 0 owner "m" owner challenged
    × (lowered ≡ lower owner)
    × (lookup "tok" signed_in.wallet_sessions
        ≡ some (record { owner = lower owner; expires_at = minutes 60 }))
verify_certifies_example =
    verify_certifies wallets 0 "tok" owner "m" owner challenged answer signed_in signs_in

verify_refused_example :
    (verify wallets 0 "tok" owner "m" "0x" challenged).1.wallet_sessions
    ≡ challenged.wallet_sessions
unfolding verify lookup normalize_address lower get_wallet_challenge
verify_refused_example =
    verify_refused wallets 0 "tok" owner "m" "0x" challenged signer_mismatch
      (verify wallets 0 "tok" owner "m" "0x" challenged).1 refl

given : ◌≢◌ {A = String} "tok" ""
given e = false≢true ((eq_iff "tok" "").1 e)

session_lasts_example : require_session wallets 7 "tok" (some owner) signed_in ≡ (
    if leb (minutes 60) 7
    then err session_expired
    else (if str_eq (lower owner) lowered then ok (lower owner) else err wrong_owner))
unfolding normalize_address lower
session_lasts_example =
    session_lasts wallets 0 7 "tok" owner "m" owner lowered owner challenged answer signed_in
      signs_in given refl
