-- ===== src/Execution/Store/Wallets.antt =====
-- The `wallet_challenges` and `wallet_sessions` tables of proofops/execution/store.py.
use safehire_proofops_bnb.Prelude.{ℕ, String, true, false, none, some, if◌then◌else◌}
use safehire_proofops_bnb.Prelude.Dict.{lookup, insert}
use safehire_proofops_bnb.Prelude.Text.{lower}
use safehire_proofops_bnb.Execution.Errors.{
  Result, ok, err, challenge_not_found, session_not_found, challenge_used, integrity,
}
use safehire_proofops_bnb.Execution.Store.Schema.{Challenge, Session, Database}

module _ {F : Type 0} where
  unfoldable pub save_wallet_challenge : String → String → ℕ → Database F → Database F
  save_wallet_challenge owner message expires_at db = record db {
    wallet_challenges =
        insert (lower owner) (record { message = message; expires_at = expires_at; used = false })
          db.wallet_challenges;
  }

  unfoldable pub get_wallet_challenge : String → Database F → Result Challenge
  get_wallet_challenge owner db = elim (lookup (lower owner) db.wallet_challenges) [
    | none ↦ err challenge_not_found
    | some c ↦ ok c
  ]

  -- `UPDATE … SET used=1 WHERE owner=? AND used=0` must touch one row.
  unfoldable pub consume_wallet_challenge : String → Database F → Result (Database F)
  consume_wallet_challenge owner db = elim (lookup (lower owner) db.wallet_challenges) [
    | none ↦ err challenge_used
    | some c ↦
        if c.used
        then err challenge_used
        else ok (record db {
          wallet_challenges = insert (lower owner) (record c { used = true }) db.wallet_challenges;
        })
  ]

  unfoldable pub save_wallet_session : String → String → ℕ → Database F → Result (Database F)
  save_wallet_session token_hash owner expires_at db = elim (lookup token_hash db.wallet_sessions) [
    | some _ ↦ err integrity
    | none ↦ ok (record db {
      wallet_sessions =
          insert token_hash (record { owner = lower owner; expires_at = expires_at })
            db.wallet_sessions;
    })
  ]

  unfoldable pub get_wallet_session : String → Database F → Result Session
  get_wallet_session token_hash db = elim (lookup token_hash db.wallet_sessions) [
    | none ↦ err session_not_found
    | some s ↦ ok s
  ]
