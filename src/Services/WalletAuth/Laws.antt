-- ===== src/Services/WalletAuth/Laws.antt =====
-- What a signed-in wallet proves (proofops/services/wallet_auth.py).
use safehire_proofops_bnb.Prelude.{
  ℕ, ◌+◌, ◌<◌, String, ◌≡◌, ap, sym, ◌∙◌, ◌≢◌, inl, inr, true, false, not, some, arith, leb, str_eq,
  if◌then◌else◌, Bool-cases, eq_iff,
}
use safehire_proofops_bnb.Prelude.Dict.{lookup, insert, lookup-insert_self}
use safehire_proofops_bnb.Prelude.Text.{lower, lower_idem}
use safehire_proofops_bnb.Domain.Models.{minutes}
use safehire_proofops_bnb.Execution.Errors.{
  Error, ok, err, challenge_used, session_expired, wrong_owner, challenge_expired, message_mismatch,
  signer_mismatch, bad_signature, bind-ok, guard-ok, Result-cases, or_raise-ok, guard, or_raise,
}
use safehire_proofops_bnb.Execution.Store.Schema.{Challenge, Database}
use safehire_proofops_bnb.Execution.Store.Wallets.{
  get_wallet_challenge, consume_wallet_challenge, save_wallet_session, get_wallet_session,
}
use safehire_proofops_bnb.Services.WalletAuth.{
  Wallets, SignedIn, normalize_address, check_signature, verify, require_session,
}

-- What the checks of a sign-in certify.
pub record Signed {F : Type 0} (ws : Wallets) (now : ℕ) (owner message signature : String)
    (db : Database F) : Type 0 where
  pub asked : Challenge
  pub signer : String
  pub named : normalize_address owner ≡ ok (lower owner)
  pub stored : lookup (lower owner) db.wallet_challenges ≡ some asked
  pub fresh : asked.used ≡ false
  pub unexpired : now < asked.expires_at
  pub same_message : message ≡ asked.message
  pub recovered : ws.recover message signature ≡ some signer
  pub is_owner : lower signer ≡ lower owner

no_name : (n : String) → normalize_address "" ≢ ok n
unfolding normalize_address
no_name n e = ground arith

address_nonempty : (o n : String) → normalize_address o ≡ ok n → str_eq o "" ≡ false
address_nonempty o n e = elim (Bool-cases (str_eq o "")) [
  | inl hit ↦ absurd (no_name n (ap normalize_address (sym ((eq_iff o "").0 hit)) ∙ e))
  | inr miss ↦ miss
]

normalize_lem : (o n : String) → normalize_address o ≡ ok n → n ≡ lower o
unfolding normalize_address
normalize_lem o n e = ground arith

module _ {F : Type 0} (ws : Wallets) where
  stored_challenge :
      (o : String) (db : Database F) (c : Challenge)
      → get_wallet_challenge (lower o) db ≡ ok c
      → lookup (lower o) db.wallet_challenges ≡ some c
  unfolding get_wallet_challenge
  stored_challenge o db c e = ground (arith, lower_idem o)

  Signed-of :
      (now : ℕ) (o m sig n signer : String) (db : Database F) (c : Challenge) (u : Unit {0})
      → normalize_address o ≡ ok n
      → get_wallet_challenge n db ≡ ok c
      → guard (not c.used) challenge_used ≡ ok u
      → guard (not (leb c.expires_at now)) challenge_expired ≡ ok u
      → guard (str_eq m c.message) message_mismatch ≡ ok u
      → or_raise (ws.recover m sig) bad_signature ≡ ok signer
      → guard (str_eq (lower signer) n) signer_mismatch ≡ ok u
      → Signed ws now o m sig db
  Signed-of now o m sig n signer db c u named got fresh live same rec own =
      let lowered = normalize_lem o n named in
      record {
        asked = c;
        signer = signer;
        named = named ∙ ap ok lowered;
        stored = stored_challenge o db c (rw (sym lowered) got);
        fresh = ground (arith);
        unexpired = ground (arith);
        same_message = (eq_iff m c.message).0 (guard-ok _ _ u same);
        recovered = or_raise-ok _ _ signer rec;
        is_owner = (eq_iff (lower signer) n).0 (guard-ok _ _ u own) ∙ lowered;
      }

  check_signature_lem :
      (now : ℕ) (o m sig n : String) (db : Database F)
      → check_signature ws now o m sig db ≡ ok n
      → (n ≡ lower o) × Signed ws now o m sig db
  unfolding check_signature
  check_signature_lem now o m sig n db e =
      let (n', named, e1) = bind-ok (normalize_address o) _ n e in
      let (c, got, e2) = bind-ok (get_wallet_challenge n' db) _ n e1 in
      let (u, fresh, e3) = bind-ok (guard (not c.used) challenge_used) _ n e2 in
      let (u', live, e4) = bind-ok (guard (not (leb c.expires_at now)) challenge_expired) _ n e3 in
      let (u'', same, e5) = bind-ok (guard (str_eq m c.message) message_mismatch) _ n e4 in
      let (signer, rec, e6) = bind-ok (or_raise (ws.recover m sig) bad_signature) _ n e5 in
      let (v, own, e7) = bind-ok (guard (str_eq (lower signer) n') signer_mismatch) _ n e6 in
      (
        ground (arith, normalize_lem o n' named),
        Signed-of now o m sig n' signer db c tt named got fresh live same rec own,
      )

  -- A sign-in that returns: its parts.
  verify_parts :
      (now : ℕ) (token o m sig : String) (db : Database F) (s : SignedIn) (db' : Database F)
      → verify ws now token o m sig db ≡ (ok s, db')
      → (c : Challenge) × Signed ws now o m sig db
        × (s ≡ record {
          owner = lower o;
          session_token = token;
          expires_at = now + minutes ws.session_minutes;
        })
        × (db'.wallet_challenges ≡ insert (lower o) (record c { used = true }) db.wallet_challenges)
        × (db'.wallet_sessions
            ≡ insert
                (ws.token_hash token)
                (record { owner = lower o; expires_at = now + minutes ws.session_minutes })
                db.wallet_sessions)
  unfolding verify consume_wallet_challenge save_wallet_session
  verify_parts now token o m sig db s db' e =
      elim (Result-cases (check_signature ws now o m sig db)) [
        | inl (x, refused) ↦ ground (arith, refused)
        | inr (n, checked) ↦
            let (lowered, signed) = check_signature_lem now o m sig n db checked in
            (
              signed.asked,
              signed,
              ground (arith, checked, lowered, lower_idem o, signed.stored, signed.fresh),
              ground (arith, checked, lowered, lower_idem o, signed.stored, signed.fresh),
              ground (arith, checked, lowered, lower_idem o, signed.stored, signed.fresh),
            )
      ]

  -- The session that a sign-in stored, read back.
  session_stored :
      (now : ℕ) (token o m sig : String) (db : Database F) (s : SignedIn) (db' : Database F)
      → verify ws now token o m sig db ≡ (ok s, db')
      → lookup (ws.token_hash token) db'.wallet_sessions
        ≡ some (record { owner = lower o; expires_at = s.expires_at })
  session_stored now token o m sig db s db' e =
      let (c, signed, answer, spent, opened) = verify_parts now token o m sig db s db' e in
      ap (lookup (ws.token_hash token)) opened
      ∙ lookup-insert_self (ws.token_hash token) _ db.wallet_sessions
      ∙ ap (λ x. some (record { owner = lower o; expires_at = x.expires_at })) (sym answer)

  -- A sign-in that returns was certified: the wallet's stored challenge was unused and unexpired,
  -- the message is the stored one, and the signature recovers to the wallet. The session it opens
  -- is stored under the token's digest for that wallet, to the returned expiry.
  pub verify_certifies :
      (now : ℕ) (token o m sig : String) (db : Database F) (s : SignedIn) (db' : Database F)
      → verify ws now token o m sig db ≡ (ok s, db')
      → Signed ws now o m sig db
        × (s.owner ≡ lower o)
        × (lookup (ws.token_hash token) db'.wallet_sessions
            ≡ some (record { owner = lower o; expires_at = s.expires_at }))
  verify_certifies now token o m sig db s db' e =
      let (c, signed, answer, spent, opened) = verify_parts now token o m sig db s db' e in
      (signed, ap (λ x. x.owner) answer, session_stored now token o m sig db s db' e)

  -- A sign-in that raises opens no session.
  pub verify_refused :
      (now : ℕ) (token o m sig : String) (db : Database F) (x : Error) (db' : Database F)
      → verify ws now token o m sig db ≡ (err x, db')
      → db'.wallet_sessions ≡ db.wallet_sessions
  unfolding verify consume_wallet_challenge save_wallet_session
  verify_refused now token o m sig db x db' e = ground arith

  -- The session of a sign-in serves its wallet until it expires and no longer, and never serves
  -- another wallet.
  pub session_lasts :
      (now later : ℕ) (token o m sig n : String) (other : String) (db : Database F) (s : SignedIn)
      (db' : Database F)
      → verify ws now token o m sig db ≡ (ok s, db')
      → token ≢ ""
      → normalize_address other ≡ ok n
      → require_session ws later token (some other) db' ≡ (
          if leb s.expires_at later
          then err session_expired
          else (if str_eq (lower o) n then ok (lower o) else err wrong_owner))
  unfolding require_session get_wallet_session
  session_lasts now later token o m sig n other db s db' e given named = ground (
    arith,
    session_stored now token o m sig db s db' e,
    named,
    eq_iff token "",
    address_nonempty other n named,
  )
