-- ===== src/Plugins/Evidence/Appended.antt =====
-- What `append` of proofops/plugins/evidence.py does to a valid ledger.
use mathlib.Core.Path.{subst}
use safehire_proofops_bnb.Prelude.{
  ℕ, ◌+◌, String, ◌≡◌, refl, ap, sym, ◌∙◌, true, [], ◌∷◌, ◌++◌, length, arith,
}
use safehire_proofops_bnb.Domain.Canonical.{Json, redact_secrets, reread, IsClean}
use safehire_proofops_bnb.Domain.Canonical.Redaction.{redact_secrets_lem}
use safehire_proofops_bnb.Prelude.Raising.{ok}
use safehire_proofops_bnb.Plugins.Evidence.{
  LedgerRecord, Ledger, genesis_hash, last_from, record_of, append, verify_from, verify, load,
  start, require_valid,
}
use safehire_proofops_bnb.Plugins.Evidence.Chain.{Sealed, Chained, verify-Chained, counted}

-- A digest of what is printed: a value and what is read back of it have one digest.
pub record Rereads (sha256_hex : Json → String) : Type 0 where
  pub same : (j : Json) → sha256_hex (reread j) ≡ sha256_hex j

module _ (sha256_hex : Json → String) where
  -- The last record of a chain has the number and the hash that the next one continues.
  last_lem :
      (n : ℕ) (before : String) (rs : Ledger)
      → Chained sha256_hex n before rs
      → last_from n before rs ≡ (verify_from sha256_hex n before rs).1
  unfolding last_from verify_from
  last_lem n before [] h = refl
  last_lem n before (r ∷ rs) h = rw h.0.numbered (last_lem (n + 1) r.record_hash rs h.1)

  Chained-append :
      (n : ℕ) (before : String) (rs : Ledger) (r : LedgerRecord)
      → Chained sha256_hex n before rs
      → Sealed sha256_hex
          (verify_from sha256_hex n before rs).1.0
          (verify_from sha256_hex n before rs).1.1
          r
      → Chained sha256_hex n before (rs ++ (r ∷ []))
  unfolding verify_from
  Chained-append n before [] r h s = (s, tt)
  Chained-append n before (q ∷ rs) r h s = (h.0, Chained-append (n + 1) q.record_hash rs r h.1 s)

  head_append :
      (n : ℕ) (before : String) (rs : Ledger) (r : LedgerRecord)
      → (verify_from sha256_hex n before (rs ++ (r ∷ []))).1.1 ≡ r.record_hash
  unfolding verify_from
  head_append n before [] r = refl
  head_append n before (q ∷ rs) r = head_append (n + 1) q.record_hash rs r

  length_append : (rs : Ledger) (r : LedgerRecord) → length (rs ++ (r ∷ [])) ≡ length rs + 1
  length_append [] r = omega arith
  length_append (q ∷ rs) r = omega (arith, length_append rs r)

  new_Sealed :
      (law : Rereads sha256_hex) (now kind source : String) (clean : Json) (at : ℕ × String)
      → Sealed sha256_hex at.0 at.1 (record_of sha256_hex now kind source clean at)
  unfolding record_of
  new_Sealed law now kind source clean (i, h) = record {
    numbered = refl;
    payload_sealed = sym (law.same clean);
    linked = refl;
    sealed = refl;
  }

  -- One record more, after all that was there, and the ledger is valid.
  pub record Appended (payload : Json) (l : Ledger) (r : LedgerRecord) (l' : Ledger) : Type 0 where
    pub valid : (verify sha256_hex l').valid ≡ true
    pub kept : l' ≡ l ++ (r ∷ [])
    pub one_more : (verify sha256_hex l').records ≡ (verify sha256_hex l).records + 1
    pub its_head : (verify sha256_hex l').head_hash ≡ r.record_hash
    pub its_number : r.index ≡ (verify sha256_hex l).records
    pub follows : r.previous_hash ≡ (verify sha256_hex l).head_hash
    pub its_payload : r.payload ≡ reread (redact_secrets payload)
    pub no_secret : IsClean (redact_secrets payload)

  -- Appending to a valid ledger leaves it valid, with the new record after all that was there: one
  -- record more, its hash the head, its number the old count and the old head before it. What it
  -- writes as the payload has no sensitive key with a value of its own.
  pub append-Appended :
      (law : Rereads sha256_hex) (now kind source : String) (payload : Json) (l : Ledger)
      → (verify sha256_hex l).valid ≡ true
      → Appended payload l
          (append sha256_hex now kind source payload l).0
          (append sha256_hex now kind source payload l).1
  unfolding append verify record_of
  append-Appended law now kind source payload l v =
      let chain = (verify-Chained sha256_hex l).0 v in
      let at = last_from 0 genesis_hash l in
      let clean = redact_secrets payload in
      let r = record_of sha256_hex now kind source clean at in
      let last = last_lem 0 genesis_hash l chain in
      let own : Sealed sha256_hex at.0 at.1 r = new_Sealed law now kind source clean at in
      record {
        valid = (verify-Chained sha256_hex (l ++ (r ∷ []))).1 (
            Chained-append 0 genesis_hash l r chain
              (subst (λ x. Sealed sha256_hex x.0 x.1 r) last own));
        kept = refl;
        one_more =
            counted sha256_hex 0 genesis_hash (l ++ (r ∷ []))
            ∙ omega (arith, length_append l r, counted sha256_hex 0 genesis_hash l);
        its_head = head_append 0 genesis_hash l r;
        its_number = ap (λ x. x.0) last;
        follows = ap (λ x. x.1) last;
        its_payload = refl;
        no_secret = (redact_secrets_lem payload).0;
      }

  -- A ledger that the plugin loads is valid, it is the file's, and starting the plugin keeps it so.
  pub load-start :
      (law : Rereads sha256_hex) (now plugin_id : String) (file l : Ledger)
      → load sha256_hex file ≡ ok l
      → (l ≡ file)
        × ((verify sha256_hex l).valid ≡ true)
        × ((verify sha256_hex (start sha256_hex now plugin_id l)).valid ≡ true)
  unfolding load require_valid start
  load-start law now plugin_id file l e =
      let same : l ≡ file = ground arith in
      let valid : (verify sha256_hex l).valid ≡ true = ground arith in
      (same, valid, (append-Appended law now "plugin_started" plugin_id _ l valid).valid)
