-- ===== src/Plugins/Evidence/Chain.antt =====
-- What `verify` of proofops/plugins/evidence.py accepts, and what it detects.
use safehire_proofops_bnb.Prelude.{
  ℕ, ◌+◌, String, ◌≡◌, refl, sym, ◌∙◌, ◌↔◌, true, [], ◌∷◌, is_empty, is_empty-append, length, arith,
  eq_iff,
}
use safehire_proofops_bnb.Domain.Canonical.{Json, reread}
use safehire_proofops_bnb.Plugins.Evidence.{
  LedgerRecord, Ledger, genesis_hash, unsigned, unsigned_of, record_errors, verify_from, verify,
}

module _ (sha256_hex : Json → String) where
  -- Record number `count`, after a record with the hash `before`, is as its hashes say.
  pub record Sealed (count : ℕ) (before : String) (r : LedgerRecord) : Type 0 where
    pub numbered : r.index ≡ count
    pub payload_sealed : r.payload_hash ≡ sha256_hex r.payload
    pub linked : r.previous_hash ≡ before
    pub sealed : r.record_hash ≡ sha256_hex (unsigned r)

  abbrev pub Chained : ℕ → String → Ledger → Type 0
  Chained count before [] = Unit
  Chained count before (r ∷ rs) = Sealed count before r × Chained (count + 1) r.record_hash rs

  record_errors-Sealed :
      (count : ℕ) (before : String) (r : LedgerRecord)
      → (is_empty (record_errors sha256_hex count before r) ≡ true) ↔ Sealed count before r
  unfolding record_errors
  record_errors-Sealed count before r = (
    λ e. record {
      numbered = ground arith;
      payload_sealed = ground (arith, eq_iff r.payload_hash (sha256_hex r.payload));
      linked = ground (arith, eq_iff r.previous_hash before);
      sealed = ground (arith, eq_iff r.record_hash (sha256_hex (unsigned r)));
    },
    λ s. ground (
      arith,
      s.numbered,
      (eq_iff r.payload_hash (sha256_hex r.payload)).1 s.payload_sealed,
      (eq_iff r.previous_hash before).1 s.linked,
      (eq_iff r.record_hash (sha256_hex (unsigned r))).1 s.sealed,
    ),
  )

  pub verify_from-Chained :
      (count : ℕ) (before : String) (rs : Ledger)
      → (is_empty (verify_from sha256_hex count before rs).0 ≡ true) ↔ Chained count before rs
  unfolding verify_from
  verify_from-Chained count before [] = (λ e. tt, λ h. refl)
  verify_from-Chained count before (r ∷ rs) =
      let ih = verify_from-Chained (count + 1) r.record_hash rs in
      let here = record_errors-Sealed count before r in
      let both =
        is_empty-append (record_errors sha256_hex count before r)
          (verify_from sha256_hex (count + 1) r.record_hash rs).0 in
      (λ e. let (a, b) = both.0 e in (here.0 a, ih.0 b), λ h. both.1 (here.1 h.0, ih.1 h.1))

  -- The ledger is valid exactly when every record has its number, the digest of its payload, the
  -- hash of the record before it and the digest of its own fields.
  pub verify-Chained :
      (ledger : Ledger) → ((verify sha256_hex ledger).valid ≡ true) ↔ Chained 0 genesis_hash ledger
  unfolding verify
  verify-Chained ledger = verify_from-Chained 0 genesis_hash ledger

-- What two records share that a reader cannot tell apart by the chain: all but `record_id`, with
-- payloads that print alike.
pub record SameRecord (r s : LedgerRecord) : Type 0 where
  pub index : r.index ≡ s.index
  pub occurred_at : r.occurred_at ≡ s.occurred_at
  pub kind : r.kind ≡ s.kind
  pub source : r.source ≡ s.source
  pub payload : reread r.payload ≡ reread s.payload
  pub payload_hash : r.payload_hash ≡ s.payload_hash
  pub previous_hash : r.previous_hash ≡ s.previous_hash
  pub record_hash : r.record_hash ≡ s.record_hash

abbrev pub SameLedger : Ledger → Ledger → Type 0
SameLedger [] [] = Unit
SameLedger [] (s ∷ ss) = ⊥
SameLedger (r ∷ rs) [] = ⊥
SameLedger (r ∷ rs) (s ∷ ss) = SameRecord r s × SameLedger rs ss

-- The digest tells two values apart: with one digest, they print alike.
abbrev pub Distinguishes : (Json → String) → Json → Json → Type 0
Distinguishes sha256_hex j k = sha256_hex j ≡ sha256_hex k → reread j ≡ reread k

-- The digest has no collision among what two ledgers hash at one place.
abbrev pub NoCollision : (Json → String) → Ledger → Ledger → Type 0
NoCollision sha256_hex (r ∷ rs) (s ∷ ss) =
    Distinguishes sha256_hex r.payload s.payload
    × Distinguishes sha256_hex (unsigned r) (unsigned s)
    × NoCollision sha256_hex rs ss
NoCollision sha256_hex _ _ = Unit

same_unsigned :
    (r s : LedgerRecord)
    → r.index ≡ s.index
    → reread (unsigned r) ≡ reread (unsigned s)
    → (r.occurred_at ≡ s.occurred_at)
      × (r.kind ≡ s.kind)
      × (r.source ≡ s.source)
      × (r.payload_hash ≡ s.payload_hash)
      × (r.previous_hash ≡ s.previous_hash)
unfolding reread unsigned_of
same_unsigned r s i e = (cc, cc, cc, cc, cc)

module _ (sha256_hex : Json → String) where
  same_record :
      (n : ℕ) (a b : String) (r s : LedgerRecord)
      → Sealed sha256_hex n a r
      → Sealed sha256_hex n b s
      → Distinguishes sha256_hex r.payload s.payload
      → Distinguishes sha256_hex (unsigned r) (unsigned s)
      → r.record_hash ≡ s.record_hash
      → SameRecord r s × (a ≡ b)
  same_record n a b r s x y same_payload same_fields e =
      let i = x.numbered ∙ sym y.numbered in
      let (at, kind, source, hash, before) =
        same_unsigned r s i (same_fields (sym x.sealed ∙ e ∙ y.sealed)) in
      (
        record {
          index = i;
          occurred_at = at;
          kind = kind;
          source = source;
          payload = same_payload (sym x.payload_sealed ∙ hash ∙ y.payload_sealed);
          payload_hash = hash;
          previous_hash = before;
          record_hash = e;
        },
        sym x.linked ∙ before ∙ y.linked,
      )

  same_from :
      (n : ℕ) (a b : String) (rs ss : Ledger)
      → Chained sha256_hex n a rs
      → Chained sha256_hex n b ss
      → NoCollision sha256_hex rs ss
      → length rs ≡ length ss
      → (verify_from sha256_hex n a rs).1.1 ≡ (verify_from sha256_hex n b ss).1.1
      → SameLedger rs ss × (a ≡ b)
  unfolding verify_from
  same_from n a b [] [] x y apart len head = (tt, head)
  same_from n a b [] (s ∷ ss) x y apart len head = absurd (omega (arith, len))
  same_from n a b (r ∷ rs) [] x y apart len head = absurd (omega (arith, len))
  same_from n a b (r ∷ rs) (s ∷ ss) x y apart len head =
      let (rest, e) =
        same_from (n + 1) r.record_hash s.record_hash rs ss x.1 y.1 apart.2 (omega (arith, len))
          head in
      let (here, before) = same_record n a b r s x.0 y.0 apart.0 apart.1 e in ((here, rest), before)

  pub counted :
      (n : ℕ) (a : String) (rs : Ledger) → (verify_from sha256_hex n a rs).1.0 ≡ n + length rs
  unfolding verify_from
  counted n a [] = omega arith
  counted n a (r ∷ rs) = omega (arith, counted (n + 1) r.record_hash rs)

  -- Where the digest has no collision among what they hash, two valid ledgers with the same number of records and the
  -- same head hash hold the same records: all but the `record_id`s agree, payloads as printed.
  pub verify-SameLedger :
      (l l' : Ledger)
      → NoCollision sha256_hex l l'
      → (verify sha256_hex l).valid ≡ true
      → (verify sha256_hex l').valid ≡ true
      → (verify sha256_hex l).records ≡ (verify sha256_hex l').records
      → (verify sha256_hex l).head_hash ≡ (verify sha256_hex l').head_hash
      → SameLedger l l'
  unfolding verify
  verify-SameLedger l l' apart v v' n h =
      (same_from 0 genesis_hash genesis_hash l l' ((verify-Chained sha256_hex l).0 v)
        ((verify-Chained sha256_hex l').0 v') apart
        (omega (arith, n, counted 0 genesis_hash l, counted 0 genesis_hash l')) h).0
