-- ===== src/Domain/Canonical/Redaction.antt =====
-- What `redact_secrets` of proofops/domain/canonical.py guarantees about the value it returns.
use safehire_proofops_bnb.Prelude.{◌≡◌, refl, ap, inl, inr, ◌↔◌, Bool-cases}
use safehire_proofops_bnb.Prelude.Text.{lower}
use safehire_proofops_bnb.Domain.Canonical.{
  Json, null, bool, number, text, list, tuple, dict, Items, nil, cons, Fields, end, field,
  sensitive, redact_secrets, redact_items, redact_fields, IsClean, AllClean, NoSecret,
}

mutual
  unfolding redact_secrets redact_items redact_fields

  clean : (v : Json) → IsClean (redact_secrets v)
  clean null = tt
  clean (bool b) = tt
  clean (number n) = tt
  clean (text s) = tt
  clean (list xs) = clean_items xs
  clean (tuple xs) = clean_items xs
  clean (dict fs) = clean_fields fs

  clean_items : (xs : Items) → AllClean (redact_items xs)
  clean_items nil = tt
  clean_items (cons x xs) = (clean x, clean_items xs)

  clean_fields : (fs : Fields) → NoSecret (redact_fields fs)
  clean_fields end = tt
  clean_fields (field k v fs) = elim (Bool-cases (sensitive (lower k))) [
    | inl secret ↦ rw secret ((λ _. refl), tt, clean_fields fs)
    | inr plain ↦ rw plain ((λ e. absurd (cc)), clean v, clean_fields fs)
  ]

mutual
  unfolding redact_secrets redact_items redact_fields

  same : (v : Json) → IsClean v → redact_secrets v ≡ v
  same null h = refl
  same (bool b) h = refl
  same (number n) h = refl
  same (text s) h = refl
  same (list xs) h = ap list (same_items xs h)
  same (tuple xs) h = ap tuple (same_items xs h)
  same (dict fs) h = ap dict (same_fields fs h)

  same_items : (xs : Items) → AllClean xs → redact_items xs ≡ xs
  same_items nil h = refl
  same_items (cons x xs) h = cc (same x h.0, same_items xs h.1)

  same_fields : (fs : Fields) → NoSecret fs → redact_fields fs ≡ fs
  same_fields end h = refl
  same_fields (field k v fs) h = elim (Bool-cases (sensitive (lower k))) [
    | inl secret ↦ rw secret (cc (h.0 secret, same_fields fs h.2))
    | inr plain ↦ rw plain (cc (same v h.1, same_fields fs h.2))
  ]

-- Redaction leaves no sensitive key with a value of its own, at any depth, and it changes exactly
-- the values that have one: a value is returned as it came precisely when it holds no secret.
pub redact_secrets_lem :
    (v : Json) → IsClean (redact_secrets v) × ((redact_secrets v ≡ v) ↔ IsClean v)
redact_secrets_lem v = (clean v, ((λ e. rw e at (clean v)), same v))
