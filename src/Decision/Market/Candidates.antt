-- ===== src/Decision/Market/Candidates.antt =====
-- proofops/decision/market.py: the row of an item has one of the categories.
use mathlib.Core.Path.{subst}
use safehire_proofops_bnb.Prelude.{
  String, ◌≡◌, inl, inr, true, Option, none, some, arith, Bool-cases, Option-cases,
}
use safehire_proofops_bnb.Prelude.Members.{member, Listed, member_iff}
use safehire_proofops_bnb.Prelude.Raising.{ok, Result-cases}
use safehire_proofops_bnb.Domain.Canonical.{
  Items, Json, dict, list, tuple, null, bool, number, text,
}
use safehire_proofops_bnb.LiveHire.Chain.{get}
use safehire_proofops_bnb.Decision.Market.Catalogue.{catalogue}
use safehire_proofops_bnb.Decision.Market.{Python}
use safehire_proofops_bnb.Decision.Market.Projection.{
  Candidate, candidate_of, names_of, category_of, token_of, skill_of, all_hashable,
}

some_in : (s : String) → member s (names_of catalogue) ≡ true → Listed s (names_of catalogue)
some_in s h = (member_iff s (names_of catalogue)).0 h

tuple_no_category :
    (xs : Items) (c : String)
    → category_of (some (tuple xs)) ≡ ok (some c)
    → Listed c (names_of catalogue)
unfolding category_of
tuple_no_category xs c e = elim (Bool-cases (all_hashable xs)) [
  | inl all ↦ absurd (ground (arith, all, e))
  | inr some_not ↦ absurd (ground (arith, some_not, e))
]

category_of-Listed :
    (v : Option Json) (c : String) → category_of v ≡ ok (some c) → Listed c (names_of catalogue)
unfolding category_of
category_of-Listed none c e = absurd (cc)
category_of-Listed (some null) c e = absurd (cc)
category_of-Listed (some (bool b)) c e = absurd (cc)
category_of-Listed (some (number n)) c e = absurd (cc)
category_of-Listed (some (dict fs)) c e = absurd (cc)
category_of-Listed (some (list xs)) c e = absurd (cc)
category_of-Listed (some (tuple xs)) c e = tuple_no_category xs c e
category_of-Listed (some (text s)) c e = elim (Bool-cases (member s (names_of catalogue))) [
  | inr out ↦ absurd (ground (arith, out, e))
  | inl within ↦
      let same : s ≡ c = ground (arith, within, e) in
      subst (λ z. Listed z (names_of catalogue)) same (some_in s within)
]

pub candidate_of-Listed :
    (py : Python) (item : Json) (c : Candidate)
    → candidate_of py item ≡ ok (some c)
    → Listed c.candidate_category (names_of catalogue)
unfolding candidate_of
candidate_of-Listed py (dict item) c e = elim (Option-cases (token_of py (get "token_id" item))) [
  | inl missing ↦ absurd (ground (arith, missing, e))
  | inr (token, at) ↦ elim (Option-cases (skill_of (get "skill_id" item))) [
    | inl missing ↦ absurd (ground (arith, at, missing, e))
    | inr (skill, got) ↦ elim (Result-cases (category_of (get "category" item))) [
      | inl (x, bad) ↦ absurd (ground (arith, at, got, bad, e))
      | inr (none, bad) ↦ absurd (ground (arith, at, got, bad, e))
      | inr (some category, good) ↦
          let same : category ≡ c.candidate_category = ground (arith, at, got, good, e) in
          subst (λ z. Listed z (names_of catalogue)) same
            (category_of-Listed (get "category" item) category good)
    ]
  ]
]
candidate_of-Listed py _ c e = absurd (cc)
