-- ===== src/Decision/Market/Offered.antt =====
-- proofops/decision/market.py: what a row that is offered for hire stands on.
use mathlib.Core.Path.{subst}
use safehire_proofops_bnb.Prelude.{
  ℕ, ◌+◌, ◌≤◌, String, ◌≡◌, refl, ap, inl, inr, Bool, true, false, Option, none, some, List, [],
  ◌∷◌, arith, All,
}
use safehire_proofops_bnb.Prelude.Members.{Listed}
use safehire_proofops_bnb.Prelude.Raising.{ok, bind-ok, ok_inj}
use safehire_proofops_bnb.Domain.Canonical.{Json, Fields, bool}
use safehire_proofops_bnb.LiveHire.Chain.{get}
use safehire_proofops_bnb.Decision.Market.Catalogue.{review_in, reviews}
use safehire_proofops_bnb.Decision.Market.{
  Python, freshness, is_fresh, is_true, has_value, has_scope, is_registration, is_callable, Listing,
  listing_of, reasons,
}
use safehire_proofops_bnb.Decision.Market.Ranking.{sort_rows}
use safehire_proofops_bnb.Decision.Market.Projection.{rows_from, Market, agents_of, project_market}
use safehire_proofops_bnb.Decision.Market.Rows.{sort_rows-All}
use safehire_proofops_bnb.Decision.Market.Accounts.{rows_from-All}

-- What is true of the row of every candidate is true of every listing.
pub project_market-All :
    (py : Python) (raw : Fields) (now : ℕ) (m : Market) (P : Listing → Type 0)
    → ((item : Fields) (token : ℕ) (skill category : String)
        → P (listing_of py raw now item token skill category))
    → project_market py raw now ≡ ok m
    → All P m.listings
unfolding project_market
project_market-All py raw now m P f e =
    let (items, at, e1) = bind-ok (agents_of raw) _ m e in
    let (found, loop, e2) = bind-ok (rows_from py raw now items []) _ m e1 in
    let shown : sort_rows found.0 ≡ m.listings = ap (λ m. m.listings) (ok_inj e2) in
    let all =
      rows_from-All py raw now P
        (λ item c at. f c.candidate_item c.candidate_token c.candidate_skill c.candidate_category)
        items [] found.0 found.1 loop in
    subst (All P) shown (sort_rows-All P found.0 all)

-- The source was seen at most a minute before, and at most five seconds ahead.
abbrev pub IsRecent : Python → Fields → ℕ → Type 0
IsRecent py raw now =
    (stamp : ℕ) × (py.stamp_of (get "observed_at" raw) ≡ some stamp)
    × (now ≤ stamp + 60_000_000)
    × (stamp ≤ now + 5_000_000)

freshness-fresh :
    (s : Option ℕ) (now : ℕ)
    → is_fresh (freshness s now 60) ≡ true
    → (stamp : ℕ) × (s ≡ some stamp) × (now ≤ stamp + 60_000_000) × (stamp ≤ now + 5_000_000)
unfolding freshness
freshness-fresh none now e = absurd (cc)
freshness-fresh (some stamp) now e = (stamp, refl, ground (arith, e), ground (arith, e))

-- An offer is of a reviewed skill, seen now, and registered.
abbrev pub IsBacked : Python → Fields → ℕ → Listing → Type 0
IsBacked py raw now r =
    r.hire_available ≡ true
    → IsRecent py raw now
      × (get "endpoint_reachable" raw ≡ some (bool true))
      × (has_value (get "refresh_error" raw) ≡ false)
      × (has_scope (review_in r.token_id r.skill_id reviews) r.category ≡ true)
      × (is_registration r.registration_tx ≡ true)

true_of : (v : Option Json) → is_true v ≡ true → v ≡ some (bool true)
true_of (some (bool true)) e = refl
true_of _ e = absurd (cc)

listing_of-IsBacked :
    (py : Python) (raw : Fields) (now : ℕ) (item : Fields) (token : ℕ) (skill category : String)
    → IsBacked py raw now (listing_of py raw now item token skill category)
unfolding listing_of is_callable
listing_of-IsBacked py raw now item token skill category e = (
  freshness-fresh (py.stamp_of (get "observed_at" raw)) now (ground (arith, e)),
  true_of (get "endpoint_reachable" raw) (ground (arith, e)),
  ground (arith, e),
  ground (arith, e),
  ground (arith, e),
)

reasons-unproven :
    (given : List (Bool × String))
    → Listed "execution_not_demonstrated"
        (reasons given ("paid_outcome_not_replayed" ∷ "execution_not_demonstrated" ∷ []))
unfolding reasons
reasons-unproven [] = inr (inl refl)
reasons-unproven ((true, reason) ∷ rest) = inr (reasons-unproven rest)
reasons-unproven ((false, reason) ∷ rest) = reasons-unproven rest

listing_of-unproven :
    (py : Python) (raw : Fields) (now : ℕ) (item : Fields) (token : ℕ) (skill category : String)
    → Listed "execution_not_demonstrated"
        (listing_of py raw now item token skill category).evidence_gaps
unfolding listing_of
listing_of-unproven py raw now item token skill category = search reasons-unproven

-- Every listing that is offered for hire is of a reviewed token and skill in their reviewed
-- category, has the hash of its registration, and its source answered, without an error of the
-- refresh, at a time that is at most one minute old and five seconds ahead; and every listing,
-- offered or not, says that its execution is not demonstrated.
pub offered-IsBacked :
    (py : Python) (raw : Fields) (now : ℕ) (m : Market)
    → project_market py raw now ≡ ok m
    → All
        (λ r. IsBacked py raw now r × Listed "execution_not_demonstrated" r.evidence_gaps)
        m.listings
offered-IsBacked py raw now m e =
    project_market-All py raw now m
      (λ r. IsBacked py raw now r × Listed "execution_not_demonstrated" r.evidence_gaps)
      (λ item token skill category. (
        listing_of-IsBacked py raw now item token skill category,
        listing_of-unproven py raw now item token skill category,
      ))
      e
