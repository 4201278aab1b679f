-- ===== src/Decision/Market/Refresh.antt =====
-- proofops/decision/market.py: what the cache gives after a refresh.
use package.text.Mathlib.TextPositions.{eq_refl}
use safehire_proofops_bnb.Prelude.{
  ℕ, ◌+◌, ◌<◌, ◌≤◌, String, ◌≡◌, refl, ◌∙◌, inl, inr, false, none, some, str_eq, arith, eq_iff,
  Option-cases, All,
}
use safehire_proofops_bnb.Prelude.Raising.{ok}
use safehire_proofops_bnb.Domain.Canonical.{Json, Fields, end, field, bool, text}
use safehire_proofops_bnb.LiveHire.Chain.{get}
use safehire_proofops_bnb.Decision.Market.{Python, listing_of, is_callable}
use safehire_proofops_bnb.Decision.Market.Projection.{Market, project_market}
use safehire_proofops_bnb.Decision.Market.Offered.{project_market-All}
use safehire_proofops_bnb.Decision.Market.SnapshotCache.{
  Cache, Loaded, unexpired, set_field, market_shape, previous, failed_refresh, refreshed,
  under_lock, get_snapshot, returned, caught, uncaught,
}

get-set_field : (k : String) (v : Json) (fs : Fields) → get k (set_field k v fs) ≡ some v
unfolding get set_field
get-set_field k v end = ground (arith, eq_refl k)
get-set_field k v (field j w fs) = ground (arith, eq_refl k, get-set_field k v fs)

get-set_other :
    (j k : String) (v : Json) (fs : Fields)
    → str_eq k j ≡ false
    → get j (set_field k v fs) ≡ get j fs
unfolding get set_field
get-set_other j k v end other = ground (arith, other)
get-set_other j k v (field i w fs) other =
    ground (arith, eq_iff i k, eq_iff i j, eq_iff k j, other, get-set_other j k v fs other)

-- The load did not return a market.
abbrev pub IsFailed : Loaded → Type 0
IsFailed (returned v) = market_shape v ≡ none
IsFailed (caught name) = Unit
IsFailed (uncaught name) = ⊥

-- The previous value, marked as out of reach.
abbrev pub IsKept : Cache → Fields → Type 0
IsKept c v =
    (get "agents" v ≡ get "agents" (previous c))
    × (get "observed_at" v ≡ get "observed_at" (previous c))
    × (get "endpoint_reachable" v ≡ some (bool false))

failed_refresh-IsKept : (name : String) (c : Cache) → IsKept c (failed_refresh name c)
unfolding failed_refresh
failed_refresh-IsKept name c =
    let marked = set_field "refresh_error" (text name) (previous c) in
    (
      get-set_other "agents" "endpoint_reachable" (bool false) marked refl
          ∙ get-set_other "agents" "refresh_error" (text name) (previous c) refl,
      get-set_other "observed_at" "endpoint_reachable" (bool false) marked refl
          ∙ get-set_other "observed_at" "refresh_error" (text name) (previous c) refl,
      get-set_field "endpoint_reachable" (bool false) marked,
    )

refreshed-IsKept :
    (load : Loaded) (c : Cache)
    → IsFailed load
    → (v : Fields) × (refreshed load c ≡ ok v) × IsKept c v
unfolding refreshed
refreshed-IsKept (uncaught name) c h = absurd h
refreshed-IsKept (caught name) c h = (failed_refresh name c, refl, failed_refresh-IsKept name c)
refreshed-IsKept (returned v) c h =
    (failed_refresh "TypeError" c, ground (arith, h), failed_refresh-IsKept "TypeError" c)

is_callable-unreachable :
    (py : Python) (v : Fields) (at : ℕ) (item : Fields)
    → get "endpoint_reachable" v ≡ some (bool false)
    → is_callable py v at item ≡ false
unfolding is_callable
is_callable-unreachable py v at item gone = ground (arith, gone)

unreachable :
    (py : Python) (v : Fields) (at : ℕ) (m : Market)
    → get "endpoint_reachable" v ≡ some (bool false)
    → project_market py v at ≡ ok m
    → All (λ r. (r.callable ≡ false) × (r.hire_available ≡ false)) m.listings
unfolding listing_of
unreachable py v at m gone e =
    project_market-All py v at m (λ r. (r.callable ≡ false) × (r.hire_available ≡ false))
      (λ item token skill category.
        let idle = is_callable-unreachable py v at item gone in (idle, ground (arith, idle)))
      e

unexpired-later :
    (now later : ℕ) (c : Cache) → now ≤ later → unexpired now c ≡ none → unexpired later c ≡ none
unfolding unexpired
unexpired-later now later c waits e = elim (Option-cases c.expires) [
  | inl never ↦ ground (arith, never)
  | inr (time, at) ↦ elim (Option-cases c.value) [
    | inl nothing ↦ ground (arith, at, nothing)
    | inr (v, has) ↦ ground (arith, at, has, waits, e)
  ]
]

-- A refresh that fails, where the value has expired, is never a new observation: the cache returns
-- the agents and the time of the value it had, it keeps what it returned for the time to live, and
-- no projection of it, at any time, calls a listing callable or offers it for hire.
pub failed_refresh_offers_nothing :
    (ttl now locked after : ℕ) (load : Loaded) (c : Cache)
    → now ≤ locked
    → unexpired now c ≡ none
    → IsFailed load
    → (v : Fields) × (c' : Cache) × (get_snapshot ttl now locked load after c ≡ ok (v, c'))
      × IsKept c v
      × ((later : ℕ) → later < after + ttl → unexpired later c' ≡ some v)
      × ((py : Python) (at : ℕ) (m : Market)
          → project_market py v at ≡ ok m
          → All (λ r. (r.callable ≡ false) × (r.hire_available ≡ false)) m.listings)
unfolding get_snapshot under_lock unexpired
failed_refresh_offers_nothing ttl now locked after load c waits stale_now failing =
    let (v, loaded, kept) = refreshed-IsKept load c failing in
    (
      v,
      record { value = some v; expires = some (after + ttl) },
      ground (arith, stale_now, unexpired-later now locked c waits stale_now, loaded),
      kept,
      (λ later early. ground (arith, early)),
      λ py at m e. unreachable py v at m kept.2 e,
    )
