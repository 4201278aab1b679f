-- ===== src/Decision/Market/SnapshotCache.antt =====
-- proofops/decision/market.py: `SnapshotCache`. A time is a reading of its clock; a copy of a value
-- is the value.
use safehire_proofops_bnb.Prelude.{
  ℕ, ◌+◌, String, false, Option, none, some, ltb, str_eq, if◌then◌else◌,
}
use safehire_proofops_bnb.Prelude.Raising.{Raising, ok, err}
use safehire_proofops_bnb.Domain.Canonical.{
  Json, Fields, nil, end, field, null, bool, text, list, dict,
}
use safehire_proofops_bnb.LiveHire.Chain.{get}

-- What the loader does in time: it returns, or raises an exception of the classes that `get`
-- catches (a timeout among them), or another one.
pub data Loaded : Type 0 where
  returned : Json → Loaded
  caught uncaught : String → Loaded

pub record Cache : Type 0 where
  pub value : Option Fields
  -- nothing where it is minus infinity
  pub expires : Option ℕ

abbrev pub empty_cache : Cache
empty_cache = record { value = none; expires = none }

-- The value, where it has not expired.
unfoldable pub unexpired : ℕ → Cache → Option Fields
unexpired now c = elim c.expires [ none ↦ none | some e ↦ if ltb now e then c.value else none ]

-- `fields[key] = v`
unfoldable pub set_field : String → Json → Fields → Fields
set_field key v end = field key v end
set_field key v (field k w fs) =
    if str_eq k key then field k v fs else field k w (set_field key v fs)

-- A dictionary with a list of agents.
unfoldable pub market_shape : Json → Option Fields
market_shape (dict fs) = elim (get "agents" fs) [ some (list xs) ↦ some fs | _ ↦ none ]
market_shape _ = none

-- `self.value or {"agents": [], "observed_at": None}`
unfoldable pub previous : Cache → Fields
previous c = elim c.value [
  | some (field k v fs) ↦ field k v fs
  | _ ↦ field "agents" (list nil) (field "observed_at" null end)
]

unfoldable pub failed_refresh : String → Cache → Fields
unfolding set_field previous
failed_refresh name c =
    set_field "endpoint_reachable" (bool false) (set_field "refresh_error" (text name) (previous c))

-- The value after a load, where its exception is caught.
unfoldable pub refreshed : Loaded → Cache → Raising String Fields
unfolding failed_refresh market_shape
refreshed (uncaught name) c = err name
refreshed (caught name) c = ok (failed_refresh name c)
refreshed (returned v) c = elim (market_shape v) [
  | none ↦ ok (failed_refresh "TypeError" c)
  | some fs ↦ ok fs
]

-- What `get` does once it has the lock, and `after` is the time when the load has ended.
unfoldable pub under_lock : ℕ → ℕ → Loaded → ℕ → Cache → Raising String (Fields × Cache)
unfolding refreshed
under_lock ttl now load after c = elim (unexpired now c) [
  | some v ↦ ok (v, c)
  | none ↦ elim (refreshed load c) [
    | err name ↦ err name
    | ok v ↦ ok (v, record { value = some v; expires = some (after + ttl) })
  ]
]

-- `get`, where no other caller has the lock.
unfoldable pub get_snapshot : ℕ → ℕ → ℕ → Loaded → ℕ → Cache → Raising String (Fields × Cache)
unfolding under_lock unexpired
get_snapshot ttl now locked load after c = elim (unexpired now c) [
  | some v ↦ ok (v, c)
  | none ↦ under_lock ttl locked load after c
]
