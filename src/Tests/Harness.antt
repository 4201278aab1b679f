-- ===== src/Tests/Harness.antt =====
-- Runs of proofops/harness: two plugins, one of which needs what the other provides and fails.
use mathlib.Core.Path.{subst}
use safehire_proofops_bnb.Prelude.{
  All, ℕ, ◌<◌, ◌↔◌, inl, inr, str_eq, if◌then◌else◌, Bool-cases, eq_iff, String, ◌≡◌, ◌≢◌, refl,
  true, false, none, some, List, [], ◌∷◌, length, arith, keep,
}
use safehire_proofops_bnb.Prelude.Dict.{lookup, insert}
use safehire_proofops_bnb.Prelude.Members.{member, Listed, AreApart}
use safehire_proofops_bnb.Prelude.Raising.{ok}
use safehire_proofops_bnb.Harness.Registry.Termination.{order_of-found}
use safehire_proofops_bnb.Domain.Canonical.{end}
use safehire_proofops_bnb.Harness.Registry.{
  Manifest, Deps, discovered, started, unloaded, raised, failed_to_start, order_of, ordered_ids,
  sorted, keys, drop_all,
}
use safehire_proofops_bnb.Harness.Registry.Order.{Placed, order_of-Placed}
use safehire_proofops_bnb.Harness.Lifecycle.{Handle, Registry, Plugins}
use safehire_proofops_bnb.Harness.Lifecycle.Starting.{start_all}
use safehire_proofops_bnb.Harness.Lifecycle.Stopping.{InOrder}
use safehire_proofops_bnb.Harness.Lifecycle.Rollback.{start_all_rolls_back}

abbrev deps : Deps
deps = ("b", "a" ∷ []) ∷ ("a", []) ∷ ("c", "b" ∷ "a" ∷ []) ∷ []

abbrev order : List String
order = "a" ∷ "b" ∷ "c" ∷ []

order_of-Placed_example : Placed deps [] order × (length order ≡ length deps)
unfolding order_of lookup sorted keys member insert drop_all
order_of-Placed_example = order_of-Placed deps order (refl, (refl, (refl, tt))) refl

abbrev rank : String → ℕ
rank k = if str_eq "a" k then 0 else if str_eq "b" k then 1 else 2

abbrev IsRanked : String → List String → Type 0
IsRanked k before = (d : String) → Listed d before → Listed d (keys deps) × (rank d < rank k)

every_entry :
    (P : String → List String → Type 0) (some_deps : Deps)
    → All (λ entry. P entry.0 entry.1) some_deps
    → (k : String) (before : List String) → lookup k some_deps ≡ some before
    → P k before
unfolding lookup
every_entry P [] all k before at = absurd (cc)
every_entry P ((j, its) ∷ rest) all k before at = elim (Bool-cases (str_eq j k)) [
  | inl hit ↦
      subst (λ x. P x before) ((eq_iff j k).0 hit) (subst (P j) (ground (arith, hit, at)) all.0)
  | inr miss ↦ every_entry P rest all.1 k before (ground (arith, miss, at))
]

ranked : (k : String) (before : List String) → lookup k deps ≡ some before → IsRanked k before
unfolding keys
ranked = every_entry IsRanked deps (
  (λ d l. elim l [ inl e ↦ rw e (inr (inl refl), omega arith) | inr none_left ↦ absurd none_left ]),
  (
    (λ d l. absurd l),
    (
      (λ d l. elim l [
        | inl e ↦ rw e (inl refl, omega arith)
        | inr (inl e) ↦ rw e (inr (inl refl), omega arith)
        | inr (inr none_left) ↦ absurd none_left
      ]),
      tt,
    ),
  ),
)

order_of-found_example :
    (ordered : List String) × (order_of deps ≡ ok ordered)
    × AreApart ordered
    × ((k : String) → Listed k ordered ↔ Listed k (keys deps))
unfolding lookup
order_of-found_example = order_of-found deps rank (refl, (refl, (refl, tt))) ranked

abbrev manifest : String → List String → List String → Manifest
manifest id provides requires = record {
  plugin_id = id;
  version = "1";
  entrypoint = "m:C";
  provides = provides;
  requires = requires;
  optional_requires = [];
  config = end;
  enabled = true;
  critical = false;
}

abbrev handle : Manifest → Handle
handle m = record { manifest = m; has_instance = false; state = discovered; error = none }

abbrev registry : Registry String
registry = record {
  handles =
      ("b", handle (manifest "b" [] ("x" ∷ []))) ∷ ("a", handle (manifest "a" ("x" ∷ []) [])) ∷ [];
  services = [];
  started_order = [];
  events = [];
}

-- The plugin that provides nothing raises when it starts.
abbrev plugins : Plugins String
plugins = record {
  instantiate = λ m. none;
  load = λ m s. (none, s);
  start = λ m s. elim m.provides [ [] ↦ (some (raised "down"), s) | _ ∷ _ ↦ (none, s) ];
  stop = λ m s. (none, s);
  unload = λ m s. (none, s);
}

fresh : InOrder registry
unfolding lookup
fresh = record { listed = λ id h at live. absurd (ground (arith, at, live)) }

outcome : Registry String
outcome = (start_all plugins registry).1

-- The plugin that had started, after the rollback.
abbrev rolled_back : Handle
rolled_back = record (handle (manifest "a" ("x" ∷ []) [])) { has_instance = true; state = unloaded }

start_all_rolls_back_example : rolled_back.state ≢ started
unfolding outcome start_all ordered_ids keep lookup insert sorted member keys drop_all
start_all_rolls_back_example =
    start_all_rolls_back plugins registry outcome (failed_to_start "b") fresh refl "a" rolled_back
      refl
