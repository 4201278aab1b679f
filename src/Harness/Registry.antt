-- ===== src/Harness/Registry.antt =====
-- proofops/harness/registry.py and contracts.py: the manifests, and the order in which plugins start.
-- A service is a value of any type `V`.
pub mod Keys
pub mod Order
pub mod Progress
pub mod Release
pub mod Sorting
pub mod Termination
use Prim.Native.String.{compare}
use Prim.Native.Nat.{Ordering}
use safehire_proofops_bnb.Prelude.{
  ℕ, zero, suc, ◌+◌, String, Bool, true, false, not, ◌&&◌, Option, none, some, List, [], ◌∷◌, ◌++◌,
  map, ◌==◌, str_eq, if◌then◌else◌, keep, length, is_empty,
}
use safehire_proofops_bnb.Prelude.Dict.{Dict, lookup, insert}
use safehire_proofops_bnb.Prelude.Members.{member}
use safehire_proofops_bnb.Prelude.Raising.{Raising, ok, err, ◌>>=◌}
use safehire_proofops_bnb.Domain.Canonical.{Fields}

pub data PluginState : Type 0 where
  discovered loaded started stopped failed unloaded : PluginState

pub record Manifest : Type 0 where
  pub plugin_id : String
  pub version : String
  pub entrypoint : String
  pub provides : List String
  pub requires : List String
  pub optional_requires : List String
  pub config : Fields
  pub enabled : Bool
  pub critical : Bool

pub data HarnessError : Type 0 where
  -- `ValueError`
  duplicate_plugin_id : HarnessError
  already_provided : String → HarnessError
  -- `KeyError`
  missing_capability unknown_plugin : String → HarnessError
  -- `PluginDependencyError`
  provided_twice : String → String → String → HarnessError
  requires_missing : String → String → HarnessError
  dependency_cycle : List String → HarnessError
  -- `PluginLifecycleError`
  failed_to_start active_dependants : String → HarnessError
  -- what a plugin's own code raises
  raised : String → HarnessError

-- Code points decide the order of texts.
abbrev str_leb : String → String → Bool
str_leb s t = elim (compare s t) [ Ordering.gt ↦ false | _ ↦ true ]

pub put_sorted : String → List String → List String
put_sorted x [] = x ∷ []
put_sorted x (y ∷ ys) = let rest = put_sorted x ys in if str_leb x y then x ∷ y ∷ ys else y ∷ rest

-- `sorted`
unfoldable pub sorted : List String → List String
unfolding put_sorted
sorted [] = []
sorted (x ∷ xs) = put_sorted x (sorted xs)

unfoldable pub drop_all : String → List String → List String
drop_all x [] = []
drop_all x (y ∷ ys) = let rest = drop_all x ys in if str_eq x y then rest else y ∷ rest

-- `set.add`
unfoldable pub add_once : String → List String → List String
add_once x xs = if member x xs then xs else x ∷ xs

unfoldable pub own_capabilities :
    String → List String → Dict String → Raising HarnessError (Dict String)
own_capabilities id [] owners = ok owners
own_capabilities id (capability ∷ rest) owners = elim (lookup capability owners) [
  | some other ↦ err (provided_twice capability other id)
  | none ↦ own_capabilities id rest (insert capability id owners)
]

-- `capability_owner`, over the enabled manifests
unfoldable pub owners_of : List Manifest → Dict String → Raising HarnessError (Dict String)
unfolding own_capabilities
owners_of [] owners = ok owners
owners_of (m ∷ ms) owners = elim (own_capabilities m.plugin_id m.provides owners) [
  | err e ↦ err e
  | ok more ↦ owners_of ms more
]

module _ {V : Type 0} where
  -- The plugins that must start before one that requires these capabilities.
  unfoldable pub needs :
      String → List String → Dict V → Dict String → Raising HarnessError (List String)
  unfolding add_once
  needs id [] services owners = ok []
  needs id (capability ∷ rest) services owners = elim (lookup capability services) [
    | some _ ↦ needs id rest services owners
    | none ↦ elim (lookup capability owners) [
      | none ↦ err (requires_missing id capability)
      | some owner ↦ elim (needs id rest services owners) [
        | err e ↦ err e
        | ok others ↦ ok (add_once owner others)
      ]
    ]
  ]

  unfoldable pub deps_of :
      List Manifest → Dict V → Dict String → Raising HarnessError (Dict (List String))
  unfolding needs
  deps_of [] services owners = ok []
  deps_of (m ∷ ms) services owners = elim (needs m.plugin_id m.requires services owners) [
    | err e ↦ err e
    | ok before ↦ elim (deps_of ms services owners) [
      | err e ↦ err e
      | ok deps ↦ ok ((m.plugin_id, before) ∷ deps)
    ]
  ]

abbrev pub Deps : Type 0
Deps = Dict (List String)

unfoldable pub keys : Deps → List String
keys [] = []
keys ((k, _) ∷ deps) = k ∷ keys deps

unfoldable pub without_deps : Deps → List String
without_deps [] = []
without_deps ((k, before) ∷ deps) =
    let rest = without_deps deps in if is_empty before then k ∷ rest else rest

-- A round of the inner loop: `current` has started, and `k` waits for it no more.
unfoldable pub release_one : String → List String → String → Deps × List String → Deps × List String
release_one current ordered k (deps, ready) = elim (lookup k deps) [
  | none ↦ (deps, ready)
  | some before ↦
      if member current before
      then (
        insert k (drop_all current before) deps,
        if is_empty (drop_all current before) && (not (member k ordered) && not (member k ready))
            then sorted (ready ++ (k ∷ []))
            else ready,
      )
      else (deps, ready)
]

-- The inner loop, over the plugins in order.
unfoldable pub release :
    String → List String → List String → Deps × List String → Deps × List String
unfolding release_one
release current ordered [] s = s
release current ordered (k ∷ ks) s = release current ordered ks (release_one current ordered k s)

unfoldable pub with_deps : Deps → List String
with_deps [] = []
with_deps ((k, before) ∷ deps) =
    let rest = with_deps deps in if is_empty before then rest else k ∷ rest

-- The outer loop: the dependencies that are left and the order. Each round orders one more plugin;
-- with a unit of fuel more than there are plugins, a run that the fuel cuts off has ordered too many
-- and is refused below.
unfoldable pub order_from : ℕ → Deps → List String → List String → Deps × List String
unfolding release
order_from zero deps ready ordered = (deps, ordered)
order_from (suc fuel) deps [] ordered = (deps, ordered)
order_from (suc fuel) deps (current ∷ ready) ordered =
    let now = ordered ++ (current ∷ []) in
    let (deps', ready') = release current now (sorted (keys deps)) (deps, ready) in
    order_from fuel deps' ready' now

unfoldable pub order_of : Deps → Raising HarnessError (List String)
unfolding order_from with_deps without_deps
order_of deps =
    let (left, ordered) = order_from (length deps + 1) deps (sorted (without_deps deps)) [] in
    if length ordered == length deps then ok ordered else err (dependency_cycle (with_deps left))

unfoldable pub ordered_ids :
    {V : Type 0} → List Manifest → Dict V → Raising HarnessError (List String)
unfolding owners_of deps_of order_of
ordered_ids manifests services =
    let enabled = keep (λ m. m.enabled) manifests in
    elim (owners_of enabled []) [
      | err e ↦ err e
      | ok owners ↦ elim (deps_of enabled services owners) [
        | err e ↦ err e
        | ok deps ↦ order_of deps
      ]
    ]
