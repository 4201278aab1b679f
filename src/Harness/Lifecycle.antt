-- ===== src/Harness/Lifecycle.antt =====
-- proofops/harness/registry.py and contracts.py: the handles, and stopping plugins. What a
-- plugin's own code does is a parameter; an emitted event reaches no code that raises.
pub mod Starting
pub mod Stopping
pub mod Rollback
use safehire_proofops_bnb.Prelude.{
  ℕ, String, Bool, true, false, not, ◌&&◌, Option, none, some, List, [], ◌∷◌, ◌++◌, map, str_eq,
  if◌then◌else◌, keep, is_empty,
}
use safehire_proofops_bnb.Prelude.Dict.{Dict, lookup, insert}
use safehire_proofops_bnb.Prelude.Members.{member}
use safehire_proofops_bnb.Prelude.Raising.{Raising, ok, err}
use safehire_proofops_bnb.Harness.Registry.{
  Manifest, PluginState, discovered, loaded, started, stopped, failed, unloaded, HarnessError,
  already_provided, duplicate_plugin_id, missing_capability, unknown_plugin, failed_to_start,
  active_dependants, raised, ordered_ids,
}

pub record Handle : Type 0 where
  pub manifest : Manifest
  pub has_instance : Bool
  pub state : PluginState
  pub error : Option HarnessError

pub data Event : Type 0 where
  harness_starting harness_started harness_stopped : Event
  plugin_loaded plugin_started plugin_failed plugin_stopped plugin_unloaded : String → Event

pub record Registry (V : Type 0) : Type 0 where
  pub handles : Dict Handle
  pub services : Dict V
  pub started_order : List String
  pub events : List Event

-- A plugin's code: what it raises, if anything, and the services that it leaves.
abbrev pub Hook : Type 0 → Type 0
Hook V = Manifest → Dict V → Option HarnessError × Dict V

pub record Plugins (V : Type 0) : Type 0 where
  pub instantiate : Manifest → Option HarnessError
  pub load : Hook V
  pub start : Hook V
  pub stop : Hook V
  pub unload : Hook V

-- `list.remove`
unfoldable pub drop_first : String → List String → List String
drop_first x [] = []
drop_first x (y ∷ ys) = let rest = drop_first x ys in if str_eq x y then ys else y ∷ rest

unfoldable pub reversed : List String → List String
reversed [] = []
reversed (x ∷ xs) = reversed xs ++ (x ∷ [])

unfoldable pub manifests_of : Dict Handle → List Manifest
manifests_of [] = []
manifests_of ((_, h) ∷ handles) = h.manifest ∷ manifests_of handles

abbrev pub is_started : PluginState → Bool
is_started started = true
is_started _ = false

unfoldable pub handles_of : List Manifest → Dict Handle
handles_of [] = []
handles_of (m ∷ ms) =
    (m.plugin_id, record { manifest = m; has_instance = false; state = discovered; error = none })
    ∷ handles_of ms

unfoldable pub all_differ : List String → Bool
all_differ [] = true
all_differ (x ∷ xs) = let rest = all_differ xs in not (member x xs) && rest

-- `PluginRegistry(manifests, services)`
pub create : {V : Type 0} → List Manifest → Dict V → Raising HarnessError (Registry V)
unfolding handles_of all_differ
create manifests services =
    if all_differ (map (λ m. m.plugin_id) manifests)
    then ok (record {
      handles = handles_of manifests;
      services = services;
      started_order = [];
      events = [];
    })
    else err duplicate_plugin_id

-- The started plugins that require a capability of the list.
unfoldable pub dependants_of : List String → Dict Handle → List String
dependants_of provides [] = []
dependants_of provides ((_, h) ∷ handles) =
    let rest = dependants_of provides handles in
    if is_started h.state && not (is_empty (keep (λ c. member c h.manifest.requires) provides))
    then h.manifest.plugin_id ∷ rest
    else rest

module _ {V : Type 0} where
  -- `PluginContext.provide` and `resolve`
  pub provide : String → V → Bool → Dict V → Raising HarnessError (Dict V)
  provide capability service replace services = elim (lookup capability services) [
    | some _ ↦
        if replace
        then ok (insert capability service services)
        else err (already_provided capability)
    | none ↦ ok (insert capability service services)
  ]

  pub resolve : String → Dict V → Raising HarnessError V
  resolve capability services = elim (lookup capability services) [
    | none ↦ err (missing_capability capability)
    | some v ↦ ok v
  ]

  unfoldable pub emit : Event → Registry V → Registry V
  emit e r = record r { events = e ∷ r.events }

  unfoldable pub put : String → Handle → Registry V → Registry V
  put id h r = record r { handles = insert id h r.handles }

  -- `services.pop(capability, None)` for each capability
  unfoldable pub pop_all : List String → Dict V → Dict V
  pop_all gone [] = []
  pop_all gone ((k, v) ∷ services) =
      let rest = pop_all gone services in if member k gone then rest else (k, v) ∷ rest

module _ {V : Type 0} (plugins : Plugins V) where
  -- What `stop_plugin` does once the plugin's code has stopped and unloaded.
  unfoldable pub forget : String → Handle → Dict V → Registry V → Registry V
  unfolding emit put pop_all drop_first
  forget id h services r =
      let r' =
        emit (plugin_unloaded id)
          (put id (record h { state = unloaded }) (emit (plugin_stopped id) r)) in
      record r' {
        started_order = drop_first id r'.started_order;
        services = pop_all h.manifest.provides services;
      }

  unfoldable pub stop_plugin : String → Registry V → Raising HarnessError (Unit {0}) × Registry V
  unfolding forget emit put
  stop_plugin id r = elim (lookup id r.handles) [
    | none ↦ (err (unknown_plugin id), r)
    | some h ↦ elim h.has_instance [
      | false ↦ (ok tt, r)
      | true ↦ elim h.state [
        | started ↦
            let (why, services) = plugins.stop h.manifest r.services in
            elim why [
              | some e ↦ (err e, record r { services = services })
              | none ↦
                  let (why', services') = plugins.unload h.manifest services in
                  elim why' [
                    | some e ↦ (
                      err e,
                      record (emit (plugin_stopped id) (put id (record h { state = stopped }) r)) {
                        services = services';
                      },
                    )
                    | none ↦ (ok tt, forget id h services' r)
                  ]
            ]
        | _ ↦ (ok tt, r)
      ]
    ]
  ]

  -- `handle.state = FAILED; handle.error = …`
  unfoldable pub mark_failed : String → HarnessError → Registry V → Registry V
  unfolding put
  mark_failed id e r = elim (lookup id r.handles) [
    | none ↦ r
    | some h ↦ put id (record h { state = failed; error = some e }) r
  ]

  unfoldable pub stop_one : String → Registry V → Registry V
  unfolding stop_plugin mark_failed
  stop_one id r =
      let (result, r') = stop_plugin id r in elim result [ ok _ ↦ r' | err e ↦ mark_failed id e r' ]

  unfoldable pub stop_each : List String → Registry V → Registry V
  unfolding stop_one
  stop_each [] r = r
  stop_each (id ∷ ids) r = stop_each ids (stop_one id r)

  unfoldable pub stop_all : Registry V → Registry V
  unfolding stop_each reversed emit
  stop_all r = emit harness_stopped (stop_each (reversed r.started_order) r)
