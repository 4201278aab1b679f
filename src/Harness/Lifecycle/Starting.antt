-- ===== src/Harness/Lifecycle/Starting.antt =====
-- proofops/harness/registry.py: starting and restarting plugins.
use safehire_proofops_bnb.Prelude.{
  String, true, none, some, List, [], ◌∷◌, ◌++◌, if◌then◌else◌, is_empty,
}
use safehire_proofops_bnb.Prelude.Dict.{lookup}
use safehire_proofops_bnb.Prelude.Raising.{Raising, ok, err}
use safehire_proofops_bnb.Harness.Registry.{
  loaded, started, HarnessError, unknown_plugin, failed_to_start, active_dependants, ordered_ids,
}
use safehire_proofops_bnb.Harness.Lifecycle.{
  Handle, Registry, Plugins, manifests_of, dependants_of, emit, put, stop_plugin, mark_failed,
  stop_all, plugin_loaded, plugin_started, plugin_failed, harness_starting, harness_started,
}

module _ {V : Type 0} (plugins : Plugins V) where
  -- The body of the inner `try` of `start_all`.
  unfoldable pub start_plugin :
      String → Handle → Registry V → Raising HarnessError (Unit {0}) × Registry V
  unfolding emit put
  start_plugin id h r = elim (plugins.instantiate h.manifest) [
    | some e ↦ (err e, r)
    | none ↦
        let h' = record h { has_instance = true } in
        let (why, services) = plugins.load h.manifest r.services in
        elim why [
          | some e ↦ (err e, record (put id h' r) { services = services })
          | none ↦
              let r' = record (emit (plugin_loaded id) (put id (record h' { state = loaded }) r)) {
                services = services;
              } in
              let (why', services') = plugins.start h.manifest services in
              elim why' [
                | some e ↦ (err e, record r' { services = services' })
                | none ↦ (
                  ok tt,
                  emit (plugin_started id) (record (put id (record h' { state = started }) r') {
                    services = services';
                    started_order = r'.started_order ++ (id ∷ []);
                  }),
                )
              ]
        ]
  ]

  unfoldable pub start_each :
      List String → Registry V → Raising HarnessError (Unit {0}) × Registry V
  unfolding start_plugin mark_failed emit
  start_each [] r = (ok tt, r)
  start_each (id ∷ ids) r = elim (lookup id r.handles) [
    | none ↦ (err (unknown_plugin id), r)
    | some h ↦
        let (result, r') = start_plugin id h r in
        elim result [
          | ok _ ↦ start_each ids r'
          | err e ↦
              (err (failed_to_start id), emit (plugin_failed id) (mark_failed plugins id e r'))
        ]
  ]

  -- The plugins in order; on any exception what has started is stopped, and it is raised again.
  unfoldable pub start_all : Registry V → Raising HarnessError (Unit {0}) × Registry V
  unfolding start_each stop_all emit manifests_of
  start_all r =
      let r' = emit harness_starting r in
      elim (ordered_ids (manifests_of r.handles) r.services) [
        | err e ↦ (err e, stop_all plugins r')
        | ok ids ↦
            let (result, r'') = start_each ids r' in
            elim result [
              | err e ↦ (err e, stop_all plugins r'')
              | ok _ ↦ (ok tt, emit harness_started r'')
            ]
      ]

  -- A new instance of a stopped plugin, in the handle as it is now.
  unfoldable pub restarted :
      String → Handle → Registry V → Raising HarnessError (Unit {0}) × Registry V
  unfolding put
  restarted id h0 r =
      let h : Handle = elim (lookup id r.handles) [ none ↦ h0 | some now ↦ now ] in
      elim (plugins.instantiate h.manifest) [
        | some e ↦ (err e, r)
        | none ↦
            let h' = record h { has_instance = true } in
            let (why, services) = plugins.load h.manifest r.services in
            elim why [
              | some e ↦ (err e, record (put id h' r) { services = services })
              | none ↦
                  let r' = record (put id (record h' { state = loaded }) r) {
                    services = services;
                  } in
                  let (why', services') = plugins.start h.manifest services in
                  elim why' [
                    | some e ↦ (err e, record r' { services = services' })
                    | none ↦ (
                      ok tt,
                      record (put id (record h' { state = started }) r') {
                        services = services';
                        started_order = r'.started_order ++ (id ∷ []);
                      },
                    )
                  ]
            ]
      ]

  -- `restart_plugin`: refused while a started plugin depends on it.
  unfoldable pub restart_plugin : String → Registry V → Raising HarnessError (Unit {0}) × Registry V
  unfolding dependants_of stop_plugin restarted
  restart_plugin id r = elim (lookup id r.handles) [
    | none ↦ (err (unknown_plugin id), r)
    | some h ↦
        if is_empty (dependants_of h.manifest.provides r.handles)
        then (let (result, r') = stop_plugin plugins id r in
            elim result [ err e ↦ (err e, r') | ok _ ↦ restarted id h r' ])
        else (err (active_dependants id), r)
  ]
