-- ===== src/Harness/Lifecycle/Rollback.antt =====
-- What the rollback of `start_all` in proofops/harness/registry.py leaves.
use mathlib.Core.Path.{subst}
use safehire_proofops_bnb.Prelude.{
  String, ◌≡◌, refl, sym, ap, ◌∙◌, ◌≢◌, inl, inr, true, some, List, [], ◌∷◌, ◌++◌, str_eq,
  if◌then◌else◌, arith, eq_iff, Bool-cases, Option-cases,
}
use safehire_proofops_bnb.Prelude.Dict.{lookup, insert, lookup-insert, insert-insert}
use safehire_proofops_bnb.Prelude.Members.{Listed}
use safehire_proofops_bnb.Prelude.Raising.{err, Result-cases}
use safehire_proofops_bnb.Harness.Registry.{ordered_ids, started, loaded, failed, HarnessError}
use safehire_proofops_bnb.Harness.Lifecycle.{
  harness_starting, manifests_of, Handle, Registry, Plugins, emit, put, mark_failed, stop_all,
}
use safehire_proofops_bnb.Harness.Lifecycle.Starting.{start_plugin, start_each, start_all}
use safehire_proofops_bnb.Harness.Lifecycle.Stopping.{
  some_inj, InOrder, early, last, stop_all_none_started,
}

module _ {V : Type 0} (plugins : Plugins V) where
  -- Writing one handle keeps the order, if the handle has an instance and stands in it when started.
  InOrder-put :
      (id : String) (h' : Handle) (r r' : Registry V)
      → r'.handles ≡ insert id h' r.handles
      → ((j : String) → Listed j r.started_order → Listed j r'.started_order)
      → (h'.state ≡ started → Listed id r'.started_order × (h'.has_instance ≡ true))
      → InOrder r
      → InOrder r'
  InOrder-put id h' r r' written more own k = record {
    listed = λ j h at live. elim (Bool-cases (str_eq id j)) [
      | inl hit ↦
          let same : h' ≡ h = some_inj h' h (
            sym (
              ap (lookup j) written
              ∙ lookup-insert id j h' r.handles
              ∙ ap (λ b. if b then some h' else lookup j r.handles) hit)
            ∙ at) in
          let (place, has) = own (ap (λ x. x.state) same ∙ live) in
          (
            subst (λ x. Listed x r'.started_order) ((eq_iff id j).0 hit) place,
            ap (λ x. x.has_instance) (sym same) ∙ has,
          )
      | inr miss ↦
          let old =
            sym (
              ap (lookup j) written
              ∙ lookup-insert id j h' r.handles
              ∙ ap (λ b. if b then some h' else lookup j r.handles) miss)
            ∙ at in
          let (place, has) = k.listed j h old live in (more j place, has)
    ];
  }

  InOrder-same :
      (r r' : Registry V)
      → r'.handles ≡ r.handles
      → r'.started_order ≡ r.started_order
      → InOrder r
      → InOrder r'
  InOrder-same r r' same order k = record {
    listed = λ j h at live.
        let (place, has) = k.listed j h (sym (ap (lookup j) same) ∙ at) live in
        (subst (Listed j) (sym order) place, has);
  }

  mark_failed-InOrder :
      (id : String) (e : HarnessError) (r : Registry V)
      → InOrder r
      → InOrder (mark_failed plugins id e r)
  unfolding mark_failed put
  mark_failed-InOrder id e r k = elim (Option-cases (lookup id r.handles)) [
    | inl gone ↦ InOrder-same r _ (ground (arith, gone)) (ground (arith, gone)) k
    | inr (h, at) ↦
        InOrder-put id (record h { state = failed; error = some e }) r _ (ground (arith, at))
          (λ j l. subst (Listed j) (sym (ground (arith, at))) l) (λ x. absurd (cc)) k
  ]

  start_plugin-InOrder :
      (id : String) (h : Handle) (r : Registry V)
      → lookup id r.handles ≡ some h
      → InOrder r
      → InOrder (start_plugin plugins id h r).1
  unfolding start_plugin emit put
  start_plugin-InOrder id h r at k = elim (Option-cases (plugins.instantiate h.manifest)) [
    | inr (e, broke) ↦ InOrder-same r _ (ground (arith, broke)) (ground (arith, broke)) k
    | inl made ↦ elim (Option-cases (plugins.load h.manifest r.services).0) [
      | inr (e, broke) ↦
          InOrder-put id (record h { has_instance = true }) r _ (ground (arith, made, broke))
            (λ j l. subst (Listed j) (sym (ground (arith, made, broke))) l)
            (λ live. (
              subst (Listed id) (sym (ground (arith, made, broke))) (k.listed id h at live).0,
              refl,
            ))
            k
      | inl in_ ↦
          elim (Option-cases (plugins.start h.manifest (plugins.load h.manifest r.services).1).0) [
            | inr (e, broke) ↦
                InOrder-put id (record h { has_instance = true; state = loaded }) r _
                  (ground (arith, made, in_, broke))
                  (λ j l. subst (Listed j) (sym (ground (arith, made, in_, broke))) l)
                  (λ x. absurd (cc)) k
            | inl done ↦
                let up = record h { has_instance = true; state = started } in
                let twice =
                  insert-insert id up (record h { has_instance = true; state = loaded })
                    r.handles in
                let order : (start_plugin plugins id h r).1.started_order
                    ≡ r.started_order ++ (id ∷ []) =
                  ground (arith, made, in_, done) in
                InOrder-put id up r _ (ground (arith, made, in_, done, twice))
                  (λ j l. subst (Listed j) (sym order) (early plugins j r.started_order id l))
                  (λ live.
                    (subst (Listed id) (sym order) (last plugins id id r.started_order refl), refl))
                  k
          ]
    ]
  ]

  start_each-InOrder :
      (ids : List String) (r : Registry V) → InOrder r → InOrder (start_each plugins ids r).1
  unfolding start_each emit
  start_each-InOrder [] r k = k
  start_each-InOrder (id ∷ ids) r k = elim (Option-cases (lookup id r.handles)) [
    | inl gone ↦ InOrder-same r _ (ground (arith, gone)) (ground (arith, gone)) k
    | inr (h, at) ↦
        let r' = (start_plugin plugins id h r).1 in
        let k' = start_plugin-InOrder id h r at k in
        elim (Result-cases (start_plugin plugins id h r).0) [
          | inr (u, went) ↦
              InOrder-same (start_each plugins ids r').1 _ (ground (arith, at, went))
                (ground (arith, at, went)) (start_each-InOrder ids r' k')
          | inl (e, broke) ↦
              InOrder-same (mark_failed plugins id e r') _ (ground (arith, at, broke))
                (ground (arith, at, broke)) (mark_failed-InOrder id e r' k')
        ]
  ]

  -- A start that raises leaves no plugin started, whatever the plugins' own code does, where before
  -- it every started plugin has an instance and stands in the order of starts.
  pub start_all_rolls_back :
      (r r' : Registry V) (e : HarnessError)
      → InOrder r
      → start_all plugins r ≡ (err e, r')
      → (id : String) (h : Handle) → lookup id r'.handles ≡ some h
      → h.state ≢ started
  unfolding start_all emit
  start_all_rolls_back r r' e k raised_e id h at =
      elim (Result-cases (ordered_ids (manifests_of r.handles) r.services)) [
        | inl (why, no_order) ↦
            let r1 = emit harness_starting r in
            let last_r : r' ≡ stop_all plugins r1 = ground (arith, no_order, raised_e) in
            stop_all_none_started plugins r1 (InOrder-same r r1 refl refl k) id h
              (ap (λ x. lookup id x.handles) (sym last_r) ∙ at)
        | inr (ids, order) ↦
            let r1 = emit harness_starting r in
            let r2 = (start_each plugins ids r1).1 in
            elim (Result-cases (start_each plugins ids r1).0) [
              | inr (u, went) ↦ absurd (ground (arith, order, went, raised_e))
              | inl (why, broke) ↦
                  let last_r : r' ≡ stop_all plugins r2 = ground (arith, order, broke, raised_e) in
                  stop_all_none_started plugins r2
                    (start_each-InOrder ids r1 (InOrder-same r r1 refl refl k)) id h
                    (ap (λ x. lookup id x.handles) (sym last_r) ∙ at)
            ]
      ]
