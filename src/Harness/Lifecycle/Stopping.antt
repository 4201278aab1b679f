-- ===== src/Harness/Lifecycle/Stopping.antt =====
-- What stopping all plugins in proofops/harness/registry.py leaves.
use mathlib.Core.Path.{subst}
use mathlib.Core.Bool.{false≢true}
use safehire_proofops_bnb.Prelude.{
  String, ◌≡◌, sym, ap, ◌∙◌, ◌≢◌, inl, inr, true, false, ◌&&◌, none, some, List, [], ◌∷◌, ◌++◌,
  str_eq, if◌then◌else◌, arith, eq_iff, Bool-cases, Option-cases,
}
use safehire_proofops_bnb.Prelude.Dict.{
  lookup, insert, lookup-insert, lookup-insert_self, insert-insert,
}
use safehire_proofops_bnb.Prelude.Members.{Listed}
use safehire_proofops_bnb.Harness.Registry.{started, failed, unloaded, stopped}
use safehire_proofops_bnb.Harness.Lifecycle.{
  Handle, Registry, Plugins, emit, put, forget, stop_plugin, mark_failed, stop_one, stop_each,
  stop_all, reversed, is_started,
}

none_not_some : (h : Handle) → none ≢ some h
none_not_some h e = cc

pub some_inj : (g h : Handle) → some g ≡ some h → g ≡ h
some_inj g h e = cc

-- Every plugin that is started has an instance and stands in the order of starts.
pub record InOrder {V : Type 0} (r : Registry V) : Type 0 where
  pub listed :
      (id : String) (h : Handle)
      → lookup id r.handles ≡ some h
      → h.state ≡ started
      → Listed id r.started_order × (h.has_instance ≡ true)

module _ {V : Type 0} (plugins : Plugins V) where
  -- A started plugin with an instance is stopped, or fails.
  stop_live :
      (id : String) (r : Registry V) (h : Handle)
      → lookup id r.handles ≡ some h
      → h.has_instance ≡ true
      → h.state ≡ started
      → (h' : Handle) × ((stop_one plugins id r).handles ≡ insert id h' r.handles)
        × (h'.state ≢ started)
  unfolding stop_one stop_plugin mark_failed forget emit put
  stop_live id r h at has live = elim (Option-cases (plugins.stop h.manifest r.services).0) [
    | inr (e, broke) ↦
        (record h { state = failed; error = some e }, ground (arith, at, has, live, broke), λ x. cc)
    | inl fine ↦
        elim (Option-cases (plugins.unload h.manifest (plugins.stop h.manifest r.services).1).0) [
          | inl done ↦
              (record h { state = unloaded }, ground (arith, at, has, live, fine, done), λ x. cc)
          | inr (e, broke) ↦ (
            record h { state = failed; error = some e },
            ground (
              arith,
              at,
              has,
              live,
              fine,
              broke,
              lookup-insert_self id (record h { state = stopped }) r.handles,
              insert-insert id (record h { state = failed; error = some e })
                  (record h { state = stopped }) r.handles,
            ),
            λ x. cc,
          )
        ]
  ]

  -- Any other plugin is left as it is.
  stop_idle :
      (id : String) (r : Registry V) (h : Handle)
      → lookup id r.handles ≡ some h
      → (h.has_instance && is_started h.state) ≡ false
      → (stop_one plugins id r).handles ≡ r.handles
  unfolding stop_one stop_plugin
  stop_idle id r h at idle = ground (arith, at, idle)

  stop_unknown :
      (id : String) (r : Registry V)
      → lookup id r.handles ≡ none
      → (stop_one plugins id r).handles ≡ r.handles
  unfolding stop_one stop_plugin mark_failed
  stop_unknown id r gone = ground (arith, gone)

  -- What is started after a round was so before it, and is not the round's plugin unless that has no
  -- instance.
  Survives : String → String → Registry V → Registry V → Type 0
  Survives id j r r' =
      (h : Handle)
      → lookup j r'.handles ≡ some h
      → h.state ≡ started
      → (lookup j r.handles ≡ some h) × (id ≡ j → h.has_instance ≡ false)

  stop_one-Survives : (id j : String) (r : Registry V) → Survives id j r (stop_one plugins id r)
  unfolding Survives
  stop_one-Survives id j r h at live = elim (Option-cases (lookup id r.handles)) [
    | inl gone ↦
        let back = sym (ap (lookup j) (stop_unknown id r gone)) ∙ at in
        (back, λ e. absurd (none_not_some h (sym gone ∙ ap (λ x. lookup x r.handles) e ∙ back)))
    | inr (h0, at0) ↦ elim (Bool-cases (h0.has_instance && is_started h0.state)) [
      | inr idle ↦
          let back = sym (ap (lookup j) (stop_idle id r h0 at0 idle)) ∙ at in
          (
            back,
            λ e.
                let same = some_inj h0 h (sym at0 ∙ ap (λ x. lookup x r.handles) e ∙ back) in
                let still = subst (λ x. (x.has_instance && is_started x.state) ≡ false) same idle in
                ground (arith, still, live),
          )
      | inl both ↦
          let (h', written, over) = stop_live id r h0 at0 (ground arith) (ground arith) in
          let now = sym (ap (lookup j) written) ∙ at in
          elim (Bool-cases (str_eq id j)) [
            | inl hit ↦
                let same : h' ≡ h = some_inj h' h (
                  sym (
                    lookup-insert id j h' r.handles
                    ∙ ap (λ b. if b then some h' else lookup j r.handles) hit)
                  ∙ now) in
                absurd (over (ap (λ x. x.state) same ∙ live))
            | inr miss ↦ (
              sym (
                    lookup-insert id j h' r.handles
                    ∙ ap (λ b. if b then some h' else lookup j r.handles) miss)
                  ∙ now,
              λ e. absurd (false≢true (sym miss ∙ (eq_iff id j).1 e)),
            )
          ]
    ]
  ]

  stop_each-Survives :
      (ids : List String) (j : String) (r : Registry V) (h : Handle)
      → lookup j (stop_each plugins ids r).handles ≡ some h
      → h.state ≡ started
      → (lookup j r.handles ≡ some h) × (Listed j ids → h.has_instance ≡ false)
  unfolding stop_each Survives
  stop_each-Survives [] j r h at live = (at, λ l. absurd l)
  stop_each-Survives (id ∷ ids) j r h at live =
      let (mid, later) = stop_each-Survives ids j (stop_one plugins id r) h at live in
      let (back, here) = stop_one-Survives id j r h mid live in
      (back, λ l. elim l [ inl e ↦ here (sym e) | inr rest ↦ later rest ])

  pub last : (j x : String) (xs : List String) → j ≡ x → Listed j (xs ++ (x ∷ []))
  last j x [] e = inl e
  last j x (y ∷ ys) e = inr (last j x ys e)

  pub early : (j : String) (xs : List String) (x : String) → Listed j xs → Listed j (xs ++ (x ∷ []))
  early j [] x l = absurd l
  early j (y ∷ ys) x (inl e) = inl e
  early j (y ∷ ys) x (inr l) = inr (early j ys x l)

  Listed-reversed : (j : String) (xs : List String) → Listed j xs → Listed j (reversed xs)
  unfolding reversed
  Listed-reversed j [] l = l
  Listed-reversed j (x ∷ xs) (inl e) = last j x (reversed xs) e
  Listed-reversed j (x ∷ xs) (inr l) = early j (reversed xs) x (Listed-reversed j xs l)

  -- Where every started plugin has an instance and stands in the order of starts, stopping all leaves
  -- none started, whatever the plugins' own code raises.
  pub stop_all_none_started :
      (r : Registry V)
      → InOrder r
      → (id : String) (h : Handle) → lookup id (stop_all plugins r).handles ≡ some h
      → h.state ≢ started
  unfolding stop_all emit
  stop_all_none_started r ordered id h at live =
      let (back, gone) = stop_each-Survives (reversed r.started_order) id r h at live in
      let (place, has) = ordered.listed id h back live in
      false≢true (sym (gone (Listed-reversed id r.started_order place)) ∙ has)
