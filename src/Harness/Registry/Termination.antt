-- ===== src/Harness/Registry/Termination.antt =====
-- The order of proofops/harness/registry.py is found wherever there is one: the fuel is enough, and
-- the plugins that no cycle holds back are all ordered.
use mathlib.Core.Path.{subst}
use safehire_proofops_bnb.Prelude.{
  ℕ, zero, suc, ◌+◌, ◌<◌, String, ◌≡◌, refl, sym, ◌≢◌, ◌↔◌, ◌⊎◌, inl, inr, some, List, [], ◌∷◌,
  ◌++◌, arith, length, length-append,
}
use safehire_proofops_bnb.Prelude.Dict.{lookup}
use safehire_proofops_bnb.Prelude.Members.{
  Listed, AreApart, Listed-append, append-Listed_left, append-Listed_last,
}
use safehire_proofops_bnb.Prelude.Raising.{ok}
use safehire_proofops_bnb.Harness.Registry.{
  Deps, sorted, keys, without_deps, release, order_from, order_of,
}
use safehire_proofops_bnb.Harness.Registry.Release.{Listed-sorted}
use safehire_proofops_bnb.Harness.Registry.Order.{AreDistinct}
use safehire_proofops_bnb.Harness.Registry.Sorting.{sorted-Listed, sorted-AreApart, append-AreApart}
use safehire_proofops_bnb.Harness.Registry.Progress.{Progresses, release-Progresses, lookup-Listed}
use safehire_proofops_bnb.Harness.Registry.Keys.{
  Listed-lookup, pigeonhole, keys-AreApart, length-keys, without_deps-keys, without_deps-AreApart,
  free-without_deps,
}

module _ (full : Deps) where
  -- The state between two rounds of the outer loop.
  abbrev Runs : Deps → List String → List String → Type 0
  Runs deps ready ordered =
      (keys deps ≡ keys full)
      × ((k : String) (left : List String)
          → lookup k deps ≡ some left
          → (d : String) → Listed d left
          → ((before : List String) × (lookup k full ≡ some before) × Listed d before)
            × ¬ Listed d ordered)
      × ((k : String) → lookup k deps ≡ some [] → Listed k ready ⊎ Listed k ordered)
      × AreApart ready
      × AreApart ordered
      × ((j : String) → Listed j ready → Listed j (keys full) × ¬ Listed j ordered)
      × ((j : String) → Listed j ordered → Listed j (keys full))

  not_last :
      (j x : String) (ordered : List String)
      → ¬ Listed j ordered
      → j ≢ x
      → ¬ Listed j (ordered ++ (x ∷ []))
  not_last j x ordered out other l = elim (Listed-append j ordered (x ∷ []) l) [
    | inl early ↦ out early
    | inr (inl e) ↦ other e
    | inr (inr none_left) ↦ none_left
  ]

  enter_round :
      (deps : Deps) (x : String) (ready ordered : List String)
      → Runs deps (x ∷ ready) ordered
      → Progresses full x ordered (ordered ++ (x ∷ [])) (sorted (keys deps)) (deps, ready)
  enter_round deps x ready ordered (same, needed, free, apart, once, alive, known) = (
    same,
    needed,
    (λ k left at. inl (sorted-Listed k (keys deps) (lookup-Listed k left deps at))),
    (λ k at. elim (free k at) [
      | inl (inl e) ↦
          inr (subst (λ z. Listed z (ordered ++ (x ∷ []))) (sym e) (append-Listed_last x ordered))
      | inl (inr waiting) ↦ inl waiting
      | inr done ↦ inr (append-Listed_left k ordered (x ∷ []) done)
    ]),
    apart.1,
    (λ j l. (
      (alive j (inr l)).0,
      not_last j x ordered (alive j (inr l)).1 (λ e. apart.0 (subst (λ z. Listed z ready) e l)),
    )),
  )

  leave_round :
      (deps deps' : Deps) (x : String) (ready ready' ordered : List String)
      → Runs deps (x ∷ ready) ordered
      → Progresses full x ordered (ordered ++ (x ∷ [])) [] (deps', ready')
      → Runs deps' ready' (ordered ++ (x ∷ []))
  leave_round deps deps' x ready ready' ordered h (same, needed, waits, free, apart, alive) =
      let now = ordered ++ (x ∷ []) in
      (
        same,
        (λ k left at d need. (
          (needed k left at d need).0,
          not_last d x ordered (needed k left at d need).1 (λ e. elim (waits k left at) [
            | inl none_left ↦ none_left
            | inr gone ↦ gone (subst (λ z. Listed z left) e need)
          ]),
        )),
        free,
        apart,
        append-AreApart ordered x h.4 (h.5 x (inl refl)).1,
        alive,
        (λ j l. elim (Listed-append j ordered (x ∷ []) l) [
          | inl early ↦ h.6 j early
          | inr (inl e) ↦ subst (λ z. Listed z (keys full)) (sym e) (h.5 x (inl refl)).0
          | inr (inr none_left) ↦ absurd none_left
        ]),
      )

  -- The fuel is enough: the loop ends with nothing ready.
  order_from-ends :
      (fuel : ℕ) (deps : Deps) (ready ordered : List String)
      → Runs deps ready ordered
      → length ordered + fuel ≡ suc (length (keys full))
      → Runs (order_from fuel deps ready ordered).0 [] (order_from fuel deps ready ordered).1
  unfolding order_from
  order_from-ends zero deps ready ordered h e =
      absurd (omega (arith, e, pigeonhole ordered (keys full) h.4 h.6))
  order_from-ends (suc fuel) deps [] ordered h e = h
  order_from-ends (suc fuel) deps (x ∷ ready) ordered h e =
      let now = ordered ++ (x ∷ []) in
      let s = release x now (sorted (keys deps)) (deps, ready) in
      order_from-ends fuel s.0 s.1 now
        (leave_round deps s.0 x ready s.1 ordered h (
          release-Progresses full x ordered now (sorted (keys deps)) (deps, ready)
            (enter_round deps x ready ordered h)))
        (omega (arith, e, length-append ordered (x ∷ [])))

  -- A plugin that waits only for what is ordered is ordered, where nothing is ready.
  settled :
      (deps : Deps) (ordered : List String)
      → Runs deps [] ordered
      → (k : String) (left : List String) → lookup k deps ≡ some left
      → ((d : String) → Listed d left → Listed d ordered)
      → Listed k ordered
  settled deps ordered h k [] at all = elim (h.2 k at) [
    | inl none_left ↦ absurd none_left
    | inr done ↦ done
  ]
  settled deps ordered h k (d ∷ left) at all =
      absurd ((h.1 k (d ∷ left) at d (inl refl)).1 (all d (inl refl)))

  -- Where each plugin needs only plugins of a lower rank, nothing ready means that all are ordered.
  all_ordered :
      (rank : String → ℕ) (deps : Deps) (ordered : List String)
      → ((k : String) (before : List String)
          → lookup k full ≡ some before
          → (d : String) → Listed d before
          → Listed d (keys full) × (rank d < rank k))
      → Runs deps [] ordered
      → (n : ℕ) (k : String) → rank k < n
      → Listed k (keys full)
      → Listed k ordered
  all_ordered rank deps ordered ranked h zero k below l = absurd (omega (arith, below))
  all_ordered rank deps ordered ranked h (suc n) k below l =
      let (left, at) = Listed-lookup k deps (subst (Listed k) (sym h.0) l) in
      settled deps ordered h k left at (λ d need.
        let ((before, has, needs_it), out) = h.1 k left at d need in
        let (known, lower_rank) = ranked k before has d needs_it in
        all_ordered rank deps ordered ranked h n d (omega (arith, below, lower_rank)) known)

starts : (deps : Deps) → AreApart (keys deps) → Runs deps deps (sorted (without_deps deps)) []
starts deps apart = (
  refl,
  (λ k left at d need. ((left, at, need), λ l. l)),
  (λ k at. inl (sorted-Listed k (without_deps deps) (free-without_deps k deps at))),
  sorted-AreApart (without_deps deps) (without_deps-AreApart deps apart),
  tt,
  (λ j l. (without_deps-keys j deps (Listed-sorted j (without_deps deps) l), λ x. x)),
  λ j l. absurd l,
)

-- An order is found, with the fuel that the code's loop is given here, wherever there is one: where
-- no plugin stands twice among the dependencies, each is itself one of the plugins, and a rank
-- grows from each to those that need it. Every plugin then stands in it exactly once.
pub order_of-found :
    (deps : Deps) (rank : String → ℕ)
    → AreDistinct deps
    → ((k : String) (before : List String)
        → lookup k deps ≡ some before
        → (d : String) → Listed d before
        → Listed d (keys deps) × (rank d < rank k))
    → (ordered : List String) × (order_of deps ≡ ok ordered)
      × AreApart ordered
      × ((k : String) → Listed k ordered ↔ Listed k (keys deps))
unfolding order_of
order_of-found deps rank distinct ranked =
    let apart = keys-AreApart deps distinct in
    let ends =
      order_from-ends deps (length deps + 1) deps (sorted (without_deps deps)) []
        (starts deps apart) (omega (arith, length-keys deps)) in
    let result = order_from (length deps + 1) deps (sorted (without_deps deps)) [] in
    let all : (k : String) → Listed k (keys deps) → Listed k result.1 =
      λ k l. all_ordered deps rank result.0 result.1 ranked ends (suc (rank k)) k (omega arith) l in
    let fewer = pigeonhole result.1 (keys deps) ends.4 ends.6 in
    let more = pigeonhole (keys deps) result.1 apart all in
    let same : length result.1 ≡ length deps = omega (arith, fewer, more, length-keys deps) in
    (result.1, ground (arith, same), ends.4, λ k. (ends.6 k, all k))
