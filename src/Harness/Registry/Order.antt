-- ===== src/Harness/Registry/Order.antt =====
-- The order of proofops/harness/registry.py: a plugin comes after all that it depends on.
use mathlib.Core.Path.{subst}
use safehire_proofops_bnb.Prelude.{
  ℕ, zero, suc, ◌+◌, String, ◌≡◌, refl, sym, ap, ◌∙◌, ◌≢◌, ◌⊎◌, inl, inr, true, none, some, List,
  [], ◌∷◌, ◌++◌, str_eq, arith, eq_iff, Bool-cases, is_empty, length,
}
use safehire_proofops_bnb.Prelude.Dict.{lookup}
use safehire_proofops_bnb.Prelude.Members.{
  Listed, Listed-append, append-Listed_left, append-Listed_right, append-Listed_last,
}
use safehire_proofops_bnb.Prelude.Raising.{ok}
use safehire_proofops_bnb.Harness.Registry.{
  Deps, sorted, keys, without_deps, release, order_from, order_of,
}
use safehire_proofops_bnb.Harness.Registry.Release.{
  Listed-sorted, Covers, AreFree, some_inj, empty_of, release-Fits,
}

-- Each item comes after all its dependencies, where `done` comes before the list.
abbrev pub Placed : Deps → List String → List String → Type 0
Placed full done [] = Unit
Placed full done (x ∷ xs) =
    ((before : List String)
      → lookup x full ≡ some before
      → (d : String) → Listed d before
      → Listed d done)
    × Placed full (done ++ (x ∷ [])) xs

regroup :
    (d y : String) (done xs : List String)
    → Listed d (done ++ (y ∷ xs))
    → Listed d ((done ++ (y ∷ [])) ++ xs)
regroup d y done xs h = elim (Listed-append d done (y ∷ xs) h) [
  | inl early ↦
      append-Listed_left d (done ++ (y ∷ [])) xs (append-Listed_left d done (y ∷ []) early)
  | inr (inl e) ↦
      append-Listed_left d (done ++ (y ∷ [])) xs
        (subst (λ z. Listed z (done ++ (y ∷ []))) (sym e) (append-Listed_last y done))
  | inr (inr late) ↦ append-Listed_right d (done ++ (y ∷ [])) xs late
]

Placed-append :
    (full : Deps) (done xs : List String) (x : String)
    → Placed full done xs
    → ((before : List String)
        → lookup x full ≡ some before
        → (d : String) → Listed d before
        → Listed d (done ++ xs))
    → Placed full done (xs ++ (x ∷ []))
Placed-append full done [] x p all = (
  (λ before at d need. elim (Listed-append d done [] (all before at d need)) [
    | inl early ↦ early
    | inr none_left ↦ absurd none_left
  ]),
  tt,
)
Placed-append full done (y ∷ xs) x p all = (
  p.0,
  Placed-append full (done ++ (y ∷ [])) xs x p.1
      (λ before at d need. regroup d y done xs (all before at d need)),
)

order_from-Placed :
    (full : Deps) (fuel : ℕ) (deps : Deps) (ready ordered : List String)
    → Covers full deps ordered
    → AreFree deps ready
    → Placed full [] ordered
    → Placed full [] (order_from fuel deps ready ordered).1
unfolding order_from
order_from-Placed full zero deps ready ordered c f p = p
order_from-Placed full (suc fuel) deps [] ordered c f p = p
order_from-Placed full (suc fuel) deps (x ∷ ready) ordered c f p =
    let now = ordered ++ (x ∷ []) in
    let s = release x now (sorted (keys deps)) (deps, ready) in
    let fits =
      release-Fits full x now (append-Listed_last x ordered) now (sorted (keys deps)) (deps, ready)
        (
          (λ k before left a b d need. elim (c k before left a b d need) [
            | inl waits ↦ inl waits
            | inr placed ↦ inr (append-Listed_left d ordered (x ∷ []) placed)
          ]),
          λ k l. f k (inr l),
        ) in
    order_from-Placed full fuel s.0 s.1 now fits.0 fits.1 (
      Placed-append full [] ordered x p (λ before at d need.
        elim (c x before [] at (f x (inl refl)) d need) [
          | inl none_left ↦ absurd none_left
          | inr placed ↦ placed
        ]))

-- No plugin stands twice.
abbrev pub AreDistinct : Deps → Type 0
AreDistinct [] = Unit
AreDistinct ((k, before) ∷ deps) = (lookup k deps ≡ none) × AreDistinct deps

nowhere : (k : String) → ¬ Listed k (without_deps [])
unfolding without_deps
nowhere k l = l

none_not_some : (xs : List String) → none ≢ some xs
none_not_some xs e = cc

pub Listed-without_deps :
    (k j : String) (before : List String) (deps : Deps)
    → Listed k (without_deps ((j, before) ∷ deps))
    → ((k ≡ j) × (is_empty before ≡ true)) ⊎ Listed k (without_deps deps)
unfolding without_deps
Listed-without_deps k j [] deps (inl e) = inl (e, refl)
Listed-without_deps k j [] deps (inr l) = inr l
Listed-without_deps k j (b ∷ before) deps l = inr l

without_deps-free : (deps : Deps) → AreDistinct deps → AreFree deps (without_deps deps)
unfolding lookup
without_deps-free [] h k l = absurd (nowhere k l)
without_deps-free ((j, before) ∷ deps) h k l = elim (Listed-without_deps k j before deps l) [
  | inl (e, none_needed) ↦ rw ((eq_iff j k).1 (sym e)) (ap some (empty_of before none_needed))
  | inr later ↦
      let found = without_deps-free deps h.1 k later in
      elim (Bool-cases (str_eq j k)) [
        | inr miss ↦ rw miss found
        | inl hit ↦
            absurd
              (none_not_some [] (sym h.0 ∙ ap (λ x. lookup x deps) ((eq_iff j k).0 hit) ∙ found))
      ]
]

-- An order that is returned has as many plugins as there are, and each comes after all the plugins
-- that it depends on, where no plugin stands twice among the dependencies.
pub order_of-Placed :
    (deps : Deps) (ordered : List String)
    → AreDistinct deps
    → order_of deps ≡ ok ordered
    → Placed deps [] ordered × (length ordered ≡ length deps)
unfolding order_of
order_of-Placed deps ordered distinct e =
    let result = order_from (length deps + 1) deps (sorted (without_deps deps)) [] in
    let placed =
      order_from-Placed deps (length deps + 1) deps (sorted (without_deps deps)) []
        (λ k before left a b d need. inl (subst (Listed d) (some_inj before left (sym a ∙ b)) need))
        (λ k l. without_deps-free deps distinct k (Listed-sorted k (without_deps deps) l)) tt in
    let same : result.1 ≡ ordered = ground arith in
    (subst (Placed deps []) same placed, ground arith)
