-- ===== src/Harness/Registry/Keys.antt =====
-- The plugins of proofops/harness/registry.py as the keys of their dependencies.
use mathlib.Core.Path.{subst}
use safehire_proofops_bnb.Prelude.{
  suc, ◌≤◌, ◌<◌, String, ◌≡◌, refl, ap, ◌∙◌, inl, inr, some, List, [], ◌∷◌, str_eq, arith, eq_iff,
  Bool-cases, length, if◌then◌else◌,
}
use safehire_proofops_bnb.Prelude.Dict.{lookup}
use safehire_proofops_bnb.Prelude.Members.{Listed, AreApart}
use safehire_proofops_bnb.Harness.Registry.{Deps, drop_all, keys, without_deps}
use safehire_proofops_bnb.Harness.Registry.Release.{drop_all-Listed}
use safehire_proofops_bnb.Harness.Registry.Order.{AreDistinct, Listed-without_deps}

length-drop_all_le : (x : String) (ys : List String) → length (drop_all x ys) ≤ length ys
unfolding drop_all
length-drop_all_le x [] = omega arith
length-drop_all_le x (y ∷ ys) = ground (arith, length-drop_all_le x ys)

length-drop_all : (x : String) (ys : List String) → Listed x ys → length (drop_all x ys) < length ys
unfolding drop_all
length-drop_all x [] l = absurd l
length-drop_all x (y ∷ ys) (inl e) = ground (arith, e, eq_iff x y, length-drop_all_le x ys)
length-drop_all x (y ∷ ys) (inr l) = ground (arith, length-drop_all x ys l, length-drop_all_le x ys)

-- Of different texts that all stand in a list there are no more than it has.
pub pigeonhole :
    (xs ys : List String)
    → AreApart xs
    → ((j : String) → Listed j xs → Listed j ys)
    → length xs ≤ length ys
pigeonhole [] ys apart all = omega arith
pigeonhole (x ∷ xs) ys apart all =
    let rest = pigeonhole xs (drop_all x ys) apart.1 (λ j l.
      elim (drop_all-Listed x j ys (all j (inr l))) [
        | inl e ↦ absurd (apart.0 (subst (λ z. Listed z xs) e l))
        | inr stays ↦ stays
      ]) in
    omega (arith, rest, length-drop_all x ys (all x (inl refl)))

pub Listed-lookup :
    (k : String) (deps : Deps)
    → Listed k (keys deps)
    → (before : List String) × (lookup k deps ≡ some before)
unfolding keys lookup
Listed-lookup k [] l = absurd l
Listed-lookup k ((j, before) ∷ deps) l = elim (Bool-cases (str_eq j k)) [
  | inl hit ↦ (before, ap (λ b. if b then some before else lookup k deps) hit)
  | inr miss ↦
      let later : Listed k (keys deps) = ground (arith, l, miss, eq_iff j k) in
      let (found, at) = Listed-lookup k deps later in
      (found, ap (λ b. if b then some before else lookup k deps) miss ∙ at)
]

pub keys-AreApart : (deps : Deps) → AreDistinct deps → AreApart (keys deps)
unfolding keys
keys-AreApart [] h = tt
keys-AreApart ((k, before) ∷ deps) h =
    ((λ l. let (found, at) = Listed-lookup k deps l in cc (h.0, at)), keys-AreApart deps h.1)

pub length-keys : (deps : Deps) → length (keys deps) ≡ length deps
unfolding keys
length-keys [] = refl
length-keys ((k, before) ∷ deps) = ap suc (length-keys deps)

pub without_deps-keys :
    (k : String) (deps : Deps) → Listed k (without_deps deps) → Listed k (keys deps)
unfolding keys without_deps
without_deps-keys k [] l = l
without_deps-keys k ((j, before) ∷ deps) l = elim (Listed-without_deps k j before deps l) [
  | inl (e, none_needed) ↦ inl e
  | inr later ↦ inr (without_deps-keys k deps later)
]

pub without_deps-AreApart : (deps : Deps) → AreApart (keys deps) → AreApart (without_deps deps)
unfolding keys without_deps
without_deps-AreApart [] h = tt
without_deps-AreApart ((j, []) ∷ deps) h =
    ((λ l. h.0 (without_deps-keys j deps l)), without_deps-AreApart deps h.1)
without_deps-AreApart ((j, b ∷ before) ∷ deps) h = without_deps-AreApart deps h.1

pub free-without_deps :
    (k : String) (deps : Deps) → lookup k deps ≡ some [] → Listed k (without_deps deps)
unfolding lookup without_deps
free-without_deps k [] at = absurd (cc)
free-without_deps k ((j, []) ∷ deps) at = ground (arith, at, eq_iff j k, free-without_deps k deps)
free-without_deps k ((j, b ∷ before) ∷ deps) at = elim (Bool-cases (str_eq j k)) [
  | inl hit ↦ absurd (ground (arith, hit, at))
  | inr miss ↦ free-without_deps k deps (ground (arith, miss, at))
]
