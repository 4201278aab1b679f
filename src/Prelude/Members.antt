-- ===== src/Prelude/Members.antt =====
-- Whether a text stands in a list of texts (Python's `in`).
use Prim.Native.String.{String}
use mathlib.Core.Path.{◌≡◌, refl}
use mathlib.Core.Logic.{◌↔◌, ◌⊎◌, inl, inr}
use mathlib.Core.Bool.{Bool, true, false, ◌||◌}
use mathlib.Core.List.{List, [], ◌∷◌, ◌++◌}
use native.Mathlib.Omega.{arith}
use text.Mathlib.Text.{◌==◌ as str_eq}
use text.Mathlib.TextEquality.{eq_iff}

unfoldable pub member : String → List String → Bool
member x [] = false
member x (y ∷ ys) = str_eq x y || member x ys

abbrev pub Listed : String → List String → Type 0
Listed x [] = ⊥
Listed x (y ∷ ys) = (x ≡ y) ⊎ Listed x ys

pub member_iff : (x : String) (ys : List String) → (member x ys ≡ true) ↔ Listed x ys
unfolding member
member_iff x [] = (λ e. cc, λ h. absurd h)
member_iff x (y ∷ ys) =
    let ih = member_iff x ys in
    (λ e. ground (arith, eq_iff x y, ih.0), λ h. ground (arith, eq_iff x y, ih.1))

pub Listed-append :
    (j : String) (xs ys : List String) → Listed j (xs ++ ys) → Listed j xs ⊎ Listed j ys
Listed-append j [] ys h = inr h
Listed-append j (x ∷ xs) ys (inl e) = inl (inl e)
Listed-append j (x ∷ xs) ys (inr h) = elim (Listed-append j xs ys h) [
  | inl l ↦ inl (inr l)
  | inr r ↦ inr r
]

pub append-Listed_left : (j : String) (xs ys : List String) → Listed j xs → Listed j (xs ++ ys)
append-Listed_left j [] ys h = absurd h
append-Listed_left j (x ∷ xs) ys (inl e) = inl e
append-Listed_left j (x ∷ xs) ys (inr h) = inr (append-Listed_left j xs ys h)

pub append-Listed_right : (j : String) (xs ys : List String) → Listed j ys → Listed j (xs ++ ys)
append-Listed_right j [] ys h = h
append-Listed_right j (x ∷ xs) ys h = inr (append-Listed_right j xs ys h)

pub append-Listed_last : (j : String) (xs : List String) → Listed j (xs ++ (j ∷ []))
append-Listed_last j [] = inl refl
append-Listed_last j (x ∷ xs) = inr (append-Listed_last j xs)

-- No text stands twice.
abbrev pub AreApart : List String → Type 0
AreApart [] = Unit
AreApart (x ∷ xs) = (¬ Listed x xs) × AreApart xs
