-- ===== src/Harness/Registry/Sorting.antt =====
-- `sorted` of proofops/harness/registry.py: it keeps the texts, and keeps them apart.
use safehire_proofops_bnb.Prelude.{String, ◌≡◌, sym, ◌⊎◌, inl, inr, List, [], ◌∷◌, ◌++◌, arith}
use safehire_proofops_bnb.Prelude.Members.{Listed, AreApart, Listed-append}
use safehire_proofops_bnb.Harness.Registry.{sorted, put_sorted}
use safehire_proofops_bnb.Harness.Registry.Release.{Listed-put_sorted, Listed-sorted}

put_sorted-Listed :
    (j x : String) (xs : List String) → (j ≡ x) ⊎ Listed j xs → Listed j (put_sorted x xs)
unfolding put_sorted
put_sorted-Listed j x [] h = h
put_sorted-Listed j x (y ∷ ys) h = ground (arith, h, put_sorted-Listed j x ys)

pub sorted-Listed : (j : String) (xs : List String) → Listed j xs → Listed j (sorted xs)
unfolding sorted
sorted-Listed j [] h = h
sorted-Listed j (x ∷ xs) (inl e) = put_sorted-Listed j x (sorted xs) (inl e)
sorted-Listed j (x ∷ xs) (inr h) = put_sorted-Listed j x (sorted xs) (inr (sorted-Listed j xs h))

put_sorted-AreApart :
    (x : String) (xs : List String) → ¬ Listed x xs → AreApart xs → AreApart (put_sorted x xs)
unfolding put_sorted
put_sorted-AreApart x [] out h = (out, h)
put_sorted-AreApart x (y ∷ ys) out h =
    ground
      (arith, out, h, Listed-put_sorted y x ys, put_sorted-AreApart x ys (λ l. out (inr l)) h.1)

pub sorted-AreApart : (xs : List String) → AreApart xs → AreApart (sorted xs)
unfolding sorted
sorted-AreApart [] h = h
sorted-AreApart (x ∷ xs) h =
    put_sorted-AreApart x (sorted xs) (λ l. h.0 (Listed-sorted x xs l)) (sorted-AreApart xs h.1)

pub append-AreApart :
    (xs : List String) (k : String) → AreApart xs → ¬ Listed k xs → AreApart (xs ++ (k ∷ []))
append-AreApart [] k h out = (λ l. l, tt)
append-AreApart (x ∷ xs) k h out = (
  (λ l. elim (Listed-append x xs (k ∷ []) l) [
    | inl early ↦ h.0 early
    | inr (inl e) ↦ out (inl (sym e))
    | inr (inr none_left) ↦ none_left
  ]),
  append-AreApart xs k h.1 (λ l. out (inr l)),
)
