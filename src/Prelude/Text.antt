-- ===== src/Prelude/Text.antt =====
-- Python's `str.lower` and SQLite's `lower` on ASCII text: addresses, method names and JSON keys.
use Prim.Native.Nat.{ℕ}
use Prim.Native.Char.{Char, code}
use Prim.Native.String.{String, ◌++◌}
use mathlib.Core.Path.{◌≡◌, refl}
use mathlib.Core.Logic.{◌⊎◌, inl, inr}
use mathlib.Core.List.{List, [], ◌∷◌}
use native.Mathlib.Omega.{arith}
use safehire_proofops_bnb.Prelude.Tests.{◌==◌, if◌then◌else◌}

abbrev upper_to_lower : List (ℕ × Char)
upper_to_lower =
    (b'A', "a")
    ∷ (b'B', "b")
    ∷ (b'C', "c")
    ∷ (b'D', "d")
    ∷ (b'E', "e")
    ∷ (b'F', "f")
    ∷ (b'G', "g")
    ∷ (b'H', "h")
    ∷ (b'I', "i")
    ∷ (b'J', "j")
    ∷ (b'K', "k")
    ∷ (b'L', "l")
    ∷ (b'M', "m")
    ∷ (b'N', "n")
    ∷ (b'O', "o")
    ∷ (b'P', "p")
    ∷ (b'Q', "q")
    ∷ (b'R', "r")
    ∷ (b'S', "s")
    ∷ (b'T', "t")
    ∷ (b'U', "u")
    ∷ (b'V', "v")
    ∷ (b'W', "w")
    ∷ (b'X', "x")
    ∷ (b'Y', "y")
    ∷ (b'Z', "z")
    ∷ []

translate : List (ℕ × Char) → Char → Char
translate [] c = c
translate ((n, d) ∷ t) c = if code c == n then d else translate t c

lower_char : Char → Char
unfolding translate
lower_char c = translate upper_to_lower c

unfoldable pub lower : String → String
unfolding lower_char
lower String.[] = String.[]
lower (String.◌∷◌ c s) = String.◌∷◌ (lower_char c) (lower s)

-- Every target is a fixed point of the table: it is a lower-case letter.
abbrev IsFixed : List (ℕ × Char) → Type 0
IsFixed [] = Unit
IsFixed ((n, d) ∷ t) = (lower_char d ≡ d) × IsFixed t

table-IsFixed : IsFixed upper_to_lower
unfolding lower_char
table-IsFixed = ground arith

translate_cases :
    (t : List (ℕ × Char)) (c : Char)
    → IsFixed t
    → (translate t c ≡ c) ⊎ (lower_char (translate t c) ≡ translate t c)
unfolding translate
translate_cases [] c h = inl refl
translate_cases ((n, d) ∷ t) c h = ground (arith, translate_cases t c h.1)

lower_char_idem : (c : Char) → lower_char (lower_char c) ≡ lower_char c
unfolding lower_char
lower_char_idem c = elim (translate_cases upper_to_lower c table-IsFixed) [
  | inl same ↦ rw same same
  | inr fixed ↦ fixed
]

-- Lowering twice is lowering once.
pub lower_idem : (s : String) → lower (lower s) ≡ lower s
unfolding lower
lower_idem String.[] = refl
lower_idem (String.◌∷◌ c s) = cc (lower_char_idem c, lower_idem s)

-- `s + t`
abbrev pub joined : String → String → String
joined s t = s ++ t
