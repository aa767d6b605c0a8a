-- ===== src/Prelude/Text.antt =====
-- Texts: code points, the order of JavaScript's `<` on strings, template literals.
use Prim.Native.Nat.{ℕ, ◌+◌, compare, Ordering}
use Prim.Native.Char.{code}
use Prim.Native.String.{String, ◌++◌ as append_text}
use mathlib.Core.Bool.{Bool, true, false}
use mathlib.Core.List.{List, [], ◌∷◌}
use epochguard.Prelude.Tests.{ltb, if◌then◌else◌}

abbrev pub codes : String → List ℕ
codes String.[] = []
codes (String.◌∷◌ c s) = code c ∷ codes s

-- The template literal `${a}${b}`.
abbrev pub concat : String → String → String
concat = append_text

-- Lexicographic order of code points. JavaScript compares UTF-16 code units, which is the same
-- order on texts without surrogate pairs, and identifiers are ASCII.
pub codes_lt : List ℕ → List ℕ → Bool
codes_lt [] [] = false
codes_lt [] (y ∷ ys) = true
codes_lt (x ∷ xs) [] = false
codes_lt (x ∷ xs) (y ∷ ys) = elim (compare x y) [
  | Ordering.lt ↦ true
  | Ordering.eq ↦ codes_lt xs ys
  | Ordering.gt ↦ false
]

unfoldable pub str_lt : String → String → Bool
unfolding codes_lt
str_lt s t = codes_lt (codes s) (codes t)

-- `s.length`: the number of UTF-16 code units.
unfoldable pub utf16_length : List ℕ → ℕ
utf16_length [] = 0
utf16_length (c ∷ cs) = (if ltb c 65536 then 1 else 2) + utf16_length cs
