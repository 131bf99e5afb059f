-- ===== src/Common/Bytes.antt =====
-- Go strings as lists of bytes, with the tests of Go's `strings` package that the program uses.
use Prim.Native.Nat.{ℕ}
use Prim.Native.Char.{code}
use Prim.Native.String.{String}
use mathlib.Core.Path.{◌≡◌}
use mathlib.Core.Logic.{◌↔◌}
use mathlib.Core.Bool.{Bool, true, false, ◌&&◌, ◌||◌}
use mathlib.Core.List.{List, [], ◌∷◌}
use native.Mathlib.Omega.{arith}
use slipway.Common.Tests.{◌==◌, leb}

abbrev pub Text : Type 0
Text = List ℕ

-- The bytes of an ASCII literal.
abbrev pub codes : String → Text
codes String.[] = []
codes (String.◌∷◌ c s) = code c ∷ codes s

unfoldable pub text_eq : Text → Text → Bool
text_eq [] [] = true
text_eq [] (b ∷ t) = false
text_eq (a ∷ s) [] = false
text_eq (a ∷ s) (b ∷ t) = a == b && text_eq s t

pub text_eq_iff : (s t : Text) → (text_eq s t ≡ true) ↔ (s ≡ t)
unfolding text_eq
text_eq_iff [] [] = ground arith
text_eq_iff [] (b ∷ t) = ground arith
text_eq_iff (a ∷ s) [] = ground arith
text_eq_iff (a ∷ s) (b ∷ t) = ground (arith, text_eq_iff s t)

-- `unicode.IsSpace` over the UTF-8 encoding: the white space of one, two and three bytes.
abbrev pub space1 : ℕ → Bool
space1 c = c == 32 || (leb 9 c && leb c 13)

abbrev pub space2 : ℕ → ℕ → Bool
space2 a b = a == 0xC2 && (b == 0x85 || b == 0xA0)

abbrev pub space3 : ℕ → ℕ → ℕ → Bool
space3 a b c =
    (a == 0xE1 && b == 0x9A && c == 0x80)
    || (a == 0xE2 && b == 0x80 && (leb 0x80 c && leb c 0x8A || c == 0xA8 || c == 0xA9 || c == 0xAF))
    || (a == 0xE2 && b == 0x81 && c == 0x9F)
    || (a == 0xE3 && b == 0x80 && c == 0x80)

-- `strings.TrimSpace(s) == ""`.
unfoldable pub is_blank : Text → Bool
is_blank [] = true
is_blank (a ∷ []) = space1 a
is_blank (a ∷ b ∷ []) = elim (space1 a) [ true ↦ is_blank (b ∷ []) | false ↦ space2 a b ]
is_blank (a ∷ b ∷ c ∷ s) = elim (space1 a) [
  | true ↦ is_blank (b ∷ c ∷ s)
  | false ↦ elim (space2 a b) [
    | true ↦ is_blank (c ∷ s)
    | false ↦ elim (space3 a b c) [ true ↦ is_blank s | false ↦ false ]
  ]
]

-- Whether the first rune is white space.
pub starts_with_space : Text → Bool
starts_with_space [] = false
starts_with_space (a ∷ []) = space1 a
starts_with_space (a ∷ b ∷ []) = space1 a || space2 a b
starts_with_space (a ∷ b ∷ c ∷ s) = space1 a || space2 a b || space3 a b c
