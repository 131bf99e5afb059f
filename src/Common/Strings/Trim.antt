-- ===== src/Common/Strings/Trim.antt =====
-- `strings.TrimSpace` over the UTF-8 encoding.
use mathlib.Core.Bool.{true, false}
use mathlib.Core.List.{[], ◌∷◌, reverse}
use slipway.Common.Bytes.{Text, space1, space2, space3}

-- `strings.TrimSpace` at the front of a text, and at the front of a text that is written backwards.
unfoldable pub trim_front : Text → Text
trim_front [] = []
trim_front (a ∷ []) = elim (space1 a) [ true ↦ [] | false ↦ a ∷ [] ]
trim_front (a ∷ b ∷ []) = elim (space1 a) [
  | true ↦ trim_front (b ∷ [])
  | false ↦ elim (space2 a b) [ true ↦ [] | false ↦ a ∷ b ∷ [] ]
]
trim_front (a ∷ b ∷ c ∷ s) = elim (space1 a) [
  | true ↦ trim_front (b ∷ c ∷ s)
  | false ↦ elim (space2 a b) [
    | true ↦ trim_front (c ∷ s)
    | false ↦ elim (space3 a b c) [ true ↦ trim_front s | false ↦ a ∷ b ∷ c ∷ s ]
  ]
]

unfoldable pub trim_back : Text → Text
trim_back [] = []
trim_back (a ∷ []) = elim (space1 a) [ true ↦ [] | false ↦ a ∷ [] ]
trim_back (a ∷ b ∷ []) = elim (space1 a) [
  | true ↦ trim_back (b ∷ [])
  | false ↦ elim (space2 b a) [ true ↦ [] | false ↦ a ∷ b ∷ [] ]
]
trim_back (a ∷ b ∷ c ∷ s) = elim (space1 a) [
  | true ↦ trim_back (b ∷ c ∷ s)
  | false ↦ elim (space2 b a) [
    | true ↦ trim_back (c ∷ s)
    | false ↦ elim (space3 c b a) [ true ↦ trim_back s | false ↦ a ∷ b ∷ c ∷ s ]
  ]
]

abbrev pub trim_space : Text → Text
trim_space s = reverse (trim_back (reverse (trim_front s)))
