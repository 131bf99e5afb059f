-- ===== src/Common/Strings.antt =====
-- Functions of Go's `strings`, `strconv` and `path/filepath` (on Unix) over lists of bytes.
pub mod Order
pub mod Decimal
pub mod Trim
use Prim.Native.Nat.{ℕ, zero, suc, ◌+◌, ◌/◌, ◌%◌}
use mathlib.Core.Bool.{Bool, true, false, not, ◌&&◌, ◌||◌}
use mathlib.Core.Option.{Option, none, some}
use mathlib.Core.List.{List, [], ◌∷◌, ◌++◌, reverse}
use slipway.Common.Tests.{ltb, ◌==◌, if◌then◌else◌}
use slipway.Common.Lists.{drop, length}
use slipway.Common.Bytes.{Text, text_eq, codes}

-- `strings.HasPrefix(text, prefix)`, the prefix first.
abbrev pub has_prefix : Text → Text → Bool
has_prefix [] s = true
has_prefix (p ∷ ps) [] = false
has_prefix (p ∷ ps) (c ∷ s) = p == c && has_prefix ps s

abbrev pub trim_prefix : Text → Text → Text
trim_prefix p s = if has_prefix p s then drop (length p) s else s

abbrev pub trim_suffix : Text → Text → Text
trim_suffix p s = reverse (trim_prefix (reverse p) (reverse s))

abbrev pub prepend : ℕ → List Text → List Text
prepend c [] = (c ∷ []) ∷ []
prepend c (s ∷ ss) = (c ∷ s) ∷ ss

-- `strings.Split` at a one-byte separator: never empty.
abbrev pub split_at : ℕ → Text → List Text
split_at sep [] = [] ∷ []
split_at sep (c ∷ s) = let rest = split_at sep s in if c == sep then [] ∷ rest else prepend c rest

-- `strings.Join`
abbrev pub join : Text → List Text → Text
join sep [] = []
join sep (s ∷ []) = s
join sep (s ∷ t ∷ ts) = s ++ (sep ++ join sep (t ∷ ts))

-- `strings.Cut` at a one-byte separator.
abbrev pub cut_at : ℕ → Text → Option (Text × Text)
cut_at sep [] = none
cut_at sep (c ∷ s) =
    if c == sep
    then some ([], s)
    else (elim (cut_at sep s) [ none ↦ none | some (k, v) ↦ some (c ∷ k, v) ])

-- The order of Go's strings.
abbrev pub text_leb : Text → Text → Bool
text_leb [] t = true
text_leb (a ∷ s) [] = false
text_leb (a ∷ s) (b ∷ t) = if a == b then text_leb s t else ltb a b

-- The digits of a number in front of a text; the fuel bounds their count.
abbrev pub digits : ℕ → ℕ → Text → Text
digits zero n acc = acc
digits (suc fuel) n acc = elim (ltb n 10) [
  | true ↦ (48 + n) ∷ acc
  | false ↦ digits fuel (n / 10) ((48 + n % 10) ∷ acc)
]

-- `strconv.FormatInt(n, 10)` of a number that is not negative.
abbrev pub decimal : ℕ → Text
decimal n = digits (suc n) n []

abbrev pub slash : ℕ
slash = 47

abbrev ext_back : Text → Text → Text
ext_back [] acc = []
ext_back (c ∷ r) acc = if c == slash then [] else if c == 46 then c ∷ acc else ext_back r (c ∷ acc)

-- `filepath.Ext`
abbrev pub ext : Text → Text
ext path = ext_back (reverse path) []

abbrev strip_slashes : Text → Text
strip_slashes [] = []
strip_slashes (c ∷ r) = if c == slash then strip_slashes r else c ∷ r

abbrev until_slash : Text → Text
until_slash [] = []
until_slash (c ∷ r) = if c == slash then [] else c ∷ until_slash r

abbrev or_else : Text → Text → Text
or_else [] t = t
or_else (c ∷ s) t = c ∷ s

-- `filepath.Base`
abbrev pub base : Text → Text
base [] = codes "."
base (c ∷ s) = or_else (reverse (until_slash (strip_slashes (reverse (c ∷ s))))) (codes "/")

-- The elements that `filepath.Clean` keeps, the last one first.
abbrev clean_onto : Bool → List Text → List Text → List Text
clean_onto rooted [] kept = kept
clean_onto rooted (e ∷ es) [] =
    elim (text_eq e [] || text_eq e (codes ".") || rooted && text_eq e (codes "..")) [
      | true ↦ clean_onto rooted es []
      | false ↦ clean_onto rooted es (e ∷ [])
    ]
clean_onto rooted (e ∷ es) (k ∷ ks) = elim (text_eq e [] || text_eq e (codes ".")) [
  | true ↦ clean_onto rooted es (k ∷ ks)
  | false ↦ elim (text_eq e (codes "..") && not (text_eq k (codes ".."))) [
    | true ↦ clean_onto rooted es ks
    | false ↦ clean_onto rooted es (e ∷ k ∷ ks)
  ]
]

abbrev pub is_abs : Text → Bool
is_abs path = has_prefix (codes "/") path

-- `filepath.Clean`
abbrev pub clean : Text → Text
clean path =
    let kept = join (codes "/") (reverse (clean_onto (is_abs path) (split_at slash path) [])) in
    if is_abs path then slash ∷ kept else or_else kept (codes ".")

abbrev from_slash : Text → Text
from_slash [] = []
from_slash (c ∷ r) = if c == slash then c ∷ r else from_slash r

-- `filepath.Dir`
abbrev pub dir : Text → Text
dir path = clean (reverse (from_slash (reverse path)))

-- `filepath.Join` of two elements.
abbrev pub join_path : Text → Text → Text
join_path [] [] = []
join_path [] (b ∷ t) = clean (b ∷ t)
join_path (a ∷ s) [] = clean (a ∷ s)
join_path (a ∷ s) (b ∷ t) = clean ((a ∷ s) ++ slash ∷ b ∷ t)

abbrev hex_digit : ℕ → ℕ
hex_digit n = if ltb n 10 then 48 + n else 87 + n

abbrev escape : ℕ → Text
escape c =
    if c == 34 || c == 92
    then 92 ∷ c ∷ []
    else if c == 10
    then codes "\\n"
    else if c == 9
    then codes "\\t"
    else if c == 13
    then codes "\\r"
    else if c == 7
    then codes "\\a"
    else if c == 8
    then codes "\\b"
    else if c == 12
    then codes "\\f"
    else if c == 11
    then codes "\\v"
    else if ltb c 32 || c == 127
    then codes "\\x" ++ hex_digit (c / 16) ∷ hex_digit (c % 16) ∷ []
    else c ∷ []

abbrev escape_all : Text → Text
escape_all [] = []
escape_all (c ∷ s) = escape c ++ escape_all s

-- `strconv.Quote`, where what is not ASCII is valid and printable.
abbrev pub quote : Text → Text
quote s = 34 ∷ escape_all s ++ 34 ∷ []
