-- ===== src/Config/Csv.antt =====
-- A record of comma-separated values as Go's encoding/csv writes it, for the mounts and variables of
-- a container (internal/config/config.go).
use slipway.Common.{
  ℕ, Text, codes, text_eq, starts_with_space, Bool, false, ◌||◌, List, [], ◌∷◌, ◌++◌, map, join,
  ◌==◌, if◌then◌else◌,
}

abbrev pub quote_mark : ℕ
quote_mark = 34

abbrev pub comma : ℕ
comma = 44

-- A byte for which a field is quoted.
abbrev pub is_special : ℕ → Bool
is_special c = c == comma || c == quote_mark || c == 10 || c == 13

abbrev pub any_special : Text → Bool
any_special [] = false
any_special (c ∷ s) = is_special c || any_special s

pub needs_quotes : Text → Bool
needs_quotes [] = false
needs_quotes (c ∷ s) =
    text_eq (c ∷ s) (codes "\\.") || any_special (c ∷ s) || starts_with_space (c ∷ s)

abbrev pub doubled : Text → Text
doubled [] = []
doubled (c ∷ s) =
    let rest = doubled s in if c == quote_mark then quote_mark ∷ quote_mark ∷ rest else c ∷ rest

pub write_field : Text → Text
write_field s = if needs_quotes s then quote_mark ∷ doubled s ++ quote_mark ∷ [] else s

-- The record without the line break that ends it.
pub format_csv_fields : List Text → Text
format_csv_fields fields = join (codes ",") (map write_field fields)
