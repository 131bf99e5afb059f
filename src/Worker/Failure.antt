-- ===== src/Worker/Failure.antt =====
-- internal/worker/worker.go: the line of a failed command's output that is put into its error.
use slipway.Common.{
  ℕ, suc, ◌-◌, Text, codes, space1, space2, space3, trim_space, split_at, has_prefix, join, quote,
  Bool, true, false, not, ◌&&◌, ◌||◌, Option, none, some, List, [], ◌∷◌, ◌++◌, reverse, length, ltb,
  leb, ◌==◌, if◌then◌else◌,
}
use slipway.Config.Commands.{any_entry}
use slipway.Executor.Execute.{Result}

-- The field read so far, unless it is empty.
abbrev flush : Text → List Text → List Text
flush [] rest = rest
flush (c ∷ field) rest = reverse (c ∷ field) ∷ rest

-- `strings.Fields`; the field read so far comes in front, backwards.
unfoldable pub fields_from : Text → Text → List Text
fields_from field [] = flush field []
fields_from field (a ∷ []) = elim (space1 a) [
  | true ↦ flush field []
  | false ↦ flush (a ∷ field) []
]
fields_from field (a ∷ b ∷ []) = elim (space1 a) [
  | true ↦ flush field (fields_from [] (b ∷ []))
  | false ↦ elim (space2 a b) [ true ↦ flush field [] | false ↦ fields_from (a ∷ field) (b ∷ []) ]
]
fields_from field (a ∷ b ∷ c ∷ s) = elim (space1 a) [
  | true ↦ flush field (fields_from [] (b ∷ c ∷ s))
  | false ↦ elim (space2 a b) [
    | true ↦ flush field (fields_from [] (c ∷ s))
    | false ↦ elim (space3 a b c) [
      | true ↦ flush field (fields_from [] s)
      | false ↦ fields_from (a ∷ field) (b ∷ c ∷ s)
    ]
  ]
]

abbrev pub has_suffix : Text → Text → Bool
has_suffix suffix s = has_prefix (reverse suffix) (reverse s)

unfoldable pub is_captured_output_truncation_marker : Text → Bool
is_captured_output_truncation_marker line =
    has_prefix (codes "[onderzeeer: output truncated after ") line
    && has_suffix (codes " bytes]") line

abbrev pub max_failure_detail_runes : ℕ
max_failure_detail_runes = 256

-- A byte that goes on with the rune before it, as in valid UTF-8.
abbrev is_continuation : ℕ → Bool
is_continuation c = leb 0x80 c && ltb c 0xC0

abbrev rune_count : Text → ℕ
rune_count [] = 0
rune_count (c ∷ s) = let n = rune_count s in if is_continuation c then n else suc n

-- The first runes of a text: the count of those still to come goes down at each first byte.
abbrev take_runes : ℕ → Text → Text
take_runes n [] = []
take_runes n (c ∷ s) = elim (is_continuation c) [
  | true ↦ c ∷ take_runes n s
  | false ↦ elim (n == 0) [ true ↦ [] | false ↦ c ∷ take_runes (n - 1) s ]
]

abbrev pub truncated_suffix : Text
truncated_suffix = codes "... [truncated]"

unfoldable pub truncate_failure_detail : Text → Text
truncate_failure_detail detail =
    if leb (rune_count detail) max_failure_detail_runes
    then detail
    else take_runes (max_failure_detail_runes - length truncated_suffix) detail ++ truncated_suffix

-- The lines, the last one first.
unfoldable pub last_line_of : List Text → Text
last_line_of [] = []
last_line_of (line ∷ lines) =
    let detail = trim_space line in
    let earlier = last_line_of lines in
    if not (any_entry detail) || is_captured_output_truncation_marker detail
    then earlier
    else truncate_failure_detail (join (codes " ") (fields_from [] detail))

unfoldable pub last_failure_output_line : Text → Text
last_failure_output_line output = last_line_of (reverse (split_at 10 output))

unfoldable pub failure_output_summary : Result → Text
failure_output_summary r =
    if any_entry (last_failure_output_line r.stderr)
    then codes "stderr: " ++ quote (last_failure_output_line r.stderr)
    else if any_entry (last_failure_output_line r.stdout)
    then codes "stdout: " ++ quote (last_failure_output_line r.stdout)
    else []

unfoldable pub with_failure_output : Option Text → Result → Option Text
with_failure_output none r = none
with_failure_output (some cause) r =
    if any_entry (failure_output_summary r)
    then some (cause ++ codes " (" ++ failure_output_summary r ++ codes ")")
    else some cause
