-- ===== src/Worker/Marker.antt =====
-- The line that internal/worker/worker.go takes from an output that internal/executor/executor.go has
-- truncated.
use slipway.Common.{
  trim_front, trim_back, ℕ, Text, codes, split_at, List, [], ◌∷◌, ◌++◌, reverse, ◌≡◌, refl, ◌==◌,
  Bool-cases, inl, inr,
}
use mathlib.Core.List.{reverse-append}
use slipway.Executor.Capture.{max_captured_output_bytes, truncation_marker}
use slipway.Worker.Failure.{
  last_line_of, last_failure_output_line, is_captured_output_truncation_marker,
}

abbrev newline : ℕ
newline = 10

split_cons : (s : Text) → (f : Text) × (fs : List Text) × (split_at newline s ≡ f ∷ fs)
split_cons [] = ([], [], refl)
split_cons (c ∷ s) = elim (Bool-cases (c == newline)) [
  | inl e ↦ ([], split_at newline s, rw e)
  | inr e ↦ let (f, fs, h) = split_cons s in (c ∷ f, fs, rw (e, h))
]

-- A line break separates what stands before it from what stands behind it.
split_at-append :
    (s t : Text) → split_at newline (s ++ newline ∷ t) ≡ split_at newline s ++ split_at newline t
split_at-append [] t = refl
split_at-append (c ∷ s) t = elim (Bool-cases (c == newline)) [
  | inl e ↦ rw (e, split_at-append s t)
  | inr e ↦ let (f, fs, h) = split_cons s in rw (e, split_at-append s t, h)
]

abbrev marker_line : Text
marker_line = codes "[onderzeeer: output truncated after 1048576 bytes]"

marker : truncation_marker max_captured_output_bytes ≡ newline ∷ marker_line ++ newline ∷ []
unfolding truncation_marker
marker = refl

-- The marker's line and the empty one behind it are passed over.
skipped : (lines : List Text) → last_line_of ([] ∷ marker_line ∷ lines) ≡ last_line_of lines
unfolding last_line_of trim_front trim_back is_captured_output_truncation_marker
skipped lines = refl

split_marker : split_at newline (marker_line ++ newline ∷ []) ≡ marker_line ∷ [] ∷ []
split_marker = refl

-- The line that explains a failure is the same whether the executor has marked the captured output as
-- truncated or not: its own marker is never taken for output of the command.
pub last_failure_output_line-truncation_marker :
    (s : Text)
    → last_failure_output_line (s ++ truncation_marker max_captured_output_bytes)
      ≡ last_failure_output_line s
unfolding last_failure_output_line
last_failure_output_line-truncation_marker s =
    rw
      (
        marker,
        split_at-append s (marker_line ++ newline ∷ []),
        split_marker,
        reverse-append (split_at newline s) (marker_line ∷ [] ∷ []),
      )
      (skipped (reverse (split_at newline s)))
