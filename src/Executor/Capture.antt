-- ===== src/Executor/Capture.antt =====
-- internal/executor/executor.go: the bounded capture of a child's output.
use slipway.Common.{
  ℕ, ◌+◌, ◌-◌, ◌^◌, Text, codes, decimal, Bool, false, ◌||◌, List, [], ◌∷◌, ◌++◌, ltb, length, take,
  if◌then◌else◌,
}

abbrev pub max_captured_output_bytes : ℕ
max_captured_output_bytes = 2 ^ 20

pub record LimitedBuffer : Type 0 where
  pub buffer : Text
  pub limit : ℕ
  pub truncated : Bool

unfoldable pub new_limited_buffer : ℕ → LimitedBuffer
new_limited_buffer limit = record { buffer = []; limit = limit; truncated = false }

-- What there is room for is kept; the count reported is that of the whole write.
unfoldable pub write : LimitedBuffer → Text → ℕ × LimitedBuffer
write b chunk = (
  length chunk,
  record b {
    buffer = b.buffer ++ take (b.limit - length b.buffer) chunk;
    truncated = b.truncated || ltb b.limit (length b.buffer + length chunk);
  },
)

unfoldable pub truncation_marker : ℕ → Text
truncation_marker limit =
    codes "\n[onderzeeer: output truncated after " ++ decimal limit ++ codes " bytes]\n"

unfoldable pub captured : LimitedBuffer → Text
captured b = if b.truncated then b.buffer ++ truncation_marker b.limit else b.buffer

-- The writes of a child, one after the other, with the counts that they report.
unfoldable pub write_all : LimitedBuffer → List Text → List ℕ × LimitedBuffer
write_all b [] = ([], b)
write_all b (d ∷ ds) = let (n, b') = write b d in let (ns, b'') = write_all b' ds in (n ∷ ns, b'')
