-- ===== src/Executor/Captured.antt =====
-- The bounded capture of internal/executor/executor.go: what it holds depends on what was written,
-- not on how it was cut into writes.
use slipway.Common.{
  ℕ, zero, suc, ◌+◌, ◌-◌, ◌≤◌, Text, false, ◌||◌, List, [], ◌∷◌, ◌++◌, map, ◌≡◌, refl, arith, ltb,
  length, take, length-append, length-take, if◌then◌else◌, Bool-cases, inl, inr,
}
use mathlib.Core.List.{append_assoc, append-nil}
use slipway.Executor.Capture.{
  LimitedBuffer, new_limited_buffer, write, write_all, captured, truncation_marker,
}

pub concat : List Text → Text
concat [] = []
concat (s ∷ ss) = s ++ concat ss

take-empty : {A : Type 0} (n : ℕ) (xs : List A) → n ≤ 0 → take n xs ≡ []
take-empty zero xs h = refl
take-empty (suc n) xs h = absurd (omega arith)

take-append : (n : ℕ) (s t : Text) → take n (s ++ t) ≡ take n s ++ take (n - length s) t
take-append zero s t = rw (take-empty (zero - length s) t (omega arith))
take-append (suc n) [] t = let all : suc n - 0 ≡ suc n = omega arith in rw all
take-append (suc n) (x ∷ s) t =
    let less : suc n - suc (length s) ≡ n - length s = omega arith in rw (less, take-append n s t)

-- A buffer of a limit that has been given a text.
abbrev holding : ℕ → Text → LimitedBuffer
holding limit s = record { buffer = take limit s; limit = limit; truncated = ltb limit (length s) }

write-holding : (limit : ℕ) (s t : Text) → (write (holding limit s) t).1 ≡ holding limit (s ++ t)
unfolding write
write-holding limit s t = rw (room, full, take-append limit s t)
  where
    room : limit - length (take limit s) ≡ limit - length s
    room = omega (arith, length-take limit s)

    full :
        ltb limit (length s) || ltb limit (length (take limit s) + length t)
        ≡ ltb limit (length (s ++ t))
    full = ground (arith, length-take limit s, length-append s t)

write_count : (b : LimitedBuffer) (s : Text) → (write b s).0 ≡ length s
unfolding write
write_count b s = refl

write_all-holding :
    (limit : ℕ) (s : Text) (chunks : List Text)
    → write_all (holding limit s) chunks ≡ (map length chunks, holding limit (s ++ concat chunks))
unfolding write_all concat
write_all-holding limit s [] = rw (append-nil s)
write_all-holding limit s (t ∷ ts) = rw (
  write_count (holding limit s) t,
  write-holding limit s t,
  write_all-holding limit (s ++ t) ts,
  append_assoc s t (concat ts),
)

new-holding : (limit : ℕ) → new_limited_buffer limit ≡ holding limit []
unfolding new_limited_buffer
new-holding zero = refl
new-holding (suc n) = let fits : ltb (suc n) 0 ≡ false = ground arith in rw fits

take_all : (n : ℕ) (s : Text) → ltb n (length s) ≡ false → take n s ≡ s
take_all zero [] h = refl
take_all zero (x ∷ s) h = ground (arith, h)
take_all (suc n) [] h = refl
take_all (suc n) (x ∷ s) h = rw (take_all n s (ground (arith, h)))

captured-holding :
    (limit : ℕ) (s : Text)
    → captured (holding limit s)
      ≡ (if ltb limit (length s) then take limit s ++ truncation_marker limit else s)
unfolding captured
captured-holding limit s = elim (Bool-cases (ltb limit (length s))) [
  | inl e ↦ rw e
  | inr e ↦ rw (e, take_all limit s e)
]

-- However a child cuts its output into writes, each write is reported as taken in full, and what is
-- captured is the output itself when it is no longer than the limit, and otherwise as much of its
-- beginning as the limit allows, followed by the truncation marker.
pub write_all-captured :
    (limit : ℕ) (chunks : List Text)
    → ((write_all (new_limited_buffer limit) chunks).0 ≡ map length chunks)
      × (captured (write_all (new_limited_buffer limit) chunks).1 ≡ (
          if ltb limit (length (concat chunks))
          then take limit (concat chunks) ++ truncation_marker limit
          else concat chunks))
write_all-captured limit chunks =
    rw (new-holding limit, write_all-holding limit [] chunks)
      (refl, captured-holding limit (concat chunks))
