-- ===== src/Control/Logs/Chunks.antt =====
-- `Write` of internal/control/logs.go reads its value byte by byte in effect: how a text is cut
-- into writes makes no difference.
use slipway.Common.{
  ℕ, zero, suc, ◌-◌, ◌≤◌, ◌<◌, Text, Option, none, some, List, [], ◌∷◌, ◌++◌, length, length-append,
  take, ◌≡◌, refl, sym, ap, ◌∙◌, inl, inr, arith, ◌==◌, if◌then◌else◌, Bool-cases, Option-cases,
}
use mathlib.Core.List.{append_assoc}
use slipway.Control.Logs.{
  LogStream, newline, retain, publish, publish_partial, append_segment, cut, write_loop, write,
}

append_segment-nil : (s : LogStream) → append_segment [] s ≡ s
unfolding append_segment
append_segment-nil s = ground arith

take-cons {ℓ} :
    {A : Type ℓ} (n : ℕ) (x : A) (xs : List A) → 0 < n → take n (x ∷ xs) ≡ x ∷ take (n - 1) xs
take-cons zero x xs h = elim h [ ]
take-cons (suc n) x xs h = let e : suc n - 1 ≡ n = omega arith in rw e

append_segment-cons :
    (c : ℕ) (segment : Text) (s : LogStream)
    → append_segment (c ∷ segment) s ≡ append_segment segment (append_segment (c ∷ []) s)
unfolding append_segment
append_segment-cons c [] s = sym (append_segment-nil (append_segment (c ∷ []) s))
append_segment-cons c (d ∷ segment) s =
    let room = s.max_line_bytes - length s.partial in
    ground (
      arith,
      length-append s.partial (c ∷ []),
      take-cons room c (d ∷ segment),
      append_assoc s.partial (c ∷ []) (d ∷ segment),
      append_assoc s.partial (c ∷ []) (take (room - 1) (d ∷ segment)),
    )

-- One byte of the value.
abbrev put : ℕ → LogStream → LogStream
put c s = if c == newline then publish_partial s else append_segment (c ∷ []) s

feed : Text → LogStream → LogStream
feed [] s = s
feed (c ∷ value) s = feed value (put c s)

feed-append : (a b : Text) (s : LogStream) → feed (a ++ b) s ≡ feed b (feed a s)
unfolding feed
feed-append [] b s = refl
feed-append (c ∷ a) b s = feed-append a b (put c s)

-- What the rest of a round of the loop does with the two parts of the value.
abbrev rounds : Text × Option Text → LogStream → LogStream
rounds (segment, none) s = append_segment segment s
rounds (segment, some after) s = feed after (publish_partial (append_segment segment s))

rounds-cons :
    (c : ℕ) (r : Text × Option Text) (s : LogStream)
    → rounds (c ∷ r.0, r.1) s ≡ rounds r (append_segment (c ∷ []) s)
rounds-cons c (segment, none) s = append_segment-cons c segment s
rounds-cons c (segment, some after) s =
    ap (λ t. feed after (publish_partial t)) (append_segment-cons c segment s)

rounds-cut : (value : Text) (s : LogStream) → rounds (cut value) s ≡ feed value s
unfolding cut feed
rounds-cut [] s = append_segment-nil s
rounds-cut (c ∷ value) s = elim (Bool-cases (c == newline)) [
  | inl e ↦ rw e (ap (λ t. feed value (publish_partial t)) (append_segment-nil s))
  | inr e ↦ rw e (rounds-cons c (cut value) s ∙ rounds-cut value (append_segment (c ∷ []) s))
]

cut_shorter :
    (value : Text) {after : Text} → (cut value).1 ≡ some after → length after < length value
unfolding cut
cut_shorter [] h = cc
cut_shorter (c ∷ value) {after} h = ground (arith, h, cut_shorter value {after = after})

-- Fuel for every byte is enough.
write_loop-eq-feed :
    (fuel : ℕ) (value : Text) (s : LogStream)
    → length value ≤ fuel
    → write_loop fuel value s ≡ feed value s
unfolding write_loop
write_loop-eq-feed zero [] s h = unfold feed in refl
write_loop-eq-feed zero (c ∷ value) s h = absurd (omega arith)
write_loop-eq-feed (suc fuel) [] s h = unfold feed in refl
write_loop-eq-feed (suc fuel) (c ∷ value) s h =
    let (segment, rest) = cut (c ∷ value) in
    let split = rounds-cut (c ∷ value) s in
    elim (Option-cases rest) [
      | inl e ↦ ground (arith, e, split)
      | inr (after, e) ↦ ground (
        arith,
        e,
        split,
        write_loop-eq-feed fuel after (publish_partial (append_segment segment s))
            (omega (arith, cut_shorter (c ∷ value) e)),
      )
    ]

closed-publish_partial : (s : LogStream) → (publish_partial s).closed ≡ s.closed
unfolding publish_partial publish retain
closed-publish_partial s = ground arith

closed-append_segment :
    (segment : Text) (s : LogStream) → (append_segment segment s).closed ≡ s.closed
unfolding append_segment
closed-append_segment segment s = ground arith

closed-feed : (value : Text) (s : LogStream) → (feed value s).closed ≡ s.closed
unfolding feed
closed-feed [] s = refl
closed-feed (c ∷ value) s =
    ground (
      arith,
      closed-feed value (put c s),
      closed-publish_partial s,
      closed-append_segment (c ∷ []) s,
    )

write-eq-feed :
    (value : Text) (s : LogStream) → write value s ≡ (if s.closed then s else feed value s)
unfolding write
write-eq-feed value s = rw (write_loop-eq-feed (length value) value s (omega arith))

-- Two writes one after the other have the effect of one write of both texts together: the lines
-- that come out, and what is cut off a long one, do not depend on how the writer cuts its text.
pub write-append : (a b : Text) (s : LogStream) → write b (write a s) ≡ write (a ++ b) s
write-append a b s = ground (
  arith,
  write-eq-feed a s,
  write-eq-feed b s,
  write-eq-feed b (feed a s),
  write-eq-feed (a ++ b) s,
  feed-append a b s,
  closed-feed a s,
)
