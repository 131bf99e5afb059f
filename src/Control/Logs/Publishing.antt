-- ===== src/Control/Logs/Publishing.antt =====
-- What a published line does to the history and to the subscribers, and what closing does
-- (internal/control/logs.go).
use slipway.Common.{
  ℕ, zero, suc, ◌+◌, ◌-◌, ◌≤◌, ◌<◌, Text, true, false, not, ◌||◌, List, [], ◌∷◌, ◌++◌, map, length,
  length-append, drop, All, ◌≡◌, ◌⊎◌, refl, ap, ◌∙◌, inl, inr, arith, leb, ltb, if◌then◌else◌,
  Bool-cases,
}
use slipway.Control.Logs.{
  Channel, LogStream, deliver, evict, retain, publish, publish_partial, line_of, is_nil, write,
  drop_channel, close,
}
use slipway.Control.Logs.Bounds.{IsBounded, HasRoom, total, total-append, evict_bounds}

module _ (capacity max_bytes incoming : ℕ) where
  -- A line that is dropped had to be: with it the next line would not fit.
  abbrev IsOver : List Text → Type 0
  IsOver kept = (capacity ≤ length kept) ⊎ (max_bytes < total kept + incoming)

  evict-drop :
      (lines : List Text) (retained : ℕ)
      → retained ≡ total lines
      → (k : ℕ) × ((evict capacity max_bytes incoming retained lines).0 ≡ drop k lines)
        × ((m : ℕ) → m < k → IsOver (drop m lines))
  unfolding evict
  evict-drop [] retained e = (0, refl, λ m h. elim h [ ])
  evict-drop (x ∷ xs) retained e =
      elim (Bool-cases (leb capacity (length (x ∷ xs)) || ltb max_bytes (retained + incoming))) [
        | inl over ↦
            let (k, kept, must) = evict-drop xs (retained - length x) (omega arith) in
            (
              suc k,
              rw over kept,
              elim [ zero ↦ λ h. ground (arith, over, e) | suc m ↦ λ h. must m (omega arith) ],
            )
        | inr fits ↦ (0, rw fits, λ m h. elim h [ ])
      ]

-- The lines fit into the stream's limits.
abbrev pub Fits : LogStream → List Text → Type 0
Fits s lines = (length lines ≤ s.capacity) × (total lines ≤ s.max_bytes)

retain_fitting :
    (line : Text) (s : LogStream)
    → length line ≤ s.max_bytes
    → (retain line s).lines
      ≡ (evict s.capacity s.max_bytes (length line) s.retained_bytes s.lines).0 ++ line ∷ []
unfolding retain
retain_fitting line s h = ground arith

-- A line that fits by itself ends the history, which keeps as much of what was there before as the
-- limits leave room for: the lines dropped are the oldest, and with any one of them more the rest
-- would not have fitted.
pub publish_keeps_newest :
    (line : Text) (s : LogStream)
    → IsBounded s
    → length line ≤ s.max_bytes
    → (k : ℕ) × ((publish line s).lines ≡ drop k s.lines ++ line ∷ [])
      × Fits s (publish line s).lines
      × ((m : ℕ) → m < k → ¬ Fits s (drop m s.lines ++ line ∷ []))
unfolding publish
publish_keeps_newest line s b h =
    let (k, kept, must) =
      evict-drop s.capacity s.max_bytes (length line) s.lines s.retained_bytes b.bytes_counted in
    let (short, _, _, roomy) =
      evict_bounds s.capacity s.max_bytes (length line) b.some_capacity s.lines s.retained_bytes
        b.bytes_counted b.bytes_capped in
    let rest = (evict s.capacity s.max_bytes (length line) s.retained_bytes s.lines).0 in
    (
      k,
      retain_fitting line s h ∙ ap (λ (xs : List Text). xs ++ line ∷ []) kept,
      rw (retain_fitting line s h) (
        omega (arith, length-append {0} rest (line ∷ [])),
        omega (arith, roomy h, total-append rest (line ∷ [])),
      ),
      (λ m lt fits. ground (
        arith,
        must m lt,
        fits,
        length-append (drop m s.lines) (line ∷ []),
        total-append (drop m s.lines) (line ∷ []),
      )),
    )

-- A subscriber whose channel has not been closed and has room for a line at all gets the line as
-- the last of its buffer, whether it reads or not; the oldest buffered line gives way if the
-- channel is full, and no other does.
pub deliver_newest :
    (line : Text) (c : Channel)
    → c.subscribed ≡ true
    → 0 < c.size
    → HasRoom c
    → (deliver line c).buffer
      ≡ drop (if ltb (length c.buffer) c.size then 0 else 1) c.buffer ++ line ∷ []
unfolding deliver
deliver_newest line c sub size room = ground arith

-- No subscriber of the stream is left.
abbrev pub IsLeft : Channel → Type 0
IsLeft c = c.subscribed ≡ false

drop_channel-IsLeft : (cs : List Channel) → All IsLeft (map drop_channel cs)
drop_channel-IsLeft [] = tt
drop_channel-IsLeft (c ∷ cs) = (ground arith, drop_channel-IsLeft cs)

close_open :
    (s : LogStream)
    → s.closed ≡ false
    → close s ≡ (
        let t = if not (is_nil s.partial) || s.truncated then publish_partial s else s in
        record t { closed = true; channels = map drop_channel t.channels })
unfolding close
close_open s e = ground arith

close_partial :
    (s : LogStream)
    → s.closed ≡ false
    → ((close s).partial ≡ []) × ((close s).truncated ≡ false) × ((close s).closed ≡ true)
unfolding close publish_partial
close_partial s e = ground arith

-- Closing an open stream publishes a line that is not complete, if there is one, takes every
-- subscriber off the stream and closes it for good: a second close and any later write change
-- nothing.
pub close_lem :
    (s : LogStream)
    → s.closed ≡ false
    → ((close s).lines ≡ (
        if not (is_nil s.partial) || s.truncated then (publish (line_of s) s).lines else s.lines))
      × ((close s).partial ≡ [])
      × ((close s).truncated ≡ false)
      × All IsLeft (close s).channels
      × (close (close s) ≡ close s)
      × ((value : Text) → write value (close s) ≡ close s)
unfolding close publish_partial
close_lem s e =
    let p = close_partial s e in
    (
      ground arith,
      p.0,
      p.1,
      rw (close_open s e) (drop_channel-IsLeft _),
      (unfold close in ground (arith, p.2)),
      (λ value. unfold write in ground (arith, p.2)),
    )
