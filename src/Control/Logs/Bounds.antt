-- ===== src/Control/Logs/Bounds.antt =====
-- The limits of internal/control/logs.go: lines, bytes, the partial line and every subscriber's
-- channel stay within them.
use slipway.Common.{
  ℕ, zero, suc, ◌+◌, ◌-◌, ◌≤◌, ◌<◌, ◌^◌, Text, Bool, false, ◌||◌, List, [], ◌∷◌, ◌++◌, map, length,
  length-append, length-take, take, All, ◌≡◌, refl, inl, inr, arith, leb, ltb, Bool-cases,
  Option-cases,
}
use slipway.Control.Logs.{
  Channel, replace_oldest, LogStream, deliver, evict, retain, publish, publish_partial, line_of,
  append_segment, cut, write_loop,
}

-- The bytes of the lines together.
abbrev pub total : List Text → ℕ
total [] = 0
total (line ∷ rest) = length line + total rest

pub total-append : (xs ys : List Text) → total (xs ++ ys) ≡ total xs + total ys
total-append [] ys = omega arith
total-append (x ∷ xs) ys = omega (arith, total-append xs ys)

abbrev pub HasRoom : Channel → Type 0
HasRoom c = length c.buffer ≤ c.size

pub record IsBounded (s : LogStream) : Type 0 where
  pub some_capacity : 0 < s.capacity
  pub buffers_fit : s.capacity + s.subscriber_buffer < 2 ^ 63
  pub lines_capped : length s.lines ≤ s.capacity
  pub bytes_counted : s.retained_bytes ≡ total s.lines
  pub bytes_capped : total s.lines ≤ s.max_bytes
  pub partial_capped : length s.partial ≤ s.max_line_bytes
  pub channels_capped : All HasRoom s.channels

module _ (capacity max_bytes incoming : ℕ) (some_capacity : 0 < capacity) where
  pub evict_bounds :
      (lines : List Text) (retained : ℕ)
      → retained ≡ total lines
      → total lines ≤ max_bytes
      → let r = evict capacity max_bytes incoming retained lines in
        (length r.0 < capacity)
        × (r.1 ≡ total r.0)
        × (total r.0 ≤ max_bytes)
        × (incoming ≤ max_bytes → total r.0 + incoming ≤ max_bytes)
  unfolding evict
  evict_bounds [] retained e h = omega arith
  evict_bounds (x ∷ xs) retained e h =
      elim (Bool-cases (leb capacity (length (x ∷ xs)) || ltb max_bytes (retained + incoming))) [
        | inl over ↦ rw over (evict_bounds xs (retained - length x) (omega arith) (omega arith))
        | inr fits ↦ rw fits (ground arith)
      ]

pub All-map {ℓ κ} :
    {A : Type ℓ} (P : A → Type κ) (f : A → A)
    → ((x : A) → P x → P (f x))
    → (xs : List A) → All P xs
    → All P (map f xs)
All-map P f keep [] a = tt
All-map P f keep (x ∷ xs) a = (keep x a.0, All-map P f keep xs a.1)

length-replace_oldest :
    (line : Text) (buffer : List Text) → length (replace_oldest line buffer) ≡ length buffer
length-replace_oldest line [] = refl
length-replace_oldest line (x ∷ xs) = omega (arith, length-append {0} xs (line ∷ []))

deliver-HasRoom : (line : Text) (c : Channel) → HasRoom c → HasRoom (deliver line c)
unfolding deliver
deliver-HasRoom line c h =
    ground (arith, length-append c.buffer (line ∷ []), length-replace_oldest line c.buffer)

retain-IsBounded : (line : Text) (s : LogStream) → IsBounded s → IsBounded (retain line s)
unfolding retain
retain-IsBounded line s b =
    let (short, counted, capped, roomy) =
      evict_bounds s.capacity s.max_bytes (length line) b.some_capacity s.lines s.retained_bytes
        b.bytes_counted b.bytes_capped in
    let kept = (evict s.capacity s.max_bytes (length line) s.retained_bytes s.lines).0 in
    elim (Bool-cases (leb (length line) s.max_bytes)) [
      | inl e ↦ rw e (record {
        some_capacity = b.some_capacity;
        buffers_fit = b.buffers_fit;
        lines_capped = omega (arith, length-append {0} kept (line ∷ []));
        bytes_counted = omega (arith, total-append kept (line ∷ []));
        bytes_capped = ground (arith, total-append kept (line ∷ []), roomy);
        partial_capped = b.partial_capped;
        channels_capped = b.channels_capped;
      })
      | inr e ↦ rw e (record {
        some_capacity = b.some_capacity;
        buffers_fit = b.buffers_fit;
        lines_capped = omega arith;
        bytes_counted = counted;
        bytes_capped = capped;
        partial_capped = b.partial_capped;
        channels_capped = b.channels_capped;
      })
    ]

pub with_channels :
    (s : LogStream) (cs : List Channel) (n : ℕ) (shut : Bool)
    → IsBounded s
    → All HasRoom cs
    → IsBounded (record s { channels = cs; next_subscriber_id = n; closed = shut })
with_channels s cs n shut b a = record {
  some_capacity = b.some_capacity;
  buffers_fit = b.buffers_fit;
  lines_capped = b.lines_capped;
  bytes_counted = b.bytes_counted;
  bytes_capped = b.bytes_capped;
  partial_capped = b.partial_capped;
  channels_capped = a;
}

with_partial :
    (s : LogStream) (text : Text) (cut_off : Bool)
    → IsBounded s
    → length text ≤ s.max_line_bytes
    → IsBounded (record s { partial = text; truncated = cut_off })
with_partial s text cut_off b h = record {
  some_capacity = b.some_capacity;
  buffers_fit = b.buffers_fit;
  lines_capped = b.lines_capped;
  bytes_counted = b.bytes_counted;
  bytes_capped = b.bytes_capped;
  partial_capped = h;
  channels_capped = b.channels_capped;
}

pub publish-IsBounded : (line : Text) (s : LogStream) → IsBounded s → IsBounded (publish line s)
unfolding publish
publish-IsBounded line s b =
    let b' = retain-IsBounded line s b in
    let t = retain line s in
    with_channels t (map (deliver line) t.channels) t.next_subscriber_id t.closed b'
      (All-map HasRoom (deliver line) (deliver-HasRoom line) t.channels b'.channels_capped)

pub publish_partial-IsBounded : (s : LogStream) → IsBounded s → IsBounded (publish_partial s)
unfolding publish_partial
publish_partial-IsBounded s b =
    with_partial (publish (line_of s) s) [] false (publish-IsBounded (line_of s) s b) (omega arith)

append_segment-IsBounded :
    (segment : Text) (s : LogStream) → IsBounded s → IsBounded (append_segment segment s)
unfolding append_segment
append_segment-IsBounded segment s b = ground (
  arith,
  length-append s.partial segment,
  length-append s.partial (take (s.max_line_bytes - length s.partial) segment),
  length-take (s.max_line_bytes - length s.partial) segment,
)

pub write_loop-IsBounded :
    (fuel : ℕ) (value : Text) (s : LogStream) → IsBounded s → IsBounded (write_loop fuel value s)
unfolding write_loop
write_loop-IsBounded zero value s b = b
write_loop-IsBounded (suc fuel) [] s b = b
write_loop-IsBounded (suc fuel) (c ∷ value) s b = elim (Option-cases (cut (c ∷ value)).1) [
  | inl e ↦ rw (e, write_loop) (append_segment-IsBounded (cut (c ∷ value)).0 s b)
  | inr (after, e) ↦
      rw (e, write_loop)
        (write_loop-IsBounded fuel after (publish_partial (append_segment (cut (c ∷ value)).0 s)) (
          publish_partial-IsBounded (append_segment (cut (c ∷ value)).0 s)
            (append_segment-IsBounded (cut (c ∷ value)).0 s b)))
]
