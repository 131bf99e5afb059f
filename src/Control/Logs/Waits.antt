-- ===== src/Control/Logs/Waits.antt =====
-- No subscription of internal/control/logs.go waits for a reader, and all operations keep the limits.
use mathlib.Core.List.{append-nil, append_assoc}
use slipway.Common.{
  ◌%◌, ◌^◌, if_both, lt→ltb, ℕ, ◌+◌, ◌≤◌, ◌<◌, ℤ, Text, Bool, true, not, ◌||◌, Option, none, some,
  List, [], ◌∷◌, ◌++◌, map, length, length-append, All-append, ◌≡◌, refl, arith, ◌==◌,
  if◌then◌else◌,
}
use slipway.Control.Logs.{
  or_default, default_log_capacity, default_log_subscriber_buffer, Channel, LogStream,
  new_log_stream, publish_partial, is_nil, write_loop, write, send_all, buffer_size, subscribe,
  drop_channel, close, cancel,
}
use slipway.Control.Logs.Bounds.{
  HasRoom, IsBounded, All-map, with_channels, publish_partial-IsBounded, write_loop-IsBounded,
}

-- What a holder of the stream, or of a subscription, may do.
pub data Op : Type 0 where
  writes : Text → Op
  subscribes : Op
  receives : ℕ → Op
  cancels : ℕ → Op
  closes : Op

abbrev tail : List Text → List Text
tail [] = []
tail (line ∷ rest) = rest

-- A receive takes the oldest buffered line of the subscription, if there is one.
abbrev pub receive : ℕ → Channel → Channel
receive id c = if c.id == id then record c { buffer = tail c.buffer } else c

-- `none` where the operation would wait for ever with the mutex held.
pub step : Op → LogStream → Option LogStream
step (writes value) s = some (write value s)
step subscribes s = elim (subscribe s) [ none ↦ none | some (id, t) ↦ some t ]
step (receives id) s = some (record s { channels = map (receive id) s.channels })
step (cancels id) s = some (cancel id s)
step closes s = some (close s)

pub run : List Op → LogStream → Option LogStream
run [] s = some s
run (op ∷ ops) s = elim (step op s) [ none ↦ none | some t ↦ run ops t ]

send_all-some :
    (size : ℕ) (buffer lines : List Text)
    → length buffer + length lines ≤ size
    → send_all size buffer lines ≡ some (buffer ++ lines)
unfolding send_all
send_all-some size buffer [] h = rw append-nil
send_all-some size buffer (line ∷ rest) h = rw (
  lt→ltb (length buffer) size (omega arith),
  send_all-some size (buffer ++ line ∷ []) rest
      (omega (arith, length-append {0} buffer (line ∷ []))),
  append_assoc,
)

drop_channel-HasRoom : (c : Channel) → HasRoom c → HasRoom (drop_channel c)
drop_channel-HasRoom c h = ground arith

length-tail-le : (xs : List Text) → length (tail xs) ≤ length xs
length-tail-le [] = omega arith
length-tail-le (x ∷ xs) = omega arith

receive-HasRoom : (id : ℕ) (c : Channel) → HasRoom c → HasRoom (receive id c)
receive-HasRoom id c h = ground (arith, length-tail-le c.buffer)

cancel-HasRoom :
    (id : ℕ) (c : Channel) → HasRoom c → HasRoom (if c.id == id then drop_channel c else c)
cancel-HasRoom id c h = ground arith

write-IsBounded : (value : Text) (s : LogStream) → IsBounded s → IsBounded (write value s)
unfolding write
write-IsBounded value s b =
    if_both IsBounded s.closed s (write_loop (length value) value s) b
      (write_loop-IsBounded (length value) value s b)

shut :
    (s : LogStream)
    → IsBounded s
    → IsBounded (record s { closed = true; channels = map drop_channel s.channels })
shut s b =
    with_channels s (map drop_channel s.channels) s.next_subscriber_id true b
      (All-map HasRoom drop_channel drop_channel-HasRoom s.channels b.channels_capped)

close-IsBounded : (s : LogStream) → IsBounded s → IsBounded (close s)
unfolding close
close-IsBounded s b =
    let pending = not (is_nil s.partial) || s.truncated in
    let flushed = if pending then publish_partial s else s in
    if_both IsBounded s.closed s
      (record flushed { closed = true; channels = map drop_channel flushed.channels }) b
      (shut flushed
        (if_both IsBounded pending (publish_partial s) s (publish_partial-IsBounded s b) b))

-- The channel of a new subscription, which holds the history.
abbrev pub opened : ℕ → Bool → LogStream → Channel
opened id live s = record {
  id = id;
  size = buffer_size s;
  buffer = s.lines;
  closed = not live;
  subscribed = live;
}

-- Where the sum does not overflow, it is the size.
buffer_size-sum : (s : LogStream) → IsBounded s → buffer_size s ≡ s.capacity + s.subscriber_buffer
unfolding buffer_size
buffer_size-sum s b =
    let same : (s.capacity + s.subscriber_buffer) % 2 ^ 64 ≡ s.capacity + s.subscriber_buffer =
      omega (arith, b.buffers_fit) in
    rw same (ground (arith, b.buffers_fit, b.some_capacity))

history_fits : (s : LogStream) → IsBounded s → length s.lines + s.subscriber_buffer ≤ buffer_size s
history_fits s b = omega (arith, b.lines_capped, buffer_size-sum s b)

-- A subscription to a stream within its limits does not wait. Its channel holds the whole retained
-- history and has room for as many more lines as the subscriber's buffer has; on a closed stream
-- the channel is closed and the stream does not know it, and on an open one it has a new id.
pub subscribe_history :
    (s : LogStream)
    → IsBounded s
    → let id = if s.closed then 0 else (s.next_subscriber_id + 1) % 2 ^ 64 in
      (subscribe s
        ≡ some (
          id,
          record s {
            next_subscriber_id = if s.closed then s.next_subscriber_id else id;
            channels = s.channels ++ opened id (not s.closed) s ∷ [];
          },
        ))
      × (length s.lines + s.subscriber_buffer ≤ buffer_size s)
unfolding subscribe
subscribe_history s b =
    let sent = send_all-some (buffer_size s) [] s.lines (omega (arith, history_fits s b)) in
    (ground (arith, sent), history_fits s b)

subscribe-IsBounded :
    (s : LogStream) → IsBounded s → (t : LogStream) × (step subscribes s ≡ some t) × IsBounded t
unfolding step
subscribe-IsBounded s b =
    let id = if s.closed then 0 else (s.next_subscriber_id + 1) % 2 ^ 64 in
    let room : length s.lines ≤ buffer_size s = omega (arith, history_fits s b) in
    (
      _,
      ground (arith, (subscribe_history s b).0),
      with_channels s (s.channels ++ opened id (not s.closed) s ∷ [])
          (if s.closed then s.next_subscriber_id else id) s.closed b
          (All-append HasRoom s.channels (opened id (not s.closed) s ∷ []) b.channels_capped
            (room, tt)),
    )

step-IsBounded :
    (op : Op) (s : LogStream) → IsBounded s → (t : LogStream) × (step op s ≡ some t) × IsBounded t
unfolding step cancel
step-IsBounded (writes value) s b = (write value s, refl, write-IsBounded value s b)
step-IsBounded subscribes s b = subscribe-IsBounded s b
step-IsBounded (receives id) s b = (
  _,
  refl,
  with_channels s (map (receive id) s.channels) s.next_subscriber_id s.closed b
      (All-map HasRoom (receive id) (receive-HasRoom id) s.channels b.channels_capped),
)
step-IsBounded (cancels id) s b = (
  _,
  refl,
  with_channels s (map (λ c. if c.id == id then drop_channel c else c) s.channels)
      s.next_subscriber_id s.closed b
      (All-map HasRoom (λ c. if c.id == id then drop_channel c else c) (cancel-HasRoom id)
        s.channels b.channels_capped),
)
step-IsBounded closes s b = (close s, refl, close-IsBounded s b)

run-IsBounded :
    (ops : List Op) (s : LogStream)
    → IsBounded s
    → (t : LogStream) × (run ops s ≡ some t) × IsBounded t
unfolding run
run-IsBounded [] s b = (s, refl, b)
run-IsBounded (op ∷ ops) s b =
    let (t, e, b') = step-IsBounded op s b in
    let (u, f, b'') = run-IsBounded ops t b' in (u, rw (e, run) f, b'')

-- The two sizes, by their values or their defaults, add up to a Go int.
abbrev pub AreModest : ℤ → ℤ → Type 0
AreModest capacity subscriber_buffer =
    or_default capacity default_log_capacity
      + or_default subscriber_buffer default_log_subscriber_buffer
    < 2 ^ 63

pub new_log_stream-IsBounded :
    (capacity subscriber_buffer line_bytes bytes : ℤ)
    → AreModest capacity subscriber_buffer
    → IsBounded (new_log_stream capacity subscriber_buffer line_bytes bytes)
unfolding new_log_stream
new_log_stream-IsBounded capacity subscriber_buffer line_bytes bytes fit = record {
  some_capacity = ground arith;
  buffers_fit = fit;
  lines_capped = omega arith;
  bytes_counted = refl;
  bytes_capped = omega arith;
  partial_capped = omega arith;
  channels_capped = tt;
}

-- Where the capacity and the buffer of the subscribers add up to a Go int, whatever the other settings
-- of a new stream and whatever is done with it afterwards, no subscription waits for a reader as it
-- sends the history, and the stream keeps its limits: at most `capacity` lines of together at most
-- `max_bytes` bytes, which it counts exactly, a partial line of at most `max_line_bytes`, and in the
-- channel of each subscription at most as many lines as it was made for.
pub never_waits :
    (capacity subscriber_buffer line_bytes bytes : ℤ) (ops : List Op)
    → AreModest capacity subscriber_buffer
    → (t : LogStream) × (run ops (new_log_stream capacity subscriber_buffer line_bytes bytes)
        ≡ some t)
      × IsBounded t
never_waits capacity subscriber_buffer line_bytes bytes ops fit =
    run-IsBounded ops (new_log_stream capacity subscriber_buffer line_bytes bytes)
      (new_log_stream-IsBounded capacity subscriber_buffer line_bytes bytes fit)
