-- ===== src/Control/Logs.antt =====
-- internal/control/logs.go: the bounded log stream of an instance. Every operation runs under the
-- stream's mutex, so it is one step on the stream's state; a receive by a subscriber is a step too.
pub mod Bounds
pub mod Waits
pub mod Chunks
pub mod Publishing
mod Examples
use slipway.Common.{
  ℕ, zero, suc, ◌+◌, ◌-◌, ◌%◌, ◌^◌, ℤ, pos, pos_part, is_positive, Text, codes, Bool, true, false,
  not, ◌&&◌, ◌||◌, Option, none, some, List, [], ◌∷◌, ◌++◌, map, length, take, ltb, leb, ◌==◌,
  if◌then◌else◌, max,
}

-- A subscriber's channel. `subscribed` says that the stream's map holds it.
pub record Channel : Type 0 where
  pub id : ℕ
  pub size : ℕ
  pub buffer : List Text
  pub closed : Bool
  pub subscribed : Bool

pub record LogStream : Type 0 where
  pub capacity : ℕ
  pub subscriber_buffer : ℕ
  pub max_line_bytes : ℕ
  pub max_bytes : ℕ
  pub retained_bytes : ℕ
  pub lines : List Text
  pub partial : Text
  pub truncated : Bool
  pub channels : List Channel
  pub next_subscriber_id : ℕ
  pub closed : Bool

abbrev pub or_default : ℤ → ℕ → ℕ
or_default n d = if is_positive n then pos_part n else d

abbrev pub default_log_capacity : ℕ
default_log_capacity = 256

abbrev pub default_log_subscriber_buffer : ℕ
default_log_subscriber_buffer = 32

abbrev pub default_max_log_line_bytes : ℕ
default_max_log_line_bytes = 65536

abbrev pub default_max_log_bytes : ℕ
default_max_log_bytes = 262144

pub new_log_stream : ℤ → ℤ → ℤ → ℤ → LogStream
new_log_stream capacity subscriber_buffer max_line_bytes max_bytes = record {
  capacity = or_default capacity default_log_capacity;
  subscriber_buffer = or_default subscriber_buffer default_log_subscriber_buffer;
  max_line_bytes = or_default max_line_bytes default_max_log_line_bytes;
  max_bytes = or_default max_bytes default_max_log_bytes;
  retained_bytes = 0;
  lines = [];
  partial = [];
  truncated = false;
  channels = [];
  next_subscriber_id = 0;
  closed = false;
}

abbrev pub replace_oldest : Text → List Text → List Text
replace_oldest line [] = []
replace_oldest line (oldest ∷ rest) = rest ++ line ∷ []

-- `select { case output <- line: default: <-output; output <- line }`, with no receive in between.
pub deliver : Text → Channel → Channel
deliver line c =
    if not c.subscribed
    then c
    else if ltb (length c.buffer) c.size
    then record c { buffer = c.buffer ++ line ∷ [] }
    else record c { buffer = replace_oldest line c.buffer }

-- The loop that drops the oldest lines: what is retained, and its bytes.
pub evict : ℕ → ℕ → ℕ → ℕ → List Text → List Text × ℕ
evict capacity max_bytes incoming retained [] = ([], retained)
evict capacity max_bytes incoming retained (oldest ∷ rest) =
    let next = evict capacity max_bytes incoming (retained - length oldest) rest in
    if leb capacity (length (oldest ∷ rest)) || ltb max_bytes (retained + incoming)
    then next
    else (oldest ∷ rest, retained)

pub retain : Text → LogStream → LogStream
retain line s =
    let (kept, bytes) = evict s.capacity s.max_bytes (length line) s.retained_bytes s.lines in
    if leb (length line) s.max_bytes
    then record s { lines = kept ++ line ∷ []; retained_bytes = bytes + length line }
    else record s { lines = kept; retained_bytes = bytes }

pub publish : Text → LogStream → LogStream
unfolding deliver retain evict
publish line s = let t = retain line s in record t { channels = map (deliver line) t.channels }

abbrev pub truncation_mark : Text
truncation_mark = codes "... [truncated]"

abbrev pub newline : ℕ
newline = 10

abbrev pub line_of : LogStream → Text
line_of s = (s.partial ++ (if s.truncated then truncation_mark else [])) ++ newline ∷ []

pub publish_partial : LogStream → LogStream
publish_partial s = record (publish (line_of s) s) { partial = []; truncated = false }

abbrev pub is_nil : Text → Bool
is_nil [] = true
is_nil (c ∷ s) = false

pub append_segment : Text → LogStream → LogStream
append_segment segment s =
    if s.truncated || is_nil segment
    then s
    else if leb s.max_line_bytes (length s.partial)
    then record s { truncated = true }
    else if leb (length segment) (s.max_line_bytes - length s.partial)
    then record s { partial = s.partial ++ segment }
    else record s {
      partial = s.partial ++ take (s.max_line_bytes - length s.partial) segment;
      truncated = true;
    }

-- `bytes.IndexByte(value, '\n')`: what stands before the newline, and what follows it.
pub cut : Text → Text × Option Text
cut [] = ([], none)
cut (c ∷ s) =
    let (segment, rest) = cut s in if c == newline then ([], some s) else (c ∷ segment, rest)

-- The loop of `Write`. Each round takes a byte at least, so the length of the value is enough fuel.
pub write_loop : ℕ → Text → LogStream → LogStream
write_loop zero value s = s
write_loop (suc fuel) [] s = s
write_loop (suc fuel) (c ∷ value) s =
    let (segment, rest) = cut (c ∷ value) in
    elim rest [
      | none ↦ append_segment segment s
      | some after ↦ write_loop fuel after (publish_partial (append_segment segment s))
    ]

pub write : Text → LogStream → LogStream
write value s = if s.closed then s else write_loop (length value) value s

abbrev pub snapshot : LogStream → List Text
snapshot s = s.lines

-- Sends on a channel that nobody receives from: `none` where one of them would wait for ever.
pub send_all : ℕ → List Text → List Text → Option (List Text)
send_all size buffer [] = some buffer
send_all size buffer (line ∷ rest) =
    let next = send_all size (buffer ++ line ∷ []) rest in
    if ltb (length buffer) size then next else none

-- The sum of two Go ints wraps around; a negative sum and 0 count as 1.
pub buffer_size : LogStream → ℕ
buffer_size s =
    let sum = (s.capacity + s.subscriber_buffer) % 2 ^ 64 in
    if leb (2 ^ 63) sum || sum == 0 then 1 else sum

-- `none` where a send of the history would wait for ever with the mutex held. The id of the new
-- subscription comes back; it is 0 on a closed stream, whose channel is closed and in no map.
pub subscribe : LogStream → Option (ℕ × LogStream)
unfolding send_all
subscribe s = elim (send_all (buffer_size s) [] s.lines) [
  | none ↦ none
  | some buffer ↦
      if s.closed
      then some (
        0,
        record s {
          channels =
              s.channels
              ++ record {
                id = 0;
                size = buffer_size s;
                buffer = buffer;
                closed = true;
                subscribed = false;
              }
                ∷ [];
        },
      )
      else some (
        (s.next_subscriber_id + 1) % 2 ^ 64,
        record s {
          next_subscriber_id = (s.next_subscriber_id + 1) % 2 ^ 64;
          channels =
              s.channels
              ++ record {
                id = (s.next_subscriber_id + 1) % 2 ^ 64;
                size = buffer_size s;
                buffer = buffer;
                closed = false;
                subscribed = true;
              }
                ∷ [];
        },
      )
]

abbrev pub drop_channel : Channel → Channel
drop_channel c = if c.subscribed then record c { closed = true; subscribed = false } else c

pub close : LogStream → LogStream
close s =
    if s.closed
    then s
    else (let t = if not (is_nil s.partial) || s.truncated then publish_partial s else s in
        record t { closed = true; channels = map drop_channel t.channels })

-- `LogSubscription.Cancel`
pub cancel : ℕ → LogStream → LogStream
cancel id s = record s { channels = map (λ c. if c.id == id then drop_channel c else c) s.channels }
