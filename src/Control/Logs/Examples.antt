-- ===== src/Control/Logs/Examples.antt =====
-- A small log stream (internal/control/logs.go): the theorems at inputs that meet their hypotheses.
use slipway.Common.{arith, pos, negsuc, codes, true, false, some, List, [], ◌∷◌, ◌++◌, ◌≡◌}
use slipway.Control.Logs.{Channel, LogStream, new_log_stream, publish, write}
use slipway.Control.Logs.Bounds.{IsBounded, publish-IsBounded}
use slipway.Control.Logs.Waits.{
  Op, writes, subscribes, receives, closes, run, never_waits, new_log_stream-IsBounded,
}
use slipway.Control.Logs.Chunks.{write-append}

-- Two lines of together twelve bytes at most, each cut off after four.
abbrev small : LogStream
small = new_log_stream (pos 2) (pos 1) (pos 4) (pos 12)

small-IsBounded : IsBounded small
small-IsBounded = new_log_stream-IsBounded (pos 2) (pos 1) (pos 4) (pos 12) (omega arith)

abbrev two_lines : LogStream
two_lines = publish (codes "bb\n") (publish (codes "a\n") small)

two_lines-IsBounded : IsBounded two_lines
two_lines-IsBounded =
    publish-IsBounded (codes "bb\n") (publish (codes "a\n") small)
      (publish-IsBounded (codes "a\n") small small-IsBounded)

abbrev script : List Op
script =
    writes (codes "one\ntw") ∷ subscribes ∷ writes (codes "o\nthree\n") ∷ receives 1 ∷ closes ∷ []

never_waits_example :
    (t : LogStream) × (run script (new_log_stream (pos 2) (pos 1) (negsuc 0) (pos 12)) ≡ some t)
    × IsBounded t
never_waits_example = never_waits (pos 2) (pos 1) (negsuc 0) (pos 12) script (omega arith)

write-append_example :
    write (codes "cdef\ng") (write (codes "ab") small) ≡ write (codes "ab" ++ codes "cdef\ng") small
write-append_example = write-append (codes "ab") (codes "cdef\ng") small

abbrev full : Channel
full = record {
  id = 1;
  size = 2;
  buffer = codes "x\n" ∷ codes "y\n" ∷ [];
  closed = false;
  subscribed = true;
}
