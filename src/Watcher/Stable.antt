-- ===== src/Watcher/Stable.antt =====
-- internal/watcher/stable.go: `WaitStable`, over what the file system, the clock and the context
-- answer.
use slipway.Common.{
  ℕ, ℤ, zero, suc, ◌-◌, ◌*◌, ◌/◌, ◌==◌, Text, clean, decimal, is_negative, pos_part, Bool, true,
  false, not, ◌&&◌, Option, none, some, ◌∷◌, ◌++◌, leb, ltb, if◌then◌else◌, Result, ok, err,
}

-- What is read of an `os.FileInfo`; the time is in nanoseconds.
pub record FileInfo : Type 0 where
  pub size : ℕ
  pub mod_time : ℕ
  pub is_symlink : Bool
  pub is_regular : Bool

-- `fileSignature`
pub record FileSignature : Type 0 where
  pub size : ℕ
  pub modified_at : ℕ

abbrev pub signature_of : FileInfo → FileSignature
signature_of info = record { size = info.size; modified_at = info.mod_time }

abbrev pub same_signature : FileSignature → FileSignature → Bool
same_signature s t = s.size == t.size && s.modified_at == t.modified_at

pub record File : Type 0 where
  pub path : Text
  pub size : ℕ
  pub mod_time : ℕ
  pub fingerprint : Text

pub data WaitError : Type 0 where
  context_required negative_settle : WaitError
  context_done : ℕ → WaitError
  unresolved : Text → WaitError
  lstat_failed symlink irregular : Text → WaitError

-- What a wait meets: `filepath.Abs`, the SHA-256 of a text in hexadecimal, the context at the start
-- (`none` for a nil context), `os.Lstat` by the number of the call, the end of the context by the
-- number of the wait that it interrupts, and the clock: as the loop compares it in each pass, and as
-- it is read behind each `os.Lstat`.
pub record World : Type 0 where
  pub abs : Text → Result Text Text
  pub digest : Text → Text
  pub start : Option (Option ℕ)
  pub lstat : ℕ → Result Text FileInfo
  pub ends : ℕ → Option ℕ
  pub compared : ℕ → ℕ
  pub stamped : ℕ → ℕ

-- `snapshot`
pub snapshot : World → Text → FileInfo → File
snapshot w path info = record {
  path = path;
  size = info.size;
  mod_time = info.mod_time;
  fingerprint = w.digest (path ++ 0 ∷ decimal info.size ++ 0 ∷ decimal info.mod_time);
}

-- `regularFileInfo`
abbrev pub regular : Text → Result Text FileInfo → Result WaitError FileInfo
regular path (err e) = err (lstat_failed e)
regular path (ok info) =
    if info.is_symlink
    then err (symlink path)
    else if not info.is_regular
    then err (irregular path)
    else ok info

unfoldable pub regular_file_info : World → Text → ℕ → Result WaitError FileInfo
regular_file_info w path i = regular path (w.lstat i)

abbrev millisecond : ℕ
millisecond = 1000000

-- A fifth of the time to settle, between a millisecond and a quarter of a second.
unfoldable pub poll_interval : ℕ → ℕ
poll_interval settle_for =
    if ltb (settle_for / 5) millisecond
    then millisecond
    else if ltb (250 * millisecond) (settle_for / 5)
    then 250 * millisecond
    else settle_for / 5

-- How long a pass waits that has so much time left.
unfoldable pub wait_for : ℕ → ℕ → ℕ
wait_for settle_for remaining =
    if ltb remaining (poll_interval settle_for) then remaining else poll_interval settle_for

-- The loop, in its pass `i`, with the time since which the signature has been `last`: `none` says
-- that the fuel ran out. The timer of
-- `wait_for` shows in the clock only.
unfoldable pub settle :
    ℕ → World → Text → ℕ → ℕ → ℕ → FileSignature → FileInfo → Option (Result WaitError File)
settle zero w path settle_for i since last info = none
settle (suc fuel) w path settle_for i since last info =
    elim (leb settle_for (w.compared i - since)) [
      | true ↦ some (ok (snapshot w path info))
      | false ↦ elim (w.ends i) [
        | some cause ↦ some (err (context_done cause))
        | none ↦ elim (regular_file_info w path (suc i)) [
          | err e ↦ some (err e)
          | ok current ↦ elim (same_signature (signature_of current) last) [
            | true ↦ settle fuel w path settle_for (suc i) since last current
            | false ↦
                settle fuel w path settle_for (suc i) (w.stamped (suc i)) (signature_of current)
                  current
          ]
        ]
      ]
    ]

abbrev pub settle_first :
    ℕ → World → Text → ℕ → Result WaitError FileInfo → Option (Result WaitError File)
settle_first fuel w path settle_for (err e) = some (err e)
settle_first fuel w path settle_for (ok info) =
    if settle_for == 0
    then some (ok (snapshot w path info))
    else settle fuel w path settle_for 0 (w.stamped 0) (signature_of info) info

abbrev pub settle_at : ℕ → World → ℕ → Result Text Text → Option (Result WaitError File)
settle_at fuel w settle_for (err e) = some (err (unresolved e))
settle_at fuel w settle_for (ok path) =
    settle_first fuel w (clean path) settle_for (regular_file_info w (clean path) 0)

-- `WaitStable`
unfoldable pub wait_stable : ℕ → World → Text → ℤ → Option (Result WaitError File)
wait_stable fuel w filename settle_for = elim w.start [
  | none ↦ some (err context_required)
  | some (some cause) ↦ some (err (context_done cause))
  | some none ↦
      if is_negative settle_for
      then some (err negative_settle)
      else settle_at fuel w (pos_part settle_for) (w.abs filename)
]
