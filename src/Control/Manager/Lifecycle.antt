-- ===== src/Control/Manager/Lifecycle.antt =====
-- internal/control/manager.go: how an instance ends, is stopped, listed and forgotten. Each
-- definition is what one critical section of `mu` does, with what was computed for it just before.
use slipway.Common.{
  ℕ, ◌-◌, ◌==◌, Text, codes, text_eq, text_leb, Bool, true, false, not, ◌&&◌, ◌||◌, Option, none,
  some, List, [], ◌∷◌, ◌++◌, leb, ltb, length, take, if◌then◌else◌, Dict, get, put, delete, Result,
  ok, err, filter_where, order_by,
}
use slipway.Control.Logs.{close}
use slipway.Control.Manager.Types.{
  State, Instance, RuntimeInstance, is_live, Row, Registry, Manager,
}
use slipway.Control.Manager.Causes.{GoError, leaf, cancellation_from}

-- `context.Canceled` among the values of errors; a new error has another.
abbrev pub canceled : ℕ
canceled = 0

-- `runtime.ctx.Err()`: the context of an instance ends with that of the manager.
abbrev pub context_error : Manager → RuntimeInstance → Option ℕ
context_error m r = if m.cancelled || r.cancelled then some canceled else none

-- How a runner ends: with an error and its text, or in a panic.
pub data Outcome : Type 0 where
  returned : Outcome
  failed_with : GoError → Text → Outcome
  panicked : Text → Outcome

-- `invokeRunner`: a panic becomes an error.
abbrev pub invoke_runner : Outcome → Option (GoError × Text)
invoke_runner returned = none
invoke_runner (failed_with e text) = some (e, text)
invoke_runner (panicked value) = some (leaf 1, codes "runner panic: " ++ value)

abbrev pub max_retained_error_bytes : ℕ
max_retained_error_bytes = 16384

abbrev pub truncated_suffix : Text
truncated_suffix = codes "... [truncated]"

-- `boundedError`
unfoldable pub bounded_error : Text → Text
bounded_error value =
    if leb (length value) max_retained_error_bytes
    then value
    else take (max_retained_error_bytes - length truncated_suffix) value ++ truncated_suffix

abbrev pub is_stopping : State → Bool
is_stopping State.stopping = true
is_stopping s = false

-- `cancellationFrom(err, contextErr)`, where the context may not have ended.
abbrev pub is_cancellation : GoError → Option ℕ → Bool
is_cancellation e none = false
is_cancellation e (some cause) = cancellation_from e cause

abbrev pub has_ended : Option ℕ → Bool
has_ended none = false
has_ended (some cause) = true

-- Whether the error of a runner is only that it was told to stop.
abbrev pub is_expected : Manager → RuntimeInstance → GoError → Bool
is_expected m r e =
    (is_stopping r.view.state || has_ended (context_error m r))
    && is_cancellation e (context_error m r)

abbrev failed_view : Instance → Text → Instance
failed_view v text = record v { state = State.failed; error = bounded_error text }

abbrev exited_view : Instance → Instance
exited_view v = record v { state = State.exited; error = [] }

-- The terminal view of an instance whose runner has ended.
abbrev outcome_view : Manager → RuntimeInstance → Option (GoError × Text) → Instance
outcome_view m r none = exited_view r.view
outcome_view m r (some (e, text)) =
    if is_expected m r e then exited_view r.view else failed_view r.view text

unfoldable pub final_view : Manager → RuntimeInstance → Outcome → ℕ → Instance
final_view m r outcome now = record (outcome_view m r (invoke_runner outcome)) {
  finished_at = some now;
}

-- `saveViews`: a row that is there gets the view.
abbrev pub save_view : Instance → Dict Row → Dict Row
save_view v rows = elim (get v.id rows) [
  | none ↦ rows
  | some row ↦ put v.id (record row { view = v }) rows
]

unfoldable pub save_views : List Instance → Dict Row → Dict Row
save_views [] rows = rows
save_views (v ∷ vs) rows = save_views vs (save_view v rows)

-- The database refuses with an error, or because it was closed.
abbrev pub refusal : Option Text → Registry → Option Text
refusal (some e) g = some e
refusal none g = if g.closed then some (codes "sql: database is closed") else none

unfoldable pub saved : Option Text → List Instance → Registry → Result Text Registry
saved refused views g = elim (refusal refused g) [
  | some e ↦ err (codes "control: persist lifecycle state: " ++ e)
  | none ↦ ok (record g { rows = save_views views g.rows })
]

-- `delete(m, key)` if the instance owns the key.
unfoldable pub release : Text → Text → Dict Text → Dict Text
release key id owners = elim (get key owners) [
  | none ↦ owners
  | some owner ↦ if text_eq owner id then delete key owners else owners
]

-- An instance leaves the maps of instances and of names.
unfoldable pub forget : Text → RuntimeInstance → Manager → Manager
forget id r m = record m {
  instances = delete id m.instances;
  names = release r.view.name id m.names;
}

unfoldable pub forget_all : List (Text × RuntimeInstance) → Manager → Manager
forget_all [] m = m
forget_all ((id, r) ∷ rest) m = forget_all rest (forget id r m)

-- The order in which terminal instances are forgotten: by the end, then by the start, then by id.
abbrev pub before_by_start : Instance → Instance → Bool
before_by_start a b =
    if not (a.created_at == b.created_at)
    then ltb a.created_at b.created_at
    else not (text_leb b.id a.id)

abbrev finished_before : Option ℕ → Option ℕ → Bool → Bool
finished_before (some s) (some t) otherwise = if not (s == t) then ltb s t else otherwise
finished_before (some s) none otherwise = otherwise
finished_before none o otherwise = otherwise

pub ended_before : Text × RuntimeInstance → Text × RuntimeInstance → Bool
ended_before (i, q) (j, r) =
    finished_before q.view.finished_at r.view.finished_at (before_by_start q.view r.view)

abbrev pub is_terminal : Text × RuntimeInstance → Bool
is_terminal (id, r) = not (is_live r)

abbrev pub is_other : Text → Text × RuntimeInstance → Bool
is_other current (id, r) = not (text_eq id current)

-- The terminal instances that are forgotten as `current` ends.
unfoldable pub excess : Text → Manager → List (Text × RuntimeInstance)
excess current m =
    let terminal = filter_where is_terminal m.instances in
    take (length terminal - m.retained_instances)
      (order_by ended_before (filter_where (is_other current) terminal))

-- `trimTerminatedLocked`: registered instances are durable, and none of them is forgotten.
abbrev pub trim_by : Option Registry → Text → Manager → Manager
trim_by (some g) current m = m
trim_by none current m = forget_all (excess current m) m

unfoldable pub trim : Text → Manager → Manager
trim current m = trim_by m.registry current m

-- The registry's part of `run`: a failure to save is kept for the shutdown.
unfoldable pub persist : Option Text → Instance → Manager → Manager
persist refused v m = elim m.registry [
  | none ↦ m
  | some g ↦ elim (saved refused (v ∷ []) g) [
    | err e ↦ record m { persistence_errors = m.persistence_errors ++ e ∷ [] }
    | ok h ↦ record m { registry = some h }
  ]
]

-- The runtime as its end is published.
abbrev pub ended : Manager → RuntimeInstance → Outcome → ℕ → RuntimeInstance
ended m r outcome now = record r {
  view = record (final_view m r outcome now) { desired_state = r.view.desired_state };
  done = true;
  logs = close r.logs;
}

-- The end of `run`, once the runner of the instance has returned.
unfoldable pub finish_of : Option Text → Outcome → ℕ → Text → RuntimeInstance → Manager → Manager
finish_of refused outcome now id r m =
    let r' = ended m r outcome now in
    let published = record m { instances = put id r' m.instances } in
    let kept = persist refused r'.view published in
    let freed = record kept {
      active_configs = release r.config_identity id kept.active_configs;
      active_databases = release r.view.database_path id kept.active_databases;
    } in
    if r.remove_on_exit then forget id r' freed else trim id freed

-- A runner returns only while its instance is active.
unfoldable pub finish : Option Text → Outcome → ℕ → Text → Manager → Manager
unfolding finish_of
finish refused outcome now id m = elim (get id m.instances) [
  | none ↦ m
  | some r ↦ if is_live r then finish_of refused outcome now id r m else m
]
