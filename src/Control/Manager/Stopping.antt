-- ===== src/Control/Manager/Stopping.antt =====
-- internal/control/manager.go: `Stop`, `Shutdown`, and the methods that read the instances.
use slipway.Common.{
  Text, text_eq, text_leb, Bool, true, not, ◌||◌, Option, none, some, List, [], ◌∷◌, ◌==◌, ltb, map,
  map_values, if◌then◌else◌, put, Result, ok, err, filter_where, order_by,
}
use slipway.Control.Manager.Types.{
  State, stopped, Instance, is_active, RuntimeInstance, is_live, Registry, Manager, Error,
  shutting_down, not_active, failed_at, is_closing,
}
use slipway.Control.Manager.Lifecycle.{saved}
use slipway.Control.Manager.Names.{resolve}

-- A running instance is asked to stop: its state says so, and its context is cancelled.
abbrev stop_state : State → State
stop_state State.running = State.stopping
stop_state s = s

abbrev pub told : RuntimeInstance → RuntimeInstance
told r = record r { view = record (r.view) { state = stop_state r.view.state }; cancelled = true }

abbrev pub with_runtime : RuntimeInstance → Manager → Manager
with_runtime r m = record m { instances = put r.view.id r m.instances }

-- What `Stop` returns at once, or the instance that it waits for.
pub data Stopped : Type 0 where
  at_once : Instance → Stopped
  waits_for : Text → Stopped

-- `Stop` of an instance, behind what the registry does.
abbrev pub stop_runtime : RuntimeInstance → Manager → Result Error Stopped × Manager
stop_runtime r m =
    if is_live r
    then (ok (waits_for r.view.id), with_runtime (told r) m)
    else (err (not_active r.view.name r.view.state), m)

abbrev pub unwanted : RuntimeInstance → RuntimeInstance
unwanted r = record r { view = record (r.view) { desired_state = stopped } }

-- The registry's part of `Stop`: that the instance is stopped is saved before it is.
abbrev pub stop_saved :
    RuntimeInstance → Manager → Result Text Registry → Result Error Stopped × Manager
stop_saved r m (err e) = (err (failed_at [] e), m)
stop_saved r m (ok h) =
    let m' = with_runtime (unwanted r) (record m { registry = some h }) in
    if is_live r then stop_runtime (unwanted r) m' else (ok (at_once (unwanted r).view), m')

abbrev pub stop_registered :
    Option Text → RuntimeInstance → Registry → Manager → Result Error Stopped × Manager
stop_registered refused r g m =
    if is_closing m
    then (err shutting_down, m)
    else stop_saved r m (saved refused ((unwanted r).view ∷ []) g)

-- `Stop`, up to where it waits.
unfoldable pub stop : Option Text → Text → Manager → Result Error Stopped × Manager
stop refused selector m = elim (resolve m selector) [
  | err e ↦ (err e, m)
  | ok r ↦ elim m.registry [ none ↦ stop_runtime r m | some g ↦ stop_registered refused r g m ]
]

-- An active instance is told to stop.
unfoldable pub tell : RuntimeInstance → RuntimeInstance
tell r = if is_live r then told r else r

-- `Shutdown`, up to where it waits for the instances that it told to stop.
unfoldable pub begin_shutdown : Manager → Manager
begin_shutdown m = record m {
  shutting_down = true;
  cancelled = true;
  instances = map_values tell m.instances;
}

-- The end of `Shutdown`, where every instance has ended.
unfoldable pub end_shutdown : Manager → List Text × Manager
end_shutdown m = elim m.registry [
  | none ↦ ([], m)
  | some g ↦ (m.persistence_errors, record m { registry = some (record g { closed = true }) })
]

-- `Wait`: the view of an instance that has ended. `none` says that it goes on waiting.
pub wait : Text → Manager → Result Error (Option Instance)
wait selector m = elim (resolve m selector) [
  | err e ↦ err e
  | ok r ↦ ok (if r.done then some r.view else none)
]

-- `Get`
pub get_instance : Text → Manager → Result Error Instance
get_instance selector m = elim (resolve m selector) [ err e ↦ err e | ok r ↦ ok r.view ]

-- The order of `List`: the newest first, then by name and id.
pub listed_before : Instance → Instance → Bool
listed_before a b =
    if not (a.created_at == b.created_at)
    then ltb b.created_at a.created_at
    else if not (text_eq a.name b.name)
    then not (text_leb b.name a.name)
    else not (text_leb b.id a.id)

abbrev pub view_of : Text × RuntimeInstance → Instance
view_of (id, r) = r.view

-- `List`
pub list : Bool → Manager → List Instance
list all m =
    order_by listed_before (filter_where (λ v. all || is_active v) (map view_of m.instances))
