-- ===== src/Control/Registry/Registered.antt =====
-- internal/control/registry.go and registered.go: how the registrations of a state directory are
-- loaded, resumed and restored.
use slipway.Common.{
  ℕ, ◌+◌, Text, codes, text_eq, text_leb, Bool, true, false, not, ◌&&◌, is_some, Option, none, some,
  List, [], ◌∷◌, ◌++◌, length, if◌then◌else◌, Dict, put, Result, ok, err, ◌>>=◌, filter_where,
  order_by,
}
use slipway.Control.Logs.{close}
use slipway.Control.Manager.Types.{
  State, DesiredState, unset, wanted, stopped, Instance, is_active, Config, KnownQueue,
  RuntimeInstance, is_live, Row, Registry, Manager, Options, Error, shutting_down, context_ended,
  already_active, invalid_snapshot, invalid_registered, no_context, not_found, failed_at,
  nil_pointer, new_logs, is_closing, new_manager,
}
use slipway.Control.Manager.Lifecycle.{bounded_error, saved}
use slipway.Control.Manager.Names.{Runes, valid_id, valid_display_name}

-- What a load asks: which runes a name may have, `config.Validate` of a snapshot, which is none of
-- what is modelled here, and the clock by the number of the call.
pub record Loading : Type 0 where
  pub runes : Runes
  pub validate : Config → Option Text
  pub clock : ℕ → ℕ

-- The entry of the catalog of queues for a registration.
abbrev pub known_of : Instance → Text → List Text → KnownQueue
known_of v identity watch_names = record {
  identity = v.database_path;
  config_identity = identity;
  config_path = v.config_path;
  config_hash = v.config_hash;
  database_path = v.database_path;
  database_aliases = [];
  watch_names = watch_names;
}

abbrev pub watches_of : Option Config → List Text
watches_of none = []
watches_of (some c) = c.watch_names

-- A runtime that is launched, or one that has ended.
abbrev pub registered : Manager → Instance → Text → Option Config → Bool → RuntimeInstance
registered m v identity config launched = record {
  view = v;
  config = config;
  config_identity = identity;
  remove_on_exit = false;
  cancelled = not launched;
  done = not launched;
  logs = if launched then new_logs m else close (new_logs m);
}

-- `registerRuntime`, for a runtime whose configuration watches `watch_names`.
unfoldable pub enter : List Text → Bool → RuntimeInstance → Manager → Manager
enter watch_names launched r m = record m {
  instances = put r.view.id r m.instances;
  names = put r.view.name r.view.id m.names;
  known_queues =
      put r.view.database_path (known_of r.view r.config_identity watch_names) m.known_queues;
  active_configs =
      if launched then put r.config_identity r.view.id m.active_configs else m.active_configs;
  active_databases =
      if launched
      then put r.view.database_path r.view.id m.active_databases
      else m.active_databases;
}

unfoldable pub register_runtime : Instance → Text → Option Config → Bool → Manager → Manager
register_runtime v identity config launched m =
    enter (watches_of config) launched (registered m v identity config launched) m

abbrev pub is_decided : DesiredState → Bool
is_decided unset = false
is_decided wanted = true
is_decided stopped = true

-- The check of a row as it is loaded.
unfoldable pub is_valid_row : Runes → Text × Row → Bool
is_valid_row runes (id, w) =
    valid_id id
    && valid_display_name runes w.name
    && text_eq w.view.id id
    && text_eq w.view.name w.name
    && not (text_eq w.identity [])
    && is_decided w.view.desired_state

-- An instance that was active when the daemon ended has exited.
abbrev pub left_over : ℕ → Instance → Instance
left_over now v =
    if is_active v then record v { state = State.exited; finished_at = some now } else v

abbrev pub calls_of : Instance → ℕ
calls_of v = if is_active v then 1 else 0

-- An instance whose snapshot is refused has failed.
abbrev pub checked_view : Option Text → Instance → Instance
checked_view none v = v
checked_view (some e) v = record v {
  state = State.failed;
  error = bounded_error (codes "restore configuration: " ++ e);
}

abbrev pub checked_config : Option Text → Config → Option Config
checked_config none c = some c
checked_config (some e) c = none

abbrev pub loaded_runtime : Loading → ℕ → Manager → Row → RuntimeInstance
loaded_runtime l i m w =
    let refused = l.validate w.config in
    registered m (checked_view refused (left_over (l.clock i) w.view)) w.identity
      (checked_config refused w.config) false

-- A refused configuration is dropped as the runtime is entered, where nobody sees it in between.
unfoldable pub enter_row : Loading → ℕ → Row → Manager → Manager
enter_row l i w m = enter w.config.watch_names false (loaded_runtime l i m w) m

-- The loop over the rows, with the number of the clock's next reading.
unfoldable pub load_rows : Loading → ℕ → Dict Row → Manager → Result Error Manager
load_rows l i [] m = ok m
load_rows l i ((id, w) ∷ rest) m = elim (is_valid_row l.runes (id, w)) [
  | false ↦ err (invalid_registered id)
  | true ↦ load_rows l (i + calls_of w.view) rest (enter_row l i w m)
]

abbrev pub id_before : Text × Row → Text × Row → Bool
id_before (i, v) (j, w) = not (text_leb j i)

-- `loadRegistered`: the rows by their ids.
unfoldable pub load_registered : Loading → Dict Row → Manager → Result Error Manager
load_registered l rows m = load_rows l 0 (order_by id_before rows) m

-- `NewManager` with the registry of a state directory.
unfoldable pub open_manager : Loading → Options → Registry → Result Error Manager
open_manager l o g = do m ← new_manager o; load_registered l g.rows (record m { registry = some g })

-- How the wait for the gate of starts ends, where there is a context: the gate is entered, or the
-- context or the supervisor ends first.
pub data Gate : Type 0 where
  without_context entered closed : Gate
  gave_up : ℕ → Gate

abbrev pub is_wanted : DesiredState → Bool
is_wanted wanted = true
is_wanted d = false

-- What `Restore` resumes.
abbrev pub is_pending : Text × RuntimeInstance → Bool
is_pending (id, r) = is_wanted r.view.desired_state && not (is_live r) && is_some r.config

abbrev pub revived : ℕ → Instance → Instance
revived now v = record v { state = State.running; started_at = now; finished_at = none; error = [] }

abbrev pub revived_views : (ℕ → ℕ) → ℕ → Dict RuntimeInstance → List Instance
revived_views clock i [] = []
revived_views clock i ((id, r) ∷ rest) = revived (clock i) r.view ∷ revived_views clock (i + 1) rest

-- The loop that launches what is pending.
unfoldable pub relaunch : (ℕ → ℕ) → ℕ → Dict RuntimeInstance → Manager → Manager
relaunch clock i [] m = m
relaunch clock i ((id, r) ∷ rest) m =
    relaunch clock (i + 1) rest
      (register_runtime (revived (clock i) r.view) r.config_identity r.config true m)

abbrev pub restore_saved :
    (ℕ → ℕ) → Dict RuntimeInstance → Manager → Result Text Registry → Result Error ℕ × Manager
restore_saved clock pending m (err e) = (err (failed_at [] e), m)
restore_saved clock pending m (ok h) =
    (ok (length pending), relaunch clock 0 pending (record m { registry = some h }))

-- `Restore` under `mu`.
unfoldable pub restore_all : Option Text → (ℕ → ℕ) → Registry → Manager → Result Error ℕ × Manager
restore_all refused clock g m =
    let pending = filter_where is_pending m.instances in
    restore_saved clock pending m (saved refused (revived_views clock 0 pending) g)

-- What is done behind the gate, unless the supervisor closes.
abbrev pub behind_gate :
    {A : Type 0} → Text → Gate → Manager → Result Error A × Manager → Result Error A × Manager
behind_gate part without_context m done = (err (no_context part), m)
behind_gate part (gave_up e) m done = (err (context_ended e), m)
behind_gate part closed m done = (err shutting_down, m)
behind_gate part entered m done = if is_closing m then (err shutting_down, m) else done

abbrev pub restore_from :
    Gate → Option Text → (ℕ → ℕ) → Manager → Option Registry → Result Error ℕ × Manager
restore_from gate refused clock m none = (ok 0, m)
restore_from gate refused clock m (some g) =
    behind_gate (codes "restore") gate m (restore_all refused clock g m)

-- `Restore`
unfoldable pub restore : Gate → Option Text → (ℕ → ℕ) → Manager → Result Error ℕ × Manager
restore without_context refused clock m = (err (no_context (codes "restore")), m)
restore gate refused clock m = restore_from gate refused clock m m.registry

abbrev pub resumed : ℕ → Instance → Instance
resumed now v = record (revived now v) { desired_state = wanted }

abbrev pub resume_saved :
    Instance
    → RuntimeInstance
    → Manager
    → Result Text Registry
    → Result Error (List Instance) × Manager
resume_saved v r m (err e) = (err (failed_at [] e), m)
resume_saved v r m (ok h) = (
  ok (v ∷ []),
  register_runtime v r.config_identity r.config true (record m { registry = some h }),
)

-- `resumeRegisteredLocked`, which is called only where there is a registry.
unfoldable pub resume :
    Option Text → ℕ → RuntimeInstance → Manager → Result Error (List Instance) × Manager
resume refused now r m = elim m.registry [
  | none ↦ (err nil_pointer, m)
  | some g ↦
      if is_live r
      then (err (already_active r.view.name), m)
      else if not (is_some r.config)
      then (err (invalid_snapshot r.view.name), m)
      else let v = resumed now r.view in resume_saved v r m (saved refused (v ∷ []) g)
]

abbrev pub serves : KnownQueue → RuntimeInstance → Bool
serves q r = text_eq r.view.database_path q.identity && text_eq r.config_identity q.config_identity

-- The loop of `startRegisteredQueue` over the instances.
unfoldable pub server_of : KnownQueue → Dict RuntimeInstance → Option RuntimeInstance
server_of q [] = none
server_of q ((id, r) ∷ rest) = if serves q r then some r else server_of q rest

-- `startRegisteredQueue`
unfoldable pub start_registered_queue :
    Gate → Option Text → ℕ → KnownQueue → Manager → Result Error (List Instance) × Manager
start_registered_queue gate refused now q m =
    behind_gate (codes "start") gate m (elim (server_of q m.instances) [
      | none ↦ (err (not_found []), m)
      | some r ↦ resume refused now r m
    ])
