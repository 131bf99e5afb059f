-- ===== src/Control/Manager/Start.antt =====
-- internal/control/manager.go: `startManyContext` of a supervisor without a registry.
use slipway.Common.{
  ℕ, suc, ◌+◌, Text, text_eq, trim_space, Bool, true, false, not, ◌&&◌, ◌==◌, Option, none, some,
  List, [], ◌∷◌, ◌++◌, map, length, if◌then◌else◌, Dict, get, has, put, Result, ok, err, ◌>>=◌,
  ◌>>◌, order_by, text_leb,
}
use slipway.Control.Logs.{LogStream, subscribe}
use slipway.Control.Manager.Types.{
  State, unset, Instance, RuntimeInstance, KnownQueue, Manager, Error, no_config_path, attached_one,
  name_for_one, invalid_name, shutting_down, name_taken, name_is_id, endless_names, new_logs,
  is_closing,
}
use slipway.Control.Manager.Names.{
  Runes, Generator, Reserved, contains, max_id_generation_attempts, available_id, available_name,
  automatic_name, valid_display_name,
}
use slipway.Control.Manager.Preflight.{
  Files, entered, waits, loops, locked, launches, Context, check, refuse, Candidate,
  load_candidates,
}
use slipway.Control.Manager.Databases.{
  validate_databases, validate_expected, assign_identities, validate_active,
}

-- `KnownQueues`: by the path of the configuration, then by identity.
abbrev queue_before : KnownQueue → KnownQueue → Bool
queue_before a b =
    if not (text_eq a.config_path b.config_path)
    then not (text_leb b.config_path a.config_path)
    else not (text_leb b.identity a.identity)

unfoldable pub known_queues : Manager → List KnownQueue
known_queues m = order_by queue_before (map (λ e. e.1) m.known_queues)

-- What a start is given: the names, the file system before and behind the gate, the context, whether
-- the supervisor's own context ends the wait for the gate, and
-- what the manager is made with: the generator of ids and the clock, by the number of the call.
pub record Request : Type 0 where
  pub paths : List Text
  pub name : Text
  pub attach : Bool
  pub remove_on_exit : Bool
  pub expected : Option KnownQueue
  pub files : Files
  pub files_at_gate : Files
  pub context : Context
  pub closed_at_gate : Bool
  pub runes : Runes
  pub generate : Generator
  pub clock : ℕ → ℕ

abbrev pub is_single : List Text → Bool
is_single paths = length paths == 1

-- The checks of the arguments.
abbrev pub check_arguments : Request → Result Error (Unit {0})
check_arguments q = do
  refuse (length q.paths == 0) no_config_path
  refuse (q.attach && not (is_single q.paths)) attached_one
  refuse (not (text_eq q.name []) && not (is_single q.paths)) name_for_one
  refuse
      (not (text_eq q.name [])
        && not (text_eq (trim_space q.name) q.name && valid_display_name q.runes q.name))
      (invalid_name q.name)

-- The candidates of a start that passed every check but those of the manager's own maps.
unfoldable pub preflight : Request → List KnownQueue → Result Error (List Candidate)
preflight q known = do
  candidates ← load_candidates q.files q.context [] q.paths
  validate_databases q.files q.context [] [] [] candidates
  check q.context waits
  refuse q.closed_at_gate shutting_down
  validate_databases q.files_at_gate q.context [] [] [] candidates
  validate_expected q.files_at_gate q.context candidates q.expected
  assign_identities q.files_at_gate q.context known candidates

-- An explicit name must be neither a name nor an id.
unfoldable pub check_name : Manager → Text → Result Error (Unit {0})
check_name m name = elim (get name m.names) [
  | some owner ↦ err (name_taken name owner)
  | none ↦ refuse (has name m.instances) (name_is_id name)
]

pub record Prepared : Type 0 where
  pub candidate : Candidate
  pub id : Text
  pub name : Text

-- As many candidates for a name as there are names and ids in use, and one more.
abbrev pub name_fuel : Manager → Reserved → ℕ
name_fuel m r = suc (length m.names + length m.instances + length r.names + length r.ids)

abbrev pub display_name : Runes → Manager → Reserved → Text → Candidate → Option Text
display_name runes m r [] c =
    available_name (name_fuel m r) m r (automatic_name runes c.config_path) 1
display_name runes m r (b ∷ explicit) c = some (b ∷ explicit)

-- The loop that hands out names and ids, with the number of the generator's next call.
unfoldable pub prepare :
    Runes
    → Generator
    → Manager
    → Reserved
    → ℕ
    → Text
    → List Candidate
    → Result Error (List Prepared)
prepare runes generate m r call explicit [] = ok []
prepare runes generate m r call explicit (c ∷ cs) = elim (display_name runes m r explicit c) [
  | none ↦ err endless_names
  | some name ↦
      let r' = record r { names = name ∷ r.names } in
      let (made, call') = available_id generate m r' max_id_generation_attempts call in
      (do
        id ← made
        rest ← prepare runes generate m (record r' { ids = id ∷ r'.ids }) call' [] cs
        ok (record { candidate = c; id = id; name = name } ∷ rest))
]

abbrev pub new_view : Prepared → ℕ → Instance
new_view p now = record {
  id = p.id;
  name = p.name;
  config_path = p.candidate.config_path;
  config_hash = p.candidate.config_hash;
  database_path = p.candidate.database_path;
  state = State.running;
  desired_state = unset;
  created_at = now;
  started_at = now;
  finished_at = none;
  error = [];
}

-- An attached start subscribes to the logs at once.
abbrev attached : Bool → LogStream → LogStream
attached false s = s
attached true s = elim (subscribe s) [ none ↦ s | some (id, t) ↦ t ]

abbrev pub new_runtime : Manager → Prepared → ℕ → Bool → Bool → RuntimeInstance
new_runtime m p now attach remove_on_exit = record {
  view = new_view p now;
  config = some p.candidate.config;
  config_identity = p.candidate.config_identity;
  remove_on_exit = remove_on_exit;
  cancelled = false;
  done = false;
  logs = attached attach (new_logs m);
}

-- The entry of the catalog of queues for a started instance.
abbrev known_or_new : Text → Option KnownQueue → KnownQueue
known_or_new identity none = record {
  identity = identity;
  config_identity = [];
  config_path = [];
  config_hash = [];
  database_path = identity;
  database_aliases = [];
  watch_names = [];
}
known_or_new identity (some q) = q

abbrev with_alias : Text → KnownQueue → List Text
with_alias path q =
    if not (text_eq path q.database_path) && not (contains path q.database_aliases)
    then q.database_aliases ++ path ∷ []
    else q.database_aliases

unfoldable pub catalogue : Candidate → Dict KnownQueue → Dict KnownQueue
catalogue c known =
    let q = known_or_new c.queue_identity (get c.queue_identity known) in
    put c.queue_identity
      (record q {
        config_identity = c.config_identity;
        config_path = c.config_path;
        config_hash = c.config_hash;
        watch_names = c.config.watch_names;
        database_aliases = with_alias c.database_path q;
      })
      known

-- One instance is entered into the maps and launched.
unfoldable pub launch : Manager → Prepared → RuntimeInstance → Manager
launch m p r = record m {
  instances = put p.id r m.instances;
  names = put p.name p.id m.names;
  known_queues = catalogue p.candidate m.known_queues;
  active_configs = put p.candidate.config_identity p.id m.active_configs;
  active_databases = put p.candidate.database_path p.id m.active_databases;
}

-- The loop that launches what was prepared, with the number of the clock's next reading.
unfoldable pub launch_all : Request → ℕ → List Prepared → Manager → Manager
launch_all q i [] m = m
launch_all q i (p ∷ ps) m =
    launch_all q (i + 1) ps (launch m p (new_runtime m p (q.clock i) q.attach q.remove_on_exit))

-- What is done under `mu`, in the pass of the loop whose snapshot of the maps is still what they are.
unfoldable pub reserve : Request → Manager → List Candidate → Result Error (List Prepared)
reserve q m candidates = do
  check q.context loops
  refuse (is_closing m) shutting_down
  validate_active q.files_at_gate q.context candidates m.active_configs m.active_databases
  check q.context locked
  if text_eq q.name [] then ok tt else check_name m q.name
  prepared ← prepare q.runes q.generate m (record { names = []; ids = [] }) 0 q.name candidates
  check q.context launches
  ok prepared

abbrev pub views_of : Request → ℕ → List Prepared → List Instance
views_of q i [] = []
views_of q i (p ∷ ps) = new_view p (q.clock i) ∷ views_of q (i + 1) ps

-- All of a start up to where it enters its instances.
unfoldable pub attempt : Request → Manager → Result Error (List Prepared)
attempt q m = do
  check q.context entered
  refuse (is_closing m) shutting_down
  check_arguments q
  candidates ← preflight q (known_queues m)
  reserve q m candidates

abbrev pub conclude :
    Request → Manager → Result Error (List Prepared) → Result Error (List Instance) × Manager
conclude q m (err e) = (err e, m)
conclude q m (ok ps) = (ok (views_of q 0 ps), launch_all q 0 ps m)

-- `startManyContext`
unfoldable pub start_many : Request → Manager → Result Error (List Instance) × Manager
start_many q m = conclude q m (attempt q m)
