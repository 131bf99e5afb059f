-- ===== src/Control/Manager/Types.antt =====
-- internal/control/types.go, and the state of the supervisor of internal/control/manager.go.
use slipway.Common.{
  codes, is_negative, is_positive, pos_part, if◌then◌else◌, Result, ok, err, ℕ, ℤ, Text, Bool, true,
  false, ◌||◌, Option, none, List, [], Dict,
}
use slipway.Control.Logs.{LogStream, new_log_stream}

pub data State : Type 0 where
  running stopping exited failed : State

-- `DesiredState`: empty, "running" or "stopped".
pub data DesiredState : Type 0 where
  unset wanted stopped : DesiredState

pub record Instance : Type 0 where
  pub id : Text
  pub name : Text
  pub config_path : Text
  pub config_hash : Text
  pub database_path : Text
  pub state : State
  pub desired_state : DesiredState
  pub created_at : ℕ
  pub started_at : ℕ
  pub finished_at : Option ℕ
  pub error : Text

abbrev pub is_running : State → Bool
is_running State.running = true
is_running s = false

abbrev pub owns : State → Bool
owns State.running = true
owns State.stopping = true
owns State.exited = false
owns State.failed = false

-- `Instance.Active`
abbrev pub is_active : Instance → Bool
is_active instance_view = owns instance_view.state

-- What the supervisor reads of a loaded `config.Config`.
pub record Config : Type 0 where
  pub database_path : Text
  pub watch_names : List Text

pub record KnownQueue : Type 0 where
  pub identity : Text
  pub config_identity : Text
  pub config_path : Text
  pub config_hash : Text
  pub database_path : Text
  pub database_aliases : List Text
  pub watch_names : List Text

-- `cancelled` is its context, `done` its channel, which closes as it ends.
pub record RuntimeInstance : Type 0 where
  pub view : Instance
  pub config : Option Config
  pub config_identity : Text
  pub remove_on_exit : Bool
  pub cancelled : Bool
  pub done : Bool
  pub logs : LogStream

abbrev pub is_live : RuntimeInstance → Bool
is_live r = is_active r.view

-- A row of the table of registrations, beside its id. Its texts of JSON are what they encode.
pub record Row : Type 0 where
  pub name : Text
  pub identity : Text
  pub view : Instance
  pub config : Config

pub record Registry : Type 0 where
  pub directory : Text
  pub rows : Dict Row
  pub closed : Bool

-- The fields that `mu` guards, with the limits of the instances' logs.
pub record Manager : Type 0 where
  pub log_capacity : ℤ
  pub log_subscriber_buffer : ℤ
  pub max_log_line_bytes : ℤ
  pub max_log_bytes : ℤ
  pub retained_instances : ℕ
  pub instances : Dict RuntimeInstance
  pub names : Dict Text
  pub known_queues : Dict KnownQueue
  pub active_configs : Dict Text
  pub active_databases : Dict Text
  pub shutting_down : Bool
  pub cancelled : Bool
  pub registry : Option Registry
  pub persistence_errors : List Text

abbrev pub new_logs : Manager → LogStream
new_logs m =
    new_log_stream m.log_capacity m.log_subscriber_buffer m.max_log_line_bytes m.max_log_bytes

-- Whether starts are refused.
abbrev pub is_closing : Manager → Bool
is_closing m = m.shutting_down || m.cancelled

-- One constructor for each message, with what it names.
pub data Error : Type 0 where
  no_config_path attached_one name_for_one shutting_down no_id empty_selector nil_pointer
        endless_names :
      Error
  context_ended : ℕ → Error
  not_found ambiguous invalid_name invalid_id unnamed nil_config invalid_snapshot : Text → Error
  duplicate_config : Text → Text → Text → Error
  duplicate_database : Text → Text → Text → Error
  config_active database_active name_taken : Text → Text → Error
  name_is_id already_active registered_as negative_option : Text → Error
  not_active : Text → State → Error
  queue_changed : Text → Error
  attached_unsupported known_queue_one : Error
  -- What another part reported, behind the words of this one.
  failed_at : Text → Text → Error
  within : Text → Error → Error
  invalid_registered no_context name_in_use : Text → Error
  valid_name_for_one : Error

-- The limits among the `Options` of a supervisor without a state directory.
pub record Options : Type 0 where
  pub retained_instances : ℤ
  pub log_capacity : ℤ
  pub log_subscriber_buffer : ℤ
  pub max_log_line_bytes : ℤ
  pub max_log_bytes : ℤ

abbrev pub default_retained_instances : ℕ
default_retained_instances = 100

abbrev retained_of : ℤ → ℕ
retained_of n = if is_positive n then pos_part n else default_retained_instances

abbrev empty_manager : Options → Manager
empty_manager o = record {
  log_capacity = o.log_capacity;
  log_subscriber_buffer = o.log_subscriber_buffer;
  max_log_line_bytes = o.max_log_line_bytes;
  max_log_bytes = o.max_log_bytes;
  retained_instances = retained_of o.retained_instances;
  instances = [];
  names = [];
  known_queues = [];
  active_configs = [];
  active_databases = [];
  shutting_down = false;
  cancelled = false;
  registry = none;
  persistence_errors = [];
}

-- `NewManager`
unfoldable pub new_manager : Options → Result Error Manager
new_manager o =
    if is_negative o.log_capacity
    then err (negative_option (codes "log capacity"))
    else if is_negative o.log_subscriber_buffer
    then err (negative_option (codes "log subscriber buffer"))
    else if is_negative o.max_log_line_bytes
    then err (negative_option (codes "maximum log line size"))
    else if is_negative o.max_log_bytes
    then err (negative_option (codes "maximum retained log bytes"))
    else if is_negative o.retained_instances
    then err (negative_option (codes "retained instances"))
    else ok (empty_manager o)
