-- ===== src/Control/Manager/Sample.antt =====
-- A supervisor (internal/control/manager.go) that started two instances.
use slipway.Common.{
  ap, ◌==◌, Text, codes, text_eq, ◌≡◌, ◌≢◌, refl, Bool, true, false, none, some, List, [], ◌∷◌,
  ◌++◌, pos, ok, get, has, put, order_by, insert_by, is_blank, trim_front, trim_back,
}
use slipway.Control.Manager.Types.{RuntimeInstance, Manager, Options, new_manager}
use slipway.Control.Manager.Names.{
  contains, is_taken, valid_id, all_hex, available_id, available_name, suffixed, runes_of,
  normalized, trim_edge, automatic_name,
}
use slipway.Control.Manager.Preflight.{
  Files, load_candidate, load_candidates, same_identity, same_object, same_folded,
}
use slipway.Control.Manager.Databases.{
  validate_databases, same_path, same_missing, same_existing, validate_expected, assign_identities,
  known_identity, is_reached, validate_active, active_config_owner, active_database_owner,
  scan_configs, scan_databases,
}
use slipway.Control.Manager.Start.{
  Request, Prepared, prepare, preflight, reserve, attempt, start_many, launch, launch_all,
  new_runtime, catalogue, known_queues, check_name,
}
use slipway.Control.Manager.Invariant.Defs.{IsSound}
use slipway.Control.Manager.System.{Op, starts, run, run-IsSound}

abbrev pub options : Options
options = record {
  retained_instances = pos 1;
  log_capacity = pos 0;
  log_subscriber_buffer = pos 0;
  max_log_line_bytes = pos 0;
  max_log_bytes = pos 0;
}

-- Every path is canonical and names a file of its own, whose database stands beside it.
abbrev pub files : Files
files = record {
  abs = λ p. ok p;
  canonical = λ p. ok p;
  stat = λ p. ok none;
  equivalent = λ p q. ok (text_eq p q);
  fold = λ p. p;
  equal_fold = λ p q. text_eq p q;
  load = λ p. ok (some (record { database_path = p ++ codes ".db"; watch_names = [] }));
  fingerprint = λ c. ok (codes "hash");
}

abbrev pub request : Text → Text → Request
request path id = record {
  paths = path ∷ [];
  name = [];
  attach = false;
  remove_on_exit = false;
  expected = none;
  files = files;
  files_at_gate = files;
  closed_at_gate = false;
  context = λ c. none;
  runes = λ r. true;
  generate = λ n. ok id;
  clock = λ n. n;
}

abbrev pub id_a : Text
id_a = codes "aaaaaaaaaaaa"

abbrev pub id_b : Text
id_b = codes "bbbbbbbbbbbb"

abbrev pub empty : Manager
empty = record {
  log_capacity = pos 0;
  log_subscriber_buffer = pos 0;
  max_log_line_bytes = pos 0;
  max_log_bytes = pos 0;
  retained_instances = 1;
  instances = [];
  names = [];
  known_queues = [];
  active_configs = [];
  active_databases = [];
  shutting_down = false;
  cancelled = false;
  registry = none;
  persistence_errors = [];
}

pub made : new_manager options ≡ ok empty
unfolding new_manager
made = refl

abbrev pub two_starts : List Op
two_starts = starts (request (codes "/a.yaml") id_a) ∷ starts (request (codes "/b.yaml") id_b) ∷ []

abbrev pub prepared : Text → Text → Text → Prepared
prepared path id name = record {
  candidate = record {
    config_path = path;
    config_identity = path;
    config_hash = codes "hash";
    database_path = path ++ codes ".db";
    queue_identity = path ++ codes ".db";
    config = record { database_path = path ++ codes ".db"; watch_names = [] };
  };
  id = id;
  name = name;
}

abbrev pub runtime_a : RuntimeInstance
runtime_a = new_runtime empty (prepared (codes "/a.yaml") id_a (codes "a")) 0 false false

abbrev pub runtime_b : RuntimeInstance
runtime_b = new_runtime empty (prepared (codes "/b.yaml") id_b (codes "b")) 0 false false

pub a_runs : get id_a (run two_starts empty).instances ≡ some runtime_a
unfolding run start_many attempt preflight reserve known_queues order_by insert_by text_eq
    load_candidates load_candidate same_identity same_object same_folded is_blank validate_databases
    same_path same_missing same_existing validate_expected assign_identities known_identity
    is_reached validate_active active_config_owner active_database_owner scan_configs scan_databases
    check_name prepare available_name available_id is_taken has get contains suffixed automatic_name
    runes_of normalized trim_edge trim_front trim_back valid_id all_hex launch_all launch catalogue
    put
a_runs = refl

pub b_runs : get id_b (run two_starts empty).instances ≡ some runtime_b
unfolding run start_many attempt preflight reserve known_queues order_by insert_by text_eq
    load_candidates load_candidate same_identity same_object same_folded is_blank validate_databases
    same_path same_missing same_existing validate_expected assign_identities known_identity
    is_reached validate_active active_config_owner active_database_owner scan_configs scan_databases
    check_name prepare available_name available_id is_taken has get contains suffixed automatic_name
    runes_of normalized trim_edge trim_front trim_back valid_id all_hex launch_all launch catalogue
    put
b_runs = refl

abbrev pub busy : Manager
busy = run two_starts empty

pub busy-IsSound : IsSound busy
busy-IsSound = run-IsSound options empty two_starts made

pub a-ne-b : id_a ≢ id_b
a-ne-b e = cc (ap head e)
  where
    head : Text → Bool
    head [] = true
    head (c ∷ t) = c == 97
