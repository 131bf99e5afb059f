-- ===== src/Control/Registry/Examples.antt =====
-- The restart of a daemon (internal/control/registered.go) on a registry with an instance that was
-- wanted and one that was stopped.
use slipway.Common.{
  ℕ, Text, codes, text_eq, ◌≡◌, refl, true, false, none, some, [], ◌∷◌, ◌++◌, ok, get, put, has,
  length, IsMap, All, HasEntry, trim_front, trim_back,
}
use slipway.Control.Manager.Types.{State, wanted, stopped, Instance, Row, Registry, Manager}
use slipway.Control.Manager.Names.{
  contains, is_taken, available_id, available_name, suffixed, normalized, trim_edge, automatic_name,
  valid_id, valid_display_name, rest_valid, all_hex, runes_of,
}
use slipway.Control.Registry.Registered.{
  Loading, entered, open_manager, restore, is_valid_row, register_runtime, enter,
}
use slipway.Control.Registry.Saving.{
  Registration, RegisteredStart, Item, row_of, save, save_rows, clashes,
}
use slipway.Control.Registry.Starting.{
  fresh_view, name_for, prepare_item, prepare_items, prepare_saved, register_items, register_all,
}
use slipway.Control.Registry.Reloading.{IsValid}
use slipway.Control.Registry.Restart.{IsRestored, restart-IsRestored}
use slipway.Control.Registry.Surviving.{RunsAs, CameBack, acknowledged_survives}
use slipway.Control.Manager.Sample.{options, files, id_a, id_b, empty, made, a-ne-b}

abbrev row_a : Row
row_a = record {
  name = codes "a";
  identity = codes "/a.yaml";
  view = record {
    id = id_a;
    name = codes "a";
    config_path = codes "/a.yaml";
    config_hash = codes "hash";
    database_path = codes "/state/a.db";
    state = State.running;
    desired_state = wanted;
    created_at = 1;
    started_at = 2;
    finished_at = none;
    error = [];
  };
  config = record { database_path = codes "/state/a.db"; watch_names = [] };
}

abbrev row_b : Row
row_b = record row_a {
  name = codes "b";
  identity = codes "/b.yaml";
  view = record (row_a.view) {
    id = id_b;
    name = codes "b";
    config_path = codes "/b.yaml";
    database_path = codes "/state/b.db";
    state = State.exited;
    desired_state = stopped;
  };
}

abbrev saved_two : Registry
saved_two = record {
  directory = codes "/state";
  rows = (id_a, row_a) ∷ (id_b, row_b) ∷ [];
  closed = false;
}

abbrev pub loading : Loading
loading = record { runes = λ r. true; validate = λ c. none; clock = λ n. n }

two-IsMap : IsMap saved_two.rows
two-IsMap = ((a-ne-b, tt), (tt, tt))

two-IsValid : All (IsValid loading) saved_two.rows
unfolding is_valid_row valid_display_name rest_valid valid_id all_hex runes_of text_eq
two-IsValid = (refl, (refl, tt))

restart-IsRestored_example :
    (m1 m2 : Manager) × (n : ℕ) × (open_manager loading options saved_two ≡ ok m1)
    × (restore entered none (λ n. n) m1 ≡ (ok n, m2))
    × ((k : Text) (w : Row)
        → get k saved_two.rows ≡ some w
        → HasEntry (IsRestored loading w) k m2.instances)
    × ((k : Text) → get k saved_two.rows ≡ none → get k m2.instances ≡ none)
restart-IsRestored_example =
    restart-IsRestored loading options saved_two (λ n. n) empty made refl two-IsMap two-IsValid

abbrev empty_registry : Registry
empty_registry = record { directory = codes "/state"; rows = []; closed = false }

abbrev persistent : Manager
persistent = record empty { registry = some empty_registry }

abbrev pub start : RegisteredStart
start = record {
  paths = codes "/a.yaml" ∷ [];
  name = [];
  gate = entered;
  files = files;
  context = λ c. none;
  working_directory = ok [];
  runes = λ r. true;
  generate = λ n. ok id_a;
  clock = λ n. n;
  validate = λ c. none;
  queue_path = λ directory id. directory ++ codes "/queues/" ++ id;
  refusals = λ n. none;
}

abbrev item_a : Item
item_a = record {
  path = codes "/a.yaml";
  identity = codes "/a.yaml";
  existing_id = none;
  config = record { database_path = []; watch_names = [] };
}

abbrev pub view_a : Instance
view_a = record {
  id = id_a;
  name = codes "a";
  config_path = codes "/a.yaml";
  config_hash = codes "hash";
  database_path = codes "/state/queues/" ++ id_a;
  state = State.running;
  desired_state = wanted;
  created_at = 0;
  started_at = 1;
  finished_at = none;
  error = [];
}

abbrev pub registration_a : Registration
registration_a = record {
  view = view_a;
  identity = codes "/a.yaml";
  config = record { database_path = codes "/state/queues/" ++ id_a; watch_names = [] };
}

abbrev pub registry_a : Registry
registry_a = record empty_registry { rows = (id_a, row_of registration_a) ∷ [] }

abbrev started : Manager
started = register_all (registration_a ∷ []) (record persistent { registry = some registry_a })

a_starts :
    register_items start (item_a ∷ []) empty_registry persistent ≡ (ok (view_a ∷ []), started)
unfolding register_items prepare_saved prepare_items prepare_item fresh_view name_for available_name
    available_id is_taken has get contains suffixed automatic_name runes_of normalized trim_edge
    trim_front trim_back valid_id all_hex save save_rows clashes put text_eq
a_starts = refl

a_registry : started.registry ≡ some registry_a
unfolding register_all register_runtime enter
a_registry = refl

a-IsValid : All (IsValid loading) registry_a.rows
unfolding is_valid_row valid_display_name rest_valid valid_id all_hex runes_of text_eq
a-IsValid = (refl, tt)

acknowledged_survives_example :
    (length (view_a ∷ []) ≡ length (item_a ∷ []))
    × All (λ v. HasEntry (RunsAs v) v.id started.instances) (view_a ∷ [])
    × (m1 m2 : Manager) × (n : ℕ) × (open_manager loading options registry_a ≡ ok m1)
    × (restore entered none (λ n. n) m1 ≡ (ok n, m2))
    × All (λ v. HasEntry (CameBack v) v.id m2.instances) (view_a ∷ [])
acknowledged_survives_example =
    acknowledged_survives start (item_a ∷ []) empty_registry registry_a persistent started
      (view_a ∷ []) loading options (λ n. n) empty a_starts (tt, tt) a_registry made (tt, tt)
      a-IsValid (λ c. refl)
