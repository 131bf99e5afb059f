-- ===== src/Control/Registry/Starting.antt =====
-- internal/control/registered.go: the second part of `startRegistered`, which registers and launches
-- what was read.
use slipway.Common.{
  ℕ, ◌+◌, ◌==◌, Text, codes, text_eq, trim_space, Bool, true, false, not, ◌&&◌, ◌||◌, Option, none,
  some, List, [], ◌∷◌, ◌++◌, length, map, if◌then◌else◌, get, has, Result, ok, err, ◌>>=◌, ◌>>◌,
}
use slipway.Control.Manager.Types.{
  State, unset, wanted, Instance, Config, RuntimeInstance, is_live, Registry, Manager, Error,
  no_config_path, valid_name_for_one, shutting_down, ambiguous, nil_pointer, already_active,
  registered_as, name_in_use, name_is_id, endless_names, failed_at, is_closing,
}
use slipway.Control.Manager.Names.{
  Reserved, max_id_generation_attempts, available_id, valid_display_name, available_name,
  automatic_name, resolve,
}
use slipway.Control.Manager.Preflight.{refuse}
use slipway.Control.Manager.Start.{name_fuel}
use slipway.Control.Registry.Registered.{behind_gate, resume, register_runtime}
use slipway.Control.Registry.Saving.{
  Registration, RegisteredStart, Item, save, identities_of, load_items,
}

-- What the loop over the items carries: the names and ids handed out, and the numbers of the next
-- calls of the generator and of the clock.
pub record Progress : Type 0 where
  pub reserved : Reserved
  pub generated : ℕ
  pub readings : ℕ

-- The name that was asked for, if nothing has it.
unfoldable pub asked_name : RegisteredStart → Manager → Result Error Text
asked_name q m = do
  refuse (has q.name m.names) (name_in_use q.name)
  refuse (has q.name m.instances) (name_is_id q.name)
  ok q.name

-- The name of a new instance: the one asked for, or one that is free.
unfoldable pub name_for : RegisteredStart → Manager → Reserved → Item → Result Error Text
name_for q m r item =
    if text_eq q.name []
    then (elim (available_name (name_fuel m r) m r (automatic_name q.runes item.path) 1) [
      | none ↦ err endless_names
      | some name ↦ ok name
    ])
    else asked_name q m

abbrev pub blank_view : Text → Text → Text → Text → ℕ → Instance
blank_view path id name database now = record {
  id = id;
  name = name;
  config_path = path;
  config_hash = [];
  database_path = database;
  state = State.exited;
  desired_state = unset;
  created_at = now;
  started_at = 0;
  finished_at = none;
  error = [];
}

abbrev pub other_name : RegisteredStart → RuntimeInstance → Bool
other_name q r = not (text_eq q.name []) && not (text_eq q.name r.view.name)

-- The view of an instance that has the configuration already.
abbrev pub view_again : RegisteredStart → Item → RuntimeInstance → Result Error Instance
view_again q item r = do
  refuse (is_live r) (already_active r.view.name)
  refuse (other_name q r) (registered_as r.view.name)
  ok (record (r.view) { config_path = item.path })

unfoldable pub previous_view : RegisteredStart → Manager → Text → Item → Result Error Instance
previous_view q m id item = elim (get id m.instances) [
  | none ↦ err nil_pointer
  | some r ↦ view_again q item r
]

-- The view of a new instance, with what was handed out for it.
unfoldable pub fresh_view :
    RegisteredStart → Manager → Registry → Progress → Item → Result Error (Instance × Progress)
fresh_view q m g p item = do
  name ← name_for q m p.reserved item
  let named = record (p.reserved) { names = name ∷ p.reserved.names } in
      let (made, next) = available_id q.generate m named max_id_generation_attempts p.generated in
      (do
        id ← made
        ok (
          blank_view item.path id name (q.queue_path g.directory id) (q.clock p.readings),
          record {
            reserved = record named { ids = id ∷ named.ids };
            generated = next;
            readings = p.readings;
          },
        ))

abbrev pub view_for :
    RegisteredStart
    → Manager
    → Registry
    → Progress
    → Item
    → Option Text
    → Result Error (Instance × Progress)
view_for q m g p item none = fresh_view q m g p item
view_for q m g p item (some id) = do v ← previous_view q m id item; ok (v, p)

abbrev pub started_view : Instance → Text → ℕ → Instance
started_view v hash now = record v {
  config_hash = hash;
  state = State.running;
  desired_state = wanted;
  started_at = now;
  finished_at = none;
  error = [];
}

-- The configuration of an instance is kept with its own database.
abbrev pub config_for : Item → Instance → Config
config_for item v = record (item.config) { database_path = v.database_path }

-- What `Validate` and `EffectiveFingerprint` let through. The clock is read for the creation and for
-- the start.
abbrev pub completed :
    RegisteredStart
    → Item
    → Instance × Progress
    → Option Text
    → Result Text Text
    → Result Error (Registration × Progress)
completed q item made (some e) hash = err (failed_at (codes "validate snapshot " ++ item.path) e)
completed q item made none (err e) = err (failed_at [] e)
completed q item (v, p) none (ok hash) = ok (
  record {
    view = started_view v hash (q.clock (p.readings + 1));
    identity = item.identity;
    config = config_for item v;
  },
  record p { readings = p.readings + 2 },
)

-- One pass of the loop that prepares the registrations.
unfoldable pub prepare_item :
    RegisteredStart → Manager → Registry → Progress → Item → Result Error (Registration × Progress)
prepare_item q m g p item = do
  made ← view_for q m g p item item.existing_id
  completed q item made (q.validate (config_for item made.0))
      (q.files.fingerprint (config_for item made.0))

unfoldable pub prepare_items :
    RegisteredStart → Manager → Registry → Progress → List Item → Result Error (List Registration)
prepare_items q m g p [] = ok []
prepare_items q m g p (item ∷ items) = do
  made ← prepare_item q m g p item
  rest ← prepare_items q m g made.1 items
  ok (made.0 ∷ rest)

abbrev pub no_progress : Progress
no_progress = record { reserved = record { names = []; ids = [] }; generated = 0; readings = 0 }

-- The loop that launches what was saved.
unfoldable pub register_all : List Registration → Manager → Manager
register_all [] m = m
register_all (r ∷ rs) m =
    register_all rs (register_runtime r.view r.identity (some r.config) true m)

abbrev pub view_of_registration : Registration → Instance
view_of_registration r = r.view

-- What is prepared and saved behind the gate, unless the supervisor closes.
unfoldable pub prepare_saved :
    RegisteredStart → List Item → Registry → Manager → Result Error (List Registration × Registry)
prepare_saved q items g m = do
  refuse (is_closing m) shutting_down
  rs ← prepare_items q m g no_progress items
  h ← save q.refusals rs g
  ok (rs, h)

abbrev pub launch_saved :
    Manager → Result Error (List Registration × Registry) → Result Error (List Instance) × Manager
launch_saved m (err e) = (err e, m)
launch_saved m (ok (rs, h)) =
    (ok (map view_of_registration rs), register_all rs (record m { registry = some h }))

-- The second section of `startRegistered` under `mu`.
unfoldable pub register_items :
    RegisteredStart → List Item → Registry → Manager → Result Error (List Instance) × Manager
register_items q items g m = launch_saved m (prepare_saved q items g m)

-- Where the only path is no selector of an instance, it is read as a file.
abbrev pub ends_start : Error → Bool
ends_start (ambiguous selector) = true
ends_start nil_pointer = true
ends_start e = false

abbrev pub start_items :
    RegisteredStart → Registry → Manager → Result Error (List Instance) × Manager
start_items q g m = elim (load_items q (identities_of m.instances []) [] q.paths) [
  | err e ↦ (err e, m)
  | ok items ↦ register_items q items g m
]

abbrev pub start_selected :
    RegisteredStart
    → Registry
    → Manager
    → Result Error RuntimeInstance
    → Result Error (List Instance) × Manager
start_selected q g m (ok r) = resume (q.refusals 0) (q.clock 0) r m
start_selected q g m (err e) = if ends_start e then (err e, m) else start_items q g m

-- The only path, where it may select an instance.
abbrev pub selector_of : RegisteredStart → Option Text
selector_of q = only q.paths
  where
    only : List Text → Option Text
    only [] = none
    only (p ∷ []) = if text_eq q.name [] then some p else none
    only (p ∷ p' ∷ ps) = none

abbrev pub check_paths : RegisteredStart → Result Error (Unit {0})
check_paths q = do
  refuse (length q.paths == 0) no_config_path
  refuse
      (not (text_eq q.name [])
        && (not (length q.paths == 1)
            || not (valid_display_name q.runes q.name)
            || not (text_eq (trim_space q.name) q.name)))
      valid_name_for_one

-- `startRegistered`, where no stop and no end of an instance falls between its two sections: the gate
-- keeps other starts out.
unfoldable pub start_registered :
    RegisteredStart → Registry → Manager → Result Error (List Instance) × Manager
start_registered q g m = elim (check_paths q) [
  | err e ↦ (err e, m)
  | ok passed ↦ behind_gate (codes "start") q.gate m (elim (selector_of q) [
    | none ↦ start_items q g m
    | some selector ↦ start_selected q g m (resolve m selector)
  ])
]
