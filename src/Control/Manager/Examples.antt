-- ===== src/Control/Manager/Examples.antt =====
-- A supervisor (internal/control/manager.go) with two instances: the theorems at inputs that meet
-- their hypotheses.
use slipway.Common.{
  ◌≤◌, max, Text, codes, text_eq, ◌≡◌, ◌≢◌, ◌↔◌, refl, true, false, none, some, [], ◌∷◌, ok, get,
  has, put, order_by, insert_by, filter_where, is_blank, trim_space, trim_front, trim_back,
  count_where, length,
}
use slipway.Control.Manager.Types.{is_running, RuntimeInstance, Manager, is_live}
use slipway.Control.Manager.Causes.{
  GoError, leaf, wrapped, joined, cons, nil, cancellation_from, cancellation_from_lem, ends, IsAll,
}
use slipway.Control.Manager.Names.{
  Reserved, contains, is_taken, valid_id, all_hex, available_id, available_name, suffixed, resolve,
  runes_of, normalized, trim_edge, automatic_name,
}
use slipway.Control.Manager.Fresh.{available_name_total}
use slipway.Control.Manager.Preflight.{
  load_candidate, load_candidates, same_identity, same_object, same_folded,
}
use slipway.Control.Manager.Databases.{
  validate_databases, same_path, same_missing, same_existing, validate_expected, assign_identities,
  known_identity, is_reached, validate_active, active_config_owner, active_database_owner,
  scan_configs, scan_databases,
}
use slipway.Control.Manager.Start.{
  name_fuel, prepare, preflight, reserve, attempt, start_many, launch, launch_all, catalogue,
  known_queues, check_name,
}
use slipway.Control.Manager.Selection.{Selects, resolve-Selects}
use slipway.Control.Manager.Lifecycle.{
  Outcome, failed_with, finish, ended, trim, forget_all, is_terminal, excess, invoke_runner,
  finish_of, persist, forget, final_view,
}
use slipway.Control.Manager.Invariant.Finishing.{ended_over, finish-IsSound}
use slipway.Control.Manager.Invariant.Defs.{IsSound}
use slipway.Control.Manager.Ending.{Tells, ended_lem}
use slipway.Control.Manager.Releasing.{IsReleased, finish_lem}
use slipway.Control.Manager.Retention.{trim_lem}
use slipway.Control.Manager.Stopping.{begin_shutdown}
use slipway.Control.Manager.Shutdown.{shutdown_is_final}
use slipway.Control.Manager.System.{run, run-IsSound}
use slipway.Control.Manager.Sample.{
  options, id_a, empty, made, two_starts, runtime_a, a_runs, busy, busy-IsSound,
}

run-IsSound_example : IsSound (run two_starts empty)
run-IsSound_example = run-IsSound options empty two_starts made

resolve-Selects_example :
    (resolve busy (codes " a ") ≡ ok runtime_a) ↔ Selects busy (trim_space (codes " a ")) runtime_a
resolve-Selects_example = resolve-Selects busy (codes " a ") runtime_a busy-IsSound

abbrev two_taken : Reserved
two_taken = record { names = codes "a" ∷ codes "a-2" ∷ []; ids = [] }

available_name_total_example :
    (name : Text) × (available_name (name_fuel empty two_taken) empty two_taken (codes "a") 1
      ≡ some name)
    × (is_taken empty two_taken name ≡ false)
available_name_total_example = available_name_total empty two_taken (codes "a")

abbrev joined_errors : GoError
joined_errors = joined (cons (wrapped (leaf 0)) (cons (leaf 7) nil))

cancellation_from_lem_example :
    (cancellation_from joined_errors 0 ≡ true) ↔ IsAll 0 (ends joined_errors)
cancellation_from_lem_example = cancellation_from_lem joined_errors 0

abbrev crash : Outcome
crash = failed_with joined_errors (codes "closed")

ended_lem_example :
    Tells busy runtime_a (invoke_runner crash) (ended busy runtime_a crash 9)
    × (length (ended busy runtime_a crash 9).view.error ≤ 16384)
    × ((ended busy runtime_a crash 9).view.finished_at ≡ some 9)
    × ((ended busy runtime_a crash 9).done ≡ true)
ended_lem_example = ended_lem busy runtime_a crash 9

finish_lem_example :
    IsReleased runtime_a (finish none crash 9 id_a busy)
    × (get id_a (finish none crash 9 id_a busy).instances ≡ some (ended busy runtime_a crash 9))
    × ((j : Text) (q : RuntimeInstance)
        → id_a ≢ j
        → get j busy.instances ≡ some q
        → is_live q ≡ true
        → get j (finish none crash 9 id_a busy).instances ≡ some q)
finish_lem_example = finish_lem none crash 9 id_a runtime_a busy a_runs refl busy-IsSound

shutdown_is_final_example :
    let m' = run two_starts (begin_shutdown busy) in
    (m'.shutting_down ≡ true)
    × ((k : Text) (r : RuntimeInstance)
        → get k m'.instances ≡ some r
        → (is_running r.view.state ≡ false) × (get k busy.instances ≢ none))
shutdown_is_final_example = shutdown_is_final busy two_starts busy-IsSound

-- The first instance has ended.
abbrev crashed : Manager
crashed = finish none crash 9 id_a busy

crashed-IsSound : IsSound crashed
crashed-IsSound = finish-IsSound none crash 9 id_a busy busy-IsSound

crashed_registry : crashed.registry ≡ none
unfolding run start_many attempt preflight reserve known_queues order_by insert_by text_eq
    load_candidates load_candidate same_identity same_object same_folded is_blank validate_databases
    same_path same_missing same_existing validate_expected assign_identities known_identity
    is_reached validate_active active_config_owner active_database_owner scan_configs scan_databases
    check_name prepare available_name available_id is_taken has get contains suffixed automatic_name
    runes_of normalized trim_edge trim_front trim_back valid_id all_hex launch_all launch catalogue
    put finish finish_of persist trim forget_all excess forget final_view filter_where
crashed_registry = refl

abbrev crashed_a : RuntimeInstance
crashed_a = ended busy runtime_a crash 9

crashed_at : get id_a crashed.instances ≡ some crashed_a
crashed_at = (finish_lem none crash 9 id_a runtime_a busy a_runs refl busy-IsSound).1

trim_lem_example :
    (count_where is_terminal (trim id_a crashed).instances ≤ max crashed.retained_instances 1)
    × (get id_a (trim id_a crashed).instances ≡ some crashed_a)
    × ((j : Text) (q : RuntimeInstance)
        → get j crashed.instances ≡ some q
        → is_live q ≡ true
        → get j (trim id_a crashed).instances ≡ some q)
    × (count_where is_terminal crashed.instances ≤ crashed.retained_instances
        → trim id_a crashed ≡ crashed)
trim_lem_example =
    trim_lem id_a crashed_a crashed crashed_registry crashed_at (ended_over busy runtime_a crash 9)
      crashed-IsSound
