-- ===== src/Control/Registry/SystemExamples.antt =====
-- A supervisor on a registry with one row (internal/control/registered.go), which restores it and starts
-- a second file.
use slipway.Common.{
  Text, codes, text_eq, text_eq_refl, ◌≡◌, ◌≢◌, refl, true, none, some, List, [], ◌∷◌, ◌++◌, ok,
  get, has, put, All, order_by, insert_by, filter_where, is_blank, trim_front, trim_back,
}
use slipway.Control.Manager.Types.{RuntimeInstance, Manager, new_manager}
use slipway.Control.Manager.Names.{
  contains, is_taken, available_id, available_name, suffixed, normalized, trim_edge, automatic_name,
  valid_id, valid_display_name, rest_valid, all_hex, runes_of, resolve, look_up, match_prefix,
}
use slipway.Control.Manager.Lifecycle.{saved, save_views}
use slipway.Control.Manager.Sample.{options, empty, id_a, id_b, a-ne-b}
use slipway.Control.Registry.Registered.{
  entered, enter_row, open_manager, load_registered, load_rows, is_valid_row, restore, restore_all,
  relaunch, register_runtime, enter, registered, revived,
}
use slipway.Control.Registry.Saving.{
  RegisteredStart, row_of, save, save_rows, clashes, identities_of, load_item, load_items,
  not_twice, existing,
}
use slipway.Control.Registry.Starting.{
  fresh_view, name_for, prepare_item, prepare_items, prepare_saved, register_items, register_all,
  start_registered,
}
use slipway.Control.Registry.Invariant.{AreApart}
use slipway.Control.Registry.Opening.{IsFiled}
use slipway.Control.Registry.System.{Op, starts, restores, run, registered_unshared}
use slipway.Control.Registry.Examples.{loading, start, registration_a, registry_a, view_a}

abbrev filed : Text → Text
filed id = codes "/state/queues/" ++ id

filed-AreApart : AreApart filed
filed-AreApart i j vi vj e = cc

abbrev opened : Manager
opened = enter_row loading 0 (row_of registration_a) (record empty { registry = some registry_a })

opened_lem : open_manager loading options registry_a ≡ ok opened
unfolding open_manager load_registered load_rows is_valid_row valid_display_name rest_valid valid_id
    all_hex runes_of text_eq order_by insert_by new_manager
opened_lem = refl

abbrev start_b : RegisteredStart
start_b = record start { paths = codes "/b.yaml" ∷ []; generate = λ n. ok id_b }

abbrev operations : List Op
operations = restores entered none (λ n. n) ∷ starts start_b ∷ []

abbrev runtime_a : RuntimeInstance
runtime_a =
    registered opened (revived 0 view_a) (codes "/a.yaml") (some (registration_a.config)) true

abbrev runtime_b : RuntimeInstance
runtime_b =
    registered opened
      (record view_a {
        id = id_b;
        name = codes "b";
        config_path = codes "/b.yaml";
        database_path = filed id_b;
      })
      (codes "/b.yaml") (some (record { database_path = filed id_b; watch_names = [] })) true

run_both :
    (get id_a (run operations opened).instances ≡ some runtime_a)
    × (get id_b (run operations opened).instances ≡ some runtime_b)
unfolding run restore restore_all saved save_views filter_where relaunch start_registered resolve
    look_up match_prefix is_blank load_items load_item not_twice existing identities_of
    register_items prepare_saved prepare_items prepare_item fresh_view name_for available_name
    available_id is_taken has get contains suffixed automatic_name runes_of normalized trim_edge
    trim_front trim_back valid_id all_hex save save_rows clashes put text_eq register_all
    register_runtime enter enter_row
run_both = (refl, refl)

a-IsFiled : All (IsFiled (codes "/state") filed loading) registry_a.rows
unfolding is_valid_row valid_display_name rest_valid valid_id all_hex runes_of text_eq
a-IsFiled = ((refl, (λ e. cc), refl), tt)

registered_unshared_example :
    (runtime_a.view.name ≢ runtime_b.view.name)
    × (runtime_a.config_identity ≢ runtime_b.config_identity)
    × (runtime_a.view.database_path ≢ runtime_b.view.database_path)
    × (get runtime_a.view.name (run operations opened).instances ≡ none)
registered_unshared_example =
    registered_unshared (codes "/state") filed loading options registry_a opened operations id_a
      id_b runtime_a runtime_b filed-AreApart opened_lem refl a-IsFiled (tt, tt)
      (tt, (((λ p e. cc (text_eq_refl p, e)), λ id. refl), tt)) run_both.0 run_both.1 a-ne-b
