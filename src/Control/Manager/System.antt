-- ===== src/Control/Manager/System.antt =====
-- The supervisor of internal/control/manager.go as a system: any sequence of its methods and of the
-- ends of its runners.
use slipway.Common.{ℕ, Text, ◌≡◌, refl, true, Option, List, [], ◌∷◌, ok, get, arith}
use slipway.Control.Manager.Types.{Manager, Options, new_manager}
use slipway.Control.Manager.Lifecycle.{Outcome, finish}
use slipway.Control.Manager.Stopping.{stop, begin_shutdown, end_shutdown}
use slipway.Control.Manager.Start.{Request, start_many}
use slipway.Control.Manager.Invariant.Defs.{IsSound, AreSound}
use slipway.Control.Manager.Invariant.Starting.{start_many-IsSound}
use slipway.Control.Manager.Invariant.Finishing.{finish-IsSound}
use slipway.Control.Manager.Invariant.Stops.{
  stop-IsSound, begin_shutdown-IsSound, end_shutdown-IsSound,
}

-- `parent_ends` is the end of the context that the supervisor was made with.
pub data Op : Type 0 where
  starts : Request → Op
  stops : Option Text → Text → Op
  finishes : Option Text → Outcome → ℕ → Text → Op
  begins_shutdown ends_shutdown parent_ends : Op

abbrev pub perform : Op → Manager → Manager
perform (starts q) m = (start_many q m).1
perform (stops refused selector) m = (stop refused selector m).1
perform (finishes refused outcome now id) m = finish refused outcome now id m
perform begins_shutdown m = begin_shutdown m
perform ends_shutdown m = (end_shutdown m).1
perform parent_ends m = record m { cancelled = true }

unfoldable pub run : List Op → Manager → Manager
run [] m = m
run (op ∷ ops) m = run ops (perform op m)

pub perform-IsSound : (op : Op) (m : Manager) → IsSound m → IsSound (perform op m)
perform-IsSound (starts q) m s = start_many-IsSound q m s
perform-IsSound (stops refused selector) m s = stop-IsSound refused selector m s
perform-IsSound (finishes refused outcome now id) m s = finish-IsSound refused outcome now id m s
perform-IsSound begins_shutdown m s = begin_shutdown-IsSound m s
perform-IsSound ends_shutdown m s = end_shutdown-IsSound m s
perform-IsSound parent_ends m s = s

run_from-IsSound : (ops : List Op) (m : Manager) → IsSound m → IsSound (run ops m)
unfolding run
run_from-IsSound [] m s = s
run_from-IsSound (op ∷ ops) m s = run_from-IsSound ops (perform op m) (perform-IsSound op m s)

pub new_maps :
    (o : Options) (m : Manager)
    → new_manager o ≡ ok m
    → (m.instances ≡ []) × (m.names ≡ []) × (m.active_configs ≡ []) × (m.active_databases ≡ [])
unfolding new_manager
new_maps o m h = ground arith

pub empty-AreSound : AreSound [] [] [] []
unfolding get
empty-AreSound = record {
  unique = tt;
  keyed = λ k r h. cc;
  named = λ k r h. cc;
  owned = λ n k h. absurd (cc);
  apart = λ n k h. refl;
  holds_config = λ k r h active. cc;
  holds_database = λ k r h active. cc;
  config_held = λ p k h. absurd (cc);
  database_held = λ p k h. absurd (cc);
}

new_manager-IsSound : (o : Options) (m : Manager) → new_manager o ≡ ok m → IsSound m
new_manager-IsSound o m h =
    let (is, ns, cs, ds) = new_maps o m h in rw (is, ns, cs, ds) empty-AreSound

-- After any starts, stops, shutdowns and ends of runners, in any order, the maps of a new supervisor
-- agree: ids and names stand for each other one to one and no name is an id, every active instance
-- holds its configuration and its database, and nothing is held but by an active instance.
pub run-IsSound :
    (o : Options) (m : Manager) (ops : List Op) → new_manager o ≡ ok m → IsSound (run ops m)
run-IsSound o m ops h = run_from-IsSound ops m (new_manager-IsSound o m h)
