-- ===== src/Control/Registry/System.antt =====
-- A supervisor of a state directory (internal/control/registry.go and registered.go) as a system: any
-- sequence of its methods and of the ends of its runners, from what it loads on.
use slipway.Common.{
  ℕ, Text, ◌≡◌, ◌≢◌, refl, sym, ◌∙◌, true, Option, none, some, List, [], ◌∷◌, ok, get, All,
  Pairwise,
}
use slipway.Control.Manager.Types.{KnownQueue, RuntimeInstance, Registry, Manager, Options}
use slipway.Control.Manager.Lifecycle.{Outcome, finish}
use slipway.Control.Manager.Stopping.{stop, begin_shutdown, end_shutdown}
use slipway.Control.Manager.Invariant.Changes.{agree}
use slipway.Control.Manager.Invariant.Finishing.{finish-IsSound}
use slipway.Control.Manager.Invariant.Stops.{
  stop-IsSound, begin_shutdown-IsSound, end_shutdown-IsSound,
}
use slipway.Control.Manager.Continuity.{
  Continues-refl, stop-Continues, finish-Continues, begin_shutdown-Continues,
  end_shutdown-Continues,
}
use slipway.Control.Registry.Registered.{
  Gate, Loading, open_manager, restore, start_registered_queue,
}
use slipway.Control.Registry.Saving.{RegisteredStart}
use slipway.Control.Registry.Starting.{start_registered}
use slipway.Control.Registry.Reading.{IsReflexive}
use slipway.Control.Registry.Invariant.{AreApart, IsKept, Continues-IsKept}
use slipway.Control.Registry.Launching.{restore-IsKept}
use slipway.Control.Registry.Opening.{IsFiled, OtherRow, open_manager-IsKept}
use slipway.Control.Registry.Soundness.{start_registered-IsKept, start_registered_queue-IsKept}

-- `parent_ends` is the end of the context that the supervisor was made with.
pub data Op : Type 0 where
  starts : RegisteredStart → Op
  starts_queue : Gate → Option Text → ℕ → KnownQueue → Op
  restores : Gate → Option Text → (ℕ → ℕ) → Op
  stops : Option Text → Text → Op
  finishes : Option Text → Outcome → ℕ → Text → Op
  begins_shutdown ends_shutdown parent_ends : Op

-- `StartMany` with a registry; a supervisor of a state directory has one as long as it lives.
abbrev pub start_with : RegisteredStart → Manager → Option Registry → Manager
start_with q m none = m
start_with q m (some g) = (start_registered q g m).1

abbrev pub perform : Op → Manager → Manager
perform (starts q) m = start_with q m m.registry
perform (starts_queue gate refused now q) m = (start_registered_queue gate refused now q m).1
perform (restores gate refused clock) m = (restore gate refused clock m).1
perform (stops refused selector) m = (stop refused selector m).1
perform (finishes refused outcome now id) m = finish refused outcome now id m
perform begins_shutdown m = begin_shutdown m
perform ends_shutdown m = (end_shutdown m).1
perform parent_ends m = record m { cancelled = true }

unfoldable pub run : List Op → Manager → Manager
run [] m = m
run (op ∷ ops) m = run ops (perform op m)

-- A start finds no path to differ from itself, and files the queues of the directory by their ids.
abbrev pub IsFaithful : Text → (Text → Text) → Op → Type 0
IsFaithful directory path (starts q) =
    IsReflexive q.files × ((id : Text) → q.queue_path directory id ≡ path id)
IsFaithful directory path op = Unit {0}

module _ (directory : Text) (path : Text → Text) (apart : AreApart path) where
  start_with-IsKept :
      (q : RegisteredStart) (m : Manager) (o : Option Registry)
      → IsFaithful directory path (starts q)
      → m.registry ≡ o
      → IsKept directory path m
      → IsKept directory path (start_with q m o)
  start_with-IsKept q m none faithful there k = k
  start_with-IsKept q m (some g) faithful there k =
      start_registered-IsKept directory path apart q faithful.0 faithful.1 g m there k

  perform-IsKept :
      (op : Op) (m : Manager)
      → IsFaithful directory path op
      → IsKept directory path m
      → IsKept directory path (perform op m)
  perform-IsKept (starts q) m faithful k = start_with-IsKept q m m.registry faithful refl k
  perform-IsKept (starts_queue gate refused now q) m faithful k =
      start_registered_queue-IsKept directory path apart gate refused now q m k
  perform-IsKept (restores gate refused clock) m faithful k =
      restore-IsKept directory path gate refused clock m apart k
  perform-IsKept (stops refused selector) m faithful k =
      Continues-IsKept directory path m (stop refused selector m).1
        (stop-Continues m refused selector m k.sound (Continues-refl m))
        (stop-IsSound refused selector m k.sound) k
  perform-IsKept (finishes refused outcome now id) m faithful k =
      Continues-IsKept directory path m (finish refused outcome now id m)
        (finish-Continues m refused outcome now id m (Continues-refl m))
        (finish-IsSound refused outcome now id m k.sound) k
  perform-IsKept begins_shutdown m faithful k =
      Continues-IsKept directory path m (begin_shutdown m)
        (begin_shutdown-Continues m m (Continues-refl m)) (begin_shutdown-IsSound m k.sound) k
  perform-IsKept ends_shutdown m faithful k =
      Continues-IsKept directory path m (end_shutdown m).1
        (end_shutdown-Continues m m (Continues-refl m)) (end_shutdown-IsSound m k.sound) k
  perform-IsKept parent_ends m faithful k = record {
    sound = k.sound;
    placed = k.placed;
    identified = k.identified;
    located = k.located;
  }

  run-IsKept :
      (ops : List Op) (m : Manager)
      → All (IsFaithful directory path) ops
      → IsKept directory path m
      → IsKept directory path (run ops m)
  unfolding run
  run-IsKept [] m faithful k = k
  run-IsKept (op ∷ ops) m faithful k =
      run-IsKept ops (perform op m) faithful.1 (perform-IsKept op m faithful.0 k)

-- Let a supervisor be opened on the registry of a directory whose rows are valid, have their databases
-- at the paths of their ids, and share no id, name or configuration, with no name that is an id; so
-- is a registry without rows. Whatever starts of files and queues, restores, stops, ends of runners
-- and shutdowns follow, under any refusals of the database, two instances of different ids, active or
-- not, have different names, configurations and databases, and no name is an id. The starts find no
-- path to differ from itself, and the paths of the databases of valid ids differ.
pub registered_unshared :
    (directory : Text) (path : Text → Text) (l : Loading) (o : Options) (g : Registry) (m : Manager)
    (ops : List Op) (j k : Text) (q r : RuntimeInstance)
    → AreApart path
    → open_manager l o g ≡ ok m
    → g.directory ≡ directory
    → All (IsFiled directory path l) g.rows
    → Pairwise OtherRow g.rows
    → All (IsFaithful directory path) ops
    → get j (run ops m).instances ≡ some q
    → get k (run ops m).instances ≡ some r
    → j ≢ k
    → (q.view.name ≢ r.view.name)
      × (q.config_identity ≢ r.config_identity)
      × (q.view.database_path ≢ r.view.database_path)
      × (get q.view.name (run ops m).instances ≡ none)
registered_unshared directory path l o g m ops j k q r apart opened here filed others faithful q_at
      r_at ne =
    let kept =
      run-IsKept directory path apart ops m faithful
        (open_manager-IsKept directory path l o g m opened here filed others) in
    let (q_path, q_valid) = kept.placed j q q_at in
    let (r_path, r_valid) = kept.placed k r r_at in
    let named = kept.sound.named j q q_at in
    (
      λ e. ne (agree r.view.name q.view.name (run ops m).names (kept.sound.named k r r_at) named e),
      λ e. ne (kept.identified j k q r q_at r_at e),
      λ e. ne (apart j k q_valid r_valid (sym q_path ∙ e ∙ r_path)),
      kept.sound.apart q.view.name j named,
    )
