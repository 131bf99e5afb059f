-- ===== src/Control/Registry/Restart.antt =====
-- The restart of a daemon: `NewManager` loads the registrations of a state directory and `Restore`
-- launches the instances that were wanted (internal/control/registry.go and registered.go).
use slipway.Common.{
  Text, ◌≡◌, ◌≢◌, refl, sym, ap, ◌∙◌, Bool, false, not, ◌&&◌, ◌||◌, is_some, ℕ, Option, none, some,
  List, [], ok, Dict, get, IsMap, All, All_mono, HasEntry, arith, filter_where, order_by,
  All-order_by, All-order_by_inv, Pairwise-order_by, entries_found, All-get, get-none, length,
}
use slipway.Control.Manager.Types.{
  Config, Instance, RuntimeInstance, is_live, Row, Registry, Manager, Options, new_manager,
}
use slipway.Control.Manager.Lifecycle.{saved, save_views}
use slipway.Control.Registry.Registered.{
  Loading, entered, is_wanted, is_pending, checked_config, load_rows, load_registered, open_manager,
  restore, restore_all, id_before, revived_views,
}
use slipway.Control.Registry.Reloading.{
  IsLoaded, IsValid, IsIndexed, load_rows_ok, load_keeps, load-IsIndexed, load_reaches,
}
use slipway.Control.Registry.Restoring.{IsRevived, IsKeyed, resumes, resumes_keeps, resumes_reaches}

-- Whether a restart launches a registration.
abbrev pub is_resumable : Loading → Row → Bool
is_resumable l w = is_wanted w.view.desired_state && not (is_some (l.validate w.config))

-- What the restart makes of a registration.
pub record IsRestored (l : Loading) (w : Row) (r : RuntimeInstance) : Type 0 where
  pub same_id : r.view.id ≡ w.view.id
  pub same_name : r.view.name ≡ w.view.name
  pub same_database : r.view.database_path ≡ w.view.database_path
  pub same_desired : r.view.desired_state ≡ w.view.desired_state
  pub same_identity : r.config_identity ≡ w.identity
  pub same_config : r.config ≡ checked_config (l.validate w.config) w.config
  pub live : is_live r ≡ is_resumable l w

is_some-checked_config :
    (o : Option Text) (c : Config) → is_some (checked_config o c) ≡ not (is_some o)
is_some-checked_config none c = refl
is_some-checked_config (some e) c = refl

pending_live :
    (r : RuntimeInstance)
    → is_live r ≡ false
    → (is_pending (r.view.id, r) || is_live r)
      ≡ (is_wanted r.view.desired_state && is_some r.config)
pending_live r h = ground arith

loaded_live :
    (l : Loading) (w : Row) (r : RuntimeInstance)
    → IsLoaded l w r
    → (is_wanted r.view.desired_state && is_some r.config) ≡ is_resumable l w
loaded_live l w r a =
    rw (a.same_desired, a.same_config, is_some-checked_config (l.validate w.config) w.config) refl

loaded-IsRestored :
    (l : Loading) (w : Row) (r q : RuntimeInstance)
    → IsLoaded l w r
    → IsRevived r q
    → IsRestored l w q
loaded-IsRestored l w r q a b = record {
  same_id = b.same_id ∙ a.same_id;
  same_name = b.same_name ∙ a.same_name;
  same_database = b.same_database ∙ a.same_database;
  same_desired = b.same_desired ∙ a.same_desired;
  same_identity = b.same_identity ∙ a.same_identity;
  same_config = b.same_config ∙ a.same_config;
  live = b.live ∙ pending_live r a.ended ∙ loaded_live l w r a;
}

-- What is indexed by its ids stands where its ids find it.
IsIndexed-IsKeyed : (d : Dict RuntimeInstance) → IsIndexed d → IsKeyed d
IsIndexed-IsKeyed d s =
    All_mono {A = Text × RuntimeInstance} (λ e. get e.0 d ≡ some e.1) (λ e. e.1.view.id ≡ e.0)
      (λ e h. s.keyed e.0 e.1 h) d (entries_found d s.unique)

new_manager-fresh :
    (o : Options) (m : Manager)
    → new_manager o ≡ ok m
    → (m.instances ≡ []) × (m.shutting_down ≡ false) × (m.cancelled ≡ false)
unfolding new_manager
new_manager-fresh o m h = ground arith

-- The registry accepts what is saved to it while it is open.
saved_lem :
    (vs : List Instance) (g : Registry)
    → g.closed ≡ false
    → (h : Registry) × (saved none vs g ≡ ok h)
unfolding saved
saved_lem vs g h = (record g { rows = save_views vs g.rows }, ground arith)

module _ (l : Loading) (o : Options) (g : Registry) where
  -- What `open_manager` loads from, and what it loads.
  abbrev base : Manager → Manager
  base m = record m { registry = some g }

  abbrev sorted : Dict Row
  sorted = order_by id_before g.rows

  open_step :
      (m : Manager) → new_manager o ≡ ok m → open_manager l o g ≡ load_rows l 0 sorted (base m)
  unfolding open_manager load_registered
  open_step m h = rw (h, open_manager) refl

  restore_step :
      (clock : ℕ → ℕ) (m : Manager)
      → m.registry ≡ some g
      → m.shutting_down ≡ false
      → m.cancelled ≡ false
      → g.closed ≡ false
      → (n : ℕ) × (h : Registry) × (restore entered none clock m
          ≡ (ok n, resumes clock 0 m.instances (record m { registry = some h })))
  unfolding restore restore_all
  restore_step clock m at s c g_open =
      let pending = filter_where is_pending m.instances in
      let (h, e) = saved_lem (revived_views clock 0 pending) g g_open in
      (length pending, h, rw (at, restore) (rw (s, c, restore_all) (rw (e, restore_all) refl)))

empty-IsIndexed : IsIndexed []
unfolding get
empty-IsIndexed = record { unique = tt; keyed = λ k r h. absurd (cc) }

-- A daemon that starts on an open registry whose rows are valid comes up, and its `Restore` succeeds
-- with no refusal of the database: then every registration has its instance, with the id, the name,
-- the database, the configuration and the wish that were registered, which is active exactly where
-- it was wanted and its snapshot passes `Validate`; and there is no other instance.
pub restart-IsRestored :
    (l : Loading) (o : Options) (g : Registry) (clock : ℕ → ℕ) (m0 : Manager)
    → new_manager o ≡ ok m0
    → g.closed ≡ false
    → IsMap g.rows
    → All (IsValid l) g.rows
    → (m1 m2 : Manager) × (n : ℕ) × (open_manager l o g ≡ ok m1)
      × (restore entered none clock m1 ≡ (ok n, m2))
      × ((k : Text) (w : Row) → get k g.rows ≡ some w → HasEntry (IsRestored l w) k m2.instances)
      × ((k : Text) → get k g.rows ≡ none → get k m2.instances ≡ none)
unfolding get
restart-IsRestored l o g clock m0 made g_open unique valid =
    let (empty, s0, c0) = new_manager-fresh o m0 made in
    let es = sorted l o g in
    let m = base l o g m0 in
    let valid' = All-order_by (IsValid l) id_before g.rows valid in
    let unique' : IsMap es =
      Pairwise-order_by (λ e f. e.0 ≢ f.0) (λ x y ne same. ne (sym same)) id_before g.rows unique in
    let (m1, loaded, at, s, c) = load_rows_ok l 0 es m valid' in
    let indexed : IsIndexed m1.instances =
      load-IsIndexed l 0 es m m1 valid' loaded (rw empty empty-IsIndexed) in
    let (n, h, restored) = restore_step l o g clock m1 at (s ∙ s0) (c ∙ c0) g_open in
    let keyed = IsIndexed-IsKeyed m1.instances indexed in
    let m2 = resumes clock 0 m1.instances (record m1 { registry = some h }) in
    let revived =
      resumes_reaches clock 0 m1.instances (record m1 { registry = some h }) keyed indexed.unique
        (entries_found m1.instances indexed.unique) in
    (
      m1,
      m2,
      n,
      open_step l o g m0 made ∙ loaded,
      restored,
      λ k w found.
          let (r, r_at, r_loaded) =
            All-get (λ e. HasEntry (IsLoaded l e.1) e.0 m1.instances) k g.rows
              (All-order_by_inv (λ e. HasEntry (IsLoaded l e.1) e.0 m1.instances) id_before g.rows
                (load_reaches l 0 es m m1 valid' unique' loaded))
              found in
          let (q, q_at, q_revived) =
            All-get (λ e. HasEntry (IsRevived e.1) e.0 m2.instances) k m1.instances revived r_at in
          (q, q_at, loaded-IsRestored l w r q r_loaded q_revived),
      λ k gone.
          let apart = All-order_by (λ e. k ≢ e.0) id_before g.rows (get-none k g.rows gone) in
          let gone1 : get k m1.instances ≡ none =
            load_keeps l k 0 es m m1 valid' apart loaded ∙ ap (λ d. get k d) empty in
          resumes_keeps clock k 0 m1.instances (record m1 { registry = some h }) keyed
            (get-none k m1.instances gone1)
          ∙ gone1,
    )
