-- ===== src/Control/Registry/Opening.antt =====
-- What `NewManager` loads from a registry (`loadRegistered` of internal/control/registry.go): a supervisor
-- whose instances are apart, where those of the registry are.
use slipway.Common.{
  ℕ, ◌+◌, Text, text_eq_iff, ◌≡◌, ◌≢◌, refl, sym, ap, ◌∙◌, true, none, some, [], ◌∷◌, ok, Dict, get,
  get-put_ne, put_all, All, All_mono, All_both, Pairwise, All-order_by, Pairwise-order_by, order_by,
  bind_ok, ok_injective, arith,
}
use slipway.Control.Manager.Types.{RuntimeInstance, Row, Registry, Manager, Options, new_manager}
use slipway.Control.Manager.Names.{valid_id}
use slipway.Control.Manager.Every.{put-Every}
use slipway.Control.Manager.System.{new_maps, empty-AreSound}
use slipway.Control.Registry.Registered.{
  Loading, loaded_runtime, enter, enter_row, load_rows, load_registered, open_manager, id_before,
  is_valid_row, calls_of,
}
use slipway.Control.Registry.Reloading.{IsValid, loaded_runtime-IsLoaded, load_step}
use slipway.Control.Registry.Relaunching.{IsNew, enter_ended-AreSound}
use slipway.Control.Registry.Invariant.{IsPlaced, IsKept, put-AreIdentified}

-- Two rows do not share an id, a name or a configuration, and the name of one is not the id of the other.
abbrev pub OtherRow : Text × Row → Text × Row → Type 0
OtherRow (i, v) (j, w) =
    (i ≢ j) × (i ≢ w.name) × (v.name ≢ j) × (v.name ≢ w.name) × (v.identity ≢ w.identity)

OtherRow-sym : (a b : Text × Row) → OtherRow a b → OtherRow b a
OtherRow-sym a b (ids, id_name, name_id, names, identities) = (
  λ e. ids (sym e),
  λ e. name_id (sym e),
  λ e. id_name (sym e),
  λ e. names (sym e),
  λ e. identities (sym e),
)

module _ (directory : Text) (path : Text → Text) (l : Loading) where
  -- A row that a load accepts, whose name is not its id, and whose database lies at the path of the id.
  abbrev pub IsFiled : Text × Row → Type 0
  IsFiled (id, w) = IsValid l (id, w) × (w.name ≢ id) × (w.view.database_path ≡ path id)

  -- Nothing that was loaded is in the way of a row.
  abbrev IsFree : Manager → Text × Row → Type 0
  IsFree m (id, w) =
      IsNew m.instances m.names id w.name
      × ((k : Text) (r : RuntimeInstance)
          → get k m.instances ≡ some r
          → r.config_identity ≢ w.identity)

  valid_row :
      (id : Text) (w : Row)
      → IsValid l (id, w)
      → (w.view.id ≡ id) × (w.view.name ≡ w.name) × (valid_id id ≡ true)
  unfolding is_valid_row
  valid_row id w h = ground (arith, text_eq_iff w.view.id id, text_eq_iff w.view.name w.name)

  enter_row-IsKept :
      (i : ℕ) (id : Text) (w : Row) (m : Manager)
      → IsFiled (id, w)
      → IsFree m (id, w)
      → IsKept directory path m
      → IsKept directory path (enter_row l i w m)
  unfolding enter_row enter
  enter_row-IsKept i id w m (valid, differ, at) (new, only) k =
      let r = loaded_runtime l i m w in
      let loaded = loaded_runtime-IsLoaded l i m w in
      let (same_id, same_name, is_id) = valid_row id w valid in
      let own = loaded.same_id ∙ same_id in
      let name = loaded.same_name ∙ same_name in
      record {
        sound =
            enter_ended-AreSound k.sound r
              (record {
                new_id = ap (λ j. get j m.instances) own ∙ new.new_id;
                id_no_name = ap (λ j. get j m.names) own ∙ new.id_no_name;
                new_name = ap (λ j. get j m.names) name ∙ new.new_name;
                name_no_id = ap (λ j. get j m.instances) name ∙ new.name_no_id;
                name_ne_id = λ e. differ (sym name ∙ e ∙ own);
              })
              loaded.ended;
        placed =
            put-Every (IsPlaced path) r.view.id r m.instances
              (loaded.same_database ∙ at ∙ ap path (sym own), ap valid_id own ∙ is_id) k.placed;
        identified =
            put-AreIdentified directory path m r.view.id w.identity r refl k.identified
              (λ j q q_at e. absurd (only j q q_at e));
        located = k.located;
      }

  enter_row-IsFree :
      (i : ℕ) (id : Text) (w : Row) (m : Manager) (e : Text × Row)
      → IsValid l (id, w)
      → OtherRow (id, w) e
      → IsFree m e
      → IsFree (enter_row l i w m) e
  unfolding enter_row enter
  enter_row-IsFree i id w m (j, v) valid (ids, id_name, name_id, names, other) (new, only) =
      let r = loaded_runtime l i m w in
      let loaded = loaded_runtime-IsLoaded l i m w in
      let (same_id, same_name, is_id) = valid_row id w valid in
      let own = loaded.same_id ∙ same_id in
      let name = loaded.same_name ∙ same_name in
      (
        record {
          new_id = get-put_ne r.view.id j r m.instances (λ e. ids (sym own ∙ e)) ∙ new.new_id;
          id_no_name =
              get-put_ne r.view.name j r.view.id m.names (λ e. name_id (sym name ∙ e))
              ∙ new.id_no_name;
          new_name =
              get-put_ne r.view.name v.name r.view.id m.names (λ e. names (sym name ∙ e))
              ∙ new.new_name;
          name_no_id =
              get-put_ne r.view.id v.name r m.instances (λ e. id_name (sym own ∙ e))
              ∙ new.name_no_id;
          name_ne_id = new.name_ne_id;
        },
        put_all (λ k q. q.config_identity ≢ v.identity) r.view.id r m.instances other
            (λ k q ne at. only k q at),
      )

  load_rows-IsKept :
      (i : ℕ) (es : Dict Row) (m m' : Manager)
      → load_rows l i es m ≡ ok m'
      → All IsFiled es
      → All (IsFree m) es
      → Pairwise OtherRow es
      → IsKept directory path m
      → IsKept directory path m'
  unfolding load_rows
  load_rows-IsKept i [] m m' h filed free others k =
      let same : m ≡ m' = ok_injective h in rw (← same) k
  load_rows-IsKept i ((id, w) ∷ es) m m' h filed free others k =
      load_rows-IsKept (i + calls_of w.view) es (enter_row l i w m) m'
        (sym (load_step l i id w es m filed.0.0) ∙ h) filed.1
        (All_mono (λ e. OtherRow (id, w) e × IsFree m e) (IsFree (enter_row l i w m))
          (λ e b. enter_row-IsFree i id w m e filed.0.0 b.0 b.1) es
          (All_both (OtherRow (id, w)) (IsFree m) es others.0 free.1))
        others.1 (enter_row-IsKept i id w m filed.0 free.0 k)

  nothing : {A : Type 0} (d : Dict A) (k : Text) (r : A) → d ≡ [] → get k d ≢ some r
  unfolding get
  nothing d k r e h = cc (rw e at h)

  none_of : {A : Type 0} (d : Dict A) (k : Text) → d ≡ [] → get k d ≡ none
  unfolding get
  none_of d k e = rw e refl

  opened-IsKept :
      (o : Options) (g : Registry) (m : Manager)
      → new_manager o ≡ ok m
      → g.directory ≡ directory
      → IsKept directory path (record m { registry = some g })
  opened-IsKept o g m made here =
      let (is, ns, cs, ds) = new_maps o m made in
      record {
        sound = rw (is, ns, cs, ds) empty-AreSound;
        placed = λ k r at. absurd (nothing m.instances k r is at);
        identified = λ j k q r at. absurd (nothing m.instances j q is at);
        located =
            λ h at. let same : g ≡ h = cc in ap (λ (x : Registry). x.directory) (sym same) ∙ here;
      }

  pub open_manager-IsKept :
      (o : Options) (g : Registry) (m : Manager)
      → open_manager l o g ≡ ok m
      → g.directory ≡ directory
      → All IsFiled g.rows
      → Pairwise OtherRow g.rows
      → IsKept directory path m
  unfolding open_manager load_registered
  open_manager-IsKept o g m h here filed others =
      let (m0, made, h') = bind_ok (new_manager o) _ h in
      let (is, ns, cs, ds) = new_maps o m0 made in
      let rows = order_by id_before g.rows in
      let filed' = All-order_by IsFiled id_before g.rows filed in
      load_rows-IsKept 0 rows (record m0 { registry = some g }) m h' filed'
        (All_mono IsFiled (IsFree (record m0 { registry = some g }))
          (λ e f. (
            record {
              new_id = none_of m0.instances e.0 is;
              id_no_name = none_of m0.names e.0 ns;
              new_name = none_of m0.names e.1.name ns;
              name_no_id = none_of m0.instances e.1.name is;
              name_ne_id = f.1;
            },
            λ k r at. absurd (nothing m0.instances k r is at),
          ))
          rows filed')
        (Pairwise-order_by OtherRow OtherRow-sym id_before g.rows others)
        (opened-IsKept o g m0 made here)
