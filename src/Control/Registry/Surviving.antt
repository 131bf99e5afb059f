-- ===== src/Control/Registry/Surviving.antt =====
-- What a registered start acknowledged comes back when the daemon starts again
-- (internal/control/registered.go and registry.go).
use mathlib.Core.Path.{subst}
use slipway.Common.{
  ℕ, suc, Text, ◌≡◌, ◌≢◌, refl, sym, ap, ◌∙◌, true, false, Option, Option-cases, arith, none, some,
  List, [], ◌∷◌, map, length, get, IsMap, Result-cases, ok, err, bind_ok, inl, inr, All, All_mono,
  Pairwise, HasEntry,
}
use slipway.Control.Manager.Types.{
  Instance, Config, RuntimeInstance, is_live, owns, Row, Registry, Manager, Options, is_closing,
  shutting_down, new_manager,
}
use slipway.Control.Manager.Lifecycle.{refusal}
use slipway.Control.Manager.Preflight.{refuse}
use slipway.Control.Registry.Registered.{Loading, entered, open_manager, restore}
use slipway.Control.Registry.Reloading.{IsValid}
use slipway.Control.Registry.Restart.{IsRestored, is_resumable, restart-IsRestored}
use slipway.Control.Registry.Saving.{Registration, RegisteredStart, Item, row_of, save, save_rows}
use slipway.Control.Registry.Starting.{
  no_progress, prepare_items, prepare_saved, register_all, register_items, launch_saved,
  view_of_registration,
}
use slipway.Control.Registry.Acknowledged.{
  AreDistinct, IsPrepared, IsLaunched, save_reaches, register_reaches, register_registry,
  prepare_items-IsPrepared,
}

-- The instances that a start returns have different ids.
abbrev pub HaveIds : List Instance → Type 0
HaveIds vs = Pairwise (λ u v. u.id ≢ v.id) vs

map_all {ℓ} :
    (P : Instance → Type ℓ) (rs : List Registration)
    → All P (map view_of_registration rs)
    → All (λ r. P r.view) rs
map_all P [] h = tt
map_all P (r ∷ rs) h = (h.0, map_all P rs h.1)

all_map {ℓ} :
    (P : Instance → Type ℓ) (rs : List Registration)
    → All (λ r. P r.view) rs
    → All P (map view_of_registration rs)
all_map P [] h = tt
all_map P (r ∷ rs) h = (h.0, all_map P rs h.1)

map-AreDistinct : (rs : List Registration) → HaveIds (map view_of_registration rs) → AreDistinct rs
map-AreDistinct [] h = tt
map-AreDistinct (r ∷ rs) h = (map_all (λ v. r.view.id ≢ v.id) rs h.0, map-AreDistinct rs h.1)

refusal-open : (o : Option Text) (g : Registry) → refusal o g ≡ none → g.closed ≡ false
refusal-open none g h = ground arith
refusal-open (some e) g h = absurd (cc)

-- A save that succeeds found the registry open, and leaves it open.
save_ok :
    (q : RegisteredStart) (rs : List Registration) (g h : Registry)
    → save q.refusals rs g ≡ ok h
    → (save_rows q.refusals 1 rs g.rows ≡ ok h.rows) × (h.closed ≡ false)
unfolding save
save_ok q rs g h saved = elim (Option-cases (refusal (q.refusals 0) g)) [
  | inr (e, at) ↦ absurd (cc (rw (at, save) at saved))
  | inl at ↦
      let (rows, kept, same) =
        bind_ok (save_rows q.refusals 1 rs g.rows) _ (rw (at, save) at saved) in
      let written : record g { rows = rows } ≡ h = cc in
      (
        kept ∙ ap (λ x. ok x.rows) written,
        sym (ap (λ x. x.closed) written) ∙ refusal-open (q.refusals 0) g at,
      )
]

-- What became of a registration: it was checked, it stands in the registry, and it runs.
pub record IsAcknowledged (q : RegisteredStart) (h : Registry) (m : Manager) (r : Registration)
    : Type 0 where
  pub prepared : IsPrepared q r
  pub stored : get r.view.id h.rows ≡ some (row_of r)
  pub launched : HasEntry (IsLaunched r) r.view.id m.instances

all-IsAcknowledged :
    (q : RegisteredStart) (h : Registry) (m : Manager) (rs : List Registration)
    → All (IsPrepared q) rs
    → All (λ r. get r.view.id h.rows ≡ some (row_of r)) rs
    → All (λ r. HasEntry (IsLaunched r) r.view.id m.instances) rs
    → All (IsAcknowledged q h m) rs
all-IsAcknowledged q h m [] a b c = tt
all-IsAcknowledged q h m (r ∷ rs) a b c = (
  record { prepared = a.0; stored = b.0; launched = c.0 },
  all-IsAcknowledged q h m rs a.1 b.1 c.1,
)

prepare_saved_lem :
    (q : RegisteredStart) (items : List Item) (g : Registry) (m : Manager) (rs : List Registration)
    (h : Registry)
    → prepare_saved q items g m ≡ ok (rs, h)
    → (All (IsPrepared q) rs × (length rs ≡ length items))
      × (save_rows q.refusals 1 rs g.rows ≡ ok h.rows)
      × (h.closed ≡ false)
unfolding prepare_saved
prepare_saved_lem q items g m rs h at =
    let (passed, checked, h1) = bind_ok (refuse (is_closing m) shutting_down) _ at in
    let (made, prepared, h2) = bind_ok (prepare_items q m g no_progress items) _ h1 in
    let (kept, saved, h3) = bind_ok (save q.refusals made g) _ h2 in
    let first : made ≡ rs = cc in
    let second : kept ≡ h = cc in
    let all = prepare_items-IsPrepared q m g no_progress items made prepared in
    let (rows, closed) = save_ok q made g kept saved in
    (
      subst (λ x. All (IsPrepared q) x × (length x ≡ length items)) first all,
      ap (λ x. save_rows q.refusals 1 x g.rows) (sym first) ∙ rows ∙ ap (λ x. ok x.rows) second,
      sym (ap (λ x. x.closed) second) ∙ closed,
    )

-- A start that returns instances registered and launched every item.
pub register_items_lem :
    (q : RegisteredStart) (items : List Item) (g : Registry) (m m' : Manager) (vs : List Instance)
    → register_items q items g m ≡ (ok vs, m')
    → HaveIds vs
    → (rs : List Registration) × (h : Registry) × (vs ≡ map view_of_registration rs)
      × (length rs ≡ length items)
      × (m'.registry ≡ some h)
      × (h.closed ≡ false)
      × All (IsAcknowledged q h m') rs
unfolding register_items
register_items_lem q items g m m' vs done apart = elim (Result-cases (prepare_saved q items g m)) [
  | inr (e, at) ↦
      let failed : (err e, m) ≡ (ok vs, m') = rw (at, register_items) at done in absurd (cc)
  | inl ((rs, h), at) ↦
      let same : launch_saved m (ok (rs, h)) ≡ (ok vs, m') = rw (at, register_items) at done in
      let views : map view_of_registration rs ≡ vs = cc in
      let after : register_all rs (record m { registry = some h }) ≡ m' = cc in
      let (prepared, kept, closed) = prepare_saved_lem q items g m rs h at in
      let distinct = map-AreDistinct rs (subst HaveIds (sym views) apart) in
      (
        rs,
        h,
        sym views,
        prepared.1,
        sym (ap (λ x. x.registry) after) ∙ register_registry rs (record m { registry = some h }),
        closed,
        all-IsAcknowledged q h m' rs prepared.0
            (save_reaches q.refusals 1 rs g.rows h.rows distinct kept)
            (subst (λ x. All (λ r. HasEntry (IsLaunched r) r.view.id x.instances) rs) after
              (register_reaches rs (record m { registry = some h }) distinct)),
      )
]

-- An instance that runs as the start reported it, and one that came back as it.
abbrev pub RunsAs : Instance → RuntimeInstance → Type 0
RunsAs v r = (r.view ≡ v) × (is_live r ≡ true) × (r.done ≡ false)

abbrev pub CameBack : Instance → RuntimeInstance → Type 0
CameBack v r =
    (r.view.id ≡ v.id)
    × (r.view.name ≡ v.name)
    × (r.view.database_path ≡ v.database_path)
    × (is_live r ≡ true)

launched-RunsAs :
    (q : RegisteredStart) (h : Registry) (m : Manager) (r : Registration)
    → IsAcknowledged q h m r
    → HasEntry (RunsAs r.view) r.view.id m.instances
launched-RunsAs q h m r a =
    let (i, at, (same, config, identity, going, running)) = a.launched in
    (i, at, (same, ap (λ v. owns v.state) same ∙ ap owns a.prepared.0, running))

resumable_lem :
    (q : RegisteredStart) (l : Loading) (r : Registration)
    → ((c : Config) → l.validate c ≡ q.validate c)
    → IsPrepared q r
    → is_resumable l (row_of r) ≡ true
resumable_lem q l r agrees (state, desired, valid, database) =
    rw (desired, agrees r.config, valid) refl

restored-CameBack :
    (q : RegisteredStart) (l : Loading) (h : Registry) (m m2 : Manager) (r : Registration)
    → ((c : Config) → l.validate c ≡ q.validate c)
    → ((k : Text) (w : Row) → get k h.rows ≡ some w → HasEntry (IsRestored l w) k m2.instances)
    → IsAcknowledged q h m r
    → HasEntry (CameBack r.view) r.view.id m2.instances
restored-CameBack q l h m m2 r agrees each a =
    let (i, at, b) = each r.view.id (row_of r) a.stored in
    (
      i,
      at,
      (b.same_id, b.same_name, b.same_database, b.live ∙ resumable_lem q l r agrees a.prepared),
    )

-- When a registered start has returned instances of different ids, they run as it reported them. If a
-- daemon starts later on the registry as that start left it, then, as
-- long as the rows are valid and `Validate` judges as before, the new daemon comes up, its `Restore`
-- succeeds where the database does not refuse, and every one of these instances runs again, under
-- the same id and name and on the same database.
pub acknowledged_survives :
    (q : RegisteredStart) (items : List Item) (g h : Registry) (m m' : Manager) (vs : List Instance)
    (l : Loading) (o : Options) (clock : ℕ → ℕ) (m0 : Manager)
    → register_items q items g m ≡ (ok vs, m')
    → HaveIds vs
    → m'.registry ≡ some h
    → new_manager o ≡ ok m0
    → IsMap h.rows
    → All (IsValid l) h.rows
    → ((c : Config) → l.validate c ≡ q.validate c)
    → (length vs ≡ length items)
      × All (λ v. HasEntry (RunsAs v) v.id m'.instances) vs
      × (m1 m2 : Manager) × (n : ℕ) × (open_manager l o h ≡ ok m1)
      × (restore entered none clock m1 ≡ (ok n, m2))
      × All (λ v. HasEntry (CameBack v) v.id m2.instances) vs
acknowledged_survives q items g h m m' vs l o clock m0 done apart registry made unique valid
      agrees =
    let (rs, k, views, count, kept, closed, all) =
      register_items_lem q items g m m' vs done apart in
    let same : k ≡ h = cc in
    let all' = subst (λ x. All (IsAcknowledged q x m') rs) same all in
    let (m1, m2, n, loaded, restored, each, others) =
      restart-IsRestored l o h clock m0 made (ap (λ x. x.closed) (sym same) ∙ closed) unique
        valid in
    (
      ap length views ∙ length-views rs ∙ count,
      subst (λ x. All (λ v. HasEntry (RunsAs v) v.id m'.instances) x) (sym views)
          (all_map (λ v. HasEntry (RunsAs v) v.id m'.instances) rs
            (All_mono (IsAcknowledged q h m') (λ r. HasEntry (RunsAs r.view) r.view.id m'.instances)
              (λ r a. launched-RunsAs q h m' r a) rs all')),
      m1,
      m2,
      n,
      loaded,
      restored,
      subst (λ x. All (λ v. HasEntry (CameBack v) v.id m2.instances) x) (sym views)
          (all_map (λ v. HasEntry (CameBack v) v.id m2.instances) rs
            (All_mono (IsAcknowledged q h m')
              (λ r. HasEntry (CameBack r.view) r.view.id m2.instances)
              (λ r a. restored-CameBack q l h m' m2 r agrees each a) rs all')),
    )
  where
    length-views : (rs : List Registration) → length (map view_of_registration rs) ≡ length rs
    length-views [] = refl
    length-views (r ∷ rs) = ap suc (length-views rs)
