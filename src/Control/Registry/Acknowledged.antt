-- ===== src/Control/Registry/Acknowledged.antt =====
-- What `startRegistered` of internal/control/registered.go acknowledges: it stands in the registry
-- and runs.
use mathlib.Core.Path.{subst}
use slipway.Common.{
  ℕ, suc, ◌+◌, Text, ◌≡◌, ◌≢◌, refl, sym, ap, ◌∙◌, true, false, Option, Option-cases, none, some,
  List, [], ◌∷◌, length, Dict, get, put, get-put_self, get-put_ne, Result, ok, err, bind_ok,
  ok_injective, Bool-cases, inl, inr, All, Pairwise, HasEntry,
}
use slipway.Control.Manager.Types.{State, wanted, Instance, RuntimeInstance, Row, Registry, Manager}
use slipway.Control.Registry.Registered.{register_runtime, enter, registered}
use slipway.Control.Registry.Saving.{
  Registration, RegisteredStart, Refusals, Item, row_of, save_rows, clashes,
}
use slipway.Control.Registry.Starting.{
  Progress, prepare_item, prepare_items, register_all, completed, config_for, started_view,
  view_for,
}

abbrev pub AreDistinct : List Registration → Type 0
AreDistinct rs = Pairwise (λ r s. r.view.id ≢ s.view.id) rs

save_step :
    (refusals : Refusals) (i : ℕ) (r : Registration) (rs : List Registration)
    (rows rows' : Dict Row)
    → save_rows refusals i (r ∷ rs) rows ≡ ok rows'
    → save_rows refusals (i + 1) rs (put r.view.id (row_of r) rows) ≡ ok rows'
unfolding save_rows
save_step refusals i r rs rows rows' h = elim (Option-cases (refusals i)) [
  | inr (e, at) ↦ absurd (cc (rw (at, save_rows) at h))
  | inl at ↦ elim (Bool-cases (clashes r rows)) [
    | inl e ↦ absurd (cc (rw (at, e, save_rows) at h))
    | inr e ↦ rw (at, e, save_rows) at h
  ]
]

save_keeps :
    (refusals : Refusals) (i : ℕ) (k : Text) (rs : List Registration) (rows rows' : Dict Row)
    → All (λ r. k ≢ r.view.id) rs
    → save_rows refusals i rs rows ≡ ok rows'
    → get k rows' ≡ get k rows
unfolding save_rows
save_keeps refusals i k [] rows rows' ne h = elim (Option-cases (refusals i)) [
  | inr (e, at) ↦ absurd (cc (rw (at, save_rows) at h))
  | inl at ↦
      let same : ok rows ≡ ok rows' = rw (at, save_rows) at h in
      let found : rows ≡ rows' = cc in rw found refl
]
save_keeps refusals i k (r ∷ rs) rows rows' ne h =
    save_keeps refusals (i + 1) k rs (put r.view.id (row_of r) rows) rows' ne.1
      (save_step refusals i r rs rows rows' h)
    ∙ get-put_ne r.view.id k (row_of r) rows (λ e. ne.0 (sym e))

pub save_reaches :
    (refusals : Refusals) (i : ℕ) (rs : List Registration) (rows rows' : Dict Row)
    → AreDistinct rs
    → save_rows refusals i rs rows ≡ ok rows'
    → All (λ r. get r.view.id rows' ≡ some (row_of r)) rs
save_reaches refusals i [] rows rows' apart h = tt
save_reaches refusals i (r ∷ rs) rows rows' apart h =
    let h' = save_step refusals i r rs rows rows' h in
    (
      save_keeps refusals (i + 1) r.view.id rs (put r.view.id (row_of r) rows) rows' apart.0 h'
          ∙ get-put_self r.view.id (row_of r) rows,
      save_reaches refusals (i + 1) rs (put r.view.id (row_of r) rows) rows' apart.1 h',
    )

abbrev register_one : Registration → Manager → Manager
register_one r m = register_runtime r.view r.identity (some r.config) true m

abbrev runtime_of : Registration → Manager → RuntimeInstance
runtime_of r m = registered m r.view r.identity (some r.config) true

register_keeps :
    (k : Text) (rs : List Registration) (m : Manager)
    → All (λ r. k ≢ r.view.id) rs
    → get k (register_all rs m).instances ≡ get k m.instances
unfolding register_all register_runtime enter
register_keeps k [] m ne = refl
register_keeps k (r ∷ rs) m ne =
    register_keeps k rs (register_one r m) ne.1
    ∙ get-put_ne r.view.id k (runtime_of r m) m.instances (λ e. ne.0 (sym e))

-- The instance of a registration.
abbrev pub IsLaunched : Registration → RuntimeInstance → Type 0
IsLaunched r i =
    (i.view ≡ r.view)
    × (i.config ≡ some r.config)
    × (i.config_identity ≡ r.identity)
    × (i.cancelled ≡ false)
    × (i.done ≡ false)

pub register_reaches :
    (rs : List Registration) (m : Manager)
    → AreDistinct rs
    → All (λ r. HasEntry (IsLaunched r) r.view.id (register_all rs m).instances) rs
unfolding register_all register_runtime enter
register_reaches [] m apart = tt
register_reaches (r ∷ rs) m apart = (
  (
    runtime_of r m,
    register_keeps r.view.id rs (register_one r m) apart.0
        ∙ get-put_self r.view.id (runtime_of r m) m.instances,
    (refl, refl, refl, refl, refl),
  ),
  register_reaches rs (register_one r m) apart.1,
)

-- Launching touches nothing of the registry.
pub register_registry :
    (rs : List Registration) (m : Manager) → (register_all rs m).registry ≡ m.registry
unfolding register_all register_runtime enter
register_registry [] m = refl
register_registry (r ∷ rs) m = register_registry rs (register_one r m)

-- What was made sure of before a registration is saved.
abbrev pub IsPrepared : RegisteredStart → Registration → Type 0
IsPrepared q r =
    (r.view.state ≡ State.running)
    × (r.view.desired_state ≡ wanted)
    × (q.validate r.config ≡ none)
    × (r.config.database_path ≡ r.view.database_path)

-- The registration of an item that was let through.
abbrev pub registration_of :
    RegisteredStart → Item → Instance × Progress → Text → Registration × Progress
registration_of q item (v, p) text = (
  record {
    view = started_view v text (q.clock (p.readings + 1));
    identity = item.identity;
    config = config_for item v;
  },
  record p { readings = p.readings + 2 },
)

pub completed-eq-ok :
    (q : RegisteredStart) (item : Item) (made : Instance × Progress) (o : Option Text)
    (hash : Result Text Text) (x : Registration × Progress)
    → completed q item made o hash ≡ ok x
    → (text : Text) × (o ≡ none) × (registration_of q item made text ≡ x)
completed-eq-ok q item made (some e) hash x h = absurd (cc)
completed-eq-ok q item made none (err e) x h = absurd (cc)
completed-eq-ok q item (v, p) none (ok text) x h = (text, refl, ok_injective h)

completed-IsPrepared :
    (q : RegisteredStart) (item : Item) (made : Instance × Progress) (hash : Result Text Text)
    (x : Registration × Progress)
    → completed q item made (q.validate (config_for item made.0)) hash ≡ ok x
    → IsPrepared q x.0
completed-IsPrepared q item (v, p) hash x h =
    let (text, valid, same) =
      completed-eq-ok q item (v, p) (q.validate (config_for item v)) hash x h in
    subst (λ y. IsPrepared q y.0) same (refl, refl, valid, refl)

module _ (q : RegisteredStart) (m : Manager) (g : Registry) where
  prepare_item-IsPrepared :
      (p : Progress) (item : Item) (x : Registration × Progress)
      → prepare_item q m g p item ≡ ok x
      → IsPrepared q x.0
  unfolding prepare_item
  prepare_item-IsPrepared p item x h =
      let (made, at, h1) = bind_ok (view_for q m g p item item.existing_id) _ h in
      completed-IsPrepared q item made (q.files.fingerprint (config_for item made.0)) x h1

  pub prepare_items-IsPrepared :
      (p : Progress) (items : List Item) (rs : List Registration)
      → prepare_items q m g p items ≡ ok rs
      → All (IsPrepared q) rs × (length rs ≡ length items)
  unfolding prepare_items
  prepare_items-IsPrepared p [] rs h = let same : [] ≡ rs = cc in rw (← same) (tt, refl)
  prepare_items-IsPrepared p (item ∷ items) rs h =
      let (made, at, h1) = bind_ok (prepare_item q m g p item) _ h in
      let (rest, at1, h2) = bind_ok (prepare_items q m g made.1 items) _ h1 in
      let (prepared, count) = prepare_items-IsPrepared made.1 items rest at1 in
      let same : made.0 ∷ rest ≡ rs = cc in
      rw (← same) ((prepare_item-IsPrepared p item made at, prepared), ap suc count)
