-- ===== src/Control/Registry/Preparing.antt =====
-- What the second section of `startRegistered` of internal/control/registered.go prepares can be
-- entered into the maps of the supervisor.
use mathlib.Core.Path.{subst}
use slipway.Common.{
  Text, ◌≡◌, ◌≢◌, refl, sym, ap, ◌∙◌, true, false, Option, Option-cases, none, some, List, [], ◌∷◌,
  Dict, get, inl, inr, ◌⊎◌, HasEntry, All, All_mono, All_both, Pairwise, ok, bind_ok, ok_injective,
}
use slipway.Control.Manager.Types.{
  Instance, Config, RuntimeInstance, is_live, Registry, Manager, already_active, registered_as,
}
use slipway.Control.Manager.Names.{
  Reserved, is_taken, valid_id, available_id, max_id_generation_attempts,
}
use slipway.Control.Manager.Preflight.{refuse}
use slipway.Control.Manager.Invariant.Changes.{absent, agree}
use slipway.Control.Manager.Invariant.Reserving.{
  with_name, with_id, available_id-ok, not_taken-with_name, not_taken-with_id, not_taken-get,
}
use slipway.Control.Registry.Saving.{Registration, RegisteredStart, Item}
use slipway.Control.Registry.Starting.{
  Progress, name_for, other_name, view_again, previous_view, fresh_view, view_for, config_for,
  prepare_item, prepare_items,
}
use slipway.Control.Registry.Invariant.{IsKept}
use slipway.Control.Registry.Acknowledged.{registration_of, completed-eq-ok}
use slipway.Control.Registry.Launching.{OtherThan}
use slipway.Control.Registry.Naming.{not_refused, NamesOne, NamesOne-rest, name_for-free}
use slipway.Control.Registry.Reading.{IsRead, OtherConfig}

-- The registrations have the configurations of the items.
module _ (q : RegisteredStart) (m : Manager) (g : Registry) where
  prepare_item-identity :
      (p : Progress) (item : Item) (x : Registration × Progress)
      → prepare_item q m g p item ≡ ok x
      → x.0.identity ≡ item.identity
  unfolding prepare_item
  prepare_item-identity p item x h =
      let (made, at, h') = bind_ok (view_for q m g p item item.existing_id) _ h in
      let (text, valid, same) = completed-eq-ok q item made _ _ x h' in
      ap (λ (y : Registration × Progress). y.0.identity) (sym same)

  prepare_items-All :
      (P : Text → Type 0) (p : Progress) (items : List Item) (rs : List Registration)
      → prepare_items q m g p items ≡ ok rs
      → All (λ item. P item.identity) items
      → All (λ r. P r.identity) rs
  unfolding prepare_items
  prepare_items-All P p [] rs h all = let same : [] ≡ rs = ok_injective h in rw (← same) tt
  prepare_items-All P p (item ∷ items) rs h all =
      let (x, at, h') = bind_ok (prepare_item q m g p item) _ h in
      let (rest, at', h'') = bind_ok (prepare_items q m g x.1 items) _ h' in
      subst (All (λ r. P r.identity)) (ok_injective h'') (
        subst P (sym (prepare_item-identity p item x at)) all.0,
        prepare_items-All P x.1 items rest at' all.1,
      )

module _ (directory : Text) (path : Text → Text) (q : RegisteredStart) (m : Manager) (g : Registry)
    (known : Dict Text) where
  -- A registration with a new id and name, or of an instance that has ended.
  abbrev pub IsFresh : Reserved → Registration → Type 0
  IsFresh r x =
      (is_taken m r x.view.name ≡ false)
      × (is_taken m r x.view.id ≡ false)
      × (x.view.name ≢ x.view.id)
      × (valid_id x.view.id ≡ true)
      × (x.view.database_path ≡ path x.view.id)
      × (get x.identity known ≡ none)

  abbrev pub IsOld : Registration → Type 0
  IsOld x =
      HasEntry
        (λ r.
          (is_live r ≡ false)
          × (r.view.id ≡ x.view.id)
          × (r.view.name ≡ x.view.name)
          × (r.view.database_path ≡ x.view.database_path)
          × (r.config_identity ≡ x.identity))
        x.view.id m.instances

  abbrev pub IsMade : Reserved → Registration → Type 0
  IsMade r x = IsFresh r x ⊎ IsOld x

  previous_view-IsOld :
      (item : Item) (id : Text) (v : Instance) (c : Config)
      → HasEntry (λ r. r.config_identity ≡ item.identity) id m.instances
      → IsKept directory path m
      → previous_view q m id item ≡ ok v
      → IsOld (record { view = v; identity = item.identity; config = c })
  unfolding previous_view
  previous_view-IsOld item id v c read kept h = elim (Option-cases (get id m.instances)) [
    | inl e ↦ absurd (cc (rw (e, previous_view) at h))
    | inr (r, e) ↦
        let h' : view_again q item r ≡ ok v = rw (e, previous_view) at h in
        let (u, over, h0) = bind_ok (refuse (is_live r) (already_active r.view.name)) _ h' in
        let (w, named, h1) = bind_ok (refuse (other_name q r) (registered_as r.view.name)) _ h0 in
        let same : record (r.view) { config_path = item.path } ≡ v = ok_injective h1 in
        let here = kept.sound.keyed id r e in
        let (r0, r0_at, r0_own) = read in
        let one = agree id id m.instances r0_at e refl in
        let own = ap (λ (x : RuntimeInstance). x.config_identity) one ∙ r0_own in
        subst (λ (x : Instance). IsOld (record { view = x; identity = item.identity; config = c }))
          same
          (
            r,
            ap (λ k. get k m.instances) here ∙ e,
            (not_refused (is_live r) (already_active r.view.name) over, refl, refl, refl, own),
          )
  ]

  fresh_view-IsFresh :
      (p : Progress) (item : Item) (items : List Item) (x : Instance × Progress) (c : Config)
      → get item.identity known ≡ none
      → ((id : Text) → q.queue_path g.directory id ≡ path id)
      → NamesOne q p.reserved (item ∷ items)
      → fresh_view q m g p item ≡ ok x
      → IsFresh p.reserved (record { view = x.0; identity = item.identity; config = c })
        × (x.1.reserved ≡ with_id x.0.id (with_name x.0.name p.reserved))
  unfolding fresh_view
  fresh_view-IsFresh p item items x c read placed one h =
      let (name, named, h0) = bind_ok (name_for q m p.reserved item) _ h in
      let made =
        available_id q.generate m (with_name name p.reserved) max_id_generation_attempts
          p.generated in
      let (id, got, h1) = bind_ok made.0 _ h0 in
      let free = name_for-free q m p.reserved item items name one named in
      let (id_free, valid) =
        available_id-ok q.generate m (with_name name p.reserved) max_id_generation_attempts
          p.generated id got in
      let (id_free', differ) = not_taken-with_name m p.reserved name id id_free in
      subst
        (λ (y : Instance × Progress).
          IsFresh p.reserved (record { view = y.0; identity = item.identity; config = c })
          × (y.1.reserved ≡ with_id y.0.id (with_name y.0.name p.reserved)))
        (ok_injective h1) ((free, id_free', differ, valid, placed id, read), refl)

  named_by :
      (b : Registration) (x : RuntimeInstance)
      → IsKept directory path m
      → get b.view.id m.instances ≡ some x
      → x.view.name ≡ b.view.name
      → get b.view.name m.names ≡ some b.view.id
  named_by b x kept at name = ap (λ n. get n m.names) (sym name) ∙ kept.sound.named b.view.id x at

  -- What was prepared later differs, and was free before.
  fresh_before :
      (r : Reserved) (a b : Registration)
      → IsFresh r a
      → IsKept directory path m
      → a.identity ≢ b.identity
      → IsMade (with_id a.view.id (with_name a.view.name r)) b
      → IsMade r b × OtherThan a b
  fresh_before r a b f kept other (inl f') =
      let r' = with_name a.view.name r in
      let (n1, id_ne_name) = not_taken-with_id m r' a.view.id b.view.name f'.0 in
      let (n2, name_ne_name) = not_taken-with_name m r a.view.name b.view.name n1 in
      let (i1, id_ne_id) = not_taken-with_id m r' a.view.id b.view.id f'.1 in
      let (i2, name_ne_id) = not_taken-with_name m r a.view.name b.view.id i1 in
      (
        inl (n2, i2, f'.2, f'.3, f'.4, f'.5),
        (id_ne_id, id_ne_name, name_ne_id, name_ne_name, other),
      )
  fresh_before r a b f kept other (inr (x, at, o)) =
      let (no_name, no_instance) = not_taken-get m r a.view.name f.0 in
      let (no_name', no_instance') = not_taken-get m r a.view.id f.1 in
      let named = named_by b x kept at o.2 in
      (
        inr (x, at, o),
        (
          λ e. absent a.view.id b.view.id m.instances at no_instance' (sym e),
          λ e. absent a.view.id b.view.name m.names named no_name' (sym e),
          λ e. absent a.view.name b.view.id m.instances at no_instance (sym e),
          λ e. absent a.view.name b.view.name m.names named no_name (sym e),
          other,
        ),
      )

  old_before :
      (r : Reserved) (a b : Registration)
      → IsOld a
      → IsKept directory path m
      → a.identity ≢ b.identity
      → IsMade r b
      → OtherThan a b
  old_before r a b (y, y_at, o) kept other (inl f) =
      let (no_name, no_instance) = not_taken-get m r b.view.name f.0 in
      let (no_name', no_instance') = not_taken-get m r b.view.id f.1 in
      let named = named_by a y kept y_at o.2 in
      (
        absent b.view.id a.view.id m.instances y_at no_instance',
        absent b.view.name a.view.id m.instances y_at no_instance,
        absent b.view.id a.view.name m.names named no_name',
        absent b.view.name a.view.name m.names named no_name,
        other,
      )
  old_before r a b (y, y_at, o) kept other (inr (x, x_at, o')) =
      let differ = λ (e : a.view.id ≡ b.view.id).
        let one = agree b.view.id a.view.id m.instances x_at y_at e in
        other (sym o.4 ∙ ap (λ (z : RuntimeInstance). z.config_identity) one ∙ o'.4) in
      let a_named = named_by a y kept y_at o.2 in
      let b_named = named_by b x kept x_at o'.2 in
      (
        differ,
        absent b.view.name a.view.id m.instances y_at
            (kept.sound.apart b.view.name b.view.id b_named),
        λ e.
            absent a.view.name b.view.id m.instances x_at
              (kept.sound.apart a.view.name a.view.id a_named) (sym e),
        λ e. differ (agree b.view.name a.view.name m.names b_named a_named e),
        other,
      )

  -- What preparing an item made, and what it handed out.
  abbrev IsStep : Progress → Registration × Progress → Type 0
  IsStep p (x, p') =
      (IsFresh p.reserved x × (p'.reserved ≡ with_id x.view.id (with_name x.view.name p.reserved)))
      ⊎ (IsOld x × (p'.reserved ≡ p.reserved))

  module _ (kept : IsKept directory path m)
      (sound : (i id : Text)
        → get i known ≡ some id
        → HasEntry (λ r. r.config_identity ≡ i) id m.instances)
      (placed : (id : Text) → q.queue_path g.directory id ≡ path id) where
    view_for-IsStep :
        (p : Progress) (item : Item) (items : List Item) (o : Option Text)
        (made : Instance × Progress) (text : Text)
        → get item.identity known ≡ o
        → NamesOne q p.reserved (item ∷ items)
        → view_for q m g p item o ≡ ok made
        → IsStep p (registration_of q item made text)
    view_for-IsStep p item items none made text read one h =
        inl (fresh_view-IsFresh p item items made (config_for item made.0) read placed one h)
    view_for-IsStep p item items (some id) made text read one h =
        let (v, at, h') = bind_ok (previous_view q m id item) _ h in
        let old =
          previous_view-IsOld item id v (config_for item v) (sound item.identity id read) kept at in
        subst (λ x. IsStep p (registration_of q item x text)) (ok_injective h') (inr (old, refl))

    prepare_item-IsStep :
        (p : Progress) (item : Item) (items : List Item) (x : Registration × Progress)
        → IsRead known item
        → NamesOne q p.reserved (item ∷ items)
        → prepare_item q m g p item ≡ ok x
        → IsStep p x × (x.0.identity ≡ item.identity)
    unfolding prepare_item
    prepare_item-IsStep p item items x read one h =
        let (made, at, h') = bind_ok (view_for q m g p item item.existing_id) _ h in
        let (text, valid, same) = completed-eq-ok q item made _ _ x h' in
        subst (λ y. IsStep p y × (y.0.identity ≡ item.identity)) same
          (view_for-IsStep p item items item.existing_id made text read one at, refl)

    -- All that `prepareItems` makes has its place, and no two are in each other's way.
    pub prepare_items-AreMade :
        (p : Progress) (items : List Item) (rs : List Registration)
        → All (IsRead known) items
        → Pairwise OtherConfig items
        → NamesOne q p.reserved items
        → prepare_items q m g p items ≡ ok rs
        → All (IsMade p.reserved) rs × Pairwise OtherThan rs
    unfolding prepare_items
    prepare_items-AreMade p [] rs read others one h =
        let same : [] ≡ rs = ok_injective h in rw (← same) (tt, tt)
    prepare_items-AreMade p (item ∷ items) rs read others one h =
        let (x, at, h') = bind_ok (prepare_item q m g p item) _ h in
        let (rest, at', h'') = bind_ok (prepare_items q m g x.1 items) _ h' in
        let (step, own) = prepare_item-IsStep p item items x read.0 one at in
        let (made, differ) =
          prepare_items-AreMade x.1 items rest read.1 others.1
            (NamesOne-rest q p.reserved x.1.reserved item items one) at' in
        let apart =
          prepare_items-All q m g (λ i. x.0.identity ≢ i) x.1 items rest at'
            (subst (λ i. All (λ (y : Item). i ≢ y.identity) items) (sym own) others.0) in
        subst (λ y. All (IsMade p.reserved) y × Pairwise OtherThan y) (ok_injective h'')
          (both p x rest step made apart differ)
      where
        both :
            (p : Progress) (x : Registration × Progress) (rest : List Registration)
            → IsStep p x
            → All (IsMade x.1.reserved) rest
            → All (λ r. x.0.identity ≢ r.identity) rest
            → Pairwise OtherThan rest
            → All (IsMade p.reserved) (x.0 ∷ rest) × Pairwise OtherThan (x.0 ∷ rest)
        both p x rest (inl (fresh, next)) made apart differ =
            let all =
              All_mono _ (λ b. IsMade p.reserved b × OtherThan x.0 b)
                (λ b c. fresh_before p.reserved x.0 b fresh kept c.0 c.1) rest
                (All_both (λ b. x.0.identity ≢ b.identity)
                  (IsMade (with_id x.0.view.id (with_name x.0.view.name p.reserved))) rest apart
                  (subst (λ r. All (IsMade r) rest) next made)) in
            (
              (inl fresh, All_mono _ (IsMade p.reserved) (λ b c. c.0) rest all),
              (All_mono _ (OtherThan x.0) (λ b c. c.1) rest all, differ),
            )
        both p x rest (inr (old, next)) made apart differ =
            let made' = subst (λ r. All (IsMade r) rest) next made in
            (
              (inr old, made'),
              (
                All_mono _ (OtherThan x.0) (λ b c. old_before p.reserved x.0 b old kept c.0 c.1)
                    rest
                    (All_both (λ b. x.0.identity ≢ b.identity) (IsMade p.reserved) rest apart
                      made'),
                differ,
              ),
            )
