-- ===== src/Control/Registry/Naming.antt =====
-- The name of a new instance in `startRegistered` of internal/control/registered.go is free.

use slipway.Common.{
  Text, text_eq, ◌≡◌, refl, sym, ap, ◌∙◌, Bool, true, false, List, [], ◌∷◌, has, inl, inr, ◌⊎◌, ok,
  bind_ok, ok_injective, Bool-cases,
}
use slipway.Control.Manager.Types.{Manager, Error, name_in_use, name_is_id}
use slipway.Control.Manager.Names.{Reserved, contains, is_taken, automatic_name}
use slipway.Control.Manager.Fresh.{available_name_total}
use slipway.Control.Manager.Preflight.{refuse}
use slipway.Control.Manager.Invariant.Reserving.{no_reserved}
use slipway.Control.Registry.Saving.{RegisteredStart, Item}
use slipway.Control.Registry.Starting.{asked_name, name_for}

pub not_refused : (b : Bool) (e : Error) → refuse b e ≡ ok tt → b ≡ false
not_refused true e h = cc
not_refused false e h = refl

-- A name was asked for only where there is one item.
abbrev pub NamesOne : RegisteredStart → Reserved → List Item → Type 0
NamesOne q r [] = Unit {0}
NamesOne q r (item ∷ []) = (text_eq q.name [] ≡ true) ⊎ (r ≡ no_reserved)
NamesOne q r (item ∷ next ∷ items) = text_eq q.name [] ≡ true

NamesOne-first :
    (q : RegisteredStart) (r : Reserved) (item : Item) (items : List Item)
    → NamesOne q r (item ∷ items)
    → (text_eq q.name [] ≡ true) ⊎ (r ≡ no_reserved)
NamesOne-first q r item [] one = one
NamesOne-first q r item (next ∷ items) one = inl one

pub NamesOne-rest :
    (q : RegisteredStart) (r r' : Reserved) (item : Item) (items : List Item)
    → NamesOne q r (item ∷ items)
    → NamesOne q r' items
NamesOne-rest q r r' item [] one = tt
NamesOne-rest q r r' item (next ∷ []) one = inl one
NamesOne-rest q r r' item (next ∷ other ∷ items) one = one

asked_name-free :
    (q : RegisteredStart) (m : Manager) (name : Text)
    → asked_name q m ≡ ok name
    → is_taken m no_reserved name ≡ false
unfolding asked_name is_taken contains
asked_name-free q m name h =
    let (u, no_name, h0) = bind_ok (refuse (has q.name m.names) (name_in_use q.name)) _ h in
    let (v, no_id, h1) = bind_ok (refuse (has q.name m.instances) (name_is_id q.name)) _ h0 in
    let same : q.name ≡ name = ok_injective h1 in
    let free = not_refused (has q.name m.names) (name_in_use q.name) no_name in
    let free' = not_refused (has q.name m.instances) (name_is_id q.name) no_id in
    ap (is_taken m no_reserved) (sym same) ∙ rw (free, free') refl

pub name_for-free :
    (q : RegisteredStart) (m : Manager) (r : Reserved) (item : Item) (items : List Item)
    (name : Text)
    → NamesOne q r (item ∷ items)
    → name_for q m r item ≡ ok name
    → is_taken m r name ≡ false
unfolding name_for
name_for-free q m r item items name one h = elim (Bool-cases (text_eq q.name [])) [
  | inl e ↦
      let (free_name, found, free) = available_name_total m r (automatic_name q.runes item.path) in
      let same : free_name ≡ name = ok_injective (rw (e, found) at h) in
      ap (is_taken m r) (sym same) ∙ free
  | inr e ↦ elim (NamesOne-first q r item items one) [
    | inl e' ↦ absurd (cc (e, e'))
    | inr start ↦ ap (λ x. is_taken m x name) start ∙ asked_name-free q m name (rw e at h)
  ]
]
