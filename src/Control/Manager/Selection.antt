-- ===== src/Control/Manager/Selection.antt =====
-- Which instance a selector of internal/control/manager.go means: the whole contract of
-- `resolveLocked`.
use slipway.Common.{
  Text, text_eq, text_eq_iff, trim_space, has_prefix, ◌≡◌, ◌≢◌, ◌↔◌, ◌⊎◌, refl, sym, ap, ◌∙◌, Bool,
  true, none, some, List, [], ◌∷◌, All, Pairwise, Dict, get, entries_found, filter_where, arith,
  Bool-cases, inl, inr, Result, ok, err, Pairwise-filter_where, Option-cases, text_ne,
}
use slipway.Control.Manager.Types.{
  RuntimeInstance, Manager, Error, not_found, ambiguous, empty_selector,
}
use slipway.Control.Manager.Names.{match_prefix, look_up, resolve, instance_of}
use slipway.Control.Manager.Invariant.Defs.{IsSound}
use slipway.Control.Manager.Invariant.Changes.{agree, Text-cases}

abbrev Entry : Type 0
Entry = Text × RuntimeInstance

abbrev starts : Text → Entry → Bool
starts selector (id, r) = has_prefix selector id

-- What the hits of a prefix come to.
abbrev after : Text → RuntimeInstance → List Entry → Result Error RuntimeInstance
after selector q [] = ok q
after selector q (e ∷ es) = err (ambiguous selector)

abbrev by_hits : Text → List Entry → Result Error RuntimeInstance
by_hits selector [] = err (not_found selector)
by_hits selector ((id, r) ∷ es) = after selector r es

match_prefix-some :
    (selector : Text) (q : RuntimeInstance) (d : Dict RuntimeInstance)
    → match_prefix selector (some q) d ≡ after selector q (filter_where (starts selector) d)
unfolding match_prefix filter_where
match_prefix-some selector q [] = refl
match_prefix-some selector q ((id, r) ∷ d) = ground (arith, match_prefix-some selector q d)

match_prefix-none :
    (selector : Text) (d : Dict RuntimeInstance)
    → match_prefix selector none d ≡ by_hits selector (filter_where (starts selector) d)
unfolding match_prefix filter_where
match_prefix-none selector [] = refl
match_prefix-none selector ((id, r) ∷ d) =
    ground (arith, match_prefix-some selector r d, match_prefix-none selector d)

-- An entry of the instances whose id begins with the selector is among the hits.
in_hits :
    (P : Entry → Type 0) (selector k : Text) (q : RuntimeInstance) (d : Dict RuntimeInstance)
    → get k d ≡ some q
    → has_prefix selector k ≡ true
    → All P (filter_where (starts selector) d)
    → P (k, q)
unfolding get filter_where
in_hits P selector k q [] h p a = cc
in_hits P selector k q ((j, w) ∷ d) h p a = elim (Bool-cases (text_eq j k)) [
  | inl e ↦
      let same : j ≡ k = (text_eq_iff j k).0 e in
      let was : w ≡ q = cc (rw e at h) in
      let hit : has_prefix selector j ≡ true = ap (λ i. has_prefix selector i) same ∙ p in
      rw (← same, ← was) (rw hit at a).0
  | inr e ↦ elim (Bool-cases (has_prefix selector j)) [
    | inl hit ↦ in_hits P selector k q d (rw e at h) p (rw hit at a).1
    | inr miss ↦ in_hits P selector k q d (rw e at h) p (rw miss at a)
  ]
]

-- The hits are instances, under different ids.
abbrev IsHit : Text → Dict RuntimeInstance → Entry → Type 0
IsHit selector d e = (get e.0 d ≡ some e.1) × (has_prefix selector e.0 ≡ true)

hits_found :
    (P : Entry → Type 0) (selector : Text) (d : Dict RuntimeInstance)
    → All P d
    → All (λ e. P e × (has_prefix selector e.0 ≡ true)) (filter_where (starts selector) d)
unfolding filter_where
hits_found P selector [] h = tt
hits_found P selector ((k, r) ∷ d) h = elim (Bool-cases (has_prefix selector k)) [
  | inl e ↦ rw e ((h.0, e), hits_found P selector d h.1)
  | inr e ↦ rw e (hits_found P selector d h.1)
]

-- The instance is the only one whose id begins with the selector.
abbrev IsOnly : Text → Dict RuntimeInstance → RuntimeInstance → Type 0
IsOnly selector d r =
    (has_prefix selector r.view.id ≡ true)
    × ((k : Text) (q : RuntimeInstance)
        → get k d ≡ some q
        → has_prefix selector k ≡ true
        → k ≡ r.view.id)

-- What a selector that is not empty means.
abbrev pub Selects : Manager → Text → RuntimeInstance → Type 0
Selects m selector r =
    (selector ≢ [])
    × (get r.view.id m.instances ≡ some r)
    × ((r.view.name ≡ selector) ⊎ ((get selector m.names ≡ none) × IsOnly selector m.instances r))

module _ (m : Manager) (selector : Text) where
  look_up_empty : selector ≡ [] → look_up m selector ≡ err empty_selector
  unfolding look_up
  look_up_empty e = rw ((text_eq_iff selector []).1 e, look_up) refl

  look_up_named :
      (id : Text)
      → selector ≢ []
      → get selector m.names ≡ some id
      → look_up m selector ≡ instance_of (get id m.instances)
  unfolding look_up
  look_up_named id ne e = rw (text_ne selector [] ne, e, look_up) refl

  look_up_prefix :
      selector ≢ []
      → get selector m.names ≡ none
      → look_up m selector ≡ match_prefix selector none m.instances
  unfolding look_up
  look_up_prefix ne e = rw (text_ne selector [] ne, e, look_up) refl

module _ (m : Manager) (s : IsSound m) (selector : Text) (r : RuntimeInstance) where
  by_hits-IsOnly :
      (hits : List Entry)
      → filter_where (starts selector) m.instances ≡ hits
      → All (IsHit selector m.instances) hits
      → by_hits selector hits ≡ ok r
      → (get r.view.id m.instances ≡ some r) × IsOnly selector m.instances r
  by_hits-IsOnly [] e all h = cc
  by_hits-IsOnly ((k, q) ∷ f ∷ es) e all h = cc
  by_hits-IsOnly ((k, q) ∷ []) e all h =
      let was : q ≡ r = cc in
      let at : r.view.id ≡ k = rw (← was) (s.keyed k q all.0.0) in
      let found : get k m.instances ≡ some r = all.0.0 ∙ ap some was in
      (
        ap (λ i. get i m.instances) at ∙ found,
        (
          ap (λ i. has_prefix selector i) at ∙ all.0.1,
          λ j w h' p.
              in_hits (λ x. x.0 ≡ r.view.id) selector j w m.instances h' p (rw e (sym at, tt)),
        ),
      )

  IsOnly-by_hits :
      (hits : List Entry)
      → filter_where (starts selector) m.instances ≡ hits
      → All (IsHit selector m.instances) hits
      → Pairwise (λ e f. e.0 ≢ f.0) hits
      → get r.view.id m.instances ≡ some r
      → IsOnly selector m.instances r
      → by_hits selector hits ≡ ok r
  IsOnly-by_hits [] e all other at only =
      absurd (in_hits (λ x. ⊥) selector r.view.id r m.instances at only.0 (rw e tt))
  IsOnly-by_hits ((k, q) ∷ f ∷ es) e all other at only =
      absurd (other.0.0 (only.1 k q all.0.0 all.0.1 ∙ sym (only.1 f.0 f.1 all.1.0.0 all.1.0.1)))
  IsOnly-by_hits ((k, q) ∷ []) e all other at only =
      let same : q ≡ r = agree r.view.id k m.instances at all.0.0 (only.1 k q all.0.0 all.0.1) in
      ap ok same

  hits_all : All (IsHit selector m.instances) (filter_where (starts selector) m.instances)
  hits_all =
      hits_found (λ e. get e.0 m.instances ≡ some e.1) selector m.instances
        (entries_found m.instances s.unique)

  look_up-Selects : look_up m selector ≡ ok r → Selects m selector r
  look_up-Selects h = elim (Text-cases selector []) [
    | inl e ↦ absurd (cc (look_up_empty m selector e, h))
    | inr ne ↦ elim (Option-cases (get selector m.names)) [
      | inl unnamed ↦
          let (at, only) = by_hits-IsOnly _ refl hits_all (
            sym (match_prefix-none selector m.instances)
            ∙ sym (look_up_prefix m selector ne unnamed)
            ∙ h) in
          (ne, at, inr (unnamed, only))
      | inr (id, named) ↦
          let (q, found, name) = s.owned selector id named in
          let g : instance_of (some q) ≡ ok r =
            ap instance_of (sym found) ∙ sym (look_up_named m selector id ne named) ∙ h in
          let was : q ≡ r = cc in
          let at : get r.view.id m.instances ≡ some r =
            rw (← was) (ap (λ i. get i m.instances) (s.keyed id q found) ∙ found) in
          (ne, at, inl (ap (λ (x : RuntimeInstance). x.view.name) (sym was) ∙ name))
    ]
  ]

  Selects-look_up : Selects m selector r → look_up m selector ≡ ok r
  Selects-look_up (ne, at, inl name) =
      let named = ap (λ n. get n m.names) (sym name) ∙ s.named r.view.id r at in
      look_up_named m selector r.view.id ne named ∙ ap instance_of at
  Selects-look_up (ne, at, inr (unnamed, only)) =
      look_up_prefix m selector ne unnamed
      ∙ match_prefix-none selector m.instances
      ∙ IsOnly-by_hits _ refl hits_all
          (Pairwise-filter_where (λ e f. e.0 ≢ f.0) (starts selector) m.instances s.unique) at only

-- With the maps in agreement, a selector finds an instance exactly when it is not blank and either
-- is the instance's name, or is no name and begins the id of that instance and of no other; spaces
-- around it do not matter.
pub resolve-Selects :
    (m : Manager) (text : Text) (r : RuntimeInstance)
    → IsSound m
    → (resolve m text ≡ ok r) ↔ Selects m (trim_space text) r
unfolding resolve
resolve-Selects m text r s =
    (look_up-Selects m s (trim_space text) r, Selects-look_up m s (trim_space text) r)
