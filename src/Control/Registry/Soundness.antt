-- ===== src/Control/Registry/Soundness.antt =====
-- The starts of internal/control/registered.go keep what holds of the supervisor.
use mathlib.Core.Path.{subst}
use slipway.Common.{
  ℕ, ◌+◌, Text, text_eq, trim_space, ◌==◌, ◌≡◌, ◌≢◌, refl, sym, ap, ◌∙◌, true, false, not, ◌&&◌,
  ◌||◌, Option, Option-cases, some, List, [], ◌∷◌, length, Dict, get, inl, inr, All, All_mono,
  All-get, entries_found, Pairwise, Result, Result-cases, ok, err, bind_ok, ok_injective, arith,
  Bool-cases, if_both, codes,
}
use slipway.Control.Manager.Types.{
  State, Instance, KnownQueue, RuntimeInstance, Registry, Manager, Error, is_closing, shutting_down,
  no_config_path, valid_name_for_one,
}
use slipway.Control.Manager.Names.{resolve, valid_display_name}
use slipway.Control.Manager.Preflight.{refuse}
use slipway.Control.Manager.Lifecycle.{refusal}
use slipway.Control.Manager.Invariant.Reserving.{no_reserved, not_taken-get}
use slipway.Control.Manager.Selection.{resolve-Selects}
use slipway.Control.Registry.Registered.{Gate, serves, server_of, start_registered_queue}
use slipway.Control.Registry.Saving.{
  Registration, RegisteredStart, Item, identities_of, save, save_rows, load_items,
}
use slipway.Control.Registry.Starting.{
  no_progress, prepare_items, prepare_saved, launch_saved, register_items, ends_start, start_items,
  start_selected, selector_of, check_paths, start_registered,
}
use slipway.Control.Registry.Invariant.{AreApart, IsKept, CanEnter}
use slipway.Control.Registry.Acknowledged.{IsPrepared, prepare_items-IsPrepared}
use slipway.Control.Registry.Launching.{
  known-CanEnter, register_all-IsKept, written-IsKept, resume-IsKept, behind_gate-IsKept,
}
use slipway.Control.Registry.Reading.{
  IsReflexive, IsRead, OtherConfig, load_items-AreRead, identities_of-IsMap, identities_of_sound,
  identities_of_complete,
}
use slipway.Control.Registry.Naming.{NamesOne, not_refused}
use slipway.Control.Registry.Preparing.{IsMade, prepare_items-AreMade}

-- What the loops leave of a registry: its directory.
save-directory :
    (q : RegisteredStart) (rs : List Registration) (g h : Registry)
    → save q.refusals rs g ≡ ok h
    → h.directory ≡ g.directory
unfolding save
save-directory q rs g h e = elim (Option-cases (refusal (q.refusals 0) g)) [
  | inr (x, at) ↦ absurd (cc (rw (at, save) at e))
  | inl at ↦
      let (rows, kept, same) = bind_ok (save_rows q.refusals 1 rs g.rows) _ (rw (at, save) at e) in
      ap (λ (x : Registry). x.directory) (sym (ok_injective same))
]

get_nothing : (i id : Text) → get i [] ≢ some id
unfolding get
get_nothing i id h = cc

-- An instance that serves a queue stands in the map.
server_of-found :
    (q : KnownQueue) (r : RuntimeInstance) (d es : Dict RuntimeInstance)
    → All (λ e. get e.0 d ≡ some e.1) es
    → server_of q es ≡ some r
    → (k : Text) × (get k d ≡ some r)
unfolding server_of
server_of-found q r d [] at h = cc
server_of-found q r d ((id, x) ∷ es) at h = elim (Bool-cases (serves q x)) [
  | inl e ↦ let one : some x ≡ some r = rw e at h in (id, at.0 ∙ one)
  | inr e ↦ server_of-found q r d es at.1 (rw e at h)
]

one_name :
    (q : RegisteredStart) (items : List Item)
    → check_paths q ≡ ok tt
    → length items ≡ 0 + length q.paths
    → NamesOne q no_reserved items
one_name q [] h count = tt
one_name q (item ∷ []) h count = inr refl
one_name q (item ∷ next ∷ items) h count =
    let (u, some_path, h0) = bind_ok (refuse (length q.paths == 0) no_config_path) _ h in
    let many : (length q.paths == 1) ≡ false = ground (arith, count) in
    named q many (not_refused _ valid_name_for_one h0)
  where
    named :
        (q : RegisteredStart)
        → (length q.paths == 1) ≡ false
        → (not (text_eq q.name [])
            && (not (length q.paths == 1)
                || not (valid_display_name q.runes q.name)
                || not (text_eq (trim_space q.name) q.name)))
          ≡ false
        → text_eq q.name [] ≡ true
    named q many h = ground arith

module _ (directory : Text) (path : Text → Text) (apart : AreApart path) (q : RegisteredStart)
    (reflexive : IsReflexive q.files)
    (placed : (id : Text) → q.queue_path directory id ≡ path id) where
  made-CanEnter :
      (m : Manager) (g : Registry) (known : Dict Text) (r : Registration)
      → IsKept directory path m
      → ((k : Text) (x : RuntimeInstance)
          → get k m.instances ≡ some x
          → (id : Text) × (get x.config_identity known ≡ some id))
      → IsMade directory path q m g known no_reserved r
      → CanEnter directory path m r.view r.identity
  made-CanEnter m g known r kept complete (inl f) =
      let (no_name, no_instance) = not_taken-get m no_reserved r.view.name f.0 in
      let (no_name', no_instance') = not_taken-get m no_reserved r.view.id f.1 in
      record {
        place = inl (record {
          new_id = no_instance';
          id_no_name = no_name';
          new_name = no_name;
          name_no_id = no_instance;
          name_ne_id = f.2;
        });
        only = λ k x at same. let (id, found) = complete k x at in absurd (cc (found, f.5, same));
        own_path = f.4;
        valid = f.3;
      }
  made-CanEnter m g known r kept complete (inr (x, at, o)) =
      subst (CanEnter directory path m r.view) o.4 (
        known-CanEnter directory path m r.view.id x r.view kept at o.0 (sym o.1) (sym o.2)
          (sym o.3))

  prepared-rs :
      (items : List Item) (g : Registry) (m : Manager) (rs : List Registration) (h : Registry)
      → prepare_saved q items g m ≡ ok (rs, h)
      → (prepare_items q m g no_progress items ≡ ok rs) × (save q.refusals rs g ≡ ok h)
  unfolding prepare_saved
  prepared-rs items g m rs h e =
      let (passed, checked, h1) = bind_ok (refuse (is_closing m) shutting_down) _ e in
      let (made, prepared, h2) = bind_ok (prepare_items q m g no_progress items) _ h1 in
      let (kept, saved, h3) = bind_ok (save q.refusals made g) _ h2 in
      subst
        (λ (x : List Registration × Registry).
          (prepare_items q m g no_progress items ≡ ok x.0) × (save q.refusals x.0 g ≡ ok x.1))
        (ok_injective h3) (prepared, saved)

  launch_saved-IsKept :
      (items : List Item) (g : Registry) (m : Manager)
      (x : Result Error (List Registration × Registry))
      → prepare_saved q items g m ≡ x
      → m.registry ≡ some g
      → All (IsRead (identities_of m.instances [])) items
      → Pairwise OtherConfig items
      → NamesOne q no_reserved items
      → IsKept directory path m
      → IsKept directory path (launch_saved m x).1
  launch_saved-IsKept items g m (err e) h there read others one kept = kept
  launch_saved-IsKept items g m (ok (rs, g')) h there read others one kept =
      let known = identities_of m.instances [] in
      let (prepared, saved) = prepared-rs items g m rs g' h in
      let at = kept.located g there in
      let found = entries_found m.instances kept.sound.unique in
      let (made, differ) =
        prepare_items-AreMade directory path q m g known kept
          (identities_of_sound m.instances m.instances [] found
            (λ i id at. absurd (get_nothing i id at)))
          (λ id. ap (λ d. q.queue_path d id) at ∙ placed id) no_progress items rs read others one
          prepared in
      let complete = λ (k : Text) (x : RuntimeInstance) (x_at : get k m.instances ≡ some x).
        All-get (λ e. (id : Text) × (get e.1.config_identity known ≡ some id)) k m.instances
          (identities_of_complete m.instances m.instances []) x_at in
      let m' = record m { registry = some g' } in
      let kept' = written-IsKept directory path m g' (save-directory q rs g g' saved ∙ at) kept in
      register_all-IsKept directory path rs m' apart
        (All_mono (IsPrepared q) (λ r. r.view.state ≡ State.running) (λ r p. p.0) rs
          (prepare_items-IsPrepared q m g no_progress items rs prepared).0)
        (All_mono (IsMade directory path q m g known no_reserved)
          (λ r. CanEnter directory path m' r.view r.identity)
          (λ r x. written-CanEnter m g' r (made-CanEnter m g known r kept complete x)) rs made)
        differ kept'
    where
      written-CanEnter :
          (m : Manager) (h : Registry) (r : Registration)
          → CanEnter directory path m r.view r.identity
          → CanEnter directory path (record m { registry = some h }) r.view r.identity
      written-CanEnter m h r c = record {
        place = c.place;
        only = c.only;
        own_path = c.own_path;
        valid = c.valid;
      }

  register_items-IsKept :
      (items : List Item) (g : Registry) (m : Manager)
      → m.registry ≡ some g
      → All (IsRead (identities_of m.instances [])) items
      → Pairwise OtherConfig items
      → NamesOne q no_reserved items
      → IsKept directory path m
      → IsKept directory path (register_items q items g m).1
  unfolding register_items
  register_items-IsKept items g m = launch_saved-IsKept items g m _ refl

  start_items-IsKept :
      (g : Registry) (m : Manager)
      → check_paths q ≡ ok tt
      → m.registry ≡ some g
      → IsKept directory path m
      → IsKept directory path (start_items q g m).1
  start_items-IsKept g m checked there kept =
      let known = identities_of m.instances [] in
      elim (Result-cases (load_items q known [] q.paths)) [
        | inr (e, h) ↦ rw (h, start_items) kept
        | inl (items, h) ↦
            let (read, others, count) =
              load_items-AreRead q known (identities_of-IsMap m.instances m.instances [] tt)
                reflexive [] items q.paths h tt tt in
            rw (h, start_items)
              (register_items-IsKept items g m there read others (one_name q items checked count)
                kept)
      ]

  start_selected-IsKept :
      (selector : Text) (g : Registry) (m : Manager) (x : Result Error RuntimeInstance)
      → resolve m selector ≡ x
      → check_paths q ≡ ok tt
      → m.registry ≡ some g
      → IsKept directory path m
      → IsKept directory path (start_selected q g m x).1
  start_selected-IsKept selector g m (ok r) h checked there kept =
      let (ne, at, how) = (resolve-Selects m selector r kept.sound).0 h in
      resume-IsKept directory path (q.refusals 0) (q.clock 0) r.view.id r m apart at kept
  start_selected-IsKept selector g m (err e) h checked there kept =
      if_both (λ (x : Result Error (List Instance) × Manager). IsKept directory path x.1)
        (ends_start e) _ _ kept (start_items-IsKept g m checked there kept)

  pub start_registered-IsKept :
      (g : Registry) (m : Manager)
      → m.registry ≡ some g
      → IsKept directory path m
      → IsKept directory path (start_registered q g m).1
  unfolding start_registered
  start_registered-IsKept g m there kept = elim (Result-cases (check_paths q)) [
    | inr (e, h) ↦ rw (h, start_registered) kept
    | inl (passed, h) ↦
        rw (h, start_registered)
          (behind_gate-IsKept directory path (codes "start") q.gate m _ kept
            (elim (Option-cases (selector_of q)) [
              | inl e ↦ rw e (start_items-IsKept g m h there kept)
              | inr (selector, e) ↦
                  rw e (start_selected-IsKept selector g m (resolve m selector) refl h there kept)
            ]))
  ]

module _ (directory : Text) (path : Text → Text) (apart : AreApart path) where
  pub start_registered_queue-IsKept :
      (gate : Gate) (refused : Option Text) (now : ℕ) (q : KnownQueue) (m : Manager)
      → IsKept directory path m
      → IsKept directory path (start_registered_queue gate refused now q m).1
  unfolding start_registered_queue
  start_registered_queue-IsKept gate refused now q m kept =
      behind_gate-IsKept directory path (codes "start") gate m _ kept
        (elim (Option-cases (server_of q m.instances)) [
          | inl e ↦ rw e kept
          | inr (r, e) ↦
              let (k, at) =
                server_of-found q r m.instances m.instances
                  (entries_found m.instances kept.sound.unique) e in
              rw e (resume-IsKept directory path refused now k r m apart at kept)
        ])
