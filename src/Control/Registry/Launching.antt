-- ===== src/Control/Registry/Launching.antt =====
-- The launches of internal/control/registered.go keep what holds of the supervisor: those of
-- `resumeRegisteredLocked` and `Restore`, and the loop of `startRegistered`.
use slipway.Common.{
  ℕ, ◌+◌, codes, Text, ◌≡◌, ◌≢◌, refl, sym, ap, ◌∙◌, true, false, Bool-cases, Option, Option-cases,
  none, some, List, [], ◌∷◌, Dict, get, get-put_ne, put_all, inl, inr, IsMap, All, All_mono,
  All_both, Pairwise, Result, ok, err, arith, is_some, not, if_both, filter_where, entries_found,
  All-filter_where, Pairwise-filter_where,
}
use slipway.Control.Manager.Types.{
  State, Instance, Config, RuntimeInstance, is_live, Registry, Manager, Error, is_closing,
}
use slipway.Control.Manager.Lifecycle.{saved}
use slipway.Control.Manager.Names.{valid_id}
use slipway.Control.Manager.Continuity.{saved-directory}
use slipway.Control.Registry.Registered.{
  Gate, is_pending, revived, registered, enter, register_runtime, relaunch, restore_saved,
  restore_all, restore_from, restore, behind_gate, resumed, resume_saved, resume,
}
use slipway.Control.Registry.Saving.{Registration}
use slipway.Control.Registry.Starting.{register_all}
use slipway.Control.Registry.Invariant.{AreApart, IsKept, CanEnter, register-IsKept}

-- Two registrations do not get into each other's way.
abbrev pub OtherThan : Registration → Registration → Type 0
OtherThan a b =
    (a.view.id ≢ b.view.id)
    × (a.view.id ≢ b.view.name)
    × (a.view.name ≢ b.view.id)
    × (a.view.name ≢ b.view.name)
    × (a.identity ≢ b.identity)

module _ (directory : Text) (path : Text → Text) where
  abbrev Enters : Manager → Registration → Type 0
  Enters m r = CanEnter directory path m r.view r.identity

  register-CanEnter :
      (m : Manager) (a b : Registration) (config : Option Config)
      → OtherThan a b
      → Enters m b
      → Enters (register_runtime a.view a.identity config true m) b
  unfolding register_runtime enter
  register-CanEnter m a b config (id_id, id_name, name_id, name_name, other) c =
      let r = registered m a.view a.identity config true in
      record {
        place = elim c.place [
          | inl new ↦ inl (record {
            new_id = get-put_ne a.view.id b.view.id r m.instances id_id ∙ new.new_id;
            id_no_name =
                get-put_ne a.view.name b.view.id a.view.id m.names name_id ∙ new.id_no_name;
            new_name =
                get-put_ne a.view.name b.view.name a.view.id m.names name_name ∙ new.new_name;
            name_no_id = get-put_ne a.view.id b.view.name r m.instances id_name ∙ new.name_no_id;
            name_ne_id = new.name_ne_id;
          })
          | inr (q, at, rest) ↦
              inr (q, get-put_ne a.view.id b.view.id r m.instances id_id ∙ at, rest)
        ];
        only =
            put_all (λ k x. x.config_identity ≡ b.identity → k ≡ b.view.id) a.view.id r m.instances
              (λ same. absurd (other same)) (λ k x ne at. c.only k x at);
        own_path = c.own_path;
        valid = c.valid;
      }

  pub register_all-IsKept :
      (rs : List Registration) (m : Manager)
      → AreApart path
      → All (λ r. r.view.state ≡ State.running) rs
      → All (λ r. CanEnter directory path m r.view r.identity) rs
      → Pairwise OtherThan rs
      → IsKept directory path m
      → IsKept directory path (register_all rs m)
  unfolding register_all
  register_all-IsKept [] m apart live enters others k = k
  register_all-IsKept (r ∷ rs) m apart live enters others k =
      let m' = register_runtime r.view r.identity (some r.config) true m in
      register_all-IsKept rs m' apart live.1
        (All_mono (λ x. OtherThan r x × Enters m x) (Enters m')
          (λ x b. register-CanEnter m r x (some r.config) b.0 b.1) rs
          (All_both (OtherThan r) (Enters m) rs others.0 enters.1))
        others.1
        (register-IsKept directory path m r.view r.identity (some r.config) (rw live.0 refl) apart k
          enters.0)

  -- An instance that has ended can be launched again.
  pub known-CanEnter :
      (m : Manager) (k : Text) (r : RuntimeInstance) (v : Instance)
      → IsKept directory path m
      → get k m.instances ≡ some r
      → is_live r ≡ false
      → v.id ≡ r.view.id
      → v.name ≡ r.view.name
      → v.database_path ≡ r.view.database_path
      → CanEnter directory path m v r.config_identity
  known-CanEnter m k r v kept at over id name database =
      let here = sym (kept.sound.keyed k r at) ∙ sym id in
      let (placed, valid) = kept.placed k r at in
      record {
        place =
            inr (
              r,
              ap (λ i. get i m.instances) (sym here) ∙ at,
              (sym name, refl, sym database, over),
            );
        only = λ j q q_at e. kept.identified j k q r q_at at e ∙ here;
        own_path = database ∙ placed ∙ ap path here;
        valid = ap valid_id (sym here) ∙ valid;
      }

  -- A save leaves the registry in its directory.
  pub written-IsKept :
      (m : Manager) (h : Registry)
      → h.directory ≡ directory
      → IsKept directory path m
      → IsKept directory path (record m { registry = some h })
  written-IsKept m h same k = record {
    sound = k.sound;
    placed = k.placed;
    identified = k.identified;
    located = λ g at. let one : h ≡ g = cc in ap (λ (x : Registry). x.directory) (sym one) ∙ same;
  }

  resume_saved-IsKept :
      (refused : Option Text) (now : ℕ) (k : Text) (r : RuntimeInstance) (g : Registry)
      (m : Manager) (x : Result Text Registry)
      → saved refused (resumed now r.view ∷ []) g ≡ x
      → AreApart path
      → m.registry ≡ some g
      → get k m.instances ≡ some r
      → is_live r ≡ false
      → IsKept directory path m
      → IsKept directory path (resume_saved (resumed now r.view) r m x).1
  resume_saved-IsKept refused now k r g m (err e) h apart there at over kept = kept
  resume_saved-IsKept refused now k r g m (ok g') h apart there at over kept =
      let m' = record m { registry = some g' } in
      let kept' =
        written-IsKept m g'
          (saved-directory refused (resumed now r.view ∷ []) g g' h ∙ kept.located g there) kept in
      register-IsKept directory path m' (resumed now r.view) r.config_identity r.config refl apart
        kept' (known-CanEnter m' k r (resumed now r.view) kept' at over refl refl refl)

  pub resume-IsKept :
      (refused : Option Text) (now : ℕ) (k : Text) (r : RuntimeInstance) (m : Manager)
      → AreApart path
      → get k m.instances ≡ some r
      → IsKept directory path m
      → IsKept directory path (resume refused now r m).1
  unfolding resume
  resume-IsKept refused now k r m apart at kept = elim (Option-cases m.registry) [
    | inl e ↦ rw (e, resume) kept
    | inr (g, e) ↦ elim (Bool-cases (is_live r)) [
      | inl live ↦ rw (e, live, resume) kept
      | inr over ↦
          rw (e, over, resume)
            (if_both (λ (x : Result Error (List Instance) × Manager). IsKept directory path x.1)
              (not (is_some r.config)) _ _ kept
              (resume_saved-IsKept refused now k r g m _ refl apart e at over kept))
    ]
  ]

  -- What `Restore` launches has ended, and stands in the maps.
  abbrev HasEnded : Manager → Text × RuntimeInstance → Type 0
  HasEnded m e = (get e.0 m.instances ≡ some e.1) × (is_live e.1 ≡ false)

  relaunch-IsKept :
      (clock : ℕ → ℕ) (i : ℕ) (es : Dict RuntimeInstance) (m : Manager)
      → AreApart path
      → All (HasEnded m) es
      → IsMap es
      → IsKept directory path m
      → IsKept directory path (relaunch clock i es m)
  unfolding relaunch register_runtime enter
  relaunch-IsKept clock i [] m apart ended unique kept = kept
  relaunch-IsKept clock i ((k, r) ∷ es) m apart ended unique kept =
      let v = revived (clock i) r.view in
      let m' = register_runtime v r.config_identity r.config true m in
      let here = kept.sound.keyed k r ended.0.0 in
      relaunch-IsKept clock (i + 1) es m' apart
        (All_mono {A = Text × RuntimeInstance} (λ e. (k ≢ e.0) × HasEnded m e) (HasEnded m')
          (λ e b. (
            get-put_ne r.view.id e.0 (registered m v r.config_identity r.config true) m.instances
                  (λ same. b.0 (sym here ∙ same))
                ∙ b.1.0,
            b.1.1,
          ))
          es
          (All_both {A = Text × RuntimeInstance} (λ e. k ≢ e.0) (HasEnded m) es unique.0 ended.1))
        unique.1
        (register-IsKept directory path m v r.config_identity r.config refl apart kept
          (known-CanEnter m k r v kept ended.0.0 ended.0.1 refl refl refl))

  pending_ended : (e : Text × RuntimeInstance) → is_pending e ≡ true → is_live e.1 ≡ false
  pending_ended (k, r) h = ground arith

  All-filter_where_is :
      (es : Dict RuntimeInstance) → All (λ e. is_pending e ≡ true) (filter_where is_pending es)
  unfolding filter_where
  All-filter_where_is [] = tt
  All-filter_where_is (e ∷ es) = elim (Bool-cases (is_pending e)) [
    | inl p ↦ rw p (p, All-filter_where_is es)
    | inr p ↦ rw p (All-filter_where_is es)
  ]

  pending-HasEnded :
      (m : Manager) → IsMap m.instances → All (HasEnded m) (filter_where is_pending m.instances)
  pending-HasEnded m unique =
      let es = filter_where is_pending m.instances in
      All_both {A = Text × RuntimeInstance} (λ e. get e.0 m.instances ≡ some e.1)
        (λ e. is_live e.1 ≡ false) es
        (All-filter_where (λ e. get e.0 m.instances ≡ some e.1) is_pending m.instances
          (entries_found m.instances unique))
        (All_mono {A = Text × RuntimeInstance} (λ e. is_pending e ≡ true) (λ e. is_live e.1 ≡ false)
          pending_ended es (All-filter_where_is m.instances))

  restore_saved-IsKept :
      (refused : Option Text) (clock : ℕ → ℕ) (vs : List Instance) (g : Registry) (m : Manager)
      (x : Result Text Registry)
      → saved refused vs g ≡ x
      → AreApart path
      → m.registry ≡ some g
      → IsKept directory path m
      → IsKept directory path (restore_saved clock (filter_where is_pending m.instances) m x).1
  restore_saved-IsKept refused clock vs g m (err e) h apart there kept = kept
  restore_saved-IsKept refused clock vs g m (ok g') h apart there kept =
      relaunch-IsKept clock 0 (filter_where is_pending m.instances)
        (record m { registry = some g' }) apart (pending-HasEnded m kept.sound.unique)
        (Pairwise-filter_where (λ e f. e.0 ≢ f.0) is_pending m.instances kept.sound.unique)
        (written-IsKept m g' (saved-directory refused vs g g' h ∙ kept.located g there) kept)

  -- What is done behind the gate of starts.
  pub behind_gate-IsKept :
      {A : Type 0} (part : Text) (gate : Gate) (m : Manager) (done : Result Error A × Manager)
      → IsKept directory path m
      → IsKept directory path done.1
      → IsKept directory path (behind_gate part gate m done).1
  behind_gate-IsKept part Gate.without_context m done k k' = k
  behind_gate-IsKept part (Gate.gave_up e) m done k k' = k
  behind_gate-IsKept part Gate.closed m done k k' = k
  behind_gate-IsKept {A} part Gate.entered m done k k' =
      if_both (λ (x : Result Error A × Manager). IsKept directory path x.1) (is_closing m) _ _ k k'

  restored-IsKept :
      (gate : Gate) (refused : Option Text) (clock : ℕ → ℕ) (m : Manager) (o : Option Registry)
      → m.registry ≡ o
      → AreApart path
      → IsKept directory path m
      → IsKept directory path (restore_from gate refused clock m o).1
  unfolding restore_all
  restored-IsKept gate refused clock m none there apart k = k
  restored-IsKept gate refused clock m (some g) there apart k =
      behind_gate-IsKept (codes "restore") gate m (restore_all refused clock g m) k
        (restore_saved-IsKept refused clock _ g m _ refl apart there k)

  pub restore-IsKept :
      (gate : Gate) (refused : Option Text) (clock : ℕ → ℕ) (m : Manager)
      → AreApart path
      → IsKept directory path m
      → IsKept directory path (restore gate refused clock m).1
  unfolding restore
  restore-IsKept Gate.without_context refused clock m apart k = k
  restore-IsKept (Gate.gave_up e) refused clock m apart k =
      restored-IsKept (Gate.gave_up e) refused clock m m.registry refl apart k
  restore-IsKept Gate.closed refused clock m apart k =
      restored-IsKept Gate.closed refused clock m m.registry refl apart k
  restore-IsKept Gate.entered refused clock m apart k =
      restored-IsKept Gate.entered refused clock m m.registry refl apart k
