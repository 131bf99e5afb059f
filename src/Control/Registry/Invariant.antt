-- ===== src/Control/Registry/Invariant.antt =====
-- What holds of a supervisor with a registry (internal/control/registry.go and registered.go) between
-- its operations.
use mathlib.Core.Path.{subst}
use slipway.Common.{
  Text, ◌≡◌, ◌≢◌, refl, sym, ap, ◌∙◌, true, false, Option, Option-cases, none, some, Dict, get, put,
  get-put-eq-some, put_same, inl, inr, ◌⊎◌, HasEntry,
}
use slipway.Control.Manager.Types.{
  Instance, Config, RuntimeInstance, is_active, is_live, Registry, Manager,
}
use slipway.Control.Manager.Names.{valid_id}
use slipway.Control.Manager.Invariant.Defs.{AreSound, IsSound}
use slipway.Control.Manager.Invariant.Changes.{absent, agree}
use slipway.Control.Manager.Invariant.Launching.{launch-AreSound}
use slipway.Control.Manager.Every.{Every, put-Every}
use slipway.Control.Manager.Continuity.{Continues}
use slipway.Control.Registry.Registered.{registered, enter, register_runtime}
use slipway.Control.Registry.Relaunching.{IsNew, relaunch-AreSound}

-- The paths of the queues, by id: those of two valid ids differ.
abbrev pub AreApart : (Text → Text) → Type 0
AreApart path = (i j : Text) → valid_id i ≡ true → valid_id j ≡ true → path i ≡ path j → i ≡ j

-- The database of an instance lies at the path of its id.
abbrev pub IsPlaced : (Text → Text) → Text → RuntimeInstance → Type 0
IsPlaced path k r = (r.view.database_path ≡ path k) × (valid_id k ≡ true)

-- No two instances have one configuration, active or not.
abbrev pub AreIdentified : Dict RuntimeInstance → Type 0
AreIdentified instances =
    (j k : Text) (q r : RuntimeInstance)
    → get j instances ≡ some q
    → get k instances ≡ some r
    → q.config_identity ≡ r.config_identity
    → j ≡ k

-- The maps agree, each instance has a configuration and a database of its own, and the registry is
-- that of the directory.
pub record IsKept (directory : Text) (path : Text → Text) (m : Manager) : Type 0 where
  pub sound : IsSound m
  pub placed : Every (IsPlaced path) m.instances
  pub identified : AreIdentified m.instances
  pub located : (g : Registry) → m.registry ≡ some g → g.directory ≡ directory

module _ (directory : Text) (path : Text → Text) where
  -- What starts nothing keeps all that.
  pub Continues-IsKept :
      (m m' : Manager)
      → Continues m m'
      → IsSound m'
      → IsKept directory path m
      → IsKept directory path m'
  Continues-IsKept m m' c s k = record {
    sound = s;
    placed = λ i r at.
        let (q, q_at, same) = c.instances i r at in
        let (database, valid) = k.placed i q q_at in (same.same_database ∙ database, valid);
    identified = λ i j q r q_at r_at e.
        let (q0, q0_at, q_same) = c.instances i q q_at in
        let (r0, r0_at, r_same) = c.instances j r r_at in
        k.identified i j q0 r0 q0_at r0_at (sym q_same.same_identity ∙ e ∙ r_same.same_identity);
    located = λ h at. let (g, g_at, same) = c.registry h at in same ∙ k.located g g_at;
  }

  -- What stands in the way of no launch: a new instance, or one that has ended.
  abbrev pub HasPlace : Manager → Instance → Text → Type 0
  HasPlace m v identity =
      IsNew m.instances m.names v.id v.name
      ⊎ HasEntry
          (λ q.
            (q.view.name ≡ v.name)
            × (q.config_identity ≡ identity)
            × (q.view.database_path ≡ v.database_path)
            × (is_live q ≡ false))
          v.id m.instances

  -- No other instance has the configuration.
  abbrev pub IsOnly : Manager → Text → Text → Type 0
  IsOnly m key identity =
      (k : Text) (r : RuntimeInstance)
      → get k m.instances ≡ some r
      → r.config_identity ≡ identity
      → k ≡ key

  pub record CanEnter (m : Manager) (v : Instance) (identity : Text) : Type 0 where
    pub place : HasPlace m v identity
    pub only : IsOnly m v.id identity
    pub own_path : v.database_path ≡ path v.id
    pub valid : valid_id v.id ≡ true

  -- Where an instance can be entered, the one of its id has ended.
  not_live :
      (m : Manager) (v : Instance) (identity j : Text) (r : RuntimeInstance)
      → CanEnter m v identity
      → get j m.instances ≡ some r
      → j ≡ v.id
      → is_live r ≢ true
  not_live m v identity j r c at e live = elim c.place [
    | inl new ↦ absent v.id j m.instances at new.new_id e
    | inr (q, q_at, (name, same, database, over)) ↦
        let one : q ≡ r = agree j v.id m.instances at q_at (sym e) in
        cc (ap (λ (x : RuntimeInstance). is_live x) one, over, live)
  ]

  free_config :
      (m : Manager) (v : Instance) (identity : Text)
      → IsKept directory path m
      → CanEnter m v identity
      → get identity m.active_configs ≡ none
  free_config m v identity k c = elim (Option-cases (get identity m.active_configs)) [
    | inl e ↦ e
    | inr (j, h) ↦
        let (r, at, (live, same)) = k.sound.config_held identity j h in
        absurd (not_live m v identity j r c at (c.only j r at same) live)
  ]

  free_database :
      (m : Manager) (v : Instance) (identity : Text)
      → AreApart path
      → IsKept directory path m
      → CanEnter m v identity
      → get v.database_path m.active_databases ≡ none
  free_database m v identity apart k c =
      elim (Option-cases (get v.database_path m.active_databases)) [
        | inl e ↦ e
        | inr (j, h) ↦
            let (r, at, (live, same)) = k.sound.database_held v.database_path j h in
            let (database, valid) = k.placed j r at in
            absurd (
              not_live m v identity j r c at
                (apart j v.id valid c.valid (sym database ∙ same ∙ c.own_path)) live)
      ]

  -- An instance that is entered is the only one of its configuration.
  pub put-AreIdentified :
      (m : Manager) (key identity : Text) (r : RuntimeInstance)
      → r.config_identity ≡ identity
      → AreIdentified m.instances
      → IsOnly m key identity
      → AreIdentified (put key r m.instances)
  put-AreIdentified m key identity r own all only i j p q p_at q_at e =
      elim (get-put-eq-some key i r m.instances p_at) [
        | inl (here, p_is) ↦ elim (get-put-eq-some key j r m.instances q_at) [
          | inl (there, q_is) ↦ sym here ∙ there
          | inr (ne, q_at') ↦
              sym here
              ∙ sym (
                  only j q q_at'
                    (sym e ∙ ap (λ (x : RuntimeInstance). x.config_identity) (sym p_is) ∙ own))
        ]
        | inr (ne, p_at') ↦ elim (get-put-eq-some key j r m.instances q_at) [
          | inl (there, q_is) ↦
              only i p p_at' (e ∙ ap (λ (x : RuntimeInstance). x.config_identity) (sym q_is) ∙ own)
              ∙ there
          | inr (ne', q_at') ↦ all i j p q p_at' q_at' e
        ]
      ]

  register-AreSound :
      (m : Manager) (v : Instance) (identity : Text) (r : RuntimeInstance)
      → r.view ≡ v
      → r.config_identity ≡ identity
      → is_live r ≡ true
      → AreApart path
      → IsKept directory path m
      → CanEnter m v identity
      → AreSound
          (put r.view.id r m.instances)
          (put r.view.name r.view.id m.names)
          (put r.config_identity r.view.id m.active_configs)
          (put r.view.database_path r.view.id m.active_databases)
  register-AreSound m v identity r view own live apart k c =
      let config = ap (λ i. get i m.active_configs) own ∙ free_config m v identity k c in
      let database =
        ap (λ (x : Instance). get x.database_path m.active_databases) view
        ∙ free_database m v identity apart k c in
      elim c.place [
        | inl new ↦
            let f =
              subst (λ (x : Instance). IsNew m.instances m.names x.id x.name) (sym view) new in
            launch-AreSound r.view.id r
              (record {
                new_id = f.new_id;
                id_no_name = f.id_no_name;
                new_name = f.new_name;
                name_no_id = f.name_no_id;
                name_ne_id = f.name_ne_id;
                has_id = refl;
                live = live;
                free_config = config;
                free_database = database;
              })
              k.sound
        | inr (q, q_at, (name, same, old, over)) ↦
            let id = ap (λ (x : Instance). x.id) view in
            let at = ap (λ i. get i m.instances) id ∙ q_at in
            let named : get r.view.name m.names ≡ some r.view.id =
              ap (λ (x : Instance). get x.name m.names) view
              ∙ ap (λ n. get n m.names) (sym name)
              ∙ k.sound.named v.id q q_at
              ∙ ap some (sym id) in
            rw (put_same r.view.name r.view.id m.names named) (
              relaunch-AreSound k.sound r.view.id q r at
                (record {
                  same_id = id ∙ sym (k.sound.keyed v.id q q_at);
                  same_name = ap (λ (x : Instance). x.name) view ∙ sym name;
                  same_identity = own ∙ sym same;
                  same_database = ap (λ (x : Instance). x.database_path) view ∙ sym old;
                })
                over live config database)
      ]

  -- A registered instance is launched.
  pub register-IsKept :
      (m : Manager) (v : Instance) (identity : Text) (config : Option Config)
      → is_active v ≡ true
      → AreApart path
      → IsKept directory path m
      → CanEnter m v identity
      → IsKept directory path (register_runtime v identity config true m)
  unfolding register_runtime enter
  register-IsKept m v identity config live apart k c =
      let r = registered m v identity config true in
      record {
        sound = register-AreSound m v identity r refl refl live apart k c;
        placed = put-Every (IsPlaced path) v.id r m.instances (c.own_path, c.valid) k.placed;
        identified = put-AreIdentified m v.id identity r refl k.identified c.only;
        located = k.located;
      }
