-- ===== src/Control/Manager/Releasing.antt =====
-- internal/control/manager.go: what the end of an instance leaves for the instances after it.
use slipway.Common.{
  ℕ, Text, ◌≡◌, ◌≢◌, refl, sym, ap, ◌∙◌, Bool, true, false, Option, none, some, List, [], ◌∷◌, Dict,
  get, put, get-put_ne, get-delete_ne, get-delete_self, inl, inr, arith, if◌then◌else◌,
}
use slipway.Control.Manager.Types.{RuntimeInstance, Manager, is_live}
use slipway.Control.Manager.Lifecycle.{
  Outcome, release, forget, forget_all, excess, trim, persist, ended, finish_of, finish,
}
use slipway.Control.Manager.Invariant.Defs.{IsSound}
use slipway.Control.Manager.Invariant.Endings.{release_self}
use slipway.Control.Manager.Invariant.Finishing.{
  Entry, persist_maps, ended_over, ended-IsSame, freed_maps, trim-cases,
}
use slipway.Control.Manager.Retention.{trim-get}

forget_all-actives :
    (es : List Entry) (m : Manager)
    → ((forget_all es m).active_configs ≡ m.active_configs)
      × ((forget_all es m).active_databases ≡ m.active_databases)
unfolding forget_all forget
forget_all-actives [] m = (refl, refl)
forget_all-actives ((id, r) ∷ es) m = forget_all-actives es (forget id r m)

trim-actives :
    (current : Text) (m : Manager)
    → ((trim current m).active_configs ≡ m.active_configs)
      × ((trim current m).active_databases ≡ m.active_databases)
trim-actives current m =
    trim-cases
      (λ m'. (m'.active_configs ≡ m.active_configs) × (m'.active_databases ≡ m.active_databases))
      current m (refl, refl) (forget_all-actives (excess current m) m)

-- Nobody holds what the instance held.
abbrev pub IsReleased : RuntimeInstance → Manager → Type 0
IsReleased r m =
    (get r.config_identity m.active_configs ≡ none)
    × (get r.view.database_path m.active_databases ≡ none)

release-none :
    (key id : Text) (d : Dict Text) → get key d ≡ some id → get key (release key id d) ≡ none
release-none key id d h = rw (release_self key id d h) (get-delete_self key d)

module _ (refused : Option Text) (outcome : Outcome) (now : ℕ) (id : Text) (r : RuntimeInstance)
    (m : Manager) (at : get id m.instances ≡ some r) (live : is_live r ≡ true) (s : IsSound m) where
  finish_live : finish refused outcome now id m ≡ finish_of refused outcome now id r m
  unfolding finish
  finish_live = ground (arith, at, live)

  r' : RuntimeInstance
  r' = ended m r outcome now

  -- The manager before it forgets anything.
  freed : Manager
  unfolding r'
  freed =
      let kept = persist refused r'.view (record m { instances = put id r' m.instances }) in
      record kept {
        active_configs = release r.config_identity id kept.active_configs;
        active_databases = release r.view.database_path id kept.active_databases;
      }

  finish_of-freed :
      finish_of refused outcome now id r m
      ≡ (if r.remove_on_exit then forget id r' freed else trim id freed)
  unfolding finish_of freed
  finish_of-freed = refl

  freed-IsSound : IsSound freed × (get id freed.instances ≡ some r')
  unfolding freed
  freed-IsSound =
      freed_maps refused id r r' m at (ended-IsSame m r outcome now) (ended_over m r outcome now) s

  freed-IsReleased : IsReleased r freed
  unfolding freed
  freed-IsReleased =
      let (is, ns, cs, ds) =
        persist_maps refused r'.view (record m { instances = put id r' m.instances }) in
      (
        rw cs (release-none r.config_identity id m.active_configs (s.holds_config id r at live)),
        rw ds (
            release-none r.view.database_path id m.active_databases
              (s.holds_database id r at live)),
      )

  freed-others :
      (j : Text) (q : RuntimeInstance)
      → id ≢ j
      → get j m.instances ≡ some q
      → get j freed.instances ≡ some q
  unfolding freed
  freed-others j q ne h =
      let (is, ns, cs, ds) =
        persist_maps refused r'.view (record m { instances = put id r' m.instances }) in
      rw is (get-put_ne id j r' m.instances ne ∙ h)

  -- What holds of the two ways in which an end is concluded holds behind it.
  finish-cases {κ} :
      (P : Manager → Type κ)
      → (r.remove_on_exit ≡ true → P (forget id r' freed))
      → (r.remove_on_exit ≡ false → P (trim id freed))
      → P (finish refused outcome now id m)
  finish-cases P forgets trims =
      rw (finish_live, finish_of-freed) (either r.remove_on_exit forgets trims)
    where
      either :
          (b : Bool)
          → (b ≡ true → P (forget id r' freed))
          → (b ≡ false → P (trim id freed))
          → P (if b then forget id r' freed else trim id freed)
      either true f t = f refl
      either false f t = t refl

  forgotten :
      (IsReleased r (forget id r' freed))
      × (get id (forget id r' freed).instances ≡ none)
      × ((j : Text) (q : RuntimeInstance)
          → id ≢ j
          → get j m.instances ≡ some q
          → is_live q ≡ true
          → get j (forget id r' freed).instances ≡ some q)
  unfolding forget
  forgotten = (
    freed-IsReleased,
    get-delete_self id freed.instances,
    λ j q ne h active. get-delete_ne id j freed.instances ne ∙ freed-others j q ne h,
  )

  -- When the runner of an active instance ends, the configuration and the database of the instance
  -- are free for a new start, and every other active instance is as it was. The instance itself stays,
  -- with its final state, exactly if it was not started to be removed on exit.
  pub finish_lem :
      IsReleased r (finish refused outcome now id m)
      × (get id (finish refused outcome now id m).instances
          ≡ (if r.remove_on_exit then none else some (ended m r outcome now)))
      × ((j : Text) (q : RuntimeInstance)
          → id ≢ j
          → get j m.instances ≡ some q
          → is_live q ≡ true
          → get j (finish refused outcome now id m).instances ≡ some q)
  unfolding r'
  finish_lem =
      finish-cases
        (λ m'.
          IsReleased r m'
          × (get id m'.instances
              ≡ (if r.remove_on_exit then none else some (ended m r outcome now)))
          × ((j : Text) (q : RuntimeInstance)
              → id ≢ j
              → get j m.instances ≡ some q
              → is_live q ≡ true
              → get j m'.instances ≡ some q))
        (λ e. (forgotten.0, forgotten.1 ∙ sym (branch e), forgotten.2))
        (λ e. (
          (
            ap (λ d. get r.config_identity d) (trim-actives id freed).0 ∙ freed-IsReleased.0,
            ap (λ d. get r.view.database_path d) (trim-actives id freed).1 ∙ freed-IsReleased.1,
          ),
          trim-get id id r' freed freed-IsSound.0 freed-IsSound.1 (inr refl) ∙ sym (branch e),
          λ j q ne h active.
              trim-get id j q freed freed-IsSound.0 (freed-others j q ne h) (inl active),
        ))
    where
      branch :
          {b : Bool}
          → r.remove_on_exit ≡ b
          → (if r.remove_on_exit then none else some (ended m r outcome now))
            ≡ (if b then none else some (ended m r outcome now))
      branch e = rw e refl
