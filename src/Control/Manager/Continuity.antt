-- ===== src/Control/Manager/Continuity.antt =====
-- What the operations of internal/control/manager.go that start nothing leave of the instances: none is
-- new, and none changes its id, its name, its configuration or its database.
use slipway.Common.{
  ℕ, Text, ◌≡◌, refl, sym, ap, ◌∙◌, true, Option, some, List, [], ◌∷◌, Dict, get, put, get-put_self,
  get-map_values-eq-some, get-delete-eq-some, Result, Result-cases, ok, err, Option-cases, inl, inr,
  arith, if_both, HasEntry,
}
use slipway.Control.Manager.Types.{
  Instance, RuntimeInstance, Registry, Manager, Error, is_live, is_closing,
}
use slipway.Control.Manager.Names.{resolve}
use slipway.Control.Manager.Lifecycle.{
  Outcome, refusal, saved, forget, trim, forget_all, excess, release, persist, ended, finish_of,
  finish,
}
use slipway.Control.Manager.Stopping.{
  Stopped, told, tell, with_runtime, stop_runtime, unwanted, stop_saved, stop, begin_shutdown,
  end_shutdown,
}
use slipway.Control.Manager.Selection.{resolve-Selects}
use slipway.Control.Manager.Invariant.Defs.{IsSound, IsSameInstance}
use slipway.Control.Manager.Invariant.Finishing.{Entry, persist_maps, trim-cases, ended-IsSame}
use slipway.Control.Manager.Every.{Every, trim-Every, put-Every}

-- The instance was there, under the same names.
abbrev pub WasThere : Manager → Text → RuntimeInstance → Type 0
WasThere start k r = HasEntry (λ q. IsSameInstance q r) k start.instances

-- The registry was there, in the same directory.
abbrev pub KeepsDirectory : Manager → Manager → Type 0
KeepsDirectory start m =
    (h : Registry)
    → m.registry ≡ some h
    → (g : Registry) × (start.registry ≡ some g) × (h.directory ≡ g.directory)

pub record Continues (start m : Manager) : Type 0 where
  pub instances : Every (WasThere start) m.instances
  pub registry : KeepsDirectory start m

same_self : (r : RuntimeInstance) → IsSameInstance r r
same_self r = record {
  same_id = refl;
  same_name = refl;
  same_identity = refl;
  same_database = refl;
}

pub Continues-refl : (m : Manager) → Continues m m
Continues-refl m = record {
  instances = λ k r at. (r, at, same_self r);
  registry = λ h at. (h, at, refl);
}

pub saved-directory :
    (refused : Option Text) (vs : List Instance) (g h : Registry)
    → saved refused vs g ≡ ok h
    → h.directory ≡ g.directory
unfolding saved
saved-directory refused vs g h e = elim (Option-cases (refusal refused g)) [
  | inl at ↦ sym (ap (λ x. directory_of x) (rw (at, saved) at e))
  | inr (x, at) ↦ absurd (cc (rw (at, saved) at e))
]
  where
    directory_of : Result Text Registry → Text
    directory_of (ok h) = h.directory
    directory_of (err e) = g.directory

module _ (start : Manager) where
  abbrev Leaves : Result Error Stopped × Manager → Type 0
  Leaves x = Continues start x.1

  same_step :
      (q r r' : RuntimeInstance) → IsSameInstance q r → IsSameInstance r r' → IsSameInstance q r'
  same_step q r r' a b = record {
    same_id = b.same_id ∙ a.same_id;
    same_name = b.same_name ∙ a.same_name;
    same_identity = b.same_identity ∙ a.same_identity;
    same_database = b.same_database ∙ a.same_database;
  }

  put-WasThere :
      (k : Text) (r r' : RuntimeInstance) (d : Dict RuntimeInstance)
      → get k d ≡ some r
      → IsSameInstance r r'
      → Every (WasThere start) d
      → Every (WasThere start) (put k r' d)
  put-WasThere k r r' d at same h =
      let (q, q_at, b) = h k r at in
      put-Every (WasThere start) k r' d (q, q_at, same_step q r r' b same) h

  with_runtime-Continues :
      (r r' : RuntimeInstance) (m : Manager)
      → get r.view.id m.instances ≡ some r
      → IsSameInstance r r'
      → r'.view.id ≡ r.view.id
      → Continues start m
      → Continues start (with_runtime r' m)
  with_runtime-Continues r r' m at same id c = record {
    instances =
        put-WasThere r'.view.id r r' m.instances (ap (λ k. get k m.instances) id ∙ at) same
          c.instances;
    registry = c.registry;
  }

  stop_runtime-Continues :
      (r : RuntimeInstance) (m : Manager)
      → get r.view.id m.instances ≡ some r
      → Continues start m
      → Continues start (stop_runtime r m).1
  stop_runtime-Continues r m at c =
      if_both Leaves (is_live r) _ _
        (with_runtime-Continues r (told r) m at
          (record { same_id = refl; same_name = refl; same_identity = refl; same_database = refl })
          refl c)
        c

  -- What is saved to a registry stays in its directory.
  resaved :
      (refused : Option Text) (vs : List Instance) (g h : Registry) (m : Manager)
      → m.registry ≡ some g
      → saved refused vs g ≡ ok h
      → KeepsDirectory start m
      → KeepsDirectory start (record m { registry = some h })
  resaved refused vs g h m at e c h' at' =
      let (g0, there, same) = c g at in
      let one : h ≡ h' = cc in
      (
        g0,
        there,
        ap (λ (x : Registry). x.directory) (sym one) ∙ saved-directory refused vs g h e ∙ same,
      )

  stop_saved-Continues :
      (refused : Option Text) (vs : List Instance) (r : RuntimeInstance) (g : Registry)
      (m : Manager) (x : Result Text Registry)
      → saved refused vs g ≡ x
      → m.registry ≡ some g
      → get r.view.id m.instances ≡ some r
      → Continues start m
      → Continues start (stop_saved r m x).1
  stop_saved-Continues refused vs r g m (err e) h there at c = c
  stop_saved-Continues refused vs r g m (ok g') h there at c =
      let m' = with_runtime (unwanted r) (record m { registry = some g' }) in
      let c' : Continues start m' =
        with_runtime-Continues r (unwanted r) (record m { registry = some g' }) at
          (record { same_id = refl; same_name = refl; same_identity = refl; same_database = refl })
          refl
          (record {
            instances = c.instances;
            registry = resaved refused vs g g' m there h c.registry;
          }) in
      if_both Leaves (is_live r) _ _
        (stop_runtime-Continues (unwanted r) m' (get-put_self r.view.id (unwanted r) m.instances)
          c')
        c'

  pub stop-Continues :
      (refused : Option Text) (selector : Text) (m : Manager)
      → IsSound m
      → Continues start m
      → Continues start (stop refused selector m).1
  unfolding stop
  stop-Continues refused selector m s c = elim (Result-cases (resolve m selector)) [
    | inr (e, h) ↦ rw (h, stop) c
    | inl (r, h) ↦
        let (ne, at, how) = (resolve-Selects m selector r s).0 h in
        elim (Option-cases m.registry) [
          | inl e ↦ rw (h, e, stop) (stop_runtime-Continues r m at c)
          | inr (g, e) ↦
              rw (h, e, stop)
                (if_both Leaves (is_closing m) _ _ c
                  (stop_saved-Continues refused ((unwanted r).view ∷ []) r g m _ refl e at c))
        ]
  ]

  forget_all-registry : (es : List Entry) (m : Manager) → (forget_all es m).registry ≡ m.registry
  unfolding forget_all forget
  forget_all-registry [] m = refl
  forget_all-registry ((id, r) ∷ es) m = forget_all-registry es (forget id r m)

  persist-KeepsDirectory :
      (refused : Option Text) (v : Instance) (m : Manager)
      → KeepsDirectory start m
      → KeepsDirectory start (persist refused v m)
  unfolding persist
  persist-KeepsDirectory refused v m c = elim (Option-cases m.registry) [
    | inl e ↦ rw (e, persist) c
    | inr (g, e) ↦ elim (Result-cases (saved refused (v ∷ []) g)) [
      | inr (x, h) ↦ rw (e, h, persist) c
      | inl (g', h) ↦ rw (e, h, persist) (resaved refused (v ∷ []) g g' m e h c)
    ]
  ]

  forget-Continues :
      (id : Text) (r : RuntimeInstance) (m : Manager)
      → Continues start m
      → Continues start (forget id r m)
  unfolding forget
  forget-Continues id r m c = record {
    instances = λ k q found. c.instances k q (get-delete-eq-some id k m.instances found).1;
    registry = c.registry;
  }

  trim-Continues :
      (current : Text) (m : Manager) → Continues start m → Continues start (trim current m)
  trim-Continues current m c = record {
    instances = trim-Every (WasThere start) current m c.instances;
    registry =
        trim-cases (KeepsDirectory start) current m c.registry
          (λ h at. c.registry h (sym (forget_all-registry (excess current m) m) ∙ at));
  }

  finish_of-Continues :
      (refused : Option Text) (outcome : Outcome) (now : ℕ) (id : Text) (r : RuntimeInstance)
      (m : Manager)
      → get id m.instances ≡ some r
      → Continues start m
      → Continues start (finish_of refused outcome now id r m)
  unfolding finish_of
  finish_of-Continues refused outcome now id r m at c =
      let r' = ended m r outcome now in
      let published = record m { instances = put id r' m.instances } in
      let kept = persist refused r'.view published in
      let (is, ns, cs, ds) = persist_maps refused r'.view published in
      let all = put-WasThere id r r' m.instances at (ended-IsSame m r outcome now) c.instances in
      let freed = record kept {
        active_configs = release r.config_identity id kept.active_configs;
        active_databases = release r.view.database_path id kept.active_databases;
      } in
      let c' : Continues start freed = record {
        instances = rw is all;
        registry = persist-KeepsDirectory refused r'.view published c.registry;
      } in
      if_both (Continues start) r.remove_on_exit _ _ (forget-Continues id r' freed c')
        (trim-Continues id freed c')

  pub finish-Continues :
      (refused : Option Text) (outcome : Outcome) (now : ℕ) (id : Text) (m : Manager)
      → Continues start m
      → Continues start (finish refused outcome now id m)
  unfolding finish
  finish-Continues refused outcome now id m c = elim (Option-cases (get id m.instances)) [
    | inl e ↦ rw (e, finish) c
    | inr (r, e) ↦
        rw (e, finish)
          (if_both (Continues start) (is_live r) _ _
            (finish_of-Continues refused outcome now id r m e c) c)
  ]

  tell-IsSame : (r : RuntimeInstance) → IsSameInstance r (tell r)
  unfolding tell
  tell-IsSame r = ground arith

  pub begin_shutdown-Continues :
      (m : Manager) → Continues start m → Continues start (begin_shutdown m)
  unfolding begin_shutdown
  begin_shutdown-Continues m c = record {
    instances = λ k q found.
        let (r, at, e) = get-map_values-eq-some tell k m.instances found in
        let (p, p_at, same) = c.instances k r at in
        (p, p_at, rw e (same_step p r (tell r) same (tell-IsSame r)));
    registry = c.registry;
  }

  pub end_shutdown-Continues :
      (m : Manager) → Continues start m → Continues start (end_shutdown m).1
  unfolding end_shutdown
  end_shutdown-Continues m c = elim (Option-cases m.registry) [
    | inl e ↦ rw (e, end_shutdown) c
    | inr (g, e) ↦
        rw (e, end_shutdown)
          (record {
            instances = c.instances;
            registry = λ h at.
                let (g0, there, same) = c.registry g e in
                let one : record g { closed = true } ≡ h = cc in
                (g0, there, ap (λ (x : Registry). x.directory) (sym one) ∙ same);
          })
  ]
