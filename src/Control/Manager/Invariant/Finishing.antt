-- ===== src/Control/Manager/Invariant/Finishing.antt =====
-- The end of an instance, `trimTerminatedLocked` included, keeps the maps of the supervisor of
-- internal/control/manager.go in agreement.
use slipway.Common.{
  ℕ, ◌-◌, Text, ◌≡◌, ◌≢◌, sym, ◌∙◌, false, Option, none, some, List, [], ◌∷◌, All, All_mono,
  All_both, Pairwise, get, put, get-put_self, get-delete_ne, entries_found, Option-cases,
  All-filter_where, All-order_by, All-take, Pairwise-filter_where, Pairwise-order_by, Pairwise-take,
  filter_where, length, arith, Bool-cases, inl, inr, if_both,
}
use slipway.Control.Manager.Types.{RuntimeInstance, Registry, Manager, is_live, Instance}
use slipway.Control.Manager.Lifecycle.{
  Outcome, release, forget, forget_all, ended_before, is_terminal, is_other, excess, trim, trim_by,
  persist, ended, final_view, finish_of, finish,
}
use slipway.Control.Manager.Invariant.Defs.{AreSound, IsSound, IsSameInstance}
use slipway.Control.Manager.Invariant.Endings.{forget-AreSound, end-AreSound}

abbrev pub Entry : Type 0
Entry = Text × RuntimeInstance

-- An entry of the map of instances that has ended.
abbrev pub IsEnded : Manager → Entry → Type 0
IsEnded m e = (get e.0 m.instances ≡ some e.1) × (is_live e.1 ≡ false)

abbrev pub OtherKey : Entry → Entry → Type 0
OtherKey e f = e.0 ≢ f.0

pub forget-IsSound :
    (id : Text) (r : RuntimeInstance) (m : Manager)
    → IsEnded m (id, r)
    → IsSound m
    → IsSound (forget id r m)
unfolding forget
forget-IsSound id r m e s = forget-AreSound s id r e.0 e.1

pub forget-IsEnded :
    (id : Text) (r : RuntimeInstance) (m : Manager) (f : Entry)
    → id ≢ f.0
    → IsEnded m f
    → IsEnded (forget id r m) f
unfolding forget
forget-IsEnded id r m f ne e = (get-delete_ne id f.0 m.instances ne ∙ e.0, e.1)

forget_all-IsSound :
    (es : List Entry) (m : Manager)
    → All (IsEnded m) es
    → Pairwise OtherKey es
    → IsSound m
    → IsSound (forget_all es m)
unfolding forget_all
forget_all-IsSound [] m all other s = s
forget_all-IsSound ((id, r) ∷ es) m all other s =
    forget_all-IsSound es (forget id r m)
      (All_mono {A = Entry} (λ f. (id ≢ f.0) × IsEnded m f) (IsEnded (forget id r m))
        (λ f b. forget-IsEnded id r m f b.0 b.1) es
        (All_both {A = Entry} (λ f. id ≢ f.0) (IsEnded m) es other.0 all.1))
      other.1 (forget-IsSound id r m all.0 s)

terminal_ended :
    (P : Entry → Type 0) (es : List Entry)
    → All P es
    → All (λ e. P e × (is_live e.1 ≡ false)) (filter_where is_terminal es)
unfolding filter_where
terminal_ended P [] h = tt
terminal_ended P ((k, r) ∷ es) h = elim (Bool-cases (is_live r)) [
  | inl e ↦ rw e (terminal_ended P es h.1)
  | inr e ↦ rw e ((h.0, e), terminal_ended P es h.1)
]

pub excess-IsEnded : (current : Text) (m : Manager) → IsSound m → All (IsEnded m) (excess current m)
unfolding excess
excess-IsEnded current m s =
    let terminal = filter_where is_terminal m.instances in
    All-take (IsEnded m) (length terminal - m.retained_instances) _ (
      All-order_by (IsEnded m) ended_before _ (
        All-filter_where (IsEnded m) (is_other current) terminal (
          terminal_ended (λ e. get e.0 m.instances ≡ some e.1) m.instances
            (entries_found m.instances s.unique))))

pub excess-OtherKey :
    (current : Text) (m : Manager) → IsSound m → Pairwise OtherKey (excess current m)
unfolding excess
excess-OtherKey current m s =
    let terminal = filter_where is_terminal m.instances in
    Pairwise-take OtherKey (length terminal - m.retained_instances) _ (
      Pairwise-order_by OtherKey (λ e f ne same. ne (sym same)) ended_before _
        (Pairwise-filter_where OtherKey (is_other current) terminal
          (Pairwise-filter_where OtherKey is_terminal m.instances s.unique)))

-- What holds of the manager with and without forgetting holds behind `trim`.
pub trim-cases {κ} :
    (P : Manager → Type κ) (current : Text) (m : Manager)
    → P m
    → P (forget_all (excess current m) m)
    → P (trim current m)
unfolding trim
trim-cases P current m durable trimmed = by_registry m.registry
  where
    by_registry : (o : Option Registry) → P (trim_by o current m)
    by_registry none = trimmed
    by_registry (some g) = durable

pub trim-IsSound : (current : Text) (m : Manager) → IsSound m → IsSound (trim current m)
trim-IsSound current m s = trim-cases IsSound current m s (
    forget_all-IsSound (excess current m) m (excess-IsEnded current m s)
      (excess-OtherKey current m s) s)

pub persist_maps :
    (refused : Option Text) (v : Instance) (m : Manager)
    → ((persist refused v m).instances ≡ m.instances)
      × ((persist refused v m).names ≡ m.names)
      × ((persist refused v m).active_configs ≡ m.active_configs)
      × ((persist refused v m).active_databases ≡ m.active_databases)
unfolding persist
persist_maps refused v m = ground arith

pub ended-IsSame :
    (m : Manager) (r : RuntimeInstance) (outcome : Outcome) (now : ℕ)
    → IsSameInstance r (ended m r outcome now)
unfolding final_view
ended-IsSame m r outcome now = ground arith

pub ended_over :
    (m : Manager) (r : RuntimeInstance) (outcome : Outcome) (now : ℕ)
    → is_live (ended m r outcome now) ≡ false
unfolding final_view
ended_over m r outcome now = ground arith

-- The manager once the end of an instance is published and what it held is given back.
pub freed_maps :
    (refused : Option Text) (id : Text) (r r' : RuntimeInstance) (m : Manager)
    → get id m.instances ≡ some r
    → IsSameInstance r r'
    → is_live r' ≡ false
    → IsSound m
    → let kept = persist refused r'.view (record m { instances = put id r' m.instances }) in
      AreSound kept.instances kept.names
        (release r.config_identity id kept.active_configs)
        (release r.view.database_path id kept.active_databases)
      × (get id kept.instances ≡ some r')
freed_maps refused id r r' m at same over s =
    let (is, ns, cs, ds) =
      persist_maps refused r'.view (record m { instances = put id r' m.instances }) in
    (
      rw (is, ns, cs, ds) (end-AreSound s id r at r' same over),
      rw is (get-put_self id r' m.instances),
    )

finish_of-IsSound :
    (refused : Option Text) (outcome : Outcome) (now : ℕ) (id : Text) (r : RuntimeInstance)
    (m : Manager)
    → get id m.instances ≡ some r
    → IsSound m
    → IsSound (finish_of refused outcome now id r m)
unfolding finish_of
finish_of-IsSound refused outcome now id r m at s =
    let r' = ended m r outcome now in
    let over = ended_over m r outcome now in
    let (freed, found) = freed_maps refused id r r' m at (ended-IsSame m r outcome now) over s in
    if_both IsSound r.remove_on_exit _ _ (forget-IsSound id r' _ (found, over) freed)
      (trim-IsSound id _ freed)

pub finish-IsSound :
    (refused : Option Text) (outcome : Outcome) (now : ℕ) (id : Text) (m : Manager)
    → IsSound m
    → IsSound (finish refused outcome now id m)
unfolding finish
finish-IsSound refused outcome now id m s = elim (Option-cases (get id m.instances)) [
  | inl e ↦ rw (e, finish) s
  | inr (r, e) ↦
      rw (e, finish)
        (if_both IsSound (is_live r) _ _ (finish_of-IsSound refused outcome now id r m e s) s)
]
