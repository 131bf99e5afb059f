-- ===== src/Control/Registry/Reloading.antt =====
-- What a load of the registrations (`loadRegistered` of internal/control/registry.go) enters into the
-- maps of the supervisor.
use slipway.Common.{
  ℕ, ◌+◌, Text, text_eq_iff, ◌≡◌, ◌≢◌, refl, sym, ap, ◌∙◌, true, false, Option, none, some, [], ◌∷◌,
  ok, Dict, get, put, get-put_self, get-put_ne, IsMap, put-IsMap, put_all, All, HasEntry,
  Bool-cases, inl, inr, arith,
}
use slipway.Control.Manager.Types.{Instance, is_active, RuntimeInstance, is_live, Row, Manager}
use slipway.Control.Registry.Registered.{
  Loading, loaded_runtime, enter, enter_row, load_rows, is_valid_row, checked_view, left_over,
  checked_config, calls_of,
}

-- What a load keeps of a row.
pub record IsLoaded (l : Loading) (w : Row) (r : RuntimeInstance) : Type 0 where
  pub same_id : r.view.id ≡ w.view.id
  pub same_name : r.view.name ≡ w.view.name
  pub same_database : r.view.database_path ≡ w.view.database_path
  pub same_desired : r.view.desired_state ≡ w.view.desired_state
  pub same_identity : r.config_identity ≡ w.identity
  pub same_config : r.config ≡ checked_config (l.validate w.config) w.config
  pub ended : is_live r ≡ false

-- What two states of an instance share.
IsSameView : Instance → Instance → Type 0
IsSameView u v =
    (u.id ≡ v.id)
    × (u.name ≡ v.name)
    × (u.database_path ≡ v.database_path)
    × (u.desired_state ≡ v.desired_state)

left_over-ended : (now : ℕ) (v : Instance) → is_active (left_over now v) ≡ false
left_over-ended now v = ground arith

left_over-same : (now : ℕ) (v : Instance) → IsSameView (left_over now v) v
unfolding IsSameView
left_over-same now v = elim (Bool-cases (is_active v)) [
  | inl e ↦ rw e (refl, refl, refl, refl)
  | inr e ↦ rw e (refl, refl, refl, refl)
]

checked_view-ended :
    (o : Option Text) (v : Instance) → is_active v ≡ false → is_active (checked_view o v) ≡ false
checked_view-ended none v h = h
checked_view-ended (some e) v h = refl

checked_view-same :
    (o : Option Text) (u v : Instance) → IsSameView u v → IsSameView (checked_view o u) v
unfolding IsSameView
checked_view-same none u v h = h
checked_view-same (some e) u v h = h

pub loaded_runtime-IsLoaded :
    (l : Loading) (i : ℕ) (m : Manager) (w : Row) → IsLoaded l w (loaded_runtime l i m w)
unfolding IsSameView
loaded_runtime-IsLoaded l i m w =
    let o = l.validate w.config in
    let v = left_over (l.clock i) w.view in
    let (p, q, d, s) = checked_view-same o v w.view (left_over-same (l.clock i) w.view) in
    record {
      same_id = p;
      same_name = q;
      same_database = d;
      same_desired = s;
      same_identity = refl;
      same_config = refl;
      ended = checked_view-ended o v (left_over-ended (l.clock i) w.view);
    }

-- Every instance stands once, at its id.
pub record IsIndexed (instances : Dict RuntimeInstance) : Type 0 where
  pub unique : IsMap instances
  pub keyed : (k : Text) (r : RuntimeInstance) → get k instances ≡ some r → r.view.id ≡ k

pub put-IsIndexed :
    (r : RuntimeInstance) (d : Dict RuntimeInstance) → IsIndexed d → IsIndexed (put r.view.id r d)
put-IsIndexed r d s = record {
  unique = put-IsMap r.view.id r d s.unique;
  keyed = put_all (λ j q. q.view.id ≡ j) r.view.id r d refl (λ j q ne h. s.keyed j q h);
}

abbrev pub IsValid : Loading → Text × Row → Type 0
IsValid l e = is_valid_row l.runes e ≡ true

-- A valid row stands at the id of its view.
pub valid_id_lem : (l : Loading) (id : Text) (w : Row) → IsValid l (id, w) → w.view.id ≡ id
unfolding is_valid_row
valid_id_lem l id w h = ground (arith, text_eq_iff w.view.id id)

module _ (l : Loading) where
  pub load_step :
      (i : ℕ) (id : Text) (w : Row) (es : Dict Row) (m : Manager)
      → IsValid l (id, w)
      → load_rows l i ((id, w) ∷ es) m ≡ load_rows l (i + calls_of w.view) es (enter_row l i w m)
  unfolding load_rows
  load_step i id w es m h = rw (h, load_rows) refl

  -- Rows that are valid are all loaded, and nothing else of the supervisor is touched than what
  -- `enter` writes.
  pub load_rows_ok :
      (i : ℕ) (es : Dict Row) (m : Manager)
      → All (IsValid l) es
      → (m' : Manager) × (load_rows l i es m ≡ ok m')
        × (m'.registry ≡ m.registry)
        × (m'.shutting_down ≡ m.shutting_down)
        × (m'.cancelled ≡ m.cancelled)
  unfolding load_rows enter_row enter
  load_rows_ok i [] m h = (m, refl, refl, refl, refl)
  load_rows_ok i ((id, w) ∷ es) m h =
      let (m', e, g, s, c) = load_rows_ok (i + calls_of w.view) es (enter_row l i w m) h.1 in
      (m', load_step i id w es m h.0 ∙ e, g, s, c)

  -- A load leaves the instances of other ids alone.
  pub load_keeps :
      (k : Text) (i : ℕ) (es : Dict Row) (m m' : Manager)
      → All (IsValid l) es
      → All (λ e. k ≢ e.0) es
      → load_rows l i es m ≡ ok m'
      → get k m'.instances ≡ get k m.instances
  unfolding load_rows enter_row enter
  load_keeps k i [] m m' h ne e = let same : m ≡ m' = cc in rw same refl
  load_keeps k i ((id, w) ∷ es) m m' h ne e =
      let r = loaded_runtime l i m w in
      let at = loaded_runtime-IsLoaded l i m w in
      load_keeps k (i + calls_of w.view) es (enter_row l i w m) m' h.1 ne.1
        (sym (load_step i id w es m h.0) ∙ e)
      ∙ get-put_ne r.view.id k r m.instances
          (λ same. ne.0 (sym same ∙ at.same_id ∙ valid_id_lem l id w h.0))

  -- It leaves the instances indexed by their ids.
  pub load-IsIndexed :
      (i : ℕ) (es : Dict Row) (m m' : Manager)
      → All (IsValid l) es
      → load_rows l i es m ≡ ok m'
      → IsIndexed m.instances
      → IsIndexed m'.instances
  unfolding load_rows enter_row enter
  load-IsIndexed i [] m m' h e s = let same : m ≡ m' = cc in rw (← same) s
  load-IsIndexed i ((id, w) ∷ es) m m' h e s =
      load-IsIndexed (i + calls_of w.view) es (enter_row l i w m) m' h.1
        (sym (load_step i id w es m h.0) ∙ e) (put-IsIndexed (loaded_runtime l i m w) m.instances s)

  -- Every row has its instance.
  pub load_reaches :
      (i : ℕ) (es : Dict Row) (m m' : Manager)
      → All (IsValid l) es
      → IsMap es
      → load_rows l i es m ≡ ok m'
      → All (λ e. HasEntry (IsLoaded l e.1) e.0 m'.instances) es
  unfolding load_rows enter_row enter
  load_reaches i [] m m' h u e = tt
  load_reaches i ((id, w) ∷ es) m m' h u e =
      let r = loaded_runtime l i m w in
      let loaded = loaded_runtime-IsLoaded l i m w in
      let next = sym (load_step i id w es m h.0) ∙ e in
      (
        (
          r,
          load_keeps id (i + calls_of w.view) es (enter_row l i w m) m' h.1 u.0 next
              ∙ ap (λ j. get j (put r.view.id r m.instances))
                  (sym (loaded.same_id ∙ valid_id_lem l id w h.0))
              ∙ get-put_self r.view.id r m.instances,
          loaded,
        ),
        load_reaches (i + calls_of w.view) es (enter_row l i w m) m' h.1 u.1 next,
      )
