-- ===== src/Control/Manager/Retention.antt =====
-- internal/control/manager.go: which instances stay addressable as one ends.
use slipway.Common.{
  suc, ◌+◌, ◌-◌, ◌≤◌, max, Text, text_eq, text_eq_iff, ◌≡◌, ◌≢◌, refl, sym, ap, ◌∙◌, Bool, true,
  false, none, some, List, [], ◌∷◌, All, All_mono, All_both, Pairwise, Dict, get, delete,
  get-delete_ne, bit, count_where, IsMap, All-order_by, All-take, filter_where, order_by, insert_by,
  length, length-take, arith, Bool-cases, inl, inr, min, text_ne, ◌⊎◌,
}
use slipway.Control.Manager.Types.{RuntimeInstance, Manager, is_live}
use slipway.Control.Manager.Lifecycle.{
  forget, forget_all, ended_before, is_terminal, is_other, excess, trim,
}
use slipway.Control.Manager.Invariant.Defs.{IsSound}
use slipway.Control.Manager.Invariant.Endings.{ended_elsewhere}
use slipway.Control.Manager.Invariant.Finishing.{
  Entry, IsEnded, OtherKey, forget-IsSound, forget-IsEnded, excess-IsEnded, excess-OtherKey,
  trim-cases,
}

-- An instance that is none of the forgotten ones stays.
forget_all-get :
    (j : Text) (es : List Entry) (m : Manager)
    → All (λ e. e.0 ≢ j) es
    → get j (forget_all es m).instances ≡ get j m.instances
unfolding forget_all forget
forget_all-get j [] m h = refl
forget_all-get j ((id, r) ∷ es) m h =
    forget_all-get j es (forget id r m) h.1 ∙ get-delete_ne id j m.instances h.0

count-without :
    (p : Entry → Bool) (k : Text) (d : Dict RuntimeInstance)
    → All (λ e. k ≢ e.0) d
    → count_where p (delete k d) ≡ count_where p d
unfolding count_where delete
count-without p k [] h = refl
count-without p k ((j, w) ∷ d) h = elim (Bool-cases (text_eq j k)) [
  | inl e ↦ absurd (h.0 (sym ((text_eq_iff j k).0 e)))
  | inr e ↦ rw e (omega (arith, count-without p k d h.1))
]

-- One instance less.
count-delete :
    (p : Entry → Bool) (k : Text) (v : RuntimeInstance) (d : Dict RuntimeInstance)
    → IsMap d
    → get k d ≡ some v
    → count_where p (delete k d) + bit (p (k, v)) ≡ count_where p d
unfolding count_where delete get
count-delete p k v [] u h = cc
count-delete p k v ((j, w) ∷ d) u h = elim (Bool-cases (text_eq j k)) [
  | inl e ↦
      let same : j ≡ k = (text_eq_iff j k).0 e in
      let was : w ≡ v = cc (rw e at h) in
      let gone = count-without p k d (rw (← same) u.0) in
      let entry : bit (p (k, v)) ≡ bit (p (j, w)) = rw (same, was) refl in
      rw e (omega (arith, gone, entry))
  | inr e ↦ rw e (omega (arith, count-delete p k v d u.1 (rw e at h)))
]

terminal_bit : (e : Entry) → is_live e.1 ≡ false → bit (is_terminal e) ≡ 1
terminal_bit (k, r) h = rw h refl

forget-count :
    (id : Text) (r : RuntimeInstance) (m : Manager)
    → IsEnded m (id, r)
    → IsSound m
    → count_where is_terminal (forget id r m).instances + 1 ≡ count_where is_terminal m.instances
unfolding forget
forget-count id r m (at, over) s =
    omega (arith, count-delete is_terminal id r m.instances s.unique at, terminal_bit (id, r) over)

forget_all-count :
    (es : List Entry) (m : Manager)
    → All (IsEnded m) es
    → Pairwise OtherKey es
    → IsSound m
    → count_where is_terminal (forget_all es m).instances + length es
      ≡ count_where is_terminal m.instances
unfolding forget_all
forget_all-count [] m all other s = omega arith
forget_all-count ((id, r) ∷ es) m all other s =
    let rest =
      forget_all-count es (forget id r m)
        (All_mono {A = Entry} (λ f. (id ≢ f.0) × IsEnded m f) (IsEnded (forget id r m))
          (λ f b. forget-IsEnded id r m f b.0 b.1) es
          (All_both {A = Entry} (λ f. id ≢ f.0) (IsEnded m) es other.0 all.1))
        other.1 (forget-IsSound id r m all.0 s) in
    omega (arith, rest, forget-count id r m all.0 s)

length-filter_where {ℓ} :
    {A : Type ℓ} (p : A → Bool) (xs : List A) → length (filter_where p xs) ≡ count_where p xs
unfolding filter_where count_where
length-filter_where p [] = refl
length-filter_where p (x ∷ xs) = ground (arith, length-filter_where p xs)

length-insert_by {ℓ} :
    {A : Type ℓ} (before : A → A → Bool) (x : A) (ys : List A)
    → length (insert_by before x ys) ≡ suc (length ys)
unfolding insert_by
length-insert_by before x [] = refl
length-insert_by before x (y ∷ ys) = ground (arith, length-insert_by before x ys)

length-order_by {ℓ} :
    {A : Type ℓ} (before : A → A → Bool) (xs : List A) → length (order_by before xs) ≡ length xs
unfolding order_by
length-order_by before [] = refl
length-order_by before (x ∷ xs) =
    omega (arith, length-insert_by before x (order_by before xs), length-order_by before xs)

abbrev others : Text → Dict RuntimeInstance → List Entry
others current d = filter_where (is_other current) (filter_where is_terminal d)

others-absent :
    (current : Text) (d : Dict RuntimeInstance)
    → All (λ e. current ≢ e.0) d
    → length (others current d) ≡ count_where is_terminal d
unfolding filter_where count_where
others-absent current [] h = refl
others-absent current ((k, r) ∷ d) h = elim (Bool-cases (is_live r)) [
  | inl e ↦ rw e (omega (arith, others-absent current d h.1))
  | inr e ↦
      rw (e, text_ne k current (λ same. h.0 (sym same)))
        (omega (arith, others-absent current d h.1))
]

-- The instance that just ended is one of the terminal ones.
others-length :
    (current : Text) (v : RuntimeInstance) (d : Dict RuntimeInstance)
    → IsMap d
    → get current d ≡ some v
    → is_live v ≡ false
    → length (others current d) + 1 ≡ count_where is_terminal d
unfolding filter_where count_where get
others-length current v [] u h over = cc
others-length current v ((k, r) ∷ d) u h over = elim (Bool-cases (text_eq k current)) [
  | inl e ↦
      let same : k ≡ current = (text_eq_iff k current).0 e in
      let was : r ≡ v = cc (rw e at h) in
      let ended : is_live r ≡ false = ap (λ (x : RuntimeInstance). is_live x) was ∙ over in
      rw (ended, e) (omega (arith, others-absent current d (rw (← same) u.0)))
  | inr e ↦ elim (Bool-cases (is_live r)) [
    | inl live ↦ rw live (omega (arith, others-length current v d u.1 (rw e at h) over))
    | inr ended ↦ rw (ended, e) (omega (arith, others-length current v d u.1 (rw e at h) over))
  ]
]

length-excess :
    (current : Text) (m : Manager)
    → length (excess current m)
      ≡ min
          (count_where is_terminal m.instances - m.retained_instances)
          (length (others current m.instances))
unfolding excess
length-excess current m = omega (
  arith,
  length-take (length (filter_where is_terminal m.instances) - m.retained_instances)
      (order_by ended_before (others current m.instances)),
  length-order_by ended_before (others current m.instances),
  length-filter_where is_terminal m.instances,
)

only_others :
    (current : Text) (es : List Entry)
    → All (λ e. e.0 ≢ current) (filter_where (is_other current) es)
unfolding filter_where
only_others current [] = tt
only_others current ((k, r) ∷ es) = elim (Bool-cases (text_eq k current)) [
  | inl e ↦ rw e (only_others current es)
  | inr e ↦ rw e ((λ same. cc (e, (text_eq_iff k current).1 same)), only_others current es)
]

excess-other : (current : Text) (m : Manager) → All (λ e. e.0 ≢ current) (excess current m)
unfolding excess
excess-other current m =
    All-take {A = Entry} (λ e. e.0 ≢ current)
      (length (filter_where is_terminal m.instances) - m.retained_instances) _
      (All-order_by {A = Entry} (λ e. e.0 ≢ current) ended_before _
        (only_others current (filter_where is_terminal m.instances)))

trim-forget_all :
    (current : Text) (m : Manager)
    → m.registry ≡ none
    → trim current m ≡ forget_all (excess current m) m
unfolding trim
trim-forget_all current m e = ground (arith, e)

none_forgotten : (es : List Entry) (m : Manager) → length es ≡ 0 → forget_all es m ≡ m
unfolding forget_all
none_forgotten [] m h = refl
none_forgotten (e ∷ es) m h = absurd (omega (arith, h))

-- Whatever the registry is, neither the instance that just ended nor an active one is forgotten.
pub trim-get :
    (current j : Text) (q : RuntimeInstance) (m : Manager)
    → IsSound m
    → get j m.instances ≡ some q
    → ((is_live q ≡ true) ⊎ (current ≡ j))
    → get j (trim current m).instances ≡ some q
trim-get current j q m s h kept =
    trim-cases (λ m'. get j m'.instances ≡ some q) current m h
      (forget_all-get j (excess current m) m (elsewhere kept) ∙ h)
  where
    elsewhere : (is_live q ≡ true) ⊎ (current ≡ j) → All (λ e. e.0 ≢ j) (excess current m)
    elsewhere (inl live) =
        All_mono {A = Entry} (IsEnded m) (λ e. e.0 ≢ j)
          (λ e ended. ended_elsewhere e.0 e.1 m.instances ended.0 ended.1 h live) (excess current m)
          (excess-IsEnded current m s)
    elsewhere (inr same) =
        All_mono {A = Entry} (λ e. e.0 ≢ current) (λ e. e.0 ≢ j) (λ e ne back. ne (back ∙ sym same))
          (excess current m) (excess-other current m)

module _ (current : Text) (r : RuntimeInstance) (m : Manager) (ephemeral : m.registry ≡ none)
    (at : get current m.instances ≡ some r) (over : is_live r ≡ false) (s : IsSound m) where
  -- As an instance ends, a supervisor without a registry forgets so many of the other terminal ones
  -- that no more are left than it retains (one at least). It never forgets the instance that just
  -- ended, nor an active one, and forgets nothing while the limit is kept.
  pub trim_lem :
      (count_where is_terminal (trim current m).instances ≤ max m.retained_instances 1)
      × (get current (trim current m).instances ≡ some r)
      × ((j : Text) (q : RuntimeInstance)
          → get j m.instances ≡ some q
          → is_live q ≡ true
          → get j (trim current m).instances ≡ some q)
      × (count_where is_terminal m.instances ≤ m.retained_instances → trim current m ≡ m)
  trim_lem = rw (trim-forget_all current m ephemeral) (
    omega (
      arith,
      forget_all-count (excess current m) m (excess-IsEnded current m s)
          (excess-OtherKey current m s) s,
      length-excess current m,
      others-length current r m.instances s.unique at over,
    ),
    rw (← trim-forget_all current m ephemeral) (trim-get current current r m s at (inr refl)),
    λ j q h live.
        rw (← trim-forget_all current m ephemeral) (trim-get current j q m s h (inl live)),
    λ within. none_forgotten (excess current m) m (omega (arith, length-excess current m, within)),
  )
