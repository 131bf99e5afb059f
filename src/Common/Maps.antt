-- ===== src/Common/Maps.antt =====
-- A Go map keyed by strings, as the list of its entries. `delete` removes the key wherever it
-- stands, so that the laws need no invariant of the list.
use mathlib.Core.Path.{◌≡◌, refl, sym, ap, ◌∙◌}
use mathlib.Core.Logic.{inl, inr, ◌⊎◌, ◌≢◌}
use mathlib.Core.Bool.{Bool, true, false}
use mathlib.Core.Option.{Option, none, some}
use mathlib.Core.List.{List, [], ◌∷◌}
use native.Mathlib.Omega.{arith}
use slipway.Common.Tests.{if◌then◌else◌, Bool-cases}
use slipway.Common.Lists.{All, All_mono, All_both, Pairwise}
use slipway.Common.Bytes.{Text, text_eq, text_eq_iff}

abbrev pub Dict {ℓ} : Type ℓ → Type ℓ
Dict V = List (Text × V)

pub text_eq_refl : (s : Text) → text_eq s s ≡ true
text_eq_refl s = (text_eq_iff s s).1 refl

pub text_ne : (k j : Text) → k ≢ j → text_eq k j ≡ false
text_ne k j ne = elim (Bool-cases (text_eq k j)) [
  | inl e ↦ absurd (ne ((text_eq_iff k j).0 e))
  | inr e ↦ e
]

abbrev pub is_some {ℓ} : {V : Type ℓ} → Option V → Bool
is_some none = false
is_some (some v) = true

module _ {ℓ} {V : Type ℓ} where
  unfoldable pub get : Text → Dict V → Option V
  get k [] = none
  get k ((j, v) ∷ d) = if text_eq j k then some v else get k d

  -- `_, exists := d[k]`
  unfoldable pub has : Text → Dict V → Bool
  unfolding get
  has k d = is_some (get k d)

  -- `d[k] = v`
  unfoldable pub put : Text → V → Dict V → Dict V
  put k v [] = (k, v) ∷ []
  put k v ((j, w) ∷ d) = if text_eq j k then (k, v) ∷ d else (j, w) ∷ put k v d

  -- `delete(d, k)`
  unfoldable pub delete : Text → Dict V → Dict V
  delete k [] = []
  delete k ((j, w) ∷ d) = let rest = delete k d in if text_eq j k then rest else (j, w) ∷ rest

  pub get-put :
      (k j : Text) (v : V) (d : Dict V)
      → get j (put k v d) ≡ (if text_eq k j then some v else get j d)
  unfolding get put
  get-put k j v [] = refl
  get-put k j v ((i, w) ∷ d) =
      ground (arith, text_eq_iff k j, text_eq_iff i k, text_eq_iff i j, get-put k j v d)

  pub get-delete :
      (k j : Text) (d : Dict V) → get j (delete k d) ≡ (if text_eq k j then none else get j d)
  unfolding get delete
  get-delete k j [] = ground arith
  get-delete k j ((i, w) ∷ d) =
      ground (arith, text_eq_iff k j, text_eq_iff i k, text_eq_iff i j, get-delete k j d)

  pub get-put_self : (k : Text) (v : V) (d : Dict V) → get k (put k v d) ≡ some v
  get-put_self k v d = simp (get-put, text_eq_refl)

  pub has-get : (k : Text) (d : Dict V) → has k d ≡ false → get k d ≡ none
  unfolding has
  has-get k d h = ground arith

  -- What a lookup says of a map that was written, and of one that was deleted from.
  pub get-put-eq-some :
      (k j : Text) (v : V) (d : Dict V) {w : V}
      → get j (put k v d) ≡ some w
      → ((k ≡ j) × (v ≡ w)) ⊎ ((k ≢ j) × (get j d ≡ some w))
  get-put-eq-some k j v d {w} h = elim (Bool-cases (text_eq k j)) [
    | inl e ↦
        let same : some v ≡ some w = rw (get-put k j v d, e) at h in inl ((text_eq_iff k j).0 e, cc)
    | inr e ↦ inr (differ e, rw (get-put k j v d, e) at h)
  ]
    where
      differ : text_eq k j ≡ false → k ≢ j
      differ e same = cc ((text_eq_iff k j).1 same)

  pub get-delete-eq-some :
      (k j : Text) (d : Dict V) {w : V} → get j (delete k d) ≡ some w → (k ≢ j) × (get j d ≡ some w)
  get-delete-eq-some k j d {w} h = elim (Bool-cases (text_eq k j)) [
    | inl e ↦ let absent : none ≡ some w = rw (get-delete k j d, e) at h in absurd (cc)
    | inr e ↦ (differ e, rw (get-delete k j d, e) at h)
  ]
    where
      differ : text_eq k j ≡ false → k ≢ j
      differ e same = cc ((text_eq_iff k j).1 same)

  -- A write of what stands there changes nothing.
  pub put_same : (k : Text) (v : V) (d : Dict V) → get k d ≡ some v → put k v d ≡ d
  unfolding get put
  put_same k v [] h = absurd (cc)
  put_same k v ((j, w) ∷ d) h = elim (Bool-cases (text_eq j k)) [
    | inl e ↦
        let found : some w ≡ some v = rw e at h in
        let key = (text_eq_iff j k).0 e in rw e (cc (found, key))
    | inr e ↦ rw e (ap (λ x. (j, w) ∷ x) (put_same k v d (rw e at h)))
  ]

  pub get-put_ne : (k j : Text) (v : V) (d : Dict V) → k ≢ j → get j (put k v d) ≡ get j d
  get-put_ne k j v d ne = rw (get-put k j v d, text_ne k j ne)

  pub get-delete_ne : (k j : Text) (d : Dict V) → k ≢ j → get j (delete k d) ≡ get j d
  get-delete_ne k j d ne = rw (get-delete k j d, text_ne k j ne)

  pub get-delete_self : (k : Text) (d : Dict V) → get k (delete k d) ≡ none
  get-delete_self k d = rw (get-delete k k d, text_eq_refl k)

  -- The entry of a key has a property.
  abbrev pub HasEntry {κ} : (V → Type κ) → Text → Dict V → Type (ℓ ⊔ κ)
  HasEntry P k d = (v : V) × (get k d ≡ some v) × P v

  -- What holds of the entry written and of the others holds of all.
  pub put_all {κ} :
      (P : Text → V → Type κ) (k : Text) (v : V) (d : Dict V)
      → P k v
      → ((j : Text) (w : V) → k ≢ j → get j d ≡ some w → P j w)
      → (j : Text) (w : V) → get j (put k v d) ≡ some w
      → P j w
  put_all P k v d here there j w h = elim (get-put-eq-some k j v d h) [
    | inl (e, f) ↦ rw (← e, ← f) here
    | inr (ne, h') ↦ there j w ne h'
  ]

  -- A write of an entry that keeps its property keeps what is known of an entry.
  pub put-HasEntry {κ} :
      (P : V → Type κ) (k j : Text) (v w : V) (d : Dict V)
      → get k d ≡ some v
      → (P v → P w)
      → HasEntry P j d
      → HasEntry P j (put k w d)
  put-HasEntry P k j v w d at keep (q, h, p) = elim (Bool-cases (text_eq k j)) [
    | inl e ↦
        let same : k ≡ j = (text_eq_iff k j).0 e in
        let found : some v ≡ some q = sym at ∙ ap (λ i. get i d) same ∙ h in
        let was : v ≡ q = cc in (w, rw (← same) (get-put_self k w d), keep (rw was p))
    | inr e ↦ (q, rw (get-put k j w d, e) h, p)
  ]

-- No key stands twice.
abbrev pub IsMap {ℓ} : {V : Type ℓ} → Dict V → Type 0
IsMap d = Pairwise (λ e f. e.0 ≢ f.0) d

module _ {ℓ} {V : Type ℓ} where
  All-put :
      (k j : Text) (v : V) (d : Dict V)
      → j ≢ k
      → All (λ e. j ≢ e.0) d
      → All (λ e. j ≢ e.0) (put k v d)
  unfolding put
  All-put k j v [] ne h = (ne, tt)
  All-put k j v ((i, w) ∷ d) ne h = elim (Bool-cases (text_eq i k)) [
    | inl e ↦ rw e (ne, h.1)
    | inr e ↦ rw e (h.0, All-put k j v d ne h.1)
  ]

  pub put-IsMap : (k : Text) (v : V) (d : Dict V) → IsMap d → IsMap (put k v d)
  unfolding put
  put-IsMap k v [] h = (tt, tt)
  put-IsMap k v ((i, w) ∷ d) h = elim (Bool-cases (text_eq i k)) [
    | inl e ↦ rw e (rw (← (text_eq_iff i k).0 e) (h.0, h.1))
    | inr e ↦
        rw e (All-put k i v d (λ same. cc (e, (text_eq_iff i k).1 same)) h.0, put-IsMap k v d h.1)
  ]

  All-delete : (k j : Text) (d : Dict V) → All (λ e. j ≢ e.0) d → All (λ e. j ≢ e.0) (delete k d)
  unfolding delete
  All-delete k j [] h = tt
  All-delete k j ((i, w) ∷ d) h = elim (Bool-cases (text_eq i k)) [
    | inl e ↦ rw e (All-delete k j d h.1)
    | inr e ↦ rw e (h.0, All-delete k j d h.1)
  ]

  pub delete-IsMap : (k : Text) (d : Dict V) → IsMap d → IsMap (delete k d)
  unfolding delete
  delete-IsMap k [] h = tt
  delete-IsMap k ((i, w) ∷ d) h = elim (Bool-cases (text_eq i k)) [
    | inl e ↦ rw e (delete-IsMap k d h.1)
    | inr e ↦ rw e (All-delete k i d h.0, delete-IsMap k d h.1)
  ]

  -- Each entry of a map is what its key finds.
  pub entries_found : (d : Dict V) → IsMap d → All (λ e. get e.0 d ≡ some e.1) d
  unfolding get
  entries_found [] h = tt
  entries_found ((k, v) ∷ d) h = (
    rw (text_eq_refl k) refl,
    All_mono {A = Text × V} (λ e. (k ≢ e.0) × (get e.0 d ≡ some e.1))
        (λ e. get e.0 ((k, v) ∷ d) ≡ some e.1) (λ e h'. rw (text_ne k e.0 h'.0) h'.1) d
        (All_both {A = Text × V} (λ e. k ≢ e.0) (λ e. get e.0 d ≡ some e.1) d h.0
          (entries_found d h.1)),
  )

-- What holds of every entry holds of the one that a key finds.
pub All-get {ℓ κ} :
    {V : Type ℓ} (P : Text × V → Type κ) (k : Text) (d : Dict V) {v : V}
    → All P d
    → get k d ≡ some v
    → P (k, v)
unfolding get
All-get P k [] h found = absurd (cc)
All-get P k ((j, w) ∷ d) {v} h found = elim (Bool-cases (text_eq j k)) [
  | inl e ↦
      let same : some w ≡ some v = rw e at found in
      let at : w ≡ v = cc in rw (← (text_eq_iff j k).0 e, ← at) h.0
  | inr e ↦ All-get P k d h.1 (rw e at found)
]

-- No entry is left where a key finds none.
pub get-none {ℓ} : {V : Type ℓ} (k : Text) (d : Dict V) → get k d ≡ none → All (λ e. k ≢ e.0) d
unfolding get
get-none k [] h = tt
get-none k ((j, w) ∷ d) h = elim (Bool-cases (text_eq j k)) [
  | inl e ↦ absurd (cc (rw e at h))
  | inr e ↦ (λ same. cc (e, (text_eq_iff j k).1 (sym same)), get-none k d (rw e at h))
]

-- Every value of a map is changed.
module _ {ℓ} {V : Type ℓ} (f : V → V) where
  pub map_values : Dict V → Dict V
  map_values [] = []
  map_values ((k, v) ∷ d) = (k, f v) ∷ map_values d

  pub get-map_values-eq-some :
      (k : Text) (d : Dict V) {w : V}
      → get k (map_values d) ≡ some w
      → (v : V) × (get k d ≡ some v) × (w ≡ f v)
  unfolding get map_values
  get-map_values-eq-some k [] h = cc
  get-map_values-eq-some k ((j, v) ∷ d) {w} h = elim (Bool-cases (text_eq j k)) [
    | inl e ↦ let found : some (f v) ≡ some w = rw e at h in (v, rw e refl, cc)
    | inr e ↦ let (v', h', same) = get-map_values-eq-some k d (rw e at h) in (v', rw e h', same)
  ]

  pub get-map_values :
      (k : Text) (d : Dict V) {v : V} → get k d ≡ some v → get k (map_values d) ≡ some (f v)
  unfolding get map_values
  get-map_values k [] h = cc
  get-map_values k ((j, w) ∷ d) h = elim (Bool-cases (text_eq j k)) [
    | inl e ↦ rw e (cc (rw e at h))
    | inr e ↦ rw e (get-map_values k d (rw e at h))
  ]

  pub get-map_values-none : (k : Text) (d : Dict V) → get k d ≡ none → get k (map_values d) ≡ none
  unfolding get map_values
  get-map_values-none k [] h = refl
  get-map_values-none k ((j, w) ∷ d) h = elim (Bool-cases (text_eq j k)) [
    | inl e ↦ absurd (cc (rw e at h))
    | inr e ↦ rw e (get-map_values-none k d (rw e at h))
  ]

  All-map_values :
      (j : Text) (d : Dict V) → All (λ e. j ≢ e.0) d → All (λ e. j ≢ e.0) (map_values d)
  unfolding map_values
  All-map_values j [] h = tt
  All-map_values j ((k, v) ∷ d) h = (h.0, All-map_values j d h.1)

  pub map_values-IsMap : (d : Dict V) → IsMap d → IsMap (map_values d)
  unfolding map_values
  map_values-IsMap [] h = tt
  map_values-IsMap ((k, v) ∷ d) h = (All-map_values k d h.0, map_values-IsMap d h.1)
