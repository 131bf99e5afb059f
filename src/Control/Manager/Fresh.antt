-- ===== src/Control/Manager/Fresh.antt =====
-- internal/control/manager.go: the unbounded loop of `availableNameLocked` ends, and what it and
-- `availableIDLocked` find is not in use.
use slipway.Common.{
  ℕ, zero, suc, ◌+◌, ◌≤◌, ◌<◌, ◌≡◌, ◌≢◌, refl, ap, sym, Text, text_eq, text_eq_iff, true, false,
  ◌||◌, Dict, get, has, length-append, ◌∙◌, decimal, read_digits, read_digits-decimal, ltb, codes,
  lt→ltb, some, List, [], ◌∷◌, ◌++◌, length, inl, inr, arith, Bool-cases, if◌then◌else◌,
}
use slipway.Control.Manager.Types.{Manager}
use slipway.Control.Manager.Start.{name_fuel}
use slipway.Control.Manager.Names.{Reserved, contains, is_taken, suffixed, available_name}

-- A set without one string, wherever it stands.
without : Text → List Text → List Text
without k [] = []
without k (j ∷ js) = let rest = without k js in if text_eq j k then rest else j ∷ rest

length-without : (k : Text) (js : List Text) → length (without k js) ≤ length js
unfolding without
length-without k [] = omega arith
length-without k (j ∷ js) = ground (arith, length-without k js)

length-without_lt :
    (k : Text) (js : List Text) → contains k js ≡ true → length (without k js) < length js
unfolding without contains
length-without_lt k [] h = cc
length-without_lt k (j ∷ js) h = ground (arith, length-without k js, length-without_lt k js)

contains-without :
    (k l : Text) (js : List Text) → k ≢ l → contains l js ≡ true → contains l (without k js) ≡ true
unfolding without contains
contains-without k l [] ne h = cc
contains-without k l (j ∷ js) ne h =
    ground (arith, contains-without k l js ne, text_eq_iff j k, text_eq_iff j l)

contains-append :
    (k : Text) (xs ys : List Text) → contains k (xs ++ ys) ≡ (contains k xs || contains k ys)
unfolding contains
contains-append k [] ys = refl
contains-append k (x ∷ xs) ys = ground (arith, contains-append k xs ys)

abbrev keys {ℓ} : {V : Type ℓ} → Dict V → List Text
keys [] = []
keys ((k, v) ∷ d) = k ∷ keys d

contains-keys {ℓ} : {V : Type ℓ} (k : Text) (d : Dict V) → contains k (keys d) ≡ has k d
unfolding contains has get
contains-keys k [] = refl
contains-keys k ((j, v) ∷ d) = ground (arith, contains-keys k d)

length-keys {ℓ} : {V : Type ℓ} (d : Dict V) → length (keys d) ≡ length d
length-keys [] = refl
length-keys ((j, v) ∷ d) = omega (arith, length-keys d)

-- All that is in use.
abbrev in_use : Manager → Reserved → List Text
in_use m r = keys m.names ++ keys m.instances ++ r.names ++ r.ids

contains-in_use : (m : Manager) (r : Reserved) (k : Text) → contains k (in_use m r) ≡ is_taken m r k
unfolding is_taken
contains-in_use m r k = simp (contains-append, contains-keys)

length-in_use :
    (m : Manager) (r : Reserved)
    → length (in_use m r) ≡ length m.names + length m.instances + length r.names + length r.ids
length-in_use m r = simp (length-append, length-keys)

append-cancel : (xs : Text) {ys zs : Text} → xs ++ ys ≡ xs ++ zs → ys ≡ zs
append-cancel [] h = h
append-cancel (x ∷ xs) h = append-cancel xs (cc)

decimal_injective : (i j : ℕ) → decimal i ≡ decimal j → i ≡ j
decimal_injective i j h = sym (read_digits-decimal i) ∙ ap (read_digits 0) h ∙ read_digits-decimal j

-- Different suffixes make different names.
suffixed_injective : (base : Text) (i j : ℕ) → 1 ≤ i → i < j → suffixed base j ≢ suffixed base i
unfolding suffixed
suffixed_injective base i j p lt h = elim (Bool-cases (ltb 1 i)) [
  | inl e ↦
      let same = append-cancel (base ++ codes "-") (rw (lt→ltb 1 j (omega arith), e) at h) in
      absurd (omega (arith, decimal_injective j i same))
  | inr e ↦
      let same : (base ++ codes "-") ++ decimal j ≡ base = rw (lt→ltb 1 j (omega arith), e) at h in
      absurd (
        omega (
          arith,
          ap length same,
          length-append (base ++ codes "-") (decimal j),
          length-append base (codes "-"),
        ))
]

module _ (fuel : ℕ) (m : Manager) (r : Reserved) (base : Text) (suffix : ℕ) where
  taken_step :
      is_taken m r (suffixed base suffix) ≡ true
      → available_name (suc fuel) m r base suffix ≡ available_name fuel m r base (suffix + 1)
  unfolding available_name
  taken_step e = rw (e, available_name)

  free_step :
      is_taken m r (suffixed base suffix) ≡ false
      → available_name (suc fuel) m r base suffix ≡ some (suffixed base suffix)
  unfolding available_name
  free_step e = rw (e, available_name)

-- While the taken names from a suffix on lie in a set that is smaller than the fuel, the loop ends.
loop-ends :
    (fuel : ℕ) (m : Manager) (r : Reserved) (base : Text) (suffix : ℕ) (js : List Text)
    → 1 ≤ suffix
    → length js < fuel
    → ((i : ℕ)
        → suffix ≤ i
        → is_taken m r (suffixed base i) ≡ true
        → contains (suffixed base i) js ≡ true)
    → (name : Text) × (available_name fuel m r base suffix ≡ some name)
      × (is_taken m r name ≡ false)
loop-ends zero m r base suffix js p h within = absurd (omega arith)
loop-ends (suc fuel) m r base suffix js p h within =
    elim (Bool-cases (is_taken m r (suffixed base suffix))) [
      | inr e ↦ (suffixed base suffix, free_step fuel m r base suffix e, e)
      | inl e ↦
          let smaller =
            length-without_lt (suffixed base suffix) js (within suffix (omega arith) e) in
          let (name, found, free) =
            loop-ends fuel m r base (suffix + 1) (without (suffixed base suffix) js) (omega arith)
              (omega (arith, smaller))
              λ i le taken.
                contains-without (suffixed base suffix) (suffixed base i) js
                  (λ same. suffixed_injective base suffix i p (omega arith) (sym same))
                  (within i (omega arith) taken) in
          (name, taken_step fuel m r base suffix e ∙ found, free)
    ]

-- The loop that looks for a free name has no bound in the code. As many passes as there are names
-- and ids in use or handed out, and one more, are always enough, and the name that it finds is none
-- of them.
pub available_name_total :
    (m : Manager) (r : Reserved) (base : Text)
    → (name : Text) × (available_name (name_fuel m r) m r base 1 ≡ some name)
      × (is_taken m r name ≡ false)
available_name_total m r base =
    loop-ends (name_fuel m r) m r base 1 (in_use m r) (omega arith)
      (omega (arith, length-in_use m r)) λ i le taken. contains-in_use m r (suffixed base i) ∙ taken
