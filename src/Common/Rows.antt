-- ===== src/Common/Rows.antt =====
-- How the counts of a table change when one row, or every row of a condition, is updated.
use Prim.Native.Nat.{◌+◌, ◌≤◌}
use mathlib.Core.Path.{◌≡◌, refl, ap}
use mathlib.Core.Bool.{Bool, true, false}
use mathlib.Core.Option.{none, some}
use mathlib.Core.List.{List, [], ◌∷◌, ◌++◌, Memᴰ}
use mathlib.Core.Logic.{inl, inr}
use native.Mathlib.Omega.{arith}
use slipway.Common.Tests.{Bool-cases, if◌then◌else◌}
use slipway.Common.Table.{bit, count_where, update_where, find_where}

module _ {ℓ} {A : Type ℓ} where
  pub find_where_sound :
      (p : A → Bool) (xs : List A) {x : A} → find_where p xs ≡ some x → p x ≡ true
  unfolding find_where
  find_where_sound p [] h = cc
  find_where_sound p (y ∷ ys) h = elim (Bool-cases (p y)) [
    | inl e ↦ ground (arith, e, h)
    | inr e ↦ find_where_sound p ys (rw e at h)
  ]

  pub find_where-none : (p : A → Bool) (xs : List A) → find_where p xs ≡ none → count_where p xs ≡ 0
  unfolding find_where count_where
  find_where-none p [] h = refl
  find_where-none p (y ∷ ys) h = ground (arith, find_where-none p ys)

  pub find_where-some :
      (p : A → Bool) (xs : List A) → 1 ≤ count_where p xs → (x : A) × (find_where p xs ≡ some x)
  unfolding find_where count_where
  find_where-some p [] h = absurd (omega arith)
  find_where-some p (y ∷ ys) h = elim (Bool-cases (p y)) [
    | inl e ↦ (y, rw e)
    | inr e ↦ let (x, found) = find_where-some p ys (ground (arith, e, h)) in (x, rw e found)
  ]

  -- A condition that holds of no row does not hold of the row found.
  pub find_where_excluded :
      (p q : A → Bool) (xs : List A) {x : A}
      → find_where p xs ≡ some x
      → count_where q xs ≡ 0
      → q x ≡ false
  unfolding find_where count_where
  find_where_excluded p q [] h z = cc
  find_where_excluded p q (y ∷ ys) h z = elim (Bool-cases (p y)) [
    | inl e ↦ ground (arith, e, h, z)
    | inr e ↦ find_where_excluded p q ys (rw e at h) (omega arith)
  ]

  count_where_within :
      (p q : A → Bool) (xs : List A)
      → ((x : A) → q x ≡ true → p x ≡ true)
      → count_where p xs ≡ 0
      → count_where q xs ≡ 0
  unfolding count_where
  count_where_within p q [] sub z = refl
  count_where_within p q (y ∷ ys) sub z =
      ground (arith, sub y, count_where_within p q ys sub (omega arith))

  -- Where only one row meets `p`, a condition inside `p` that some row meets holds of that row.
  pub only_row :
      (p q : A → Bool) (xs : List A) {x : A}
      → ((y : A) → q y ≡ true → p y ≡ true)
      → find_where p xs ≡ some x
      → count_where p xs ≤ 1
      → 1 ≤ count_where q xs
      → q x ≡ true
  unfolding find_where count_where
  only_row p q [] sub h u c = cc
  only_row p q (y ∷ ys) {x} sub h u c = elim (Bool-cases (p y)) [
    | inl e ↦
        let rest : count_where q ys ≡ 0 = count_where_within p q ys sub (ground (arith, e, u)) in
        ground (arith, e, h, c, rest)
    | inr e ↦ only_row p q ys sub (rw e at h) (ground (arith, e, u)) (ground (arith, e, c, sub y))
  ]

  count_where-mem :
      (p : A → Bool) (xs : List A) {x : A} → Memᴰ x xs → p x ≡ true → 1 ≤ count_where p xs
  unfolding count_where
  count_where-mem p [] m h = elim m [ ]
  count_where-mem p (y ∷ ys) (Memᴰ.head e) h = ground (arith, ap p e)
  count_where-mem p (y ∷ ys) (Memᴰ.tail m) h = omega (arith, count_where-mem p ys m h)

  pub find_where-mem :
      (p : A → Bool) (xs : List A) {x : A}
      → Memᴰ x xs
      → p x ≡ true
      → count_where p xs ≤ 1
      → find_where p xs ≡ some x
  unfolding find_where count_where
  find_where-mem p [] m h u = elim m [ ]
  find_where-mem p (y ∷ ys) (Memᴰ.head e) h u = rw (← e) (rw h)
  find_where-mem p (y ∷ ys) (Memᴰ.tail m) h u =
      ground (arith, count_where-mem p ys m h, find_where-mem p ys m h)

  update_where_unmet :
      (p q : A → Bool) (f : A → A) (xs : List A)
      → count_where p xs ≡ 0
      → count_where q (update_where p f xs) ≡ count_where q xs
  unfolding count_where update_where
  update_where_unmet p q f [] z = refl
  update_where_unmet p q f (y ∷ ys) z = ground (arith, update_where_unmet p q f ys)

  -- An update of one row moves each count by what that row was and what it becomes.
  pub update_one :
      (p q : A → Bool) (f : A → A) (xs : List A) {x : A}
      → find_where p xs ≡ some x
      → count_where p xs ≤ 1
      → count_where q (update_where p f xs) + bit (q x) ≡ count_where q xs + bit (q (f x))
  unfolding find_where count_where update_where
  update_one p q f [] h u = cc
  update_one p q f (y ∷ ys) {x} h u =
      ground (arith, update_where_unmet p q f ys, update_one p q f ys {x = x})

  -- An update that a condition does not see.
  pub update_unseen :
      (p q : A → Bool) (f : A → A) (xs : List A)
      → ((x : A) → q (f x) ≡ q x)
      → count_where q (update_where p f xs) ≡ count_where q xs
  unfolding count_where update_where
  update_unseen p q f [] same = refl
  update_unseen p q f (y ∷ ys) same = ground (arith, same y, update_unseen p q f ys same)

  -- An update after which no row meets the condition.
  pub update_clears :
      (p q : A → Bool) (f : A → A) (xs : List A)
      → ((x : A) → q (if p x then f x else x) ≡ false)
      → count_where q (update_where p f xs) ≡ 0
  unfolding count_where update_where
  update_clears p q f [] clear = refl
  update_clears p q f (y ∷ ys) clear = omega (arith, clear_bit, update_clears p q f ys clear)
    where
      clear_bit : bit (q (if p y then f y else y)) ≡ 0
      clear_bit = rw (clear y)

  -- An update that keeps a condition unmet.
  pub update_keeps :
      (p q : A → Bool) (f : A → A) (xs : List A)
      → ((x : A) → q x ≡ false → q (f x) ≡ false)
      → count_where q xs ≡ 0
      → count_where q (update_where p f xs) ≡ 0
  unfolding count_where update_where
  update_keeps p q f [] keep z = refl
  update_keeps p q f (y ∷ ys) keep z =
      ground (arith, keep y, update_keeps p q f ys keep (omega arith))

module _ {ℓ} {A : Type ℓ} where
  pub find_where_count :
      (p : A → Bool) (xs : List A) {x : A} → find_where p xs ≡ some x → 1 ≤ count_where p xs
  unfolding find_where count_where
  find_where_count p [] h = cc
  find_where_count p (y ∷ ys) {x} h = ground (arith, find_where_count p ys {x = x})

  -- Where `q` picks one row at most and that row meets the narrower `p`, `p` finds it.
  pub find_where_narrow :
      (p q : A → Bool) (xs : List A) {x : A}
      → ((y : A) → p y ≡ true → q y ≡ true)
      → find_where q xs ≡ some x
      → p x ≡ true
      → find_where p xs ≡ some x
  unfolding find_where
  find_where_narrow p q [] sub h e = h
  find_where_narrow p q (y ∷ ys) {x} sub h e =
      ground (arith, sub y, find_where_narrow p q ys {x = x} sub)

  abbrev pub updated : (A → Bool) → (A → A) → A → A
  updated p f x = if p x then f x else x

  -- An update that keeps a key leaves each row where its key finds it.
  pub find_where-update_where :
      (p q : A → Bool) (f : A → A) (xs : List A) {x : A}
      → ((y : A) → q (f y) ≡ q y)
      → find_where q xs ≡ some x
      → find_where q (update_where p f xs) ≡ some (updated p f x)
  unfolding find_where update_where
  find_where-update_where p q f [] same h = cc
  find_where-update_where p q f (y ∷ ys) {x} same h =
      ground (arith, same y, find_where-update_where p q f ys {x = x} same)

  pub find_where-append :
      (q : A → Bool) (xs ys : List A) {x : A}
      → find_where q xs ≡ some x
      → find_where q (xs ++ ys) ≡ some x
  unfolding find_where
  find_where-append q [] ys h = cc
  find_where-append q (y ∷ xs) ys {x} h = ground (arith, find_where-append q xs ys {x = x})

  -- A row of the table that no row of a condition is does not meet it.
  pub unmet_at :
      (q : A → Bool) (xs : List A) {x : A} → Memᴰ x xs → count_where q xs ≡ 0 → q x ≡ false
  unfolding count_where
  unmet_at q [] m z = elim m [ ]
  unmet_at q (y ∷ ys) (Memᴰ.head e) z = ground (arith, ap q e)
  unmet_at q (y ∷ ys) (Memᴰ.tail m) z = unmet_at q ys m (omega arith)

  pub find_where_snoc :
      (q : A → Bool) (xs : List A) (x : A)
      → find_where q xs ≡ none
      → q x ≡ true
      → find_where q (xs ++ x ∷ []) ≡ some x
  unfolding find_where
  find_where_snoc q [] x h e = rw e
  find_where_snoc q (y ∷ xs) x h e = ground (arith, find_where_snoc q xs x)
