-- ===== src/Common/Selections.antt =====
-- What a filter, a sort and a prefix keep of a predicate and of a relation between entries.
use Prim.Native.Nat.{ℕ, zero, suc}
use mathlib.Core.Bool.{Bool}
use mathlib.Core.List.{List, [], ◌∷◌}
use mathlib.Core.Logic.{inl, inr}
use slipway.Common.Tests.{Bool-cases}
use slipway.Common.Lists.{All, Pairwise, take}
use slipway.Common.Table.{filter_where}
use slipway.Common.Sorting.{insert_by, order_by}

module _ {ℓ κ} {A : Type ℓ} (P : A → Type κ) where
  pub All-filter_where : (t : A → Bool) (xs : List A) → All P xs → All P (filter_where t xs)
  unfolding filter_where
  All-filter_where t [] h = tt
  All-filter_where t (x ∷ xs) h = elim (Bool-cases (t x)) [
    | inl e ↦ rw e (h.0, All-filter_where t xs h.1)
    | inr e ↦ rw e (All-filter_where t xs h.1)
  ]

  All-insert_by :
      (before : A → A → Bool) (x : A) (ys : List A) → P x → All P ys → All P (insert_by before x ys)
  unfolding insert_by
  All-insert_by before x [] p h = (p, tt)
  All-insert_by before x (y ∷ ys) p h = elim (Bool-cases (before y x)) [
    | inl e ↦ rw e (h.0, All-insert_by before x ys p h.1)
    | inr e ↦ rw e (p, (h.0, h.1))
  ]

  pub All-order_by : (before : A → A → Bool) (xs : List A) → All P xs → All P (order_by before xs)
  unfolding order_by
  All-order_by before [] h = tt
  All-order_by before (x ∷ xs) h =
      All-insert_by before x (order_by before xs) h.0 (All-order_by before xs h.1)

  All-insert_by_inv :
      (before : A → A → Bool) (x : A) (ys : List A) → All P (insert_by before x ys) → P x × All P ys
  unfolding insert_by
  All-insert_by_inv before x [] h = (h.0, tt)
  All-insert_by_inv before x (y ∷ ys) h = elim (Bool-cases (before y x)) [
    | inl e ↦
        let h' : P y × All P (insert_by before x ys) = rw e at h in
        let (p, rest) = All-insert_by_inv before x ys h'.1 in (p, (h'.0, rest))
    | inr e ↦ rw e at h
  ]

  -- A sort loses no entry.
  pub All-order_by_inv :
      (before : A → A → Bool) (xs : List A) → All P (order_by before xs) → All P xs
  unfolding order_by
  All-order_by_inv before [] h = tt
  All-order_by_inv before (x ∷ xs) h =
      let (p, rest) = All-insert_by_inv before x (order_by before xs) h in
      (p, All-order_by_inv before xs rest)

  pub All-take : (n : ℕ) (xs : List A) → All P xs → All P (take n xs)
  All-take zero xs h = tt
  All-take (suc n) [] h = tt
  All-take (suc n) (x ∷ xs) h = (h.0, All-take n xs h.1)

module _ {ℓ κ} {A : Type ℓ} (R : A → A → Type κ) where
  pub Pairwise-filter_where :
      (t : A → Bool) (xs : List A) → Pairwise R xs → Pairwise R (filter_where t xs)
  unfolding filter_where
  Pairwise-filter_where t [] h = tt
  Pairwise-filter_where t (x ∷ xs) h = elim (Bool-cases (t x)) [
    | inl e ↦ rw e (All-filter_where (R x) t xs h.0, Pairwise-filter_where t xs h.1)
    | inr e ↦ rw e (Pairwise-filter_where t xs h.1)
  ]

  Pairwise-insert_by :
      (symmetric : (x y : A) → R x y → R y x) (before : A → A → Bool) (x : A) (ys : List A)
      → All (R x) ys
      → Pairwise R ys
      → Pairwise R (insert_by before x ys)
  unfolding insert_by
  Pairwise-insert_by symmetric before x [] h k = (tt, tt)
  Pairwise-insert_by symmetric before x (y ∷ ys) h k = elim (Bool-cases (before y x)) [
    | inl e ↦ rw e (
      All-insert_by (R y) before x ys (symmetric x y h.0) k.0,
      Pairwise-insert_by symmetric before x ys h.1 k.1,
    )
    | inr e ↦ rw e (h, k)
  ]

  pub Pairwise-order_by :
      (symmetric : (x y : A) → R x y → R y x) (before : A → A → Bool) (xs : List A)
      → Pairwise R xs
      → Pairwise R (order_by before xs)
  unfolding order_by
  Pairwise-order_by symmetric before [] h = tt
  Pairwise-order_by symmetric before (x ∷ xs) h =
      Pairwise-insert_by symmetric before x (order_by before xs) (All-order_by (R x) before xs h.0)
        (Pairwise-order_by symmetric before xs h.1)

  pub Pairwise-take : (n : ℕ) (xs : List A) → Pairwise R xs → Pairwise R (take n xs)
  Pairwise-take zero xs h = tt
  Pairwise-take (suc n) [] h = tt
  Pairwise-take (suc n) (x ∷ xs) h = (All-take (R x) n xs h.0, Pairwise-take n xs h.1)
