-- ===== src/Common/Table.antt =====
-- A database table as the list of its rows in insertion order. `update_where` and `count_where`
-- are `UPDATE … WHERE` and the number of rows that a condition selects.
use Prim.Native.Nat.{ℕ, ◌+◌, ◌≤◌}
use mathlib.Core.Path.{◌≡◌, refl}
use mathlib.Core.Logic.{inl, inr}
use mathlib.Core.Bool.{Bool, true, false}
use mathlib.Core.Option.{Option, none, some}
use mathlib.Core.List.{List, [], ◌∷◌, ◌++◌}
use native.Mathlib.Omega.{arith}
use slipway.Common.Tests.{if◌then◌else◌, Bool-cases}

abbrev pub bit : Bool → ℕ
bit true = 1
bit false = 0

module _ {ℓ} {A : Type ℓ} where
  unfoldable pub count_where : (A → Bool) → List A → ℕ
  count_where p [] = 0
  count_where p (x ∷ xs) = bit (p x) + count_where p xs

  unfoldable pub update_where : (A → Bool) → (A → A) → List A → List A
  update_where p f [] = []
  update_where p f (x ∷ xs) = (if p x then f x else x) ∷ update_where p f xs

  unfoldable pub filter_where : (A → Bool) → List A → List A
  filter_where p [] = []
  filter_where p (x ∷ xs) = let rest = filter_where p xs in if p x then x ∷ rest else rest

  -- The first row that the condition selects.
  unfoldable pub find_where : (A → Bool) → List A → Option A
  find_where p [] = none
  find_where p (x ∷ xs) = if p x then some x else find_where p xs

  pub count_where-append :
      (p : A → Bool) (xs ys : List A)
      → count_where p (xs ++ ys) ≡ count_where p xs + count_where p ys
  unfolding count_where
  count_where-append p [] ys = omega arith
  count_where-append p (x ∷ xs) ys = omega (arith, count_where-append p xs ys)

  pub count_where-update_where :
      (p q : A → Bool) (f : A → A) (xs : List A)
      → count_where q (update_where p f xs) ≡ count_where (λ x. if p x then q (f x) else q x) xs
  unfolding count_where update_where
  count_where-update_where p q f [] = refl
  count_where-update_where p q f (x ∷ xs) = elim (Bool-cases (p x)) [
    | inl e ↦ rw e (omega (arith, count_where-update_where p q f xs))
    | inr e ↦ rw e (omega (arith, count_where-update_where p q f xs))
  ]

  -- Conditions that add up row by row add up over the table.
  pub count_where_add :
      (p q r : A → Bool)
      → ((x : A) → bit (p x) + bit (q x) ≡ bit (r x))
      → (xs : List A) → count_where p xs + count_where q xs ≡ count_where r xs
  unfolding count_where
  count_where_add p q r h [] = refl
  count_where_add p q r h (x ∷ xs) = omega (arith, h x, count_where_add p q r h xs)

  pub count_where_eq :
      (p q : A → Bool) → ((x : A) → p x ≡ q x) → (xs : List A) → count_where p xs ≡ count_where q xs
  unfolding count_where
  count_where_eq p q h [] = refl
  count_where_eq p q h (x ∷ xs) = rw (h x, count_where_eq p q h xs)

  pub count_where_mono :
      (p q : A → Bool)
      → ((x : A) → bit (p x) ≤ bit (q x))
      → (xs : List A) → count_where p xs ≤ count_where q xs
  unfolding count_where
  count_where_mono p q h [] = omega arith
  count_where_mono p q h (x ∷ xs) = omega (arith, h x, count_where_mono p q h xs)

  pub count_where_snoc :
      (p : A → Bool) (xs : List A) (x : A)
      → count_where p (xs ++ x ∷ []) ≡ count_where p xs + bit (p x)
  unfolding count_where
  count_where_snoc p [] x = omega arith
  count_where_snoc p (y ∷ ys) x = omega (arith, count_where_snoc p ys x)
