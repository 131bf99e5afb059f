-- ===== src/Common/Sorting.antt =====
-- `ORDER BY` of a query and `sort.Slice`, as an insertion sort by the test that one entry comes
-- strictly before another.
use mathlib.Core.Bool.{Bool}
use mathlib.Core.List.{List, [], ◌∷◌}
use slipway.Common.Tests.{if◌then◌else◌}

unfoldable pub insert_by {ℓ} : {A : Type ℓ} → (A → A → Bool) → A → List A → List A
insert_by precedes x [] = x ∷ []
insert_by precedes x (y ∷ ys) = if precedes y x then y ∷ insert_by precedes x ys else x ∷ y ∷ ys

unfoldable pub order_by {ℓ} : {A : Type ℓ} → (A → A → Bool) → List A → List A
unfolding insert_by
order_by precedes [] = []
order_by precedes (x ∷ xs) = insert_by precedes x (order_by precedes xs)
