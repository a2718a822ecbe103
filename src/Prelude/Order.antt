-- ===== src/Prelude/Order.antt =====
-- `ORDER BY`: insertion sort by a strict comparison, ties in the order of the rows.
pub mod Ranking
use issueflow.Prelude.Tests.{if◌then◌else◌}
use mathlib.Core.Bool.{Bool}
use mathlib.Core.List.{List, [], ◌∷◌}

module _ {A : Type 0} where
  -- `x` goes before the first row that does not come before it.
  unfoldable pub insert_by : (A → A → Bool) → A → List A → List A
  insert_by before x [] = x ∷ []
  insert_by before x (y ∷ ys) =
      let rest = insert_by before x ys in if before y x then y ∷ rest else x ∷ y ∷ ys

  unfoldable pub order_by : (A → A → Bool) → List A → List A
  unfolding insert_by
  order_by before [] = []
  order_by before (x ∷ xs) = insert_by before x (order_by before xs)
