-- ===== src/Prelude/Lists.antt =====
-- Lists over the native numbers, and the set operations of SQL on them: `WHERE`, `IN`,
-- `UPDATE … SET … WHERE`.
use Prim.Native.Nat.{ℕ, suc}
use mathlib.Core.Bool.{Bool, true, false, ◌||◌}
use mathlib.Core.Option.{Option, none, some}
use mathlib.Core.List.{List, [], ◌∷◌}
use issueflow.Prelude.Tests.{◌==◌, if◌then◌else◌}

module _ {ℓ} {A : Type ℓ} where
  abbrev pub length : List A → ℕ
  length [] = 0
  length (x ∷ xs) = suc (length xs)

  abbrev pub is_empty : List A → Bool
  is_empty [] = true
  is_empty (x ∷ xs) = false

  unfoldable pub filter : (A → Bool) → List A → List A
  filter p [] = []
  filter p (x ∷ xs) = let rest = filter p xs in if p x then x ∷ rest else rest

  unfoldable pub find_one : (A → Bool) → List A → Option A
  find_one p [] = none
  find_one p (x ∷ xs) = if p x then some x else find_one p xs

  unfoldable pub any : (A → Bool) → List A → Bool
  any p [] = false
  any p (x ∷ xs) = p x || any p xs

  -- `UPDATE … SET f WHERE p`: the rows that meet `p`, by `f`.
  unfoldable pub update_where : (A → Bool) → (A → A) → List A → List A
  update_where p f [] = []
  update_where p f (x ∷ xs) = (if p x then f x else x) ∷ update_where p f xs

module _ {ℓ κ} {A : Type ℓ} (P : A → Type κ) where
  abbrev pub All : List A → Type κ
  All [] = Unit
  All (x ∷ xs) = P x × All xs

-- `IN (:...ids)`.
unfoldable pub contains : List ℕ → ℕ → Bool
contains [] a = false
contains (x ∷ xs) a = (x == a) || contains xs a
