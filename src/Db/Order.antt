-- ===== src/Db/Order.antt =====
-- ORDER BY on a number, ascending or descending; rows with equal keys keep the table's order.
pub mod Descending
use unith_task.Prelude.{ℕ, List, [], ◌∷◌, leb, if◌then◌else◌}

module _ {ℓ} {A : Type ℓ} (key : A → ℕ) where
  insert_by : A → List A → List A
  insert_by x [] = x ∷ []
  insert_by x (y ∷ ys) = if leb (key x) (key y) then x ∷ y ∷ ys else y ∷ insert_by x ys

  unfoldable pub order_by : List A → List A
  unfolding insert_by
  order_by [] = []
  order_by (x ∷ xs) = insert_by x (order_by xs)

  insert_by_desc : A → List A → List A
  insert_by_desc x [] = x ∷ []
  insert_by_desc x (y ∷ ys) = if leb (key y) (key x) then x ∷ y ∷ ys else y ∷ insert_by_desc x ys

  unfoldable pub order_by_desc : List A → List A
  unfolding insert_by_desc
  order_by_desc [] = []
  order_by_desc (x ∷ xs) = insert_by_desc x (order_by_desc xs)
