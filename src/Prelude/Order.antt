-- ===== src/Prelude/Order.antt =====
-- Sorting a result set by a key, as ORDER BY does: insertion into a list that is in order.
pub mod Laws
use mathlib.Core.Bool.{Bool}
use mathlib.Core.List.{List, [], ◌∷◌}
use llm_inference_logger.Prelude.Tests.{if◌then◌else◌}

-- `before x y` says that `x` comes strictly before `y`. Rows that compare equal keep their order.
module _ {ℓ} {A : Type ℓ} (before : A → A → Bool) where
  unfoldable pub insert_sorted : A → List A → List A
  insert_sorted x [] = x ∷ []
  insert_sorted x (y ∷ ys) = if before y x then y ∷ insert_sorted x ys else x ∷ y ∷ ys

  unfoldable pub order_by : List A → List A
  order_by [] = []
  order_by (x ∷ xs) = insert_sorted x (order_by xs)
