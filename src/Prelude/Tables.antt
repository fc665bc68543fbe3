-- ===== src/Prelude/Tables.antt =====
-- A table is the list of its rows, oldest first. There are statements with a WHERE test, as SQL has
-- them, and statements on the row of a primary key, of which there is one at most.
pub mod Laws
pub mod Order
pub mod Keys
use Prim.Native.Nat.{ℕ, ◌+◌}
use Prim.Native.String.{String}
use mathlib.Core.Bool.{Bool}
use mathlib.Core.List.{List, [], ◌∷◌}
use mathlib.Core.Option.{Option, none, some}
use text.Mathlib.Text.{◌==◌}
use model_courier.Prelude.Tests.{leb, if◌then◌else◌}

module _ {ℓ} {A : Type ℓ} where
  -- SELECT ... WHERE, and its first row.
  unfoldable pub select : (A → Bool) → List A → List A
  select p [] = []
  select p (x ∷ xs) = if p x then x ∷ select p xs else select p xs

  unfoldable pub select_one : (A → Bool) → List A → Option A
  select_one p [] = none
  select_one p (x ∷ xs) = if p x then some x else select_one p xs

  -- UPDATE ... WHERE, and the number of rows that it changes.
  unfoldable pub update : (A → Bool) → (A → A) → List A → List A
  update p f [] = []
  update p f (x ∷ xs) = (if p x then f x else x) ∷ update p f xs

  unfoldable pub count : (A → Bool) → List A → ℕ
  count p [] = 0
  count p (x ∷ xs) = (if p x then 1 else 0) + count p xs

  -- DELETE ... WHERE
  unfoldable pub delete : (A → Bool) → List A → List A
  delete p [] = []
  delete p (x ∷ xs) = if p x then delete p xs else x ∷ delete p xs

-- ORDER BY `key` ASC: rows with the same key keep their order.
module _ {ℓ} {A : Type ℓ} (key : A → ℕ) where
  unfoldable pub insert_by : A → List A → List A
  insert_by x [] = x ∷ []
  insert_by x (y ∷ ys) = if leb (key x) (key y) then x ∷ y ∷ ys else y ∷ insert_by x ys

  unfoldable pub order_by : List A → List A
  unfolding insert_by
  order_by [] = []
  order_by (x ∷ xs) = insert_by x (order_by xs)

-- The statements on `WHERE id = k`, for the column that is the primary key.
module _ {ℓ} {A : Type ℓ} (id : A → String) where
  unfoldable pub find : String → List A → Option A
  find k [] = none
  find k (x ∷ xs) = if id x == k then some x else find k xs

  unfoldable pub modify : String → (A → A) → List A → List A
  modify k f [] = []
  modify k f (x ∷ xs) = if id x == k then f x ∷ xs else x ∷ modify k f xs
