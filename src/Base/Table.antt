-- ===== src/Base/Table.antt =====
-- A database table as the list of its rows, with the statements that the program issues on one:
-- UPDATE, DELETE, SELECT count(*), EXISTS and SELECT ... LIMIT 1, each with its WHERE test.
use Prim.Native.Nat.{ℕ, suc, ◌+◌}
use mathlib.Core.Bool.{Bool, true, false, ◌||◌}
use mathlib.Core.Option.{Option, none, some}
use mathlib.Core.List.{List, [], ◌∷◌}
use mosaid.Base.Tests.{if◌then◌else◌}

abbrev pub bit : Bool → ℕ
bit true = 1
bit false = 0

module _ {ℓ} {A : Type ℓ} where
  abbrev pub length : List A → ℕ
  length [] = 0
  length (x ∷ xs) = suc (length xs)

  -- UPDATE t SET f WHERE p
  abbrev pub update_where : (A → Bool) → (A → A) → List A → List A
  update_where p f [] = []
  update_where p f (x ∷ xs) = (if p x then f x else x) ∷ update_where p f xs

  -- DELETE FROM t WHERE p
  abbrev pub delete_where : (A → Bool) → List A → List A
  delete_where p [] = []
  delete_where p (x ∷ xs) = let rest = delete_where p xs in if p x then rest else x ∷ rest

  -- SELECT count(*) FROM t WHERE p
  abbrev pub count_where : (A → Bool) → List A → ℕ
  count_where p [] = 0
  count_where p (x ∷ xs) = bit (p x) + count_where p xs

  -- EXISTS(SELECT 1 FROM t WHERE p)
  abbrev pub exists_where : (A → Bool) → List A → Bool
  exists_where p [] = false
  exists_where p (x ∷ xs) = p x || exists_where p xs

  -- The first row, in the table's order, that passes the test.
  abbrev pub first_where : (A → Bool) → List A → Option A
  first_where p [] = none
  first_where p (x ∷ xs) = if p x then some x else first_where p xs

  abbrev pub keep_min : (A → A → Bool) → A → Option A → Option A
  keep_min before x none = some x
  keep_min before x (some y) = if before y x then some y else some x

  -- SELECT ... WHERE p ORDER BY ... LIMIT 1, where `before y x` says that y sorts before x: the
  -- least of the rows, and of equals the first.
  abbrev pub min_where : (A → A → Bool) → (A → Bool) → List A → Option A
  min_where before p [] = none
  min_where before p (x ∷ xs) =
      let rest = min_where before p xs in if p x then keep_min before x rest else rest

  abbrev pub insert_by : (A → A → Bool) → A → List A → List A
  insert_by before x [] = x ∷ []
  insert_by before x (y ∷ ys) =
      let rest = insert_by before x ys in if before y x then y ∷ rest else x ∷ y ∷ ys

  -- SELECT ... ORDER BY, where `before y x` says that y sorts before x.
  abbrev pub order_by : (A → A → Bool) → List A → List A
  order_by before [] = []
  order_by before (x ∷ xs) = insert_by before x (order_by before xs)

  -- A predicate of every row.
  abbrev pub All {κ} : (A → Type κ) → List A → Type κ
  All P [] = Unit
  All P (x ∷ xs) = P x × All P xs
