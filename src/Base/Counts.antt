-- ===== src/Base/Counts.antt =====
-- How an update, a deletion or an insertion changes the number of rows that pass a test.
use Prim.Native.Nat.{◌+◌, ◌≤◌}
use mathlib.Core.Path.{◌≡◌, refl}
use mathlib.Core.Bool.{Bool, true, false}
use mathlib.Core.Option.{none, some}
use mathlib.Core.List.{List, [], ◌∷◌, ◌++◌}
use native.Mathlib.Omega.{arith}
use mosaid.Base.Table.{
  bit, count_where, update_where, delete_where, exists_where, first_where, min_where,
}

module _ {ℓ} {A : Type ℓ} where
  pub count_where-append :
      (p : A → Bool) (xs ys : List A)
      → count_where p (xs ++ ys) ≡ count_where p xs + count_where p ys
  count_where-append p [] ys = omega arith
  count_where-append p (x ∷ xs) ys = omega (arith, count_where-append p xs ys)

  -- Where each row adds at most what `s` counts of it, so does the table.
  pub count_where-update_le :
      (p q s : A → Bool) (f : A → A)
      → ((x : A) → q x ≡ true → bit (p (f x)) ≤ bit (p x) + bit (s x))
      → (xs : List A) → count_where p (update_where q f xs) ≤ count_where p xs + count_where s xs
  count_where-update_le p q s f h [] = omega arith
  count_where-update_le p q s f h (x ∷ xs) = ground (arith, h x, count_where-update_le p q s f h xs)

  pub count_where-update_mono :
      (p q : A → Bool) (f : A → A)
      → ((x : A) → q x ≡ true → bit (p (f x)) ≤ bit (p x))
      → (xs : List A) → count_where p (update_where q f xs) ≤ count_where p xs
  count_where-update_mono p q f h [] = omega arith
  count_where-update_mono p q f h (x ∷ xs) = ground (arith, h x, count_where-update_mono p q f h xs)

  pub count_where-update_same :
      (p q : A → Bool) (f : A → A)
      → ((x : A) → q x ≡ true → p (f x) ≡ p x)
      → (xs : List A) → count_where p (update_where q f xs) ≡ count_where p xs
  count_where-update_same p q f h [] = refl
  count_where-update_same p q f h (x ∷ xs) = ground (arith, h x, count_where-update_same p q f h xs)

  -- No row passes after an update that clears each row it takes, if the others do not pass.
  pub count_where-update_zero :
      (p q : A → Bool) (f : A → A)
      → ((x : A) → q x ≡ true → p (f x) ≡ false)
      → ((x : A) → q x ≡ false → p x ≡ false)
      → (xs : List A) → count_where p (update_where q f xs) ≡ 0
  count_where-update_zero p q f h k [] = refl
  count_where-update_zero p q f h k (x ∷ xs) =
      ground (arith, h x, k x, count_where-update_zero p q f h k xs)

  -- Rows that the update takes to passing ones are counted after it.
  pub count_where-update_ge :
      (p q s : A → Bool) (f : A → A)
      → ((x : A) → s x ≡ true → (q x ≡ true) × (p (f x) ≡ true))
      → (xs : List A) → count_where s xs ≤ count_where p (update_where q f xs)
  count_where-update_ge p q s f h [] = omega arith
  count_where-update_ge p q s f h (x ∷ xs) = ground (arith, h x, count_where-update_ge p q s f h xs)

  -- An update that takes the rows that pass `q` to rows that pass `p`, as none of them did before.
  pub count_where-update_join :
      (p q : A → Bool) (f : A → A)
      → ((x : A) → q x ≡ true → (p (f x) ≡ true) × (p x ≡ false))
      → (xs : List A) → count_where p (update_where q f xs) ≡ count_where p xs + count_where q xs
  count_where-update_join p q f h [] = refl
  count_where-update_join p q f h (x ∷ xs) = ground (arith, h x, count_where-update_join p q f h xs)

  pub first_where-passes :
      (p : A → Bool) (xs : List A) (x : A) → first_where p xs ≡ some x → p x ≡ true
  first_where-passes p [] x h = cc
  first_where-passes p (y ∷ xs) x h = ground (arith, first_where-passes p xs x)

  pub count_where-delete_mono :
      (p q : A → Bool) (xs : List A) → count_where p (delete_where q xs) ≤ count_where p xs
  count_where-delete_mono p q [] = omega arith
  count_where-delete_mono p q (x ∷ xs) = ground (arith, count_where-delete_mono p q xs)

  -- Tests that no row passes together count, together, at most what contains both.
  pub count_where-disjoint :
      (p q r : A → Bool)
      → ((x : A) → bit (p x) + bit (q x) ≤ bit (r x))
      → (xs : List A) → count_where p xs + count_where q xs ≤ count_where r xs
  count_where-disjoint p q r h [] = omega arith
  count_where-disjoint p q r h (x ∷ xs) = omega (arith, h x, count_where-disjoint p q r h xs)

  pub count_where_mono :
      (p r : A → Bool)
      → ((x : A) → p x ≡ true → r x ≡ true)
      → (xs : List A) → count_where p xs ≤ count_where r xs
  count_where_mono p r h [] = omega arith
  count_where_mono p r h (x ∷ xs) = ground (arith, h x, count_where_mono p r h xs)

  pub exists_where-count :
      (p : A → Bool) (xs : List A) → exists_where p xs ≡ false → count_where p xs ≡ 0
  exists_where-count p [] h = refl
  exists_where-count p (x ∷ xs) h = ground (arith, exists_where-count p xs)

  pub count_where-exists :
      (p : A → Bool) (xs : List A) → 1 ≤ count_where p xs → exists_where p xs ≡ true
  count_where-exists p [] h = absurd (omega arith)
  count_where-exists p (x ∷ xs) h = ground (arith, count_where-exists p xs)

  -- What `min_where` finds passes its test, and is a row: every test it passes counts it.
  pub min_where-passes :
      (before : A → A → Bool) (p : A → Bool) (xs : List A) (x : A)
      → min_where before p xs ≡ some x
      → p x ≡ true
  min_where-passes before p [] x h = cc
  min_where-passes before p (y ∷ xs) x h = ground (arith, min_where-passes before p xs x)

  pub min_where-counted :
      (before : A → A → Bool) (p s : A → Bool) (xs : List A) (x : A)
      → min_where before p xs ≡ some x
      → s x ≡ true
      → 1 ≤ count_where s xs
  min_where-counted before p s [] x h sx = cc
  min_where-counted before p s (y ∷ xs) x h sx = ground (arith, min_where-counted before p s xs x)

  -- It finds a row as soon as one passes.
  pub min_where-none :
      (before : A → A → Bool) (p : A → Bool) (xs : List A)
      → min_where before p xs ≡ none
      → count_where p xs ≡ 0
  min_where-none before p [] h = refl
  min_where-none before p (y ∷ xs) h = ground (arith, min_where-none before p xs)
