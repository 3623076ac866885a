-- ===== src/Base/Find.antt =====
-- The first row that passes a test, through the statements that change a table.
use Prim.Native.Nat.{◌≤◌}
use mathlib.Core.Path.{◌≡◌, ◌∙◌, sym, subst, refl}
use mathlib.Core.Logic.{inl, inr}
use mathlib.Core.Bool.{Bool, true}
use mathlib.Core.Option.{none, some}
use mathlib.Core.List.{List, [], ◌∷◌, ◌++◌}
use native.Mathlib.Omega.{arith}
use mosaid.Base.Tests.{Bool-cases, if◌then◌else◌}
use mosaid.Base.Table.{update_where, count_where, first_where}

module _ {ℓ} {A : Type ℓ} where
  pub first_where-append :
      (p : A → Bool) (xs ys : List A) (x : A)
      → first_where p xs ≡ some x
      → first_where p (xs ++ ys) ≡ some x
  first_where-append p [] ys x h = cc
  first_where-append p (y ∷ xs) ys x h = ground (arith, first_where-append p xs ys x)

  -- An update that keeps the test finds the same row, changed where it is taken.
  pub first_where-update :
      (p q : A → Bool) (f : A → A)
      → ((x : A) → p (f x) ≡ p x)
      → (xs : List A) (x : A) → first_where p xs ≡ some x
      → first_where p (update_where q f xs) ≡ some (if q x then f x else x)
  first_where-update p q f k [] x h = cc
  first_where-update p q f k (y ∷ xs) x h = elim (Bool-cases (p y)) [
    | inl e ↦
        let same : y ≡ x = ground arith in
        subst (λ z. first_where p (update_where q f (y ∷ xs)) ≡ some (if q z then f z else z)) same
          (ground (arith, k y))
    | inr e ↦ ground (arith, k y, first_where-update p q f k xs x)
  ]

  pub first_where-counted :
      (p s : A → Bool) (xs : List A) (x : A)
      → first_where p xs ≡ some x
      → s x ≡ true
      → 1 ≤ count_where s xs
  first_where-counted p s [] x h sx = cc
  first_where-counted p s (y ∷ xs) x h sx = elim (Bool-cases (p y)) [
    | inl e ↦ let same : y ≡ x = ground arith in let sy : s y ≡ true = rw same sx in ground arith
    | inr e ↦ let rest = first_where-counted p s xs x (rw e at h) sx in omega (arith, rest)
  ]

  -- Two rows that pass one test are the same row, if at most one row passes it.
  pub first_where_unique :
      (p q s : A → Bool) (xs : List A) (x y : A)
      → count_where s xs ≤ 1
      → first_where p xs ≡ some x
      → first_where q xs ≡ some y
      → s x ≡ true
      → s y ≡ true
      → x ≡ y
  first_where_unique p q s [] x y u hx hy sx sy = cc
  first_where_unique p q s (z ∷ xs) x y u hx hy sx sy = elim (Bool-cases (p z)) [
    | inl a ↦
        let l : z ≡ x = ground arith in
        let sz : s z ≡ true = rw l sx in
        elim (Bool-cases (q z)) [
          | inl b ↦ let r : z ≡ y = ground arith in sym l ∙ r
          | inr b ↦
              let more = first_where-counted q s xs y (rw b at hy) sy in
              absurd (ground (arith, more))
        ]
    | inr a ↦ elim (Bool-cases (q z)) [
      | inl b ↦
          let r : z ≡ y = ground arith in
          let sz : s z ≡ true = rw r sy in
          let more = first_where-counted p s xs x (rw a at hx) sx in absurd (ground (arith, more))
      | inr b ↦ first_where_unique p q s xs x y (omega arith) (rw a at hx) (rw b at hy) sx sy
    ]
  ]

  pub first_where-update_none :
      (p q : A → Bool) (f : A → A)
      → ((x : A) → p (f x) ≡ p x)
      → (xs : List A) → first_where p xs ≡ none
      → first_where p (update_where q f xs) ≡ none
  first_where-update_none p q f k [] h = refl
  first_where-update_none p q f k (x ∷ xs) h = elim (Bool-cases (q x)) [
    | inl e ↦ ground (arith, k x, first_where-update_none p q f k xs)
    | inr e ↦ ground (arith, first_where-update_none p q f k xs)
  ]

  pub first_where-last :
      (p : A → Bool) (xs : List A) (x : A)
      → first_where p xs ≡ none
      → first_where p (xs ++ x ∷ []) ≡ (if p x then some x else none)
  first_where-last p [] x h = refl
  first_where-last p (y ∷ xs) x h = ground (arith, first_where-last p xs x)
