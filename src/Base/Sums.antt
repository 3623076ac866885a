-- ===== src/Base/Sums.antt =====
-- Sums over the rows of a table, through the update of one row, and the one row that passes a test.
use Prim.Native.Nat.{ℕ, ◌+◌, ◌≤◌}
use mathlib.Core.Path.{◌≡◌, refl, subst}
use mathlib.Core.Logic.{◌⊎◌, inl, inr}
use mathlib.Core.Bool.{Bool, true}
use mathlib.Core.Option.{Option, none, some}
use mathlib.Core.List.{List, [], ◌∷◌}
use native.Mathlib.Omega.{arith}
use mosaid.Base.Tests.{Bool-cases}
use mosaid.Base.Table.{update_where, count_where, first_where, min_where, keep_min}
use mosaid.Base.Find.{first_where-counted}

module _ {ℓ} {A : Type ℓ} where
  abbrev pub sum_of : (A → ℕ) → List A → ℕ
  sum_of w [] = 0
  sum_of w (x ∷ xs) = w x + sum_of w xs

  sum_of-update_none :
      (w : A → ℕ) (q : A → Bool) (f : A → A) (xs : List A)
      → count_where q xs ≡ 0
      → sum_of w (update_where q f xs) ≡ sum_of w xs
  sum_of-update_none w q f [] u = refl
  sum_of-update_none w q f (x ∷ xs) u = ground (arith, sum_of-update_none w q f xs)

  -- An update of the one row that passes changes the sum by what that row weighs.
  pub sum_of-update_one :
      (w : A → ℕ) (q : A → Bool) (f : A → A) (xs : List A) (d : A)
      → count_where q xs ≤ 1
      → first_where q xs ≡ some d
      → sum_of w (update_where q f xs) + w d ≡ sum_of w xs + w (f d)
  sum_of-update_one w q f [] d u h = cc
  sum_of-update_one w q f (x ∷ xs) d u h = elim (Bool-cases (q x)) [
    | inl e ↦
        let same : x ≡ d = ground arith in
        let rest = sum_of-update_none w q f xs (ground arith) in
        subst (λ z. sum_of w (update_where q f (x ∷ xs)) + w z ≡ sum_of w (x ∷ xs) + w (f z)) same
          (rw e (omega (arith, rest)))
    | inr e ↦
        let rest = sum_of-update_one w q f xs d (ground arith) (rw e at h) in
        rw e (omega (arith, rest))
  ]

  keep_min-cases :
      (before : A → A → Bool) (y : A) (o : Option A) (x : A)
      → keep_min before y o ≡ some x
      → (y ≡ x) ⊎ (o ≡ some x)
  keep_min-cases before y none x h = inl (cc)
  keep_min-cases before y (some z) x h = elim (Bool-cases (before z y)) [
    | inl e ↦ inr (rw e at h)
    | inr e ↦ inl (let same = rw e at h in cc)
  ]

  first_where-cons :
      (q : A → Bool) (y : A) (xs : List A) (x : A)
      → count_where q (y ∷ xs) ≤ 1
      → first_where q xs ≡ some x
      → q x ≡ true
      → first_where q (y ∷ xs) ≡ some x
  first_where-cons q y xs x u h t =
      let more = first_where-counted q q xs x h t in ground (arith, more)

  -- What `min_where` finds is the one row that passes a test that it passes.
  pub min_where-first :
      (before : A → A → Bool) (p q : A → Bool) (xs : List A) (x : A)
      → count_where q xs ≤ 1
      → min_where before p xs ≡ some x
      → q x ≡ true
      → first_where q xs ≡ some x
  min_where-first before p q [] x u h t = cc
  min_where-first before p q (y ∷ xs) x u h t = elim (Bool-cases (p y)) [
    | inr e ↦
        first_where-cons q y xs x u (min_where-first before p q xs x (omega arith) (rw e at h) t) t
    | inl e ↦ elim (keep_min-cases before y (min_where before p xs) x (rw e at h)) [
      | inl same ↦ let here : q y ≡ true = rw same t in rw (here, same) refl
      | inr k ↦ first_where-cons q y xs x u (min_where-first before p q xs x (omega arith) k t) t
    ]
  ]
