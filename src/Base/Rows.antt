-- ===== src/Base/Rows.antt =====
-- Predicates of every row of a table, through the statements that change one.
use mathlib.Core.Path.{◌≡◌, refl, subst}
use mathlib.Core.Bool.{Bool, true, false}
use mathlib.Core.Option.{Option, none, some}
use mathlib.Core.List.{List, [], ◌∷◌, ◌++◌}
use native.Mathlib.Omega.{arith}
use Prim.Native.Nat.{ℕ, suc, ◌≤◌, ◌<◌}
use mosaid.Base.Counts.{count_where-append}
use mosaid.Base.Tests.{Bool-cases, ◌==◌}
use mathlib.Core.Logic.{inl, inr}
use mosaid.Base.Table.{
  count_where, update_where, delete_where, exists_where, min_where, keep_min, All, first_where,
  insert_by, order_by,
}

module _ {ℓ κ} {A : Type ℓ} (P : A → Type κ) where
  pub All-update :
      (q : A → Bool) (f : A → A)
      → ((x : A) → q x ≡ true → P x → P (f x))
      → (xs : List A) → All P xs
      → All P (update_where q f xs)
  All-update q f h [] a = a
  All-update q f h (x ∷ xs) a = elim (Bool-cases (q x)) [
    | inl e ↦ rw e (h x e a.0, All-update q f h xs a.1)
    | inr e ↦ rw e (a.0, All-update q f h xs a.1)
  ]

  pub All-delete : (q : A → Bool) (xs : List A) → All P xs → All P (delete_where q xs)
  All-delete q [] a = a
  All-delete q (x ∷ xs) a = elim (Bool-cases (q x)) [
    | inl e ↦ rw e (All-delete q xs a.1)
    | inr e ↦ rw e (a.0, All-delete q xs a.1)
  ]

  pub All-append : (xs ys : List A) → All P xs → All P ys → All P (xs ++ ys)
  All-append [] ys a b = b
  All-append (x ∷ xs) ys a b = (a.0, All-append xs ys a.1 b)

  pub All-imp : {Q : A → Type κ} → ((x : A) → P x → Q x) → (xs : List A) → All P xs → All Q xs
  All-imp h [] a = a
  All-imp h (x ∷ xs) a = (h x a.0, All-imp h xs a.1)

  keep_min-holds :
      (before : A → A → Bool) (y : A) (o : Option A) (x : A)
      → P y
      → ((z : A) → o ≡ some z → P z)
      → keep_min before y o ≡ some x
      → P x
  keep_min-holds before y none x py h e = let same : y ≡ x = cc in subst P same py
  keep_min-holds before y (some z) x py h e = elim (Bool-cases (before z y)) [
    | inl b ↦ h x (rw b at e)
    | inr b ↦ let same : y ≡ x = ground arith in subst P same py
  ]

  pub All-min_where :
      (before : A → A → Bool) (p : A → Bool) (xs : List A) (x : A)
      → All P xs
      → min_where before p xs ≡ some x
      → P x
  All-min_where before p [] x a e = cc
  All-min_where before p (y ∷ xs) x a e = elim (Bool-cases (p y)) [
    | inl b ↦
        keep_min-holds before y (min_where before p xs) x a.0 (λ z. All-min_where before p xs z a.1)
          (rw b at e)
    | inr b ↦ All-min_where before p xs x a.1 (rw b at e)
  ]

module _ {ℓ} {A : Type ℓ} where
  pub update_where-none :
      (q : A → Bool) (f : A → A) (xs : List A)
      → exists_where q xs ≡ false
      → update_where q f xs ≡ xs
  update_where-none q f [] h = refl
  update_where-none q f (x ∷ xs) h = ground (arith, update_where-none q f xs)

-- Rows with identifiers below the next one, and a row that takes it.
module _ {ℓ} {A : Type ℓ} (key : A → ℕ) where
  below-count :
      (n : ℕ) (xs : List A) → All (λ x. key x < n) xs → count_where (λ x. key x == n) xs ≡ 0
  below-count n [] a = refl
  below-count n (x ∷ xs) a = let rest = below-count n xs a.1 in ground (arith, a.0, rest)

  pub append_unique :
      (n : ℕ) (xs : List A) (x : A)
      → All (λ y. key y < n) xs
      → key x ≡ n
      → ((id : ℕ) → count_where (λ y. key y == id) xs ≤ 1)
      → (id : ℕ) → count_where (λ y. key y == id) (xs ++ x ∷ []) ≤ 1
  append_unique n xs x a k u id =
      let all = count_where-append (λ y. key y == id) xs (x ∷ []) in
      let none_yet = below-count n xs a in ground (arith, all, none_yet, u id)

  pub append_below :
      (n : ℕ) (xs : List A) (x : A)
      → All (λ y. key y < n) xs
      → key x ≡ n
      → All (λ y. key y < suc n) (xs ++ x ∷ [])
  append_below n xs x a k =
      All-append (λ y. key y < suc n) xs (x ∷ [])
        (All-imp (λ y. key y < n) (λ y h. omega arith) xs a) (omega arith, tt)

module _ {ℓ κ} {A : Type ℓ} (P : A → Type κ) where
  pub All-first_where :
      (p : A → Bool) (xs : List A) (x : A) → All P xs → first_where p xs ≡ some x → P x
  All-first_where p [] x a h = cc
  All-first_where p (y ∷ xs) x a h = elim (Bool-cases (p y)) [
    | inl e ↦ let same : y ≡ x = ground arith in subst P same a.0
    | inr e ↦ All-first_where p xs x a.1 (rw e at h)
  ]

  pub All-insert_by :
      (before : A → A → Bool) (x : A) (xs : List A) → P x → All P xs → All P (insert_by before x xs)
  All-insert_by before x [] p a = (p, tt)
  All-insert_by before x (y ∷ xs) p a = elim (Bool-cases (before y x)) [
    | inl e ↦ rw e (a.0, All-insert_by before x xs p a.1)
    | inr e ↦ rw e (p, a)
  ]

  pub All-order_by : (before : A → A → Bool) (xs : List A) → All P xs → All P (order_by before xs)
  All-order_by before [] a = tt
  All-order_by before (x ∷ xs) a = All-insert_by before x _ a.0 (All-order_by before xs a.1)
