-- ===== src/Skills/Registry/Latest.antt =====
-- What a version resolves to in internal/skills/registry.go.
use mosaid.Base.{
  ◌≡◌, refl, subst, String, true, false, not, some, List, [], ◌∷◌, arith, All, All-delete,
  All-first_where, All-order_by, Bool-cases, inl, inr, str_eq, order_by, insert_by, All-insert_by,
}
use mosaid.Int.{ℤ}
use mosaid.Skills.Versions.{
  Version, Compared, same, compare_parsed, compare_versions, compare_ints, is_above, parse_version,
}
use mosaid.Skills.Manifest.{Manifest}
use mosaid.Skills.Registry.{resolve, sorted_versions, versions_of, newer, first, is_version}

module _ (P : Manifest → Type 0) where
  All-first : (ms : List Manifest) (m : Manifest) → All P ms → first ms ≡ some m → P m
  All-first [] m a h = cc
  All-first (x ∷ ms) m a h = let same : x ≡ m = ground arith in subst P same a.0

  pub All-resolve :
      (ms : List Manifest) (id version : String) (m : Manifest)
      → All P ms
      → resolve ms id version ≡ some m
      → P m
  unfolding resolve sorted_versions
  All-resolve ms id version m a h = elim (Bool-cases (not (str_eq version ""))) [
    | inl e ↦ All-first_where P (is_version id version) ms m a (rw (e, resolve) at h)
    | inr e ↦
        All-first (sorted_versions (versions_of ms id)) m
          (All-order_by P newer (versions_of ms id)
            (All-delete P (λ (x : Manifest). not (str_eq x.id id)) ms a))
          (rw (e, resolve) at h)
  ]

step_trans :
    (a b c : ℤ) (r s t : Compared)
    → (is_above r ≡ false → is_above s ≡ false → is_above t ≡ false)
    → is_above (compare_ints a b r) ≡ false
    → is_above (compare_ints b c s) ≡ false
    → is_above (compare_ints a c t) ≡ false
step_trans a b c r s t k g h = ground (arith, k)

not_above_trans :
    (a b c : Version)
    → is_above (compare_parsed a b) ≡ false
    → is_above (compare_parsed b c) ≡ false
    → is_above (compare_parsed a c) ≡ false
unfolding compare_parsed
not_above_trans (a, b, c) (x, y, z) (u, v, w) =
    step_trans a x u _ _ _ (step_trans b y v _ _ _ (step_trans c z w same same same (λ e f. refl)))

step_asym :
    (a b : ℤ) (r s : Compared)
    → (is_above r ≡ true → is_above s ≡ false)
    → is_above (compare_ints a b r) ≡ true
    → is_above (compare_ints b a s) ≡ false
step_asym a b r s k g = ground (arith, k)

above_asym :
    (a b : Version) → is_above (compare_parsed a b) ≡ true → is_above (compare_parsed b a) ≡ false
unfolding compare_parsed
above_asym (a, b, c) (x, y, z) =
    step_asym a x _ _ (step_asym b y _ _ (step_asym c z same same (λ e. refl)))

newer_trans : (a b c : Manifest) → newer a b ≡ false → newer b c ≡ false → newer a c ≡ false
unfolding compare_versions
newer_trans a b c =
    not_above_trans (parse_version a.version) (parse_version b.version) (parse_version c.version)

newer_asym : (a b : Manifest) → newer a b ≡ true → newer b a ≡ false
unfolding compare_versions
newer_asym a b = above_asym (parse_version a.version) (parse_version b.version)

newer_irreflexive : (a : Manifest) → newer a a ≡ false
newer_irreflexive a = elim (Bool-cases (newer a a)) [ inl e ↦ newer_asym a a e | inr e ↦ e ]

-- None of the rows is newer than the manifest.
abbrev pub Bounds : Manifest → List Manifest → Type 0
Bounds m ms = All (λ o. newer o m ≡ false) ms

abbrev Leads : List Manifest → Type 0
Leads [] = Unit
Leads (m ∷ ms) = Bounds m ms

Bounds-trans : (m n : Manifest) (ms : List Manifest) → newer m n ≡ false → Bounds m ms → Bounds n ms
Bounds-trans m n [] h b = tt
Bounds-trans m n (o ∷ ms) h b = (newer_trans o m n b.0 h, Bounds-trans m n ms h b.1)

insert_by-Leads : (m : Manifest) (ms : List Manifest) → Leads ms → Leads (insert_by newer m ms)
insert_by-Leads m [] b = tt
insert_by-Leads m (o ∷ ms) b = elim (Bool-cases (newer o m)) [
  | inl e ↦ rw e (All-insert_by (λ x. newer x o ≡ false) newer m ms (newer_asym o m e) b)
  | inr e ↦ rw e (e, Bounds-trans o m ms e b)
]

order_by-Leads : (ms : List Manifest) → Leads (order_by newer ms)
order_by-Leads [] = tt
order_by-Leads (m ∷ ms) = insert_by-Leads m _ (order_by-Leads ms)

insert_by-inserted :
    (m n : Manifest) (ms : List Manifest)
    → Bounds n (insert_by newer m ms)
    → (newer m n ≡ false) × Bounds n ms
insert_by-inserted m n [] b = b
insert_by-inserted m n (o ∷ ms) b = elim (Bool-cases (newer o m)) [
  | inl e ↦ let c = rw e at b in let rest = insert_by-inserted m n ms c.1 in (rest.0, (c.0, rest.1))
  | inr e ↦ rw e at b
]

order_by-ordered : (n : Manifest) (ms : List Manifest) → Bounds n (order_by newer ms) → Bounds n ms
order_by-ordered n [] b = tt
order_by-ordered n (m ∷ ms) b =
    let parts = insert_by-inserted m n _ b in (parts.0, order_by-ordered n ms parts.1)

first-Bounds : (ms : List Manifest) (m : Manifest) → Leads ms → first ms ≡ some m → Bounds m ms
first-Bounds [] m b h = cc
first-Bounds (o ∷ ms) m b h =
    let same : o ≡ m = ground arith in subst (λ x. Bounds x (o ∷ ms)) same (newer_irreflexive o, b)

versions_of-Bounds :
    (id : String) (m : Manifest) (ms : List Manifest)
    → Bounds m (versions_of ms id)
    → All (λ (o : Manifest). str_eq o.id id ≡ true → newer o m ≡ false) ms
versions_of-Bounds id m [] b = tt
versions_of-Bounds id m (o ∷ ms) b = elim (Bool-cases (str_eq o.id id)) [
  | inl e ↦ let c = rw e at b in ((λ t. c.0), versions_of-Bounds id m ms c.1)
  | inr e ↦ ((λ t. let no = rw e at t in cc), versions_of-Bounds id m ms (rw e at b))
]

versions_of-id :
    (id : String) (ms : List Manifest)
    → All (λ (o : Manifest). str_eq o.id id ≡ true) (versions_of ms id)
versions_of-id id [] = tt
versions_of-id id (o ∷ ms) = elim (Bool-cases (str_eq o.id id)) [
  | inl e ↦ rw e (e, versions_of-id id ms)
  | inr e ↦ rw e (versions_of-id id ms)
]

-- A request that names no version resolves to a manifest of the skill, and no manifest of the skill
-- in the registry is newer, in the order of the three numbers of a version.
pub resolve-Bounds :
    (ms : List Manifest) (id : String) (m : Manifest)
    → resolve ms id "" ≡ some m
    → (str_eq m.id id ≡ true) × All (λ (o : Manifest). str_eq o.id id ≡ true → newer o m ≡ false) ms
unfolding resolve sorted_versions
resolve-Bounds ms id m h = (
  All-first (λ (o : Manifest). str_eq o.id id ≡ true) _ m
      (All-order_by (λ (o : Manifest). str_eq o.id id ≡ true) newer (versions_of ms id)
        (versions_of-id id ms))
      h,
  versions_of-Bounds id m ms (
      order_by-ordered m (versions_of ms id)
        (first-Bounds _ m (order_by-Leads (versions_of ms id)) h)),
)
