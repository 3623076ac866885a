-- ===== src/Skills/Input/Shapes.antt =====
-- Schemas that validateSchemaDocument accepts, and the checks of objects and arrays against them:
-- the type assertions of validateValue there hold.
use mosaid.Base.{
  ℕ, zero, suc, ◌≡◌, refl, String, Bool, true, false, ◌&&◌, Option, none, some, List, [], ◌∷◌,
  arith, str_eq, Bool-cases, Option-cases, inl, inr, length,
}
use mosaid.Skills.Names.{property_name}
use mosaid.Skills.Json.{Json, Members, has_name, lookup, as_object, as_array, as_text}
use mosaid.Skills.Schema.{
  SchemaType, object_type, array_type, schema_type, every, declared, valid_required,
  valid_properties, valid_for, valid_members, valid_node,
}
use mosaid.Skills.Input.{
  Verdict, accepts, rejects, panics, require, ◌then◌, each, check_integer_bound, check_name,
  check_required, check_member, check_object, check_array,
}

abbrev pub IsSafe : Verdict → Type 0
IsSafe accepts = Unit
IsSafe rejects = Unit
IsSafe panics = ⊥

pub require-IsSafe : (b : Bool) → IsSafe (require b)
require-IsSafe true = tt
require-IsSafe false = tt

-- The second step matters when the first one accepts.
pub then-IsSafe : (a b : Verdict) → IsSafe a → (a ≡ accepts → IsSafe b) → IsSafe (a then b)
then-IsSafe accepts b s k = k refl
then-IsSafe rejects b s k = tt
then-IsSafe panics b s k = absurd s

pub require-then-IsSafe :
    (b : Bool) (v : Verdict) → (b ≡ true → IsSafe v) → IsSafe (require b then v)
require-then-IsSafe true v k = k refl
require-then-IsSafe false v k = tt

-- A loop over elements of which a test holds is safe, if its body is safe on those.
each-IsSafe {ℓ} :
    {A : Type ℓ} (f : A → Verdict) (p : A → Bool)
    → ((x : A) → p x ≡ true → IsSafe (f x))
    → (xs : List A) → every p xs ≡ true
    → IsSafe (each f xs)
each-IsSafe f p k [] h = tt
each-IsSafe f p k (x ∷ xs) h =
    then-IsSafe (f x) (each f xs) (k x (ground arith)) (λ e. each-IsSafe f p k xs (ground arith))

every-true : (xs : List Json) → every (λ v. true) xs ≡ true
every-true [] = refl
every-true (x ∷ xs) = every-true xs

every-lookup :
    (p : String × Json → Bool) (k : String) (ms : Members)
    → has_name k ms ≡ true
    → every p ms ≡ true
    → (name : String) × (j : Json) × (lookup k ms ≡ some j) × (p (name, j) ≡ true)
every-lookup p k [] h t = cc
every-lookup p k ((name, j) ∷ ms) h t = elim (Bool-cases (str_eq name k)) [
  | inl e ↦ (name, j, rw e refl, ground arith)
  | inr e ↦
      let (name', j', found, ok) = every-lookup p k ms (ground arith) (ground arith) in
      (name', j', rw e found, ok)
]

pub check_integer_bound-IsSafe :
    (schema : Members) (name : String) (value : ℕ) (maximum : Bool)
    → IsSafe (check_integer_bound schema name value maximum)
unfolding check_integer_bound
check_integer_bound-IsSafe schema name value maximum = ground arith

-- The node is a schema, with some levels left.
abbrev pub IsSchema : ℕ → Members → Type 0
IsSchema levels node = valid_members (valid_node levels) node ≡ true

pub valid_node-object :
    (levels : ℕ) (j : Json)
    → valid_node levels j ≡ true
    → (below : ℕ) × (node : Members) × (as_object (some j) ≡ some node) × IsSchema below node
unfolding valid_node
valid_node-object zero j h = cc
valid_node-object (suc levels) j h = elim (Option-cases (as_object (some j))) [
  | inl e ↦ let no = rw (e, valid_node) at h in cc
  | inr (node, e) ↦ (levels, node, e, rw (e, valid_node) at h)
]

pub typed :
    (levels : ℕ) (node : Members)
    → IsSchema levels node
    → (s : String) × (t : SchemaType) × (as_text (lookup "type" node) ≡ some s)
      × (schema_type s ≡ some t)
      × (valid_for (valid_node levels) node t ≡ true)
unfolding valid_members
typed levels node h = elim (Option-cases (as_text (lookup "type" node))) [
  | inl e ↦ let no = rw e at h in absurd (ground arith)
  | inr (s, e) ↦ elim (Option-cases (schema_type s)) [
    | inl f ↦ let no = rw (e, f) at h in absurd (ground arith)
    | inr (t, f) ↦ let ok = rw (e, f) at h in (s, t, e, f, ground arith)
  ]
]

check_name-IsSafe :
    (properties object : Members) (item : Json)
    → declared properties item ≡ true
    → IsSafe (check_name object item)
unfolding declared
check_name-IsSafe properties object item h = elim (Option-cases (as_text (some item))) [
  | inl e ↦ let no = rw (e, declared) at h in cc
  | inr (name, e) ↦ rw (e, IsSafe, check_name) (require-IsSafe (has_name name object))
]

check_required-IsSafe :
    (properties object : Members) (required : Option Json)
    → valid_required properties required ≡ true
    → IsSafe (check_required (as_array required) object)
unfolding valid_required as_array
check_required-IsSafe properties object none h = tt
check_required-IsSafe properties object (some j) h = elim (Option-cases (as_array (some j))) [
  | inl e ↦ rw e tt
  | inr (items, e) ↦ rw e (
      each-IsSafe (check_name object) (declared properties) (check_name-IsSafe properties object)
        items (rw (e, valid_required) at h))
]

module _ (child : Members → Json → Verdict)
    (child-IsSafe : (levels : ℕ) (node : Members) (v : Json)
      → IsSchema levels node
      → IsSafe (child node v)) where
  pub check_array-IsSafe :
      (levels : ℕ) (node : Members) (array : List Json)
      → valid_for (valid_node levels) node array_type ≡ true
      → IsSafe (check_array child node array)
  unfolding valid_for
  check_array-IsSafe levels node array h = elim (Option-cases (lookup "items" node)) [
    | inl e ↦ let no = rw e at h in cc
    | inr (j, e) ↦
        let (below, items, found, ok) = valid_node-object levels j (rw e at h) in
        then-IsSafe _ _ (check_integer_bound-IsSafe node "minItems" (length array) false) (λ a.
          then-IsSafe _ _ (check_integer_bound-IsSafe node "maxItems" (length array) true) (λ b.
            rw (e, found)
              (each-IsSafe (child items) (λ v. true) (λ v t. child-IsSafe below items v ok) array
                (every-true array))))
  ]

  check_member-IsSafe :
      (levels : ℕ) (properties : Members) (p : String × Json → Bool)
      → ((m : String × Json) → p m ≡ true → valid_node levels m.1 ≡ true)
      → every p properties ≡ true
      → (m : String × Json) → has_name m.0 properties ≡ true
      → IsSafe (check_member child properties m)
  check_member-IsSafe levels properties p valid all (key, item) h =
      let (name, j, found, ok) = every-lookup p key properties h all in
      let (below, node, object, schema) = valid_node-object levels j (valid (name, j) ok) in
      rw (found, check_member, object) (child-IsSafe below node item schema)

  pub check_object-IsSafe :
      (levels : ℕ) (node object : Members)
      → valid_for (valid_node levels) node object_type ≡ true
      → IsSafe (check_object child node object)
  unfolding valid_for valid_properties
  check_object-IsSafe levels node object h =
      elim (Option-cases (as_object (lookup "properties" node))) [
        | inl e ↦ let no = rw e at h in cc
        | inr (properties, e) ↦
            let ok = rw e at h in
            rw (e, IsSafe, check_object)
              (require-then-IsSafe _ _ λ known.
                then-IsSafe _ _
                  (check_required-IsSafe properties object (lookup "required" node) (ground arith))
                  (λ a.
                    each-IsSafe (check_member child properties) _
                      (check_member-IsSafe levels properties
                        (λ (m : String × Json). property_name m.0 && valid_node levels m.1)
                        (λ m t. ground arith) (ground arith))
                      object known))
      ]
