-- ===== src/Skills/Input/Safe.antt =====
-- On a document that validateSchemaDocument accepts, the type assertions of validateValue hold.
use mosaid.Base.{
  ℕ, zero, suc, ◌≡◌, String, Bool, true, false, ◌&&◌, not, Option, none, some, List, arith,
  Option-cases, inl, inr, length, codes,
}
use mosaid.Skills.Json.{Json, Members, lookup, as_object, as_array, as_text, as_number, unique_keys}
use mosaid.Skills.Schema.{
  SchemaType, object_type, string_type, number_type, integer_type, boolean_type, array_type,
  null_type, valid_for, valid_node, valid_document,
}
use mosaid.Skills.Input.{
  Verdict, rejects, require, ◌then◌, check_text, Floats, check_minimum, check_maximum, check_number,
  check_type, check_enum, validate_value, validate_parsed, validate_input,
}
use mosaid.Skills.Input.Shapes.{
  IsSafe, IsSchema, require-IsSafe, then-IsSafe, require-then-IsSafe, check_integer_bound-IsSafe,
  valid_node-object, typed, check_array-IsSafe, check_object-IsSafe,
}

module _ {F : Type 0} (floats : Floats F) (same : Json → Json → Bool) where
  check_number-IsSafe :
      (node : Members) (integer : Bool) (number : String)
      → IsSafe (check_number floats same node integer number)
  check_number-IsSafe node integer number = require-then-IsSafe (not (floats.bad number)) _ λ a.
      require-then-IsSafe (not (integer && not (floats.whole (floats.parse number)))) _ λ b.
        then-IsSafe (check_minimum floats same node (floats.parse number)) _ minimum (λ c. maximum)
    where
      minimum : IsSafe (check_minimum floats same node (floats.parse number))
      minimum = elim (Option-cases (as_number (lookup "minimum" node))) [
        | inl e ↦ rw (e, IsSafe, check_minimum) tt
        | inr (raw, e) ↦ rw (e, IsSafe, check_minimum) (require-IsSafe _)
      ]

      maximum : IsSafe (check_maximum floats same node (floats.parse number))
      maximum = elim (Option-cases (as_number (lookup "maximum" node))) [
        | inl e ↦ rw (e, IsSafe, check_maximum) tt
        | inr (raw, e) ↦ rw (e, IsSafe, check_maximum) (require-IsSafe _)
      ]

  check_text-IsSafe : (node : Members) (text : String) → IsSafe (check_text node text)
  check_text-IsSafe node text =
      then-IsSafe _ _ (check_integer_bound-IsSafe node "minLength" (length (codes text)) false)
        (λ a. check_integer_bound-IsSafe node "maxLength" (length (codes text)) true)

  check_enum-IsSafe : (node : Members) (v : Json) → IsSafe (check_enum floats same node v)
  check_enum-IsSafe node v = elim (Option-cases (as_array (lookup "enum" node))) [
    | inl e ↦ rw (e, IsSafe, check_enum) tt
    | inr (candidates, e) ↦ rw (e, IsSafe, check_enum) (require-IsSafe _)
  ]

  check_type-IsSafe :
      (child : Members → Json → Verdict)
      → ((levels : ℕ) (node : Members) (v : Json) → IsSchema levels node → IsSafe (child node v))
      → (levels : ℕ) (node : Members) (v : Json) (t : SchemaType)
      → valid_for (valid_node levels) node t ≡ true
      → IsSafe (check_type floats same child node v (some t))
  unfolding check_type
  check_type-IsSafe child safe levels node v object_type h =
      elim (Option-cases (as_object (some v))) [
        | inl e ↦ rw (e, check_type) tt
        | inr (object, e) ↦ rw (e, check_type) (check_object-IsSafe child safe levels node object h)
      ]
  check_type-IsSafe child safe levels node v array_type h =
      elim (Option-cases (as_array (some v))) [
        | inl e ↦ rw (e, check_type) tt
        | inr (array, e) ↦ rw (e, check_type) (check_array-IsSafe child safe levels node array h)
      ]
  check_type-IsSafe child safe levels node v string_type h =
      elim (Option-cases (as_text (some v))) [
        | inl e ↦ rw (e, check_type) tt
        | inr (text, e) ↦ rw (e, check_type) (check_text-IsSafe node text)
      ]
  check_type-IsSafe child safe levels node v number_type h =
      elim (Option-cases (as_number (some v))) [
        | inl e ↦ rw (e, check_type) tt
        | inr (n, e) ↦ rw (e, check_type) (check_number-IsSafe node false n)
      ]
  check_type-IsSafe child safe levels node v integer_type h =
      elim (Option-cases (as_number (some v))) [
        | inl e ↦ rw (e, check_type) tt
        | inr (n, e) ↦ rw (e, check_type) (check_number-IsSafe node true n)
      ]
  check_type-IsSafe child safe levels node v boolean_type h = require-IsSafe _
  check_type-IsSafe child safe levels node v null_type h = require-IsSafe _

  validate_value-IsSafe :
      (left levels : ℕ) (node : Members) (v : Json)
      → IsSchema levels node
      → IsSafe (validate_value floats same left node v)
  unfolding validate_value
  validate_value-IsSafe zero levels node v h = tt
  validate_value-IsSafe (suc left) levels node v h =
      let (s, t, name, type, ok) = typed levels node h in
      rw (name, type, validate_value)
        (then-IsSafe _ _
          (check_type-IsSafe (validate_value floats same left) (validate_value-IsSafe left) levels
            node v t ok)
          (λ a. check_enum-IsSafe node v))

  validate_parsed-IsSafe :
      (parse : List ℕ → Option Json) (schema : List ℕ) (input : Json)
      → valid_document parse schema ≡ true
      → IsSafe (validate_parsed floats same (parse schema) input)
  unfolding valid_document
  validate_parsed-IsSafe parse schema input h = elim (Option-cases (parse schema)) [
    | inl f ↦ let no = rw (f, valid_document) at h in absurd (ground arith)
    | inr (s, f) ↦
        let shape = rw (f, valid_document) at h in
        let (below, node, object, ok) = valid_node-object 17 s (ground arith) in
        rw (f, IsSafe, validate_parsed, object) (validate_value-IsSafe 33 below node input ok)
  ]

  -- ValidateInput never panics: whatever the bytes of the schema and of the input, and whatever the
  -- JSON parser makes of them, each type assertion that it reaches without a test holds, since it
  -- judges the schema first.
  pub validate_input-IsSafe :
      (parse : List ℕ → Option Json) (schema input : List ℕ)
      → IsSafe (validate_input floats same parse schema input)
  unfolding validate_input valid_document
  validate_input-IsSafe parse schema input = require-then-IsSafe _ _ λ valid.
      require-then-IsSafe _ _ λ bounded.
        elim (Option-cases (parse input))
          as (λ x. IsSafe (elim (parse input) [
            | none ↦ rejects
            | some j ↦ require (unique_keys j) then validate_parsed floats same (parse schema) j
          ])) [
            | inl e ↦ rw e tt
            | inr (j, e) ↦
                rw e (require-then-IsSafe _ _ λ unique. validate_parsed-IsSafe parse schema j valid)
          ]
