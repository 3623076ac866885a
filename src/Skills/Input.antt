-- ===== src/Skills/Input.antt =====
-- ValidateInput, validateValue and checkIntegerBound of internal/skills/schema.go: whether an input
-- conforms to a schema. A type assertion without a test panics when it fails, and the models say so.
pub mod Shapes
pub mod Safe
use mosaid.Base.{
  ℕ, zero, suc, ◌*◌, String, Bool, true, false, ◌&&◌, ◌||◌, not, Option, none, some, List, [], ◌∷◌,
  ltb, leb, length, codes, exists_where, if◌then◌else◌, str_eq,
}
use mosaid.Int.{ℤ, pos, ltb_ℤ}
use mosaid.Skills.Names.{atoi}
use mosaid.Skills.Json.{
  Json, Members, has_name, lookup, as_object, as_array, as_text, as_number, is_boolean, is_null,
  unique_keys,
}
use mosaid.Skills.Schema.{
  SchemaType, object_type, string_type, number_type, integer_type, boolean_type, array_type,
  null_type, schema_type, every, valid_document,
}

pub data Verdict : Type 0 where
  accepts rejects panics : Verdict

-- `if err := step; err != nil { return err }`
infixr 5 ◌then◌
abbrev pub ◌then◌ : Verdict → Verdict → Verdict
accepts then after = after
rejects then after = rejects
panics then after = panics

abbrev pub require : Bool → Verdict
require true = accepts
require false = rejects

-- A loop that returns at the first error.
abbrev pub each {ℓ} : {A : Type ℓ} → (A → Verdict) → List A → Verdict
each f [] = accepts
each f (x ∷ xs) = f x then each f xs

-- `maximum` says which of the two bounds it is.
unfoldable pub check_integer_bound : Members → String → ℕ → Bool → Verdict
check_integer_bound schema name value maximum = elim (as_number (lookup name schema)) [
  | none ↦ accepts
  | some raw ↦
      let (bound, ok) = atoi (codes raw) in
      if not ok || ltb_ℤ bound (pos 0)
      then rejects
      else if maximum && ltb_ℤ bound (pos value)
      then rejects
      else if not maximum && ltb_ℤ (pos value) bound
      then rejects
      else accepts
]

-- The loop over "required", which a schema may leave out.
abbrev pub check_name : Members → Json → Verdict
check_name object item = elim (as_text (some item)) [
  | none ↦ panics
  | some name ↦ require (has_name name object)
]

abbrev pub check_required : Option (List Json) → Members → Verdict
check_required none object = accepts
check_required (some items) object = each (check_name object) items

-- `child` judges the values below.
abbrev pub check_member : (Members → Json → Verdict) → Members → String × Json → Verdict
check_member child properties (key, item) = elim (as_object (lookup key properties)) [
  | none ↦ panics
  | some schema ↦ child schema item
]

abbrev pub check_object : (Members → Json → Verdict) → Members → Members → Verdict
check_object child schema object = elim (as_object (lookup "properties" schema)) [
  | none ↦ panics
  | some properties ↦
      require (every (λ (m : String × Json). has_name m.0 properties) object)
      then check_required (as_array (lookup "required" schema)) object
      then each (check_member child properties) object
]

abbrev pub check_array : (Members → Json → Verdict) → Members → List Json → Verdict
check_array child schema array =
    check_integer_bound schema "minItems" (length array) false
    then check_integer_bound schema "maxItems" (length array) true
    then elim (as_object (lookup "items" schema)) [
      | none ↦ panics
      | some items ↦ each (child items) array
    ]

abbrev pub check_text : Members → String → Verdict
check_text schema text =
    check_integer_bound schema "minLength" (length (codes text)) false
    then check_integer_bound schema "maxLength" (length (codes text)) true

-- What the code uses of float64: ParseFloat's value, which is defined for every text, whether it is
-- an error, an infinity or not a number, whether it is whole, and the order.
pub record Floats (F : Type 0) : Type 0 where
  pub parse : String → F
  pub bad : String → Bool
  pub whole : F → Bool
  pub less : F → F → Bool

module _ {F : Type 0} (floats : Floats F) (same : Json → Json → Bool) where
  abbrev pub check_minimum : Members → F → Verdict
  check_minimum schema parsed = elim (as_number (lookup "minimum" schema)) [
    | none ↦ accepts
    | some raw ↦ require (not (floats.less parsed (floats.parse raw)))
  ]

  abbrev pub check_maximum : Members → F → Verdict
  check_maximum schema parsed = elim (as_number (lookup "maximum" schema)) [
    | none ↦ accepts
    | some raw ↦ require (not (floats.less (floats.parse raw) parsed))
  ]

  abbrev pub check_number : Members → Bool → String → Verdict
  check_number schema integer number =
      let parsed = floats.parse number in
      require (not (floats.bad number))
      then require (not (integer && not (floats.whole parsed)))
      then check_minimum schema parsed
      then check_maximum schema parsed

  -- The switch on the type. Another text than the seven is no case of it.
  unfoldable pub check_type :
      (Members → Json → Verdict) → Members → Json → Option SchemaType → Verdict
  check_type child schema value none = accepts
  check_type child schema value (some object_type) = elim (as_object (some value)) [
    | none ↦ rejects
    | some object ↦ check_object child schema object
  ]
  check_type child schema value (some array_type) = elim (as_array (some value)) [
    | none ↦ rejects
    | some array ↦ check_array child schema array
  ]
  check_type child schema value (some string_type) = elim (as_text (some value)) [
    | none ↦ rejects
    | some text ↦ check_text schema text
  ]
  check_type child schema value (some number_type) = elim (as_number (some value)) [
    | none ↦ rejects
    | some number ↦ check_number schema false number
  ]
  check_type child schema value (some integer_type) = elim (as_number (some value)) [
    | none ↦ rejects
    | some number ↦ check_number schema true number
  ]
  check_type child schema value (some boolean_type) = require (is_boolean value)
  check_type child schema value (some null_type) = require (is_null value)

  -- `same` compares what json.Marshal gives of two values.
  abbrev pub check_enum : Members → Json → Verdict
  check_enum schema value = elim (as_array (lookup "enum" schema)) [
    | none ↦ accepts
    | some candidates ↦ require (exists_where (same value) candidates)
  ]

  -- With how many levels are left of the 33 that the depth limit of 32 allows.
  unfoldable pub validate_value : ℕ → Members → Json → Verdict
  validate_value zero schema value = rejects
  validate_value (suc levels) schema value = elim (as_text (lookup "type" schema)) [
    | none ↦ panics
    | some name ↦
        check_type (validate_value levels) schema value (schema_type name)
        then check_enum schema value
  ]

  abbrev pub validate_parsed : Option Json → Json → Verdict
  validate_parsed schema input = elim (as_object schema) [
    | none ↦ panics
    | some node ↦ validate_value 33 node input
  ]

  unfoldable pub validate_input : (List ℕ → Option Json) → List ℕ → List ℕ → Verdict
  validate_input parse schema_raw input_raw =
      require (valid_document parse schema_raw)
      then require (not (leb (length input_raw) 0) && leb (length input_raw) (1024 * 1024))
      then elim (parse input_raw) [
        | none ↦ rejects
        | some input ↦ require (unique_keys input) then validate_parsed (parse schema_raw) input
      ]
