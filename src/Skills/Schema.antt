-- ===== src/Skills/Schema.antt =====
-- validateSchemaDocument and validateSchemaNode of internal/skills/manifest.go: which documents are
-- schemas. The parser of the JSON package is a parameter. Which error is reported first depends on
-- the order of Go's maps, so the model says whether there is one.
use mosaid.Base.{
  ℕ, zero, suc, ◌*◌, String, Bool, true, false, ◌&&◌, not, Option, none, some, List, [], ◌∷◌,
  str_eq, leb, length, exists_where, if◌then◌else◌,
}
use mosaid.Skills.Names.{property_name}
use mosaid.Skills.Json.{Json, Members, has_name, lookup, as_object, as_array, as_text, is_false}

pub data SchemaType : Type 0 where
  object_type string_type number_type integer_type boolean_type array_type null_type : SchemaType

-- The type that a text names.
unfoldable pub schema_type : String → Option SchemaType
schema_type s =
    if str_eq s "object"
    then some object_type
    else if str_eq s "string"
    then some string_type
    else if str_eq s "number"
    then some number_type
    else if str_eq s "integer"
    then some integer_type
    else if str_eq s "boolean"
    then some boolean_type
    else if str_eq s "array"
    then some array_type
    else if str_eq s "null"
    then some null_type
    else none

abbrev pub keywords : List String
keywords =
    "type" ∷ "description" ∷ "properties" ∷ "required" ∷ "additionalProperties" ∷ "items" ∷ "enum"
    ∷ "minLength" ∷ "maxLength" ∷ "minimum" ∷ "maximum" ∷ "minItems" ∷ "maxItems" ∷ []

abbrev pub every {ℓ} : {A : Type ℓ} → (A → Bool) → List A → Bool
every p [] = true
every p (x ∷ xs) = p x && every p xs

-- An element of "required" is a string that names a property.
unfoldable pub declared : Members → Json → Bool
declared properties item = elim (as_text (some item)) [
  | none ↦ false
  | some name ↦ has_name name properties
]

unfoldable pub valid_required : Members → Option Json → Bool
valid_required properties none = true
valid_required properties (some j) = elim (as_array (some j)) [
  | none ↦ false
  | some items ↦ every (declared properties) items
]

-- `child` judges the nodes below.
abbrev pub valid_child : (Json → Bool) → Option Json → Bool
valid_child child none = false
valid_child child (some j) = child j

unfoldable pub valid_properties : (Json → Bool) → Members → Option Members → Bool
valid_properties child node none = false
valid_properties child node (some properties) =
    is_false (lookup "additionalProperties" node)
    && (every (λ (m : String × Json). property_name m.0 && child m.1) properties
        && valid_required properties (lookup "required" node))

unfoldable pub valid_for : (Json → Bool) → Members → SchemaType → Bool
valid_for child node object_type =
    valid_properties child node (as_object (lookup "properties" node))
valid_for child node array_type = valid_child child (lookup "items" node)
valid_for child node _ = true

abbrev pub named_type : Members → Option SchemaType
named_type node = elim (as_text (lookup "type" node)) [ none ↦ none | some s ↦ schema_type s ]

unfoldable pub valid_members : (Json → Bool) → Members → Bool
valid_members child node =
    every (λ (m : String × Json). exists_where (str_eq m.0) keywords) node
    && elim (named_type node) [ none ↦ false | some t ↦ valid_for child node t ]

-- With how many levels are left of the 17 that the depth limit of 16 allows.
unfoldable pub valid_node : ℕ → Json → Bool
valid_node zero j = false
valid_node (suc levels) j = elim (as_object (some j)) [
  | none ↦ false
  | some node ↦ valid_members (valid_node levels) node
]

unfoldable pub valid_document : (List ℕ → Option Json) → List ℕ → Bool
valid_document parse raw =
    not (leb (length raw) 0)
    && (leb (length raw) (64 * 1024)
        && elim (parse raw) [ none ↦ false | some j ↦ valid_node 17 j ])
