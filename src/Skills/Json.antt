-- ===== src/Skills/Json.antt =====
-- JSON values as internal/skills reads them. A parsed document keeps the fields as they are written;
-- Go's map of an object has the last field of each key.
use mosaid.Base.{
  String, Bool, true, false, ◌&&◌, not, Option, none, some, List, [], ◌∷◌, str_eq, exists_where,
  if◌then◌else◌,
}

mutual
  pub data Json : Type 0 where
    null : Json
    boolean : Bool → Json
    number text : String → Json
    array : Items → Json
    object : Fields → Json

  pub data Items : Type 0 where
    nil : Items
    cons : Json → Items → Items

  pub data Fields : Type 0 where
    end : Fields
    field : String → Json → Fields → Fields

-- map[string]any, in some order.
abbrev pub Members : Type 0
Members = List (String × Json)

abbrev pub has_name : String → Members → Bool
has_name k ms = exists_where (λ (m : String × Json). str_eq m.0 k) ms

abbrev pub lookup : String → Members → Option Json
lookup k [] = none
lookup k (m ∷ ms) = if str_eq m.0 k then some m.1 else lookup k ms

unfoldable pub members : Fields → Members
members end = []
members (field k v fs) = let rest = members fs in if has_name k rest then rest else (k, v) ∷ rest

unfoldable pub elements : Items → List Json
elements nil = []
elements (cons j js) = j ∷ elements js

-- Go's type assertions, on a value that may be missing.
unfoldable pub as_object : Option Json → Option Members
as_object (some (object fs)) = some (members fs)
as_object _ = none

unfoldable pub as_array : Option Json → Option (List Json)
as_array (some (array js)) = some (elements js)
as_array _ = none

unfoldable pub as_text : Option Json → Option String
as_text (some (text s)) = some s
as_text _ = none

unfoldable pub as_number : Option Json → Option String
as_number (some (number s)) = some s
as_number _ = none

unfoldable pub is_boolean : Json → Bool
is_boolean (boolean b) = true
is_boolean _ = false

unfoldable pub is_null : Json → Bool
is_null null = true
is_null _ = false

unfoldable pub is_false : Option Json → Bool
is_false (some (boolean b)) = not b
is_false _ = false

abbrev pub seen_in : String → List String → Bool
seen_in k seen = exists_where (str_eq k) seen

-- consumeJSONValue of internal/skills/loader.go on a document that parses: no object has a key twice.
unfoldable mutual
  pub unique_keys : Json → Bool
  unique_keys (array js) = unique_items js
  unique_keys (object fs) = unique_fields [] fs
  unique_keys _ = true

  pub unique_items : Items → Bool
  unique_items nil = true
  unique_items (cons j js) = unique_keys j && unique_items js

  pub unique_fields : List String → Fields → Bool
  unique_fields seen end = true
  unique_fields seen (field k v fs) =
      not (seen_in k seen) && (unique_keys v && unique_fields (k ∷ seen) fs)
