-- ===== src/Llm/Schema.antt =====
-- schema_tools.py: `sanitize_json_schema`, which leaves what a provider accepts of a schema.
pub mod Closed
pub mod Accepted
use econiq_ai.Prelude.{
  Bool, true, false, Option, none, some, List, [], ◌∷◌, any, not, ◌&&◌, ◌||◌, if◌then◌else◌,
}
use econiq_ai.Prelude.Text.{Text, codes, text_eq}
use econiq_ai.Llm.Json.{
  Json, Items, Fields, null, boolean, number, string, array, object, end_array, item, end_object,
  field, get, put_field, is_field,
}

-- `UNSUPPORTED_KEYWORDS`
abbrev pub unsupported_keywords : List Text
unsupported_keywords =
    codes "minimum"
    ∷ codes "maximum"
    ∷ codes "exclusiveMinimum"
    ∷ codes "exclusiveMaximum"
    ∷ codes "multipleOf"
    ∷ codes "minLength"
    ∷ codes "maxLength"
    ∷ codes "pattern"
    ∷ codes "minItems"
    ∷ codes "maxItems"
    ∷ codes "uniqueItems"
    ∷ codes "minProperties"
    ∷ codes "maxProperties"
    ∷ codes "default"
    ∷ []

unfoldable pub is_unsupported : Text → Bool
unfolding text_eq
is_unsupported key = any (text_eq key) unsupported_keywords

abbrev pub type_key : Text
type_key = codes "type"

abbrev pub properties_key : Text
properties_key = codes "properties"

abbrev pub additional_key : Text
additional_key = codes "additionalProperties"

abbrev pub required_key : Text
required_key = codes "required"

-- `== "object"`
unfoldable pub is_object_word : Option Json → Bool
unfolding text_eq
is_object_word (some (string word)) = text_eq word (codes "object")
is_object_word _ = false

-- `list(props)`
unfoldable pub names : Fields → Items
names end_object = end_array
names (field name value fields) = item (string name) (names fields)

unfoldable pub describes_object : Fields → Bool
unfolding is_object_word get is_field
describes_object fields = is_object_word (get type_key fields) || is_field properties_key fields

-- `out["required"] = list(props)`, where there are properties and no such entry
unfoldable pub require_all : Option Json → Fields → Fields
unfolding names is_field put_field
require_all (some (object properties)) fields =
    if is_field required_key fields
    then fields
    else put_field required_key (array (names properties)) fields
require_all _ fields = fields

unfoldable pub close : Fields → Fields
unfolding describes_object put_field require_all get
close fields =
    let shut = put_field additional_key (boolean false) fields in
    if describes_object fields then require_all (get properties_key shut) shut else fields

unfoldable mutual
  unfolding close is_unsupported

  pub walk : Json → Json
  walk null = null
  walk (boolean b) = boolean b
  walk (number n) = number n
  walk (string s) = string s
  walk (array items) = array (walk_items items)
  walk (object fields) = object (close (walk_fields fields))

  pub walk_items : Items → Items
  walk_items end_array = end_array
  walk_items (item value items) = item (walk value) (walk_items items)

  pub walk_fields : Fields → Fields
  walk_fields end_object = end_object
  walk_fields (field key value fields) =
      let rest = walk_fields fields in
      if is_unsupported key then rest else field key (walk value) rest

unfoldable pub sanitize_json_schema : Json → Json
unfolding walk
sanitize_json_schema schema = walk schema
