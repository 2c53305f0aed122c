-- ===== src/Llm/Json.antt =====
-- JSON values, as json.loads gives them. A number is kept as its text.
use econiq_ai.Prelude.{Bool, true, false, Option, none, some, if◌then◌else◌}
use econiq_ai.Prelude.Text.{Text, text_eq}

mutual
  pub data Json : Type 0 where
    null : Json
    boolean : Bool → Json
    number : Text → Json
    string : Text → Json
    array : Items → Json
    object : Fields → Json

  pub data Items : Type 0 where
    end_array : Items
    item : Json → Items → Items

  pub data Fields : Type 0 where
    end_object : Fields
    field : Text → Json → Fields → Fields

-- `fields.get(key)`
unfoldable pub get : Text → Fields → Option Json
unfolding text_eq
get key end_object = none
get key (field name value fields) = if text_eq name key then some value else get key fields

unfoldable pub is_field : Text → Fields → Bool
unfolding get
is_field key fields = elim (get key fields) [ none ↦ false | some value ↦ true ]

-- `fields[key] = value`: a key that is there keeps its place.
unfoldable pub put_field : Text → Json → Fields → Fields
put_field key value end_object = field key value end_object
put_field key value (field name old fields) =
    if text_eq name key
    then field name value fields
    else field name old (put_field key value fields)
