-- ===== src/Llm/Schema/Accepted.antt =====
-- schema_tools.py: what a provider asks of a schema holds of each sanitized one.
use econiq_ai.Prelude.{
  ◌≡◌, refl, Bool, true, false, Option, none, some, not, ◌&&◌, if◌then◌else◌, arith,
}
use econiq_ai.Prelude.Text.{Text, text_eq}
use econiq_ai.Llm.Json.{
  Json, Items, Fields, null, boolean, number, string, array, object, end_array, item, end_object,
  field, get, put_field, is_field,
}
use econiq_ai.Llm.Schema.{
  is_unsupported, properties_key, additional_key, required_key, names, describes_object,
  require_all, close, walk, walk_items, walk_fields, sanitize_json_schema,
}
use econiq_ai.Llm.Schema.Closed.{closed, close-closed}

-- Whether there is no key "required" at any depth.
unfoldable mutual
  pub lacks_required : Json → Bool
  lacks_required null = true
  lacks_required (boolean b) = true
  lacks_required (number n) = true
  lacks_required (string s) = true
  lacks_required (array items) = lacks_required_items items
  lacks_required (object fields) = lacks_required_fields fields

  pub lacks_required_items : Items → Bool
  lacks_required_items end_array = true
  lacks_required_items (item value items) = lacks_required value && lacks_required_items items

  pub lacks_required_fields : Fields → Bool
  lacks_required_fields end_object = true
  lacks_required_fields (field key value fields) =
      not (text_eq key required_key) && lacks_required value && lacks_required_fields fields

-- no unsupported keyword at any depth, and each description of an object closed
mutual
  pub accepted : Bool → Json → Bool
  accepted strict null = true
  accepted strict (boolean b) = true
  accepted strict (number n) = true
  accepted strict (string s) = true
  accepted strict (array items) = accepted_items strict items
  accepted strict (object fields) = closed strict fields && accepted_fields strict fields

  pub accepted_items : Bool → Items → Bool
  accepted_items strict end_array = true
  accepted_items strict (item value items) = accepted strict value && accepted_items strict items

  pub accepted_fields : Bool → Fields → Bool
  accepted_fields strict end_object = true
  accepted_fields strict (field key value fields) =
      not (is_unsupported key) && accepted strict value && accepted_fields strict fields

module _ (strict : Bool) where
  put_field-accepted :
      (key : Text) (value : Json) (fields : Fields)
      → is_unsupported key ≡ false
      → accepted strict value ≡ true
      → accepted_fields strict fields ≡ true
      → accepted_fields strict (put_field key value fields) ≡ true
  unfolding accepted put_field
  put_field-accepted key value end_object u v h = ground arith
  put_field-accepted key value (field name old fields) u v h =
      ground (arith, put_field-accepted key value fields)

  required_supported : is_unsupported required_key ≡ false
  unfolding is_unsupported
  required_supported = refl

  additional_supported : is_unsupported additional_key ≡ false
  unfolding is_unsupported
  additional_supported = refl

  names-accepted : (fields : Fields) → accepted_items strict (names fields) ≡ true
  unfolding accepted names
  names-accepted end_object = refl
  names-accepted (field name value fields) = names-accepted fields

  require_all-accepted :
      (o : Option Json) (fields : Fields)
      → accepted_fields strict fields ≡ true
      → accepted_fields strict (require_all o fields) ≡ true
  unfolding require_all accepted
  require_all-accepted (some (object properties)) fields h =
      elim (is_field required_key fields)
        as (λ b.
          accepted_fields strict
            (if b then fields else put_field required_key (array (names properties)) fields)
          ≡ true) [
            | true ↦ h
            | false ↦
                put_field-accepted required_key (array (names properties)) fields required_supported
                  (names-accepted properties) h
          ]
  require_all-accepted none fields h = h
  require_all-accepted (some null) fields h = h
  require_all-accepted (some (boolean b)) fields h = h
  require_all-accepted (some (number n)) fields h = h
  require_all-accepted (some (string s)) fields h = h
  require_all-accepted (some (array items)) fields h = h

  close-accepted :
      (fields : Fields)
      → accepted_fields strict fields ≡ true
      → accepted_fields strict (close fields) ≡ true
  unfolding close accepted
  close-accepted fields h =
      elim (describes_object fields)
        as (λ b.
          accepted_fields strict (
            if b
            then require_all (get properties_key (put_field additional_key (boolean false) fields))
                (put_field additional_key (boolean false) fields)
            else fields)
          ≡ true) [
            | true ↦
                require_all-accepted
                  (get properties_key (put_field additional_key (boolean false) fields))
                  (put_field additional_key (boolean false) fields)
                  (put_field-accepted additional_key (boolean false) fields additional_supported
                    refl h)
            | false ↦ h
          ]

walk_fields-lacks :
    (fields : Fields)
    → lacks_required_fields fields ≡ true
    → is_field required_key (walk_fields fields) ≡ false
unfolding is_field walk lacks_required get
walk_fields-lacks end_object h = refl
walk_fields-lacks (field key value fields) h = ground (arith, walk_fields-lacks fields)

module _ (strict : Bool) where
  mutual
    unfolding walk accepted lacks_required

    walk-accepted_in :
        (schema : Json)
        → (strict ≡ true → lacks_required schema ≡ true)
        → accepted strict (walk schema) ≡ true
    walk-accepted_in null free = refl
    walk-accepted_in (boolean b) free = refl
    walk-accepted_in (number n) free = refl
    walk-accepted_in (string s) free = refl
    walk-accepted_in (array items) free = walk_items-accepted items free
    walk-accepted_in (object fields) free = ground (
      arith,
      close-closed strict (walk_fields fields) (λ t. walk_fields-lacks fields (free t)),
      close-accepted strict (walk_fields fields),
      walk_fields-accepted fields free,
    )

    walk_items-accepted :
        (items : Items)
        → (strict ≡ true → lacks_required_items items ≡ true)
        → accepted_items strict (walk_items items) ≡ true
    walk_items-accepted end_array free = refl
    walk_items-accepted (item value items) free = ground (
      arith,
      walk-accepted_in value (λ t. ground (arith, free t)),
      walk_items-accepted items (λ t. ground (arith, free t)),
    )

    walk_fields-accepted :
        (fields : Fields)
        → (strict ≡ true → lacks_required_fields fields ≡ true)
        → accepted_fields strict (walk_fields fields) ≡ true
    walk_fields-accepted end_object free = refl
    walk_fields-accepted (field key value fields) free = ground (
      arith,
      walk-accepted_in value (λ t. ground (arith, free t)),
      walk_fields-accepted fields (λ t. ground (arith, free t)),
    )

-- A sanitized schema has no unsupported keyword as a key at any depth, and each part of it that
-- describes an object forbids additional properties and, where its properties are an object, has
-- required ones; if the schema has no key "required" at any depth, they are an array that lists
-- every property.
pub sanitize-accepted :
    (strict : Bool) (schema : Json)
    → (strict ≡ true → lacks_required schema ≡ true)
    → accepted strict (sanitize_json_schema schema) ≡ true
unfolding sanitize_json_schema
sanitize-accepted strict schema free = walk-accepted_in strict schema free
