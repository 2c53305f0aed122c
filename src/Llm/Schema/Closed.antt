-- ===== src/Llm/Schema/Closed.antt =====
-- schema_tools.py: what `_close` leaves of an object's description.
use econiq_ai.Prelude.{
  ◌≡◌, refl, sym, ◌∙◌, subst, Bool, true, false, Option, none, some, not, ◌&&◌, ◌||◌, if◌then◌else◌,
  arith, Bool-cases, inl, inr,
}
use econiq_ai.Prelude.Text.{Text, text_eq}
use econiq_ai.Prelude.Strips.{text_eq_refl, text_eq_sound}
use econiq_ai.Llm.Json.{
  Json, Items, Fields, null, boolean, number, string, array, object, end_array, item, end_object,
  field, get, put_field, is_field,
}
use econiq_ai.Llm.Schema.{
  properties_key, additional_key, required_key, names, describes_object, require_all, close,
}

-- `put_field` and `get`
pub get-put_field :
    (key : Text) (value : Json) (fields : Fields)
    → get key (put_field key value fields) ≡ some value
unfolding get put_field
get-put_field key value end_object = rw (text_eq_refl key) refl
get-put_field key value (field name old fields) =
    ground (arith, text_eq_refl key, get-put_field key value fields)

get-put_field_other :
    (key other : Text) (value : Json) (fields : Fields)
    → text_eq key other ≡ false
    → get other (put_field key value fields) ≡ get other fields
unfolding get put_field
get-put_field_other key other value end_object h = rw h refl
get-put_field_other key other value (field name old fields) h =
    elim (Bool-cases (text_eq name key)) [
      | inl e ↦
          let f : text_eq name other ≡ false =
            subst (λ n. text_eq n other ≡ false) (sym (text_eq_sound name key e)) h in
          rw (e, f) refl
      | inr e ↦ ground (arith, get-put_field_other key other value fields h)
    ]

abbrev is_false : Option Json → Bool
is_false (some (boolean false)) = true
is_false _ = false

abbrev is_object : Option Json → Bool
is_object (some (object fields)) = true
is_object _ = false

-- whether an array has the name among its texts
abbrev is_word : Text → Json → Bool
is_word name (string word) = text_eq name word
is_word name _ = false

lists : Text → Items → Bool
lists name end_array = false
lists name (item value items) = is_word name value || lists name items

-- whether an array has each property's name
lists_each : Fields → Items → Bool
lists_each end_object items = true
lists_each (field name value fields) items = lists name items && lists_each fields items

-- Where the properties are an object, what is required is an array that lists them all.
lists_all : Option Json → Option Json → Bool
lists_all (some (object properties)) (some (array items)) = lists_each properties items
lists_all (some (object properties)) _ = false
lists_all _ _ = true

-- An object's description allows no other property and requires some, or all if `strict`.
pub closed : Bool → Fields → Bool
closed strict fields =
    not (describes_object fields)
    || (is_false (get additional_key fields)
        && (not (is_object (get properties_key fields)) || is_field required_key fields)
        && (not strict || lists_all (get properties_key fields) (get required_key fields)))

require_all_other :
    (o : Option Json) (other : Text) (fields : Fields)
    → text_eq required_key other ≡ false
    → get other (require_all o fields) ≡ get other fields
unfolding require_all
require_all_other (some (object properties)) other fields h =
    elim (is_field required_key fields)
      as (λ b.
        get other (if b then fields else put_field required_key (array (names properties)) fields)
        ≡ get other fields) [
          | true ↦ refl
          | false ↦ get-put_field_other required_key other (array (names properties)) fields h
        ]
require_all_other none other fields h = refl
require_all_other (some null) other fields h = refl
require_all_other (some (boolean b)) other fields h = refl
require_all_other (some (number n)) other fields h = refl
require_all_other (some (string s)) other fields h = refl
require_all_other (some (array items)) other fields h = refl

require_all_required :
    (o : Option Json) (fields : Fields)
    → is_object o ≡ true
    → is_field required_key (require_all o fields) ≡ true
unfolding require_all is_field
require_all_required (some (object properties)) fields h =
    elim (Bool-cases (is_field required_key fields)) [
      | inl e ↦ rw (require_all, e) e
      | inr e ↦
          rw (require_all, e)
            (rw (is_field, get-put_field required_key (array (names properties)) fields) refl)
    ]
require_all_required none fields h = cc
require_all_required (some null) fields h = cc
require_all_required (some (boolean b)) fields h = cc
require_all_required (some (number n)) fields h = cc
require_all_required (some (string s)) fields h = cc
require_all_required (some (array items)) fields h = cc

get_required_all :
    (properties fields : Fields)
    → is_field required_key fields ≡ false
    → get required_key (require_all (some (object properties)) fields)
      ≡ some (array (names properties))
unfolding require_all
get_required_all properties fields h =
    rw h (get-put_field required_key (array (names properties)) fields)

lists_more :
    (value : Json) (fields : Fields) (items : Items)
    → lists_each fields items ≡ true
    → lists_each fields (item value items) ≡ true
unfolding lists_each lists
lists_more value end_object items h = refl
lists_more value (field name old fields) items h = ground (arith, lists_more value fields items)

lists-names : (fields : Fields) → lists_each fields (names fields) ≡ true
unfolding lists_each lists names
lists-names end_object = refl
lists-names (field name value fields) =
    ground (
      arith,
      text_eq_refl name,
      lists_more (string name) fields (names fields) (lists-names fields),
    )

require_all-lists :
    (o : Option Json) (fields : Fields)
    → is_field required_key fields ≡ false
    → lists_all o (get required_key (require_all o fields)) ≡ true
unfolding lists_all
require_all-lists (some (object properties)) fields h =
    subst (λ r. lists_all (some (object properties)) r ≡ true)
      (sym (get_required_all properties fields h)) (lists-names properties)
require_all-lists none fields h = refl
require_all-lists (some null) fields h = refl
require_all-lists (some (boolean b)) fields h = refl
require_all-lists (some (number n)) fields h = refl
require_all-lists (some (string s)) fields h = refl
require_all-lists (some (array items)) fields h = refl

guarded :
    (strict a b c d e : Bool)
    → b ≡ true
    → (c ≡ true → d ≡ true)
    → (strict ≡ true → e ≡ true)
    → (not a || (b && (not c || d) && (not strict || e))) ≡ true
guarded strict a b c d e p q r = ground (arith, q, r)

module _ (strict : Bool) where
  described :
      (fields : Fields)
      → (strict ≡ true → is_field required_key fields ≡ false)
      → closed strict (
          require_all
            (get properties_key (put_field additional_key (boolean false) fields))
            (put_field additional_key (boolean false) fields))
        ≡ true
  unfolding closed is_field
  described fields free =
      let shut = put_field additional_key (boolean false) fields in
      let o = get properties_key shut in
      let kept : is_field required_key shut ≡ is_field required_key fields =
        rw (is_field, get-put_field_other additional_key required_key (boolean false) fields refl)
          refl in
      let same : get properties_key (require_all o shut) ≡ o =
        require_all_other o properties_key shut refl in
      guarded strict (describes_object (require_all o shut)) _ _ _ _
        (rw
          (
            require_all_other o additional_key shut refl,
            get-put_field additional_key (boolean false) fields,
          )
          refl)
        (λ h. require_all_required o shut (rw same at h))
        (λ t.
          subst (λ p. lists_all p (get required_key (require_all o shut)) ≡ true) (sym same)
            (require_all-lists o shut (kept ∙ free t)))

  pub close-closed :
      (fields : Fields)
      → (strict ≡ true → is_field required_key fields ≡ false)
      → closed strict (close fields) ≡ true
  unfolding closed close
  close-closed fields free = elim (Bool-cases (describes_object fields)) [
    | inl e ↦ rw (close, e) (described fields free)
    | inr e ↦ rw (close, e) (rw e refl)
  ]
