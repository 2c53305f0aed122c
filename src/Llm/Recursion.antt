-- ===== src/Llm/Recursion.antt =====
-- schema_tools.py: `schema_is_recursive`, the search for a cycle of `$ref`. The recursion of `visits` is
-- counted down: `none` stands for fuel that ran out. A set is a list of its members, and `stack`, which
-- each visit leaves as it was, is an argument.
pub mod Fuel
pub mod Cycles
use econiq_ai.Prelude.{
  ℕ, zero, suc, Bool, true, false, Option, none, some, List, [], ◌∷◌, ◌++◌, any, not, ◌||◌,
  if◌then◌else◌, length,
}
use econiq_ai.Prelude.Text.{Text, codes, text_eq}
use econiq_ai.Llm.Json.{
  Json, Items, Fields, null, boolean, number, string, array, object, end_array, item, end_object,
  field, get,
}
use econiq_ai.Llm.Reply.{remove_prefix}

-- the name that a `$ref` gives
unfoldable pub ref_of : Option Json → List Text
unfolding remove_prefix
ref_of (some (string ref)) = elim (remove_prefix (codes "#/$defs/") ref) [
  | some name ↦ name ∷ []
  | none ↦ []
]
ref_of _ = []

-- `_refs`
unfoldable mutual
  unfolding ref_of get

  pub refs : Json → List Text
  refs null = []
  refs (boolean b) = []
  refs (number n) = []
  refs (string s) = []
  refs (array items) = refs_items items
  refs (object fields) = ref_of (get (codes "$ref") fields) ++ refs_fields fields

  pub refs_items : Items → List Text
  refs_items end_array = []
  refs_items (item value items) = refs value ++ refs_items items

  pub refs_fields : Fields → List Text
  refs_fields end_object = []
  refs_fields (field name value fields) = refs value ++ refs_fields fields

abbrev pub Edges : Type 0
Edges = List (Text × List Text)

unfoldable pub edges_of : Fields → Edges
unfolding refs
edges_of end_object = []
edges_of (field name body defs) = (name, refs body) ∷ edges_of defs

unfoldable pub has : Text → List Text → Bool
unfolding text_eq
has name set = any (text_eq name) set

unfoldable pub refs_from : Text → Edges → Option (List Text)
unfolding text_eq
refs_from name [] = none
refs_from name ((source, children) ∷ edges) =
    if text_eq name source then some children else refs_from name edges

-- whether a cycle was met, and what has been seen
abbrev pub Visit : Type 0
Visit = Option (Bool × List Text)

-- `any(visits(child) for child in children)`
unfoldable pub any_visits : (Text → List Text → Visit) → List Text → List Text → Visit
any_visits visit [] seen = some (false, seen)
any_visits visit (child ∷ children) seen = elim (visit child seen) [
  | none ↦ none
  | some (cyclic, now) ↦ if cyclic then some (true, now) else any_visits visit children now
]

unfoldable pub visits : Edges → ℕ → List Text → Text → List Text → Visit
unfolding has refs_from any_visits
visits edges zero stack name seen = none
visits edges (suc fuel) stack name seen =
    if has name stack
    then some (true, seen)
    else if has name seen
    then some (false, seen)
    else elim (refs_from name edges) [
      | none ↦ some (false, seen)
      | some children ↦ any_visits (visits edges fuel (name ∷ stack)) children (name ∷ seen)
    ]

unfoldable pub sources : Edges → List Text
sources [] = []
sources ((source, children) ∷ edges) = source ∷ sources edges

-- One unit of fuel for each definition is enough, and one for the last call.
unfoldable pub search : Edges → Visit
unfolding any_visits visits sources
search edges = any_visits (visits edges (suc (length edges)) []) (sources edges) []

unfoldable pub defs_of : Option Json → Fields
defs_of (some (object defs)) = defs
defs_of _ = end_object

unfoldable pub cyclic_in : Visit → Bool
cyclic_in none = false
cyclic_in (some (cyclic, seen)) = cyclic

unfoldable pub schema_is_recursive : Json → Bool
unfolding search edges_of defs_of cyclic_in get
schema_is_recursive (object fields) =
    cyclic_in (search (edges_of (defs_of (get (codes "$defs") fields))))
schema_is_recursive _ = false
