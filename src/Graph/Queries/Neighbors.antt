-- ===== src/Graph/Queries/Neighbors.antt =====
-- queries.py: `neighbors`, with the parameters that its statement names and those that it is given.
use mathlib.Core.Bool.{false≢true}
use econiq_ai.Prelude.{
  str_eq_iff, ℕ, ◌≡◌, ◌↔◌, ◌⊎◌, ==_iff, get_or, sym, subst, ap, ◌∙◌, Option-cases, refl, inl, inr,
  Bool, true, false, ◌&&◌, ◌||◌, Option, none, some, String, List, [], ◌∷◌, ◌++◌, ◌==◌, filter, map,
  if◌then◌else◌, In, Result, ok, err, statement_error,
}
use econiq_ai.Ontology.Edges.{
  RelationshipType, influences, creates, requires, expressed_by, affects, supports, contradicts,
  supersedes, derived_from,
}
use econiq_ai.Graph.Rows.{
  RelationshipRow, is_current, is_open_ended, has_type, relationship_index, same_relationship,
}
use econiq_ai.Prelude.Membership.{In-map, map-In, In-filter, filter-In, any-In, any_of_In}
use econiq_ai.Graph.Queries.{
  Direction, downstream, upstream, both, GraphEdge, edge_of_row, is_no_types, Snapshot,
}

-- What the execution of a statement asks of the parameters.
pub record Binding : Type 0 where
  pub accepts : List String → List String → Bool

-- A parameter that a statement names and is not given is an error, and without one there is none.
pub record IsStrict (binding : Binding) : Type 0 where
  pub missing :
      (named given : List String) (name : String)
      → In name named
      → ¬ In name given
      → binding.accepts named given ≡ false
  pub enough :
      (named given : List String)
      → ((name : String) → In name named → In name given)
      → binding.accepts named given ≡ true

-- the parameters of `_temporal_sql`
unfoldable pub temporal_names : Option ℕ → List String
temporal_names none = []
temporal_names (some moment) = "as_of" ∷ []

unfoldable pub type_names : List RelationshipType → List String
type_names [] = []
type_names (type ∷ types) = "types" ∷ []

unfoldable pub named : List RelationshipType → Option ℕ → List String
unfolding temporal_names type_names
named types as_of = temporal_names as_of ++ (type_names types ++ ("node_id" ∷ []))

-- `params`
unfoldable pub given : List RelationshipType → List String
unfolding type_names
given types = "node_id" ∷ type_names types

unfoldable pub at_end : Direction → ℕ → RelationshipRow → Bool
at_end downstream id row = row.source_id == id
at_end upstream id row = row.target_id == id
at_end both id row = row.source_id == id || row.target_id == id

unfoldable pub is_neighbor :
    Direction → List RelationshipType → Option ℕ → ℕ → RelationshipRow → Bool
unfolding is_current is_no_types has_type at_end
is_neighbor direction types as_of id row =
    is_current as_of row && (is_no_types types || has_type types row) && at_end direction id row

unfoldable pub neighbors :
    Binding → ℕ → Direction → List RelationshipType → Option ℕ → Snapshot → Result (List GraphEdge)
unfolding named given is_neighbor
neighbors binding id direction types as_of db =
    if binding.accepts (named types as_of) (given types)
    then ok (map edge_of_row (filter (is_neighbor direction types as_of id) db.relationships))
    else err statement_error

not_given : (types : List RelationshipType) → ¬ In "as_of" (given types)
unfolding given
not_given [] (inl e) = false≢true ((str_eq_iff "as_of" "node_id").1 e)
not_given [] (inr n) = elim n [ ]
not_given (type ∷ types) (inl e) = false≢true ((str_eq_iff "as_of" "node_id").1 e)
not_given (type ∷ types) (inr (inl e)) = false≢true ((str_eq_iff "as_of" "types").1 e)
not_given (type ∷ types) (inr (inr n)) = elim n [ ]

all_given :
    (types : List RelationshipType) (name : String)
    → In name (named types none)
    → In name (given types)
unfolding named given
all_given [] name (inl e) = inl e
all_given [] name (inr n) = elim n [ ]
all_given (type ∷ types) name (inl e) = inr (inl e)
all_given (type ∷ types) name (inr (inl e)) = inl e
all_given (type ∷ types) name (inr (inr n)) = elim n [ ]

abbrev relationship_at : ℕ → RelationshipType
relationship_at n =
    get_or
      (influences ∷ creates ∷ requires ∷ expressed_by ∷ affects ∷ supports ∷ contradicts
        ∷ supersedes ∷ [])
      n derived_from

relationship_at-relationship_index :
    (t : RelationshipType) → relationship_at (relationship_index t) ≡ t
relationship_at-relationship_index influences = refl
relationship_at-relationship_index creates = refl
relationship_at-relationship_index requires = refl
relationship_at-relationship_index expressed_by = refl
relationship_at-relationship_index affects = refl
relationship_at-relationship_index supports = refl
relationship_at-relationship_index contradicts = refl
relationship_at-relationship_index supersedes = refl
relationship_at-relationship_index derived_from = refl

same_relationship_iff : (a b : RelationshipType) → (same_relationship a b ≡ true) ↔ (a ≡ b)
same_relationship_iff a b = (
  λ t.
      sym (relationship_at-relationship_index a)
      ∙ ap relationship_at ((==_iff (relationship_index a) (relationship_index b)).0 t)
      ∙ relationship_at-relationship_index b,
  λ e. (==_iff (relationship_index a) (relationship_index b)).1 (ap relationship_index e),
)

-- The types that are asked for: all, where none is.
abbrev pub IsOneOf : List RelationshipType → RelationshipType → Type 0
IsOneOf types type = (types ≡ []) ⊎ In type types

types_iff :
    (types : List RelationshipType) (row : RelationshipRow)
    → (is_no_types types || has_type types row ≡ true) ↔ IsOneOf types row.relationship_type
unfolding is_no_types has_type
types_iff [] row = (λ t. inl refl, λ o. refl)
types_iff (type ∷ types) row = (
  λ t.
      let (found, m, e) = any-In (same_relationship row.relationship_type) (type ∷ types) t in
      inr (
        subst (λ z. In z (type ∷ types))
          (sym ((same_relationship_iff row.relationship_type found).0 e)) m),
  λ o. elim o [
    | inl e ↦ absurd (cc)
    | inr m ↦
        any_of_In row.relationship_type (same_relationship row.relationship_type) (type ∷ types) m
          ((same_relationship_iff row.relationship_type row.relationship_type).1 refl)
  ],
)

-- The row starts at the node, ends at it, or either.
abbrev pub Joins : Direction → ℕ → RelationshipRow → Type 0
Joins downstream id row = row.source_id ≡ id
Joins upstream id row = row.target_id ≡ id
Joins both id row = (row.source_id ≡ id) ⊎ (row.target_id ≡ id)

or_iff : (a b : Bool) → (a || b ≡ true) ↔ ((a ≡ true) ⊎ (b ≡ true))
or_iff true b = (λ t. inl refl, λ o. refl)
or_iff false b = (λ t. inr t, λ o. elim o [ inl e ↦ cc | inr e ↦ e ])

at_end_iff :
    (direction : Direction) (id : ℕ) (row : RelationshipRow)
    → (at_end direction id row ≡ true) ↔ Joins direction id row
unfolding at_end
at_end_iff downstream id row = ==_iff row.source_id id
at_end_iff upstream id row = ==_iff row.target_id id
at_end_iff both id row =
    let (there, back) = or_iff (row.source_id == id) (row.target_id == id) in
    (
      λ t. elim (there t) [
        | inl e ↦ inl ((==_iff row.source_id id).0 e)
        | inr e ↦ inr ((==_iff row.target_id id).0 e)
      ],
      λ o. elim o [
        | inl e ↦ back (inl ((==_iff row.source_id id).1 e))
        | inr e ↦ back (inr ((==_iff row.target_id id).1 e))
      ],
    )

is_current_iff : (row : RelationshipRow) → (is_current none row ≡ true) ↔ (row.valid_to ≡ none)
unfolding is_current is_open_ended
is_current_iff row = elim (Option-cases row.valid_to) [
  | inl e ↦ rw e (λ t. refl, λ n. refl)
  | inr (end, e) ↦ rw e (λ t. cc, λ n. cc)
]

-- A current row at the node, of a type that is asked for, with the ends, type and weight of the edge.
abbrev pub IsEdgeAt : Direction → List RelationshipType → ℕ → Snapshot → GraphEdge → Type 0
IsEdgeAt direction types id db edge =
    (row : RelationshipRow) × In row db.relationships
    × (row.valid_to ≡ none)
    × IsOneOf types row.relationship_type
    × Joins direction id row
    × (edge ≡ record {
      source_id = row.source_id;
      target_id = row.target_id;
      relationship_type = row.relationship_type;
      weight = row.weight;
    })

and_iff : (a b : Bool) → (a && b ≡ true) ↔ ((a ≡ true) × (b ≡ true))
and_iff true b = (λ t. (refl, t), λ (e, f). f)
and_iff false b = (λ t. cc, λ (e, f). cc)

is_neighbor_iff :
    (direction : Direction) (types : List RelationshipType) (id : ℕ) (row : RelationshipRow)
    → (is_neighbor direction types none id row ≡ true)
      ↔ ((row.valid_to ≡ none) × IsOneOf types row.relationship_type × Joins direction id row)
unfolding is_neighbor
is_neighbor_iff direction types id row =
    let (split, join) =
      and_iff (is_current none row && (is_no_types types || has_type types row))
        (at_end direction id row) in
    let (split_first, join_first) =
      and_iff (is_current none row) (is_no_types types || has_type types row) in
    (
      λ t.
          let (first, e) = split t in
          let (c, o) = split_first first in
          ((is_current_iff row).0 c, (types_iff types row).0 o, (at_end_iff direction id row).0 e),
      λ (c, o, e). join (
        join_first ((is_current_iff row).1 c, (types_iff types row).1 o),
        (at_end_iff direction id row).1 e,
      ),
    )

neighbors_found :
    (direction : Direction) (types : List RelationshipType) (id : ℕ) (db : Snapshot)
    (edge : GraphEdge)
    → In edge (map edge_of_row (filter (is_neighbor direction types none id) db.relationships))
      ↔ IsEdgeAt direction types id db edge
neighbors_found direction types id db edge =
    let at = is_neighbor direction types none id in
    (
      λ m.
          let (row, i, e) = map-In edge_of_row edge (filter at db.relationships) m in
          let (j, t) = In-filter row at db.relationships i in
          let (c, o, k) = (is_neighbor_iff direction types id row).0 t in (row, j, c, o, k, e),
      λ (row, j, c, o, k, e).
          subst (λ z. In z (map edge_of_row (filter at db.relationships))) (sym e)
            (In-map row edge_of_row (filter at db.relationships) (
              filter-In row at db.relationships j
                ((is_neighbor_iff direction types id row).1 (c, o, k)))),
    )

-- With a driver that refuses a statement exactly where a name in it has no value: neighbors
-- without an instant returns exactly the edges of the rows that have no end, are of a type asked
-- for, if any is, and have the node at the end that the direction asks for, with the ends, the
-- type and the weight of the row; with an instant it raises a statement error, whatever the tables
-- hold.
pub neighbors_as_of :
    (binding : Binding) (id moment : ℕ) (direction : Direction) (types : List RelationshipType)
    (db : Snapshot)
    → IsStrict binding
    → (edges : List GraphEdge) × (neighbors binding id direction types none db ≡ ok edges)
      × ((edge : GraphEdge) → In edge edges ↔ IsEdgeAt direction types id db edge)
      × (neighbors binding id direction types (some moment) db ≡ err statement_error)
unfolding neighbors
neighbors_as_of binding id moment direction types db strict =
    let now = strict.enough (named types none) (given types) (all_given types) in
    let later =
      strict.missing (named types (some moment)) (given types) "as_of" (inl refl)
        (not_given types) in
    (_, rw now refl, neighbors_found direction types id db, rw later refl)
