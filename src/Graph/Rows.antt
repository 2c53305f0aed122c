-- ===== src/Graph/Rows.antt =====
-- The rows of `relationships` and `nodes` that the graph service reads, and `_temporal_sql`. Ids and
-- instants are natural numbers. A weight is a whole number of some fixed unit.
use econiq_ai.Prelude.{ℕ, Bool, true, false, ◌&&◌, Option, none, some, List, ltb, leb, ◌==◌, any}
use econiq_ai.Ontology.Edges.{
  EntityType, RelationshipType, influences, creates, requires, expressed_by, affects, supports,
  contradicts, supersedes, derived_from,
}

abbrev pub relationship_index : RelationshipType → ℕ
relationship_index influences = 0
relationship_index creates = 1
relationship_index requires = 2
relationship_index expressed_by = 3
relationship_index affects = 4
relationship_index supports = 5
relationship_index contradicts = 6
relationship_index supersedes = 7
relationship_index derived_from = 8

abbrev pub same_relationship : RelationshipType → RelationshipType → Bool
same_relationship a b = relationship_index a == relationship_index b

pub record RelationshipRow : Type 0 where
  pub relationship_id : ℕ
  pub source_id : ℕ
  pub target_id : ℕ
  pub relationship_type : RelationshipType
  pub weight : ℕ
  pub valid_from : ℕ
  pub valid_to : Option ℕ

pub record NodeRow : Type 0 where
  pub node_id : ℕ
  pub node_type : EntityType

-- `valid_to IS NULL`
unfoldable pub is_open_ended : Option ℕ → Bool
is_open_ended none = true
is_open_ended (some end) = false

-- `valid_to IS NULL OR valid_to > :as_of`
unfoldable pub ends_after : ℕ → Option ℕ → Bool
ends_after moment none = true
ends_after moment (some end) = ltb moment end

-- `_temporal_sql`
unfoldable pub is_current : Option ℕ → RelationshipRow → Bool
unfolding is_open_ended ends_after
is_current none row = is_open_ended row.valid_to
is_current (some moment) row = leb row.valid_from moment && ends_after moment row.valid_to

-- `r.relationship_type = ANY(:types)`
unfoldable pub has_type : List RelationshipType → RelationshipRow → Bool
has_type types row = any (same_relationship row.relationship_type) types
