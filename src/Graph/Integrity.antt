-- ===== src/Graph/Integrity.antt =====
-- integrity.py: the checks of `GraphIntegrity`, over the tables that they query. The details of a
-- violation, texts for a reader, are left out.
pub mod Cycles
pub mod Found
pub mod Healthy
use econiq_ai.Prelude.{
  ℕ, ◌<◌, Bool, true, false, not, ◌&&◌, ◌||◌, Option, none, some, String, str_eq, List, [], ◌∷◌,
  ◌++◌, ◌==◌, ltb, count, any, filter, map, drop, if◌then◌else◌,
}
use econiq_ai.Prelude.Text.{text_eq}
use econiq_ai.Ontology.Edges.{
  EntityType, document, claim, event, process, bottleneck, capability, asset, same_entity,
  influences, edge_is_legal,
}
use econiq_ai.Graph.Rows.{RelationshipRow, NodeRow, same_relationship, is_open_ended, is_current}
use econiq_ai.Graph.Walks.{Hop, WalkRow, is_among, walk}

pub record Revision : Type 0 where
  pub entity_id : ℕ
  pub valid_to : Option ℕ

-- The tables. A node stands once in `nodes`, by its primary key.
pub record Tables : Type 0 where
  pub relationships : List RelationshipRow
  pub nodes : List NodeRow
  pub processes : List Revision
  pub events : List Revision
  pub bottlenecks : List Revision
  pub capabilities : List Revision
  pub assets : List Revision
  pub capability_requirements : List Revision
  pub documents : List ℕ
  pub claims : List ℕ

pub record IntegrityViolation : Type 0 where
  pub kind : String
  pub node_id : ℕ

abbrev pub violation : String → ℕ → IntegrityViolation
violation kind node_id = record { kind = kind; node_id = node_id }

-- The type of a node, by a join with `nodes`.
unfoldable pub type_of : ℕ → List NodeRow → Option EntityType
type_of id [] = none
type_of id (row ∷ rows) = if row.node_id == id then some row.node_type else type_of id rows

-- A row of the query, where both joins find a type.
unfoldable pub judge_edge :
    RelationshipRow → Option EntityType → Option EntityType → List IntegrityViolation
judge_edge row none target = []
judge_edge row (some source) none = []
judge_edge row (some source) (some target) =
    if edge_is_legal source row.relationship_type target
    then []
    else violation "illegal_edge" row.relationship_id ∷ []

unfoldable pub edge_violations : List NodeRow → RelationshipRow → List IntegrityViolation
unfolding judge_edge type_of
edge_violations nodes row =
    judge_edge row (type_of row.source_id nodes) (type_of row.target_id nodes)

unfoldable pub illegal_in : List NodeRow → List RelationshipRow → List IntegrityViolation
unfolding edge_violations is_open_ended
illegal_in nodes [] = []
illegal_in nodes (row ∷ rows) =
    (if is_open_ended row.valid_to then edge_violations nodes row else []) ++ illegal_in nodes rows

unfoldable pub illegal_edges : Tables → List IntegrityViolation
unfolding illegal_in
illegal_edges db = illegal_in db.nodes db.relationships

abbrev pub downstream_hop : RelationshipRow → Hop
downstream_hop row = record {
  relationship_id = row.relationship_id;
  from_id = row.source_id;
  to_id = row.target_id;
}

-- `relationship_type = 'influences' AND valid_to IS NULL`
unfoldable pub is_influence : RelationshipRow → Bool
unfolding is_open_ended
is_influence row = same_relationship influences row.relationship_type && is_open_ended row.valid_to

unfoldable pub influence_hops : List RelationshipRow → List Hop
unfolding is_influence
influence_hops rows = map downstream_hop (filter is_influence rows)

-- `SELECT DISTINCT start_id, depth, path`
abbrev pub same_row : WalkRow → WalkRow → Bool
same_row a b = (a.origin == b.origin) && (a.depth == b.depth) && text_eq a.path b.path

unfoldable pub distinct_rows : List WalkRow → List WalkRow
distinct_rows [] = []
distinct_rows (row ∷ rows) =
    let rest = distinct_rows rows in if any (same_row row) rest then rest else row ∷ rest

unfoldable pub comes_back : WalkRow → Bool
comes_back row = row.node_id == row.origin

-- A path may come back to its start alone: `path[2:]` is what is visited.
unfoldable pub causal_cycles : ℕ → Tables → List IntegrityViolation
unfolding influence_hops walk comes_back distinct_rows
causal_cycles max_depth db =
    let hops = influence_hops db.relationships in
    let sources = map (λ (hop : Hop). hop.from_id) hops in
    map (λ (row : WalkRow). violation "causal_cycle" row.origin)
      (distinct_rows (filter comes_back (walk (drop 1) hops max_depth sources)))

unfoldable pub would_create_cycle : Tables → ℕ → ℕ → Bool
unfolding influence_hops walk
would_create_cycle db source_id target_id =
    if source_id == target_id
    then true
    else any (λ (row : WalkRow). row.node_id == source_id)
        (walk (λ path. path) (influence_hops db.relationships) 12 (target_id ∷ []))

abbrev pub ids_of : List Revision → List ℕ
ids_of rows = map (λ (row : Revision). row.entity_id) rows

unfoldable pub has_entity : Tables → ℕ → Bool
has_entity db id =
    is_among (ids_of db.processes) id
    || is_among (ids_of db.bottlenecks) id
    || is_among (ids_of db.capabilities) id
    || is_among (ids_of db.assets) id
    || is_among (ids_of db.events) id
    || is_among db.documents id
    || is_among db.claims id

unfoldable pub touches : ℕ → RelationshipRow → Bool
unfolding is_open_ended
touches id row = is_open_ended row.valid_to && (row.source_id == id || row.target_id == id)

unfoldable pub must_connect : EntityType → Bool
must_connect type =
    same_entity type capability || same_entity type asset || same_entity type bottleneck

unfoldable pub without_entity : Tables → List IntegrityViolation
unfolding has_entity
without_entity db =
    map (λ (row : NodeRow). violation "node_without_entity" row.node_id)
      (filter (λ (row : NodeRow). not (has_entity db row.node_id)) db.nodes)

unfoldable pub disconnected : Tables → List IntegrityViolation
unfolding must_connect touches
disconnected db =
    map (λ (row : NodeRow). violation "disconnected_node" row.node_id)
      (filter
        (λ (row : NodeRow).
          must_connect row.node_type && not (any (touches row.node_id) db.relationships))
        db.nodes)

unfoldable pub orphaned_nodes : Tables → List IntegrityViolation
unfolding without_entity disconnected
orphaned_nodes db = without_entity db ++ disconnected db

-- The groups of `GROUP BY id`.
unfoldable pub groups : List ℕ → List ℕ
groups [] = []
groups (id ∷ ids) = let rest = groups ids in if is_among rest id then rest else id ∷ rest

abbrev pub appears : ℕ → List ℕ → ℕ
appears id ids = count (λ x. x == id) ids

-- `HAVING COUNT(*) > 1`
unfoldable pub repeated : List ℕ → List ℕ
unfolding groups
repeated ids = filter (λ id. ltb 1 (appears id ids)) (groups ids)

unfoldable pub current_ids : List Revision → List ℕ
unfolding is_open_ended
current_ids rows = ids_of (filter (λ (row : Revision). is_open_ended row.valid_to) rows)

abbrev pub relationship_revisions : List RelationshipRow → List Revision
relationship_revisions rows =
    map
      (λ (row : RelationshipRow). record {
        entity_id = row.relationship_id;
        valid_to = row.valid_to;
      })
      rows

-- The tables with revisions, in the order of the dictionary.
abbrev pub revised : Tables → List (List Revision)
revised db =
    db.processes
    ∷ db.events
    ∷ db.bottlenecks
    ∷ db.capabilities
    ∷ db.assets
    ∷ relationship_revisions db.relationships
    ∷ db.capability_requirements
    ∷ []

unfoldable pub multiple_in : List (List Revision) → List IntegrityViolation
unfolding repeated current_ids
multiple_in [] = []
multiple_in (table ∷ tables) =
    map (violation "multiple_current_revisions") (repeated (current_ids table))
    ++ multiple_in tables

unfoldable pub multiple_current_revisions : Tables → List IntegrityViolation
unfolding multiple_in
multiple_current_revisions db = multiple_in (revised db)

pub record IntegrityReport : Type 0 where
  pub violations : List IntegrityViolation
  pub checked_at : ℕ

-- `check`, at a moment that `as_of` or the clock gives
unfoldable pub check : Tables → ℕ → IntegrityReport
unfolding illegal_edges causal_cycles orphaned_nodes multiple_current_revisions
check db moment = record {
  violations =
      illegal_edges db
      ++ (causal_cycles 8 db ++ (orphaned_nodes db ++ multiple_current_revisions db));
  checked_at = moment;
}

-- `assert_healthy` returns the report or raises `AssertionError`.
pub data Health : Type 0 where
  healthy : IntegrityReport → Health
  unhealthy : List IntegrityViolation → Health

unfoldable pub is_blocking : List String → IntegrityViolation → Bool
is_blocking ignore v = not (any (λ kind. str_eq kind v.kind) ignore)

abbrev pub default_ignore : List String
default_ignore = "disconnected_node" ∷ []

unfoldable pub verdict : IntegrityReport → List IntegrityViolation → Health
verdict report [] = healthy report
verdict report (v ∷ vs) = unhealthy (v ∷ vs)

unfoldable pub assert_healthy : Tables → List String → ℕ → Health
unfolding check is_blocking verdict
assert_healthy db ignore moment =
    let report = check db moment in verdict report (filter (is_blocking ignore) report.violations)
