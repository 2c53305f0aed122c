-- ===== src/Graph/Queries.antt =====
-- queries.py and types.py: `GraphQueries` over the tables, and the paths that it returns. Slugs,
-- confidences and rationales, which are passed on, are left out.
pub mod Neighbors
pub mod Found
pub mod Paths
use econiq_ai.Prelude.{
  ℕ, zero, suc, ◌+◌, ◌*◌, ◌≡◌, Bool, true, false, not, ◌&&◌, ◌||◌, Option, none, some, List, [],
  ◌∷◌, ◌++◌, ◌==◌, ltb, leb, any, filter, map, take, length, if◌then◌else◌, Result, ok, err,
  key_error, value_error, type_error, String,
}
use econiq_ai.Prelude.Text.{Text}
use econiq_ai.Prelude.Sorting.{sort_by}
use econiq_ai.Ontology.Edges.{
  EntityType, RelationshipType, process, asset, same_entity, influences, creates, requires,
  expressed_by,
}
use econiq_ai.Graph.Rows.{RelationshipRow, NodeRow, is_current, has_type}
use econiq_ai.Graph.Walks.{Hop, WalkRow, is_among, walk}

pub data Direction : Type 0 where
  downstream upstream both : Direction

pub record GraphNode : Type 0 where
  pub node_id : ℕ
  pub node_type : EntityType
  pub label : Text

pub record GraphEdge : Type 0 where
  pub source_id : ℕ
  pub target_id : ℕ
  pub relationship_type : RelationshipType
  pub weight : ℕ

-- `Path`
pub record GraphPath : Type 0 where
  pub nodes : List GraphNode
  pub edges : List GraphEdge

unfoldable pub depth_of : GraphPath → ℕ
depth_of path = length path.edges

-- `nodes[0]` and `nodes[-1]`: a path has a node.
unfoldable pub first_node : List GraphNode → Option GraphNode
first_node [] = none
first_node (node ∷ nodes) = some node

unfoldable pub last_node : List GraphNode → Option GraphNode
last_node [] = none
last_node (node ∷ []) = some node
last_node (node ∷ next ∷ nodes) = last_node (next ∷ nodes)

unfoldable pub start_of : GraphPath → Option GraphNode
unfolding first_node
start_of path = first_node path.nodes

unfoldable pub end_of : GraphPath → Option GraphNode
unfolding last_node
end_of path = last_node path.nodes

-- The product of the weights.
unfoldable pub weight_of : List GraphEdge → ℕ
weight_of [] = 1
weight_of (edge ∷ edges) = edge.weight * weight_of edges

pub record TraversalSpec : Type 0 where
  pub max_hops : ℕ
  pub direction : Direction
  pub relationship_types : List RelationshipType
  pub target_types : List EntityType
  pub as_of : Option ℕ
  pub limit : ℕ

-- `__post_init__`
unfoldable pub validated : TraversalSpec → Result TraversalSpec
validated spec =
    if ltb spec.max_hops 1
    then err value_error
    else if ltb spec.limit 1
    then err value_error
    else ok spec

abbrev pub discovery_edges : List RelationshipType
discovery_edges = influences ∷ creates ∷ requires ∷ expressed_by ∷ []

-- What the queries read: `labels` is what `_label_union` selects, with one row for an id and type.
pub record Snapshot : Type 0 where
  pub relationships : List RelationshipRow
  pub nodes : List NodeRow
  pub labels : List (EntityType × ℕ × Text)

unfoldable pub is_no_types : List RelationshipType → Bool
is_no_types [] = true
is_no_types (type ∷ types) = false

-- `WHERE {temporal}{type_filter}`
unfoldable pub is_walked : TraversalSpec → RelationshipRow → Bool
unfolding is_current has_type is_no_types
is_walked spec row =
    is_current spec.as_of row
    && (is_no_types spec.relationship_types || has_type spec.relationship_types row)

abbrev pub forth : RelationshipRow → Hop
forth row = record {
  relationship_id = row.relationship_id;
  from_id = row.source_id;
  to_id = row.target_id;
}

abbrev pub back : RelationshipRow → Hop
back row = record {
  relationship_id = row.relationship_id;
  from_id = row.target_id;
  to_id = row.source_id;
}

-- `branches`
unfoldable pub branches : Direction → List RelationshipRow → List Hop
branches downstream rows = map forth rows
branches upstream rows = map back rows
branches both rows = map forth rows ++ map back rows

unfoldable pub hops_of : TraversalSpec → Snapshot → List Hop
unfolding is_walked branches
hops_of spec db = branches spec.direction (filter (is_walked spec) db.relationships)

-- The rows of the query, ordered by depth, up to the limit.
unfoldable pub rows_of : TraversalSpec → List ℕ → Snapshot → List WalkRow
unfolding hops_of walk
rows_of spec seeds db = take spec.limit (walk (λ path. path) (hops_of spec db) spec.max_hops seeds)

abbrev pub unlabelled : Text
unlabelled = 40 ∷ 117 ∷ 110 ∷ 108 ∷ 97 ∷ 98 ∷ 101 ∷ 108 ∷ 108 ∷ 101 ∷ 100 ∷ 41 ∷ []

-- `_truncate`, with an ellipsis
unfoldable pub truncate : Text → Text
truncate label = if leb (length label) 120 then label else take 119 label ++ (8230 ∷ [])

unfoldable pub label_of : NodeRow → List (EntityType × ℕ × Text) → Text
label_of node [] = unlabelled
label_of node ((type, id, label) ∷ labels) =
    if (id == node.node_id) && same_entity type node.node_type then label else label_of node labels

-- `nodes`, for one id
unfoldable pub node_in : List (EntityType × ℕ × Text) → ℕ → List NodeRow → Option GraphNode
unfolding truncate label_of
node_in labels id [] = none
node_in labels id (row ∷ rows) =
    if row.node_id == id
    then some (record {
      node_id = row.node_id;
      node_type = row.node_type;
      label = truncate (label_of row labels);
    })
    else node_in labels id rows

unfoldable pub node_of : Snapshot → ℕ → Option GraphNode
unfolding node_in
node_of db id = node_in db.labels id db.nodes

abbrev pub edge_of_row : RelationshipRow → GraphEdge
edge_of_row row = record {
  source_id = row.source_id;
  target_id = row.target_id;
  relationship_type = row.relationship_type;
  weight = row.weight;
}

-- `_edges_by_id`, for one id: of two rows the last is kept.
unfoldable pub edge_in : Option ℕ → ℕ → Option GraphEdge → List RelationshipRow → Option GraphEdge
unfolding is_current
edge_in as_of id found [] = found
edge_in as_of id found (row ∷ rows) =
    edge_in as_of id
      (if (row.relationship_id == id) && is_current as_of row
        then some (edge_of_row row)
        else found)
      rows

unfoldable pub edge_of : Option ℕ → Snapshot → ℕ → Option GraphEdge
unfolding edge_in
edge_of as_of db id = edge_in as_of id none db.relationships

abbrev pub with_some {ℓ} : {A : Type ℓ} → Option A → List A → List A
with_some none rest = rest
with_some (some a) rest = a ∷ rest

-- `tuple(found[x] for x in xs if x in found)`
unfoldable pub present {ℓ} : {A : Type ℓ} → (ℕ → Option A) → List ℕ → List A
present found [] = []
present found (x ∷ xs) = with_some (found x) (present found xs)

unfoldable pub is_no_targets : List EntityType → Bool
is_no_targets [] = true
is_no_targets (type ∷ types) = false

-- One round of the loop over the rows: a path, or none where the loop goes on. Edges and nodes are
-- read after the rows, from the tables as they are `later`.
unfoldable pub path_of : TraversalSpec → Snapshot → WalkRow → Option GraphPath
unfolding present node_of edge_of
path_of spec later row =
    let nodes = present (node_of later) row.path in
    let edges = present (edge_of spec.as_of later) row.edges in
    if length nodes == length edges + 1
    then some (record { nodes = nodes; edges = edges })
    else none

-- `if allowed and nodes[row["node_id"]].node_type not in allowed`, with the `KeyError` of a node
-- that is gone
unfoldable pub is_wanted : TraversalSpec → Snapshot → WalkRow → Result Bool
unfolding node_of is_no_targets
is_wanted spec later row =
    if is_no_targets spec.target_types then ok true else elim (node_of later row.node_id) [
      | none ↦ err key_error
      | some node ↦ ok (any (same_entity node.node_type) spec.target_types)
    ]

unfoldable pub keep_path :
    Result Bool → Option GraphPath → Result (List GraphPath) → Result (List GraphPath)
keep_path (err e) path rest = err e
keep_path (ok wanted) path (err e) = err e
keep_path (ok false) path (ok paths) = ok paths
keep_path (ok true) path (ok paths) = ok (with_some path paths)

unfoldable pub paths_of : TraversalSpec → Snapshot → List WalkRow → Result (List GraphPath)
unfolding path_of is_wanted keep_path
paths_of spec later [] = ok []
paths_of spec later (row ∷ rows) =
    keep_path (is_wanted spec later row) (path_of spec later row) (paths_of spec later rows)

-- No seeds give no rows.
unfoldable pub traverse : TraversalSpec → List ℕ → Snapshot → Snapshot → Result (List GraphPath)
unfolding rows_of paths_of
traverse spec seeds db later = paths_of spec later (rows_of spec seeds db)
