-- ===== src/Graph/Queries/Found.antt =====
-- queries.py: a route over relationships between known nodes becomes a path with its ends.
use econiq_ai.Prelude.{
  ℕ, ◌+◌, ◌≡◌, ◌⊎◌, refl, sym, ◌∙◌, ap, subst, inl, inr, true, ◌&&◌, Option, none, some, List, [],
  ◌∷◌, ◌++◌, ◌==◌, ==_iff, ==_refl, Bool-cases, Option-cases, if◌then◌else◌, arith, In, map, filter,
  length, length-append,
}
use econiq_ai.Prelude.Membership.{In-append, In-append_right, map-In, In-filter}
use econiq_ai.Prelude.Text.{Text}
use econiq_ai.Ontology.Edges.{EntityType}
use econiq_ai.Graph.Rows.{RelationshipRow, NodeRow, is_current}
use econiq_ai.Graph.Walks.{Hop, WalkRow, first_row, next_row}
use econiq_ai.Graph.Walks.Routes.{Route, start, next}
use econiq_ai.Graph.Queries.{
  Direction, downstream, upstream, both, GraphNode, GraphEdge, GraphPath, first_node, last_node,
  start_of, end_of, TraversalSpec, Snapshot, is_walked, forth, back, branches, hops_of, node_in,
  node_of, edge_of_row, edge_in, edge_of, present, path_of,
}

abbrev pub IsNode : Snapshot → ℕ → Type 0
IsNode db id = (node : GraphNode) × (node_of db id ≡ some node)

abbrev pub IsEdge : TraversalSpec → Snapshot → ℕ → Type 0
IsEdge spec db id = (edge : GraphEdge) × (edge_of spec.as_of db id ≡ some edge)

-- The foreign keys of `relationships`.
abbrev pub HasNodes : Snapshot → Type 0
HasNodes db =
    (row : RelationshipRow)
    → In row db.relationships
    → IsNode db row.source_id × IsNode db row.target_id

node_in-id :
    (labels : List (EntityType × ℕ × Text)) (id : ℕ) (rows : List NodeRow) (node : GraphNode)
    → node_in labels id rows ≡ some node
    → node.node_id ≡ id
unfolding node_in
node_in-id labels id [] node e = absurd (cc)
node_in-id labels id (row ∷ rows) node e = elim (Bool-cases (row.node_id == id)) [
  | inl t ↦
      let f = rw t at e in
      let same : row.node_id ≡ node.node_id =
        ap (λ (o : Option GraphNode). elim o [ none ↦ row.node_id | some n ↦ n.node_id ]) f in
      sym same ∙ (==_iff row.node_id id).0 t
  | inr t ↦ node_in-id labels id rows node (rw t at e)
]

pub node_of-id :
    (db : Snapshot) (id : ℕ) (node : GraphNode) → node_of db id ≡ some node → node.node_id ≡ id
unfolding node_of
node_of-id db id node e = node_in-id db.labels id db.nodes node e

-- A hop is a relationship that is walked, one way or the other.
branches-In :
    (direction : Direction) (rows : List RelationshipRow) (hop : Hop)
    → In hop (branches direction rows)
    → (row : RelationshipRow) × In row rows × ((hop ≡ forth row) ⊎ (hop ≡ back row))
unfolding branches
branches-In downstream rows hop m = let (row, i, e) = map-In forth hop rows m in (row, i, inl e)
branches-In upstream rows hop m = let (row, i, e) = map-In back hop rows m in (row, i, inr e)
branches-In both rows hop m = elim (In-append hop (map forth rows) (map back rows) m) [
  | inl l ↦ let (row, i, e) = map-In forth hop rows l in (row, i, inl e)
  | inr l ↦ let (row, i, e) = map-In back hop rows l in (row, i, inr e)
]

-- An edge that is read stays read.
edge_in-keeps :
    (as_of : Option ℕ) (id : ℕ) (edge : GraphEdge) (rows : List RelationshipRow)
    → (other : GraphEdge) × (edge_in as_of id (some edge) rows ≡ some other)
unfolding edge_in
edge_in-keeps as_of id edge [] = (edge, refl)
edge_in-keeps as_of id edge (row ∷ rows) =
    elim (Bool-cases ((row.relationship_id == id) && is_current as_of row)) [
      | inl e ↦ rw e (edge_in-keeps as_of id (edge_of_row row) rows)
      | inr e ↦ rw e (edge_in-keeps as_of id edge rows)
    ]

edge_in-In :
    (as_of : Option ℕ) (row : RelationshipRow) (found : Option GraphEdge)
    (rows : List RelationshipRow)
    → In row rows
    → is_current as_of row ≡ true
    → (edge : GraphEdge) × (edge_in as_of row.relationship_id found rows ≡ some edge)
unfolding edge_in
edge_in-In as_of row found [] m t = elim m [ ]
edge_in-In as_of row found (other ∷ rows) (inl e) t =
    subst
      (λ r.
        (edge : GraphEdge) × (edge_in as_of row.relationship_id
            (if (r.relationship_id == row.relationship_id) && is_current as_of r
              then some (edge_of_row r)
              else found)
            rows
          ≡ some edge))
      e
      (rw (==_refl row.relationship_id, t)
        (edge_in-keeps as_of row.relationship_id (edge_of_row row) rows))
edge_in-In as_of row found (other ∷ rows) (inr i) t =
    edge_in-In as_of row
      (if (other.relationship_id == row.relationship_id) && is_current as_of other
        then some (edge_of_row other)
        else found)
      rows i t

-- What a row needs for a path: known nodes and edges, one node more than edges, and its two ends.
pub record IsReadable (spec : TraversalSpec) (db : Snapshot) (row : WalkRow) : Type 0 where
  pub nodes : (id : ℕ) → In id row.path → IsNode db id
  pub edges : (id : ℕ) → In id row.edges → IsEdge spec db id
  pub sizes : length row.path ≡ length row.edges + 1
  pub begins : (rest : List ℕ) × (row.path ≡ row.origin ∷ rest)
  pub ends : (before : List ℕ) × (row.path ≡ before ++ (row.node_id ∷ []))

module _ (spec : TraversalSpec) (db : Snapshot) (keys : HasNodes db) where
  -- the nodes and the edge of a hop
  hop_known :
      (hop : Hop)
      → In hop (hops_of spec db)
      → IsNode db hop.from_id × IsNode db hop.to_id × IsEdge spec db hop.relationship_id
  unfolding hops_of edge_of is_walked
  hop_known hop m =
      let (row, i, dir) =
        branches-In spec.direction (filter (is_walked spec) db.relationships) hop m in
      let (j, t) = In-filter row (is_walked spec) db.relationships i in
      let (source, target) = keys row j in
      let current : is_current spec.as_of row ≡ true = ground arith in
      let edge = edge_in-In spec.as_of row none db.relationships j current in
      elim dir [ inl e ↦ rw e (source, target, edge) | inr e ↦ rw e (target, source, edge) ]

  pub Route-IsReadable :
      (visited : List ℕ → List ℕ) (seeds : List ℕ) (row : WalkRow)
      → Route visited (hops_of spec db) seeds row
      → IsReadable spec db row
  unfolding first_row next_row
  Route-IsReadable visited seeds _ (start hop i m) =
      let (from, to, edge) = hop_known hop i in
      record {
        nodes = λ id j. elim j [
          | inl e ↦ subst (λ z. IsNode db z) (sym e) from
          | inr (inl e) ↦ subst (λ z. IsNode db z) (sym e) to
          | inr (inr n) ↦ elim n [ ]
        ];
        edges = λ id j. elim j [
          | inl e ↦ subst (λ z. IsEdge spec db z) (sym e) edge
          | inr n ↦ elim n [ ]
        ];
        sizes = omega arith;
        begins = (hop.to_id ∷ [], refl);
        ends = (hop.from_id ∷ [], refl);
      }
  Route-IsReadable visited seeds _ (next {row} hop r i e fresh) =
      let known = Route-IsReadable visited seeds row r in
      let (from, to, edge) = hop_known hop i in
      let (rest, path) = known.begins in
      record {
        nodes = λ id j. elim (In-append id row.path (hop.to_id ∷ []) j) [
          | inl l ↦ known.nodes id l
          | inr (inl same) ↦ subst (λ z. IsNode db z) (sym same) to
          | inr (inr n) ↦ elim n [ ]
        ];
        edges = λ id j. elim (In-append id row.edges (hop.relationship_id ∷ []) j) [
          | inl l ↦ known.edges id l
          | inr (inl same) ↦ subst (λ z. IsEdge spec db z) (sym same) edge
          | inr (inr n) ↦ elim n [ ]
        ];
        sizes = omega (
          arith,
          known.sizes,
          length-append row.path (hop.to_id ∷ []),
          length-append row.edges (hop.relationship_id ∷ []),
        );
        begins = (rest ++ (hop.to_id ∷ []), ap (λ (l : List ℕ). l ++ (hop.to_id ∷ [])) path);
        ends = (row.path, refl);
      }

module _ {A : Type 0} (found : ℕ → Option A) where
  length-present :
      (xs : List ℕ)
      → ((x : ℕ) → In x xs → (a : A) × (found x ≡ some a))
      → length (present found xs) ≡ length xs
  unfolding present
  length-present [] h = refl
  length-present (x ∷ xs) h =
      let (a, e) = h x (inl refl) in rw e (omega (arith, length-present xs (λ y m. h y (inr m))))

  present-append :
      (xs ys : List ℕ) → present found (xs ++ ys) ≡ present found xs ++ present found ys
  unfolding present
  present-append [] ys = refl
  present-append (x ∷ xs) ys = elim (Option-cases (found x)) [
    | inl e ↦ rw e (present-append xs ys)
    | inr (a, e) ↦ rw e (ap (λ (l : List A). a ∷ l) (present-append xs ys))
  ]

last_node-append :
    (nodes : List GraphNode) (node : GraphNode) → last_node (nodes ++ (node ∷ [])) ≡ some node
unfolding last_node
last_node-append [] node = refl
last_node-append (first ∷ []) node = refl
last_node-append (first ∷ second ∷ nodes) node = last_node-append (second ∷ nodes) node

module _ (found : ℕ → Option GraphNode) (x : ℕ) (node : GraphNode) (e : found x ≡ some node) where
  first_present : (rest : List ℕ) → first_node (present found (x ∷ rest)) ≡ some node
  unfolding present first_node
  first_present rest = rw e refl

  last_present : (before : List ℕ) → last_node (present found (before ++ (x ∷ []))) ≡ some node
  unfolding present
  last_present before =
      let one : present found (x ∷ []) ≡ node ∷ [] = rw e refl in
      ap last_node (
        present-append found before (x ∷ [])
        ∙ ap (λ (l : List GraphNode). present found before ++ l) one)
      ∙ last_node-append (present found before) node

-- A path between the ends of a row.
abbrev pub IsBetween : GraphPath → WalkRow → Type 0
IsBetween path row =
    ((node : GraphNode) × (start_of path ≡ some node) × (node.node_id ≡ row.origin))
    × ((node : GraphNode) × (end_of path ≡ some node) × (node.node_id ≡ row.node_id))

module _ (spec : TraversalSpec) (db : Snapshot) (row : WalkRow)
    (known : IsReadable spec db row) where
  pub end_known : IsNode db row.node_id
  end_known =
      let (before, ends) = known.ends in
      known.nodes row.node_id (
        subst (λ l. In row.node_id l) (sym ends)
          (In-append_right row.node_id before (row.node_id ∷ []) (inl refl)))

  abbrev pub the_path : GraphPath
  the_path = record {
    nodes = present (node_of db) row.path;
    edges = present (edge_of spec.as_of db) row.edges;
  }

  pub path_of_readable : path_of spec db row ≡ some the_path
  unfolding path_of
  path_of_readable =
      let nodes = length-present (node_of db) row.path known.nodes in
      let edges = length-present (edge_of spec.as_of db) row.edges known.edges in
      let fits =
        (==_iff (length (present (node_of db) row.path))
            (length (present (edge_of spec.as_of db) row.edges) + 1)).1
          (omega (arith, known.sizes, nodes, edges)) in
      rw fits refl

  pub the_path-IsBetween : IsBetween the_path row
  unfolding start_of end_of
  the_path-IsBetween =
      let (rest, begins) = known.begins in
      let (before, ends) = known.ends in
      let front = subst (λ l. In row.origin l) (sym begins) (inl refl) in
      let (first, e) = known.nodes row.origin front in
      let (last, f) = end_known in
      (
        (
          first,
          ap (λ (l : List ℕ). first_node (present (node_of db) l)) begins
              ∙ first_present (node_of db) row.origin first e rest,
          node_of-id db row.origin first e,
        ),
        (
          last,
          ap (λ (l : List ℕ). last_node (present (node_of db) l)) ends
              ∙ last_present (node_of db) row.node_id last f before,
          node_of-id db row.node_id last f,
        ),
      )
