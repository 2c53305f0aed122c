-- ===== src/Graph/Discovery.antt =====
-- queries.py: the queries that `traverse` serves, `assets_within_hops`, `discovery_chain` and
-- `confluence`. Each is given the tables of the first query of a traversal and those of the others.
pub mod Grouping
pub mod Reach
use econiq_ai.Prelude.{
  ℕ, Bool, true, false, ◌&&◌, ◌||◌, Option, none, some, List, [], ◌∷◌, ◌++◌, ◌==◌, ltb, map, length,
  if◌then◌else◌, Result, ok, err, min,
}
use econiq_ai.Prelude.Sorting.{sort_by}
use econiq_ai.Ontology.Edges.{process, asset}
use econiq_ai.Graph.Walks.{is_among}
use econiq_ai.Graph.Queries.{
  Direction, downstream, upstream, GraphNode, GraphPath, depth_of, start_of, end_of, weight_of,
  TraversalSpec, validated, discovery_edges, Snapshot, traverse,
}

-- `AssetReach`
pub record AssetReach : Type 0 where
  pub asset_node : GraphNode
  pub paths : List GraphPath

unfoldable pub smallest : ℕ → List ℕ → ℕ
smallest found [] = found
smallest found (x ∷ xs) = smallest (min found x) xs

-- `shortest_hops`, of the paths, of which there is one at least
unfoldable pub shortest_hops : AssetReach → ℕ
unfolding smallest depth_of
shortest_hops reach = elim reach.paths [
  | [] ↦ 0
  | path ∷ paths ↦ smallest (depth_of path) (map depth_of paths)
]

unfoldable pub sources_of : List GraphPath → List ℕ
unfolding start_of
sources_of [] = []
sources_of (path ∷ paths) =
    let rest = sources_of paths in
    elim (start_of path) [
      | none ↦ rest
      | some node ↦ if is_among rest node.node_id then rest else node.node_id ∷ rest
    ]

-- `distinct_sources`
unfoldable pub distinct_sources : AssetReach → List ℕ
unfolding sources_of
distinct_sources reach = sources_of reach.paths

-- `grouped`: the paths by the node that they end at, which is that of the first of them.
unfoldable pub add_path : GraphNode → GraphPath → List AssetReach → List AssetReach
add_path end path [] = record { asset_node = end; paths = path ∷ [] } ∷ []
add_path end path (reach ∷ rest) =
    if reach.asset_node.node_id == end.node_id
    then record reach { paths = reach.paths ++ (path ∷ []) } ∷ rest
    else reach ∷ add_path end path rest

unfoldable pub add_to_end : GraphPath → Option GraphNode → List AssetReach → List AssetReach
unfolding add_path
add_to_end path none grouped = grouped
add_to_end path (some end) grouped = add_path end path grouped

unfoldable pub group_paths : List GraphPath → List AssetReach → List AssetReach
unfolding add_to_end end_of
group_paths [] grouped = grouped
group_paths (path ∷ paths) grouped = group_paths paths (add_to_end path (end_of path) grouped)

-- The key of `sorted`: more sources first, then fewer hops.
unfoldable pub comes_first : AssetReach → AssetReach → Bool
unfolding distinct_sources shortest_hops
comes_first a b =
    let most = length (distinct_sources a) in
    let least = length (distinct_sources b) in
    ltb least most || ((most == least) && ltb (shortest_hops a) (shortest_hops b))

unfoldable pub asset_spec : ℕ → Option ℕ → ℕ → TraversalSpec
asset_spec max_hops as_of limit = record {
  max_hops = max_hops;
  direction = downstream;
  relationship_types = discovery_edges;
  target_types = asset ∷ [];
  as_of = as_of;
  limit = limit;
}

-- `traverse` with a specification that may not be one
unfoldable pub traverse_validated :
    TraversalSpec → List ℕ → Snapshot → Snapshot → Result (List GraphPath)
unfolding validated traverse
traverse_validated spec seeds db later = elim (validated spec) [
  | err e ↦ err e
  | ok valid ↦ traverse valid seeds db later
]

unfoldable pub reaches_of : Result (List GraphPath) → Result (List AssetReach)
unfolding group_paths comes_first
reaches_of (err e) = err e
reaches_of (ok paths) = ok (sort_by comes_first (group_paths paths []))

unfoldable pub assets_within_hops :
    List ℕ → ℕ → Option ℕ → ℕ → Snapshot → Snapshot → Result (List AssetReach)
unfolding traverse_validated asset_spec reaches_of
assets_within_hops process_ids max_hops as_of limit db later =
    reaches_of (traverse_validated (asset_spec max_hops as_of limit) process_ids db later)

unfoldable pub process_spec : ℕ → Option ℕ → TraversalSpec
process_spec max_hops as_of = record {
  max_hops = max_hops;
  direction = upstream;
  relationship_types = discovery_edges;
  target_types = process ∷ [];
  as_of = as_of;
  limit = 500;
}

-- The key `(path.depth, -path.weight)`: paths of one depth have as many weights.
unfoldable pub shorter_or_heavier : GraphPath → GraphPath → Bool
unfolding depth_of weight_of
shorter_or_heavier a b =
    ltb (depth_of a) (depth_of b)
    || ((depth_of a == depth_of b) && ltb (weight_of b.edges) (weight_of a.edges))

unfoldable pub sorted_paths :
    (GraphPath → GraphPath → Bool) → Result (List GraphPath) → Result (List GraphPath)
sorted_paths before (err e) = err e
sorted_paths before (ok paths) = ok (sort_by before paths)

unfoldable pub discovery_chain : ℕ → ℕ → Option ℕ → Snapshot → Snapshot → Result (List GraphPath)
unfolding traverse_validated process_spec sorted_paths shorter_or_heavier
discovery_chain asset_id max_hops as_of db later =
    sorted_paths shorter_or_heavier
      (traverse_validated (process_spec max_hops as_of) (asset_id ∷ []) db later)

unfoldable pub shorter : GraphPath → GraphPath → Bool
unfolding depth_of
shorter a b = ltb (depth_of a) (depth_of b)

-- `shortest`: the first of the shortest paths to each end.
unfoldable pub put_shortest : GraphNode → GraphPath → List (ℕ × GraphPath) → List (ℕ × GraphPath)
unfolding shorter
put_shortest end path [] = (end.node_id, path) ∷ []
put_shortest end path ((key, current) ∷ rest) =
    if key == end.node_id
    then (key, if shorter path current then path else current) ∷ rest
    else (key, current) ∷ put_shortest end path rest

unfoldable pub put_at_end :
    GraphPath → Option GraphNode → List (ℕ × GraphPath) → List (ℕ × GraphPath)
unfolding put_shortest
put_at_end path none shortest = shortest
put_at_end path (some end) shortest = put_shortest end path shortest

unfoldable pub shortest_paths : List GraphPath → List (ℕ × GraphPath) → List (ℕ × GraphPath)
unfolding put_at_end end_of
shortest_paths [] shortest = shortest
shortest_paths (path ∷ paths) shortest =
    shortest_paths paths (put_at_end path (end_of path) shortest)

unfoldable pub each_shortest : Result (List GraphPath) → Result (List GraphPath)
unfolding shortest_paths
each_shortest (err e) = err e
each_shortest (ok paths) = ok (map (λ (entry : ℕ × GraphPath). entry.1) (shortest_paths paths []))

unfoldable pub confluence : ℕ → ℕ → Option ℕ → Snapshot → Snapshot → Result (List GraphPath)
unfolding traverse_validated process_spec each_shortest sorted_paths
confluence node_id max_hops as_of db later =
    sorted_paths shorter
      (each_shortest (traverse_validated (process_spec max_hops as_of) (node_id ∷ []) db later))
