-- ===== src/Graph/Examples.antt =====
-- The theorems about the graph service at a small graph: two processes, a bottleneck, a capability
-- and an asset.
use econiq_ai.Prelude.{
  ℕ, ◌≤◌, ◌≡◌, ◌⊎◌, ◌↔◌, refl, sym, subst, inl, inr, Bool, true, Bool-cases, none, some, String,
  str_eq, str_eq_iff, List, [], ◌∷◌, any, all, arith, In, ok, err, statement_error, length,
}
use econiq_ai.Prelude.Membership.{any_of_In, any-In, all-In, all_intro}
use econiq_ai.Ontology.Edges.{
  EntityType, RelationshipType, process, bottleneck, capability, asset, influences, creates,
  requires, expressed_by,
}
use econiq_ai.Graph.Rows.{RelationshipRow, NodeRow}
use econiq_ai.Graph.Walks.{walk}
use econiq_ai.Graph.Walks.Reached.{Reaches, Circles}
use econiq_ai.Graph.Integrity.{
  Tables, Revision, violation, causal_cycles, would_create_cycle, check, healthy, assert_healthy,
  default_ignore,
}
use econiq_ai.Graph.Integrity.Cycles.{
  influences_of, would_create_cycle_iff, causal_cycles_iff, with_row, would_create_cycle_guards,
}
use econiq_ai.Graph.Integrity.Healthy.{IsSound, assert_healthy_iff}
use econiq_ai.Graph.Queries.{Snapshot, node_of, GraphEdge, both, hops_of}
use econiq_ai.Graph.Queries.Neighbors.{Binding, IsStrict, neighbors, IsEdgeAt, neighbors_as_of}
use econiq_ai.Graph.Queries.Found.{IsNode, HasNodes}
use econiq_ai.Graph.Discovery.{AssetReach, assets_within_hops, asset_spec}
use econiq_ai.Graph.Discovery.Grouping.{IsReached}
use econiq_ai.Graph.Discovery.Reach.{IsAsset, IsWithin, asset_rows, assets_within_hops_iff}

abbrev edge_row : ℕ → ℕ → ℕ → RelationshipType → RelationshipRow
edge_row id source target type = record {
  relationship_id = id;
  source_id = source;
  target_id = target;
  relationship_type = type;
  weight = 1;
  valid_from = 0;
  valid_to = none;
}

abbrev the_rows : List RelationshipRow
the_rows =
    edge_row 1 1 2 influences
    ∷ edge_row 2 2 3 creates
    ∷ edge_row 3 3 4 requires
    ∷ edge_row 4 4 5 expressed_by
    ∷ []

abbrev node_row : ℕ → EntityType → NodeRow
node_row id type = record { node_id = id; node_type = type }

abbrev the_nodes : List NodeRow
the_nodes =
    node_row 1 process
    ∷ node_row 2 process
    ∷ node_row 3 bottleneck
    ∷ node_row 4 capability
    ∷ node_row 5 asset
    ∷ []

abbrev current : ℕ → Revision
current id = record { entity_id = id; valid_to = none }

abbrev the_tables : Tables
the_tables = record {
  relationships = the_rows;
  nodes = the_nodes;
  processes = current 1 ∷ current 2 ∷ [];
  events = [];
  bottlenecks = current 3 ∷ [];
  capabilities = current 4 ∷ [];
  assets = current 5 ∷ [];
  capability_requirements = [];
  documents = [];
  claims = [];
}

abbrev one : ℕ
one = 1

abbrev two : ℕ
two = 2

would_create_cycle_iff_example :
    (would_create_cycle the_tables 2 1 ≡ true)
    ↔ ((two ≡ one) ⊎ Reaches (influences_of the_tables) 12 1 2)
would_create_cycle_iff_example = would_create_cycle_iff the_tables 2 1

causal_cycles_iff_example :
    In (violation "causal_cycle" 1) (causal_cycles 8 the_tables)
    ↔ Circles (influences_of the_tables) 8 1
causal_cycles_iff_example = causal_cycles_iff the_tables 8 1

would_create_cycle_guards_example :
    causal_cycles 8 (with_row (edge_row 5 2 6 influences) the_tables) ≡ []
unfolding causal_cycles would_create_cycle
would_create_cycle_guards_example =
    would_create_cycle_guards the_tables (edge_row 5 2 6 influences) 8 (omega arith) refl refl

assert_healthy_iff_example :
    (assert_healthy the_tables default_ignore 0 ≡ healthy (check the_tables 0)) ↔ IsSound the_tables
assert_healthy_iff_example = assert_healthy_iff the_tables 0

-- A driver that looks each name up among the parameters.
abbrev the_driver : Binding
the_driver = record { accepts = λ named given. all (λ name. any (λ g. str_eq name g) given) named }

abbrev the_snapshot : Snapshot
the_snapshot = record { relationships = the_rows; nodes = the_nodes; labels = [] }

known :
    (edge row : RelationshipRow)
    → row ≡ edge
    → IsNode the_snapshot edge.source_id × IsNode the_snapshot edge.target_id
    → IsNode the_snapshot row.source_id × IsNode the_snapshot row.target_id
known edge row e h =
    subst (λ r. IsNode the_snapshot r.source_id × IsNode the_snapshot r.target_id) (sym e) h

the_keys : HasNodes the_snapshot
unfolding node_of
the_keys row (inl e) = known (edge_row 1 1 2 influences) row e ((_, refl), (_, refl))
the_keys row (inr (inl e)) = known (edge_row 2 2 3 creates) row e ((_, refl), (_, refl))
the_keys row (inr (inr (inl e))) = known (edge_row 3 3 4 requires) row e ((_, refl), (_, refl))
the_keys row (inr (inr (inr (inl e)))) =
    known (edge_row 4 4 5 expressed_by) row e ((_, refl), (_, refl))
the_keys row (inr (inr (inr (inr n)))) = elim n [ ]

few_rows : length (asset_rows (1 ∷ []) 4 none 500 the_snapshot) ≤ 500
unfolding hops_of asset_spec walk
few_rows = omega arith

found_among :
    (names : List String) (name : String) → In name names → any (λ g. str_eq name g) names ≡ true
found_among names name m =
    any_of_In name (λ g. str_eq name g) names m ((str_eq_iff name name).1 refl)

the_driver-IsStrict : IsStrict the_driver
the_driver-IsStrict = record {
  missing = λ named given name m gone.
      let present : String → Bool = λ n. any (λ g. str_eq n g) given in
      elim (Bool-cases (all present named)) [
        | inl t ↦
            let (g, i, e) = any-In (λ g. str_eq name g) given (all-In name present named t m) in
            absurd (gone (subst (λ n. In n given) (sym ((str_eq_iff name g).0 e)) i))
        | inr f ↦ f
      ];
  enough = λ named given h.
      all_intro (λ n. any (λ g. str_eq n g) given) named
        (λ name m. found_among given name (h name m));
}

neighbors_as_of_example :
    (edges : List GraphEdge) × (neighbors the_driver 2 both (creates ∷ []) none the_snapshot
      ≡ ok edges)
    × ((edge : GraphEdge) → In edge edges ↔ IsEdgeAt both (creates ∷ []) 2 the_snapshot edge)
    × (neighbors the_driver 2 both (creates ∷ []) (some 7) the_snapshot ≡ err statement_error)
neighbors_as_of_example =
    neighbors_as_of the_driver 2 7 both (creates ∷ []) the_snapshot the_driver-IsStrict

assets_within_hops_iff_example :
    (reaches : List AssetReach) × (assets_within_hops (1 ∷ []) 4 none 500 the_snapshot the_snapshot
      ≡ ok reaches)
    × (IsReached reaches 5 ↔ (
        IsAsset (1 ∷ []) 4 none 500 the_snapshot 5 × IsWithin (1 ∷ []) 4 none 500 the_snapshot 5))
assets_within_hops_iff_example =
    assets_within_hops_iff (1 ∷ []) 4 none 500 the_snapshot the_keys (omega arith) (omega arith)
      few_rows 5 (λ m. elim m [ inl e ↦ omega arith | inr n ↦ elim n [ ] ])
