-- ===== src/Ontology/Edges.antt =====
-- graph.py: the typed edges between nodes and the validator of `Relationship`.
pub mod Layers
use econiq_ai.Prelude.{
  ℕ, ◌≡◌, refl, Bool, true, false, not, ◌&&◌, Option, none, some, List, [], ◌∷◌, value_error,
  Result, ok, err, ◌==◌, if◌then◌else◌, any,
}

-- `EntityType` of enums.py
pub data EntityType : Type 0 where
  document claim event process bottleneck capability asset : EntityType

abbrev pub entity_index : EntityType → ℕ
entity_index document = 0
entity_index claim = 1
entity_index event = 2
entity_index process = 3
entity_index bottleneck = 4
entity_index capability = 5
entity_index asset = 6

abbrev pub same_entity : EntityType → EntityType → Bool
same_entity s t = entity_index s == entity_index t

-- `RelationshipType` of enums.py
pub data RelationshipType : Type 0 where
  influences creates requires expressed_by affects supports contradicts : RelationshipType
  supersedes derived_from : RelationshipType

-- `CausalRole` of enums.py
pub data CausalRole : Type 0 where
  driver mechanism : CausalRole

unfoldable pub allowed_edges : RelationshipType → List (EntityType × EntityType)
allowed_edges influences = (process, process) ∷ []
allowed_edges creates = (process, bottleneck) ∷ []
allowed_edges requires = (bottleneck, capability) ∷ (process, capability) ∷ []
allowed_edges expressed_by = (capability, asset) ∷ []
allowed_edges affects =
    (event, process) ∷ (event, asset) ∷ (event, bottleneck) ∷ (event, capability) ∷ []
allowed_edges supports =
    (claim, event) ∷ (event, process) ∷ (event, bottleneck) ∷ (claim, process) ∷ []
allowed_edges contradicts =
    (claim, event) ∷ (event, process) ∷ (event, event) ∷ (claim, process) ∷ []
allowed_edges supersedes =
    (event, event) ∷ (process, process) ∷ (bottleneck, bottleneck) ∷ (capability, capability) ∷ []
allowed_edges derived_from = (claim, document) ∷ (event, claim) ∷ (process, event) ∷ []

unfoldable pub edge_is_legal : EntityType → RelationshipType → EntityType → Bool
unfolding allowed_edges
edge_is_legal source relationship target =
    any (λ (s, t). same_entity source s && same_entity target t) (allowed_edges relationship)

-- `EntityRef` of provenance.py
pub record EntityRef : Type 0 where
  pub entity_type : EntityType
  pub entity_id : ℕ

abbrev pub same_node : EntityRef → EntityRef → Bool
same_node a b = same_entity a.entity_type b.entity_type && (a.entity_id == b.entity_id)

-- The fields that the validator reads.
pub record Relationship : Type 0 where
  pub source : EntityRef
  pub target : EntityRef
  pub relationship_type : RelationshipType
  pub causal_role : Option CausalRole

abbrev pub has_role : Option CausalRole → Bool
has_role none = false
has_role (some role) = true

abbrev pub is_influences : RelationshipType → Bool
is_influences influences = true
is_influences _ = false

-- The validator of `Relationship`, which returns the model or raises `ValueError`.
unfoldable pub validate : Relationship → Result Relationship
unfolding edge_is_legal
validate r =
    if not (edge_is_legal r.source.entity_type r.relationship_type r.target.entity_type)
    then err value_error
    else if same_node r.source r.target
    then err value_error
    else if has_role r.causal_role && not (is_influences r.relationship_type)
    then err value_error
    else ok r
