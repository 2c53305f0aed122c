-- ===== src/Ontology/Examples.antt =====
-- The theorems about the ontology at concrete machines, edges and requirements.
use econiq_ai.Prelude.{
  ℕ, ◌≡◌, refl, ◌↔◌, false, none, some, List, [], ◌∷◌, Result, ok, err, ◌≤◌, arith, In,
}
use econiq_ai.Ontology.Labels.{
  commodity_supply_cycle, industrial_bottleneck, ProcessStateLabel, same_state, buildout,
  capacity_delivery, response_mobilization,
}
use econiq_ai.Ontology.Archetypes.{StateMachine, post_init, ordinal, adjacent_states, state_machine}
use econiq_ai.Ontology.Archetypes.Tables.{linear}
use econiq_ai.Ontology.Archetypes.Positions.{IsAt}
use econiq_ai.Ontology.Archetypes.Adjacent.{adjacent_states_iff}
use econiq_ai.Ontology.Edges
use econiq_ai.Ontology.Edges.{
  EntityRef, EntityType, capability, asset, Relationship, requires, expressed_by, supersedes,
  validate, edge_is_legal, allowed_edges,
}
use econiq_ai.Ontology.Edges.Layers.{stop, follow, Chain-passes_capability}
use econiq_ai.Ontology.Requirement.{
  capability_leaf, requirement_group, no_node, a_node, and_operator, required, optional,
  CapabilityRequirement,
}
use econiq_ai.Ontology.States.{ProcessState}

abbrev machine_or : Result StateMachine → StateMachine
machine_or (ok m) = m
machine_or (err e) = record {
  archetype = commodity_supply_cycle;
  sequence = [];
  transitions = [];
  cyclical = false;
}

abbrev the_bottleneck : StateMachine
the_bottleneck = machine_or (state_machine industrial_bottleneck)

adjacent_states_iff_example :
    (out : List ProcessStateLabel) × (adjacent_states the_bottleneck buildout 2 ≡ ok out)
    × ((t : ProcessStateLabel)
        → In t out ↔ (
            (same_state t buildout ≡ false)
            × ((j : ℕ) × (1 ≤ j) × (j ≤ 2) × IsAt the_bottleneck 3 j t)))
unfolding state_machine post_init linear ordinal
adjacent_states_iff_example = adjacent_states_iff the_bottleneck buildout 2 3 (omega arith) refl

abbrev node : EntityType → ℕ → EntityRef
node t i = record { entity_type = t; entity_id = i }

abbrev needs : Relationship
needs = record {
  source = node Edges.bottleneck 1;
  target = node capability 2;
  relationship_type = requires;
  causal_role = none;
}

abbrev gives : Relationship
gives = record {
  source = node capability 2;
  target = node asset 3;
  relationship_type = expressed_by;
  causal_role = none;
}

Chain-passes_capability_example :
    (n : EntityRef) × In n (node capability 2 ∷ node asset 3 ∷ []) × (n.entity_type ≡ capability)
unfolding validate edge_is_legal allowed_edges
Chain-passes_capability_example =
    Chain-passes_capability (follow needs refl (follow gives refl stop)) refl refl

-- Capabilities 1 and 2, and 3 at best.
abbrev two_of_three : CapabilityRequirement
two_of_three = record {
  bottleneck_id = some 9;
  process_id = none;
  root =
      requirement_group and_operator
        (a_node (capability_leaf 1 required 10)
          (a_node (capability_leaf 2 required 10) (a_node (capability_leaf 3 optional 5) no_node)))
        required 10;
}

-- A state of the bottleneck machine that may go on or fall back.
abbrev building : ProcessState
building = record {
  archetype = industrial_bottleneck;
  categorical_state = buildout;
  transition_beliefs = capacity_delivery ∷ response_mobilization ∷ [];
  feature_names = "capex" ∷ "lead_time" ∷ [];
}
