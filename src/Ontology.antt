-- ===== src/Ontology.antt =====
-- packages/ontology: the vocabulary of the graph, its State machines, legal edges and requirements.
pub mod Labels
pub mod Archetypes
pub mod Edges
pub mod Requirement
pub mod States
pub mod Scorecards
mod Examples
