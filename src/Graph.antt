-- ===== src/Graph.antt =====
-- The graph service (services/graph/src/econiq_graph): types.py, queries.py and integrity.py.
pub mod Rows
pub mod Walks
pub mod Integrity
pub mod Queries
pub mod Discovery
mod Examples
