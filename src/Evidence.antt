-- ===== src/Evidence.antt =====
-- services/agents: how far pieces of evidence are independent of each other.
pub mod Dependence
pub mod Clustering
pub mod Independence
pub mod Sources
mod Examples
