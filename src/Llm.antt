-- ===== src/Llm.antt =====
-- LLM access (packages/llm/src/econiq_llm): structured calls of a provider, their schemas and costs.
pub mod Types
pub mod Costs
pub mod Json
pub mod Reply
pub mod Schema
pub mod Recursion
pub mod Calls
pub mod Service
mod Examples
