-- ===== src/Api.antt =====
-- The HTTP API (apps/api/src/econiq_api): who may do what.
pub mod Auth
mod Examples
