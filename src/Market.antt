-- ===== src/Market.antt =====
-- Market outcomes (services/market/src/econiq_market/outcomes.py).
pub mod Outcomes
mod Examples
