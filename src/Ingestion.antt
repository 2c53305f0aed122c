-- ===== src/Ingestion.antt =====
-- Ingestion (services/ingestion/src/econiq_ingestion): raw bytes to text and sections, and to stored
-- documents.
pub mod Documents
pub mod Normalize
pub mod Headings
pub mod Sections
pub mod Pages
pub mod Tags
pub mod Parsers
pub mod Storage
pub mod Records
pub mod Pipeline
mod Examples
