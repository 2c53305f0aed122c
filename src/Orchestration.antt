-- ===== src/Orchestration.antt =====
-- services/orchestration: the work queue, the outbox, the declared stages and the loops over them.
pub mod Store
pub mod Work
pub mod Queue
pub mod Outbox
pub mod Stages
pub mod Handlers
pub mod Registrations
pub mod Runner
mod Samples
mod Strokes
mod Examples
