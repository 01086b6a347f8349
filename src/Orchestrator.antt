-- ===== src/Orchestrator.antt =====
-- The orchestrator: services/orchestrator/src/orchestrator.
pub mod Domain
pub mod Transaction
pub mod Requests
pub mod Repositories
pub mod Accept
pub mod Status
pub mod Publish
pub mod Select
