-- ===== src/Worker.antt =====
-- The worker service, temp/services/worker/src/worker.
pub mod Errors
pub mod Repository
pub mod Failure
pub mod Analysis
pub mod Comment
pub mod Exec
pub mod Checkpoints
pub mod Context
pub mod Report
pub mod Investigate
pub mod Reconciliation
pub mod Reconcile
pub mod Admission
pub mod Supervisor
pub mod Handler
pub mod Settings
pub mod Resolve
