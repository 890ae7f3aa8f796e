-- ===== src/Journal.antt =====
-- The journal of tracked deployments (internal/db).
pub mod Types
pub mod Env
pub mod Transaction
pub mod Keeps
pub mod Requests
pub mod Checkpoints
pub mod Bindings
pub mod Finalize
pub mod Step
pub mod Laws
