-- ===== src/Database.antt =====
-- The status of a managed PostgreSQL cluster (internal/server/app.go).
pub mod Types
pub mod Names
pub mod Runtime
pub mod Architecture
pub mod Placement
pub mod Policy
pub mod Subsets
pub mod Checks
pub mod Report
pub mod Running
pub mod Sound
pub mod Answered
