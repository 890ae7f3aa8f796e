-- ===== src/Operation.antt =====
-- The advance of a candidate through its durable stages (internal/server/candidate_operation.go).
pub mod Types
pub mod Advance
pub mod Follows
pub mod Phases
pub mod Order
pub mod Gate
pub mod Parked
pub mod Recovery
pub mod Recovering
pub mod Restored
pub mod Capacity
pub mod Reclaimed
