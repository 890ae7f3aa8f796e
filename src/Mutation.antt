-- ===== src/Mutation.antt =====
-- The locks of internal/server/app_mutation.go, which serialize the mutations of an application.
pub mod Locks
pub mod Threads
pub mod Entry
pub mod Invariant
pub mod Safety
pub mod Refines
