-- ===== src/Events.antt =====
-- Platform events (internal/db/event_repository.go, internal/server/event.go).
pub mod Types
pub mod Table
pub mod Sorting
pub mod Watch
pub mod Paging
pub mod Delivered
pub mod Complete
pub mod Service
pub mod Recorded
