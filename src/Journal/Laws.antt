-- ===== src/Journal/Laws.antt =====
-- What holds of the journal over any calls.
pub mod Writes
pub mod Requests
pub mod Binds
pub mod Runs
pub mod Pending
pub mod Stages
pub mod Inversion
pub mod Settling
pub mod Outcome
pub mod Finalized
pub mod Replies
pub mod Created
pub mod Bound
