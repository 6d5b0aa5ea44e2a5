-- ===== src/Sync.antt =====
-- internal/sync/sync.go: SyncUser, which brings one user's Google calendar up to date. The phases of
-- the function stand in the children, in its order, and User puts them together.
pub mod EventId
pub mod Syncer
pub mod Load
pub mod Cleanup
pub mod Insert
pub mod User
pub mod Isolation
pub mod Locking
pub mod Outcome
pub mod Complete
