-- ===== src/Sync.antt =====
-- The synchronisation with the server: items/sync.go.
pub mod Types
pub mod Batch
pub mod Request
pub mod Resolve
pub mod Whole
pub mod Retries
pub mod Paging
pub mod Guard
pub mod Saved
pub mod DefaultKey
pub mod Conflicts
mod Examples
