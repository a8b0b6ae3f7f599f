-- ===== src/Cache.antt =====
-- The local cache of encrypted items and its synchronisation: cache/cache.go.
pub mod Types
pub mod Convert
pub mod Keys
pub mod Store
pub mod Errors
pub mod Retry
pub mod Token
pub mod Apply
pub mod Reading
pub mod Whole
mod Memory
mod Examples
