-- ===== src/Session.antt =====
-- The session with the server: session/session.go, and the refresh of its tokens in
-- auth/authentication.go.
pub mod Types
pub mod Refresh
pub mod Keyring
pub mod Loading
pub mod Examples
