-- ===== src/Auth.antt =====
-- Sign in and registration: auth/authentication.go, with the derivation of the keys in
-- crypto/encryption.go.
pub mod Types
pub mod Keys
pub mod Params
pub mod Token
pub mod SignIn
pub mod Registration
pub mod Examples
