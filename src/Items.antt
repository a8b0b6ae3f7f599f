-- ===== src/Items.antt =====
-- The items of Standard Notes, encrypted and decrypted, and the operations on lists of them:
-- items/item.go, items/items.go, items/note.go, items/tag.go.
pub mod ContentType
pub mod Types
pub mod Encrypted
pub mod References
pub mod Encryption
pub mod Parsing
pub mod Reading
mod Examples
