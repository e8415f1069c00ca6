-- ===== src/Digest.antt =====
-- `crates/cc-wallet-domain/src/digest.rs`: the bytes that are hashed for a ticket and for the sets
-- of blockers, reservations and overlaps. SHA-256 is the parameter `Sha256`.
pub mod Frame
pub mod Rows
pub mod RowBytes
pub mod Sets
pub mod Ticket
pub mod Injective
unfoldable pub use Frame.*
unfoldable pub use Rows.*
unfoldable pub use RowBytes.*
unfoldable pub use Sets.*
unfoldable pub use Ticket.*
