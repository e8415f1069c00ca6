-- ===== src/Journal.antt =====
-- `crates/cc-wallet-domain/src/journal.rs` and `risk.rs`: the send journal. Each send has a record
-- with an immutable ticket, the provenance of its preparation, its reservations and a list of
-- delivery events; risk grants and their consumptions are a second list. `Replay` validates both
-- lists together, `Envelope` appends to them.
pub mod Errors
pub mod Identity
pub mod Ticket
pub mod Provenance
pub mod Fees
pub mod Evidence
pub mod Record
pub mod Risk
pub mod Blockers
pub mod Replay
pub mod Sequence
pub mod History
pub mod Inversion
pub mod Authority
pub mod Signing
pub mod Grants
pub mod Affordable
pub mod Domain
pub mod Events
pub mod Delivery
