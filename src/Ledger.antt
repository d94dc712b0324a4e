-- ===== src/Ledger.antt =====
-- crates/decern-ledger: the signed, hash-chained decision log.
pub mod Merkle
pub mod Record
pub mod Verify
pub mod File
pub mod Anchor
pub mod Commitments
pub mod Writer
pub mod Segment
mod Examples
