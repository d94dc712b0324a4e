-- ===== src/Identity.antt =====
-- crates/decern-identity: signed badges, the exchange that mints them, and missions.
pub mod Errors
pub mod Badge
pub mod Admission
pub mod Exchange
pub mod Mission
mod Examples
