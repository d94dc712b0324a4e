-- ===== src/Store.antt =====
-- crates/decern-store: the registry of missions.
pub mod Missions
