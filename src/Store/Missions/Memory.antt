-- ===== src/Store/Missions/Memory.antt =====
-- crates/decern-store/src/missions.rs: the registry in memory.
use decern.Base.{ℕ, String, Option}
use decern.Base.Dict.{Dict, lookup}
use decern.Store.Missions.{MissionEntry, Registered, retain, mission_register, mark}

unfoldable pub register :
    Dict MissionEntry → String → MissionEntry → ℕ → Registered (Unit {0}) × Dict MissionEntry
unfolding mission_register
register map s256 entry now =
    let (r, map', dirty) = mission_register map s256 entry now in (r, map')

unfoldable pub status : Dict MissionEntry → String → Option MissionEntry
status map s256 = lookup s256 map

unfoldable pub terminate : Dict MissionEntry → String → ℕ → Dict MissionEntry
unfolding mark retain
terminate map s256 now = retain now (mark s256 map)
