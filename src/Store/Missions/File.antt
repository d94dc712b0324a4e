-- ===== src/Store/Missions/File.antt =====
-- crates/decern-store/src/missions.rs: the registry in a file.
use decern.Base.{ℕ, String, Bool, false, not, Option, none, some, if◌then◌else◌}
use decern.Base.Dict.{lookup}
use decern.Store.Missions.{MissionEntry, Registered, done, retain, mission_register, mark}
use decern.Store.Missions.Coherent.{Shared, Cache, read, write}

unfoldable pub register :
    Shared → String → MissionEntry → ℕ → Registered (Unit {0}) × Shared × Cache
unfolding write mission_register
register file s256 entry now = write file λ map. mission_register map s256 entry now

-- The map is dirty when the entry was there and active.
unfoldable pub is_active : Option MissionEntry → Bool
is_active none = false
is_active (some e) = not e.terminated

unfoldable pub terminate : Shared → String → ℕ → Registered (Unit {0}) × Shared × Cache
unfolding write is_active mark retain
terminate file s256 now = write file λ map.
    let dirty = is_active (lookup s256 map) in
    (done tt, retain now (if dirty then mark s256 map else map), dirty)

-- The answer, and the cache after it.
unfoldable pub status : Shared → Cache → String → Option MissionEntry × Cache
unfolding read
status file cache s256 = let fresh = read file cache in (lookup s256 fresh.map, fresh)
