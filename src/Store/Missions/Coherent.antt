-- ===== src/Store/Missions/Coherent.antt =====
-- crates/decern-store/src/fsio.rs: a map in a file that several processes share. Reads and writes of the file succeed.
use decern.Base.{ℕ, suc, ◌==◌, if◌then◌else◌}
use decern.Base.Dict.{Dict}
use decern.Store.Missions.{MissionEntry, Registered, Change}

-- The file of a coherent map. Its stamp stands for the fingerprint, which every write changes.
pub record Shared : Type 0 where
  pub map : Dict MissionEntry
  pub stamp : ℕ

-- What one process keeps of it.
pub record Cache : Type 0 where
  pub map : Dict MissionEntry
  pub fp : ℕ

-- The file is read again when it has changed.
unfoldable pub read : Shared → Cache → Cache
read file cache =
    if file.stamp == cache.fp then cache else record { map = file.map; fp = file.stamp }

-- From the file's map, whatever the cache holds. The file is written only where the map is dirty.
unfoldable pub write :
    Shared → (Dict MissionEntry → Change) → Registered (Unit {0}) × Shared × Cache
write file f =
    let (result, map, dirty) = f file.map in
    let file' = if dirty then record { map = map; stamp = suc file.stamp } else file in
    (result, file', record { map = map; fp = file'.stamp })
