-- ===== src/Store/Missions.antt =====
-- crates/decern-store/src/missions.rs and the `CoherentMap` of fsio.rs: the missions that were approved, in memory
-- and in a file that several processes share.
pub mod Memory
pub mod Coherent
pub mod File
pub mod Kept
pub mod Held
pub mod Processes
pub mod Backends
mod Examples
use decern.Base.{
  ℕ, suc, ◌+◌, ◌*◌, ◌^◌, ◌-◌, min, ◌==◌, ltb, leb, String, Bool, true, false, not, Option, none,
  some, List, [], ◌∷◌, if◌then◌else◌,
}
use text.Mathlib.Text.{◌==◌ as str_eq}
use decern.Base.Dict.{Dict, lookup, insert}

pub record MissionEntry : Type 0 where
  pub approver : String
  pub expiry : ℕ
  pub terminated : Bool
  pub agent : String
  pub approved_tools : List String

-- What a registry refuses, with the reason and the mission it names.
pub data StoreError : Type 0 where
  invalid_terminated : String → StoreError
  invalid_expired : String → ℕ → ℕ → StoreError
  invalid_disappeared : StoreError

pub data Registered {ℓ} (A : Type ℓ) : Type ℓ where
  done : A → Registered A
  failed : StoreError → Registered A

-- 30 days
abbrev pub retention_secs : ℕ
retention_secs = 30 * 24 * 60 * 60

abbrev pub saturating_add : ℕ → ℕ → ℕ
saturating_add a b = min (a + b) (2 ^ 64 - 1)

unfoldable pub mission_entry_retained : MissionEntry → ℕ → Bool
mission_entry_retained e now =
    if e.terminated then ltb now (saturating_add e.expiry retention_secs) else ltb now e.expiry

-- `BTreeMap::retain` for the entries that are kept at `now`
unfoldable pub retain : ℕ → Dict MissionEntry → Dict MissionEntry
retain now [] = []
retain now ((k, e) ∷ map) =
    let rest = retain now map in if mission_entry_retained e now then (k, e) ∷ rest else rest

-- The result, the map as it is left, and whether it must be written.
abbrev pub Change : Type 0
Change = Registered (Unit {0}) × Dict MissionEntry × Bool

-- An entry joins when the swept map has none.
unfoldable pub add_entry :
    Option MissionEntry → String → MissionEntry → ℕ → Dict MissionEntry → Change
add_entry (some existing) s256 entry now map =
    if existing.terminated
    then (failed (invalid_terminated s256), map, false)
    else (done tt, map, false)
add_entry none s256 entry now map =
    if leb entry.expiry now
    then (failed (invalid_expired s256 entry.expiry now), map, false)
    else (done tt, insert s256 entry map, true)

unfoldable pub mission_register : Dict MissionEntry → String → MissionEntry → ℕ → Change
unfolding retain add_entry
mission_register map s256 entry now =
    let swept = retain now map in add_entry (lookup s256 swept) s256 entry now swept

-- `get_mut` and the flag
unfoldable pub mark : String → Dict MissionEntry → Dict MissionEntry
mark s256 [] = []
mark s256 ((k, e) ∷ map) =
    if str_eq k s256 then (k, record e { terminated = true }) ∷ map else (k, e) ∷ mark s256 map
