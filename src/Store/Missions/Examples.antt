-- ===== src/Store/Missions/Examples.antt =====
-- One mission that two processes share, and the properties of the registries at it.
use decern.Base.{◌≡◌, refl, false, true, arith, some, [], ◌∷◌}
use decern.Store.Missions.{MissionEntry, failed, invalid_terminated}
use decern.Store.Missions.Coherent.{Shared}
use decern.Store.Missions.Memory
use decern.Store.Missions.File
use decern.Store.Missions.Processes.{System, Call, Calls, wrote, terminate-status}
use decern.Store.Missions.Backends.{Answers, register-terminate}

abbrev active_entry : MissionEntry
active_entry = record {
  approver = "ann";
  expiry = 100;
  terminated = false;
  agent = "bot";
  approved_tools = "read" ∷ [];
}

abbrev shared : Shared
shared = record { map = ("m", active_entry) ∷ []; stamp = 3 }

abbrev two : System
two = record { file = shared; caches = λ p. record { map = shared.map; fp = 3 } }

abbrev ended : System
ended = wrote two 0 (File.terminate shared "m" 10)

abbrev later_on : System
later_on = wrote ended 1 (File.register ended.file "m" active_entry 200)

terminate-status_example :
    ((seen : MissionEntry) × ((File.status later_on.file (later_on.caches 2) "m").0 ≡ some seen)
      × (seen.terminated ≡ true))
    × ((File.register later_on.file "m" active_entry 300).0 ≡ failed (invalid_terminated "m"))
terminate-status_example =
    terminate-status two 0 "m" active_entry 10 2 active_entry 300 (λ p. omega arith) refl refl
      (omega arith)
      (Calls.then_call 200 (omega arith) (Call.registers 1 "m" active_entry)
        (Calls.nothing later_on))
      (omega arith)

register-terminate_example :
    ((File.register shared "m" active_entry 10).0
      ≡ (Memory.register shared.map "m" active_entry 10).0)
    × Answers 10 shared
        (File.register shared "m" active_entry 10)
        (Memory.register shared.map "m" active_entry 10).1
    × Answers 10 shared (File.terminate shared "m" 10) (Memory.terminate shared.map "m" 10)
register-terminate_example = register-terminate shared "m" active_entry 10
