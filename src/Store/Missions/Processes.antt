-- ===== src/Store/Missions/Processes.antt =====
-- Processes that share the registry's file: a termination that one of them makes holds for all.
use decern.Base.{
  ℕ, suc, ◌≤◌, ◌==◌, ==_iff, String, ◌≡◌, refl, sym, Bool, true, false, Bool-cases, inl, inr, arith,
  some, if◌then◌else◌,
}
use decern.Base.Dict.{Dict, lookup}
use decern.Store.Missions.{
  MissionEntry, Registered, failed, done, invalid_terminated, Change, retain, mission_register,
  mark,
}
use decern.Store.Missions.Coherent.{Shared, Cache, read, write}
use decern.Store.Missions.File.{register, terminate, status, is_active}
use decern.Store.Missions.Kept.{
  Dead, IsRetained, retain-Dead, mission_register-Dead, mission_register-refused, mark-Dead,
  mark-Dead_active,
}

pub record System : Type 0 where
  pub file : Shared
  pub caches : ℕ → Cache

abbrev pub set_cache : ℕ → Cache → (ℕ → Cache) → ℕ → Cache
set_cache p cache caches q = if p == q then cache else caches q

-- The system after a write by a process.
abbrev pub wrote : System → ℕ → Registered (Unit {0}) × Shared × Cache → System
wrote sys p (result, file, cache) = record { file = file; caches = set_cache p cache sys.caches }

-- One call of one process at a time.
pub data Call (now : ℕ) (sys : System) : System → Type 0 where
  registers :
      (p : ℕ) (s256 : String) (entry : MissionEntry)
      → Call now sys (wrote sys p (register sys.file s256 entry now))
  terminates : (p : ℕ) (s256 : String) → Call now sys (wrote sys p (terminate sys.file s256 now))
  asks :
      (p : ℕ) (s256 : String)
      → Call now sys (record {
        file = sys.file;
        caches = set_cache p (status sys.file (sys.caches p) s256).1 sys.caches;
      })

-- Calls of any processes, at times before the tombstone of an entry with this expiry is swept.
pub data Calls (expiry : ℕ) : System → System → Type 0 where
  nothing : (sys : System) → Calls expiry sys sys
  then_call :
      {sys sys' sys'' : System} (now : ℕ)
      → IsRetained expiry now
      → Call now sys sys'
      → Calls expiry sys' sys''
      → Calls expiry sys sys''

-- No cache is newer than the file.
abbrev pub AllBehind : System → Type 0
AllBehind sys = (p : ℕ) → (sys.caches p).fp ≤ sys.file.stamp

pub record DeadForAll (s256 : String) (expiry : ℕ) (sys : System) : Type 0 where
  pub in_file : Dead s256 expiry sys.file.map
  pub in_caches : (p : ℕ) → (sys.caches p).fp ≡ sys.file.stamp → Dead s256 expiry (sys.caches p).map
  pub behind : AllBehind sys

-- A write that keeps the mission dead in the map that it makes.
write-DeadForAll :
    (s256 : String) (expiry : ℕ) (sys : System) (p : ℕ) (f : Dict MissionEntry → Change)
    → DeadForAll s256 expiry sys
    → Dead s256 expiry (f sys.file.map).1
    → DeadForAll s256 expiry (wrote sys p (write sys.file f))
unfolding write
write-DeadForAll s256 expiry sys p f d new = by_dirty (f sys.file.map).2
  where
    after : Bool → System
    after dirty =
        let file' =
          if dirty
          then record { map = (f sys.file.map).1; stamp = suc sys.file.stamp }
          else sys.file in
        record {
          file = file';
          caches = set_cache p (record { map = (f sys.file.map).1; fp = file'.stamp }) sys.caches;
        }

    by_dirty : (dirty : Bool) → DeadForAll s256 expiry (after dirty)
    by_dirty true = record {
      in_file = new;
      in_caches = λ q e. elim (Bool-cases (p == q)) [
        | inl same ↦ rw same new
        | inr other ↦ absurd (
            let h : (sys.caches q).fp ≡ suc sys.file.stamp = (rw other at e) in
            omega (arith, h, d.behind q))
      ];
      behind = λ q. elim (Bool-cases (p == q)) [
        | inl same ↦ rw same (omega arith)
        | inr other ↦ rw other (omega (arith, d.behind q))
      ];
    }
    by_dirty false = record {
      in_file = d.in_file;
      in_caches = λ q e. elim (Bool-cases (p == q)) [
        | inl same ↦ rw same new
        | inr other ↦ rw other (d.in_caches q (rw other at e))
      ];
      behind = λ q. elim (Bool-cases (p == q)) [
        | inl same ↦ rw same (omega arith)
        | inr other ↦ rw other (d.behind q)
      ];
    }

terminate-Dead :
    (map : Dict MissionEntry) (k s256 : String) (now expiry : ℕ) (active : Bool)
    → Dead s256 expiry map
    → IsRetained expiry now
    → Dead s256 expiry (retain now (if active then mark k map else map))
terminate-Dead map k s256 now expiry true d r =
    retain-Dead now expiry (mark k map) s256 (mark-Dead k s256 map expiry d) r
terminate-Dead map k s256 now expiry false d r = retain-Dead now expiry map s256 d r

-- A process that reads sees the mission dead.
read-Dead :
    (s256 : String) (expiry : ℕ) (sys : System) (p : ℕ)
    → DeadForAll s256 expiry sys
    → Dead s256 expiry (read sys.file (sys.caches p)).map
unfolding read
read-Dead s256 expiry sys p d = elim (Bool-cases (sys.file.stamp == (sys.caches p).fp)) [
  | inl same ↦ rw (read, same) (d.in_caches p (sym ((==_iff _ _).0 same)))
  | inr changed ↦ rw (read, changed) d.in_file
]

read_fp : (file : Shared) (cache : Cache) → (read file cache).fp ≡ file.stamp
unfolding read
read_fp file cache = elim (Bool-cases (file.stamp == cache.fp)) [
  | inl same ↦ rw (read, same) (sym ((==_iff _ _).0 same))
  | inr changed ↦ rw (read, changed) refl
]

Call-DeadForAll :
    (s256 : String) (expiry now : ℕ) (sys sys' : System)
    → IsRetained expiry now
    → DeadForAll s256 expiry sys
    → Call now sys sys'
    → DeadForAll s256 expiry sys'
unfolding register terminate status
Call-DeadForAll s256 expiry now sys sys' r d (Call.registers p k entry) =
    write-DeadForAll s256 expiry sys p (λ map. mission_register map k entry now) d
      (mission_register-Dead sys.file.map k entry now expiry s256 d.in_file r)
Call-DeadForAll s256 expiry now sys sys' r d (Call.terminates p k) =
    write-DeadForAll s256 expiry sys p
      (λ map. (
        done tt,
        retain now (if is_active (lookup k map) then mark k map else map),
        is_active (lookup k map),
      ))
      d
      (terminate-Dead sys.file.map k s256 now expiry (is_active (lookup k sys.file.map)) d.in_file
        r)
Call-DeadForAll s256 expiry now sys sys' r d (Call.asks p k) = record {
  in_file = d.in_file;
  in_caches = λ q e. elim (Bool-cases (p == q)) [
    | inl same ↦ rw same (read-Dead s256 expiry sys p d)
    | inr other ↦ rw other (d.in_caches q (rw other at e))
  ];
  behind = λ q. elim (Bool-cases (p == q)) [
    | inl same ↦ rw same (omega (arith, read_fp sys.file (sys.caches p)))
    | inr other ↦ rw other (d.behind q)
  ];
}

Calls-DeadForAll :
    (s256 : String) (expiry : ℕ) {sys sys' : System}
    → Calls expiry sys sys'
    → DeadForAll s256 expiry sys
    → DeadForAll s256 expiry sys'
Calls-DeadForAll s256 expiry (Calls.nothing sys) d = d
Calls-DeadForAll s256 expiry (Calls.then_call {sys} {sys'} now r call calls) d =
    Calls-DeadForAll s256 expiry calls (Call-DeadForAll s256 expiry now sys sys' r d call)

-- A process ends an active mission.
terminate-DeadForAll :
    (sys : System) (p : ℕ) (s256 : String) (e : MissionEntry) (now : ℕ)
    → AllBehind sys
    → lookup s256 sys.file.map ≡ some e
    → e.terminated ≡ false
    → IsRetained e.expiry now
    → DeadForAll s256 e.expiry (wrote sys p (terminate sys.file s256 now))
unfolding terminate write is_active
terminate-DeadForAll sys p s256 e now behind found active r =
    rw (terminate, write, found, is_active, active) ended
  where
    tombstone : Dead s256 e.expiry (retain now (mark s256 sys.file.map))
    tombstone =
        retain-Dead now e.expiry (mark s256 sys.file.map) s256
          (mark-Dead_active s256 sys.file.map e found) r

    ended : DeadForAll s256 e.expiry (record {
      file = record { map = retain now (mark s256 sys.file.map); stamp = suc sys.file.stamp };
      caches =
          set_cache p
            (record { map = retain now (mark s256 sys.file.map); fp = suc sys.file.stamp })
            sys.caches;
    })
    ended = record {
      in_file = tombstone;
      in_caches = λ q h. elim (Bool-cases (p == q)) [
        | inl same ↦ rw same tombstone
        | inr other ↦ absurd (
            let h' : (sys.caches q).fp ≡ suc sys.file.stamp = (rw other at h) in
            omega (arith, h', behind q))
      ];
      behind = λ q. elim (Bool-cases (p == q)) [
        | inl same ↦ rw same (omega arith)
        | inr other ↦ rw other (omega (arith, behind q))
      ];
    }

-- Once a process has ended an active mission, every process sees it terminated and no process registers it again,
-- after any calls of any processes at times before 30 days past its expiry.
pub terminate-status :
    (sys : System) (p : ℕ) (s256 : String) (e : MissionEntry) (now : ℕ) {sys' : System} (q : ℕ)
    (entry : MissionEntry) (later : ℕ)
    → AllBehind sys
    → lookup s256 sys.file.map ≡ some e
    → e.terminated ≡ false
    → IsRetained e.expiry now
    → Calls e.expiry (wrote sys p (terminate sys.file s256 now)) sys'
    → IsRetained e.expiry later
    → ((seen : MissionEntry) × ((status sys'.file (sys'.caches q) s256).0 ≡ some seen)
        × (seen.terminated ≡ true))
      × ((register sys'.file s256 entry later).0 ≡ failed (invalid_terminated s256))
unfolding status register write
terminate-status sys p s256 e now {sys'} q entry later behind found active r calls r' =
    let d =
      Calls-DeadForAll s256 e.expiry calls
        (terminate-DeadForAll sys p s256 e now behind found active r) in
    let seen = read-Dead s256 e.expiry sys' q d in
    (
      (seen.entry, seen.found, seen.terminated),
      mission_register-refused sys'.file.map s256 entry later e.expiry d.in_file r',
    )
