-- ===== src/Store/Missions/Backends.antt =====
-- The registry in a file beside the registry in memory: what is answered after the same call on the same map.
use decern.Base.{
  ℕ, suc, ◌≤◌, ◌<◌, ◌==◌, ==_iff, leb, String, ◌≡◌, refl, sym, ap, ◌∙◌, subst, Bool, true, false,
  Bool-cases, inl, inr, arith, Option, none, some, [], ◌∷◌, if◌then◌else◌,
}
use text.Mathlib.Text.{◌==◌ as str_eq}
use decern.Base.Dict.{Dict, lookup}
use decern.Store.Missions.{
  MissionEntry, Registered, done, Change, mission_entry_retained, retain, mark, add_entry,
  mission_register,
}
use decern.Store.Missions.Coherent.{Shared, Cache, read, write}
use decern.Store.Missions.Memory
use decern.Store.Missions.File.{is_active}
use decern.Store.Missions.File
use decern.Store.Missions.Kept.{retain-retain, lookup-retain, lookup-retain-none}

mark-inactive :
    (s256 : String) (map : Dict MissionEntry)
    → is_active (lookup s256 map) ≡ false
    → mark s256 map ≡ map
unfolding mark is_active
mark-inactive s256 [] h = refl
mark-inactive s256 ((k, e) ∷ map) h = elim (Bool-cases (str_eq k s256)) [
  | inl same ↦ elim (Bool-cases e.terminated) [
    | inl t ↦ rw (mark, same) (ap (λ b. (k, record e { terminated = b }) ∷ map) (sym t))
    | inr f ↦ absurd (cc (rw (same, f) at h))
  ]
  | inr other ↦ rw (mark, other) (ap (λ m. (k, e) ∷ m) (mark-inactive s256 map (rw other at h)))
]

-- An answer about a mission: the same as the registry in memory gives, or an entry that is no longer retained.
pub data Seen (now : ℕ) : Option MissionEntry → Option MissionEntry → Type 0 where
  same : {o : Option MissionEntry} → Seen now o o
  unswept :
      {o : Option MissionEntry} (e : MissionEntry)
      → mission_entry_retained e now ≡ false
      → Seen now (some e) o

-- A cache that is no newer than the file and, where it is as new, differs from the file's map by entries alone that a sweep from
-- this time on takes.
pub record IsCurrent (now : ℕ) (file : Shared) (reader : Cache) : Type 0 where
  pub behind : reader.fp ≤ file.stamp
  pub fresh : reader.fp ≡ file.stamp → (t : ℕ) → now ≤ t → retain t reader.map ≡ retain t file.map

-- What processes are answered after a call, beside the map of the registry in memory: the process that made
-- the call, and any other. Their caches stay current.
pub record Answers (now : ℕ) (file : Shared) (after : Registered (Unit {0}) × Shared × Cache)
    (map : Dict MissionEntry) : Type 0 where
  pub own : (k : String) → (File.status after.1 after.2 k).0 ≡ Memory.status map k
  pub own_current : IsCurrent now after.1 after.2
  pub others :
      (reader : Cache) (k : String)
      → IsCurrent now file reader
      → Seen now (File.status after.1 reader k).0 (Memory.status map k)
  pub others_current : (reader : Cache) → IsCurrent now file reader → IsCurrent now after.1 reader

read_same : (file : Shared) (cache : Cache) → cache.fp ≡ file.stamp → read file cache ≡ cache
unfolding read
read_same file cache e =
    let same_stamp : (file.stamp == cache.fp) ≡ true = (==_iff _ _).1 (sym e) in
    rw (read, same_stamp) refl

read_behind :
    (file : Shared) (cache : Cache) → cache.fp < file.stamp → (read file cache).map ≡ file.map
unfolding read
read_behind file cache h =
    let other : (file.stamp == cache.fp) ≡ false = ground (arith, h) in rw (read, other) refl

read-IsCurrent :
    (now : ℕ) (file : Shared) (cache : Cache)
    → IsCurrent now file cache
    → retain now (read file cache).map ≡ retain now file.map
unfolding read
read-IsCurrent now file cache h = elim (Bool-cases (file.stamp == cache.fp)) [
  | inl equal ↦ rw (read, equal) (h.fresh (sym ((==_iff _ _).0 equal)) now (omega arith))
  | inr other ↦ rw (read, other) refl
]

Seen-retain :
    (now : ℕ) (map : Dict MissionEntry) (k : String)
    → Seen now (lookup k map) (lookup k (retain now map))
Seen-retain now map k = go (lookup k map) refl
  where
    go : (o : Option MissionEntry) → lookup k map ≡ o → Seen now o (lookup k (retain now map))
    go none h = subst (Seen now none) (sym (lookup-retain-none now map k h)) Seen.same
    go (some e) h = elim (Bool-cases (mission_entry_retained e now)) [
      | inl kept ↦ subst (Seen now (some e)) (sym (lookup-retain now map k e h kept)) Seen.same
      | inr swept ↦ Seen.unswept e swept
    ]

-- A write whose map is dirty, or is what the sweep leaves of the file's.
write-Answers :
    (now : ℕ) (file : Shared) (f : Dict MissionEntry → Change)
    → ((f file.map).2 ≡ false → (f file.map).1 ≡ retain now file.map)
    → Answers now file (write file f) (f file.map).1
unfolding write File.status Memory.status
write-Answers now file f clean = by_dirty (f file.map).2 refl
  where
    file_after : Bool → Shared
    file_after dirty =
        if dirty then record { map = (f file.map).1; stamp = suc file.stamp } else file

    after : Bool → Registered (Unit {0}) × Shared × Cache
    after dirty = (
      (f file.map).0,
      file_after dirty,
      record { map = (f file.map).1; fp = (file_after dirty).stamp },
    )

    own_after :
        (dirty : Bool) (k : String)
        → lookup k (read (after dirty).1 (after dirty).2).map ≡ lookup k (f file.map).1
    own_after dirty k =
        ap (λ (x : Cache). lookup k x.map) (read_same (after dirty).1 (after dirty).2 refl)

    by_dirty :
        (dirty : Bool) → (f file.map).2 ≡ dirty → Answers now file (after dirty) (f file.map).1
    by_dirty true e = record {
      own = own_after true;
      own_current = record { behind = omega arith; fresh = λ same t h. refl };
      others = λ reader k h.
          let r = read_behind (file_after true) reader (omega (arith, h.behind)) in
          subst (λ m. Seen now (lookup k m) (lookup k (f file.map).1)) (sym r) Seen.same;
      others_current = λ reader h. record {
        behind = omega (arith, h.behind);
        fresh = λ same. absurd (omega (arith, h.behind, same));
      };
    }
    by_dirty false e = record {
      own = own_after false;
      own_current = record {
        behind = omega arith;
        fresh = λ same t h. ap (retain t) (clean e) ∙ retain-retain now t file.map h;
      };
      others = λ reader k h.
          subst (λ m. Seen now (lookup k (read file reader).map) (lookup k m))
            (read-IsCurrent now file reader h ∙ sym (clean e))
            (Seen-retain now (read file reader).map k);
      others_current = λ reader h. h;
    }

add_entry-clean :
    (o : Option MissionEntry) (s256 : String) (entry : MissionEntry) (now : ℕ)
    (map : Dict MissionEntry)
    → (add_entry o s256 entry now map).2 ≡ false
    → (add_entry o s256 entry now map).1 ≡ map
unfolding add_entry
add_entry-clean (some existing) s256 entry now map h = elim (Bool-cases existing.terminated) [
  | inl t ↦ rw t refl
  | inr f ↦ rw f refl
]
add_entry-clean none s256 entry now map h = elim (Bool-cases (leb entry.expiry now)) [
  | inl t ↦ rw t refl
  | inr f ↦ absurd (cc (rw f at h))
]

-- A registration through the file gives the result that it gives in memory, from the map in the file. After it, and after
-- a termination through the file, the process that made the call is answered for every mission as the registry in memory answers. Any
-- other process whose cache is current is answered the same, or with an entry that is no longer retained. Current is a cache that is no newer
-- than the file and, where it is as new, differs from the file's map by entries alone that a sweep takes; the caches are current after the call too.
pub register-terminate :
    (file : Shared) (s256 : String) (entry : MissionEntry) (now : ℕ)
    → ((File.register file s256 entry now).0 ≡ (Memory.register file.map s256 entry now).0)
      × Answers now file
          (File.register file s256 entry now)
          (Memory.register file.map s256 entry now).1
      × Answers now file (File.terminate file s256 now) (Memory.terminate file.map s256 now)
unfolding File.register Memory.register File.terminate Memory.terminate mission_register
register-terminate file s256 entry now = (
  unfold write in refl,
  write-Answers now file (λ map. mission_register map s256 entry now)
      (add_entry-clean (lookup s256 (retain now file.map)) s256 entry now (retain now file.map)),
  subst (Answers now file (File.terminate file s256 now))
      (ended (is_active (lookup s256 file.map)) refl)
      (write-Answers now file
        (λ map.
          let dirty = is_active (lookup s256 map) in
          (done tt, retain now (if dirty then mark s256 map else map), dirty))
        (λ h. rw h refl)),
)
  where
    ended :
        (active : Bool)
        → is_active (lookup s256 file.map) ≡ active
        → retain now (if active then mark s256 file.map else file.map)
          ≡ retain now (mark s256 file.map)
    ended true h = refl
    ended false h = ap (retain now) (sym (mark-inactive s256 file.map h))
