-- ===== src/Store/Missions/Held.antt =====
-- What the registry in memory holds after a registration that succeeds, and after changes of any missions.
use decern.Base.{
  ℕ, leb, String, ◌≡◌, refl, sym, ◌∙◌, false, Bool-cases, inl, inr, Option, none, some,
}
use text.Mathlib.Text.{◌==◌ as str_eq}
use decern.Base.Dict.{Dict, lookup, lookup-insert_other, lookup-insert_same}
use decern.Store.Missions.{MissionEntry, done, retain, mark, add_entry, mission_register}
use decern.Store.Missions.Memory
use decern.Store.Missions.Kept.{
  Dead, IsRetained, lookup-retain-none, retain-Dead, mark-Dead, mission_register-Dead,
}

-- The registry answers with a live entry. It is the one that was given, where the mission was not known, and the other missions are those
-- that the sweep left.
pub record Holds (s256 : String) (given : MissionEntry) (now : ℕ) (map map' : Dict MissionEntry)
    : Type 0 where
  pub entry : MissionEntry
  pub answered : Memory.status map' s256 ≡ some entry
  pub live : entry.terminated ≡ false
  pub new : Memory.status map s256 ≡ none → entry ≡ given
  pub others :
      (k : String) → str_eq s256 k ≡ false → Memory.status map' k ≡ lookup k (retain now map)

add_entry-Holds :
    (o : Option MissionEntry) (s256 : String) (given : MissionEntry) (now : ℕ)
    (map : Dict MissionEntry)
    → lookup s256 (retain now map) ≡ o
    → given.terminated ≡ false
    → (add_entry o s256 given now (retain now map)).0 ≡ done tt
    → Holds s256 given now map (add_entry o s256 given now (retain now map)).1
unfolding add_entry Memory.status
add_entry-Holds (some existing) s256 given now map found l h =
    elim (Bool-cases existing.terminated) [
      | inl t ↦ absurd (cc (rw t at h))
      | inr f ↦ rw f (record {
        entry = existing;
        answered = found;
        live = f;
        new = λ missing. absurd (cc (sym found ∙ lookup-retain-none now map s256 missing));
        others = λ k other. refl;
      })
    ]
add_entry-Holds none s256 given now map found l h = elim (Bool-cases (leb given.expiry now)) [
  | inl late ↦ absurd (cc (rw late at h))
  | inr soon ↦ rw soon (record {
    entry = given;
    answered = lookup-insert_same s256 given (retain now map);
    live = l;
    new = λ missing. refl;
    others = λ k other. lookup-insert_other k s256 given (retain now map) other;
  })
]

pub register-Holds :
    (map : Dict MissionEntry) (s256 : String) (given : MissionEntry) (now : ℕ)
    → given.terminated ≡ false
    → (Memory.register map s256 given now).0 ≡ done tt
    → Holds s256 given now map (Memory.register map s256 given now).1
unfolding Memory.register mission_register
register-Holds map s256 given now l h =
    add_entry-Holds (lookup s256 (retain now map)) s256 given now map refl l h

-- Registrations and terminations of any missions, at times before the tombstone of an entry with this expiry is
-- swept.
pub data Changes (expiry : ℕ) : Dict MissionEntry → Dict MissionEntry → Type 0 where
  nothing : (map : Dict MissionEntry) → Changes expiry map map
  registers :
      {map map' : Dict MissionEntry} (k : String) (entry : MissionEntry) (now : ℕ)
      → IsRetained expiry now
      → Changes expiry (Memory.register map k entry now).1 map'
      → Changes expiry map map'
  terminates :
      {map map' : Dict MissionEntry} (k : String) (now : ℕ)
      → IsRetained expiry now
      → Changes expiry (Memory.terminate map k now) map'
      → Changes expiry map map'

-- They keep a mission dead.
pub Changes-Dead :
    (s256 : String) (expiry : ℕ) {map map' : Dict MissionEntry}
    → Changes expiry map map'
    → Dead s256 expiry map
    → Dead s256 expiry map'
unfolding Memory.register Memory.terminate
Changes-Dead s256 expiry (Changes.nothing map) d = d
Changes-Dead s256 expiry (Changes.registers {map} k entry now r rest) d =
    Changes-Dead s256 expiry rest (mission_register-Dead map k entry now expiry s256 d r)
Changes-Dead s256 expiry (Changes.terminates {map} k now r rest) d =
    Changes-Dead s256 expiry rest
      (retain-Dead now expiry (mark k map) s256 (mark-Dead k s256 map expiry d) r)
