-- ===== src/Store/Missions/Kept.antt =====
-- A terminated mission in one map: what each operation does to it.
use decern.Base.{
  ℕ, ◌≤◌, ◌<◌, ltb, leb, String, ◌≡◌, refl, sym, ap, ◌∙◌, true, Bool-cases, inl, inr, arith, Option,
  none, some, [], ◌∷◌,
}
use text.Mathlib.Text.{◌==◌ as str_eq}
use text.Mathlib.TextEquality.{eq_iff}
use decern.Base.Dict.{Dict, lookup, lookup-insert_other}
use decern.Store.Missions.{
  MissionEntry, failed, invalid_terminated, saturating_add, retention_secs, mission_entry_retained,
  retain, add_entry, mission_register, mark,
}

-- The map holds a terminated entry that expires then.
pub record Dead (s256 : String) (expiry : ℕ) (map : Dict MissionEntry) : Type 0 where
  pub entry : MissionEntry
  pub found : lookup s256 map ≡ some entry
  pub terminated : entry.terminated ≡ true
  pub expires : entry.expiry ≡ expiry

-- Within the retention of a tombstone.
abbrev pub IsRetained : ℕ → ℕ → Type 0
IsRetained expiry now = now < saturating_add expiry retention_secs

pub lookup-retain :
    (now : ℕ) (map : Dict MissionEntry) (s256 : String) (e : MissionEntry)
    → lookup s256 map ≡ some e
    → mission_entry_retained e now ≡ true
    → lookup s256 (retain now map) ≡ some e
unfolding retain
lookup-retain now [] s256 e h r = cc
lookup-retain now ((k, x) ∷ map) s256 e h r = elim (Bool-cases (str_eq k s256)) [
  | inl same ↦
      let it : x ≡ e = cc (rw same at h) in
      let kept : mission_entry_retained x now ≡ true =
        ap (λ y. mission_entry_retained y now) it ∙ r in
      rw (kept, same) (ap some it)
  | inr other ↦
      let rest = lookup-retain now map s256 e (rw other at h) r in
      elim (Bool-cases (mission_entry_retained x now)) [
        | inl kept ↦ rw (kept, other) rest
        | inr swept ↦ rw swept rest
      ]
]

pub lookup-retain-none :
    (now : ℕ) (map : Dict MissionEntry) (s256 : String)
    → lookup s256 map ≡ none
    → lookup s256 (retain now map) ≡ none
unfolding retain
lookup-retain-none now [] s256 h = refl
lookup-retain-none now ((k, x) ∷ map) s256 h = elim (Bool-cases (str_eq k s256)) [
  | inl same ↦ absurd (cc (rw same at h))
  | inr other ↦
      let rest = lookup-retain-none now map s256 (rw other at h) in
      elim (Bool-cases (mission_entry_retained x now)) [
        | inl kept ↦ rw (kept, other) rest
        | inr swept ↦ rw swept rest
      ]
]

-- What is retained at a time was retained before.
retained_before :
    (e : MissionEntry) (now t : ℕ)
    → now ≤ t
    → mission_entry_retained e t ≡ true
    → mission_entry_retained e now ≡ true
unfolding mission_entry_retained
retained_before e now t h r = elim (Bool-cases e.terminated) [
  | inl dead ↦
      let r' : ltb t (saturating_add e.expiry retention_secs) ≡ true =
        rw (mission_entry_retained, dead) at r in
      rw (mission_entry_retained, dead) (earlier now t _ h r')
  | inr live ↦
      let r' : ltb t e.expiry ≡ true = rw (mission_entry_retained, live) at r in
      rw (mission_entry_retained, live) (earlier now t _ h r')
]
  where
    earlier : (a b c : ℕ) → a ≤ b → ltb b c ≡ true → ltb a c ≡ true
    earlier a b c le lt = ground (arith, le, lt)

-- A later sweep takes what an earlier one takes.
pub retain-retain :
    (now t : ℕ) (map : Dict MissionEntry) → now ≤ t → retain t (retain now map) ≡ retain t map
unfolding retain
retain-retain now t [] h = refl
retain-retain now t ((k, e) ∷ map) h =
    let ih = retain-retain now t map h in
    elim (Bool-cases (mission_entry_retained e t)) [
      | inl kept ↦
          let before = retained_before e now t h kept in rw (before, kept) (ap (λ m. (k, e) ∷ m) ih)
      | inr swept ↦ elim (Bool-cases (mission_entry_retained e now)) [
        | inl before ↦ rw (before, swept) ih
        | inr gone ↦ rw (gone, swept) ih
      ]
    ]

pub retain-Dead :
    (now expiry : ℕ) (map : Dict MissionEntry) (s256 : String)
    → Dead s256 expiry map
    → IsRetained expiry now
    → Dead s256 expiry (retain now map)
unfolding mission_entry_retained
retain-Dead now expiry map s256 d r =
    let late : ltb now (saturating_add d.entry.expiry retention_secs) ≡ true =
      ap (λ x. ltb now (saturating_add x retention_secs)) d.expires ∙ ground (arith, r) in
    record {
      entry = d.entry;
      found =
          lookup-retain now map s256 d.entry d.found
            (rw (mission_entry_retained, d.terminated) late);
      terminated = d.terminated;
      expires = d.expires;
    }

-- The registration of any mission keeps it.
add_entry-Dead :
    (o : Option MissionEntry) (k : String) (entry : MissionEntry) (now expiry : ℕ)
    (map : Dict MissionEntry) (s256 : String)
    → lookup k map ≡ o
    → Dead s256 expiry map
    → Dead s256 expiry (add_entry o k entry now map).1
unfolding add_entry
add_entry-Dead (some existing) k entry now expiry map s256 e d =
    elim (Bool-cases existing.terminated) [ inl t ↦ rw t d | inr f ↦ rw f d ]
add_entry-Dead none k entry now expiry map s256 e d = elim (Bool-cases (leb entry.expiry now)) [
  | inl t ↦ rw t d
  | inr f ↦ rw f (elim (Bool-cases (str_eq k s256)) [
    | inl same ↦ absurd (cc (sym e ∙ ap (λ x. lookup x map) ((eq_iff k s256).0 same) ∙ d.found))
    | inr other ↦ record {
      entry = d.entry;
      found = lookup-insert_other s256 k entry map other ∙ d.found;
      terminated = d.terminated;
      expires = d.expires;
    }
  ])
]

pub mission_register-Dead :
    (map : Dict MissionEntry) (k : String) (entry : MissionEntry) (now expiry : ℕ) (s256 : String)
    → Dead s256 expiry map
    → IsRetained expiry now
    → Dead s256 expiry (mission_register map k entry now).1
unfolding mission_register
mission_register-Dead map k entry now expiry s256 d r =
    add_entry-Dead (lookup k (retain now map)) k entry now expiry (retain now map) s256 refl
      (retain-Dead now expiry map s256 d r)

-- A terminated mission is not registered again while its tombstone is retained.
pub mission_register-refused :
    (map : Dict MissionEntry) (s256 : String) (entry : MissionEntry) (now expiry : ℕ)
    → Dead s256 expiry map
    → IsRetained expiry now
    → (mission_register map s256 entry now).0 ≡ failed (invalid_terminated s256)
unfolding mission_register add_entry
mission_register-refused map s256 entry now expiry d r =
    let kept = retain-Dead now expiry map s256 d r in
    rw (mission_register, kept.found, kept.terminated) refl

lookup-mark :
    (k s256 : String) (map : Dict MissionEntry) (e : MissionEntry)
    → lookup s256 map ≡ some e
    → e.terminated ≡ true
    → lookup s256 (mark k map) ≡ some e
unfolding mark
lookup-mark k s256 [] e h t = cc
lookup-mark k s256 ((j, x) ∷ map) e h t = elim (Bool-cases (str_eq j s256)) [
  | inl same ↦
      let it : x ≡ e = cc (rw same at h) in
      let still : record x { terminated = true } ≡ e =
        ap (λ (y : MissionEntry). record y { terminated = true }) it
        ∙ ap (λ b. record e { terminated = b }) (sym t) in
      elim (Bool-cases (str_eq j k)) [
        | inl marked ↦ rw (marked, same) (ap some still)
        | inr other ↦ rw (other, same) (ap some it)
      ]
  | inr away ↦
      let h' : lookup s256 map ≡ some e = rw away at h in
      elim (Bool-cases (str_eq j k)) [
        | inl marked ↦ rw (marked, away) h'
        | inr other ↦ rw (other, away) (lookup-mark k s256 map e h' t)
      ]
]

pub mark-Dead :
    (k s256 : String) (map : Dict MissionEntry) (expiry : ℕ)
    → Dead s256 expiry map
    → Dead s256 expiry (mark k map)
mark-Dead k s256 map expiry d = record {
  entry = d.entry;
  found = lookup-mark k s256 map d.entry d.found d.terminated;
  terminated = d.terminated;
  expires = d.expires;
}

-- What is marked is dead.
pub mark-Dead_active :
    (s256 : String) (map : Dict MissionEntry) (e : MissionEntry)
    → lookup s256 map ≡ some e
    → Dead s256 e.expiry (mark s256 map)
unfolding mark
mark-Dead_active s256 [] e h = cc
mark-Dead_active s256 ((j, x) ∷ map) e h = elim (Bool-cases (str_eq j s256)) [
  | inl same ↦
      let it : x ≡ e = cc (rw same at h) in
      record {
        entry = record x { terminated = true };
        found = rw (mark, same, same) refl;
        terminated = refl;
        expires = ap (λ (y : MissionEntry). y.expiry) it;
      }
  | inr other ↦
      let d = mark-Dead_active s256 map e (rw other at h) in
      record {
        entry = d.entry;
        found = rw (mark, other, other) d.found;
        terminated = d.terminated;
        expires = d.expires;
      }
]
