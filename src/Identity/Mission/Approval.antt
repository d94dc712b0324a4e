-- ===== src/Identity/Mission/Approval.antt =====
-- What an approval shows: the approver holds what it grants, and the grant is in the registry.
use decern.Base.{
  ℕ, ◌≤◌, ◌<◌, ltb, leb, String, ◌≡◌, ◌≢◌, refl, sym, ap, ◌∙◌, subst, true, false, not,
  not-eq-false, Bool-cases, inl, inr, ◌⊎◌, arith, Option, none, some, List, [], ◌∷◌, Among, here,
  there, Bytes,
}
use text.Mathlib.Text.{◌==◌ as str_eq}
use text.Mathlib.TextEquality.{eq_iff}
use decern.Base.Dict.{contains, Dict, contains-Among, str_eq_sound}
use decern.Base.Json.{get, as_str}
use decern.Kernel.Graph.{Directory, revoked}
use decern.Kernel.Parse.{parse, ParseViolation}
use decern.Kernel.Load.{Model}
use decern.Store.Missions.{MissionEntry, Registered, done, failed}
use decern.Store.Missions.Memory
use decern.Store.Missions.Held.{Holds, register-Holds}
use decern.Identity.Errors.{
  Malformed, Refusal, IdentityError, Outcome, ok, err, ◌>>=◌, ok_or, >>=-eq-ok, refuse_if-eq-ok,
  ok_or-eq-ok,
}
use decern.Identity.Exchange.{delegator_attrs, principal_attrs, ◌>?◌}
use decern.Identity.Mission.{
  Mission, ApprovedMission, MissionRegistry, memory, Blobs, from_registry, first_missing,
  refuse_some, tenant_is, parsed_directory, entry_of, check_mission, approved, approve,
}

first_missing-none :
    (tools scopes : List String) (s : String)
    → first_missing tools scopes ≡ none
    → Among s tools
    → Among s scopes
first_missing-none [] scopes s h a = elim a [ ]
first_missing-none (t ∷ tools) scopes s h a =
    go (Bool-cases (contains t scopes)) a (λ h' b. first_missing-none tools scopes s h' b)
  where
    go :
        (contains t scopes ≡ true) ⊎ (contains t scopes ≡ false)
        → Among s (t ∷ tools)
        → (first_missing tools scopes ≡ none → Among s tools → Among s scopes)
        → Among s scopes
    go (inl keep) (here e) ih = subst (λ x. Among x scopes) (sym e) (contains-Among t scopes keep)
    go (inl keep) (there b) ih = ih (rw keep at h) b
    go (inr missing) b ih = absurd (cc (rw missing at h))

refuse_some-ok : (o : Option String) → refuse_some o ≡ ok tt → o ≡ none
refuse_some-ok none h = refl
refuse_some-ok (some t) h = cc

parsed_directory-ok :
    (o : List ParseViolation ⊎ Directory) (dir : Directory)
    → parsed_directory o ≡ ok dir
    → o ≡ inr dir
parsed_directory-ok (inl v) dir h = cc
parsed_directory-ok (inr d) dir h = (let same : d ≡ dir = cc h in ap inr same)

tenant_is_sound : (o : Option String) (t : String) → tenant_is o t ≡ true → o ≡ some t
tenant_is_sound none t h = cc
tenant_is_sound (some u) t h = ap some (str_eq_sound u t h)

-- The approver's authority over what the mission grants.
pub record Vouched (model : Model) (mission : Mission) (now : ℕ) : Type 0 where
  pub tenant : String
  pub expiry : ℕ
  pub scopes : List String
  pub held_by : delegator_attrs model mission.approver ≡ some (tenant, expiry, scopes)
  pub another : mission.approver ≢ mission.agent
  pub directory : Directory
  pub parsed : parse model.entities ≡ inr directory
  pub not_revoked : revoked directory mission.approver ≡ false
  pub tools_held : (s : String) → Among s mission.approved_tools → Among s scopes
  pub expires : (now < mission.expiry) × (mission.expiry ≤ expiry)
  pub same_tenant :
      (principal_attrs model mission.agent >? λ a. get "tenant" a >? as_str) ≡ some tenant

check_mission-Vouched :
    (model : Model) (mission : Mission) (now : ℕ)
    → check_mission model mission now ≡ ok tt
    → Vouched model mission now
unfolding check_mission
check_mission-Vouched model mission now h =
    let (approver, known, h1) = >>=-eq-ok (ok_or (delegator_attrs model mission.approver) _) _ h in
    let (another, h2) = refuse_if-eq-ok (str_eq mission.approver mission.agent) _ _ h1 in
    let (directory, parsed, h3) = >>=-eq-ok (parsed_directory (parse model.entities)) _ h2 in
    let (not_revoked, h4) = refuse_if-eq-ok (revoked directory mission.approver) _ _ h3 in
    let (u, held, h5) =
      >>=-eq-ok (refuse_some (first_missing mission.approved_tools approver.2)) _ h4 in
    let (inside, h6) = refuse_if-eq-ok (ltb approver.1 mission.expiry) _ _ h5 in
    let (future, h7) = refuse_if-eq-ok (leb mission.expiry now) _ _ h6 in
    let agent_tenant : Option String =
      principal_attrs model mission.agent >? λ a. get "tenant" a >? as_str in
    let (home, h8) =
      refuse_if-eq-ok (not (tenant_is agent_tenant approver.0))
        (IdentityError.subject_invalid Refusal.foreign_agent) (ok tt) h7 in
    record {
      tenant = approver.0;
      expiry = approver.1;
      scopes = approver.2;
      held_by = ok_or-eq-ok _ _ known;
      another = λ e. cc ((eq_iff mission.approver mission.agent).1 e, another);
      directory = directory;
      parsed = parsed_directory-ok (parse model.entities) directory parsed;
      not_revoked = not_revoked;
      tools_held = λ s a.
          first_missing-none mission.approved_tools approver.2 s
            (refuse_some-ok (first_missing mission.approved_tools approver.2) held) a;
      expires = (ground (arith, future), ground (arith, inside));
      same_tenant = tenant_is_sound agent_tenant approver.0 (not-eq-false _ home);
    }

module _ {S : Type 0} (registry : MissionRegistry S) (blobs : Blobs) where
  record Granted (model : Model) (mission : Mission) (now : ℕ) (store : S) (m : ApprovedMission)
      (store' : S) : Type 0 where
    vouched : Vouched model mission now
    printed : blobs.print_mission mission ≡ some m.blob
    handle : m ≡ approved blobs mission m.blob
    registered : registry.register store m.s256 (entry_of mission) now ≡ (done tt, store')

  abbrev answered : Mission → Bytes → Registered (Unit {0}) × S → Outcome ApprovedMission × S
  answered mission blob r = (from_registry r.0 >>= (λ u. ok (approved blobs mission blob)), r.1)

  registered_after :
      (mission : Mission) (now : ℕ) (store : S) (blob : Bytes) (r : Registered (Unit {0}) × S)
      (m : ApprovedMission) (store' : S)
      → answered mission blob r ≡ (ok m, store')
      → (r ≡ (done tt, store')) × (approved blobs mission blob ≡ m)
  registered_after mission now store blob (done u, s) m store' h = (
    ap (λ (x : Outcome ApprovedMission × S). (done tt, x.1)) h,
    (let e : ok (approved blobs mission blob) ≡ ok m =
          ap (λ (x : Outcome ApprovedMission × S). x.0) h in
        cc e),
  )
  registered_after mission now store blob (failed e, s) m store' h = cc

  approve-Granted :
      (model : Model) (mission : Mission) (now : ℕ) (store : S) (m : ApprovedMission) (store' : S)
      → approve registry blobs model mission now store ≡ (ok m, store')
      → Granted model mission now store m store'
  unfolding approve
  approve-Granted model mission now store m store' = checked (check_mission model mission now) refl
    where
      printed_as : Option Bytes → Outcome ApprovedMission × S
      printed_as none = (err (IdentityError.malformed Malformed.unprintable), store)
      printed_as (some blob) =
          answered mission blob
            (registry.register store (blobs.digest_text blob) (entry_of mission) now)

      printed_then :
          (o : Option Bytes)
          → blobs.print_mission mission ≡ o
          → Vouched model mission now
          → printed_as o ≡ (ok m, store')
          → Granted model mission now store m store'
      printed_then none e v h = absurd (cc h)
      printed_then (some blob) e v h =
          let (answer, same) =
            registered_after mission now store blob
              (registry.register store (blobs.digest_text blob) (entry_of mission) now) m store'
              h in
          record {
            vouched = v;
            printed = e ∙ ap (λ (x : ApprovedMission). some x.blob) same;
            handle = subst (λ (x : ApprovedMission). x ≡ approved blobs mission x.blob) same refl;
            registered =
                ap (λ (x : ApprovedMission). registry.register store x.s256 (entry_of mission) now)
                  (sym same)
                ∙ answer;
          }

      checked :
          (o : Outcome (Unit {0}))
          → check_mission model mission now ≡ o
          → elim o as (λ _. Outcome ApprovedMission × S) [
            | err e ↦ (err e, store)
            | ok u ↦ printed_as (blobs.print_mission mission)
          ]
            ≡ (ok m, store')
          → Granted model mission now store m store'
      checked (err e) c h = absurd (cc h)
      checked (ok u) c h =
          printed_then (blobs.print_mission mission) refl
            (check_mission-Vouched model mission now c) h

-- What an approval in memory did.
pub record Approved (blobs : Blobs) (model : Model) (mission : Mission) (now : ℕ)
    (map : Dict MissionEntry) (m : ApprovedMission) (map' : Dict MissionEntry) : Type 0 where
  pub vouched : Vouched model mission now
  pub printed : blobs.print_mission mission ≡ some m.blob
  pub handle : m ≡ approved blobs mission m.blob
  pub registered : Holds (blobs.digest_text m.blob) (entry_of mission) now map map'

-- An approval over the registry in memory is granted only when the approver is another principal than the agent, of the same tenant,
-- holds every approved tool, is not revoked and outlives the mission, and the mission has not expired. The registry then answers with
-- a live entry for the digest of the mission's bytes. It is the mission's own entry, where the registry held none for that digest, and
-- the other entries are those that the sweep at that time left.
pub approve-Approved :
    (blobs : Blobs) (model : Model) (mission : Mission) (now : ℕ) (map : Dict MissionEntry)
    (m : ApprovedMission) (map' : Dict MissionEntry)
    → approve memory blobs model mission now map ≡ (ok m, map')
    → Approved blobs model mission now map m map'
approve-Approved blobs model mission now map m map' h =
    let g = approve-Granted memory blobs model mission now map m map' h in
    let digest : m.s256 ≡ blobs.digest_text m.blob =
      ap (λ (x : ApprovedMission). x.s256) g.handle in
    let call : Memory.register map (blobs.digest_text m.blob) (entry_of mission) now
        ≡ (done tt, map') =
      ap (λ s. Memory.register map s (entry_of mission) now) (sym digest) ∙ g.registered in
    record {
      vouched = g.vouched;
      printed = g.printed;
      handle = g.handle;
      registered =
          subst (Holds (blobs.digest_text m.blob) (entry_of mission) now map)
            (ap (λ (x : Registered (Unit {0}) × Dict MissionEntry). x.1) call)
            (register-Holds map (blobs.digest_text m.blob) (entry_of mission) now refl
              (ap (λ (x : Registered (Unit {0}) × Dict MissionEntry). x.0) call));
    }
