-- ===== src/Identity/Mission/Ceiling.antt =====
-- What a mission mints, and that it mints nothing once it is ended in the registry.
use decern.Base.{
  ℕ, ◌≤◌, String, ◌≡◌, ◌≢◌, refl, sym, ap, ◌∙◌, false, not, not-eq-false, Option, none, some, List,
  [], Among, Bytes,
}
use text.Mathlib.Text.{◌==◌ as str_eq}
use decern.Base.Dict.{Dict, lookup, str_eq_sound}
use decern.Kernel.Load.{Model, Cedar}
use decern.Store.Missions.{MissionEntry, Registered, done, failed, mark}
use decern.Store.Missions.Memory
use decern.Store.Missions.Kept.{IsRetained, retain-Dead, mark-Dead_active}
use decern.Store.Missions.Held.{Changes, Changes-Dead}
use decern.Identity.Errors.{ok, >>=-eq-ok, refuse_if-eq-ok}
use decern.Identity.Badge.{Jose}
use decern.Identity.Badge.Signed.{JoseLaws}
use decern.Identity.Exchange.{Exchanged, exchange, reserved_subject_id_prefix}
use decern.Identity.Exchange.Attenuated.{Attenuated, exchange-Attenuated, held-Among}
use decern.Identity.Mission.{
  MissionState, active, terminated, ApprovedMission, MissionRegistry, memory, from_registry,
  check_registered, refuse_reserved, is_terminated, mission_request, issue_under_mission,
  terminate_mission,
}

refuse_reserved-ok : (o : Option String) → refuse_reserved o ≡ ok tt → o ≡ none
refuse_reserved-ok none h = refl
refuse_reserved-ok (some p) h = cc

is_terminated-active : (s : MissionState) → is_terminated s ≡ false → s ≡ active
is_terminated-active active h = refl
is_terminated-active terminated h = cc

from_registry-ok : {A : Type 0} (r : Registered A) {a : A} → from_registry r ≡ ok a → r ≡ done a
from_registry-ok (done a) h = cc
from_registry-ok (failed e) h = cc

-- The entry that the registry answered is live and carries this approval.
record Live (m : ApprovedMission) (o : Option MissionEntry) : Type 0 where
  entry : MissionEntry
  found : o ≡ some entry
  not_terminated : entry.terminated ≡ false
  approver : entry.approver ≡ m.mission.approver

check_registered-Live :
    (m : ApprovedMission) (o : Option MissionEntry) → check_registered m o ≡ ok tt → Live m o
unfolding check_registered
check_registered-Live m none h = cc
check_registered-Live m (some entry) h =
    let (a, h1) = refuse_if-eq-ok entry.terminated _ _ h in
    let (b, h2) = refuse_if-eq-ok (not (str_eq entry.approver m.mission.approver)) _ _ h1 in
    record {
      entry = entry;
      found = refl;
      not_terminated = a;
      approver = str_eq_sound entry.approver m.mission.approver (not-eq-false _ b);
    }

module _ {S : Type 0} (registry : MissionRegistry S) (j : Jose) (cedar : Cedar) where
  record Minted (m : ApprovedMission) (sub_agent_id : String) (store : S) : Type 0 where
    unreserved : reserved_subject_id_prefix sub_agent_id ≡ none
    in_force : m.state ≡ active
    answer : Option MissionEntry
    answered : (registry.status store m.s256).0 ≡ done answer
    live : Live m answer

  issue_under_mission-Minted :
      (model : Model) (m : ApprovedMission) (sub_agent_id : String) (requested : List String)
      (now : ℕ) (key : Bytes) (store : S) (ex : Exchanged)
      → issue_under_mission registry j cedar model m sub_agent_id requested now key store ≡ ok ex
      → Minted m sub_agent_id store
        × (exchange j cedar model (mission_request m sub_agent_id requested now) key [] ≡ ok ex)
  unfolding issue_under_mission
  issue_under_mission-Minted model m sub_agent_id requested now key store ex h =
      let (u1, a, h1) = >>=-eq-ok (refuse_reserved (reserved_subject_id_prefix sub_agent_id)) _ h in
      let (b, h2) = refuse_if-eq-ok (is_terminated m.state) _ _ h1 in
      let (o, c, h3) = >>=-eq-ok (from_registry (registry.status store m.s256).0) _ h2 in
      let (u2, d, h4) = >>=-eq-ok (check_registered m o) _ h3 in
      (
        record {
          unreserved = refuse_reserved-ok (reserved_subject_id_prefix sub_agent_id) a;
          in_force = is_terminated-active m.state b;
          answer = o;
          answered = from_registry-ok (registry.status store m.s256).0 c;
          live = check_registered-Live m o d;
        },
        h4,
      )

  -- The authority of a badge that a mission mints.
  pub record UnderCeiling (model : Model) (m : ApprovedMission) (sub_agent_id : String)
      (requested : List String) (now : ℕ) (store : S) (ex : Exchanged) : Type 0 where
    pub tools :
        (s : String)
        → Among s ex.badge.subject.scopes
        → Among s requested × Among s m.mission.approved_tools
    pub expires : ex.badge.subject.expiry ≤ m.mission.expiry
    pub bound : ex.badge.mission ≡ some (record { approver = m.mission.approver; s256 = m.s256 })
    pub unreserved : reserved_subject_id_prefix ex.badge.subject.id ≡ none
    pub in_force : m.state ≡ active
    pub entry : MissionEntry
    pub registered : (registry.status store m.s256).0 ≡ done (some entry)
    pub live : entry.terminated ≡ false
    pub attenuated :
        Attenuated j cedar model (mission_request m sub_agent_id requested now) [] ex.badge ex.model

  module _ (laws : JoseLaws j) where
    -- A badge that is minted under a mission has only scopes that were requested and approved, expires no later than the
    -- mission, is bound to it and has a subject under no reserved prefix. The mission's handle is active and its registry answers with a live entry. Against
    -- the approver the badge is attenuated as by any exchange.
    pub issue_under_mission-UnderCeiling :
        (model : Model) (m : ApprovedMission) (sub_agent_id : String) (requested : List String)
        (now : ℕ) (key : Bytes) (store : S) (ex : Exchanged)
        → issue_under_mission registry j cedar model m sub_agent_id requested now key store ≡ ok ex
        → UnderCeiling model m sub_agent_id requested now store ex
    issue_under_mission-UnderCeiling model m sub_agent_id requested now key store ex h =
        let (minted, exchanged) =
          issue_under_mission-Minted model m sub_agent_id requested now key store ex h in
        let a =
          exchange-Attenuated j cedar laws model (mission_request m sub_agent_id requested now) key
            [] ex exchanged in
        record {
          tools = λ s i. held-Among m.mission.approved_tools requested s (a.scopes_held s i).0;
          expires = a.expires.0;
          bound = a.under_mission;
          unreserved = ap reserved_subject_id_prefix a.named ∙ minted.unreserved;
          in_force = minted.in_force;
          entry = minted.live.entry;
          registered = minted.answered ∙ ap done minted.live.found;
          live = minted.live.not_terminated;
          attenuated = a;
        }

-- A mission of the registry in memory is terminated through any handle, and then any missions are registered and terminated, all at
-- times before 30 days past its expiry. No handle of the same reference mints under it after that.
pub terminate_mission-issue_under_mission :
    (j : Jose) (cedar : Cedar) (model : Model) (m other : ApprovedMission) (e : MissionEntry)
    (map map' : Dict MissionEntry) (sub_agent_id : String) (requested : List String) (now later : ℕ)
    (key : Bytes) (ex : Exchanged)
    → lookup m.s256 map ≡ some e
    → IsRetained e.expiry now
    → Changes e.expiry (terminate_mission memory m now map).2 map'
    → other.s256 ≡ m.s256
    → issue_under_mission memory j cedar model other sub_agent_id requested later key map' ≢ ok ex
unfolding terminate_mission Memory.terminate Memory.status
terminate_mission-issue_under_mission j cedar model m other e map map' sub_agent_id requested now
      later key ex found r changes same h =
    let d =
      Changes-Dead m.s256 e.expiry changes (
        retain-Dead now e.expiry (mark m.s256 map) m.s256 (mark-Dead_active m.s256 map e found)
          r) in
    let (minted, exchanged) =
      issue_under_mission-Minted memory j cedar model other sub_agent_id requested later key map' ex
        h in
    let answered : done (lookup other.s256 map') ≡ done minted.answer = minted.answered in
    let at : lookup m.s256 map' ≡ minted.answer =
      ap (λ s. lookup s map') (sym same) ∙ cc answered in
    let one : some d.entry ≡ some minted.live.entry = sym d.found ∙ at ∙ minted.live.found in
    let it : d.entry ≡ minted.live.entry = cc one in
    cc (d.terminated, ap (λ (x : MissionEntry). x.terminated) it, minted.live.not_terminated)
