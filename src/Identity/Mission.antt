-- ===== src/Identity/Mission.antt =====
-- crates/decern-identity/src/mission.rs: missions that an approver grants to an agent, over any registry.
pub mod Ceiling
pub mod Approval
use decern.Base.{
  ℕ, ltb, leb, ◌==◌, String, Bool, true, false, ◌&&◌, ◌||◌, not, Option, none, some, List, [], ◌∷◌,
  ◌⊎◌, inl, inr, if◌then◌else◌, Bytes,
}
use text.Mathlib.Text.{◌==◌ as str_eq}
use decern.Base.Dict.{Dict, contains}
use decern.Base.Json.{get, as_str}
use decern.Ledger.Record.{MissionRef}
use decern.Kernel.Graph.{Directory, revoked}
use decern.Kernel.Parse.{parse, ParseViolation}
use decern.Kernel.Load.{Model, Cedar}
use decern.Store.Missions.{MissionEntry, Registered, done, failed}
use decern.Store.Missions.Memory
use decern.Identity.Errors.{
  Malformed, Refusal, IdentityError, Outcome, ok, err, ◌>>=◌, ◌>>◌, refuse_if, ok_or,
}
use decern.Identity.Badge.{Jose}
use decern.Identity.Exchange.{
  ExchangeRequest, Exchanged, delegator_attrs, principal_attrs, exchange,
  reserved_subject_id_prefix, held, ◌>?◌,
}

pub record Mission : Type 0 where
  pub approver : String
  pub agent : String
  pub approved_at : ℕ
  pub description : String
  pub approved_tools : List String
  pub capabilities : List String
  pub expiry : ℕ

pub data MissionState : Type 0 where
  active terminated : MissionState

pub record ApprovedMission : Type 0 where
  pub mission : Mission
  pub state : MissionState
  pub s256 : String
  pub blob : Bytes

-- The trait, on a store of any type.
pub record MissionRegistry (S : Type 0) : Type 0 where
  pub register : S → String → MissionEntry → ℕ → Registered (Unit {0}) × S
  pub status : S → String → Registered (Option MissionEntry) × S
  pub terminate : S → String → ℕ → Registered (Unit {0}) × S

-- serde_json's bytes of a mission, and the base64 text of their SHA-256
pub record Blobs : Type 0 where
  pub print_mission : Mission → Option Bytes
  pub digest_text : Bytes → String

-- `?` on the answer of a registry
abbrev pub from_registry {ℓ} : {A : Type ℓ} → Registered A → Outcome A
from_registry (done a) = ok a
from_registry (failed e) = err (IdentityError.registry e)

-- The registry in memory, whose lock does not fail.
abbrev pub memory : MissionRegistry (Dict MissionEntry)
memory = record {
  register = Memory.register;
  status = λ map s256. (done (Memory.status map s256), map);
  terminate = λ map s256 now. (done tt, Memory.terminate map s256 now);
}

abbrev pub first_missing : List String → List String → Option String
first_missing [] scopes = none
first_missing (t ∷ tools) scopes = if contains t scopes then first_missing tools scopes else some t

abbrev pub refuse_some : Option String → Outcome (Unit {0})
refuse_some none = ok tt
refuse_some (some t) = err (IdentityError.subject_invalid (Refusal.tool_not_held t))

-- The tenant of a principal, where it is a text.
abbrev pub tenant_is : Option String → String → Bool
tenant_is none tenant = false
tenant_is (some t) tenant = str_eq t tenant

abbrev pub parsed_directory : List ParseViolation ⊎ Directory → Outcome Directory
parsed_directory (inl violations) = err IdentityError.model_error
parsed_directory (inr dir) = ok dir

abbrev pub entry_of : Mission → MissionEntry
entry_of m = record {
  approver = m.approver;
  expiry = m.expiry;
  terminated = false;
  agent = m.agent;
  approved_tools = m.approved_tools;
}

-- What the approver may grant.
unfoldable pub check_mission : Model → Mission → ℕ → Outcome (Unit {0})
check_mission model mission now = do
  approver ←
      ok_or (delegator_attrs model mission.approver)
        (IdentityError.subject_invalid (Refusal.no_principal mission.approver))
  refuse_if (str_eq mission.approver mission.agent)
      (IdentityError.subject_invalid Refusal.self_approval)
  directory ← parsed_directory (parse model.entities)
  refuse_if (revoked directory mission.approver)
      (IdentityError.subject_invalid Refusal.revoked_approver)
  refuse_some (first_missing mission.approved_tools approver.2)
  refuse_if (ltb approver.1 mission.expiry) (IdentityError.subject_invalid Refusal.mission_outlives)
  refuse_if (leb mission.expiry now) (IdentityError.subject_invalid Refusal.mission_expired)
  refuse_if
      (not (
        tenant_is (principal_attrs model mission.agent >? λ a. get "tenant" a >? as_str)
          approver.0))
      (IdentityError.subject_invalid Refusal.foreign_agent)
  ok tt

abbrev pub approved : Blobs → Mission → Bytes → ApprovedMission
approved blobs mission blob = record {
  mission = mission;
  state = active;
  s256 = blobs.digest_text blob;
  blob = blob;
}

same_tools : List String → List String → Bool
same_tools [] [] = true
same_tools [] (b ∷ bs) = false
same_tools (a ∷ tools) [] = false
same_tools (a ∷ tools) (b ∷ bs) = str_eq a b && same_tools tools bs

-- The registered approval must be live, and be this one.
unfoldable pub check_registered : ApprovedMission → Option MissionEntry → Outcome (Unit {0})
unfolding same_tools
check_registered m none = err (IdentityError.subject_invalid Refusal.unregistered)
check_registered m (some entry) = do
  refuse_if entry.terminated (IdentityError.subject_invalid Refusal.registered_terminated)
  refuse_if (not (str_eq entry.approver m.mission.approver))
      (IdentityError.subject_invalid Refusal.registered_approver)
  refuse_if
      (not (same_tools entry.approved_tools m.mission.approved_tools)
        || not (entry.expiry == m.mission.expiry))
      (IdentityError.subject_invalid Refusal.registered_differs)
  ok tt

abbrev pub refuse_reserved : Option String → Outcome (Unit {0})
refuse_reserved none = ok tt
refuse_reserved (some prefix) = err (IdentityError.subject_invalid (Refusal.reserved_prefix prefix))

abbrev pub is_terminated : MissionState → Bool
is_terminated active = false
is_terminated terminated = true

abbrev pub mission_request : ApprovedMission → String → List String → ℕ → ExchangeRequest
mission_request m sub_agent_id requested_scopes now = record {
  delegator_id = m.mission.approver;
  sub_agent_id = sub_agent_id;
  requested_scopes = held m.mission.approved_tools requested_scopes;
  requested_expiry = m.mission.expiry;
  now = now;
  mission = some (record { approver = m.mission.approver; s256 = m.s256 });
  aud = none;
}

module _ {S : Type 0} (registry : MissionRegistry S) where
  -- The mission, and the registry after the call.
  unfoldable pub approve : Blobs → Model → Mission → ℕ → S → Outcome ApprovedMission × S
  unfolding check_mission
  approve blobs model mission now store = elim (check_mission model mission now) [
    | err e ↦ (err e, store)
    | ok u ↦ elim (blobs.print_mission mission) [
      | none ↦ (err (IdentityError.malformed Malformed.unprintable), store)
      | some blob ↦
          let (answer, store') =
            registry.register store (blobs.digest_text blob) (entry_of mission) now in
          (from_registry answer >>= λ u. ok (approved blobs mission blob), store')
    ]
  ]

  -- The handle, and the registry.
  unfoldable pub terminate_mission :
      ApprovedMission → ℕ → S → Outcome (Unit {0}) × ApprovedMission × S
  terminate_mission m now store =
      let (answer, store') = registry.terminate store m.s256 now in
      (from_registry answer, record m { state = terminated }, store')

  unfoldable pub issue_under_mission :
      Jose
      → Cedar
      → Model
      → ApprovedMission
      → String
      → List String
      → ℕ
      → Bytes
      → S
      → Outcome Exchanged
  unfolding check_registered
  issue_under_mission j cedar model m sub_agent_id requested_scopes now issuer_key store = do
    refuse_reserved (reserved_subject_id_prefix sub_agent_id)
    refuse_if (is_terminated m.state) (IdentityError.subject_invalid Refusal.mission_terminated)
    entry ← from_registry (registry.status store m.s256).0
    check_registered m entry
    exchange j cedar model (mission_request m sub_agent_id requested_scopes now) issuer_key []
