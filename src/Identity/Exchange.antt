-- ===== src/Identity/Exchange.antt =====
-- crates/decern-identity/src/exchange.rs: the exchange that mints a badge inside its delegator's authority.
pub mod Attenuated
use Prim.Native.String.{◌++◌ as str_append}
use decern.Base.{
  ℕ, min, String, Bool, true, false, ◌&&◌, ◌||◌, not, Option, none, some, List, [], ◌∷◌, ◌++◌,
  if◌then◌else◌, Bytes,
}
use text.Mathlib.Text.{◌==◌ as str_eq, starts_with}
use decern.Base.Dict.{contains}
use decern.Base.Json.{Json, Number, natural, number, get, as_array, as_str}
use decern.Ledger.Record.{MissionRef}
use decern.Kernel.Load.{Model, Cedar}
use decern.Identity.Errors.{Refusal, IdentityError, Outcome, ok, err, ◌>>=◌, ◌>>◌, refuse_if, ok_or}
use decern.Identity.Badge.{Badge, BadgeSubject, Jose, issue, vc_context, badge_type}
use decern.Identity.Admission.{uid_is, admit}

pub record ExchangeRequest : Type 0 where
  pub delegator_id : String
  pub sub_agent_id : String
  pub requested_scopes : List String
  pub requested_expiry : ℕ
  pub now : ℕ
  pub mission : Option MissionRef
  pub aud : Option String

pub record Exchanged : Type 0 where
  pub token : Bytes
  pub badge : Badge
  pub model : Model

abbrev pub reserved_subject_id_prefixes : List String
reserved_subject_id_prefixes = "fed:" ∷ "id-jag:" ∷ "oauth:" ∷ "spiffe://" ∷ []

pub first_prefix : List String → String → Option String
first_prefix [] id = none
first_prefix (p ∷ prefixes) id = if starts_with id p then some p else first_prefix prefixes id

unfoldable pub reserved_subject_id_prefix : String → Option String
unfolding first_prefix
reserved_subject_id_prefix id = first_prefix reserved_subject_id_prefixes id

unfoldable pub held : List String → List String → List String
held del_scopes [] = []
held del_scopes (s ∷ requested) =
    let rest = held del_scopes requested in if contains s del_scopes then s ∷ rest else rest

unfoldable pub clamp_delegation : List String → ℕ → List String → ℕ → List String × ℕ
unfolding held
clamp_delegation del_scopes del_expiry requested_scopes requested_expiry =
    (held del_scopes requested_scopes, min requested_expiry del_expiry)

abbrev pub is_named : String → Json → Bool
is_named id e = uid_is (get "uid" e) id

-- The first principal of this name that has attributes.
unfoldable pub find_attrs : List Json → String → Option Json
find_attrs [] id = none
find_attrs (e ∷ entities) id =
    let rest = find_attrs entities id in
    if is_named id e then elim (get "attrs" e) [ some attrs ↦ some attrs | none ↦ rest ] else rest

unfoldable pub principal_attrs : Model → String → Option Json
unfolding find_attrs
principal_attrs model id = elim (as_array model.entities) [
  | none ↦ none
  | some entities ↦ find_attrs entities id
]

abbrev pub as_u64 : Json → Option ℕ
as_u64 (number (natural n)) = some n
as_u64 _ = none

unfoldable pub texts_of : List Json → List String
texts_of [] = []
texts_of (v ∷ values) = elim (as_str v) [ some s ↦ s ∷ texts_of values | none ↦ texts_of values ]

infixl 5 ◌>?◌
abbrev pub ◌>?◌ {ℓ κ} : {A : Type ℓ} {B : Type κ} → Option A → (A → Option B) → Option B
none >? next = none
some a >? next = next a

-- The tenant, the expiry and the scopes of a principal.
unfoldable pub delegator_attrs : Model → String → Option (String × ℕ × List String)
unfolding principal_attrs texts_of
delegator_attrs model id = principal_attrs model id >? λ attrs.
    (get "tenant" attrs >? as_str) >? λ tenant. (get "expiry" attrs >? as_u64) >? λ expiry.
    (get "scopes" attrs >? as_array) >? λ scopes. some (tenant, expiry, texts_of scopes)

-- A reserved name without the entitlement to it.
abbrev pub forges : Option String → List String → Bool
forges none allowed = false
forges (some prefix) allowed = not (contains prefix allowed)

abbrev pub unvouched : Option MissionRef → String → Bool
unvouched none delegator_id = false
unvouched (some m) delegator_id = not (str_eq m.approver delegator_id)

-- The badge around the clamped authority.
abbrev pub minted : ExchangeRequest → String → List String × ℕ → Badge
minted req tenant clamped = record {
  context = vc_context ∷ [];
  id = some (str_append "urn:decern:token:" req.sub_agent_id);
  types = "VerifiableCredential" ∷ badge_type ∷ [];
  issuer = "did:decern:issuer";
  valid_from = req.now;
  valid_until = clamped.1;
  subject = record {
    id = req.sub_agent_id;
    kind = "Agent";
    tenant = tenant;
    scopes = clamped.0;
    delegator = some req.delegator_id;
    expiry = clamped.1;
    aud = req.aud;
  };
  credential_schema = none;
  mission = req.mission;
}

module _ (j : Jose) (cedar : Cedar) where
  unfoldable pub exchange : Model → ExchangeRequest → Bytes → List String → Outcome Exchanged
  unfolding reserved_subject_id_prefix delegator_attrs clamp_delegation
  exchange model req issuer_key allowed_reserved_prefixes = do
    refuse_if (forges (reserved_subject_id_prefix req.sub_agent_id) allowed_reserved_prefixes)
        (IdentityError.subject_invalid (Refusal.reserved_prefix req.sub_agent_id))
    refuse_if (unvouched req.mission req.delegator_id)
        (IdentityError.subject_invalid Refusal.approver_mismatch)
    del ←
        ok_or (delegator_attrs model req.delegator_id)
          (IdentityError.subject_invalid (Refusal.no_principal req.delegator_id))
    let clamped = clamp_delegation del.2 del.1 req.requested_scopes req.requested_expiry
    token ← issue j (minted req del.0 clamped) issuer_key
    admitted ← admit j cedar model token (j.verifying_key issuer_key) req.now
    ok (record { token = token; badge = admitted.1; model = admitted.0 })
