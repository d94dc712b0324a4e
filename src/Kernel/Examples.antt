-- ===== src/Kernel/Examples.antt =====
-- A directory with a root principal, two delegates in a row, a resource and an organization, and the
-- properties of the graph at it.
use decern.Base.{
  String, ◌≡◌, ◌≢◌, refl, Bool, true, false, ◌↔◌, ◌⊎◌, Option, none, some, List, [], ◌∷◌, Among,
  here,
}
use decern.Base.Dict.{lookup}
use decern.Base.Int.{ℤ, pos, negsuc}
use decern.Base.{inl, inr}
use decern.Base.Dict.{insert}
use decern.Base.Json.{Json, Elements, Members, Number}
use decern.Base.Json.{get_member}
use decern.Base.{map}
use text.Mathlib.Text.{◌==◌ as str_eq}
use decern.Kernel.Inject.{inject_entity, inject_entity-derived, entity_ref, of_list}
use decern.Kernel.Parse.{attrs_of}
use decern.Kernel.Parse.{parse, ParseViolation}
use decern.Kernel.Parse.Adds.{IsLoaded}
use decern.Kernel.Parse.Keyed.{parse-IsLoaded}
use decern.Kernel.Graph.{
  PrincipalRec, ResourceRec, OrgRec, Directory, ancestors_of, authored, revoked,
}
use decern.Kernel.Graph.Ancestors.{Reaches, direct, onward, ancestors_of-Reaches, revoked_iff}
use decern.Kernel.Validate.{Violation, validate, delegation_cycle}
use decern.Kernel.Validate.Attenuation.{Within, validate-Within}
use decern.Kernel.Validate.Acyclic.{validate-acyclic}
use decern.Kernel.Validate.Owned.{IsHome, validate-IsHome, validate-org}

abbrev principal : String → ℤ → List String → Option String → Bool → PrincipalRec
principal id expiry scopes delegator revoked = record {
  id = id;
  kind = "agent";
  tenant = "acme";
  expiry = expiry;
  scopes = scopes;
  delegator = delegator;
  org = some "hq";
  roles = [];
  jurisdictions = "EU" ∷ [];
  revoked = revoked;
}

abbrev root : PrincipalRec
root = principal "alice" (pos 9) ("read" ∷ "write" ∷ []) none true

abbrev delegate : PrincipalRec
delegate = principal "bot" (pos 5) ("read" ∷ "write" ∷ []) (some "alice") false

abbrev sub_delegate : PrincipalRec
sub_delegate = principal "tool" (negsuc 0) ("read" ∷ []) (some "bot") false

abbrev doc : ResourceRec
doc = record {
  id = "doc";
  owner = "alice";
  tenant = "acme";
  org = some "hq";
  sensitivity = none;
  residency = some "EU";
  viewers = "tool" ∷ [];
}

abbrev headquarters : OrgRec
headquarters = record { id = "hq"; tenant = "acme"; parent = none }

abbrev small : Directory
small = record {
  principals = ("alice", root) ∷ ("bot", delegate) ∷ ("tool", sub_delegate) ∷ [];
  resources = ("doc", doc) ∷ [];
  orgs = ("hq", headquarters) ∷ [];
}

small-valid : validate small ≡ []
unfolding validate
small-valid = refl

tool-Reaches_alice : Reaches small.principals "tool" "alice"
tool-Reaches_alice = onward (direct (sub_delegate, refl, refl)) (delegate, refl, refl)

tool-ancestors : ancestors_of small "tool" ≡ "bot" ∷ "alice" ∷ []
unfolding ancestors_of
tool-ancestors = refl

alice-revoked : revoked small "alice" ≡ true
unfolding revoked
alice-revoked = refl

-- A delegate with a scope and a lifetime that its delegator lacks, in a cycle with it.
abbrev looped : Directory
looped = record small {
  principals =
      ("alice", record root { delegator = some "bot" })
      ∷ ("bot", record delegate { delegator = some "alice" })
      ∷ [];
  resources = [];
}

looped-ancestors : ancestors_of looped "bot" ≡ "alice" ∷ []
unfolding ancestors_of
looped-ancestors = refl

looped-violations :
    validate looped
    ≡ Violation.outlives_delegator "alice" (pos 9) "bot" (pos 5)
      ∷ delegation_cycle "alice" "alice"
      ∷ delegation_cycle "bot" "bot"
      ∷ []
unfolding validate
looped-violations = refl

validate-Within_example :
    (d : PrincipalRec) × (lookup "alice" small.principals ≡ some d) × Within sub_delegate d
validate-Within_example =
    validate-Within small "tool" "alice" sub_delegate small-valid refl tool-Reaches_alice

validate-acyclic_example : ¬ Reaches small.principals "tool" "tool"
validate-acyclic_example = validate-acyclic small "tool" small-valid

validate-IsHome_example :
    IsHome small doc "alice"
    × ((viewer : String) → Among viewer doc.viewers → IsHome small doc viewer)
validate-IsHome_example = validate-IsHome small doc small-valid (here refl)

validate-org_example :
    ((o : OrgRec) × (lookup "hq" small.orgs ≡ some o) × (o.tenant ≡ doc.tenant))
    × ((p : PrincipalRec) (owner_org : String)
        → lookup "alice" small.principals ≡ some p
        → p.org ≡ some owner_org
        → owner_org ≡ "hq")
validate-org_example = validate-org small doc "hq" small-valid (here refl) refl

ancestors_of-Reaches_example :
    Among "alice" (ancestors_of small "tool")
    ↔ (◌≢◌ {A = String} "alice" "tool" × Reaches small.principals "tool" "alice")
ancestors_of-Reaches_example = ancestors_of-Reaches small "tool" "alice"

revoked_iff_example : (revoked small "tool" ≡ true) ↔ (
    (authored small "tool" ≡ true)
    ⊎ ((a : String) × Reaches small.principals "tool" a × (authored small a ≡ true)))
revoked_iff_example = revoked_iff small "tool"

abbrev entity : String → String → Members → Json
entity ty id attrs = Json.object (
    Members.member "uid"
      (Json.object
        (Members.member "id" (Json.string id) (Members.member "type" (Json.string ty) Members.end)))
      (Members.member "attrs" (Json.object attrs) Members.end))

abbrev org_entity : Json
org_entity = entity "Organization" "hq" (Members.member "tenant" (Json.string "acme") Members.end)

abbrev principal_entity : Json
principal_entity = entity "Principal" "alice" (
    Members.member "tenant" (Json.string "acme")
      (Members.member "expiry" (Json.number (Number.natural 9)) Members.end))

abbrev parsed : Directory
parsed = record {
  principals =
      (
        "alice",
        record {
          id = "alice";
          kind = "";
          tenant = "acme";
          expiry = pos 9;
          scopes = [];
          delegator = none;
          org = none;
          roles = [];
          jurisdictions = [];
          revoked = false;
        },
      )
      ∷ [];
  resources = [];
  orgs = ("hq", headquarters) ∷ [];
}

entities-parsed :
    parse (Json.array (Elements.cons org_entity (Elements.cons principal_entity Elements.nil)))
    ≡ inr parsed
unfolding parse insert
entities-parsed = refl

entities-duplicate :
    parse (Json.array (Elements.cons org_entity (Elements.cons org_entity Elements.nil)))
    ≡ inl (ParseViolation.duplicate "Organization" "hq" ∷ [])
unfolding parse insert
entities-duplicate = refl

parse-IsLoaded_example : IsLoaded parsed 2
parse-IsLoaded_example =
    parse-IsLoaded
      (Json.array (Elements.cons org_entity (Elements.cons principal_entity Elements.nil)))
      (org_entity ∷ principal_entity ∷ []) parsed refl entities-parsed

-- A delegate that claims not to be revoked.
abbrev claims : Members
claims = Members.member "revoked" (Json.bool false) Members.end

inject_entity-derived_example :
    (m : Members) × (attrs_of (inject_entity small (entity "Principal" "tool" claims)) ≡ some m)
    × (get_member "revoked" m ≡ some (Json.bool (revoked small "tool")))
    × (get_member "ancestors" m
        ≡ some (Json.array (of_list (map entity_ref (ancestors_of small "tool")))))
    × ((k : String)
        → str_eq "revoked" k ≡ false
        → str_eq "ancestors" k ≡ false
        → get_member k m ≡ get_member k claims)
inject_entity-derived_example =
    inject_entity-derived small (entity "Principal" "tool" claims) claims refl refl
