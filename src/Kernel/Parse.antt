-- ===== src/Kernel/Parse.antt =====
-- crates/decern-kernel/src/graph.rs: the reading of the Cedar entities into a directory. A violation
-- carries what the code writes into its message.
pub mod Adds
pub mod Keyed
use decern.Base.{
  ℕ, zero, suc, ◌+◌, ◌^◌, String, ◌⊎◌, inl, inr, Bool, true, false, ◌||◌, Option, none, some, List,
  [], ◌∷◌, ◌++◌, ltb, leb, if◌then◌else◌,
}
use text.Mathlib.Text.{◌==◌ as str_eq}
use decern.Base.Json.{
  Json, Number, Members, natural, negative, float, bool, number, member, end, get, get_member,
  as_array, as_object, as_str,
}
use decern.Base.Dict.{Dict, lookup, insert, set_insert}
use decern.Base.Int.{ℤ, pos, negsuc, lt_int}
use decern.Kernel.Graph.{PrincipalRec, ResourceRec, OrgRec, Directory}

-- `Value::as_i64`
abbrev pub as_i64 : Json → Option ℤ
as_i64 (number (natural n)) = if ltb n (2 ^ 63) then some (pos n) else none
as_i64 (number (negative n)) = if ltb n (2 ^ 63) then some (negsuc n) else none
as_i64 _ = none

-- `unwrap_or_default` on a text.
abbrev pub or_empty : Option String → String
or_empty none = ""
or_empty (some s) = s

pub data RefError : Type 0 where
  wrong_type : (name found expected : String) → RefError
  unparseable : (name : String) → RefError
  expected_array : (name : String) → RefError
  missing_ref : (name : String) (index : ℕ) → RefError

pub data ParseViolation : Type 0 where
  not_an_array : ParseViolation
  missing_uid : (index : ℕ) → ParseViolation
  missing_attrs : (ty id : String) → ParseViolation
  malformed : (ty id : String) (error : RefError) → ParseViolation
  revoked_not_boolean : (id : String) → ParseViolation
  missing_tenant : (ty id : String) → ParseViolation
  bad_expiry : (id : String) → ParseViolation
  no_owner : (id : String) → ParseViolation
  duplicate : (ty id : String) → ParseViolation
  unknown_type : (ty id : String) → ParseViolation

abbrev pub text_of : Option Json → Option String
text_of none = none
text_of (some v) = as_str v

pub attr_str : Members → String → Option String
attr_str attrs name = text_of (get_member name attrs)

pub collect_texts : List Json → List String
collect_texts [] = []
collect_texts (j ∷ js) = elim (as_str j) [
  | none ↦ collect_texts js
  | some s ↦ set_insert s (collect_texts js)
]

pub attr_set : Members → String → List String
unfolding collect_texts
attr_set attrs name = elim (get_member name attrs) [
  | none ↦ []
  | some v ↦ elim (as_array v) [ none ↦ [] | some js ↦ collect_texts js ]
]

-- A reference whose type and identifier were read.
pub match_ref : String → String → Option String → Option String → RefError ⊎ Option String
match_ref name expected_type (some t) (some i) =
    if str_eq t expected_type then inr (some i) else inl (wrong_type name t expected_type)
match_ref name expected_type (some t) none = inl (unparseable name)
match_ref name expected_type none id = inl (unparseable name)

pub attr_entity_ref : Members → String → String → RefError ⊎ Option String
unfolding match_ref
attr_entity_ref attrs name expected_type = elim (get_member name attrs) [
  | none ↦ inr none
  | some v ↦
      let inner : Json = elim (get "__entity" v) [ none ↦ v | some e ↦ e ] in
      match_ref name expected_type (text_of (get "type" inner)) (text_of (get "id" inner))
]

pub set_loop : String → String → ℕ → List Json → List String → RefError ⊎ List String
unfolding attr_entity_ref
set_loop name expected_type i [] out = inr out
set_loop name expected_type i (elem ∷ arr) out =
    elim (attr_entity_ref (member name elem end) name expected_type) [
      | inl e ↦ inl e
      | inr none ↦ inl (missing_ref name i)
      | inr (some id) ↦ set_loop name expected_type (i + 1) arr (set_insert id out)
    ]

pub attr_entity_set : Members → String → String → RefError ⊎ List String
unfolding set_loop
attr_entity_set attrs name expected_type = elim (get_member name attrs) [
  | none ↦ inr []
  | some v ↦ elim (as_array v) [
    | none ↦ inl (expected_array name)
    | some arr ↦ set_loop name expected_type 0 arr []
  ]
]

-- The directory and the violations so far.
pub record Load : Type 0 where
  pub dir : Directory
  pub violations : List ParseViolation

abbrev pub refuse : Load → ParseViolation → Load
refuse s v = record s { violations = s.violations ++ v ∷ [] }

-- `if test { violations.push(v) }`
abbrev pub note : Bool → ParseViolation → Load → Load
note true v s = refuse s v
note false v s = s

abbrev pub is_some {ℓ} : {A : Type ℓ} → Option A → Bool
is_some none = false
is_some (some a) = true

pub add_principal : PrincipalRec → Load → Load
add_principal rec s =
    let checked =
      note (lt_int rec.expiry (pos 0)) (bad_expiry rec.id)
        (note (str_eq rec.tenant "") (missing_tenant "Principal" rec.id) s) in
    let old = is_some (lookup rec.id s.dir.principals) in
    note old (duplicate "Principal" rec.id)
      (record checked { dir = record s.dir { principals = insert rec.id rec s.dir.principals } })

pub add_resource : ResourceRec → Load → Load
add_resource rec s =
    let checked =
      note (str_eq rec.tenant "") (missing_tenant "Resource" rec.id)
        (note (str_eq rec.owner "") (no_owner rec.id) s) in
    let old = is_some (lookup rec.id s.dir.resources) in
    note old (duplicate "Resource" rec.id)
      (record checked { dir = record s.dir { resources = insert rec.id rec s.dir.resources } })

pub add_org : OrgRec → Load → Load
add_org rec s =
    let checked = note (str_eq rec.tenant "") (missing_tenant "Organization" rec.id) s in
    let old = is_some (lookup rec.id s.dir.orgs) in
    note old (duplicate "Organization" rec.id)
      (record checked { dir = record s.dir { orgs = insert rec.id rec s.dir.orgs } })

-- A missing flag is `false`; one that is not a Boolean is no flag.
abbrev pub flag : Option Json → Option Bool
flag none = some false
flag (some (bool b)) = some b
flag (some j) = none

abbrev pub expiry_of : Option Json → ℤ
expiry_of none = negsuc 0
expiry_of (some j) = elim (as_i64 j) [ none ↦ negsuc 0 | some n ↦ n ]

abbrev pub principal_rec : String → Members → Option String → Option String → Bool → PrincipalRec
principal_rec id attrs delegator org revoked = record {
  id = id;
  kind = or_empty (attr_str attrs "kind");
  tenant = or_empty (attr_str attrs "tenant");
  expiry = expiry_of (get_member "expiry" attrs);
  scopes = attr_set attrs "scopes";
  delegator = delegator;
  org = org;
  roles = attr_set attrs "roles";
  jurisdictions = attr_set attrs "jurisdictions";
  revoked = revoked;
}

abbrev pub resource_rec :
    String → Members → Option String → Option String → List String → ResourceRec
resource_rec id attrs owner org viewers = record {
  id = id;
  owner = or_empty owner;
  tenant = or_empty (attr_str attrs "tenant");
  org = org;
  sensitivity = attr_str attrs "sensitivity";
  residency = attr_str attrs "residency";
  viewers = viewers;
}

pub read_principal : String → Members → Load → Load
unfolding attr_entity_ref attr_str attr_set add_principal
read_principal id attrs s = elim (attr_entity_ref attrs "delegator" "Principal") [
  | inl e ↦ refuse s (malformed "Principal" id e)
  | inr delegator ↦ elim (attr_entity_ref attrs "org" "Organization") [
    | inl e ↦ refuse s (malformed "Principal" id e)
    | inr org ↦ elim (flag (get_member "revoked" attrs)) [
      | none ↦ refuse s (revoked_not_boolean id)
      | some revoked ↦ add_principal (principal_rec id attrs delegator org revoked) s
    ]
  ]
]

pub read_resource : String → Members → Load → Load
unfolding attr_entity_ref attr_entity_set attr_str add_resource
read_resource id attrs s = elim (attr_entity_ref attrs "owner" "Principal") [
  | inl e ↦ refuse s (malformed "Resource" id e)
  | inr owner ↦ elim (attr_entity_ref attrs "org" "Organization") [
    | inl e ↦ refuse s (malformed "Resource" id e)
    | inr org ↦ elim (attr_entity_set attrs "viewers" "Principal") [
      | inl e ↦ refuse s (malformed "Resource" id e)
      | inr viewers ↦ add_resource (resource_rec id attrs owner org viewers) s
    ]
  ]
]

pub read_org : String → Members → Load → Load
unfolding attr_entity_ref attr_str add_org
read_org id attrs s = elim (attr_entity_ref attrs "parent" "Organization") [
  | inl e ↦ refuse s (malformed "Organization" id e)
  | inr parent ↦
      add_org (record { id = id; tenant = or_empty (attr_str attrs "tenant"); parent = parent }) s
]

-- The `match` on the entity's type.
pub read_typed : String → String → Members → Load → Load
unfolding read_principal read_resource read_org
read_typed ty id attrs s =
    if str_eq ty "Principal"
    then read_principal id attrs s
    else if str_eq ty "Resource"
    then read_resource id attrs s
    else if str_eq ty "Organization"
    then read_org id attrs s
    else refuse s (unknown_type ty id)

-- A field of the entity's `uid`, or the empty text.
abbrev pub uid_field : Json → String → String
uid_field e name = elim (get "uid" e) [ none ↦ "" | some u ↦ or_empty (text_of (get name u)) ]

abbrev pub attrs_of : Json → Option Members
attrs_of e = elim (get "attrs" e) [ none ↦ none | some v ↦ as_object v ]

pub read_entity : ℕ → Json → Load → Load
unfolding read_typed
read_entity i e s =
    let ty = uid_field e "type" in
    let id = uid_field e "id" in
    if str_eq ty "" || str_eq id "" then refuse s (missing_uid i) else elim (attrs_of e) [
      | none ↦ refuse s (missing_attrs ty id)
      | some attrs ↦ read_typed ty id attrs s
    ]

pub read_entities : ℕ → List Json → Load → Load
unfolding read_entity
read_entities i [] s = s
read_entities i (e ∷ list) s = read_entities (i + 1) list (read_entity i e s)

abbrev pub empty_load : Load
empty_load = record { dir = record { principals = []; resources = []; orgs = [] }; violations = [] }

-- The directory, if nothing was refused.
pub loaded : Load → List ParseViolation ⊎ Directory
loaded s = elim s.violations [ [] ↦ inr s.dir | v ∷ vs ↦ inl (v ∷ vs) ]

unfoldable pub parse : Json → List ParseViolation ⊎ Directory
unfolding read_entities loaded
parse entities = elim (as_array entities) [
  | none ↦ inl (not_an_array ∷ [])
  | some list ↦ loaded (read_entities 0 list empty_load)
]
