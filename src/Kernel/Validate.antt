-- ===== src/Kernel/Validate.antt =====
-- crates/decern-kernel/src/graph.rs: the rules that a directory keeps before the kernel loads it. A
-- violation carries what the code writes into its message.
pub mod Phases
pub mod Attenuation
pub mod Acyclic
pub mod Owned
use decern.Base.{
  String, Bool, true, false, ◌&&◌, not, Option, none, some, List, [], ◌∷◌, ◌++◌, if◌then◌else◌,
}
use text.Mathlib.Text.{◌==◌ as str_eq}
use decern.Base.Dict.{Dict, lookup, values, contains}
use decern.Base.Int.{ℤ, lt_int}
use decern.Kernel.Graph.{
  PrincipalRec, ResourceRec, OrgRec, Directory, reserved_tenant, first_cycle_id,
}

pub data Violation : Type 0 where
  missing_delegator : (id delegator : String) → Violation
  cross_tenant_delegation : (id tenant delegator_tenant : String) → Violation
  outlives_delegator :
      (id : String) (expiry : ℤ) (delegator : String) (delegator_expiry : ℤ) → Violation
  scopes_exceed : (id delegator : String) (excess : List String) → Violation
  roles_exceed : (id delegator : String) (excess : List String) → Violation
  jurisdictions_exceed : (id delegator : String) (excess : List String) → Violation
  delegation_cycle : (id via : String) → Violation
  missing_owner : (id owner : String) → Violation
  cross_tenant_owner : (id owner owner_tenant tenant : String) → Violation
  missing_viewer : (id viewer : String) → Violation
  cross_tenant_viewer : (id viewer viewer_tenant tenant : String) → Violation
  reserved_principal : (id : String) → Violation
  reserved_resource : (id : String) → Violation
  reserved_org : (id : String) → Violation
  missing_parent : (id parent : String) → Violation
  cross_tenant_parent : (id tenant parent_tenant : String) → Violation
  hierarchy_cycle : (id via : String) → Violation
  missing_org : (id org : String) → Violation
  cross_tenant_org : (id org org_tenant tenant : String) → Violation
  missing_resource_org : (id org : String) → Violation
  cross_tenant_resource_org : (id org org_tenant tenant : String) → Violation
  org_differs : (id org owner owner_org : String) → Violation

abbrev pub is_subset : List String → List String → Bool
is_subset [] t = true
is_subset (x ∷ s) t = contains x t && is_subset s t

pub difference : List String → List String → List String
difference [] t = []
difference (x ∷ s) t = let rest = difference s t in if contains x t then rest else x ∷ rest

-- A rule that is checked by one test.
abbrev pub unless : Bool → Violation → List Violation
unless true v = []
unless false v = v ∷ []

pub for_each {ℓ} : {A : Type ℓ} → (A → List Violation) → List A → List Violation
for_each f [] = []
for_each f (x ∷ xs) = f x ++ for_each f xs

-- A delegate against its delegator.
pub exceeds : PrincipalRec → PrincipalRec → List Violation
unfolding difference
exceeds p d =
    unless (str_eq d.tenant p.tenant) (cross_tenant_delegation p.id p.tenant d.tenant)
    ++ unless (not (lt_int d.expiry p.expiry)) (outlives_delegator p.id p.expiry d.id d.expiry)
    ++ unless (is_subset p.scopes d.scopes) (scopes_exceed p.id d.id (difference p.scopes d.scopes))
    ++ unless (is_subset p.roles d.roles) (roles_exceed p.id d.id (difference p.roles d.roles))
    ++ unless (is_subset p.jurisdictions d.jurisdictions)
        (jurisdictions_exceed p.id d.id (difference p.jurisdictions d.jurisdictions))

pub check_delegation : Directory → PrincipalRec → List Violation
unfolding exceeds
check_delegation dir p = elim p.delegator [
  | none ↦ []
  | some del_id ↦ elim (lookup del_id dir.principals) [
    | none ↦ missing_delegator p.id del_id ∷ []
    | some d ↦ exceeds p d
  ]
]

pub check_cycle : Directory → PrincipalRec → List Violation
unfolding first_cycle_id
check_cycle dir p = elim (first_cycle_id (λ n. n.id) (λ n. n.delegator) dir.principals p) [
  | none ↦ []
  | some via ↦ delegation_cycle p.id via ∷ []
]

pub check_owner : Directory → ResourceRec → List Violation
check_owner dir r = elim (lookup r.owner dir.principals) [
  | none ↦ missing_owner r.id r.owner ∷ []
  | some o ↦ unless (str_eq o.tenant r.tenant) (cross_tenant_owner r.id o.id o.tenant r.tenant)
]

pub check_viewer : Directory → ResourceRec → String → List Violation
check_viewer dir r viewer_id = elim (lookup viewer_id dir.principals) [
  | none ↦ missing_viewer r.id viewer_id ∷ []
  | some p ↦
      unless (str_eq p.tenant r.tenant) (cross_tenant_viewer r.id viewer_id p.tenant r.tenant)
]

pub check_resource : Directory → ResourceRec → List Violation
unfolding check_owner check_viewer for_each
check_resource dir r = check_owner dir r ++ for_each (check_viewer dir r) r.viewers

pub check_reserved : String → Violation → List Violation
check_reserved tenant v = unless (not (str_eq tenant reserved_tenant)) v

pub check_parent : Directory → OrgRec → List Violation
check_parent dir o = elim o.parent [
  | none ↦ []
  | some parent_id ↦ elim (lookup parent_id dir.orgs) [
    | none ↦ missing_parent o.id parent_id ∷ []
    | some p ↦ unless (str_eq p.tenant o.tenant) (cross_tenant_parent o.id o.tenant p.tenant)
  ]
]

pub check_hierarchy : Directory → OrgRec → List Violation
unfolding first_cycle_id
check_hierarchy dir o = elim (first_cycle_id (λ n. n.id) (λ n. n.parent) dir.orgs o) [
  | none ↦ []
  | some via ↦ hierarchy_cycle o.id via ∷ []
]

pub check_member : Directory → PrincipalRec → List Violation
check_member dir p = elim p.org [
  | none ↦ []
  | some org_id ↦ elim (lookup org_id dir.orgs) [
    | none ↦ missing_org p.id org_id ∷ []
    | some o ↦ unless (str_eq o.tenant p.tenant) (cross_tenant_org p.id o.id o.tenant p.tenant)
  ]
]

-- The organization of a resource against that of its owner, where the owner has one.
pub check_owner_org : Directory → ResourceRec → String → List Violation
check_owner_org dir r org_id = elim (lookup r.owner dir.principals) [
  | none ↦ []
  | some owner ↦ elim owner.org [
    | none ↦ []
    | some owner_org ↦ unless (str_eq owner_org org_id) (org_differs r.id org_id owner.id owner_org)
  ]
]

-- The organization of a resource against the resource's tenant.
pub check_org_tenant : Directory → ResourceRec → String → List Violation
check_org_tenant dir r org_id = elim (lookup org_id dir.orgs) [
  | none ↦ missing_resource_org r.id org_id ∷ []
  | some o ↦
      unless (str_eq o.tenant r.tenant) (cross_tenant_resource_org r.id o.id o.tenant r.tenant)
]

pub check_resource_org : Directory → ResourceRec → List Violation
unfolding check_org_tenant check_owner_org
check_resource_org dir r = elim r.org [
  | none ↦ []
  | some org_id ↦ check_org_tenant dir r org_id ++ check_owner_org dir r org_id
]

-- Nothing in the result means that the graph is well-formed.
unfoldable pub validate : Directory → List Violation
unfolding check_delegation check_cycle check_resource check_reserved check_parent check_hierarchy
    check_member check_resource_org for_each
validate dir =
    for_each (check_delegation dir) (values dir.principals)
    ++ for_each (check_cycle dir) (values dir.principals)
    ++ for_each (check_resource dir) (values dir.resources)
    ++ for_each (λ p. check_reserved p.tenant (reserved_principal p.id)) (values dir.principals)
    ++ for_each (λ r. check_reserved r.tenant (reserved_resource r.id)) (values dir.resources)
    ++ for_each (λ o. check_reserved o.tenant (reserved_org o.id)) (values dir.orgs)
    ++ for_each (check_parent dir) (values dir.orgs)
    ++ for_each (check_hierarchy dir) (values dir.orgs)
    ++ for_each (check_member dir) (values dir.principals)
    ++ for_each (check_resource_org dir) (values dir.resources)
