-- ===== src/Kernel/Validate/Owned.antt =====
-- The owner and the viewers of a resource in a directory without violations.
use decern.Base.{String, ◌≡◌, ◌≢◌, subst, true, not, some, [], Among, Option-cases, inl, inr}
use text.Mathlib.Text.{◌==◌ as str_eq}
use decern.Base.Dict.{lookup, values, lookup-values, str_eq_sound}
use decern.Kernel.Graph.{PrincipalRec, ResourceRec, OrgRec, Directory, reserved_tenant}
use decern.Kernel.Validate.{
  for_each, check_owner, check_viewer, check_resource, check_reserved, check_owner_org,
  check_org_tenant, check_resource_org, validate,
}
use decern.Kernel.Validate.Phases.{append_nil, for_each_nil, unless_nil, Rules, validate-Rules}

-- A principal of the directory in the tenant of the resource, which is no reserved one.
abbrev pub IsHome : Directory → ResourceRec → String → Type 0
IsHome dir r id =
    (p : PrincipalRec) × (lookup id dir.principals ≡ some p)
    × (p.tenant ≡ r.tenant)
    × (p.tenant ≢ reserved_tenant)

not_reserved :
    (dir : Directory) (id : String) (p : PrincipalRec)
    → Rules dir
    → lookup id dir.principals ≡ some p
    → p.tenant ≢ reserved_tenant
unfolding check_reserved
not_reserved dir id p rules at e =
    let h : not (str_eq p.tenant reserved_tenant) ≡ true =
      unless_nil _ _ (rules.reserved p (lookup-values id dir.principals at)) in
    absurd (cc (subst (λ t. not (str_eq t reserved_tenant) ≡ true) e h))

owner-IsHome :
    (dir : Directory) (r : ResourceRec) → Rules dir → check_owner dir r ≡ [] → IsHome dir r r.owner
unfolding check_owner
owner-IsHome dir r rules h = elim (Option-cases (lookup r.owner dir.principals)) [
  | inl missing ↦ absurd (cc (rw (check_owner, missing) at h))
  | inr (p, found) ↦ (
    p,
    found,
    str_eq_sound p.tenant r.tenant (unless_nil _ _ (rw (check_owner, found) at h)),
    not_reserved dir r.owner p rules found,
  )
]

viewer-IsHome :
    (dir : Directory) (r : ResourceRec) (id : String)
    → Rules dir
    → check_viewer dir r id ≡ []
    → IsHome dir r id
unfolding check_viewer
viewer-IsHome dir r id rules h = elim (Option-cases (lookup id dir.principals)) [
  | inl missing ↦ absurd (cc (rw (check_viewer, missing) at h))
  | inr (p, found) ↦ (
    p,
    found,
    str_eq_sound p.tenant r.tenant (unless_nil _ _ (rw (check_viewer, found) at h)),
    not_reserved dir id p rules found,
  )
]

-- In a directory without violations, the owner of a resource and each of its viewers are principals of the
-- directory in the resource's own tenant, and that tenant is not the reserved one.
pub validate-IsHome :
    (dir : Directory) (r : ResourceRec)
    → validate dir ≡ []
    → Among r (values dir.resources)
    → IsHome dir r r.owner × ((viewer : String) → Among viewer r.viewers → IsHome dir r viewer)
unfolding check_resource
validate-IsHome dir r v a =
    let rules = validate-Rules dir v in
    let h =
      append_nil (check_owner dir r) (for_each (check_viewer dir r) r.viewers)
        (rules.resource r a) in
    (
      owner-IsHome dir r rules h.0,
      (λ viewer m.
          viewer-IsHome dir r viewer rules
            (for_each_nil (check_viewer dir r) r.viewers viewer h.1 m)),
    )

org_home :
    (dir : Directory) (r : ResourceRec) (org_id : String)
    → check_org_tenant dir r org_id ≡ []
    → (o : OrgRec) × (lookup org_id dir.orgs ≡ some o) × (o.tenant ≡ r.tenant)
unfolding check_org_tenant
org_home dir r org_id h = elim (Option-cases (lookup org_id dir.orgs)) [
  | inl missing ↦ absurd (cc (rw (check_org_tenant, missing) at h))
  | inr (o, found) ↦ (
    o,
    found,
    str_eq_sound o.tenant r.tenant (unless_nil _ _ (rw (check_org_tenant, found) at h)),
  )
]

same_org :
    (dir : Directory) (r : ResourceRec) (org_id : String) (p : PrincipalRec) (owner_org : String)
    → check_owner_org dir r org_id ≡ []
    → lookup r.owner dir.principals ≡ some p
    → p.org ≡ some owner_org
    → owner_org ≡ org_id
unfolding check_owner_org
same_org dir r org_id p owner_org h found e =
    str_eq_sound owner_org org_id (unless_nil _ _ (rw (check_owner_org, found, e) at h))

-- In a directory without violations, the organization that a resource names exists in the resource's tenant,
-- and an owner that names an organization names the same one.
pub validate-org :
    (dir : Directory) (r : ResourceRec) (org_id : String)
    → validate dir ≡ []
    → Among r (values dir.resources)
    → r.org ≡ some org_id
    → ((o : OrgRec) × (lookup org_id dir.orgs ≡ some o) × (o.tenant ≡ r.tenant))
      × ((p : PrincipalRec) (owner_org : String)
          → lookup r.owner dir.principals ≡ some p
          → p.org ≡ some owner_org
          → owner_org ≡ org_id)
unfolding check_resource_org
validate-org dir r org_id v a e =
    let h =
      append_nil (check_org_tenant dir r org_id) (check_owner_org dir r org_id)
        (rw (check_resource_org, e) at ((validate-Rules dir v).resource_org r a)) in
    (
      org_home dir r org_id h.0,
      (λ p owner_org found k. same_org dir r org_id p owner_org h.1 found k),
    )
