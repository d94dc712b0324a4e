-- ===== src/Kernel/Parse/Keyed.antt =====
-- What a directory is that was read without a violation: one record for each entity, under the record's own
-- identifier.
use Prim.Native.String.{String}
use decern.Base.{
  ℕ, suc, ◌+◌, ◌≡◌, refl, subst, ◌⊎◌, inl, inr, Bool, true, false, ◌||◌, Option, none, some, List,
  [], ◌∷◌, if◌then◌else◌, Bool-cases, length, arith,
}
use text.Mathlib.Text.{◌==◌ as str_eq}
use decern.Base.Json.{Json, Members, get_member, as_array}
use decern.Kernel.Graph.{Directory}
use decern.Kernel.Parse.{
  ParseViolation, Load, refuse, add_principal, add_resource, add_org, attr_entity_ref,
  attr_entity_set, flag, read_principal, read_resource, read_org, read_typed, read_entity,
  read_entities, uid_field, attrs_of, empty_load, loaded, parse, principal_rec, resource_rec,
  or_empty, attr_str, RefError, malformed, revoked_not_boolean, missing_uid, missing_attrs,
  unknown_type,
}
use decern.Kernel.Parse.Adds.{
  IsLoaded, Adds, refuse-Adds, add_principal-Adds, add_resource-Adds, add_org-Adds,
}

read_principal-Adds :
    (id : String) (attrs : Members) (s : Load) → Adds s (read_principal id attrs s)
unfolding read_principal
read_principal-Adds id attrs s =
    outer (attr_entity_ref attrs "delegator" "Principal")
      (attr_entity_ref attrs "org" "Organization") (flag (get_member "revoked" attrs))
  where
    outer :
        (d o : RefError ⊎ Option String) (f : Option Bool)
        → Adds s (elim d [
          | inl e ↦ refuse s (malformed "Principal" id e)
          | inr delegator ↦ elim o [
            | inl e ↦ refuse s (malformed "Principal" id e)
            | inr org ↦ elim f [
              | none ↦ refuse s (revoked_not_boolean id)
              | some revoked ↦ add_principal (principal_rec id attrs delegator org revoked) s
            ]
          ]
        ])
    outer (inl e) o f = refuse-Adds s _
    outer (inr d) (inl e) f = refuse-Adds s _
    outer (inr d) (inr o) none = refuse-Adds s _
    outer (inr d) (inr o) (some r) = add_principal-Adds (principal_rec id attrs d o r) s

read_resource-Adds : (id : String) (attrs : Members) (s : Load) → Adds s (read_resource id attrs s)
unfolding read_resource
read_resource-Adds id attrs s =
    outer (attr_entity_ref attrs "owner" "Principal") (attr_entity_ref attrs "org" "Organization")
      (attr_entity_set attrs "viewers" "Principal")
  where
    outer :
        (w o : RefError ⊎ Option String) (f : RefError ⊎ List String)
        → Adds s (elim w [
          | inl e ↦ refuse s (malformed "Resource" id e)
          | inr owner ↦ elim o [
            | inl e ↦ refuse s (malformed "Resource" id e)
            | inr org ↦ elim f [
              | inl e ↦ refuse s (malformed "Resource" id e)
              | inr viewers ↦ add_resource (resource_rec id attrs owner org viewers) s
            ]
          ]
        ])
    outer (inl e) o f = refuse-Adds s _
    outer (inr w) (inl e) f = refuse-Adds s _
    outer (inr w) (inr o) (inl e) = refuse-Adds s _
    outer (inr w) (inr o) (inr v) = add_resource-Adds (resource_rec id attrs w o v) s

read_org-Adds : (id : String) (attrs : Members) (s : Load) → Adds s (read_org id attrs s)
unfolding read_org
read_org-Adds id attrs s = outer (attr_entity_ref attrs "parent" "Organization")
  where
    outer :
        (p : RefError ⊎ Option String)
        → Adds s (elim p [
          | inl e ↦ refuse s (malformed "Organization" id e)
          | inr parent ↦
              add_org
                (record { id = id; tenant = or_empty (attr_str attrs "tenant"); parent = parent })
                s
        ])
    outer (inl e) = refuse-Adds s _
    outer (inr p) = add_org-Adds _ s

read_typed-Adds : (ty id : String) (attrs : Members) (s : Load) → Adds s (read_typed ty id attrs s)
unfolding read_typed
read_typed-Adds ty id attrs s = elim (Bool-cases (str_eq ty "Principal")) [
  | inl p ↦ rw p (read_principal-Adds id attrs s)
  | inr np ↦ elim (Bool-cases (str_eq ty "Resource")) [
    | inl r ↦ rw (np, r) (read_resource-Adds id attrs s)
    | inr nr ↦ elim (Bool-cases (str_eq ty "Organization")) [
      | inl o ↦ rw (np, nr, o) (read_org-Adds id attrs s)
      | inr other ↦ rw (np, nr, other) (refuse-Adds s (unknown_type ty id))
    ]
  ]
]

read_entity-Adds : (i : ℕ) (e : Json) (s : Load) → Adds s (read_entity i e s)
unfolding read_entity
read_entity-Adds i e s =
    outer (str_eq (uid_field e "type") "" || str_eq (uid_field e "id") "") (attrs_of e)
  where
    outer :
        (missing : Bool) (attrs : Option Members)
        → Adds s (
            if missing then refuse s (missing_uid i) else elim attrs [
              | none ↦ refuse s (missing_attrs (uid_field e "type") (uid_field e "id"))
              | some a ↦ read_typed (uid_field e "type") (uid_field e "id") a s
            ])
    outer true attrs = refuse-Adds s _
    outer false none = refuse-Adds s _
    outer false (some a) = read_typed-Adds (uid_field e "type") (uid_field e "id") a s

read_entities-IsLoaded :
    (i : ℕ) (list : List Json) (s : Load) (n : ℕ)
    → (read_entities i list s).violations ≡ []
    → (s.violations ≡ [])
      × (IsLoaded s.dir n → IsLoaded (read_entities i list s).dir (n + length list))
unfolding read_entities
read_entities-IsLoaded i [] s n h =
    (h, (λ l. subst (IsLoaded s.dir) (let e : n ≡ n + 0 = omega arith in e) l))
read_entities-IsLoaded i (e ∷ list) s n h =
    let (quiet, rest) = read_entities-IsLoaded (i + 1) list (read_entity i e s) (suc n) h in
    let (before, step) = read_entity-Adds i e s quiet in
    (
      before,
      (λ l.
          subst (IsLoaded (read_entities (i + 1) list (read_entity i e s)).dir)
            (let q : suc n + length list ≡ n + suc (length list) = omega arith in q)
            (rest (step n l))),
    )

loaded-dir : (s : Load) (dir : Directory) → loaded s ≡ inr dir → (s.violations ≡ []) × (s.dir ≡ dir)
unfolding loaded
loaded-dir s dir = go s.violations refl
  where
    go :
        (vs : List ParseViolation)
        → s.violations ≡ vs
        → elim s.violations as (λ _. List ParseViolation ⊎ Directory) [
          | [] ↦ inr s.dir
          | v ∷ vs ↦ inl (v ∷ vs)
        ]
          ≡ inr dir
        → (s.violations ≡ []) × (s.dir ≡ dir)
    go [] e h = (e, cc (rw e at h))
    go (v ∷ vs) e h = absurd (cc (rw e at h))

-- If `parse` accepts an array of entities, then the directory has as many records as the array has
-- entities, and each record stands under its own identifier, names a tenant, and has an expiry
-- that is not negative where it is a principal's and an owner where it is a resource's.
pub parse-IsLoaded :
    (entities : Json) (list : List Json) (dir : Directory)
    → as_array entities ≡ some list
    → parse entities ≡ inr dir
    → IsLoaded dir (length list)
unfolding parse
parse-IsLoaded entities list dir a h =
    let (quiet, same) = loaded-dir (read_entities 0 list empty_load) dir (rw (parse, a) at h) in
    let (_, all) = read_entities-IsLoaded 0 list empty_load 0 quiet in
    subst (λ (d : Directory). IsLoaded d (length list)) same
      (subst (IsLoaded (read_entities 0 list empty_load).dir)
        (let e : 0 + length list ≡ length list = omega arith in e)
        (all (record { principals = tt; resources = tt; orgs = tt; size = refl })))
