-- ===== src/Kernel/Parse/Adds.antt =====
-- The steps of `parse` that add a record to the directory: each adds one, or refuses.
use Prim.Native.String.{compare, String}
use decern.Base.{
  ℕ, suc, ◌+◌, ◌≡◌, ◌≢◌, refl, subst, sym, ap, inl, inr, Bool, true, false, Option, none, some,
  List, [], ◌∷◌, ◌++◌, Bool-cases, length, All, arith, Ordering,
}
use text.Mathlib.Text.{◌==◌ as str_eq}
use text.Mathlib.TextEquality.{path_by_compare, eq_iff}
use decern.Base.Dict.{Dict, lookup, insert}
use decern.Base.Int.{pos, ◌≤ℤ◌, lt_int, le_of_not_lt}
use decern.Kernel.Graph.{PrincipalRec, ResourceRec, OrgRec, Directory}
use decern.Kernel.Parse.{
  ParseViolation, Load, refuse, note, is_some, add_principal, add_resource, add_org, bad_expiry,
  missing_tenant, no_owner, duplicate,
}

module _ {ℓ κ} {V : Type ℓ} (P : String × V → Type κ) where
  All-insert : (k : String) (v : V) (m : Dict V) → P (k, v) → All P m → All P (insert k v m)
  unfolding insert
  All-insert k v [] p h = (p, h)
  All-insert k v ((j, w) ∷ m) p h =
      elim (compare k j)
        as (λ (o : Ordering). All P (elim o [
          | Ordering.lt ↦ (k, v) ∷ (j, w) ∷ m
          | Ordering.eq ↦ (k, v) ∷ m
          | Ordering.gt ↦ (j, w) ∷ insert k v m
        ])) [
          | Ordering.lt ↦ (p, h)
          | Ordering.eq ↦ (p, h.1)
          | Ordering.gt ↦ (h.0, All-insert k v m p h.1)
        ]

lookup-none {ℓ} :
    {V : Type ℓ} (k j : String) (w : V) (m : Dict V)
    → lookup k ((j, w) ∷ m) ≡ none
    → (j ≢ k) × (lookup k m ≡ none)
lookup-none k j w m h = elim (Bool-cases (str_eq j k)) [
  | inl same ↦ absurd (cc (rw same at h))
  | inr other ↦ ((λ e. cc ((eq_iff j k).1 e, other)), rw other at h)
]

length-insert {ℓ} :
    {V : Type ℓ} (k : String) (v : V) (m : Dict V)
    → lookup k m ≡ none
    → length (insert k v m) ≡ suc (length m)
unfolding insert
length-insert k v [] h = refl
length-insert {V = V} k v ((j, w) ∷ m) h = go (compare k j) refl (length-insert k v m)
  where
    go :
        (o : Ordering)
        → compare k j ≡ o
        → (lookup k m ≡ none → length (insert k v m) ≡ suc (length m))
        → length {A = String × V} (elim o [
          | Ordering.lt ↦ (k, v) ∷ (j, w) ∷ m
          | Ordering.eq ↦ (k, v) ∷ m
          | Ordering.gt ↦ (j, w) ∷ insert k v m
        ])
          ≡ suc (suc (length m))
    go Ordering.lt e rest = refl
    go Ordering.eq e rest = absurd ((lookup-none k j w m h).0 (sym (path_by_compare k j e)))
    go Ordering.gt e rest = ap suc (rest (lookup-none k j w m h).1)

-- What a loaded record satisfies under its key.
abbrev pub IsPrincipal : String × PrincipalRec → Type 0
IsPrincipal p = (p.1.id ≡ p.0) × (p.1.tenant ≢ "") × (pos 0 ≤ℤ p.1.expiry)

abbrev pub IsResource : String × ResourceRec → Type 0
IsResource r = (r.1.id ≡ r.0) × (r.1.tenant ≢ "") × (r.1.owner ≢ "")

abbrev pub IsOrg : String × OrgRec → Type 0
IsOrg o = (o.1.id ≡ o.0) × (o.1.tenant ≢ "")

-- A directory of `n` records.
pub record IsLoaded (dir : Directory) (n : ℕ) : Type 0 where
  pub principals : All IsPrincipal dir.principals
  pub resources : All IsResource dir.resources
  pub orgs : All IsOrg dir.orgs
  pub size : length dir.principals + length dir.resources + length dir.orgs ≡ n

-- A step that refuses nothing adds one record.
abbrev pub Adds : Load → Load → Type 0
Adds s s' =
    s'.violations ≡ []
    → (s.violations ≡ []) × ((n : ℕ) → IsLoaded s.dir n → IsLoaded s'.dir (suc n))

append-single : (vs : List ParseViolation) (v : ParseViolation) → vs ++ v ∷ [] ≢ []
append-single [] v h = cc
append-single (x ∷ vs) v h = cc

pub refuse-Adds : (s : Load) (v : ParseViolation) → Adds s (refuse s v)
refuse-Adds s v h = absurd (append-single s.violations v h)

note-none :
    (test : Bool) (v : ParseViolation) (s : Load)
    → (note test v s).violations ≡ []
    → (test ≡ false) × (s.violations ≡ [])
note-none true v s h = absurd (append-single s.violations v h)
note-none false v s h = (refl, h)

note-dir : (test : Bool) (v : ParseViolation) (s : Load) → s.dir ≡ (note test v s).dir
note-dir true v s = refl
note-dir false v s = refl

not_empty : (s : String) → str_eq s "" ≡ false → s ≢ ""
not_empty s h e = cc ((eq_iff s "").1 e, h)

new_key {ℓ} : {V : Type ℓ} (o : Option V) → is_some o ≡ false → o ≡ none
new_key none h = refl
new_key (some v) h = cc

pub add_principal-Adds : (rec : PrincipalRec) (s : Load) → Adds s (add_principal rec s)
unfolding add_principal
add_principal-Adds rec s h =
    let tenant = note (str_eq rec.tenant "") (missing_tenant "Principal" rec.id) s in
    let a =
      note-none (is_some (lookup rec.id s.dir.principals)) (duplicate "Principal" rec.id) _ h in
    let b = note-none (lt_int rec.expiry (pos 0)) (bad_expiry rec.id) tenant a.1 in
    let d = note-none (str_eq rec.tenant "") (missing_tenant "Principal" rec.id) s b.1 in
    (
      d.1,
      (λ n l.
          subst (λ (x : Directory). IsLoaded x (suc n))
            (note-dir (is_some (lookup rec.id s.dir.principals)) (duplicate "Principal" rec.id) _)
            (record {
              principals =
                  All-insert IsPrincipal rec.id rec s.dir.principals
                    (refl, not_empty rec.tenant d.0, le_of_not_lt (pos 0) rec.expiry b.0)
                    l.principals;
              resources = l.resources;
              orgs = l.orgs;
              size =
                  omega (arith, l.size, length-insert rec.id rec s.dir.principals (new_key _ a.0));
            })),
    )

pub add_resource-Adds : (rec : ResourceRec) (s : Load) → Adds s (add_resource rec s)
unfolding add_resource
add_resource-Adds rec s h =
    let owner = note (str_eq rec.owner "") (no_owner rec.id) s in
    let a = note-none (is_some (lookup rec.id s.dir.resources)) (duplicate "Resource" rec.id) _ h in
    let b = note-none (str_eq rec.tenant "") (missing_tenant "Resource" rec.id) owner a.1 in
    let d = note-none (str_eq rec.owner "") (no_owner rec.id) s b.1 in
    (
      d.1,
      (λ n l.
          subst (λ (x : Directory). IsLoaded x (suc n))
            (note-dir (is_some (lookup rec.id s.dir.resources)) (duplicate "Resource" rec.id) _)
            (record {
              principals = l.principals;
              resources =
                  All-insert IsResource rec.id rec s.dir.resources
                    (refl, not_empty rec.tenant b.0, not_empty rec.owner d.0) l.resources;
              orgs = l.orgs;
              size =
                  omega (arith, l.size, length-insert rec.id rec s.dir.resources (new_key _ a.0));
            })),
    )

pub add_org-Adds : (rec : OrgRec) (s : Load) → Adds s (add_org rec s)
unfolding add_org
add_org-Adds rec s h =
    let a = note-none (is_some (lookup rec.id s.dir.orgs)) (duplicate "Organization" rec.id) _ h in
    let b = note-none (str_eq rec.tenant "") (missing_tenant "Organization" rec.id) s a.1 in
    (
      b.1,
      (λ n l.
          subst (λ (x : Directory). IsLoaded x (suc n))
            (note-dir (is_some (lookup rec.id s.dir.orgs)) (duplicate "Organization" rec.id) _)
            (record {
              principals = l.principals;
              resources = l.resources;
              orgs = All-insert IsOrg rec.id rec s.dir.orgs (refl, not_empty rec.tenant b.0) l.orgs;
              size = omega (arith, l.size, length-insert rec.id rec s.dir.orgs (new_key _ a.0));
            })),
    )
