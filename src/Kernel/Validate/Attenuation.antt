-- ===== src/Kernel/Validate/Attenuation.antt =====
-- The authority of a principal in a directory without violations, against that of its ancestors.
use decern.Base.{
  String, ◌≡◌, refl, sym, ◌∙◌, Bool, true, false, not, some, [], Among, Option-cases, inl, inr,
}
use text.Mathlib.Text.{◌==◌ as str_eq}
use decern.Base.Dict.{lookup, lookup-values, str_eq_sound}
use decern.Base.Int.{◌≤ℤ◌, lt_int, le_of_not_lt, ≤ℤ_trans}
use decern.Kernel.Graph.{PrincipalRec, Directory}
use decern.Kernel.Graph.Ancestors.{Names, Reaches, direct, onward}
use decern.Kernel.Validate.{
  unless, is_subset, exceeds, check_delegation, validate, cross_tenant_delegation,
  outlives_delegator, scopes_exceed, roles_exceed, jurisdictions_exceed, difference,
}
use decern.Kernel.Validate.Phases.{append_nil, unless_nil, is_subset-Among, validate-Rules}

-- `p` has no authority that `d` lacks.
pub record Within (p d : PrincipalRec) : Type 0 where
  pub tenant : p.tenant ≡ d.tenant
  pub expiry : p.expiry ≤ℤ d.expiry
  pub scopes : (s : String) → Among s p.scopes → Among s d.scopes
  pub roles : (s : String) → Among s p.roles → Among s d.roles
  pub jurisdictions : (s : String) → Among s p.jurisdictions → Among s d.jurisdictions

not-true : (b : Bool) → not b ≡ true → b ≡ false
not-true true h = cc
not-true false h = refl

exceeds-Within : (p d : PrincipalRec) → exceeds p d ≡ [] → Within p d
unfolding exceeds
exceeds-Within p d h =
    let a1 =
      append_nil _
        (unless (is_subset p.jurisdictions d.jurisdictions)
          (jurisdictions_exceed p.id d.id (difference p.jurisdictions d.jurisdictions)))
        h in
    let a2 =
      append_nil _
        (unless (is_subset p.roles d.roles) (roles_exceed p.id d.id (difference p.roles d.roles)))
        a1.0 in
    let a3 =
      append_nil _
        (unless (is_subset p.scopes d.scopes)
          (scopes_exceed p.id d.id (difference p.scopes d.scopes)))
        a2.0 in
    let a4 =
      append_nil
        (unless (str_eq d.tenant p.tenant) (cross_tenant_delegation p.id p.tenant d.tenant))
        (unless (not (lt_int d.expiry p.expiry)) (outlives_delegator p.id p.expiry d.id d.expiry))
        a3.0 in
    record {
      tenant = sym (str_eq_sound d.tenant p.tenant (unless_nil _ _ a4.0));
      expiry = le_of_not_lt p.expiry d.expiry (not-true _ (unless_nil _ _ a4.1));
      scopes = λ s. is_subset-Among p.scopes d.scopes s (unless_nil _ _ a3.1);
      roles = λ s. is_subset-Among p.roles d.roles s (unless_nil _ _ a2.1);
      jurisdictions = λ s. is_subset-Among p.jurisdictions d.jurisdictions s (unless_nil _ _ a1.1);
    }

-- A delegate whose rule holds has a delegator in the directory, and stays within it.
check_delegation-Within :
    (dir : Directory) (p : PrincipalRec) (a : String)
    → p.delegator ≡ some a
    → check_delegation dir p ≡ []
    → (d : PrincipalRec) × (lookup a dir.principals ≡ some d) × Within p d
unfolding check_delegation
check_delegation-Within dir p a e h = elim (Option-cases (lookup a dir.principals)) [
  | inl missing ↦ absurd (cc (rw (check_delegation, e, missing) at h))
  | inr (d, found) ↦ (d, found, exceeds-Within p d (rw (check_delegation, e, found) at h))
]

Within-trans : {p q d : PrincipalRec} → Within p q → Within q d → Within p d
Within-trans {p} {q} {d} u w = record {
  tenant = u.tenant ∙ w.tenant;
  expiry = ≤ℤ_trans p.expiry q.expiry d.expiry u.expiry w.expiry;
  scopes = λ s a. w.scopes s (u.scopes s a);
  roles = λ s a. w.roles s (u.roles s a);
  jurisdictions = λ s a. w.jurisdictions s (u.jurisdictions s a);
}

-- In a directory without violations, every delegation edge leads, over any number of edges, to a principal of
-- the directory, and the delegate's tenant is that principal's, it expires no later, and its
-- scopes, roles and jurisdictions are among that principal's.
pub validate-Within :
    (dir : Directory) (id a : String) (p : PrincipalRec)
    → validate dir ≡ []
    → lookup id dir.principals ≡ some p
    → Reaches dir.principals id a
    → (d : PrincipalRec) × (lookup a dir.principals ≡ some d) × Within p d
validate-Within dir id a p v at r = go r
  where
    edge :
        (q a : String) (x : PrincipalRec)
        → lookup q dir.principals ≡ some x
        → Names dir.principals q a
        → (d : PrincipalRec) × (lookup a dir.principals ≡ some d) × Within x d
    edge q a x l n =
        check_delegation-Within dir x a (cc (l, n.1, n.2))
          ((validate-Rules dir v).delegation x (lookup-values q dir.principals l))

    go :
        {a : String}
        → Reaches dir.principals id a
        → (d : PrincipalRec) × (lookup a dir.principals ≡ some d) × Within p d
    go {a} (direct n) = edge id a p at n
    go {a} (onward {q = q} s n) =
        let u = go s in let w = edge q a u.0 u.1 n in (w.0, w.1, Within-trans u.2 w.2)
