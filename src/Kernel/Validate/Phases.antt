-- ===== src/Kernel/Validate/Phases.antt =====
-- What an empty list of violations says of each rule of `validate`.
use decern.Base.{
  String, ◌≡◌, refl, subst, sym, Bool, true, false, List, [], ◌∷◌, ◌++◌, &&-elim, Among, here,
  there, Among-nil,
}
use decern.Base.Dict.{values, contains, contains-Among}
use decern.Kernel.Graph.{PrincipalRec, ResourceRec, Directory}
use decern.Kernel.Validate.{
  Violation, unless, for_each, is_subset, check_delegation, check_cycle, check_resource,
  check_reserved, check_member, check_resource_org, check_parent, check_hierarchy,
  reserved_principal, reserved_resource, reserved_org, validate,
}

module _ {ℓ} {A : Type ℓ} where
  append_nil_left : (xs ys : List A) → xs ++ ys ≡ [] → xs ≡ []
  append_nil_left [] ys h = refl
  append_nil_left (x ∷ xs) ys h = cc

  append_nil_right : (xs ys : List A) → xs ++ ys ≡ [] → ys ≡ []
  append_nil_right [] ys h = h
  append_nil_right (x ∷ xs) ys h = cc

  pub append_nil : (xs ys : List A) → xs ++ ys ≡ [] → (xs ≡ []) × (ys ≡ [])
  append_nil xs ys h = (append_nil_left xs ys h, append_nil_right xs ys h)

pub for_each_nil {ℓ} :
    {A : Type ℓ} (f : A → List Violation) (xs : List A) (x : A)
    → for_each f xs ≡ []
    → Among x xs
    → f x ≡ []
unfolding for_each
for_each_nil f [] x h a = absurd (Among-nil a)
for_each_nil f (y ∷ xs) x h (here e) =
    subst (λ z. f z ≡ []) (sym e) (append_nil_left (f y) (for_each f xs) h)
for_each_nil f (y ∷ xs) x h (there a) =
    for_each_nil f xs x (append_nil_right (f y) (for_each f xs) h) a

pub unless_nil : (b : Bool) (v : Violation) → unless b v ≡ [] → b ≡ true
unless_nil true v h = refl
unless_nil false v h = cc

pub is_subset-Among :
    (s t : List String) (x : String) → is_subset s t ≡ true → Among x s → Among x t
is_subset-Among [] t x h a = absurd (Among-nil a)
is_subset-Among (y ∷ s) t x h (here e) =
    subst (λ z. Among z t) (sym e) (contains-Among y t (&&-elim (contains y t) (is_subset s t) h).0)
is_subset-Among (y ∷ s) t x h (there a) =
    is_subset-Among s t x (&&-elim (contains y t) (is_subset s t) h).1 a

-- The rules of a directory without violations, one field for each rule that a later proof reads.
pub record Rules (dir : Directory) : Type 0 where
  pub delegation :
      (p : PrincipalRec) → Among p (values dir.principals) → check_delegation dir p ≡ []
  pub cycle : (p : PrincipalRec) → Among p (values dir.principals) → check_cycle dir p ≡ []
  pub resource : (r : ResourceRec) → Among r (values dir.resources) → check_resource dir r ≡ []
  pub reserved :
      (p : PrincipalRec)
      → Among p (values dir.principals)
      → check_reserved p.tenant (reserved_principal p.id) ≡ []
  pub resource_org :
      (r : ResourceRec) → Among r (values dir.resources) → check_resource_org dir r ≡ []

pub validate-Rules : (dir : Directory) → validate dir ≡ [] → Rules dir
unfolding validate
validate-Rules dir h =
    let a1 = append_nil _ (for_each (check_resource_org dir) (values dir.resources)) h in
    let a2 = append_nil _ (for_each (check_member dir) (values dir.principals)) a1.0 in
    let a3 = append_nil _ (for_each (check_hierarchy dir) (values dir.orgs)) a2.0 in
    let a4 = append_nil _ (for_each (check_parent dir) (values dir.orgs)) a3.0 in
    let a5 =
      append_nil _ (for_each (λ o. check_reserved o.tenant (reserved_org o.id)) (values dir.orgs))
        a4.0 in
    let a6 =
      append_nil _
        (for_each (λ r. check_reserved r.tenant (reserved_resource r.id)) (values dir.resources))
        a5.0 in
    let a7 =
      append_nil _
        (for_each (λ p. check_reserved p.tenant (reserved_principal p.id)) (values dir.principals))
        a6.0 in
    let a8 = append_nil _ (for_each (check_resource dir) (values dir.resources)) a7.0 in
    let a9 = append_nil _ (for_each (check_cycle dir) (values dir.principals)) a8.0 in
    record {
      delegation = λ p a. for_each_nil _ _ p a9.0 a;
      cycle = λ p a. for_each_nil _ _ p a9.1 a;
      resource = λ r a. for_each_nil _ _ r a8.1 a;
      reserved =
          λ p a. for_each_nil (λ q. check_reserved q.tenant (reserved_principal q.id)) _ p a7.1 a;
      resource_org = λ r a. for_each_nil _ _ r a1.1 a;
    }
