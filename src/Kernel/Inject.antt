-- ===== src/Kernel/Inject.antt =====
-- `inject_derived` of crates/decern-kernel/src/lib.rs: the attributes that the kernel computes from the directory
-- and writes over what the entities say.
use Prim.Native.String.{compare}
use decern.Base.{
  String, ◌≡◌, refl, ap, ◌∙◌, subst, Bool, true, false, Option, none, some, List, [], ◌∷◌, map,
  if◌then◌else◌, Bool-cases, inl, inr, Ordering,
}
use text.Mathlib.Text.{◌==◌ as str_eq}
use text.Mathlib.TextPositions.{compare_refl}
use text.Mathlib.TextEquality.{path_by_compare}
use decern.Base.Json.{
  Json, Elements, Members, nil, cons, end, member, object, array, string, bool, get_member,
  as_array, as_object,
}
use decern.Base.Dict.{str_eq_refl, str_eq_sound}
use decern.Kernel.Graph.{Directory, ancestors_of, revoked}
use decern.Kernel.Parse.{uid_field, attrs_of}

-- `serde_json::Map::insert`: the members stand in key order.
pub insert_member : String → Json → Members → Members
insert_member k v end = member k v end
insert_member k v (member j w m) = elim (compare k j) [
  | Ordering.lt ↦ member k v (member j w m)
  | Ordering.eq ↦ member k v m
  | Ordering.gt ↦ member j w (insert_member k v m)
]

-- The first member of this name, replaced.
pub set_member : String → Json → Members → Members
set_member k v end = end
set_member k v (member j w m) = if str_eq j k then member j v m else member j w (set_member k v m)

unfoldable pub of_list : List Json → Elements
of_list [] = nil
of_list (j ∷ js) = cons j (of_list js)

-- `{ "__entity": { "id": a, "type": "Principal" } }`
abbrev pub entity_ref : String → Json
entity_ref a = object (
    member "__entity" (object (member "id" (string a) (member "type" (string "Principal") end)))
      end)

abbrev pub is_principal : Json → Bool
is_principal e = str_eq (uid_field e "type") "Principal"

-- The two attributes, written over what the entity says.
unfoldable pub derived_attrs : Directory → String → Members → Members
unfolding insert_member of_list
derived_attrs dir id attrs =
    insert_member "revoked" (bool (revoked dir id))
      (insert_member "ancestors" (array (of_list (map entity_ref (ancestors_of dir id)))) attrs)

-- `get_mut("attrs")` where it is an object; any other entity stays as it is.
abbrev pub with_attrs : (Members → Members) → Json → Json
with_attrs f (object m) = elim (get_member "attrs" m) [
  | some (object attrs) ↦ object (set_member "attrs" (object (f attrs)) m)
  | some j ↦ object m
  | none ↦ object m
]
with_attrs f j = j

pub inject_entity : Directory → Json → Json
unfolding set_member derived_attrs
inject_entity dir e =
    if is_principal e then with_attrs (derived_attrs dir (uid_field e "id")) e else e

unfoldable pub inject_derived : Directory → Json → Json
unfolding inject_entity of_list
inject_derived dir entities = elim (as_array entities) [
  | none ↦ array nil
  | some list ↦ array (of_list (map (inject_entity dir) list))
]

get-insert_member :
    (k : String) (v : Json) (m : Members) → get_member k (insert_member k v m) ≡ some v
unfolding insert_member
get-insert_member k v end = rw (str_eq_refl k) refl
get-insert_member k v (member j w m) = go (compare k j) refl (get-insert_member k v m)
  where
    go :
        (o : Ordering)
        → compare k j ≡ o
        → get_member k (insert_member k v m) ≡ some v
        → get_member k (elim o [
          | Ordering.lt ↦ member k v (member j w m)
          | Ordering.eq ↦ member k v m
          | Ordering.gt ↦ member j w (insert_member k v m)
        ])
          ≡ some v
    go Ordering.lt e ih = rw (str_eq_refl k) refl
    go Ordering.eq e ih = rw (str_eq_refl k) refl
    go Ordering.gt e ih = elim (Bool-cases (str_eq j k)) [
      | inl same ↦
          absurd
            (cc (compare_refl k, subst (λ t. compare k t ≡ Ordering.gt) (str_eq_sound j k same) e))
      | inr other ↦ rw other ih
    ]

get-insert_member_other :
    (k i : String) (v : Json) (m : Members)
    → str_eq k i ≡ false
    → get_member i (insert_member k v m) ≡ get_member i m
unfolding insert_member
get-insert_member_other k i v end h = rw h refl
get-insert_member_other k i v (member j w m) h =
    go (compare k j) refl (get-insert_member_other k i v m h)
  where
    go :
        (o : Ordering)
        → compare k j ≡ o
        → get_member i (insert_member k v m) ≡ get_member i m
        → get_member i (elim o [
          | Ordering.lt ↦ member k v (member j w m)
          | Ordering.eq ↦ member k v m
          | Ordering.gt ↦ member j w (insert_member k v m)
        ])
          ≡ get_member i (member j w m)
    go Ordering.lt e ih = rw h refl
    go Ordering.eq e ih =
        let other : str_eq j i ≡ false =
          subst (λ t. str_eq t i ≡ false) (path_by_compare k j e) h in
        rw (h, other) refl
    go Ordering.gt e ih = elim (Bool-cases (str_eq j i)) [
      | inl same ↦ rw same refl
      | inr other ↦ rw other ih
    ]

get-set_member :
    (k : String) (v w : Json) (m : Members)
    → get_member k m ≡ some w
    → get_member k (set_member k v m) ≡ some v
unfolding set_member
get-set_member k v w end h = cc
get-set_member k v w (member j x m) h = elim (Bool-cases (str_eq j k)) [
  | inl same ↦ rw (same, same) refl
  | inr other ↦ rw (other, other) (get-set_member k v w m (rw other at h))
]

with_attrs-attrs_of :
    (f : Members → Members) (e : Json) (attrs : Members)
    → attrs_of e ≡ some attrs
    → attrs_of (with_attrs f e) ≡ some (f attrs)
with_attrs-attrs_of f (object m) attrs h = go (get_member "attrs" m) refl h
  where
    go :
        (o : Option Json)
        → get_member "attrs" m ≡ o
        → elim o as (λ _. Option Members) [ none ↦ none | some v ↦ as_object v ] ≡ some attrs
        → attrs_of (elim o as (λ _. Json) [
          | some (object a) ↦ object (set_member "attrs" (object (f a)) m)
          | some j ↦ object m
          | none ↦ object m
        ])
          ≡ some (f attrs)
    go none e h = cc
    go (some (object a)) e h =
        rw (attrs_of, get-set_member "attrs" (object (f a)) (object a) m e)
          (let same : a ≡ attrs = cc h in ap (λ x. some (f x)) same)
    go (some Json.null) e h = cc
    go (some (bool b)) e h = cc
    go (some (Json.number n)) e h = cc
    go (some (string t)) e h = cc
    go (some (array js)) e h = cc
with_attrs-attrs_of f Json.null attrs h = cc
with_attrs-attrs_of f (bool b) attrs h = cc
with_attrs-attrs_of f (Json.number n) attrs h = cc
with_attrs-attrs_of f (string t) attrs h = cc
with_attrs-attrs_of f (array js) attrs h = cc

-- An injected principal with an object of attributes has one with the effective revocation of its identifier
-- under `revoked`, references to its ancestors under `ancestors`, and every other attribute as the
-- entity says, whatever it says under those two names.
pub inject_entity-derived :
    (dir : Directory) (e : Json) (attrs : Members)
    → is_principal e ≡ true
    → attrs_of e ≡ some attrs
    → (m : Members) × (attrs_of (inject_entity dir e) ≡ some m)
      × (get_member "revoked" m ≡ some (bool (revoked dir (uid_field e "id"))))
      × (get_member "ancestors" m
          ≡ some (array (of_list (map entity_ref (ancestors_of dir (uid_field e "id"))))))
      × ((k : String)
          → str_eq "revoked" k ≡ false
          → str_eq "ancestors" k ≡ false
          → get_member k m ≡ get_member k attrs)
unfolding inject_entity derived_attrs
inject_entity-derived dir e attrs p h =
    let id = uid_field e "id" in
    let refs = array (of_list (map entity_ref (ancestors_of dir id))) in
    let flag = bool (revoked dir id) in
    let inner = insert_member "ancestors" refs attrs in
    (
      insert_member "revoked" flag inner,
      rw p (with_attrs-attrs_of (derived_attrs dir id) e attrs h),
      get-insert_member "revoked" flag inner,
      get-insert_member_other "revoked" "ancestors" flag inner refl
          ∙ get-insert_member "ancestors" refs attrs,
      (λ k r a.
          get-insert_member_other "revoked" k flag inner r
          ∙ get-insert_member_other "ancestors" k refs attrs a),
    )
