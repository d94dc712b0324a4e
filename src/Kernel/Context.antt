-- ===== src/Kernel/Context.antt =====
-- crates/decern-kernel/src/context.rs: the shape of the context that an action declares, and the union of two
-- shapes.
use decern.Base.{
  String, ◌≡◌, refl, Bool, false, ◌||◌, Option, none, some, Ordering, arith, if◌then◌else◌, ap,
}
use Prim.Native.String.{compare}
use text.Mathlib.Text.{◌==◌ as str_eq}
use text.Mathlib.TextEquality.{path_by_compare}

mutual
  pub data Declared : Type 0 where
    shape : Attributes → Declared
    opaque : Declared

  -- The `BTreeMap` of a record, in key order.
  pub data Attributes : Type 0 where
    empty : Attributes
    attribute : String → Declared → Attributes → Attributes

pub find : String → Attributes → Option Declared
find k empty = none
find k (attribute j d m) = if str_eq j k then some d else find k m

pub put : String → Declared → Attributes → Attributes
put k d empty = attribute k d empty
put k d (attribute j e m) = elim (compare k j) [
  | Ordering.lt ↦ attribute k d (attribute j e m)
  | Ordering.eq ↦ attribute k d m
  | Ordering.gt ↦ attribute j e (put k d m)
]

mutual
  pub union : Declared → Declared → Declared
  union (shape x) (shape y) = shape (merge x y)
  union (shape x) opaque = opaque
  union opaque b = opaque

  -- The loop over the attributes of the second record, with the result so far.
  pub merge : Attributes → Attributes → Attributes
  merge out empty = out
  merge out (attribute key d y) = elim (find key out) [
    | some have ↦ merge (put key (union have d) out) y
    | none ↦ merge (put key d out) y
  ]

pub declares : String → Attributes → Bool
declares k empty = false
declares k (attribute j d m) = str_eq j k || declares k m

declares-put :
    (k j : String) (d : Declared) (m : Attributes)
    → declares k (put j d m) ≡ (str_eq j k || declares k m)
unfolding put declares
declares-put k j d empty = refl
declares-put k j d (attribute i e m) = go (compare j i) refl (declares-put k j d m)
  where
    go :
        (o : Ordering)
        → compare j i ≡ o
        → declares k (put j d m) ≡ (str_eq j k || declares k m)
        → declares k (elim o [
          | Ordering.lt ↦ attribute j d (attribute i e m)
          | Ordering.eq ↦ attribute j d m
          | Ordering.gt ↦ attribute i e (put j d m)
        ])
          ≡ (str_eq j k || (str_eq i k || declares k m))
    go Ordering.lt c ih = refl
    go Ordering.eq c ih =
        let same : str_eq j k ≡ str_eq i k = ap (λ t. str_eq t k) (path_by_compare j i c) in
        ground (arith, same)
    go Ordering.gt c ih = ground (arith, ih)

-- The union of two records declares an attribute where one of the two does, and no other.
pub merge-declares :
    (k : String) (x y : Attributes) → declares k (merge x y) ≡ (declares k x || declares k y)
unfolding union declares
merge-declares k x empty = ground arith
merge-declares k x (attribute key d y) = go (find key x) (λ e. merge-declares k (put key e x) y)
  where
    go :
        (o : Option Declared)
        → ((e : Declared)
            → declares k (merge (put key e x) y) ≡ (declares k (put key e x) || declares k y))
        → declares k (elim o [
          | some have ↦ merge (put key (union have d) x) y
          | none ↦ merge (put key d x) y
        ])
          ≡ (declares k x || (str_eq key k || declares k y))
    go none ih = ground (arith, ih d, declares-put k key d x)
    go (some have) ih = ground (arith, ih (union have d), declares-put k key (union have d) x)
