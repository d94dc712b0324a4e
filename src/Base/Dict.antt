-- ===== src/Base/Dict.antt =====
-- `BTreeMap<String, V>` as an association list in key order, and `BTreeSet<String>` as a sorted list.
-- Key order is that of the code points, which is the byte order of UTF-8.
use Prim.Native.Nat.{ℕ, suc, ◌≤◌, ◌<◌, Ordering}
use Prim.Native.String.{String, compare}
use mathlib.Core.Path.{◌≡◌, refl, sym, ◌∙◌, ap, subst}
use mathlib.Core.Logic.{inl, inr}
use mathlib.Core.Bool.{Bool, true, false, ◌||◌}
use mathlib.Core.Option.{Option, none, some}
use mathlib.Core.List.{List, [], ◌∷◌}
use native.Mathlib.Omega.{arith}
use text.Mathlib.Text.{◌==◌ as str_eq}
use text.Mathlib.TextEquality.{path_by_compare, eq_iff}
use text.Mathlib.TextPositions.{compare_refl}
use decern.Base.Tests.{if◌then◌else◌, Bool-cases}
use decern.Base.Lists.{length, Among, here, there}

abbrev pub Dict {ℓ} : Type ℓ → Type ℓ
Dict V = List (String × V)

module _ {ℓ} {V : Type ℓ} where
  abbrev pub lookup : String → Dict V → Option V
  lookup k [] = none
  lookup k ((j, v) ∷ m) = if str_eq j k then some v else lookup k m

  unfoldable pub insert : String → V → Dict V → Dict V
  insert k v [] = (k, v) ∷ []
  insert k v ((j, w) ∷ m) = elim (compare k j) [
    | Ordering.lt ↦ (k, v) ∷ (j, w) ∷ m
    | Ordering.eq ↦ (k, v) ∷ m
    | Ordering.gt ↦ (j, w) ∷ insert k v m
  ]

  abbrev pub values : Dict V → List V
  values [] = []
  values ((j, v) ∷ m) = v ∷ values m

  abbrev pub keys : Dict V → List String
  keys [] = []
  keys ((j, v) ∷ m) = j ∷ keys m

abbrev pub contains : String → List String → Bool
contains k [] = false
contains k (j ∷ s) = str_eq j k || contains k s

pub str_eq_refl : (s : String) → str_eq s s ≡ true
str_eq_refl s = (eq_iff s s).1 refl

pub str_eq_sound : (s t : String) → str_eq s t ≡ true → s ≡ t
str_eq_sound s t = (eq_iff s t).0

pub contains-Among : (k : String) (s : List String) → contains k s ≡ true → Among k s
contains-Among k [] h = cc
contains-Among k (j ∷ s) h = elim (Bool-cases (str_eq j k)) [
  | inl same ↦ here (sym (str_eq_sound j k same))
  | inr other ↦ there (contains-Among k s (rw other at h))
]

pub Among-contains : (k : String) (s : List String) → Among k s → contains k s ≡ true
Among-contains k [] h = elim h [ ]
Among-contains k (j ∷ s) (here e) = ground (arith, eq_iff j k)
Among-contains k (j ∷ s) (there h) = ground (arith, Among-contains k s h)

-- `BTreeSet::insert`
unfoldable pub set_insert : String → List String → List String
set_insert k [] = k ∷ []
set_insert k (j ∷ s) = elim (compare k j) [
  | Ordering.lt ↦ k ∷ j ∷ s
  | Ordering.eq ↦ j ∷ s
  | Ordering.gt ↦ j ∷ set_insert k s
]

-- The number of keys that are not in the set.
pub unseen {ℓ} : {V : Type ℓ} → List String → Dict V → ℕ
unseen seen [] = 0
unseen seen ((k, v) ∷ m) = let rest = unseen seen m in if contains k seen then rest else suc rest

module _ {ℓ} {V : Type ℓ} where
  pub unseen-le-length : (seen : List String) (m : Dict V) → unseen seen m ≤ length m
  unfolding unseen
  unseen-le-length seen [] = omega arith
  unseen-le-length seen ((k, v) ∷ m) = ground (arith, unseen-le-length seen m)

  unseen_mono : (d : String) (seen : List String) (m : Dict V) → unseen (d ∷ seen) m ≤ unseen seen m
  unfolding unseen
  unseen_mono d seen [] = omega arith
  unseen_mono d seen ((k, v) ∷ m) = ground (arith, unseen_mono d seen m)

  -- A key that joins the set is one key fewer outside it.
  pub unseen_drop :
      (d : String) (seen : List String) (m : Dict V) {v : V}
      → lookup d m ≡ some v
      → contains d seen ≡ false
      → unseen (d ∷ seen) m < unseen seen m
  unfolding unseen
  unseen_drop d seen [] h n = cc
  unseen_drop d seen ((k, w) ∷ m) h n = elim (Bool-cases (str_eq k d)) [
    | inl same ↦
        let e = str_eq_sound k d same in
        let here : contains k (d ∷ seen) ≡ true = ground (arith, eq_iff d k, e) in
        let out : contains k seen ≡ false = ap (λ (t : String). contains t seen) e ∙ n in
        rw (here, out) (ground (arith, unseen_mono d seen m))
    | inr other ↦ ground (arith, eq_iff k d, eq_iff d k, unseen_drop d seen m (rw other at h) n)
  ]

  pub lookup-values : (k : String) (m : Dict V) {v : V} → lookup k m ≡ some v → Among v (values m)
  lookup-values k [] h = cc
  lookup-values k ((j, w) ∷ m) h = elim (Bool-cases (str_eq j k)) [
    | inl same ↦ here (cc (rw same at h))
    | inr other ↦ there (lookup-values k m (rw other at h))
  ]

  -- An insertion under another key leaves what a key finds.
  pub lookup-insert_other :
      (s k : String) (v : V) (m : Dict V)
      → str_eq k s ≡ false
      → lookup s (insert k v m) ≡ lookup s m
  unfolding insert
  lookup-insert_other s k v [] other = rw other refl
  lookup-insert_other s k v ((j, w) ∷ m) other =
      go (compare k j) refl (lookup-insert_other s k v m other)
    where
      go :
          (o : Ordering)
          → compare k j ≡ o
          → lookup s (insert k v m) ≡ lookup s m
          → lookup s (elim o as (λ _. Dict V) [
            | Ordering.lt ↦ (k, v) ∷ (j, w) ∷ m
            | Ordering.eq ↦ (k, v) ∷ m
            | Ordering.gt ↦ (j, w) ∷ insert k v m
          ])
            ≡ lookup s ((j, w) ∷ m)
      go Ordering.lt e rest = rw other refl
      go Ordering.eq e rest =
          let same : str_eq j s ≡ false =
            subst (λ t. str_eq t s ≡ false) (path_by_compare k j e) other in
          rw (other, same) refl
      go Ordering.gt e rest = ap (λ t. if str_eq j s then some w else t) rest

  -- A key finds what was inserted under it.
  pub lookup-insert_same : (k : String) (v : V) (m : Dict V) → lookup k (insert k v m) ≡ some v
  unfolding insert
  lookup-insert_same k v [] = rw (str_eq_refl k) refl
  lookup-insert_same k v ((j, w) ∷ m) = go (compare k j) refl (lookup-insert_same k v m)
    where
      go :
          (o : Ordering)
          → compare k j ≡ o
          → lookup k (insert k v m) ≡ some v
          → lookup k (elim o as (λ _. Dict V) [
            | Ordering.lt ↦ (k, v) ∷ (j, w) ∷ m
            | Ordering.eq ↦ (k, v) ∷ m
            | Ordering.gt ↦ (j, w) ∷ insert k v m
          ])
            ≡ some v
      go Ordering.lt e rest = rw (str_eq_refl k) refl
      go Ordering.eq e rest = rw (str_eq_refl k) refl
      go Ordering.gt e rest = elim (Bool-cases (str_eq j k)) [
        | inl same ↦
            let equal : compare k j ≡ Ordering.eq =
              ap (compare k) (str_eq_sound j k same) ∙ compare_refl k in
            absurd (cc (e, equal))
        | inr other ↦ rw other rest
      ]
