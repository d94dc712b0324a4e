-- ===== src/Ledger/Merkle/Tree.antt =====
-- The tree hash satisfies the RFC's equations: the fuel of `tree_hash` is enough.
use decern.Base.{
  ℕ, zero, suc, ◌*◌, ◌≤◌, ◌<◌, ◌≡◌, refl, ap₂, arith, List, [], ◌∷◌, length, take, drop,
  length-take, length-drop, Bytes,
}
use decern.Ledger.Merkle.{split, hash_leaf, hash_children, tree_hash_loop, tree_hash}
use decern.Ledger.Merkle.Split.{split-IsSplit}

module _ (sha256 : Bytes → Bytes) where
  tree_hash_loop-fuel :
      (f g : ℕ) (d : List Bytes)
      → length d ≤ f
      → length d ≤ g
      → tree_hash_loop sha256 f d ≡ tree_hash_loop sha256 g d
  unfolding tree_hash_loop
  tree_hash_loop-fuel zero zero d p q = refl
  tree_hash_loop-fuel zero (suc g) [] p q = refl
  tree_hash_loop-fuel zero (suc g) (x ∷ d) p q = absurd (omega arith)
  tree_hash_loop-fuel (suc f) zero [] p q = refl
  tree_hash_loop-fuel (suc f) zero (x ∷ d) p q = absurd (omega arith)
  tree_hash_loop-fuel (suc f) (suc g) [] p q = refl
  tree_hash_loop-fuel (suc f) (suc g) (x ∷ []) p q = refl
  tree_hash_loop-fuel (suc f) (suc g) (x ∷ y ∷ d) p q =
      let all : List Bytes = x ∷ y ∷ d in
      let k = split (length all) in
      let s = split-IsSplit (length all) (omega arith) in
      let below : k < length all = s.below in
      let reaches : length all ≤ 2 * k = s.reaches in
      ap₂ (hash_children sha256)
        (tree_hash_loop-fuel f g (take k all) (omega (arith, length-take k all))
          (omega (arith, length-take k all)))
        (tree_hash_loop-fuel f g (drop k all) (omega (arith, length-drop k all))
          (omega (arith, length-drop k all)))

  -- The tree of two leaves or more is the node over the trees of the two parts at the split point.
  pub tree_hash-node :
      (d : List Bytes)
      → 2 ≤ length d
      → tree_hash sha256 d
        ≡ hash_children sha256
            (tree_hash sha256 (take (split (length d)) d))
            (tree_hash sha256 (drop (split (length d)) d))
  unfolding tree_hash tree_hash_loop
  tree_hash-node [] h = absurd (omega arith)
  tree_hash-node (x ∷ []) h = absurd (omega arith)
  tree_hash-node (x ∷ y ∷ d) h =
      let all : List Bytes = x ∷ y ∷ d in
      let k = split (length all) in
      let s = split-IsSplit (length all) (omega arith) in
      let below : k < length all = s.below in
      let reaches : length all ≤ 2 * k = s.reaches in
      ap₂ (hash_children sha256)
        (tree_hash_loop-fuel (suc (length d)) (length (take k all)) (take k all)
          (omega (arith, length-take k all)) (omega arith))
        (tree_hash_loop-fuel (suc (length d)) (length (drop k all)) (drop k all)
          (omega (arith, length-drop k all)) (omega arith))

  pub tree_hash-leaf : (x : Bytes) → tree_hash sha256 (x ∷ []) ≡ hash_leaf sha256 x
  unfolding tree_hash tree_hash_loop
  tree_hash-leaf x = refl
