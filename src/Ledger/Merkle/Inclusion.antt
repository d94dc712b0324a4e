-- ===== src/Ledger/Merkle/Inclusion.antt =====
-- An inclusion proof that the generator makes is accepted by the verifier.
use decern.Base.{
  ℕ, zero, suc, ◌+◌, ◌-◌, ◌≤◌, ◌<◌, ◌≡◌, refl, ◌∙◌, ap, true, false, arith, ltb, leb, ◌==◌, Option,
  none, some, List, [], ◌∷◌, ◌++◌, Bytes, length, take, drop, get_elem?, length-take, length-drop,
  get_elem?-take, get_elem?-drop, bytes_eq_refl,
}
use native.Mathlib.Decide.{dec_lt}
use decern.Ledger.Merkle.{
  InclusionWalk, ConsistencyWalk, split, hash_leaf, hash_children, tree_hash, path_loop,
  inclusion_proof, inclusion_step, inclusion_loop, consistency_step, consistency_loop,
  verify_inclusion,
}
use decern.Ledger.Merkle.Split.{pow2, IsSplit, split-IsSplit}
use decern.Ledger.Merkle.Tree.{tree_hash-node, tree_hash-leaf}
use decern.Ledger.Merkle.Walk.{walk, loop-append, lift_left, lift_right, finish_left, finish_right}

abbrev pub forget : Option ConsistencyWalk → Option InclusionWalk
forget none = none
forget (some w) = some (record { fn = w.fn; sn = w.sn; r = w.sr })

module _ (sha256 : Bytes → Bytes) where
  -- The inclusion loop is the consistency loop without its first hash.
  pub inclusion_loop-forget :
      (w : ConsistencyWalk) (path : List Bytes)
      → inclusion_loop sha256 (record { fn = w.fn; sn = w.sn; r = w.sr }) path
        ≡ forget (consistency_loop sha256 w path)
  unfolding inclusion_loop inclusion_step consistency_loop consistency_step
  inclusion_loop-forget w [] = refl
  inclusion_loop-forget w (p ∷ path) =
      go (consistency_step sha256 w p) (ground arith) (λ u. inclusion_loop-forget u path)
    where
      go :
          (o : Option ConsistencyWalk)
          → forget o ≡ inclusion_step sha256 (record { fn = w.fn; sn = w.sn; r = w.sr }) p
          → ((u : ConsistencyWalk)
              → inclusion_loop sha256 (record { fn = u.fn; sn = u.sn; r = u.sr }) path
                ≡ forget (consistency_loop sha256 u path))
          → elim (inclusion_step sha256 (record { fn = w.fn; sn = w.sn; r = w.sr }) p) [
            | none ↦ none
            | some v ↦ inclusion_loop sha256 v path
          ]
            ≡ forget (elim o [ none ↦ none | some v ↦ consistency_loop sha256 v path ])
      go none e ih = rw (← e)
      go (some u) e ih = rw (← e) (ih u)

  path_loop-left :
      (fuel : ℕ) (d : List Bytes) (m : ℕ)
      → 2 ≤ length d
      → m < split (length d)
      → path_loop sha256 (suc fuel) d m
        ≡ path_loop sha256 fuel (take (split (length d)) d) m
          ++ tree_hash sha256 (drop (split (length d)) d) ∷ []
  unfolding path_loop
  path_loop-left fuel d m h lt =
      let many : (length d == 1) ≡ false = ground arith in
      let below : ltb m (split (length d)) ≡ true = ground arith in rw (many, below)

  path_loop-right :
      (fuel : ℕ) (d : List Bytes) (m : ℕ)
      → 2 ≤ length d
      → split (length d) ≤ m
      → path_loop sha256 (suc fuel) d m
        ≡ path_loop sha256 fuel (drop (split (length d)) d) (m - split (length d))
          ++ tree_hash sha256 (take (split (length d)) d) ∷ []
  unfolding path_loop
  path_loop-right fuel d m h le =
      let many : (length d == 1) ≡ false = ground arith in
      let above : ltb m (split (length d)) ≡ false = ground arith in rw (many, above)

  -- The path leads from the hash of leaf `m` to the hash of the tree, whatever `fr` is carried.
  Climbs : List Bytes → ℕ → Bytes → Bytes → List Bytes → Type 0
  Climbs d m fr leaf path =
      (fr' : Bytes) × (consistency_loop sha256 (walk m (length d - 1) fr leaf) path
        ≡ some (walk 0 0 fr' (tree_hash sha256 d)))

  module _ (d : List Bytes) (m : ℕ) (fr leaf : Bytes) (path : List Bytes) (h : 2 ≤ length d) where
    abbrev cut : ℕ
    cut = split (length d)

    bounds : IsSplit (length d) cut
    bounds = split-IsSplit (length d) h

    left_part : length (take cut d) ≡ cut
    left_part = let lt = bounds.below in omega (arith, length-take cut d)

    right_part : length (drop cut d) ≡ length d - cut
    right_part = length-drop cut d

    Climbs-left :
        m < cut
        → Climbs (take cut d) m fr leaf path
        → Climbs d m fr leaf (path ++ tree_hash sha256 (drop cut d) ∷ [])
    unfolding Climbs
    Climbs-left lt (fr', run) =
        let power = bounds.power in
        let low = bounds.below in
        let high = bounds.reaches in
        let run' = rw left_part at run in
        let lifted =
          lift_left sha256 path bounds.exponent m (cut - 1) (length d - 1) fr leaf _ (omega arith)
            (omega arith) (omega arith) (omega arith) run' refl in
        (
          fr',
          loop-append sha256 _ path _ _ lifted
              ∙ finish_left sha256 _ _ _
              ∙ rw (tree_hash-node sha256 d h),
        )

    Climbs-right :
        cut ≤ m
        → m < length d
        → Climbs (drop cut d) (m - cut) fr leaf path
        → Climbs d m fr leaf (path ++ tree_hash sha256 (take cut d) ∷ [])
    unfolding Climbs
    Climbs-right le lt (fr', run) =
        let power = bounds.power in
        let low = bounds.below in
        let high = bounds.reaches in
        let run' = rw right_part at run in
        let (k, lifted) =
          lift_right sha256 path bounds.exponent (m - cut) (length d - cut - 1) fr leaf _
            (omega arith) (omega arith) run' refl in
        let node : m - cut + pow2 bounds.exponent ≡ m = omega arith in
        let last : length d - cut - 1 + pow2 bounds.exponent ≡ length d - 1 = omega arith in
        let lifted' = rw (node, last) at lifted in
        (
          hash_children sha256 (tree_hash sha256 (take cut d)) fr',
          loop-append sha256 _ path _ _ lifted'
              ∙ finish_right sha256 k _ _ _
              ∙ rw (tree_hash-node sha256 d h),
        )

  path_loop-Climbs :
      (fuel : ℕ) (d : List Bytes) (m : ℕ) (fr leaf : Bytes)
      → length d ≤ fuel
      → m < length d
      → get_elem? d m ≡ some leaf
      → Climbs d m fr (hash_leaf sha256 leaf) (path_loop sha256 fuel d m)
  path_loop-Climbs zero d m fr leaf h lt at = absurd (omega arith)
  path_loop-Climbs (suc fuel) [] m fr leaf h lt at = absurd (omega arith)
  path_loop-Climbs (suc fuel) (x ∷ []) zero fr leaf h lt at =
      unfold Climbs path_loop consistency_loop in (fr, rw (tree_hash-leaf sha256 x) (cc at))
  path_loop-Climbs (suc fuel) (x ∷ []) (suc m) fr leaf h lt at = absurd (omega arith)
  path_loop-Climbs (suc fuel) (x ∷ y ∷ rest) m fr leaf h lt at =
      let d : List Bytes = x ∷ y ∷ rest in
      let k = split (length d) in
      let many : 2 ≤ length d = omega arith in
      let s = bounds d m fr leaf [] many in
      let lo = s.below in
      let hi = s.reaches in
      elim (dec_lt m k) [
        | yes below ↦ rw (path_loop-left fuel d m many below) (
            Climbs-left d m fr (hash_leaf sha256 leaf) _ many below (
              path_loop-Climbs fuel (take k d) m fr leaf (omega (arith, length-take k d))
                (omega (arith, length-take k d)) (get_elem?-take k d m below ∙ at)))
        | no above ↦ rw (path_loop-right fuel d m many (omega arith)) (
            Climbs-right d m fr (hash_leaf sha256 leaf) _ many (omega arith) lt (
              path_loop-Climbs fuel (drop k d) (m - k) fr leaf (omega (arith, length-drop k d))
                (omega (arith, length-drop k d)) (get_elem?-drop k d m (omega arith) ∙ at)))
      ]

  get_elem?-lt : (d : List Bytes) (m : ℕ) {leaf : Bytes} → get_elem? d m ≡ some leaf → m < length d
  get_elem?-lt [] m at = cc
  get_elem?-lt (x ∷ d) zero at = omega arith
  get_elem?-lt (x ∷ d) (suc m) at = omega (arith, get_elem?-lt d m at)

  accept :
      (m n : ℕ) (leaf_hash root fr fr' : Bytes) (path : List Bytes)
      → m < n
      → consistency_loop sha256 (walk m (n - 1) fr leaf_hash) path ≡ some (walk 0 0 fr' root)
      → verify_inclusion sha256 m n leaf_hash root path ≡ true
  unfolding verify_inclusion
  accept m n leaf_hash root fr fr' path lt run =
      let inside : leb n m ≡ false = ground arith in
      let loop = inclusion_loop-forget (walk m (n - 1) fr leaf_hash) path ∙ ap forget run in
      rw (inside, loop) (bytes_eq_refl root)

  -- For every leaf of a log the generator returns a path, and the verifier accepts that path for
  -- the leaf's hash, its index, the size of the log and the root of its tree.
  pub verify_inclusion-inclusion_proof :
      (d : List Bytes) (m : ℕ) (leaf : Bytes)
      → get_elem? d m ≡ some leaf
      → (path : List Bytes) × (inclusion_proof sha256 d m ≡ some path)
        × (verify_inclusion sha256 m (length d) (hash_leaf sha256 leaf) (tree_hash sha256 d) path
            ≡ true)
  unfolding inclusion_proof Climbs
  verify_inclusion-inclusion_proof d m leaf at =
      let lt = get_elem?-lt d m at in
      let inside : leb (length d) m ≡ false = ground arith in
      let (fr', run) = path_loop-Climbs (length d) d m [] leaf (omega arith) lt at in
      (
        path_loop sha256 (length d) d m,
        rw inside,
        accept m (length d) (hash_leaf sha256 leaf) (tree_hash sha256 d) [] fr' _ lt run,
      )
