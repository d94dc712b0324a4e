-- ===== src/Ledger/Merkle/Binding.antt =====
-- The hashes bind what they are computed from: two inputs with one hash are equal, or a collision
-- of SHA-256 is at hand.
use decern.Base.{
  ℕ, zero, suc, ◌/◌, ◌≤◌, ◌≡◌, ◌≢◌, refl, sym, ap, ap₂, ◌∙◌, arith, ◌==◌, Bool-cases, ◌⊎◌, inl, inr,
  some, List, [], ◌∷◌, ◌++◌, All, Bytes, bytes_eq, bytes_eq_iff, bytes_eq_sound, append_inj, length,
  take, drop, length-take, length-drop,
}
use decern.Ledger.Merkle.{
  ConsistencyWalk, is_right, climb_right, split, hash_leaf, hash_children, tree_hash,
  tree_hash_loop, consistency_loop,
}
use decern.Ledger.Merkle.Split.{split-IsSplit}
use decern.Ledger.Merkle.Tree.{tree_hash-node, tree_hash-leaf}
use decern.Ledger.Merkle.Walk.{walk, step_end, step_right, step_left, loop_next, loop_stop}

-- Two inputs that the hash does not tell apart.
abbrev pub Collision : (Bytes → Bytes) → Type 0
Collision sha256 = (x : Bytes) × (y : Bytes) × (x ≢ y) × (sha256 x ≡ sha256 y)

-- A digest has 32 bytes.
abbrev pub IsDigest : Bytes → Type 0
IsDigest b = length b ≡ 32

module _ (sha256 : Bytes → Bytes) where
  pub sha256_inj : (x y : Bytes) → sha256 x ≡ sha256 y → (x ≡ y) ⊎ Collision sha256
  sha256_inj x y e = elim (Bool-cases (bytes_eq x y)) [
    | inl same ↦ inl (bytes_eq_sound x y same)
    | inr differ ↦ inr (x, y, (λ p. ground (arith, bytes_eq_iff x y)), e)
  ]

  pub hash_leaf_inj :
      (x y : Bytes) → hash_leaf sha256 x ≡ hash_leaf sha256 y → (x ≡ y) ⊎ Collision sha256
  unfolding hash_leaf
  hash_leaf_inj x y e = elim (sha256_inj (0 ∷ x) (0 ∷ y) e) [
    | inl p ↦ inl (ground arith)
    | inr c ↦ inr c
  ]

  pub hash_children_inj :
      (l l' r r' : Bytes)
      → length l ≡ length l'
      → hash_children sha256 l r ≡ hash_children sha256 l' r'
      → ((l ≡ l') × (r ≡ r')) ⊎ Collision sha256
  unfolding hash_children
  hash_children_inj l l' r r' h e = elim (sha256_inj (1 ∷ l ++ r) (1 ∷ l' ++ r') e) [
    | inl p ↦ inl (append_inj l l' r r' h (ground arith))
    | inr c ↦ inr c
  ]

  module _ (digest_size : (b : Bytes) → IsDigest (sha256 b)) where
    pub hash_children-IsDigest : (l r : Bytes) → IsDigest (hash_children sha256 l r)
    unfolding hash_children
    hash_children-IsDigest l r = digest_size (1 ∷ l ++ r)

    tree_hash_loop-IsDigest : (fuel : ℕ) (d : List Bytes) → IsDigest (tree_hash_loop sha256 fuel d)
    unfolding tree_hash_loop hash_leaf
    tree_hash_loop-IsDigest zero d = digest_size []
    tree_hash_loop-IsDigest (suc fuel) [] = digest_size []
    tree_hash_loop-IsDigest (suc fuel) (x ∷ []) = digest_size (0 ∷ x)
    tree_hash_loop-IsDigest (suc fuel) (x ∷ y ∷ d) = hash_children-IsDigest _ _

    pub tree_hash-IsDigest : (d : List Bytes) → IsDigest (tree_hash sha256 d)
    unfolding tree_hash
    tree_hash-IsDigest d = tree_hash_loop-IsDigest (length d) d

    parts_eq : (k : ℕ) (d d' : List Bytes) → take k d ≡ take k d' → drop k d ≡ drop k d' → d ≡ d'
    parts_eq zero d d' p q = q
    parts_eq (suc k) [] [] p q = refl
    parts_eq (suc k) [] (y ∷ d') p q = cc
    parts_eq (suc k) (x ∷ d) [] p q = cc
    parts_eq (suc k) (x ∷ d) (y ∷ d') p q = ground (arith, parts_eq k d d')

    tree_hash_inj_below :
        (fuel : ℕ) (d d' : List Bytes)
        → length d ≤ fuel
        → length d ≡ length d'
        → tree_hash sha256 d ≡ tree_hash sha256 d'
        → (d ≡ d') ⊎ Collision sha256
    tree_hash_inj_below fuel [] [] h p e = inl refl
    tree_hash_inj_below fuel [] (y ∷ d') h p e = absurd (omega arith)
    tree_hash_inj_below fuel (x ∷ d) [] h p e = absurd (omega arith)
    tree_hash_inj_below fuel (x ∷ []) (y ∷ []) h p e =
        elim (hash_leaf_inj x y (sym (tree_hash-leaf sha256 x) ∙ e ∙ tree_hash-leaf sha256 y)) [
          | inl q ↦ inl (ap (λ (t : Bytes). t ∷ []) q)
          | inr c ↦ inr c
        ]
    tree_hash_inj_below fuel (x ∷ []) (y ∷ y' ∷ d') h p e = absurd (omega arith)
    tree_hash_inj_below fuel (x ∷ x' ∷ d) (y ∷ []) h p e = absurd (omega arith)
    tree_hash_inj_below zero (x ∷ x' ∷ d) (y ∷ y' ∷ d') h p e = absurd (omega arith)
    tree_hash_inj_below (suc fuel) (x ∷ x' ∷ r) (y ∷ y' ∷ r') h p e =
        let d : List Bytes = x ∷ x' ∷ r in
        let d' : List Bytes = y ∷ y' ∷ r' in
        let k = split (length d) in
        let s = split-IsSplit (length d) (omega arith) in
        let low = s.below in
        let high = s.reaches in
        let node = tree_hash-node sha256 d (omega arith) in
        let node' = rw (← p) at (tree_hash-node sha256 d' (omega arith)) in
        elim (hash_children_inj _ _ _ _
          (tree_hash-IsDigest (take k d) ∙ sym (tree_hash-IsDigest (take k d')))
          (sym node ∙ e ∙ node')) [
            | inr c ↦ inr c
            | inl (left, right) ↦
                elim (tree_hash_inj_below fuel (take k d) (take k d')
                  (omega (arith, length-take k d))
                  (omega (arith, length-take k d, length-take k d')) left) [
                    | inr c ↦ inr c
                    | inl lefts ↦
                        elim (tree_hash_inj_below fuel (drop k d) (drop k d')
                          (omega (arith, length-drop k d))
                          (omega (arith, length-drop k d, length-drop k d')) right) [
                            | inr c ↦ inr c
                            | inl rights ↦ inl (parts_eq k d d' lefts rights)
                          ]
                  ]
          ]

    -- Two logs of one size whose trees have one root are equal, or a collision of SHA-256 is at hand.
    pub tree_hash_inj :
        (d d' : List Bytes)
        → length d ≡ length d'
        → tree_hash sha256 d ≡ tree_hash sha256 d'
        → (d ≡ d') ⊎ Collision sha256
    tree_hash_inj d d' = tree_hash_inj_below (length d) d d' (omega arith)

    ended_or_stuck :
        (f s : ℕ) (fr sr c : Bytes) (path : List Bytes) {w : ConsistencyWalk}
        → s ≡ 0
        → consistency_loop sha256 (walk f s fr sr) (c ∷ path) ≡ some w
        → ⊥
    ended_or_stuck f s fr sr c path z run =
        cc (run, loop_stop sha256 (walk f s fr sr) c path (step_end sha256 f s fr sr c z))

    -- Two walks from the same indices that reach one root started from one hash and took one path.
    pub loop_inj :
        (work work' : List Bytes) (f s : ℕ) (fr fr' sr sr' : Bytes) (w w' : ConsistencyWalk)
        → All IsDigest work
        → All IsDigest work'
        → IsDigest sr
        → IsDigest sr'
        → consistency_loop sha256 (walk f s fr sr) work ≡ some w
        → w.sn ≡ 0
        → consistency_loop sha256 (walk f s fr' sr') work' ≡ some w'
        → w'.sn ≡ 0
        → w.sr ≡ w'.sr
        → ((sr ≡ sr') × (work ≡ work')) ⊎ Collision sha256
    loop_inj [] [] f s fr fr' sr sr' w w' a a' q q' run end run' end' e =
        inl (unfold consistency_loop in ground arith)
    loop_inj [] (c ∷ work') f s fr fr' sr sr' w w' a a' q q' run end run' end' e =
        absurd (ended_or_stuck f s fr' sr' c work' (unfold consistency_loop in ground arith) run')
    loop_inj (c ∷ work) [] f s fr fr' sr sr' w w' a a' q q' run end run' end' e =
        absurd (ended_or_stuck f s fr sr c work (unfold consistency_loop in ground arith) run)
    loop_inj (c ∷ work) (c' ∷ work') f s fr fr' sr sr' w w' a a' q q' run end run' end' e =
        elim (Bool-cases (s == 0)) [
          | inl z ↦ absurd (ended_or_stuck f s fr sr c work (ground arith) run)
          | inr nz ↦
              let more : s ≢ 0 = ground arith in
              elim (Bool-cases (is_right f s)) [
                | inl right ↦
                    let here = step_right sha256 f s fr sr c more right in
                    let there = step_right sha256 f s fr' sr' c' more right in
                    elim (loop_inj work work' (climb_right f s).0 (climb_right f s).1
                      (hash_children sha256 c fr) (hash_children sha256 c' fr')
                      (hash_children sha256 c sr) (hash_children sha256 c' sr') w w' a.1 a'.1
                      (hash_children-IsDigest c sr) (hash_children-IsDigest c' sr')
                      (sym (loop_next sha256 _ c work here) ∙ run) end
                      (sym (loop_next sha256 _ c' work' there) ∙ run') end' e) [
                        | inr x ↦ inr x
                        | inl (top, rest) ↦
                            elim (hash_children_inj c c' sr sr' (a.0 ∙ sym a'.0) top) [
                              | inr x ↦ inr x
                              | inl (p, r) ↦ inl (r, ap₂ ◌∷◌ p rest)
                            ]
                      ]
                | inr left ↦
                    let here = step_left sha256 f s fr sr c more left in
                    let there = step_left sha256 f s fr' sr' c' more left in
                    elim (loop_inj work work' (f / 2) (s / 2) fr fr' (hash_children sha256 sr c)
                      (hash_children sha256 sr' c') w w' a.1 a'.1 (hash_children-IsDigest sr c)
                      (hash_children-IsDigest sr' c') (sym (loop_next sha256 _ c work here) ∙ run)
                      end (sym (loop_next sha256 _ c' work' there) ∙ run') end' e) [
                        | inr x ↦ inr x
                        | inl (top, rest) ↦ elim (hash_children_inj sr sr' c c' (q ∙ sym q') top) [
                          | inr x ↦ inr x
                          | inl (r, p) ↦ inl (r, ap₂ ◌∷◌ p rest)
                        ]
                      ]
              ]
        ]
