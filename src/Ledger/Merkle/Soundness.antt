-- ===== src/Ledger/Merkle/Soundness.antt =====
-- What an accepted proof shows, whoever made it.
use native.Mathlib.Decide.{dec_lt}
use decern.Base.{
  ℕ, ◌-◌, ◌≤◌, ◌<◌, ◌≡◌, sym, ap, ◌∙◌, true, arith, ◌⊎◌, inl, inr, some, List, [], All, Bytes,
  length, take, get_elem?, get_elem?-of_lt, length-take, take-of_length_le, leb, false, subst,
  Bool-cases, ap₂, ltb, ◌||◌, ◌==◌, ℕ,
}
use decern.Ledger.Merkle.{
  hash_leaf, tree_hash, work_path, is_power_of_two, shift_ones, path_loop, subproof_loop,
  consistency_loop, inclusion_proof, consistency_proof, verify_inclusion, verify_consistency,
}
use decern.Ledger.Merkle.Inclusion.{verify_inclusion-inclusion_proof}
use decern.Ledger.Merkle.Consistency.{verify_consistency-consistency_proof}
use decern.Ledger.Merkle.Walk.{walk}
use decern.Ledger.Merkle.Binding.{Collision, IsDigest, tree_hash-IsDigest, tree_hash_inj, loop_inj}
use decern.Ledger.Merkle.Accepted.{
  Consistent, verify_inclusion-Included, verify_consistency-cases, path_loop-IsDigest,
  subproof_loop-IsDigest,
}

module _ (sha256 : Bytes → Bytes) (digest_size : (b : Bytes) → IsDigest (sha256 b)) where
  inclusion_proof-IsDigest :
      (d : List Bytes) (m : ℕ) {path : List Bytes}
      → inclusion_proof sha256 d m ≡ some path
      → All IsDigest path
  unfolding inclusion_proof
  inclusion_proof-IsDigest d m {path} e = elim (dec_lt m (length d)) [
    | no out ↦ let late : leb (length d) m ≡ true = ground arith in absurd (cc (rw late at e))
    | yes lt ↦
        let early : leb (length d) m ≡ false = ground arith in
        let same : path_loop sha256 (length d) d m ≡ path = cc (rw early at e) in
        subst (All IsDigest) same (path_loop-IsDigest sha256 digest_size (length d) d m)
  ]

  -- If the verifier accepts a leaf hash at index `m` of a log against the root of its tree, then the
  -- log has a leaf at `m`, the hash is that leaf's and the path is the one that the generator
  -- makes, or a collision of SHA-256 is at hand.
  pub verify_inclusion_sound :
      (d : List Bytes) (m : ℕ) (leaf_hash : Bytes) (path : List Bytes)
      → IsDigest leaf_hash
      → All IsDigest path
      → verify_inclusion sha256 m (length d) leaf_hash (tree_hash sha256 d) path ≡ true
      → ((leaf : Bytes) × (get_elem? d m ≡ some leaf)
          × (leaf_hash ≡ hash_leaf sha256 leaf)
          × (inclusion_proof sha256 d m ≡ some path))
        ⊎ Collision sha256
  unfolding hash_leaf
  verify_inclusion_sound d m leaf_hash path size sizes h =
      let given =
        verify_inclusion-Included sha256 m (length d) leaf_hash (tree_hash sha256 d) path h in
      let (leaf, at) = get_elem?-of_lt d m given.inside in
      let (honest, made, accepted) = verify_inclusion-inclusion_proof sha256 d m leaf at in
      let own =
        verify_inclusion-Included sha256 m (length d) (hash_leaf sha256 leaf) (tree_hash sha256 d)
          honest accepted in
      elim (loop_inj sha256 digest_size path honest m (length d - 1) [] [] leaf_hash
        (hash_leaf sha256 leaf) given.final own.final sizes (inclusion_proof-IsDigest d m made) size
        (digest_size _) given.run given.top own.run own.top (given.reaches ∙ sym own.reaches)) [
          | inr c ↦ inr c
          | inl (hashes, paths) ↦ inl (leaf, at, hashes, made ∙ ap some (sym paths))
        ]

  work_path-IsDigest :
      (m : ℕ) (root : Bytes) (path : List Bytes)
      → IsDigest root
      → All IsDigest path
      → All IsDigest (work_path m root path)
  work_path-IsDigest m root path p ps = elim (Bool-cases (is_power_of_two m)) [
    | inl power ↦ rw power (p, ps)
    | inr other ↦ rw other ps
  ]

  -- Two earlier roots that are consistent with one later root, at one pair of sizes, are equal.
  Consistent-unique :
      (m n : ℕ) (r r' root : Bytes) (path path' : List Bytes)
      → IsDigest r
      → IsDigest r'
      → All IsDigest path
      → All IsDigest path'
      → Consistent sha256 m n r root path
      → Consistent sha256 m n r' root path'
      → (r ≡ r') ⊎ Collision sha256
  Consistent-unique m n r r' root path path' q q' qs qs' a b =
      let da = subst (All IsDigest) a.shape (work_path-IsDigest m r path q qs) in
      let db = subst (All IsDigest) b.shape (work_path-IsDigest m r' path' q' qs') in
      let begin = shift_ones m (m - 1) (n - 1) in
      elim (loop_inj sha256 digest_size a.rest b.rest begin.0 begin.1 a.start b.start a.start
        b.start a.final b.final da.1 db.1 da.0 db.0 a.run a.top b.run b.top
        (a.second ∙ sym b.second)) [
          | inr c ↦ inr c
          | inl (starts, rests) ↦
              let same =
                ap₂
                  (λ (x : Bytes) (l : List Bytes).
                    consistency_loop sha256 (walk begin.0 begin.1 x x) l)
                  starts rests in
              let finals : a.final ≡ b.final = cc (sym a.run ∙ same ∙ b.run) in
              inl (sym a.first ∙ ap (λ w. w.fr) finals ∙ b.first)
        ]

  consistency_proof-IsDigest :
      (d : List Bytes) (m : ℕ) {path : List Bytes}
      → consistency_proof sha256 d m ≡ some path
      → All IsDigest path
  unfolding consistency_proof
  consistency_proof-IsDigest d m {path} e = elim (Bool-cases ((m == 0) || ltb (length d) m)) [
    | inl bad ↦ absurd (cc (rw bad at e))
    | inr good ↦
        let same : subproof_loop sha256 (length d) d m true ≡ path = cc (rw good at e) in
        subst (All IsDigest) same (subproof_loop-IsDigest sha256 digest_size (length d) d m true)
  ]

  -- If the verifier accepts an earlier size and root against the root of a log, then the size is from
  -- 1 to that of the log and the root is that of the log's first leaves, or a collision of SHA-256
  -- is at hand.
  pub verify_consistency_sound :
      (d : List Bytes) (m : ℕ) (first_root : Bytes) (path : List Bytes)
      → IsDigest first_root
      → All IsDigest path
      → verify_consistency sha256 m (length d) first_root (tree_hash sha256 d) path ≡ true
      → ((0 < m) × (m ≤ length d) × (first_root ≡ tree_hash sha256 (take m d))) ⊎ Collision sha256
  verify_consistency_sound d m first_root path size sizes h =
      let root = tree_hash sha256 d in
      let (pos, le, given) = verify_consistency-cases sha256 m (length d) first_root root path h in
      let (honest, made, accepted) = verify_consistency-consistency_proof sha256 d m pos le in
      let own_root = tree_hash sha256 (take m d) in
      let (_, _, own) =
        verify_consistency-cases sha256 m (length d) own_root root honest accepted in
      elim given [
        | inl (whole, same) ↦
            inl (pos, le, same ∙ ap (tree_hash sha256) (sym (take-of_length_le m d (omega arith))))
        | inr (part, c) ↦ elim own [
          | inl (whole, _) ↦ absurd (omega arith)
          | inr (_, c') ↦
              elim (Consistent-unique m (length d) first_root own_root root path honest size
                (tree_hash-IsDigest sha256 digest_size (take m d)) sizes
                (consistency_proof-IsDigest d m made) c c') [
                  | inl e ↦ inl (pos, le, e)
                  | inr x ↦ inr x
                ]
        ]
      ]

  -- If the verifier accepts the roots of two logs as consistent, at the sizes of the logs, then the
  -- first log is a prefix of the second, or a collision of SHA-256 is at hand.
  pub verify_consistency-prefix :
      (old d : List Bytes) (path : List Bytes)
      → All IsDigest path
      → verify_consistency sha256
          (length old)
          (length d)
          (tree_hash sha256 old)
          (tree_hash sha256 d)
          path
        ≡ true
      → (old ≡ take (length old) d) ⊎ Collision sha256
  verify_consistency-prefix old d path sizes h =
      elim (verify_consistency_sound d (length old) (tree_hash sha256 old) path
        (tree_hash-IsDigest sha256 digest_size old) sizes h) [
          | inr c ↦ inr c
          | inl (pos, le, roots) ↦
              tree_hash_inj sha256 digest_size old (take (length old) d)
                (omega (arith, length-take (length old) d)) roots
        ]
