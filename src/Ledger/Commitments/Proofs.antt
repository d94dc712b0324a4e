-- ===== src/Ledger/Commitments/Proofs.antt =====
-- The proofs that the ledger hands out, as an outside verifier reads them: the hexadecimal fields decode to a
-- leaf and a path that the verifiers of the tree accept.
use decern.Base.{
  ℕ, ◌<◌, ◌≤◌, ◌≡◌, refl, true, some, List, [], ◌∷◌, map, length, get_elem?, get_elem?-of_lt, take,
  All, Bytes,
}
use decern.Ledger.Record.{Crates, HashLaws, ok}
use decern.Ledger.Merkle.{hash_leaf, tree_hash, verify_inclusion, verify_consistency}
use decern.Ledger.Merkle.Inclusion.{verify_inclusion-inclusion_proof}
use decern.Ledger.Merkle.Consistency.{verify_consistency-consistency_proof}
use decern.Ledger.Commitments.{
  InclusionProof, ConsistencyProof, proof_over, inclusion_proofs_over, extension_over,
}

module _ (c : Crates) where
  -- Every text decodes.
  abbrev pub Decodes : List Bytes → List Bytes → Type 0
  Decodes [] [] = Unit
  Decodes [] (b ∷ bs) = ⊥
  Decodes (t ∷ ts) [] = ⊥
  Decodes (t ∷ ts) (b ∷ bs) = (c.hex_decode t ≡ some b) × Decodes ts bs

  -- What a verifier makes of an inclusion proof against the tree of `leaves`.
  pub record Convinces (leaves : List Bytes) (seq : ℕ) (p : InclusionProof) : Type 0 where
    pub leaf : Bytes
    pub path : List Bytes
    pub index : p.leaf_index ≡ seq
    pub size : p.tree_size ≡ length leaves
    pub there : get_elem? leaves seq ≡ some leaf
    pub leaf_text : c.hex_decode p.leaf_data ≡ some leaf
    pub path_text : Decodes p.audit_path path
    pub accepted :
        verify_inclusion c.sha256 p.leaf_index p.tree_size
          (hash_leaf c.sha256 leaf)
          (tree_hash c.sha256 leaves)
          path
        ≡ true

  -- One proof for each index, in order.
  pub data AllConvince (leaves : List Bytes) : List ℕ → List InclusionProof → Type 0 where
    done : AllConvince leaves [] []
    next :
        {seq : ℕ} {seqs : List ℕ} {p : InclusionProof} {ps : List InclusionProof}
        → Convinces leaves seq p
        → AllConvince leaves seqs ps
        → AllConvince leaves (seq ∷ seqs) (p ∷ ps)

module _ (c : Crates) (laws : HashLaws c) where
  Decodes-map : (path : List Bytes) → Decodes c (map c.hex_encode path) path
  Decodes-map [] = tt
  Decodes-map (b ∷ path) = (laws.hex_inverse b, Decodes-map path)

  proof_over-Convinces :
      (leaves : List Bytes) (seq : ℕ)
      → seq < length leaves
      → (p : InclusionProof) × (proof_over c leaves seq ≡ ok p) × Convinces c leaves seq p
  unfolding proof_over
  proof_over-Convinces leaves seq lt =
      let (leaf, at) = get_elem?-of_lt leaves seq lt in
      let (path, made, good) = verify_inclusion-inclusion_proof c.sha256 leaves seq leaf at in
      (
        record {
          leaf_index = seq;
          tree_size = length leaves;
          leaf_data = c.hex_encode leaf;
          audit_path = map c.hex_encode path;
        },
        rw (proof_over, made, at) refl,
        record {
          leaf = leaf;
          path = path;
          index = refl;
          size = refl;
          there = at;
          leaf_text = laws.hex_inverse leaf;
          path_text = Decodes-map path;
          accepted = good;
        },
      )

  -- For indices that are all below the number of leaves, `inclusion_proofs_over` returns one proof for each
  -- index, in their order: its fields decode to the leaf at the index and to a path with which the
  -- verifier accepts the leaf against the root of the tree.
  pub inclusion_proofs_over-AllConvince :
      (leaves : List Bytes) (seqs : List ℕ)
      → All (λ seq. seq < length leaves) seqs
      → (ps : List InclusionProof) × (inclusion_proofs_over c leaves seqs ≡ ok ps)
        × AllConvince c leaves seqs ps
  unfolding inclusion_proofs_over
  inclusion_proofs_over-AllConvince leaves [] h = ([], refl, AllConvince.done)
  inclusion_proofs_over-AllConvince leaves (seq ∷ seqs) h =
      let (p, made, good) = proof_over-Convinces leaves seq h.0 in
      let (ps, rest, all) = inclusion_proofs_over-AllConvince leaves seqs h.1 in
      (p ∷ ps, rw (inclusion_proofs_over, made, rest) refl, AllConvince.next good all)

  -- For a size from 1 to the number of leaves, `consistency_proof` over the leaves returns a proof whose fields
  -- decode to a path with which the verifier accepts the root of the first leaves, at that size, against
  -- the root of all.
  pub extension_over-verified :
      (leaves : List Bytes) (first_size : ℕ)
      → 0 < first_size
      → first_size ≤ length leaves
      → (p : ConsistencyProof) × (path : List Bytes) × (extension_over c leaves first_size ≡ ok p)
        × Decodes c p.proof path
        × (verify_consistency c.sha256 p.first_size p.second_size
              (tree_hash c.sha256 (take first_size leaves))
              (tree_hash c.sha256 leaves)
              path
            ≡ true)
  unfolding extension_over
  extension_over-verified leaves first_size pos le =
      let (path, made, good) =
        verify_consistency-consistency_proof c.sha256 leaves first_size pos le in
      (
        record {
          first_size = first_size;
          second_size = length leaves;
          proof = map c.hex_encode path;
        },
        path,
        rw (extension_over, made) refl,
        Decodes-map path,
        good,
      )
