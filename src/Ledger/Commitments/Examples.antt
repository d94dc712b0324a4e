-- ===== src/Ledger/Commitments/Examples.antt =====
-- Three leaves and the stand-ins of the log's examples, and the properties of the commitments at them.
use decern.Base.{◌≡◌, ◌≢◌, refl, true, arith, List, [], ◌∷◌, take, ◌++◌, Bytes, bytes_eq_refl}
use decern.Ledger.Record.{ok}
use decern.Ledger.Merkle.{tree_hash, verify_consistency}
use decern.Ledger.Merkle.Examples.{length-fit}
use decern.Ledger.Examples.{crates, laws, signature}
use decern.Ledger.Anchor.{checkpoint_bytes, tree_head_bytes}
use decern.Ledger.Commitments.{
  InclusionProof, ConsistencyProof, inclusion_proofs_over, extension_over,
}
use decern.Ledger.Commitments.Proofs.{
  Decodes, AllConvince, inclusion_proofs_over-AllConvince, extension_over-verified,
}
use decern.Ledger.Commitments.Signing.{SignLaws, checkpoint_bytes-tree_head_bytes}

sign_laws : SignLaws crates
sign_laws = record {
  base64_inverse = λ b. refl;
  signature_size = λ key message. length-fit 64 (key ++ message);
  signature_verifies = λ key message. bytes_eq_refl (signature key message);
}

abbrev three : List Bytes
three = (1 ∷ []) ∷ (2 ∷ []) ∷ (3 ∷ []) ∷ []

inclusion_proofs_over-AllConvince_example :
    (ps : List InclusionProof) × (inclusion_proofs_over crates three (2 ∷ 0 ∷ []) ≡ ok ps)
    × AllConvince crates three (2 ∷ 0 ∷ []) ps
inclusion_proofs_over-AllConvince_example =
    inclusion_proofs_over-AllConvince crates laws three (2 ∷ 0 ∷ [])
      (omega arith, (omega arith, tt))

extension_over-verified_example :
    (p : ConsistencyProof) × (path : List Bytes) × (extension_over crates three 2 ≡ ok p)
    × Decodes crates p.proof path
    × (verify_consistency crates.sha256 p.first_size p.second_size
          (tree_hash crates.sha256 (take 2 three))
          (tree_hash crates.sha256 three)
          path
        ≡ true)
extension_over-verified_example =
    extension_over-verified crates laws three 2 (omega arith) (omega arith)

checkpoint_bytes-tree_head_bytes_example :
    checkpoint_bytes (1 ∷ []) 3 4 ≢ tree_head_bytes (1 ∷ []) 3 4
checkpoint_bytes-tree_head_bytes_example =
    checkpoint_bytes-tree_head_bytes (1 ∷ []) (1 ∷ []) 3 3 4 4
