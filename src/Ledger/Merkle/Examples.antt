-- ===== src/Ledger/Merkle/Examples.antt =====
-- A log of five leaves under a small stand-in for SHA-256, and the properties of the tree at it.
use decern.Base.{
  ℕ, zero, suc, ◌+◌, ◌*◌, ◌%◌, ◌<◌, ◌≤◌, ◌≡◌, refl, true, false, ◌⊎◌, some, List, [], ◌∷◌, length,
  take, drop, get_elem?, All, Bytes, bytes_eq, arith,
}
use decern.Ledger.Merkle.{
  hash_leaf, tree_hash, inclusion_proof, consistency_proof, verify_inclusion, verify_consistency,
}
use decern.Ledger.Merkle.Binding.{Collision, IsDigest}
use decern.Ledger.Merkle.Inclusion.{verify_inclusion-inclusion_proof}
use decern.Ledger.Merkle.Consistency.{verify_consistency-consistency_proof}
use decern.Ledger.Merkle.Soundness.{
  verify_inclusion_sound, verify_consistency_sound, verify_consistency-prefix,
}

-- A list cut or filled up to a length.
abbrev pub fit : ℕ → Bytes → Bytes
fit zero b = []
fit (suc n) [] = 0 ∷ fit n []
fit (suc n) (x ∷ b) = x ∷ fit n b

pub length-fit : (n : ℕ) (b : Bytes) → length (fit n b) ≡ n
length-fit zero b = refl
length-fit (suc n) [] = omega (arith, length-fit n [])
length-fit (suc n) (x ∷ b) = omega (arith, length-fit n b)

-- A polynomial of the bytes.
abbrev pub mix : ℕ → Bytes → ℕ
mix acc [] = acc
mix acc (x ∷ b) = mix ((acc * 257 + x + 1) % 1000003) b

abbrev pub digest : Bytes → Bytes
digest b = fit 32 (mix 7 b ∷ length b ∷ [])

pub digest_size : (b : Bytes) → IsDigest (digest b)
digest_size b = length-fit 32 (mix 7 b ∷ length b ∷ [])

abbrev five : List Bytes
five = (1 ∷ []) ∷ (2 ∷ []) ∷ (3 ∷ []) ∷ (4 ∷ []) ∷ (5 ∷ []) ∷ []

abbrev audit : List Bytes
audit = hash_leaf digest (4 ∷ []) ∷ tree_hash digest (take 2 five) ∷ hash_leaf digest (5 ∷ []) ∷ []

audit-sizes : All IsDigest audit
unfolding hash_leaf tree_hash
audit-sizes = (refl, (refl, (refl, tt)))

audit-generated : inclusion_proof digest five 2 ≡ some audit
unfolding inclusion_proof tree_hash
audit-generated = refl

audit-accepted :
    verify_inclusion digest 2 5 (hash_leaf digest (3 ∷ [])) (tree_hash digest five) audit ≡ true
unfolding verify_inclusion tree_hash hash_leaf bytes_eq
audit-accepted = refl

audit-other_leaf :
    verify_inclusion digest 2 5 (hash_leaf digest (9 ∷ [])) (tree_hash digest five) audit ≡ false
unfolding verify_inclusion tree_hash hash_leaf bytes_eq
audit-other_leaf = refl

third-size : IsDigest (hash_leaf digest (3 ∷ []))
unfolding hash_leaf
third-size = refl

abbrev bridge : List Bytes
bridge =
    hash_leaf digest (3 ∷ [])
    ∷ hash_leaf digest (4 ∷ [])
    ∷ tree_hash digest (take 2 five)
    ∷ hash_leaf digest (5 ∷ [])
    ∷ []

bridge-sizes : All IsDigest bridge
unfolding hash_leaf tree_hash
bridge-sizes = (refl, (refl, (refl, (refl, tt))))

bridge-generated : consistency_proof digest five 3 ≡ some bridge
unfolding consistency_proof tree_hash
bridge-generated = refl

bridge-accepted :
    verify_consistency digest 3 5 (tree_hash digest (take 3 five)) (tree_hash digest five) bridge
    ≡ true
unfolding verify_consistency tree_hash hash_leaf bytes_eq
bridge-accepted = refl

bridge-other_log :
    verify_consistency digest 3 5 (tree_hash digest (drop 2 five)) (tree_hash digest five) bridge
    ≡ false
unfolding verify_consistency tree_hash hash_leaf bytes_eq
bridge-other_log = refl

third_root-size : IsDigest (tree_hash digest (take 3 five))
unfolding tree_hash
third_root-size = refl

verify_consistency-prefix_example : (take 3 five ≡ take 3 five) ⊎ Collision digest
verify_consistency-prefix_example =
    verify_consistency-prefix digest digest_size (take 3 five) five bridge bridge-sizes
      bridge-accepted

verify_consistency_sound_example :
    ((0 < 3) × (3 ≤ 5) × (tree_hash digest (take 3 five) ≡ tree_hash digest (take 3 five)))
    ⊎ Collision digest
verify_consistency_sound_example =
    verify_consistency_sound digest digest_size five 3 (tree_hash digest (take 3 five)) bridge
      third_root-size bridge-sizes bridge-accepted

verify_inclusion_sound_example :
    ((leaf : Bytes) × (get_elem? five 2 ≡ some leaf)
      × (hash_leaf digest (3 ∷ []) ≡ hash_leaf digest leaf)
      × (inclusion_proof digest five 2 ≡ some audit))
    ⊎ Collision digest
verify_inclusion_sound_example =
    verify_inclusion_sound digest digest_size five 2 (hash_leaf digest (3 ∷ [])) audit third-size
      audit-sizes audit-accepted

verify_inclusion-inclusion_proof_example :
    (path : List Bytes) × (inclusion_proof digest five 2 ≡ some path)
    × (verify_inclusion digest 2 5 (hash_leaf digest (3 ∷ [])) (tree_hash digest five) path ≡ true)
verify_inclusion-inclusion_proof_example =
    verify_inclusion-inclusion_proof digest five 2 (3 ∷ []) refl

verify_consistency-consistency_proof_example :
    (path : List Bytes) × (consistency_proof digest five 3 ≡ some path)
    × (verify_consistency digest 3 5 (tree_hash digest (take 3 five)) (tree_hash digest five) path
        ≡ true)
verify_consistency-consistency_proof_example =
    verify_consistency-consistency_proof digest five 3 (omega arith) (omega arith)
