-- ===== src/Ledger/Commitments/Signing.antt =====
-- Signed commitments verify, and no signed bytes serve as both kinds of commitment.
use decern.Base.{
  ℕ, ◌≡◌, ◌≢◌, refl, Bool, true, false, ◌==◌, Option, none, some, length, ap, get_elem?, Bytes,
}
use decern.Ledger.Record.{Crates}
use decern.Ledger.Anchor.{
  checkpoint_bytes, tree_head_bytes, commitment_bytes, verify_checkpoint_sig,
}
use decern.Ledger.Commitments.{sign_checkpoint, sign_tree_head, verify_tree_head_sig}

-- Documented behaviour of base64 and Ed25519: what was encoded is decoded, a signature has 64 bytes, and a
-- signature verifies under the public key of the key that made it.
pub record SignLaws (c : Crates) : Type 0 where
  pub base64_inverse : (b : Bytes) → c.base64_decode (c.base64_encode b) ≡ some b
  pub signature_size : (key message : Bytes) → length (c.sign key message) ≡ 64
  pub signature_verifies :
      (key message : Bytes)
      → c.verify_strict (c.verifying_key key) message (c.sign key message) ≡ true

module _ (c : Crates) (laws : SignLaws c) where
  -- A checkpoint and a tree head that a key signed verify under its public key, whatever head, number and
  -- time they name.
  pub sign-verify :
      (key root : Bytes) (n ts_ms : ℕ)
      → (verify_checkpoint_sig c (sign_checkpoint c key root n ts_ms) (c.verifying_key key) ≡ true)
        × (verify_tree_head_sig c (sign_tree_head c key root n ts_ms) (c.verifying_key key) ≡ true)
  unfolding verify_checkpoint_sig verify_tree_head_sig sign_checkpoint sign_tree_head
  sign-verify key root n ts_ms =
      let cp = checkpoint_bytes root n ts_ms in
      let th = tree_head_bytes root n ts_ms in
      (
        rw
            (
              verify_checkpoint_sig,
              laws.base64_inverse (c.sign key cp),
              laws.signature_size key cp,
              laws.signature_verifies key cp,
            )
            refl,
        rw
            (
              verify_tree_head_sig,
              laws.base64_inverse (c.sign key th),
              laws.signature_size key th,
              laws.signature_verifies key th,
            )
            refl,
      )

-- Whether a byte is the letter "c".
abbrev has_c : Option ℕ → Bool
has_c none = false
has_c (some b) = b == 99

distinct : true ≢ false
distinct h = cc

-- The bytes that are signed for a checkpoint are never those that are signed for a tree head, so a signature
-- of one kind is made over other bytes than any of the other kind.
pub checkpoint_bytes-tree_head_bytes :
    (root merkle_root : Bytes) (count tree_size ts_ms ts_ms' : ℕ)
    → checkpoint_bytes root count ts_ms ≢ tree_head_bytes merkle_root tree_size ts_ms'
unfolding checkpoint_bytes tree_head_bytes commitment_bytes
checkpoint_bytes-tree_head_bytes root merkle_root count tree_size ts_ms ts_ms' h =
    distinct (ap (λ (b : Bytes). has_c (get_elem? b 14)) h)
