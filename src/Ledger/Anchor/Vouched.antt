-- ===== src/Ledger/Anchor/Vouched.antt =====
-- The keys that vouch for an anchor: those under which its signature verifies.
use decern.Base.{
  ◌≡◌, inl, inr, refl, sym, ap, ◌∙◌, true, some, List, [], ◌∷◌, Bytes, ◌==◌, ==_iff, &&-elim,
  length, Bool-cases, Option-cases, Among, here, there,
}
use decern.Ledger.Record.{Crates}
use decern.Ledger.Anchor.{Checkpoint, checkpoint_bytes, verify_checkpoint_sig, any_vouches}

module _ (c : Crates) where
  -- The anchor's signature is 64 bytes in base64, and verifies under this key for the anchor's three fields.
  pub record Signs (cp : Checkpoint) (key : Bytes) : Type 0 where
    pub sig : Bytes
    pub decoded : c.base64_decode cp.sig_b64 ≡ some sig
    pub sized : length sig ≡ 64
    pub verifies : c.verify_strict key (checkpoint_bytes cp.root cp.count cp.ts_ms) sig ≡ true

  abbrev pub SignedUnder : List Bytes → Checkpoint → Type 0
  SignedUnder verifiers cp = (key : Bytes) × Among key verifiers × Signs cp key

  verify_checkpoint_sig-Signs :
      (cp : Checkpoint) (key : Bytes) → verify_checkpoint_sig c cp key ≡ true → Signs cp key
  unfolding verify_checkpoint_sig
  verify_checkpoint_sig-Signs cp key h = elim (Option-cases (c.base64_decode cp.sig_b64)) [
    | inl none_there ↦ absurd (cc (rw (verify_checkpoint_sig, none_there) at h))
    | inr (sig, e) ↦
        let (size, good) = &&-elim (length sig == 64) _ (rw (verify_checkpoint_sig, e) at h) in
        record { sig = sig; decoded = e; sized = (==_iff _ _).0 size; verifies = good }
  ]

  Signs-verify_checkpoint_sig :
      (cp : Checkpoint) (key : Bytes) → Signs cp key → verify_checkpoint_sig c cp key ≡ true
  unfolding verify_checkpoint_sig
  Signs-verify_checkpoint_sig cp key s =
      let size : (length s.sig == 64) ≡ true = (==_iff _ _).1 s.sized in
      rw (verify_checkpoint_sig, s.decoded, size) s.verifies

  pub any_vouches-SignedUnder :
      (verifiers : List Bytes) (cp : Checkpoint)
      → any_vouches c verifiers cp ≡ true
      → SignedUnder verifiers cp
  unfolding any_vouches
  any_vouches-SignedUnder [] cp h = cc
  any_vouches-SignedUnder (k ∷ verifiers) cp h = elim (Bool-cases (verify_checkpoint_sig c cp k)) [
    | inl good ↦ (k, here refl, verify_checkpoint_sig-Signs cp k good)
    | inr bad ↦
        let (key, among, signs) = any_vouches-SignedUnder verifiers cp (rw bad at h) in
        (key, there among, signs)
  ]

  pub SignedUnder-any_vouches :
      (verifiers : List Bytes) (cp : Checkpoint) (key : Bytes)
      → Among key verifiers
      → Signs cp key
      → any_vouches c verifiers cp ≡ true
  unfolding any_vouches
  SignedUnder-any_vouches [] cp key m s = elim m [ ]
  SignedUnder-any_vouches (k ∷ verifiers) cp key (here e) s =
      let good : verify_checkpoint_sig c cp k ≡ true =
        ap (verify_checkpoint_sig c cp) (sym e) ∙ Signs-verify_checkpoint_sig cp key s in
      rw (any_vouches, good) refl
  SignedUnder-any_vouches (k ∷ verifiers) cp key (there m) s =
      let rest = SignedUnder-any_vouches verifiers cp key m s in
      elim (Bool-cases (verify_checkpoint_sig c cp k)) [
        | inl good ↦ rw (any_vouches, good) refl
        | inr bad ↦ rw (any_vouches, bad) rest
      ]
