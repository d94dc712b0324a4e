-- ===== src/Ledger/Verify/Authentic.antt =====
-- With a keyring, an accepted log is signed throughout by its keys, each in one run.
use decern.Base.{
  ℕ, ◌+◌, ◌≡◌, refl, sym, ap, ◌∙◌, subst, true, ◌==◌, ==_iff, if◌then◌else◌, Bool-cases, inl, inr,
  Option, none, some, List, [], ◌∷◌, All, Bytes, length,
}
use decern.Ledger.Record.{
  Crates, RecordIn, SignerSpan, Why, Result, ok, err, >>=-eq-ok, ok_inj, chain_hash,
}
use decern.Ledger.Verify.{
  Scan, ReadWindow, VerifyReport, Checked, accepted, refused, at_seq, any_key, is_blank, signer_of,
  succeed, signature_bytes, check_signer, signers_after, verify_line, verify_loop, verify_lines,
  start_scan, report_of,
}
use decern.Ledger.Verify.Chain.{
  record_lines, record_lines-blank, record_lines-record, verify_line-Passed,
}
use decern.Ledger.Verify.Signers.{IsSuccession, succeed-IsSuccession, SignedBy, signer_of-verified}

module _ (c : Crates) where
  signature_bytes-size :
      (sig_b64 sig : Bytes)
      → signature_bytes c sig_b64 ≡ accepted sig
      → (c.base64_decode sig_b64 ≡ some sig) × (length sig ≡ 64)
  unfolding signature_bytes
  signature_bytes-size sig_b64 sig e = go (c.base64_decode sig_b64) e
    where
      go :
          (o : Option Bytes)
          → elim o [
            | none ↦ refused Why.unparseable_signature
            | some b ↦ if length b == 64 then accepted b else refused Why.signature_length
          ]
            ≡ accepted sig
          → (o ≡ some sig) × (length sig ≡ 64)
      go none q = cc
      go (some b) q = elim (Bool-cases (length b == 64)) [
        | inl good ↦
            let it : b ≡ sig = cc (rw good at q) in
            (ap some it, ap length (sym it) ∙ (==_iff _ _).0 good)
        | inr bad ↦ absurd (cc (rw bad at q))
      ]

  check_signer-SignedBy :
      (spans : List SignerSpan) (keys : List Bytes) (seq : ℕ) (hash sig_b64 : Bytes)
      (kid : Option Bytes) (spans' : List SignerSpan)
      → check_signer c spans keys seq hash sig_b64 kid ≡ accepted spans'
      → (signer : Bytes) × SignedBy c keys hash sig_b64 signer
        × (succeed spans seq signer ≡ accepted spans')
  unfolding check_signer
  check_signer-SignedBy spans keys seq hash sig_b64 kid spans' e =
      go (signature_bytes c sig_b64) refl e
    where
      signed :
          (sig : Bytes) (o : Checked Bytes)
          → signature_bytes c sig_b64 ≡ accepted sig
          → signer_of c keys hash sig kid ≡ o
          → elim o [ refused why ↦ refused why | accepted signer ↦ succeed spans seq signer ]
            ≡ accepted spans'
          → (signer : Bytes) × SignedBy c keys hash sig_b64 signer
            × (succeed spans seq signer ≡ accepted spans')
      signed sig (refused why) b p q = cc
      signed sig (accepted signer) b p q =
          let (k, among, named, good) = signer_of-verified c keys hash sig kid signer p in
          let (decoded, size) = signature_bytes-size sig_b64 sig b in
          (
            signer,
            record {
              key = k;
              sig = sig;
              trusted = among;
              named = named;
              decoded = decoded;
              size = size;
              verified = good;
            },
            q,
          )

      go :
          (o : Checked Bytes)
          → signature_bytes c sig_b64 ≡ o
          → elim o [
            | refused why ↦ refused why
            | accepted sig ↦ elim (signer_of c keys hash sig kid) [
              | refused why ↦ refused why
              | accepted signer ↦ succeed spans seq signer
            ]
          ]
            ≡ accepted spans'
          → (signer : Bytes) × SignedBy c keys hash sig_b64 signer
            × (succeed spans seq signer ≡ accepted spans')
      go (refused why) p q = cc
      go (accepted sig) p q = signed sig (signer_of c keys hash sig kid) p refl q

  -- The record on a line carries a signature of its hash by a key of the ring.
  pub record Signed (keys : List Bytes) (line : Bytes) : Type 0 where
    pub r : RecordIn
    pub parsed : c.parse_record line ≡ some r
    pub signer : Bytes
    pub by : SignedBy c keys (chain_hash c r.entry r.prev) r.sig_b64 signer

  at_seq-eq-ok {ℓ} :
      {A : Type ℓ} (seq : ℕ) (o : Checked A) {a : A} → at_seq seq o ≡ ok a → o ≡ accepted a
  at_seq-eq-ok seq (accepted a) h = cc
  at_seq-eq-ok seq (refused why) h = cc

  signers_after-Signed :
      (keys : List Bytes) (s : Scan) (hash : Bytes) (r : RecordIn) (spans : List SignerSpan)
      → any_key keys ≡ true
      → IsSuccession s.signers
      → signers_after c keys s hash r ≡ ok spans
      → IsSuccession spans × ((signer : Bytes) × SignedBy c keys hash r.sig_b64 signer)
  unfolding signers_after
  signers_after-Signed keys s hash r spans k h e =
      let (signer, by, next) =
        check_signer-SignedBy s.signers keys s.count hash r.sig_b64 r.kid spans
          (at_seq-eq-ok s.count _ (rw k at e)) in
      (succeed-IsSuccession s.signers s.count signer spans h next, (signer, by))

  verify_loop-Signed :
      (keys : List Bytes) (s : Scan) (i : ℕ) (lines : List (Result Bytes)) (s' : Scan)
      → any_key keys ≡ true
      → IsSuccession s.signers
      → verify_loop c keys s i lines ≡ ok s'
      → IsSuccession s'.signers × All (Signed keys) (record_lines lines)
  unfolding verify_loop record_lines
  verify_loop-Signed keys s i [] s' k h e =
      (subst (λ (x : Scan). IsSuccession x.signers) (ok_inj e) h, tt)
  verify_loop-Signed keys s i (err x ∷ lines) s' k h e = cc
  verify_loop-Signed keys s i (ok line ∷ lines) s' k h e = elim (Bool-cases (is_blank line)) [
    | inl blank ↦
        let (p, q) = verify_loop-Signed keys s (i + 1) lines s' k h (rw blank at e) in
        (p, subst (All (Signed keys)) (record_lines-blank line lines blank) q)
    | inr full ↦
        let (t, step, rest) = >>=-eq-ok (verify_line c keys s i line) _ (rw full at e) in
        let a = verify_line-Passed c keys s i line t step in
        let (next, (signer, by)) =
          signers_after-Signed keys s _ a.next.r t.signers k h a.step.signed in
        let (p, q) = verify_loop-Signed keys t (i + 1) lines s' k next rest in
        (
          p,
          subst (All (Signed keys)) (record_lines-record line lines full)
              (record { r = a.next.r; parsed = a.next.parsed; signer = signer; by = by }, q),
        )
  ]

  -- If the scan accepts a log with a keyring that is not empty, then every record of the log carries
  -- a 64-byte signature of its own hash that verifies under a key of the ring, and no key has two
  -- spans in the reported succession of signers.
  pub verify_lines-Signed :
      (lines : List (Result Bytes)) (keys : List Bytes) (sink : Option ReadWindow)
      (report : VerifyReport) (window : Option ReadWindow)
      → any_key keys ≡ true
      → verify_lines c lines keys sink ≡ ok (report, window)
      → IsSuccession report.signers × All (Signed keys) (record_lines lines)
  unfolding verify_lines
  verify_lines-Signed lines keys sink report window k h =
      let (s, run, out) = >>=-eq-ok (verify_loop c keys (start_scan sink) 0 lines) _ h in
      let (p, q) = verify_loop-Signed keys (start_scan sink) 0 lines s k tt run in
      let same : report_of keys s ≡ report =
        ap (λ (r : VerifyReport × Option ReadWindow). r.0) (ok_inj out) in
      (subst (λ (x : VerifyReport). IsSuccession x.signers) same p, q)
