-- ===== src/Ledger/Verify/Growth.antt =====
-- The scan of a log that grows: more lines, and more keys in the ring.
use decern.Base.{
  ℕ, suc, ◌+◌, ◌≡◌, refl, ap, ◌∙◌, Bool, true, false, arith, if◌then◌else◌, Option-cases, inl, inr,
  Option, none, some, List, [], ◌∷◌, ◌++◌, length, Bytes, bytes_eq, not, ◌==◌,
}
use decern.Ledger.Record.{
  Crates, RecordIn, Result, SignerSpan, ok, err, ◌>>=◌, refuse_if, ok_or, chain_hash, LedgerError,
  Why, >>=-eq-ok, >>=-mono,
}
use decern.Ledger.Verify.{
  Scan, accepted, refused, Checked, at_seq, any_key, is_blank, find_kid, find_verifying, signer_of,
  signature_bytes, check_signer, signers_after, keep_line, admit, check_record, verify_line,
  verify_loop, succeed,
}

module _ (c : Crates) where
  pub verify_loop-append :
      (keys : List Bytes) (s : Scan) (i : ℕ) (lines more : List (Result Bytes)) (s' : Scan)
      → verify_loop c keys s i lines ≡ ok s'
      → verify_loop c keys s i (lines ++ more) ≡ verify_loop c keys s' (i + length lines) more
  unfolding verify_loop
  verify_loop-append keys s i [] more s' h =
      ap (λ t. verify_loop c keys t i more) (let e : s ≡ s' = cc h in e)
      ∙ ap (λ n. verify_loop c keys s' n more) (let e : i ≡ i + 0 = omega arith in e)
  verify_loop-append keys s i (err e ∷ lines) more s' h = cc
  verify_loop-append keys s i (ok line ∷ lines) more s' h =
      let (t, step, rest) =
        >>=-eq-ok (if is_blank line then ok s else verify_line c keys s i line) _ h in
      ap (λ m. m >>= λ x. verify_loop c keys x (i + 1) (lines ++ more)) step
      ∙ verify_loop-append keys t (i + 1) lines more s' rest
      ∙ ap (λ n. verify_loop c keys s' n more)
          (let e : (i + 1) + length lines ≡ i + suc (length lines) = omega arith in e)

  find_kid-append :
      (keys more : List Bytes) (kid : Bytes) {k : Bytes}
      → find_kid c keys kid ≡ some k
      → find_kid c (keys ++ more) kid ≡ some k
  unfolding find_kid
  find_kid-append [] more kid h = cc
  find_kid-append (x ∷ keys) more kid {k = k} h =
      ground (arith, find_kid-append keys more kid {k = k})

  find_verifying-append :
      (keys more : List Bytes) (hash sig : Bytes) {k : Bytes}
      → find_verifying c keys hash sig ≡ some k
      → find_verifying c (keys ++ more) hash sig ≡ some k
  unfolding find_verifying
  find_verifying-append [] more hash sig h = cc
  find_verifying-append (x ∷ keys) more hash sig {k = k} h =
      ground (arith, find_verifying-append keys more hash sig {k = k})

  signer_of-append :
      (keys more : List Bytes) (hash sig : Bytes) (kid : Option Bytes) {signer : Bytes}
      → signer_of c keys hash sig kid ≡ accepted signer
      → signer_of c (keys ++ more) hash sig kid ≡ accepted signer
  unfolding signer_of
  signer_of-append keys more hash sig (some kid) h = elim (Option-cases (find_kid c keys kid)) [
    | inl missing ↦ absurd (cc (rw (signer_of, missing) at h))
    | inr (k, found) ↦
        rw (signer_of, find_kid-append keys more kid found) (rw (signer_of, found) at h)
  ]
  signer_of-append keys more hash sig none h =
      elim (Option-cases (find_verifying c keys hash sig)) [
        | inl missing ↦ absurd (cc (rw (signer_of, missing) at h))
        | inr (k, found) ↦
            rw (signer_of, find_verifying-append keys more hash sig found)
              (rw (signer_of, found) at h)
      ]

  check_signer-append :
      (spans : List SignerSpan) (keys more : List Bytes) (seq : ℕ) (hash sig_b64 : Bytes)
      (kid : Option Bytes) {after : List SignerSpan}
      → check_signer c spans keys seq hash sig_b64 kid ≡ accepted after
      → check_signer c spans (keys ++ more) seq hash sig_b64 kid ≡ accepted after
  unfolding check_signer
  check_signer-append spans keys more seq hash sig_b64 kid {after} =
      outer (signature_bytes c sig_b64)
    where
      inner :
          (sig : Bytes) (o : Checked Bytes)
          → signer_of c keys hash sig kid ≡ o
          → elim o as (λ _. Checked (List SignerSpan)) [
            | refused why ↦ refused why
            | accepted signer ↦ succeed spans seq signer
          ]
            ≡ accepted after
          → elim (signer_of c (keys ++ more) hash sig kid) as (λ _. Checked (List SignerSpan)) [
            | refused why ↦ refused why
            | accepted signer ↦ succeed spans seq signer
          ]
            ≡ accepted after
      inner sig (refused why) e h = cc
      inner sig (accepted signer) e h = rw (signer_of-append keys more hash sig kid e) h

      outer :
          (o : Checked Bytes)
          → elim o as (λ _. Checked (List SignerSpan)) [
            | refused why ↦ refused why
            | accepted sig ↦
                elim (signer_of c keys hash sig kid) as (λ _. Checked (List SignerSpan)) [
                  | refused why ↦ refused why
                  | accepted signer ↦ succeed spans seq signer
                ]
          ]
            ≡ accepted after
          → elim o as (λ _. Checked (List SignerSpan)) [
            | refused why ↦ refused why
            | accepted sig ↦
                elim (signer_of c (keys ++ more) hash sig kid) as (λ _. Checked (List SignerSpan)) [
                  | refused why ↦ refused why
                  | accepted signer ↦ succeed spans seq signer
                ]
          ]
            ≡ accepted after
      outer (refused why) h = cc
      outer (accepted sig) h = inner sig (signer_of c keys hash sig kid) refl h

  signers_after-append :
      (keys more : List Bytes) (s : Scan) (hash : Bytes) (r : RecordIn) {after : List SignerSpan}
      → any_key keys ≡ true
      → signers_after c keys s hash r ≡ ok after
      → signers_after c (keys ++ more) s hash r ≡ ok after
  unfolding signers_after any_key
  signers_after-append [] more s hash r k h = cc
  signers_after-append (x ∷ keys) more s hash r {after} k h = ap (at_seq s.count) (
      check_signer-append s.signers (x ∷ keys) more s.count hash r.sig_b64 r.kid
        (accepted_at s.count (check_signer c s.signers (x ∷ keys) s.count hash r.sig_b64 r.kid) h))
    where
      accepted_at :
          (seq : ℕ) (o : Checked (List SignerSpan)) → at_seq seq o ≡ ok after → o ≡ accepted after
      accepted_at seq (accepted a) h = cc
      accepted_at seq (refused why) h = cc

  admit-append :
      (keys more : List Bytes) (s : Scan) (line : Bytes) (r : RecordIn) (hash : Bytes) {s' : Scan}
      → any_key keys ≡ true
      → admit c keys s line r hash ≡ ok s'
      → admit c (keys ++ more) s line r hash ≡ ok s'
  unfolding admit
  admit-append keys more s line r hash k h =
      let (signers, e, rest) = >>=-eq-ok (signers_after c keys s hash r) _ h in
      ap
        (λ m. m >>= λ x. keep_line c s.sink s.count line >>= λ sink.
          ok (record { prev = r.hash; count = s.count + 1; signers = x; sink = sink }))
        (signers_after-append keys more s hash r k e)
      ∙ rest

  verify_line-append :
      (keys more : List Bytes) (s : Scan) (i : ℕ) (line : Bytes) {s' : Scan}
      → any_key keys ≡ true
      → verify_line c keys s i line ≡ ok s'
      → verify_line c (keys ++ more) s i line ≡ ok s'
  unfolding verify_line check_record
  verify_line-append keys more s i line k h =
      >>=-mono (ok_or (c.parse_record line) (LedgerError.tamper i Why.unparseable_record)) _ _ h
        λ r h1.
          >>=-mono
            (ok_or (c.parse_entry r.entry) (LedgerError.tamper s.count Why.unparseable_entry)) _ _
            h1
            λ entry h2.
              >>=-mono
                (refuse_if (not (entry.seq == s.count))
                  (LedgerError.tamper s.count (Why.sequence_break entry.seq)))
                _ _ h2
                λ u1 h3.
                  >>=-mono
                    (refuse_if (not (bytes_eq r.prev s.prev))
                      (LedgerError.tamper s.count Why.broken_link))
                    _ _ h3
                    λ u2 h4.
                      >>=-mono
                        (refuse_if
                          (not (bytes_eq (c.hex_encode (chain_hash c r.entry r.prev)) r.hash))
                          (LedgerError.tamper s.count Why.hash_mismatch))
                        _ _ h4
                        λ u3 h5. admit-append keys more s line r (chain_hash c r.entry r.prev) k h5

  -- A log that a ring accepts is accepted by every ring that extends it.
  pub verify_loop-more_keys :
      (keys more : List Bytes) (s : Scan) (i : ℕ) (lines : List (Result Bytes)) (s' : Scan)
      → any_key keys ≡ true
      → verify_loop c keys s i lines ≡ ok s'
      → verify_loop c (keys ++ more) s i lines ≡ ok s'
  unfolding verify_loop
  verify_loop-more_keys keys more s i [] s' k h = h
  verify_loop-more_keys keys more s i (err e ∷ lines) s' k h = cc
  verify_loop-more_keys keys more s i (ok line ∷ lines) s' k h =
      let (t, step, rest) =
        >>=-eq-ok (if is_blank line then ok s else verify_line c keys s i line) _ h in
      ap (λ m. m >>= λ x. verify_loop c (keys ++ more) x (i + 1) lines)
        (one_step (is_blank line) t step)
      ∙ verify_loop-more_keys keys more t (i + 1) lines s' k rest
    where
      one_step :
          (blank : Bool) (t : Scan)
          → (if blank then ok s else verify_line c keys s i line) ≡ ok t
          → (if blank then ok s else verify_line c (keys ++ more) s i line) ≡ ok t
      one_step true t e = e
      one_step false t e = verify_line-append keys more s i line k e
