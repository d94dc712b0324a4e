-- ===== src/Ledger/Writer/Invariant.antt =====
-- The invariant of the writer: its file is whole lines that the scan accepts, and the scan ends with the
-- head, the number and the signers that the handle keeps.
use decern.Base.{
  ℕ, ◌+◌, ◌≡◌, ◌≢◌, refl, sym, ap, ◌∙◌, subst, ◌⊎◌, true, false, arith, if◌then◌else◌, Bool-cases,
  inl, inr, Option, none, List, [], ◌∷◌, ◌++◌, All, append_nil, length, Bytes, bytes_eq,
  bytes_eq_iff,
}
use decern.Ledger.Record.{Crates, Entry, Result, SignerSpan, ok, ◌>>=◌, >>=-eq-ok}
use decern.Ledger.Verify.{
  Scan, VerifyReport, ReadWindow, verify_loop, verify_line, verify_lines, verify_inner, is_blank,
  start_scan, report_of, successor, signed_last,
}
use decern.Ledger.Verify.Signers.{not_signed}
use decern.Ledger.Verify.Growth.{verify_loop-append}
use decern.Ledger.File.{split_lines, strip_return, decode_lines, prefix_lines}
use decern.Ledger.File.Torn.{IsLine, IsTerminated}
use decern.Ledger.File.Lines.{
  split_lines-append, IsTerminated-append, strip_return-brace, is_blank-brace, IsDecoded,
  decode_lines-append, prefix_lines-append,
}
use decern.Ledger.Writer.{Ledger, self_verify, kid_of, record_out, spans_after}
use decern.Ledger.Writer.Append.{
  Laws, MaySign, Printed, IsReadable, head_of, head_after, verify_line-writer,
}

successor-last :
    (spans : List SignerSpan) (last : SignerSpan)
    → All (λ t. t.kid ≢ last.kid) spans
    → successor (spans ++ last ∷ []) last.kid ≡ none
unfolding successor
successor-last [] last h = refl
successor-last (s ∷ []) last h =
    let other : bytes_eq s.kid last.kid ≡ false =
      ground (arith, h.0, bytes_eq_iff s.kid last.kid) in
    rw other refl
successor-last (s ∷ t ∷ spans) last h =
    let other : bytes_eq s.kid last.kid ≡ false =
      ground (arith, h.0, bytes_eq_iff s.kid last.kid) in
    rw other (successor-last (t ∷ spans) last h.1)

verify_loop-IsDecoded :
    (c : Crates) (keys : List Bytes) (s : Scan) (i : ℕ) (lines : List Bytes) (s' : Scan)
    → verify_loop c keys s i (decode_lines c lines) ≡ ok s'
    → IsDecoded c lines
unfolding verify_loop decode_lines
verify_loop-IsDecoded c keys s i [] s' h = tt
verify_loop-IsDecoded c keys s i (l ∷ lines) s' h = elim (Bool-cases (c.is_utf8 (strip_return l))) [
  | inl good ↦
      let line = strip_return l in
      let (t, step, rest) =
        >>=-eq-ok (if is_blank line then ok s else verify_line c keys s i line) _ (rw good at h) in
      (good, verify_loop-IsDecoded c keys t (i + 1) lines s' rest)
  | inr bad ↦ absurd (cc (rw bad at h))
]

module _ (c : Crates) where
  -- What the writer keeps true between its calls.
  pub record IsSound (l : Ledger) : Type 0 where
    pub may_sign : MaySign c l
    pub terminated : IsTerminated l.file
    pub scanned :
        verify_loop c l.verifiers (start_scan none) 0 (decode_lines c (split_lines l.file))
        ≡ ok (head_of c l)

  -- The ledger with one more record.
  abbrev pub appended : Ledger → Bytes → Bytes → Ledger
  appended l entry_json text = record l {
    file = l.file ++ (text ++ 10 ∷ []);
    last_hash = (record_out c l entry_json).hash;
    next_seq = l.next_seq + 1;
    signers = spans_after c l;
  }

  MaySign-appended :
      (l : Ledger) (entry_json text : Bytes) → MaySign c l → MaySign c (appended l entry_json text)
  MaySign-appended l entry_json text m = record {
    in_ring = m.in_ring;
    current = still (Bool-cases (signed_last l.signers (kid_of c l.key)));
  }
    where
      still :
          (signed_last l.signers (kid_of c l.key) ≡ true)
            ⊎ (signed_last l.signers (kid_of c l.key) ≡ false)
          → successor (spans_after c l) (kid_of c l.key) ≡ none
      still (inl last) = rw last m.current
      still (inr other) = rw other (
          successor-last l.signers (record { kid = kid_of c l.key; first_seq = l.next_seq })
            (not_signed l.signers (kid_of c l.key) other m.current))

  module _ (laws : Laws c) where
    pub record_text-IsLine :
        (l : Ledger) (given : Entry) (text : Bytes) → Printed c l given text → IsLine text
    record_text-IsLine l given text p =
        laws.prints.record_line (record_out c l p.entry_json) text p.record_printed
          (laws.prints.entry_line (record given { seq = l.next_seq }) p.entry_json p.entry_printed)

    decode_lines-text :
        (l : Ledger) (given : Entry) (text : Bytes)
        → Printed c l given text
        → (decode_lines c (text ∷ []) ≡ ok text ∷ []) × (is_blank text ≡ false)
    unfolding decode_lines
    decode_lines-text l given text p =
        let out = record_out c l p.entry_json in
        let (b, braces) = laws.prints.record_braces out text p.record_printed in
        let kept : strip_return text ≡ text =
          subst (λ t. strip_return t ≡ t) (sym braces) (strip_return-brace (123 ∷ b)) in
        let full : is_blank text ≡ false =
          subst (λ t. is_blank t ≡ false) (sym braces) (is_blank-brace (b ++ 125 ∷ [])) in
        (rw (decode_lines, kept, laws.prints.record_utf8 out text p.record_printed) refl, full)

    verify_loop-text :
        (l : Ledger) (given : Entry) (text : Bytes) (i : ℕ) (p : Printed c l given text)
        → MaySign c l
        → IsReadable c given
        → verify_loop c l.verifiers (head_of c l) i (ok text ∷ [])
          ≡ ok (head_after c l p.entry_json)
    unfolding verify_loop
    verify_loop-text l given text i p m readable =
        rw
          (
            (decode_lines-text l given text p).1,
            verify_line-writer c laws l given text i p m readable,
          )
          refl

    -- A record that reaches the file leaves the writer sound.
    pub appended-IsSound :
        (l : Ledger) (given : Entry) (text : Bytes) (p : Printed c l given text)
        → IsSound l
        → IsReadable c given
        → IsSound (appended l p.entry_json text)
    appended-IsSound l given text p s readable =
        let lines = split_lines l.file in
        let line = record_text-IsLine l given text p in
        let decoded : decode_lines c (split_lines (l.file ++ (text ++ 10 ∷ [])))
            ≡ decode_lines c lines ++ ok text ∷ [] =
          ap (decode_lines c) (split_lines-append l.file text s.terminated line)
          ∙ decode_lines-append c lines (text ∷ []) (
              verify_loop-IsDecoded c l.verifiers (start_scan none) 0 lines (head_of c l) s.scanned)
          ∙ ap (λ t. decode_lines c lines ++ t) (decode_lines-text l given text p).0 in
        record {
          may_sign = MaySign-appended l p.entry_json text s.may_sign;
          terminated = IsTerminated-append l.file text;
          scanned =
              ap (verify_loop c l.verifiers (start_scan none) 0) decoded
              ∙ verify_loop-append c l.verifiers (start_scan none) 0 (decode_lines c lines)
                  (ok text ∷ []) (head_of c l) s.scanned
              ∙ verify_loop-text l given text (0 + length (decode_lines c lines)) p s.may_sign
                  readable;
        }

  pub verify_lines-IsSound :
      (l : Ledger)
      → IsSound l
      → verify_lines c (decode_lines c (split_lines l.file)) l.verifiers none
        ≡ ok (report_of l.verifiers (head_of c l), none)
  unfolding verify_lines
  verify_lines-IsSound l s =
      ap (λ m. m >>= λ (t : Scan). ok (report_of l.verifiers t, t.sink)) s.scanned

  -- The writer's own verification of its file finds what its handle says.
  pub IsSound-self_verify :
      (l : Ledger) → IsSound l → self_verify c l ≡ ok (report_of l.verifiers (head_of c l))
  unfolding self_verify verify_inner
  IsSound-self_verify l s =
      let read : prefix_lines c l.file ≡ (decode_lines c (split_lines l.file), none) =
        ap (prefix_lines c) (sym (append_nil l.file))
        ∙ prefix_lines-append c l.file [] s.terminated tt in
      ap
        (λ (r : List (Result Bytes) × Option ℕ).
          verify_inner c r.0 r.1 l.verifiers none >>= λ x. ok x.0)
        read
      ∙ ap (λ m. m >>= λ (x : VerifyReport × Option ReadWindow). ok x.0) (verify_lines-IsSound l s)
