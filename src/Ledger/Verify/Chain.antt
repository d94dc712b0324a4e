-- ===== src/Ledger/Verify/Chain.antt =====
-- What an accepted log is: a chain of records, each bound to the one before it.
use mathlib.Core.Path.{subst₂}
use decern.Base.{
  ℕ, suc, ◌+◌, ◌≡◌, refl, sym, ap, ◌∙◌, subst, true, false, not, arith, ltb, ◌==◌, ==_iff,
  if◌then◌else◌, Bool-cases, inl, inr, Option, none, some, List, [], ◌∷◌, Bytes, bytes_eq,
  bytes_eq_sound, not-eq-false, length,
}
use decern.Ledger.Record.{
  Crates, Entry, RecordIn, Why, LedgerError, Result, ok, err, genesis, chain_hash, ok_or, >>=-eq-ok,
  ok_inj, refuse_if-eq-ok,
}
use decern.Ledger.Verify.{
  Scan, ReadWindow, VerifyReport, is_blank, signers_after, keep_line, admit, check_record,
  verify_line, verify_loop, verify_lines, start_scan, report_of,
}

-- The lines that hold a record.
unfoldable pub record_lines : List (Result Bytes) → List Bytes
record_lines [] = []
record_lines (ok line ∷ lines) =
    let rest = record_lines lines in if is_blank line then rest else line ∷ rest
record_lines (err e ∷ lines) = record_lines lines

pub record_lines-blank :
    (line : Bytes) (lines : List (Result Bytes))
    → is_blank line ≡ true
    → record_lines lines ≡ record_lines (ok line ∷ lines)
unfolding record_lines
record_lines-blank line lines blank = rw blank

pub record_lines-record :
    (line : Bytes) (lines : List (Result Bytes))
    → is_blank line ≡ false
    → line ∷ record_lines lines ≡ record_lines (ok line ∷ lines)
unfolding record_lines
record_lines-record line lines full = rw full

one_more : (n : ℕ) → n + 1 ≡ suc n
one_more n = omega arith

pub ok_or-eq-ok {ℓ} :
    {A : Type ℓ} (o : Option A) (e : LedgerError) {a : A} → ok_or o e ≡ ok a → o ≡ some a
ok_or-eq-ok none e h = cc
ok_or-eq-ok (some x) e h = cc

module _ (c : Crates) where
  -- What a line shows that the scan accepts after the hash `prev` at position `seq`.
  pub record Link (prev : Bytes) (seq : ℕ) (line : Bytes) : Type 0 where
    pub r : RecordIn
    pub entry : Entry
    pub parsed : c.parse_record line ≡ some r
    pub readable : c.parse_entry r.entry ≡ some entry
    pub in_sequence : entry.seq ≡ seq
    pub linked : r.prev ≡ prev
    pub hashed : c.hex_encode (chain_hash c r.entry r.prev) ≡ r.hash

  -- The part of a link that the hashes make.
  pub record HashLink (prev line : Bytes) : Type 0 where
    pub r : RecordIn
    pub parsed : c.parse_record line ≡ some r
    pub linked : r.prev ≡ prev
    pub hashed : c.hex_encode (chain_hash c r.entry r.prev) ≡ r.hash

  pub data HashChain (root : Bytes) : Bytes → List Bytes → Type 0 where
    end : {prev : Bytes} → prev ≡ root → HashChain root prev []
    link :
        {prev line : Bytes} {lines : List Bytes} (l : HashLink prev line)
        → HashChain root l.r.hash lines
        → HashChain root prev (line ∷ lines)

  -- The lines link one after another, from the hash `prev` to the hash `root`.
  pub data Chain (root : Bytes) : Bytes → ℕ → List Bytes → Type 0 where
    end : {prev : Bytes} {seq : ℕ} → prev ≡ root → Chain root prev seq []
    link :
        {prev : Bytes} {seq : ℕ} {line : Bytes} {lines : List Bytes} (l : Link prev seq line)
        → Chain root l.r.hash (suc seq) lines
        → Chain root prev seq (line ∷ lines)

  abbrev pub Link-HashLink : {prev line : Bytes} {seq : ℕ} → Link prev seq line → HashLink prev line
  Link-HashLink l = record { r = l.r; parsed = l.parsed; linked = l.linked; hashed = l.hashed }

  pub Chain-HashChain :
      {root prev : Bytes} {seq : ℕ} {lines : List Bytes}
      → Chain root prev seq lines
      → HashChain root prev lines
  Chain-HashChain (Chain.end e) = HashChain.end e
  Chain-HashChain (Chain.link l k) = HashChain.link (Link-HashLink l) (Chain-HashChain k)

  pub record Admitted (keys : List Bytes) (s : Scan) (line : Bytes) (r : RecordIn) (hash : Bytes)
      (s' : Scan) : Type 0 where
    pub moved : s'.prev ≡ r.hash
    pub counted : s'.count ≡ suc s.count
    pub signed : signers_after c keys s hash r ≡ ok s'.signers
    pub windowed : keep_line c s.sink s.count line ≡ ok s'.sink

  admit-Admitted :
      (keys : List Bytes) (s : Scan) (line : Bytes) (r : RecordIn) (hash : Bytes) (s' : Scan)
      → admit c keys s line r hash ≡ ok s'
      → Admitted keys s line r hash s'
  unfolding admit
  admit-Admitted keys s line r hash s' h =
      let (signers, q, h') = >>=-eq-ok (signers_after c keys s hash r) _ h in
      let (sink, q', h'') = >>=-eq-ok (keep_line c s.sink s.count line) _ h' in
      let end = ok_inj h'' in
      record {
        moved = ap (λ (x : Scan). x.prev) (sym end);
        counted = ap (λ (x : Scan). x.count) (sym end) ∙ one_more s.count;
        signed = q ∙ ap (λ (x : Scan). ok x.signers) end;
        windowed = q' ∙ ap (λ (x : Scan). ok x.sink) end;
      }

  pub record Passed (keys : List Bytes) (s : Scan) (line : Bytes) (s' : Scan) : Type 0 where
    pub next : Link s.prev s.count line
    pub step : Admitted keys s line next.r (chain_hash c next.r.entry next.r.prev) s'

  pub verify_line-Passed :
      (keys : List Bytes) (s : Scan) (i : ℕ) (line : Bytes) (s' : Scan)
      → verify_line c keys s i line ≡ ok s'
      → Passed keys s line s'
  unfolding verify_line
  verify_line-Passed keys s i line s' h =
      let (r, p, h1) =
        >>=-eq-ok (ok_or (c.parse_record line) (LedgerError.tamper i Why.unparseable_record)) _ h in
      let (entry, p', h2) =
        >>=-eq-ok (ok_or (c.parse_entry r.entry) (LedgerError.tamper s.count Why.unparseable_entry))
          _ h1 in
      check_record-Passed r entry p p' h2
    where
      check_record-Passed :
          (r : RecordIn) (entry : Entry)
          → ok_or (c.parse_record line) (LedgerError.tamper i Why.unparseable_record) ≡ ok r
          → ok_or (c.parse_entry r.entry) (LedgerError.tamper s.count Why.unparseable_entry)
            ≡ ok entry
          → check_record c keys s line r entry ≡ ok s'
          → Passed keys s line s'
      check_record-Passed r entry p p' h =
          let hash = chain_hash c r.entry r.prev in
          let (sequence, h1) = refuse_if-eq-ok (not (entry.seq == s.count)) _ _ h in
          let (before, h2) = refuse_if-eq-ok (not (bytes_eq r.prev s.prev)) _ _ h1 in
          let (digest, h3) =
            refuse_if-eq-ok (not (bytes_eq (c.hex_encode hash) r.hash)) _
              (admit c keys s line r hash) h2 in
          record {
            next = record {
              r = r;
              entry = entry;
              parsed = ok_or-eq-ok _ _ p;
              readable = ok_or-eq-ok _ _ p';
              in_sequence = (==_iff _ _).0 (not-eq-false _ sequence);
              linked = bytes_eq_sound r.prev s.prev (not-eq-false _ before);
              hashed = bytes_eq_sound _ _ (not-eq-false _ digest);
            };
            step = unfold chain_hash in admit-Admitted keys s line r hash s' h3;
          }

  -- The scan ends with the head of a chain that it extended by the lines that hold a record.
  pub record Extends (s : Scan) (lines : List Bytes) (s' : Scan) : Type 0 where
    pub chain : Chain s'.prev s.prev s.count lines
    pub counted : s'.count ≡ s.count + length lines

  pub verify_loop-Extends :
      (keys : List Bytes) (s : Scan) (i : ℕ) (lines : List (Result Bytes)) (s' : Scan)
      → verify_loop c keys s i lines ≡ ok s'
      → Extends s (record_lines lines) s'
  unfolding verify_loop record_lines
  verify_loop-Extends keys s i [] s' h =
      let e = ok_inj h in
      record {
        chain = Chain.end (ap (λ (x : Scan). x.prev) e);
        counted = ap (λ (x : Scan). x.count) (sym e) ∙ (omega arith);
      }
  verify_loop-Extends keys s i (err e ∷ lines) s' h = cc
  verify_loop-Extends keys s i (ok line ∷ lines) s' h = elim (Bool-cases (is_blank line)) [
    | inl blank ↦
        let ih = verify_loop-Extends keys s (i + 1) lines s' (rw blank at h) in
        subst (λ (l : List Bytes). Extends s l s') (record_lines-blank line lines blank) ih
    | inr full ↦
        let (t, step, rest) = >>=-eq-ok (verify_line c keys s i line) _ (rw full at h) in
        let a = verify_line-Passed keys s i line t step in
        let ih = verify_loop-Extends keys t (i + 1) lines s' rest in
        subst (λ (l : List Bytes). Extends s l s') (record_lines-record line lines full)
          (record {
            chain = Chain.link a.next (
                subst₂ (λ (p : Bytes) (n : ℕ). Chain s'.prev p n (record_lines lines)) a.step.moved
                  a.step.counted ih.chain);
            counted = omega (arith, ih.counted, a.step.counted);
          })
  ]

  -- What a report says of the lines that were scanned.
  pub record Reports (lines : List Bytes) (report : VerifyReport) : Type 0 where
    pub root : Bytes
    pub chain : Chain root genesis 0 lines
    pub counted : report.entries ≡ length lines
    pub rooted : report.root ≡ (if ltb 0 report.entries then some root else none)

  -- If the scan accepts a log then its record lines form a chain from the genesis hash, numbered
  -- from 0, whose length and last hash the report gives.
  pub verify_lines-Reports :
      (lines : List (Result Bytes)) (keys : List Bytes) (sink : Option ReadWindow)
      (report : VerifyReport) (window : Option ReadWindow)
      → verify_lines c lines keys sink ≡ ok (report, window)
      → Reports (record_lines lines) report
  unfolding verify_lines
  verify_lines-Reports lines keys sink report window h =
      let (s, run, out) = >>=-eq-ok (verify_loop c keys (start_scan sink) 0 lines) _ h in
      let x = verify_loop-Extends keys (start_scan sink) 0 lines s run in
      let same : report_of keys s ≡ report =
        ap (λ (r : VerifyReport × Option ReadWindow). r.0) (ok_inj out) in
      subst (Reports (record_lines lines)) same (record {
        root = s.prev;
        chain = x.chain;
        counted = x.counted ∙ omega arith;
        rooted = refl;
      })
