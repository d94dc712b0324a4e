-- ===== src/Ledger/Anchor/Extends.antt =====
-- What it shows that a log extends a checkpoint, and that a log that only grew does.
use decern.Base.{
  ℕ, zero, suc, ◌+◌, ◌-◌, ◌≤◌, ◌<◌, ◌≡◌, refl, sym, ap, ◌∙◌, subst, true, false, not, arith, ltb,
  ◌==◌, if◌then◌else◌, Bool-cases, ◌⊎◌, inl, inr, Option, none, some, List, [], ◌∷◌, ◌++◌, map,
  Bytes, bytes_eq, bytes_eq_refl, bytes_eq_sound, not-eq-false, length, take, length-take,
}
use decern.Ledger.Record.{
  Crates, HashLaws, Why, LedgerError, Result, ok, err, ◌>>=◌, ok_or, >>=-eq-ok, ok_inj,
  refuse_if-eq-ok, genesis, chain_hash,
}
use decern.Ledger.Merkle.Binding.{Collision}
use decern.Ledger.Verify.{
  Scan, ReadWindow, VerifyReport, is_blank, verify_line, verify_loop, verify_lines, start_scan,
  report_of,
}
use decern.Ledger.Verify.Chain.{
  record_lines, record_lines-blank, record_lines-record, HashLink, HashChain, Link-HashLink,
  Chain-HashChain, verify_line-Passed, Extends, verify_loop-Extends, Reports, verify_lines-Reports,
  ok_or-eq-ok,
}
use decern.Ledger.Verify.Evidence.{entry_text, HashChain-inj}
use decern.Ledger.Anchor.{Checkpoint, follow, root_loop, is_root, ledger_extends_checkpoint}

module _ (c : Crates) where
  follow-HashLink :
      (prev : Bytes) (seen : ℕ) (line hash : Bytes)
      → follow c prev seen line ≡ ok hash
      → (l : HashLink c prev line) × (l.r.hash ≡ hash)
  unfolding follow
  follow-HashLink prev seen line hash h =
      let (r, p, h1) =
        >>=-eq-ok (ok_or (c.parse_record line) (LedgerError.tamper seen Why.unparseable_record)) _
          h in
      let (before, h2) = refuse_if-eq-ok (not (bytes_eq r.prev prev)) _ _ h1 in
      let (digest, h3) =
        refuse_if-eq-ok (not (bytes_eq (c.hex_encode (chain_hash c r.entry r.prev)) r.hash)) _
          (ok r.hash) h2 in
      (
        record {
          r = r;
          parsed = ok_or-eq-ok _ _ p;
          linked = bytes_eq_sound r.prev prev (not-eq-false _ before);
          hashed = bytes_eq_sound _ _ (not-eq-false _ digest);
        },
        ok_inj h3,
      )

  follow-of_HashLink :
      {prev line : Bytes} (seen : ℕ) (l : HashLink c prev line)
      → follow c prev seen line ≡ ok l.r.hash
  unfolding follow
  follow-of_HashLink {prev} seen l =
      let before : bytes_eq l.r.prev prev ≡ true =
        ap (bytes_eq l.r.prev) (sym l.linked) ∙ bytes_eq_refl l.r.prev in
      let digest : bytes_eq (c.hex_encode (chain_hash c l.r.entry l.r.prev)) l.r.hash ≡ true =
        ap (λ (t : Bytes). bytes_eq t l.r.hash) l.hashed ∙ bytes_eq_refl l.r.hash in
      rw (l.parsed, before, digest)

  -- The first `n` of the lines chain from `prev` to `hash`.
  pub record Heads (hash prev : Bytes) (n : ℕ) (lines : List Bytes) : Type 0 where
    pub enough : n ≤ length lines
    pub chain : HashChain c hash prev (take n lines)

  Heads-link :
      {hash prev line : Bytes} {n : ℕ} {lines : List Bytes} (l : HashLink c prev line)
      → Heads hash l.r.hash n lines
      → Heads hash prev (suc n) (line ∷ lines)
  Heads-link l h = record { enough = omega (arith, h.enough); chain = HashChain.link l h.chain }

  root_loop-Heads :
      (prev : Bytes) (seen left : ℕ) (lines : List (Result Bytes)) (hash : Bytes)
      → root_loop c prev seen (suc left) lines ≡ ok (some hash)
      → Heads hash prev (suc left) (record_lines lines)
  unfolding root_loop
  root_loop-Heads prev seen left [] hash h = absurd (cc (ok_inj h))
  root_loop-Heads prev seen left (err e ∷ lines) hash h = cc
  root_loop-Heads prev seen zero (ok line ∷ lines) hash h = elim (Bool-cases (is_blank line)) [
    | inl blank ↦
        subst (Heads hash prev 1) (record_lines-blank line lines blank)
          (root_loop-Heads prev seen zero lines hash (rw blank at h))
    | inr full ↦
        let (mid, step, rest) = >>=-eq-ok (follow c prev seen line) _ (rw full at h) in
        let (l, e) = follow-HashLink prev seen line mid step in
        let last : mid ≡ hash = cc rest in
        subst (Heads hash prev 1) (record_lines-record line lines full)
          (Heads-link l (record { enough = omega arith; chain = HashChain.end (e ∙ last) }))
  ]
  root_loop-Heads prev seen (suc left) (ok line ∷ lines) hash h =
      elim (Bool-cases (is_blank line)) [
        | inl blank ↦
            subst (Heads hash prev (suc (suc left))) (record_lines-blank line lines blank)
              (root_loop-Heads prev seen (suc left) lines hash (rw blank at h))
        | inr full ↦
            let (mid, step, rest) = >>=-eq-ok (follow c prev seen line) _ (rw full at h) in
            let (l, e) = follow-HashLink prev seen line mid step in
            let more : (suc (suc left) == 1) ≡ false = ground arith in
            let one : suc (suc left) - 1 ≡ suc left = omega arith in
            let ih = root_loop-Heads mid (seen + 1) left lines hash (rw (more, one) at rest) in
            subst (Heads hash prev (suc (suc left))) (record_lines-record line lines full) (
              Heads-link l
                (subst (λ (t : Bytes). Heads hash t (suc left) (record_lines lines)) (sym e) ih))
      ]

  HashChain-nil :
      {root prev : Bytes} {ls : List Bytes} → length ls ≡ 0 → HashChain c root prev ls → prev ≡ root
  HashChain-nil n (HashChain.end e) = e
  HashChain-nil n (HashChain.link l k) = absurd (omega arith)

  -- A log that the scan accepted, with any lines after it, has the head of the scan after as many
  -- records as the log held.
  root_loop-verified :
      (keys : List Bytes) (s : Scan) (i seen left : ℕ) (lines more : List (Result Bytes))
      (s' : Scan)
      → verify_loop c keys s i lines ≡ ok s'
      → length (record_lines lines) ≡ suc left
      → root_loop c s.prev seen (suc left) (lines ++ more) ≡ ok (some s'.prev)
  unfolding root_loop verify_loop
  root_loop-verified keys s i seen left [] more s' h n =
      absurd (unfold record_lines in omega (arith, n))
  root_loop-verified keys s i seen left (err e ∷ lines) more s' h n = cc
  root_loop-verified keys s i seen left (ok line ∷ lines) more s' h n =
      elim (Bool-cases (is_blank line)) [
        | inl blank ↦ rw blank (
            root_loop-verified keys s (i + 1) seen left lines more s' (rw blank at h)
              (ap length (record_lines-blank line lines blank) ∙ n))
        | inr full ↦
            let (t, step, rest) = >>=-eq-ok (verify_line c keys s i line) _ (rw full at h) in
            let a = verify_line-Passed c keys s i line t step in
            let here = follow-of_HashLink seen (Link-HashLink c a.next) in
            let n' : length (record_lines lines) ≡ left =
              omega (arith, ap length (record_lines-record line lines full), n) in
            rw (full, here)
              (after left t a.next.r.hash a.step.moved n'
                (verify_loop-Extends c keys t (i + 1) lines s' rest)
                (λ k e. root_loop-verified keys t (i + 1) (seen + 1) k lines more s' rest e))
      ]
    where
      after :
          (k : ℕ) (t : Scan) (hash : Bytes)
          → t.prev ≡ hash
          → length (record_lines lines) ≡ k
          → Extends c t (record_lines lines) s'
          → ((j : ℕ)
              → length (record_lines lines) ≡ suc j
              → root_loop c t.prev (seen + 1) (suc j) (lines ++ more) ≡ ok (some s'.prev))
          → (if suc k == 1
              then ok (some hash)
              else root_loop c hash (seen + 1) (suc k - 1) (lines ++ more))
            ≡ ok (some s'.prev)
      after zero t hash m e x ih =
          ap (λ (p : Bytes). ok (some p)) (sym m ∙ HashChain-nil e (Chain-HashChain c x.chain))
      after (suc j) t hash m e x ih =
          let more_left : (suc (suc j) == 1) ≡ false = ground arith in
          let one : suc (suc j) - 1 ≡ suc j = omega arith in rw (more_left, one, ← m) (ih j e)

  -- The last comparison of the check, at a count above 0.
  extends_at :
      (lines : List (Result Bytes)) (cp : Checkpoint) (left : ℕ) (hash : Bytes)
      → suc left ≡ cp.count
      → hash ≡ cp.root
      → root_loop c genesis 0 (suc left) lines ≡ ok (some hash)
      → ledger_extends_checkpoint c lines cp ≡ ok true
  unfolding ledger_extends_checkpoint
  extends_at lines cp left hash n e run =
      let some_records : (cp.count == 0) ≡ false = ground arith in
      let run' = subst (λ (k : ℕ). root_loop c genesis 0 k lines ≡ ok (some hash)) n run in
      rw (some_records, run', e, bytes_eq_refl cp.root)

  -- A checkpoint that names the number of records and the root that a scan reported is extended by
  -- the scanned log with any lines after it.
  pub ledger_extends_checkpoint-append :
      (lines more : List (Result Bytes)) (keys : List Bytes) (sink : Option ReadWindow)
      (report : VerifyReport) (window : Option ReadWindow) (cp : Checkpoint)
      → verify_lines c lines keys sink ≡ ok (report, window)
      → report.entries ≡ cp.count
      → report.root ≡ some cp.root
      → ledger_extends_checkpoint c (lines ++ more) cp ≡ ok true
  unfolding verify_lines
  ledger_extends_checkpoint-append lines more keys sink report window cp h n r =
      let (s, run, out) = >>=-eq-ok (verify_loop c keys (start_scan sink) 0 lines) _ h in
      let x = verify_loop-Extends c keys (start_scan sink) 0 lines s run in
      let same : report_of keys s ≡ report =
        ap (λ (t : VerifyReport × Option ReadWindow). t.0) (ok_inj out) in
      let counts = ap (λ (t : VerifyReport). t.entries) same in
      let roots = ap (λ (t : VerifyReport). t.root) same ∙ r in
      go s run (length (record_lines lines)) refl (counts ∙ n) x.counted roots
    where
      go :
          (s : Scan)
          → verify_loop c keys (start_scan sink) 0 lines ≡ ok s
          → (k : ℕ) → length (record_lines lines) ≡ k
          → s.count ≡ cp.count
          → s.count ≡ 0 + length (record_lines lines)
          → (if ltb 0 s.count then some s.prev else none) ≡ some cp.root
          → ledger_extends_checkpoint c (lines ++ more) cp ≡ ok true
      go s run zero e m x q =
          let nothing : ltb 0 s.count ≡ false = ground arith in absurd (cc (rw nothing at q))
      go s run (suc left) e m x q =
          let something : ltb 0 s.count ≡ true = ground arith in
          extends_at (lines ++ more) cp left s.prev (omega arith) (cc (rw something at q))
            (root_loop-verified keys (start_scan sink) 0 0 left lines more s run e)

  pub extends-Heads :
      (lines : List (Result Bytes)) (cp : Checkpoint)
      → 0 < cp.count
      → ledger_extends_checkpoint c lines cp ≡ ok true
      → Heads cp.root genesis cp.count (record_lines lines)
  unfolding ledger_extends_checkpoint is_root
  extends-Heads lines cp pos h =
      let some_records : (cp.count == 0) ≡ false = ground arith in
      go cp.count refl (rw some_records at h)
    where
      at_root :
          (left : ℕ) (o : Option Bytes)
          → root_loop c genesis 0 (suc left) lines ≡ ok o
          → is_root o cp.root ≡ true
          → Heads cp.root genesis (suc left) (record_lines lines)
      at_root left none e t = cc
      at_root left (some hash) e t =
          subst (λ (x : Bytes). Heads x genesis (suc left) (record_lines lines))
            (bytes_eq_sound hash cp.root t) (root_loop-Heads genesis 0 left lines hash e)

      go :
          (k : ℕ)
          → cp.count ≡ k
          → (root_loop c genesis 0 cp.count lines >>= λ o. ok (is_root o cp.root)) ≡ ok true
          → Heads cp.root genesis cp.count (record_lines lines)
      go zero e q = absurd (omega arith)
      go (suc left) e q =
          let (o, run, t) =
            >>=-eq-ok (root_loop c genesis 0 (suc left) lines) (λ o. ok (is_root o cp.root))
              (subst
                (λ (k : ℕ).
                  (root_loop c genesis 0 k lines >>= λ o. ok (is_root o cp.root)) ≡ ok true)
                e q) in
          subst (λ (k : ℕ). Heads cp.root genesis k (record_lines lines)) (sym e)
            (at_root left o run (ok_inj t))

module _ (c : Crates) (laws : HashLaws c) where
  -- If a scan of a log reported the number of records and the root of a checkpoint, and another log
  -- extends that checkpoint, then the first records of the other log hold the entries of the scanned
  -- log, byte for byte and in order, or a collision of SHA-256 is at hand.
  pub ledger_extends_checkpoint_sound :
      (old later : List (Result Bytes)) (keys : List Bytes) (sink : Option ReadWindow)
      (report : VerifyReport) (window : Option ReadWindow) (cp : Checkpoint)
      → verify_lines c old keys sink ≡ ok (report, window)
      → report.entries ≡ cp.count
      → report.root ≡ some cp.root
      → ledger_extends_checkpoint c later cp ≡ ok true
      → (map (entry_text c) (record_lines old)
          ≡ map (entry_text c) (take cp.count (record_lines later)))
        ⊎ Collision c.sha256
  ledger_extends_checkpoint_sound old later keys sink report window cp h n r ext =
      let x = verify_lines-Reports c old keys sink report window h in
      go x (λ pos. extends-Heads c later cp pos ext)
    where
      go :
          (x : Reports c (record_lines old) report)
          → (0 < cp.count → Heads c cp.root genesis cp.count (record_lines later))
          → (map (entry_text c) (record_lines old)
              ≡ map (entry_text c) (take cp.count (record_lines later)))
            ⊎ Collision c.sha256
      go x heads = elim (Bool-cases (ltb 0 report.entries)) [
        | inr nothing ↦ absurd (cc (rw nothing at x.rooted, r))
        | inl something ↦
            let y = heads (ground arith) in
            let size = y.enough in
            let roots : x.root ≡ cp.root = cc (rw something at x.rooted, r) in
            elim (HashChain-inj c laws
              (omega (arith, x.counted, length-take cp.count (record_lines later))) refl
              (subst (λ (t : Bytes). HashChain c t genesis (record_lines old)) roots
                (Chain-HashChain c x.chain))
              y.chain) [ inl (_, entries) ↦ inl entries | inr z ↦ inr z ]
      ]
