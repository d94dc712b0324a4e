-- ===== src/Ledger/Writer/Recovery.antt =====
-- Opening a log: a new one, the file of a writer that was dropped, and the file that a failed write left.
use decern.Base.{
  ℕ, zero, suc, ◌+◌, ◌-◌, ◌≡◌, ◌≢◌, ◌≤◌, ◌<◌, refl, sym, ap, ◌∙◌, subst, ◌⊎◌, true, false, ltb, leb,
  arith, if◌then◌else◌, Bool-cases, inl, inr, Option, none, some, List, [], ◌∷◌, ◌++◌, All-take,
  take-append_le, take-append_ge, append_nil, length, take, take-append_self, get_elem?, Bytes,
}
use decern.Ledger.Record.{Crates, Entry, Result, LedgerError, Why, ok, err, ◌>>=◌}
use decern.Ledger.Verify.{
  VerifyReport, ReadWindow, verify_loop, verify_lines, start_scan, report_of, successor,
}
use decern.Ledger.Verify.Read.{superseded_by}
use decern.Ledger.Anchor.{refuse_removed_history}
use decern.Ledger.File.{split_lines, decode_lines, begins_a_record, heal_torn_tail}
use decern.Ledger.File.Torn.{IsLine, get_elem?-append}
use decern.Ledger.File.Lines.{prefix_lines-append}
use decern.Ledger.Writer.{
  Ledger, Record, broke, Outcome, append, kid_of, record_out, push_key, resolve_open_head,
  root_or_genesis, extends_anchor, open_single, handle_on, new_ledger,
}
use decern.Ledger.Writer.Append.{Laws, Printed, IsReadable, head_of}
use decern.Ledger.Writer.Invariant.{
  IsSound, appended, appended-IsSound, record_text-IsLine, verify_lines-IsSound,
}
use decern.Ledger.Verify.Chain.{Chain, verify_loop-Extends, record_lines}
use decern.Ledger.Writer.Steps.{append-broke}
use decern.Ledger.Writer.Runs.{push_key-any_key_eq}

-- The handle_on of a process that starts again.
abbrev pub restarted : Ledger → Ledger
restarted l = record l { sync = false; failed = false }

module _ (c : Crates) where
  pub new_ledger-IsSound :
      (key : Bytes) (retired : List Bytes)
      → IsSound c (new_ledger c key (push_key retired (c.verifying_key key)))
  unfolding successor verify_loop decode_lines split_lines
  new_ledger-IsSound key retired = record {
    may_sign = record {
      in_ring = push_key-any_key_eq retired (c.verifying_key key);
      current = refl;
    };
    terminated = inl refl;
    scanned = refl;
  }

  -- A new log is sound.
  pub open_single-IsSound :
      (key : Bytes) (retired : List Bytes) (l : Ledger)
      → open_single c none key retired none ≡ ok l
      → IsSound c l
  unfolding open_single refuse_removed_history
  open_single-IsSound key retired l h =
      subst (IsSound c)
        (let e : new_ledger c key (push_key retired (c.verifying_key key)) ≡ l = cc h in e)
        (new_ledger-IsSound key retired)

  -- What follows the scan in `resolve_open_head`, when no anchor is kept.
  abbrev settle : Bytes → Bytes → Option ℕ → VerifyReport → Result (VerifyReport × Bytes)
  settle file kid torn report = elim (superseded_by report kid) [
    | some next ↦ err (LedgerError.key_superseded kid next)
    | none ↦ elim torn [
      | none ↦ ok (report, file)
      | some offset ↦
          if begins_a_record file offset
          then ok (report, heal_torn_tail file offset)
          else err (LedgerError.tamper report.entries Why.not_a_record)
    ]
  ]

  resolve_open_head_sound :
      (l : Ledger) (part : Bytes)
      → IsSound c l
      → IsLine part
      → resolve_open_head c (l.file ++ part) l.verifiers (c.verifying_key l.key) none
        ≡ settle
            (l.file ++ part)
            (kid_of c l.key)
            (if ltb 0 (length part) then some (length l.file) else none)
            (report_of l.verifiers (head_of c l))
  unfolding resolve_open_head extends_anchor
  resolve_open_head_sound l part s line =
      let file = l.file ++ part in
      ap
        (λ (r : List (Result Bytes) × Option ℕ).
          verify_lines c r.0 l.verifiers none >>= λ (x : VerifyReport × Option ReadWindow).
          settle file (kid_of c l.key) r.1 x.0)
        (prefix_lines-append c l.file part s.terminated line)
      ∙ ap
          (λ m. m >>= λ (x : VerifyReport × Option ReadWindow).
            settle file (kid_of c l.key)
              (if ltb 0 (length part) then some (length l.file) else none) x.0)
          (verify_lines-IsSound c l s)

  -- A fragment that begins a record is cut off.
  resolve_open_head-fragment :
      (l : Ledger) (part : Bytes)
      → IsSound c l
      → IsLine part
      → (part ≡ []) ⊎ ((b : Bytes) × (part ≡ 123 ∷ b))
      → resolve_open_head c (l.file ++ part) l.verifiers (c.verifying_key l.key) none
        ≡ ok (report_of l.verifiers (head_of c l), l.file)
  unfolding superseded_by begins_a_record heal_torn_tail
  resolve_open_head-fragment l part s line shape =
      resolve_open_head_sound l part s line ∙ settled part shape
    where
      settled :
          (part : Bytes)
          → (part ≡ []) ⊎ ((b : Bytes) × (part ≡ 123 ∷ b))
          → settle
              (l.file ++ part)
              (kid_of c l.key)
              (if ltb 0 (length part) then some (length l.file) else none)
              (report_of l.verifiers (head_of c l))
            ≡ ok (report_of l.verifiers (head_of c l), l.file)
      settled part (inl e) =
          subst
            (λ p.
              settle (l.file ++ p) (kid_of c l.key)
                (if ltb 0 (length p) then some (length l.file) else none)
                (report_of l.verifiers (head_of c l))
              ≡ ok (report_of l.verifiers (head_of c l), l.file))
            (sym e)
            (rw (settle, superseded_by, s.may_sign.current)
              (ap (λ f. ok (report_of l.verifiers (head_of c l), f)) (append_nil l.file)))
      settled part (inr (b, e)) =
          subst
            (λ p.
              settle (l.file ++ p) (kid_of c l.key)
                (if ltb 0 (length p) then some (length l.file) else none)
                (report_of l.verifiers (head_of c l))
              ≡ ok (report_of l.verifiers (head_of c l), l.file))
            (sym e)
            (let held : ltb 0 (length (123 ∷ b)) ≡ true = ground arith in
              let at : get_elem? (l.file ++ 123 ∷ b) (length l.file) ≡ some 123 =
                ap (get_elem? (l.file ++ 123 ∷ b))
                  (let z : length l.file ≡ length l.file + 0 = omega arith in z)
                ∙ get_elem?-append l.file (123 ∷ b) 0 in
              ap
                (λ t.
                  settle (l.file ++ 123 ∷ b) (kid_of c l.key)
                    (if t then some (length l.file) else none)
                    (report_of l.verifiers (head_of c l)))
                held
              ∙ rw
                  (
                    settle,
                    superseded_by,
                    s.may_sign.current,
                    begins_a_record,
                    at,
                    heal_torn_tail,
                    take-append_self l.file (123 ∷ b),
                  )
                  refl)

  Chain-root :
      {root prev : Bytes} {seq : ℕ} (lines : List Bytes)
      → Chain c root prev seq lines
      → length lines ≡ 0
      → prev ≡ root
  Chain-root [] (Chain.end e) h = e
  Chain-root (x ∷ lines) k h = absurd (omega (arith, h))

  root_or_genesis-head :
      (l : Ledger)
      → IsSound c l
      → root_or_genesis c (report_of l.verifiers (head_of c l)).root ≡ l.last_hash
  root_or_genesis-head l s = elim (Bool-cases (ltb 0 l.next_seq)) [
    | inl some_records ↦ rw some_records refl
    | inr no_records ↦
        let lines = decode_lines c (split_lines l.file) in
        let x =
          verify_loop-Extends c l.verifiers (start_scan none) 0 lines (head_of c l) s.scanned in
        let counted = x.counted in
        rw no_records (Chain-root (record_lines lines) x.chain (ground (arith, counted)))
  ]

  -- The handle_on on a log that was sound is the handle_on that was.
  handle-head :
      (l : Ledger)
      → IsSound c l
      → handle_on c l.key l.verifiers (report_of l.verifiers (head_of c l), l.file)
        ≡ record l { sync = false; failed = false }
  handle-head l s =
      ap (λ hash. record l { last_hash = hash; sync = false; failed = false })
        (root_or_genesis-head l s)

  reopen :
      (l l' : Ledger) (file : Bytes) (retired : List Bytes)
      → push_key retired (c.verifying_key l.key) ≡ l.verifiers
      → (l'.key ≡ l.key) × (l'.verifiers ≡ l.verifiers)
      → IsSound c l'
      → resolve_open_head c file l.verifiers (c.verifying_key l.key) none
        ≡ ok (report_of l'.verifiers (head_of c l'), l'.file)
      → open_single c (some file) l.key retired none
        ≡ ok (record l' { sync = false; failed = false })
  unfolding open_single
  reopen l l' file retired ring same s h =
      ap
        (λ v. resolve_open_head c file v (c.verifying_key l.key) none >>= λ head.
          ok (handle_on c l.key v head))
        ring
      ∙ ap (λ m. m >>= λ head. ok (handle_on c l.key l.verifiers head)) h
      ∙ ap (λ k. ok (handle_on c k l.verifiers (report_of l'.verifiers (head_of c l'), l'.file)))
          (sym same.0)
      ∙ ap (λ v. ok (handle_on c l'.key v (report_of l'.verifiers (head_of c l'), l'.file)))
          (sym same.1)
      ∙ ap ok (handle-head l' s)

  module _ (laws : Laws c) where
    part_shape :
        (n b : ℕ) (text : Bytes)
        → (take n (b ∷ text) ≡ []) ⊎ ((r : Bytes) × (take n (b ∷ text) ≡ b ∷ r))
    part_shape zero b text = inl refl
    part_shape (suc n) b text = inr (take n text, refl)

    open_single-fragment :
        (l : Ledger) (given : Entry) (n : ℕ) (text : Bytes) (retired : List Bytes)
        (p : Printed c l given text)
        → push_key retired (c.verifying_key l.key) ≡ l.verifiers
        → IsSound c l
        → n ≤ length text
        → open_single c (some (l.file ++ take n (text ++ 10 ∷ []))) l.key retired none
          ≡ ok (restarted l)
    open_single-fragment l given n text retired p ring s short =
        let (b, braces) =
          laws.prints.record_braces (record_out c l p.entry_json) text p.record_printed in
        let part : take n text ≡ take n (text ++ 10 ∷ []) =
          sym (take-append_le n text (10 ∷ []) short) in
        let shape =
          subst (λ t. (take n t ≡ []) ⊎ ((r : Bytes) × (take n t ≡ 123 ∷ r))) (sym braces)
            (part_shape n 123 (b ++ 125 ∷ [])) in
        let line = All-take (λ x. x ≢ 10) n text (record_text-IsLine c laws l given text p) in
        subst (λ t. open_single c (some (l.file ++ t)) l.key retired none ≡ ok (restarted l)) part
          (reopen l l (l.file ++ take n text) retired ring (refl, refl) s
            (resolve_open_head-fragment l (take n text) s line shape))

    open_single-whole :
        (l : Ledger) (given : Entry) (n : ℕ) (text : Bytes) (retired : List Bytes)
        (p : Printed c l given text)
        → push_key retired (c.verifying_key l.key) ≡ l.verifiers
        → IsSound c l
        → IsReadable c given
        → length text < n
        → open_single c (some (l.file ++ take n (text ++ 10 ∷ []))) l.key retired none
          ≡ ok (restarted (appended c l p.entry_json text))
    open_single-whole l given n text retired p ring s readable long =
        let l' = appended c l p.entry_json text in
        let s' = appended-IsSound c laws l given text p s readable in
        let room : n - length text ≡ suc (n - length text - 1) = omega (arith, long) in
        let all : text ++ 10 ∷ [] ≡ take n (text ++ 10 ∷ []) = sym (
          take-append_ge n text (10 ∷ []) (omega (arith, long))
          ∙ ap (λ k. text ++ take k (10 ∷ [])) room
          ∙ one_byte (n - length text - 1)) in
        subst (λ t. open_single c (some (l.file ++ t)) l.key retired none ≡ ok (restarted l')) all
          (ap (λ f. open_single c (some f) l.key retired none) (sym (append_nil l'.file))
            ∙ reopen l l' (l'.file ++ []) retired ring (refl, refl) s'
                (resolve_open_head-fragment l' [] s' tt (inl refl)))
      where
        one_byte : (k : ℕ) → text ++ take (suc k) (10 ∷ []) ≡ text ++ 10 ∷ []
        one_byte zero = refl
        one_byte (suc k) = refl

    -- A sound writer whose write of an entry that prints, and that the parser reads back, failed is opened again, with the same key and
    -- ring, at the record before the write, whatever part of the line is in the file, or behind that record, when all of its bytes are.
    pub append-open_single :
        (l : Ledger) (given : Entry) (n : ℕ) (text : Bytes) (retired : List Bytes)
        (p : Printed c l given text)
        → push_key retired (c.verifying_key l.key) ≡ l.verifiers
        → IsSound c l
        → IsReadable c given
        → l.failed ≡ false
        → open_single c (some (append c l given (broke n)).1.file) l.key retired none
          ≡ ok (restarted (if leb n (length text) then l else appended c l p.entry_json text))
    append-open_single l given n text retired p ring s readable f =
        ap (λ (o : Outcome Record). open_single c (some o.1.file) l.key retired none)
          (append-broke c l given n text p f)
        ∙ either (Bool-cases (leb n (length text)))
      where
        either :
            (leb n (length text) ≡ true) ⊎ (leb n (length text) ≡ false)
            → open_single c (some (l.file ++ take n (text ++ 10 ∷ []))) l.key retired none
              ≡ ok (restarted (if leb n (length text) then l else appended c l p.entry_json text))
        either (inl short) =
            open_single-fragment l given n text retired p ring s (ground (arith, short))
            ∙ ap (λ t. ok (restarted (if t then l else appended c l p.entry_json text))) (sym short)
        either (inr long) =
            open_single-whole l given n text retired p ring s readable (ground (arith, long))
            ∙ ap (λ t. ok (restarted (if t then l else appended c l p.entry_json text))) (sym long)
