-- ===== src/Ledger/Writer/Steps.antt =====
-- Every call of the writer: which outcomes it has, and that the outcomes which succeed keep the invariant.
use decern.Base.{
  ℕ, ◌≡◌, refl, sym, ap, ◌∙◌, subst, true, false, if◌then◌else◌, Bool-cases, Option-cases, inl, inr,
  none, some, [], ◌∷◌, ◌++◌, take, Bytes,
}
use decern.Ledger.Record.{Crates, Entry, LedgerError, ok, err}
use decern.Ledger.Writer.{
  Ledger, Record, Write, landed, broke, Outcome, write_line, commit, write_entry, append, kid_of,
  record_out,
}
use decern.Ledger.Writer.Append.{Laws, Printed, IsReadable}
use decern.Ledger.Writer.Invariant.{IsSound, appended, appended-IsSound}

module _ (c : Crates) where
  abbrev pub written : Ledger → Entry → Bytes → Record
  written l given entry_json = record {
    entry = record given { seq = l.next_seq };
    prev = l.last_hash;
    hash = (record_out c l entry_json).hash;
    sig_b64 = (record_out c l entry_json).sig_b64;
    kid = some (kid_of c l.key);
  }

  -- The ledger after a write that failed with `n` bytes in the file.
  abbrev pub cut_off : Ledger → Bytes → ℕ → Ledger
  cut_off l text n = record l { file = l.file ++ take n (text ++ 10 ∷ []); failed = true }

  -- The outcomes of an append.
  pub data Appends (l : Ledger) (given : Entry) : Write → Outcome Record → Type 0 where
    had_failed : {w : Write} → l.failed ≡ true → Appends l given w (err (LedgerError.io []), l)
    not_printed :
        {w : Write}
        → l.failed ≡ false
        → ((text : Bytes) → ¬ (Printed c l given text))
        → Appends l given w (err LedgerError.serde, l)
    grew :
        {text : Bytes} (p : Printed c l given text)
        → l.failed ≡ false
        → Appends l given landed (ok (written l given p.entry_json), appended c l p.entry_json text)
    cut :
        (n : ℕ) {text : Bytes} (p : Printed c l given text)
        → l.failed ≡ false
        → Appends l given (broke n) (err (LedgerError.io []), cut_off l text n)

  append-failed :
      (l : Ledger) (given : Entry) (w : Write)
      → l.failed ≡ true
      → append c l given w ≡ (err (LedgerError.io []), l)
  unfolding append
  append-failed l given w f =
      ap
        (λ b.
          if b
          then (err (LedgerError.io []), l)
          else write_entry c l (record given { seq = l.next_seq }) w)
        f

  append-write_entry :
      (l : Ledger) (given : Entry) (w : Write)
      → l.failed ≡ false
      → append c l given w ≡ write_entry c l (record given { seq = l.next_seq }) w
  unfolding append
  append-write_entry l given w f =
      ap
        (λ b.
          if b
          then (err (LedgerError.io []), l)
          else write_entry c l (record given { seq = l.next_seq }) w)
        f

  append-commit :
      (l : Ledger) (given : Entry) (w : Write) (text : Bytes) (p : Printed c l given text)
      → l.failed ≡ false
      → append c l given w
        ≡ commit c l
            (record given { seq = l.next_seq })
            (record_out c l p.entry_json)
            (write_line l (text ++ 10 ∷ []) w)
  unfolding write_entry
  append-commit l given w text p f =
      append-write_entry l given w f ∙ rw (write_entry, p.entry_printed, p.record_printed) refl

  -- A write that fails latches the writer.
  pub append-broke :
      (l : Ledger) (given : Entry) (n : ℕ) (text : Bytes) (p : Printed c l given text)
      → l.failed ≡ false
      → append c l given (broke n) ≡ (err (LedgerError.io []), cut_off l text n)
  unfolding commit write_line
  append-broke l given n text p f = append-commit l given (broke n) text p f ∙ refl

  -- The append of an entry that prints succeeds on a writer that has not failed when its write does.
  pub append-landed :
      (l : Ledger) (given : Entry) (text : Bytes) (p : Printed c l given text)
      → l.failed ≡ false
      → append c l given landed
        ≡ (ok (written l given p.entry_json), appended c l p.entry_json text)
  unfolding commit write_line
  append-landed l given text p f = append-commit l given landed text p f ∙ refl

  write_entry-Appends :
      (l : Ledger) (given : Entry) (w : Write)
      → l.failed ≡ false
      → Appends l given w (write_entry c l (record given { seq = l.next_seq }) w)
  unfolding write_entry commit write_line
  write_entry-Appends l given w f =
      elim (Option-cases (c.print_entry (record given { seq = l.next_seq }))) [
        | inl missing ↦
            rw (write_entry, missing)
              (Appends.not_printed f λ text p. cc (p.entry_printed, missing))
        | inr (entry_json, e) ↦ elim (Option-cases (c.print_record (record_out c l entry_json))) [
          | inl missing ↦
              rw (write_entry, e, missing) (Appends.not_printed f (unprinted entry_json e missing))
          | inr (text, e') ↦
              rw (write_entry, e, e')
                (lands w text
                  (record { entry_json = entry_json; entry_printed = e; record_printed = e' }))
        ]
      ]
    where
      unprinted :
          (entry_json : Bytes)
          → c.print_entry (record given { seq = l.next_seq }) ≡ some entry_json
          → c.print_record (record_out c l entry_json) ≡ none
          → (text : Bytes) → ¬ (Printed c l given text)
      unprinted entry_json e missing text p =
          let printed : some p.entry_json ≡ some entry_json = sym p.entry_printed ∙ e in
          let same : p.entry_json ≡ entry_json = cc printed in
          let both : none ≡ some text =
            sym missing
            ∙ sym (ap (λ j. c.print_record (record_out c l j)) same)
            ∙ p.record_printed in
          cc both

      lands :
          (w : Write) (text : Bytes) (p : Printed c l given text)
          → Appends l given w (
              commit c l
                (record given { seq = l.next_seq })
                (record_out c l p.entry_json)
                (write_line l (text ++ 10 ∷ []) w))
      lands landed text p = Appends.grew p f
      lands (broke n) text p = Appends.cut n p f

  -- An append refuses when an earlier write failed or the entry does not print, and leaves the ledger as it was. Only
  -- when no earlier write failed and the entry prints, it adds one record to the file and to the handle, or, where the write
  -- fails, leaves a part of the line in the file and the handle latched.
  pub append-Appends :
      (l : Ledger) (given : Entry) (w : Write) → Appends l given w (append c l given w)
  append-Appends l given w = elim (Bool-cases l.failed) [
    | inl f ↦ subst (Appends l given w) (sym (append-failed l given w f)) (Appends.had_failed f)
    | inr f ↦
        subst (Appends l given w) (sym (append-write_entry l given w f))
          (write_entry-Appends l given w f)
  ]

  module _ (laws : Laws c) where
    -- What an append that succeeds did.
    pub record Appended (l : Ledger) (given : Entry) (r : Record) (l' : Ledger) : Type 0 where
      pub text : Bytes
      pub printed : Printed c l given text
      pub grown : l' ≡ appended c l printed.entry_json text
      pub sound : IsSound c l'

    Appends-Appended :
        (l : Ledger) (given : Entry) (w : Write) (o : Outcome Record) (r : Record) (l' : Ledger)
        → IsSound c l
        → IsReadable c given
        → Appends l given w o
        → o ≡ (ok r, l')
        → Appended l given r l'
    Appends-Appended l given w o r l' s readable (Appends.had_failed f) e = absurd (cc e)
    Appends-Appended l given w o r l' s readable (Appends.not_printed f u) e = absurd (cc e)
    Appends-Appended l given w o r l' s readable (Appends.cut n p f) e = absurd (cc e)
    Appends-Appended l given w o r l' s readable (Appends.grew {text} p f) e =
        let same = ap (λ (x : Outcome Record). x.1) e in
        record {
          text = text;
          printed = p;
          grown = sym same;
          sound = subst (IsSound c) same (appended-IsSound c laws l given text p s readable);
        }

    -- An append that succeeds adds one printed record and its newline to the file of a sound writer, and leaves
    -- the writer sound.
    pub append-IsSound :
        (l : Ledger) (given : Entry) (w : Write) (r : Record) (l' : Ledger)
        → IsSound c l
        → IsReadable c given
        → append c l given w ≡ (ok r, l')
        → Appended l given r l'
    append-IsSound l given w r l' s readable e =
        Appends-Appended l given w (append c l given w) r l' s readable (append-Appends l given w) e
