-- ===== src/Ledger/Writer/Append.antt =====
-- The line that a writer adds is one that the scan of its log accepts.
use decern.Base.{
  ℕ, ◌+◌, ◌==◌, ◌≡◌, refl, sym, ap, ◌∙◌, true, arith, Bool-cases, inl, inr, none, some, List, [],
  ◌∷◌, ◌++◌, Bytes, bytes_eq, bytes_eq_refl, bytes_eq_sound, bytes_eq_iff,
}
use decern.Ledger.Record.{Crates, Entry, RecordIn, ok, chain_hash, key_fingerprint, HashLaws}
use decern.Ledger.Verify.{
  Scan, accepted, any_key, find_kid, signer_of, signature_bytes, check_signer, signers_after,
  keep_line, admit, check_record, verify_line, successor, signed_last, succeed,
}
use decern.Ledger.Commitments.Signing.{SignLaws}
use decern.Ledger.File.Torn.{IsLine}
use decern.Ledger.Writer.{Ledger, any_key_eq, kid_of, record_out, spans_after}

-- Documented behaviour of serde_json: a text that was printed is one object on one line of UTF-8, and a record that was
-- printed around a printed entry is read back.
pub record PrintLaws (c : Crates) : Type 0 where
  pub entry_line : (e : Entry) (text : Bytes) → c.print_entry e ≡ some text → IsLine text
  pub record_line :
      (r : RecordIn) (text : Bytes) → c.print_record r ≡ some text → IsLine r.entry → IsLine text
  pub record_braces :
      (r : RecordIn) (text : Bytes)
      → c.print_record r ≡ some text
      → (b : Bytes) × (text ≡ 123 ∷ (b ++ 125 ∷ []))
  pub record_utf8 :
      (r : RecordIn) (text : Bytes) → c.print_record r ≡ some text → c.is_utf8 text ≡ true
  pub record_inverse :
      (e : Entry) (r : RecordIn) (text : Bytes)
      → c.print_entry e ≡ some r.entry
      → c.print_record r ≡ some text
      → c.parse_record text ≡ some r

-- The parser reads the printed entry, with its number, whatever number it gets. It refuses one that is nested too deep.
unfoldable pub IsReadable : Crates → Entry → Type 0
IsReadable c given =
    (seq : ℕ) (text : Bytes)
    → c.print_entry (record given { seq = seq }) ≡ some text
    → (e : Entry) × (c.parse_entry text ≡ some e) × (e.seq ≡ seq)

pub record Laws (c : Crates) : Type 0 where
  pub hashes : HashLaws c
  pub signs : SignLaws c
  pub prints : PrintLaws c

module _ (c : Crates) where
  -- The writer may sign: its key is in the ring, and no other key succeeded it.
  pub record MaySign (l : Ledger) : Type 0 where
    pub in_ring : any_key_eq l.verifiers (c.verifying_key l.key) ≡ true
    pub current : successor l.signers (kid_of c l.key) ≡ none

  -- The texts of an entry that is appended.
  pub record Printed (l : Ledger) (given : Entry) (text : Bytes) : Type 0 where
    pub entry_json : Bytes
    pub entry_printed : c.print_entry (record given { seq = l.next_seq }) ≡ some entry_json
    pub record_printed : c.print_record (record_out c l entry_json) ≡ some text

  -- The scan of the writer's log, at its head and one record later.
  abbrev pub head_of : Ledger → Scan
  head_of l = record { prev = l.last_hash; count = l.next_seq; signers = l.signers; sink = none }

  abbrev pub head_after : Ledger → Bytes → Scan
  head_after l entry_json = record {
    prev = (record_out c l entry_json).hash;
    count = l.next_seq + 1;
    signers = spans_after c l;
    sink = none;
  }

  pub any_key_eq-any_key :
      (keys : List Bytes) (k : Bytes) → any_key_eq keys k ≡ true → any_key keys ≡ true
  unfolding any_key_eq any_key
  any_key_eq-any_key [] k h = cc
  any_key_eq-any_key (x ∷ keys) k h = refl

  module _ (laws : Laws c) where
    fingerprint_inj : (a b : Bytes) → key_fingerprint c a ≡ key_fingerprint c b → a ≡ b
    unfolding key_fingerprint
    fingerprint_inj a b e =
        let h : some a ≡ some b =
          sym (laws.hashes.hex_inverse a) ∙ ap c.hex_decode e ∙ laws.hashes.hex_inverse b in
        cc

    find_kid-ring :
        (keys : List Bytes) (k : Bytes)
        → any_key_eq keys k ≡ true
        → find_kid c keys (key_fingerprint c k) ≡ some k
    unfolding find_kid any_key_eq
    find_kid-ring [] k h = cc
    find_kid-ring (x ∷ keys) k h =
        elim (Bool-cases (bytes_eq (key_fingerprint c x) (key_fingerprint c k))) [
          | inl same ↦ rw same (ap some (fingerprint_inj x k (bytes_eq_sound _ _ same)))
          | inr other ↦ elim (Bool-cases (bytes_eq x k)) [
            | inl e ↦
                let f : key_fingerprint c x ≡ key_fingerprint c k =
                  ap (key_fingerprint c) (bytes_eq_sound x k e) in
                absurd (ground (arith, bytes_eq_iff (key_fingerprint c x) (key_fingerprint c k)))
            | inr n ↦ rw other (find_kid-ring keys k (rw n at h))
          ]
        ]

    succeed-spans :
        (l : Ledger)
        → MaySign l
        → succeed l.signers l.next_seq (kid_of c l.key) ≡ accepted (spans_after c l)
    unfolding succeed
    succeed-spans l m = elim (Bool-cases (signed_last l.signers (kid_of c l.key))) [
      | inl last ↦ rw last refl
      | inr other ↦ rw (other, m.current) refl
    ]

    check_signer-writer :
        (l : Ledger) (hash : Bytes)
        → MaySign l
        → check_signer c l.signers l.verifiers l.next_seq hash
            (c.base64_encode (c.sign l.key hash))
            (some (kid_of c l.key))
          ≡ accepted (spans_after c l)
    unfolding check_signer signature_bytes signer_of
    check_signer-writer l hash m =
        rw
          (
            check_signer,
            signature_bytes,
            signer_of,
            laws.signs.base64_inverse (c.sign l.key hash),
            laws.signs.signature_size l.key hash,
            find_kid-ring l.verifiers (c.verifying_key l.key) m.in_ring,
            laws.signs.signature_verifies l.key hash,
          )
          (succeed-spans l m)

    signers_after-writer :
        (l : Ledger) (entry_json : Bytes)
        → MaySign l
        → signers_after c l.verifiers
            (head_of l)
            (chain_hash c entry_json l.last_hash)
            (record_out c l entry_json)
          ≡ ok (spans_after c l)
    unfolding signers_after
    signers_after-writer l entry_json m =
        let k = any_key_eq-any_key l.verifiers (c.verifying_key l.key) m.in_ring in
        rw (signers_after, k, check_signer-writer l (chain_hash c entry_json l.last_hash) m) refl

    check_record-writer :
        (l : Ledger) (entry_json text : Bytes) (e : Entry)
        → MaySign l
        → e.seq ≡ l.next_seq
        → check_record c l.verifiers (head_of l) text (record_out c l entry_json) e
          ≡ ok (head_after l entry_json)
    unfolding check_record admit keep_line
    check_record-writer l entry_json text e m seq =
        let number : (e.seq == l.next_seq) ≡ true = ground (arith, seq) in
        rw
          (
            check_record,
            number,
            bytes_eq_refl l.last_hash,
            bytes_eq_refl (c.hex_encode (chain_hash c entry_json l.last_hash)),
            admit,
            signers_after-writer l entry_json m,
          )
          refl

    -- The scan accepts the line at the head, and its new head is the writer's.
    pub verify_line-writer :
        (l : Ledger) (given : Entry) (text : Bytes) (i : ℕ) (p : Printed l given text)
        → MaySign l
        → IsReadable c given
        → verify_line c l.verifiers (head_of l) i text ≡ ok (head_after l p.entry_json)
    unfolding verify_line IsReadable
    verify_line-writer l given text i p m readable =
        let (e, read, seq) = readable l.next_seq p.entry_json p.entry_printed in
        let parsed =
          laws.prints.record_inverse (record given { seq = l.next_seq })
            (record_out c l p.entry_json) text p.entry_printed p.record_printed in
        rw (verify_line, parsed, read) (check_record-writer l p.entry_json text e m seq)
