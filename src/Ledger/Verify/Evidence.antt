-- ===== src/Ledger/Verify/Evidence.antt =====
-- The head of a log fixes its history.
use mathlib.Core.Option as Options
use decern.Base.{
  ◌≡◌, refl, sym, ap, ap₂, ◌∙◌, subst, true, arith, ltb, ◌⊎◌, inl, inr, Option, some, List, [], ◌∷◌,
  ◌++◌, map, Bytes, length, length-append, append_inj,
}
use decern.Ledger.Record.{Crates, HashLaws, RecordIn, Result, ok, genesis, chain_hash}
use decern.Ledger.Merkle.Binding.{Collision, sha256_inj}
use decern.Ledger.Verify.{ReadWindow, VerifyReport, verify_lines}
use decern.Ledger.Verify.Chain.{
  record_lines, HashLink, HashChain, Chain-HashChain, Reports, verify_lines-Reports,
}

module _ (c : Crates) where
  -- The stored bytes of a line's entry.
  pub entry_text : Bytes → Option Bytes
  entry_text line = Options.map (λ (r : RecordIn). r.entry) (c.parse_record line)

module _ (c : Crates) (laws : HashLaws c) where
  hex_encode_inj : (a b : Bytes) → c.hex_encode a ≡ c.hex_encode b → a ≡ b
  hex_encode_inj a b e = ground (arith, laws.hex_inverse a, laws.hex_inverse b, ap c.hex_decode e)

  -- The hash binds the entry and the previous hash, as long as previous hashes have one length.
  pub chain_hash_inj :
      (e e' p p' : Bytes)
      → length p ≡ length p'
      → c.hex_encode (chain_hash c e p) ≡ c.hex_encode (chain_hash c e' p')
      → ((e ≡ e') × (p ≡ p')) ⊎ Collision c.sha256
  unfolding chain_hash
  chain_hash_inj e e' p p' h q =
      elim (sha256_inj c.sha256 (e ++ p) (e' ++ p') (hex_encode_inj _ _ q)) [
        | inr x ↦ inr x
        | inl same ↦ inl (
            append_inj e e' p p'
              (omega (arith, ap length same, length-append e p, length-append e' p')) same)
      ]

  pub HashLink-hash_size : {prev line : Bytes} (l : HashLink c prev line) → length l.r.hash ≡ 64
  unfolding chain_hash
  HashLink-hash_size l =
      ap length (sym l.hashed)
      ∙ laws.hex_size _
      ∙ omega (arith, laws.digest_size (l.r.entry ++ l.r.prev))

  HashLink-entry_text :
      {prev line : Bytes} (l : HashLink c prev line) → entry_text c line ≡ some l.r.entry
  unfolding entry_text
  HashLink-entry_text l = rw l.parsed

  -- Two chains of one length to one head hold the same entries after the same hash.
  pub HashChain-inj :
      {root p p' : Bytes} {ls ls' : List Bytes}
      → length ls ≡ length ls'
      → length p ≡ length p'
      → HashChain c root p ls
      → HashChain c root p' ls'
      → ((p ≡ p') × (map (entry_text c) ls ≡ map (entry_text c) ls')) ⊎ Collision c.sha256
  HashChain-inj n h (HashChain.end e) (HashChain.end e') = inl (e ∙ sym e', refl)
  HashChain-inj n h (HashChain.end e) (HashChain.link l k) = absurd (omega arith)
  HashChain-inj n h (HashChain.link l k) (HashChain.end e) = absurd (omega arith)
  HashChain-inj n h (HashChain.link l k) (HashChain.link l' k') =
      elim (HashChain-inj (omega arith) (HashLink-hash_size l ∙ sym (HashLink-hash_size l')) k k') [
        | inr x ↦ inr x
        | inl (heads, rest) ↦
            elim (chain_hash_inj l.r.entry l'.r.entry l.r.prev l'.r.prev
              (ap length l.linked ∙ h ∙ sym (ap length l'.linked))
              (l.hashed ∙ heads ∙ sym l'.hashed)) [
                | inr x ↦ inr x
                | inl (entries, prevs) ↦ inl (
                  sym l.linked ∙ prevs ∙ l'.linked,
                  ap₂ ◌∷◌ (HashLink-entry_text l ∙ ap some entries ∙ sym (HashLink-entry_text l'))
                      rest,
                )
              ]
      ]

  same_history :
      {ls ls' : List Bytes} {report report' : VerifyReport}
      → Reports c ls report
      → Reports c ls' report'
      → report.entries ≡ report'.entries
      → report.root ≡ report'.root
      → (map (entry_text c) ls ≡ map (entry_text c) ls') ⊎ Collision c.sha256
  same_history {ls = []} {ls' = []} x y n r = inl refl
  same_history {ls = []} {ls' = l ∷ ls'} x y n r = absurd (omega (arith, x.counted, y.counted))
  same_history {ls = l ∷ ls} {ls' = []} x y n r = absurd (omega (arith, x.counted, y.counted))
  same_history {ls = l ∷ ls} {ls' = l' ∷ ls'} {report} {report'} x y n r =
      let some_first : ltb 0 report.entries ≡ true = ground (arith, x.counted) in
      let some_second : ltb 0 report'.entries ≡ true = ground (arith, y.counted) in
      let rx : report.root ≡ some x.root = x.rooted ∙ rw some_first in
      let ry : report'.root ≡ some y.root = y.rooted ∙ rw some_second in
      let roots : x.root ≡ y.root = cc (rx, ry, r) in
      elim (HashChain-inj (omega (arith, x.counted, y.counted, n)) refl (Chain-HashChain c x.chain)
        (subst (λ (t : Bytes). HashChain c t genesis (l' ∷ ls')) (sym roots)
          (Chain-HashChain c y.chain))) [ inl (_, entries) ↦ inl entries | inr z ↦ inr z ]

  -- If the scans of two logs report one number of entries and one root, then the logs hold the same
  -- entries, byte for byte and in order, or a collision of SHA-256 is at hand. The keys and windows
  -- of the two scans may differ.
  pub verify_lines-same_history :
      (lines lines' : List (Result Bytes)) (keys keys' : List Bytes)
      (sink sink' : Option ReadWindow) (report report' : VerifyReport)
      (window window' : Option ReadWindow)
      → verify_lines c lines keys sink ≡ ok (report, window)
      → verify_lines c lines' keys' sink' ≡ ok (report', window')
      → report.entries ≡ report'.entries
      → report.root ≡ report'.root
      → (map (entry_text c) (record_lines lines) ≡ map (entry_text c) (record_lines lines'))
        ⊎ Collision c.sha256
  verify_lines-same_history lines lines' keys keys' sink sink' report report' window window' h h' n
        r =
      same_history (verify_lines-Reports c lines keys sink report window h)
        (verify_lines-Reports c lines' keys' sink' report' window' h') n r
