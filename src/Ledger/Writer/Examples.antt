-- ===== src/Ledger/Writer/Examples.antt =====
-- A writer with a new log under stand-ins that print one record only, and the properties of the writer at it.
use decern.Base.{
  ◌+◌, ◌==◌, ◌≡◌, refl, sym, ap, ◌∙◌, subst, Bool, true, false, inr, Option, none, some, [], ◌∷◌,
  ◌++◌, Bytes, bytes_eq, bytes_eq_sound, bytes_eq_refl, arith, if◌then◌else◌, leb,
}
use decern.Ledger.Record.{Entry, RecordIn, ok, Crates, genesis, chain_hash, key_fingerprint}
use decern.Ledger.Verify.{report_of}
use decern.Ledger.Merkle.Examples.{digest, length-fit}
use decern.Ledger.Examples.{crates, encode, laws, signature, entry_at}
use decern.Ledger.File.{scan_torn_tail}
use decern.Ledger.File.Torn.{IsLine, scan_torn_tail_lem}
use decern.Ledger.Writer.{
  Ledger, landed, broke, append, self_verify, open_single, new_ledger, any_key_eq,
}
use decern.Ledger.Writer.Append.{Laws, IsReadable, Printed, head_of}
use decern.Ledger.Writer.Invariant.{IsSound, appended}
use decern.Ledger.Writer.Steps.{Appends, written, append-Appends, append-landed}
use decern.Base.Json.{Json}
use decern.Ledger.Verify.{is_blank}
use decern.Ledger.File.{read_lines}
use decern.Ledger.Writer.Records.{Hold, read_window, read_window-Hold}
use decern.Ledger.Writer.Runs.{Run, Run-self_verify}
use decern.Ledger.Writer.Recovery.{new_ledger-IsSound, restarted, append-open_single}

abbrev key : Bytes
key = 7 ∷ []

abbrev entry_json : Bytes
entry_json = 100 ∷ []

abbrev the_hash : Bytes
the_hash = digest (entry_json ++ genesis)

abbrev make : Bytes → Bytes → Bytes → Bytes → Option Bytes → RecordIn
make e p h s k = record { entry = e; prev = p; hash = h; sig_b64 = s; kid = k }

abbrev the_record : RecordIn
the_record = make entry_json genesis (encode the_hash) (signature key the_hash) (some (encode key))

abbrev text : Bytes
text = 123 ∷ 65 ∷ 125 ∷ []

abbrev is_kid : Option Bytes → Bool
is_kid none = false
is_kid (some k) = bytes_eq (encode key) k

is_kid_sound : (o : Option Bytes) → is_kid o ≡ true → some (encode key) ≡ o
is_kid_sound none h = cc
is_kid_sound (some k) h = ap some (bytes_eq_sound (encode key) k h)

abbrev print_one : Bool → Bool → Bool → Bool → Bool → Option Bytes
print_one true true true true true = some text
print_one a b c d e = none

abbrev writer_crates : Crates
writer_crates = record crates {
  parse_record = λ b. if bytes_eq b text then some the_record else none;
  parse_entry = λ b. if bytes_eq b entry_json then some (entry_at 0) else none;
  print_entry = λ e. if e.seq == 0 then some entry_json else none;
  print_record = λ r.
      print_one (bytes_eq entry_json r.entry) (bytes_eq genesis r.prev)
        (bytes_eq (encode the_hash) r.hash) (bytes_eq (signature key the_hash) r.sig_b64)
        (is_kid r.kid);
}

print_one_inv :
    (a b c d e : Bool) {t : Bytes}
    → print_one a b c d e ≡ some t
    → (a ≡ true) × (b ≡ true) × (c ≡ true) × (d ≡ true) × (e ≡ true) × (text ≡ t)
print_one_inv false b c d e h = cc
print_one_inv true false c d e h = cc
print_one_inv true true false d e h = cc
print_one_inv true true true false e h = cc
print_one_inv true true true true false h = cc
print_one_inv true true true true true h =
    (refl, refl, refl, refl, refl, (let e : text ≡ _ = cc h in e))

record_printed :
    (r : RecordIn) (t : Bytes)
    → writer_crates.print_record r ≡ some t
    → (the_record ≡ r) × (text ≡ t)
record_printed r t h =
    let (a, b, c, d, e, f) = print_one_inv _ _ _ _ _ h in
    (
      ap (λ x. make x genesis (encode the_hash) (signature key the_hash) (some (encode key)))
            (bytes_eq_sound entry_json r.entry a)
          ∙ ap (λ x. make r.entry x (encode the_hash) (signature key the_hash) (some (encode key)))
              (bytes_eq_sound genesis r.prev b)
          ∙ ap (λ x. make r.entry r.prev x (signature key the_hash) (some (encode key)))
              (bytes_eq_sound (encode the_hash) r.hash c)
          ∙ ap (λ x. make r.entry r.prev r.hash x (some (encode key)))
              (bytes_eq_sound (signature key the_hash) r.sig_b64 d)
          ∙ ap (λ x. make r.entry r.prev r.hash r.sig_b64 x) (is_kid_sound r.kid e),
      f,
    )

entry_printed :
    (e : Entry) (t : Bytes) → writer_crates.print_entry e ≡ some t → (e.seq ≡ 0) × (entry_json ≡ t)
entry_printed e t = go (e.seq == 0) refl
  where
    go :
        (b : Bool)
        → (e.seq == 0) ≡ b
        → (if b then some entry_json else none) ≡ some t
        → (e.seq ≡ 0) × (entry_json ≡ t)
    go true q h = (ground (arith, q), (let x : entry_json ≡ t = cc h in x))
    go false q h = cc

writer_laws : Laws writer_crates
unfolding bytes_eq
writer_laws = record {
  hashes = record {
    digest_size = laws.digest_size;
    hex_size = laws.hex_size;
    hex_inverse = laws.hex_inverse;
  };
  signs = record {
    base64_inverse = λ b. refl;
    signature_size = λ k message. length-fit 64 (k ++ message);
    signature_verifies = λ k message. bytes_eq_refl (signature k message);
  };
  prints = record {
    entry_line =
        λ e t h. subst (IsLine) (entry_printed e t h).1 ((λ e. absurd (omega (arith, e))), tt);
    record_line = λ r t h l. subst IsLine (record_printed r t h).1 (
      (λ e. absurd (omega (arith, e))),
      ((λ e. absurd (omega (arith, e))), ((λ e. absurd (omega (arith, e))), tt)),
    );
    record_braces = λ r t h. (65 ∷ [], sym (record_printed r t h).1);
    record_utf8 = λ r t h. refl;
    record_inverse = λ e r t h h'.
        let (same, same_text) = record_printed r t h' in
        subst (λ x. writer_crates.parse_record x ≡ some r) same_text (ap some same);
  };
}

readable : IsReadable writer_crates (entry_at 0)
unfolding IsReadable bytes_eq
readable seq t h =
    let (zero_seq, same) = entry_printed (record (entry_at 0) { seq = seq }) t h in
    (
      entry_at 0,
      subst (λ x. writer_crates.parse_entry x ≡ some (entry_at 0)) same refl,
      sym zero_seq,
    )

abbrev fresh : Ledger
fresh = new_ledger writer_crates key (key ∷ [])

fresh-IsSound : IsSound writer_crates fresh
unfolding any_key_eq
fresh-IsSound = new_ledger-IsSound writer_crates key []

printed : Printed writer_crates fresh (entry_at 0) text
unfolding bytes_eq chain_hash key_fingerprint
printed = record { entry_json = entry_json; entry_printed = refl; record_printed = refl }

abbrev after : Ledger
after = appended writer_crates fresh entry_json text

first_append :
    append writer_crates fresh (entry_at 0) landed
    ≡ (ok (written writer_crates fresh (entry_at 0) entry_json), after)
unfolding printed
first_append = append-landed writer_crates fresh (entry_at 0) text printed refl

first-Run : Run writer_crates writer_laws fresh 1 after
first-Run =
    Run.then_append (entry_at 0) landed (written writer_crates fresh (entry_at 0) entry_json)
      readable first_append (Run.stay after)

Run-self_verify_example :
    (self_verify writer_crates after ≡ ok (report_of after.verifiers (head_of writer_crates after)))
    × (after.next_seq ≡ fresh.next_seq + 1)
Run-self_verify_example = Run-self_verify writer_crates writer_laws fresh-IsSound first-Run

append-Appends_example :
    Appends writer_crates fresh
      (entry_at 0)
      (broke 2)
      (append writer_crates fresh (entry_at 0) (broke 2))
append-Appends_example = append-Appends writer_crates fresh (entry_at 0) (broke 2)

-- Two bytes of the line are in the file.
append-open_single_example :
    open_single writer_crates
      (some (append writer_crates fresh (entry_at 0) (broke 2)).1.file)
      key
      []
      none
    ≡ ok (restarted (if leb 2 3 then fresh else after))
unfolding any_key_eq printed
append-open_single_example =
    append-open_single writer_crates writer_laws fresh (entry_at 0) 2 text [] printed refl
      fresh-IsSound readable refl

scan_torn_tail_lem_example : scan_torn_tail (65 ∷ 10 ∷ 66 ∷ []) ≡ some 2
scan_torn_tail_lem_example =
    scan_torn_tail_lem (65 ∷ 10 ∷ []) (66 ∷ []) (inr (65 ∷ [], refl))
      ((λ e. absurd (omega (arith, e))), tt)

-- The parser of the stand-ins takes every line as the JSON null.
read_window-Hold_example :
    read_window writer_crates.parse_value writer_crates after 0 9 ≡ ok (Json.null ∷ [])
unfolding read_lines is_blank
read_window-Hold_example =
    read_window-Hold writer_crates.parse_value writer_crates after 0 9 (Json.null ∷ [])
      (Hold.one_line refl refl Hold.no_line)
