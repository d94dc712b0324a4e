-- ===== src/Ledger/Examples.antt =====
-- A log of two records under stand-ins for the functions of other crates, and the properties of the scan
-- and of the anchor at it.
use decern.Base.{
  ℕ, ◌+◌, ◌≡◌, ◌↔◌, refl, true, false, ◌⊎◌, Option, none, some, List, [], ◌∷◌, ◌++◌, map, length,
  take, All, Bytes, bytes_eq, arith, if◌then◌else◌,
}
use decern.Base.Json.{Json}
use decern.Ledger.Record.{
  Entry, RecordIn, Why, LedgerError, Result, ok, err, Crates, HashLaws, genesis, EdgeType,
  SponsorSource,
}
use decern.Ledger.Verify.{
  VerifyReport, verify_lines, verify_line, check_signer, successor, signed_last, succeed, any_key,
}
use decern.Ledger.Verify.Chain.{Reports, record_lines, verify_lines-Reports}
use decern.Ledger.Verify.Evidence.{entry_text, verify_lines-same_history}
use decern.Ledger.Verify.Signers.{IsSuccession}
use decern.Ledger.Verify.Authentic.{Signed, verify_lines-Signed}
use decern.Base.{drop}
use decern.Ledger.Verify.{verify_inner}
use decern.Ledger.Verify.Read.{read_verified_with_keys, read_verified_with_keys-Reports}
use decern.Ledger.Verify.Window.{read_verified_with_keys-window}
use decern.Ledger.Merkle.Binding.{Collision}
use decern.Ledger.Merkle.Examples.{digest, digest_size, fit}
use decern.Ledger.Anchor.{
  verify_against_anchor, refuse_removed_history, checkpoint_bytes, commitment_bytes,
}
use decern.Ledger.Anchor.Vouched.{SignedUnder}
use decern.Ledger.Anchor.Trust.{
  Holds, NothingRemoved, verify_against_anchor-vouched, refuse_removed_history-empty,
}
use decern.Ledger.Anchor.{Checkpoint, ledger_extends_checkpoint}
use decern.Ledger.Anchor.Extends.{ledger_extends_checkpoint-append, ledger_extends_checkpoint_sound}

abbrev pub encode : Bytes → Bytes
encode [] = []
encode (x ∷ b) = x ∷ 0 ∷ encode b

abbrev pub decode : Bytes → Option Bytes
decode [] = some []
decode (x ∷ []) = none
decode (x ∷ y ∷ b) = elim (decode b) [ none ↦ none | some d ↦ some (x ∷ d) ]

decode-encode : (b : Bytes) → decode (encode b) ≡ some b
decode-encode [] = refl
decode-encode (x ∷ b) = rw (decode-encode b) refl

length-encode : (b : Bytes) → length (encode b) ≡ length b + length b
length-encode [] = refl
length-encode (x ∷ b) = omega (arith, length-encode b)

abbrev pub signature : Bytes → Bytes → Bytes
signature key message = fit 64 (key ++ message)

abbrev hash_of : Bytes → Bytes → Bytes
hash_of entry prev = encode (digest (entry ++ prev))

abbrev record_of : Bytes → Bytes → RecordIn
record_of entry prev = record {
  entry = entry;
  prev = prev;
  hash = hash_of entry prev;
  sig_b64 = signature (7 ∷ []) (digest (entry ++ prev));
  kid = none;
}

abbrev first : RecordIn
first = record_of (100 ∷ []) genesis

abbrev second : RecordIn
second = record_of (101 ∷ []) first.hash

abbrev pub entry_at : ℕ → Entry
entry_at n = record {
  seq = n;
  ts_ms = 0;
  subject_type = "Principal";
  subject_id = "bot";
  action = "read";
  resource_type = "Resource";
  resource_id = "doc";
  context = Json.null;
  decision = true;
  reasons = [];
  edge = EdgeType.attenuate;
  sponsor = none;
  sponsor_source = SponsorSource.derived;
  mission = none;
  decision_subject = none;
  asserted_by = none;
  notice_required = false;
  challenge = none;
  digests = [];
}

abbrev pub read_record : Bytes → Option RecordIn
read_record b =
    if bytes_eq b (65 ∷ []) then some first else if bytes_eq b (66 ∷ []) then some second else none

abbrev pub read_entry : Bytes → Option Entry
read_entry b =
    if bytes_eq b (100 ∷ [])
    then some (entry_at 0)
    else if bytes_eq b (101 ∷ [])
    then some (entry_at 1)
    else none

abbrev pub crates : Crates
crates = record {
  sha256 = digest;
  hex_encode = encode;
  hex_decode = decode;
  base64_encode = λ b. b;
  base64_decode = λ b. some b;
  verifying_key = λ k. k;
  sign = signature;
  verify_strict = λ key message sig. bytes_eq sig (signature key message);
  parse_record = read_record;
  parse_entry = read_entry;
  parse_value = λ b. some Json.null;
  parse_hash = λ b. none;
  is_utf8 = λ b. true;
  print_entry = λ e. none;
  print_record = λ r. none;
}

pub laws : HashLaws crates
laws = record { digest_size = digest_size; hex_size = length-encode; hex_inverse = decode-encode }

-- The second line is blank.
abbrev log : List (Result Bytes)
log = ok (65 ∷ []) ∷ ok (32 ∷ []) ∷ ok (66 ∷ []) ∷ []

abbrev keys : List Bytes
keys = (7 ∷ []) ∷ []

abbrev report : VerifyReport
report = record {
  entries = 2;
  root = some second.hash;
  signatures_checked = true;
  signers = record { kid = encode (7 ∷ []); first_seq = 0 } ∷ [];
}

log-accepted : verify_lines crates log keys none ≡ ok (report, none)
unfolding verify_lines verify_line check_signer successor signed_last succeed bytes_eq
log-accepted = refl

log-other_key :
    verify_lines crates log ((8 ∷ []) ∷ []) none ≡ err (LedgerError.tamper 0 Why.signature_invalid)
unfolding verify_lines verify_line check_signer bytes_eq
log-other_key = refl

log-missing_record :
    verify_lines crates (ok (66 ∷ []) ∷ []) keys none
    ≡ err (LedgerError.tamper 0 (Why.sequence_break 1))
unfolding verify_lines verify_line bytes_eq
log-missing_record = refl

some_key : any_key keys ≡ true
unfolding any_key
some_key = refl

abbrev checkpoint : Checkpoint
checkpoint = record { root = second.hash; count = 2; ts_ms = 0; pubkey_hex = []; sig_b64 = [] }

checkpoint-extended : ledger_extends_checkpoint crates log checkpoint ≡ ok true
unfolding ledger_extends_checkpoint bytes_eq
checkpoint-extended = refl

checkpoint-truncated : ledger_extends_checkpoint crates (ok (65 ∷ []) ∷ []) checkpoint ≡ ok false
unfolding ledger_extends_checkpoint bytes_eq
checkpoint-truncated = refl

verify_lines-same_history_example :
    (map (entry_text crates) (record_lines log) ≡ map (entry_text crates) (record_lines log))
    ⊎ Collision digest
verify_lines-same_history_example =
    verify_lines-same_history crates laws log log keys keys none none report report none none
      log-accepted log-accepted refl refl

verify_lines-Reports_example : Reports crates (record_lines log) report
verify_lines-Reports_example = verify_lines-Reports crates log keys none report none log-accepted

verify_lines-Signed_example :
    IsSuccession report.signers × All (Signed crates keys) (record_lines log)
verify_lines-Signed_example =
    verify_lines-Signed crates log keys none report none some_key log-accepted

ledger_extends_checkpoint-append_example :
    ledger_extends_checkpoint crates (log ++ err LedgerError.serde ∷ []) checkpoint ≡ ok true
ledger_extends_checkpoint-append_example =
    ledger_extends_checkpoint-append crates log (err LedgerError.serde ∷ []) keys none report none
      checkpoint log-accepted refl refl

ledger_extends_checkpoint_sound_example :
    (map (entry_text crates) (record_lines log)
      ≡ map (entry_text crates) (take 2 (record_lines log)))
    ⊎ Collision digest
ledger_extends_checkpoint_sound_example =
    ledger_extends_checkpoint_sound crates laws log log keys none report none checkpoint
      log-accepted refl refl checkpoint-extended

log-read : read_verified_with_keys crates log none keys 1 5 ≡ ok (report, Json.null ∷ [])
unfolding read_verified_with_keys verify_inner verify_lines verify_line check_signer successor
    signed_last succeed bytes_eq
log-read = refl

log-torn :
    read_verified_with_keys crates log (some 40) keys 1 5
    ≡ err (LedgerError.torn_tail 2 (some second.hash) 40)
unfolding read_verified_with_keys verify_inner verify_lines verify_line check_signer successor
    signed_last succeed bytes_eq
log-torn = refl

read_verified_with_keys-window_example :
    map crates.parse_value (take 5 (drop 1 (record_lines log))) ≡ map some (Json.null ∷ [])
read_verified_with_keys-window_example =
    read_verified_with_keys-window crates log none keys 1 5 report (Json.null ∷ []) (omega arith)
      log-read

read_verified_with_keys-Reports_example :
    (◌≡◌ {A = Option ℕ} none none) × Reports crates (record_lines log) report
read_verified_with_keys-Reports_example =
    read_verified_with_keys-Reports crates log none keys 1 5 report (Json.null ∷ []) log-read

abbrev anchor_at : Bytes → ℕ → Checkpoint
anchor_at root count = record {
  root = root;
  count = count;
  ts_ms = 0;
  pubkey_hex = [];
  sig_b64 = signature (7 ∷ []) (checkpoint_bytes root count 0);
}

log-anchored : verify_against_anchor crates log keys (ok (some (anchor_at second.hash 2))) ≡ ok tt
unfolding verify_against_anchor checkpoint_bytes commitment_bytes bytes_eq
log-anchored = refl

log-forged_anchor :
    verify_against_anchor crates log ((8 ∷ []) ∷ []) (ok (some (anchor_at second.hash 2)))
    ≡ err (LedgerError.tamper 2 Why.anchor_not_trusted)
unfolding verify_against_anchor checkpoint_bytes commitment_bytes bytes_eq
log-forged_anchor = refl

empty-opens : refuse_removed_history crates (some (ok (some (anchor_at genesis 0)))) keys ≡ ok tt
unfolding refuse_removed_history checkpoint_bytes commitment_bytes bytes_eq
empty-opens = refl

verify_against_anchor-vouched_example :
    (◌≡◌ {A = Result (Option Checkpoint)} (ok (some (anchor_at second.hash 2))) (ok none))
    ⊎ ((cp : Checkpoint) × (◌≡◌ {A = Result (Option Checkpoint)}
          (ok (some (anchor_at second.hash 2)))
          (ok (some cp)))
        × SignedUnder crates keys cp
        × Holds crates log cp)
verify_against_anchor-vouched_example =
    verify_against_anchor-vouched crates log keys (ok (some (anchor_at second.hash 2))) log-anchored

refuse_removed_history-empty_example :
    (refuse_removed_history crates (some (ok (some (anchor_at genesis 0)))) keys ≡ ok tt)
    ↔ NothingRemoved crates (ok (some (anchor_at genesis 0))) keys
refuse_removed_history-empty_example =
    refuse_removed_history-empty crates (ok (some (anchor_at genesis 0))) keys
