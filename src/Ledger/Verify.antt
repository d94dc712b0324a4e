-- ===== src/Ledger/Verify.antt =====
-- crates/decern-ledger/src/verify.rs: the scan of a log's lines, and the succession of its signers.
-- A line that could not be read from disk stands as the error of the read.
pub mod Chain
pub mod Evidence
pub mod Signers
pub mod Authentic
pub mod Read
pub mod Window
pub mod Growth
use decern.Base.{
  ℕ, zero, suc, ◌+◌, ◌≡◌, Bool, true, false, ◌&&◌, ◌||◌, not, Option, none, some, List, [], ◌∷◌,
  ◌++◌, ltb, leb, ◌==◌, if◌then◌else◌, length, Bytes, bytes_eq,
}
use decern.Base.Json.{Json}
use decern.Ledger.Record.{
  Crates, Entry, RecordIn, SignerSpan, Why, LedgerError, Result, ok, err, ◌>>=◌, ◌>>◌, refuse_if,
  ok_or, genesis, chain_hash, key_fingerprint,
}

-- White space of one, two and three bytes, as `str::trim` knows it.
unfoldable pub is_space : ℕ → Bool
is_space a = (leb 9 a && leb a 13) || (a == 32)

unfoldable pub is_space_two : ℕ → ℕ → Bool
is_space_two a b = (a == 0xc2) && ((b == 0x85) || (b == 0xa0))

unfoldable pub is_space_three : ℕ → ℕ → ℕ → Bool
is_space_three a b c =
    ((a == 0xe1) && (b == 0x9a) && (c == 0x80))
    || ((a == 0xe2)
        && (b == 0x80)
        && ((leb 0x80 c && leb c 0x8a) || (c == 0xa8) || (c == 0xa9) || (c == 0xaf)))
    || ((a == 0xe2) && (b == 0x81) && (c == 0x9f))
    || ((a == 0xe3) && (b == 0x80) && (c == 0x80))

-- `line.trim().is_empty()`
unfoldable pub is_blank : Bytes → Bool
unfolding is_space is_space_two is_space_three
is_blank [] = true
is_blank (a ∷ []) = is_space a
is_blank (a ∷ b ∷ []) = (is_space a && is_space b) || is_space_two a b
is_blank (a ∷ b ∷ c ∷ line) =
    let one = is_blank (b ∷ c ∷ line) in
    let two = is_blank (c ∷ line) in
    let three = is_blank line in
    if is_space a
    then one
    else if is_space_two a b
    then two
    else if is_space_three a b c
    then three
    else false

pub record ReadWindow : Type 0 where
  pub offset : ℕ
  pub stop : ℕ
  pub records : List Json

pub record VerifyReport : Type 0 where
  pub entries : ℕ
  pub root : Option Bytes
  pub signatures_checked : Bool
  pub signers : List SignerSpan

-- The span after the first one of the key: the key that succeeded it.
unfoldable pub successor : List SignerSpan → Bytes → Option SignerSpan
successor [] kid = none
successor (s ∷ []) kid = none
successor (s ∷ next ∷ rest) kid =
    if bytes_eq s.kid kid then some next else successor (next ∷ rest) kid

-- `signers.last().is_some_and(|s| s.kid == kid)`
unfoldable pub signed_last : List SignerSpan → Bytes → Bool
signed_last [] kid = false
signed_last (s ∷ []) kid = bytes_eq s.kid kid
signed_last (s ∷ next ∷ rest) kid = signed_last (next ∷ rest) kid

-- `Ok` and `Err` of the checks whose error is the reason alone.
pub data Checked {ℓ} (A : Type ℓ) : Type ℓ where
  accepted : A → Checked A
  refused : Why → Checked A

-- `map_err(|why| Tamper { seq, why })`
abbrev pub at_seq {ℓ} : {A : Type ℓ} → ℕ → Checked A → Result A
at_seq seq (accepted a) = ok a
at_seq seq (refused why) = err (LedgerError.tamper seq why)

-- A retired key signs nothing after its successor took over.
unfoldable pub succeed : List SignerSpan → ℕ → Bytes → Checked (List SignerSpan)
unfolding successor signed_last
succeed signers seq signer =
    if signed_last signers signer then accepted signers else elim (successor signers signer) [
      | some next ↦ refused (Why.superseded signer next)
      | none ↦ accepted (signers ++ record { kid = signer; first_seq = seq } ∷ [])
    ]

-- The variables of the loop of `verify_lines`.
pub record Scan : Type 0 where
  pub prev : Bytes
  pub count : ℕ
  pub signers : List SignerSpan
  pub sink : Option ReadWindow

-- `true` stands for a list of keys with a member.
unfoldable pub any_key : List Bytes → Bool
any_key [] = false
any_key (k ∷ keys) = true

abbrev pub start_scan : Option ReadWindow → Scan
start_scan sink = record { prev = genesis; count = 0; signers = []; sink = sink }

abbrev pub report_of : List Bytes → Scan → VerifyReport
report_of keys s = record {
  entries = s.count;
  root = if ltb 0 s.count then some s.prev else none;
  signatures_checked = any_key keys;
  signers = s.signers;
}

module _ (c : Crates) where
  -- The first key of the ring with this fingerprint.
  unfoldable pub find_kid : List Bytes → Bytes → Option Bytes
  find_kid [] kid = none
  find_kid (k ∷ keys) kid = if bytes_eq (key_fingerprint c k) kid then some k else find_kid keys kid

  -- The first key of the ring that verifies the signature.
  pub find_verifying : List Bytes → Bytes → Bytes → Option Bytes
  find_verifying [] hash sig = none
  find_verifying (k ∷ keys) hash sig =
      if c.verify_strict k hash sig then some k else find_verifying keys hash sig

  -- The key that signed: the one that the record names, or the first that verifies.
  unfoldable pub signer_of : List Bytes → Bytes → Bytes → Option Bytes → Checked Bytes
  signer_of keys hash sig (some kid) = elim (find_kid keys kid) [
    | some k ↦ if c.verify_strict k hash sig then accepted kid else refused Why.signature_invalid
    | none ↦ refused (Why.unknown_signer kid)
  ]
  signer_of keys hash sig none = elim (find_verifying keys hash sig) [
    | some k ↦ accepted (key_fingerprint c k)
    | none ↦ refused Why.signature_invalid
  ]

  -- A signature has 64 bytes.
  unfoldable pub signature_bytes : Bytes → Checked Bytes
  signature_bytes sig_b64 = elim (c.base64_decode sig_b64) [
    | none ↦ refused Why.unparseable_signature
    | some b ↦ if length b == 64 then accepted b else refused Why.signature_length
  ]

  unfoldable pub check_signer :
      List SignerSpan → List Bytes → ℕ → Bytes → Bytes → Option Bytes → Checked (List SignerSpan)
  unfolding signature_bytes signer_of find_kid find_verifying key_fingerprint
  check_signer signers keys seq hash sig_b64 kid = elim (signature_bytes sig_b64) [
    | refused why ↦ refused why
    | accepted sig ↦ elim (signer_of keys hash sig kid) [
      | refused why ↦ refused why
      | accepted signer ↦ succeed signers seq signer
    ]
  ]

  -- The record joins the window when its index is in range.
  unfoldable pub keep_line : Option ReadWindow → ℕ → Bytes → Result (Option ReadWindow)
  keep_line none idx line = ok none
  keep_line (some w) idx line =
      if leb w.offset idx && ltb idx w.stop
      then (do
        value ← ok_or (c.parse_value line) LedgerError.serde
        ok (some (record w { records = w.records ++ value ∷ [] })))
      else ok (some w)

  -- The signature is checked when there is a key to check it against.
  unfoldable pub signers_after : List Bytes → Scan → Bytes → RecordIn → Result (List SignerSpan)
  signers_after keys s hash r =
      if any_key keys
      then at_seq s.count (check_signer s.signers keys s.count hash r.sig_b64 r.kid)
      else ok s.signers

  -- The last part of a round: the signature, the window, and the new head.
  unfoldable pub admit : List Bytes → Scan → Bytes → RecordIn → Bytes → Result Scan
  admit keys s line r hash = do
    signers ← signers_after keys s hash r
    sink ← keep_line s.sink s.count line
    ok (record { prev = r.hash; count = s.count + 1; signers = signers; sink = sink })

  -- The checks on a record that was read.
  unfoldable pub check_record : List Bytes → Scan → Bytes → RecordIn → Entry → Result Scan
  check_record keys s line r entry = do
    let hash = chain_hash c r.entry r.prev
    refuse_if (not (entry.seq == s.count))
        (LedgerError.tamper s.count (Why.sequence_break entry.seq))
    refuse_if (not (bytes_eq r.prev s.prev)) (LedgerError.tamper s.count Why.broken_link)
    refuse_if (not (bytes_eq (c.hex_encode hash) r.hash))
        (LedgerError.tamper s.count Why.hash_mismatch)
    admit keys s line r hash

  -- One line that is not blank; `i` is its index among all lines.
  unfoldable pub verify_line : List Bytes → Scan → ℕ → Bytes → Result Scan
  unfolding check_record admit chain_hash signers_after any_key keep_line
  verify_line keys s i line = do
    r ← ok_or (c.parse_record line) (LedgerError.tamper i Why.unparseable_record)
    entry ← ok_or (c.parse_entry r.entry) (LedgerError.tamper s.count Why.unparseable_entry)
    check_record keys s line r entry

  unfoldable pub verify_loop : List Bytes → Scan → ℕ → List (Result Bytes) → Result Scan
  unfolding is_blank
  verify_loop keys s i [] = ok s
  verify_loop keys s i (l ∷ lines) = do
    line ← l
    s' ← if is_blank line then ok s else verify_line keys s i line
    verify_loop keys s' (i + 1) lines

  -- The report, and the window as the scan left it.
  unfoldable pub verify_lines :
      List (Result Bytes)
      → List Bytes
      → Option ReadWindow
      → Result (VerifyReport × Option ReadWindow)
  unfolding verify_loop
  verify_lines lines keys sink = do
    s ← verify_loop keys (start_scan sink) 0 lines
    ok (report_of keys s, s.sink)

  -- The torn fragment is the offset at which it begins.
  unfoldable pub verify_inner :
      List (Result Bytes)
      → Option ℕ
      → List Bytes
      → Option ReadWindow
      → Result (VerifyReport × Option ReadWindow)
  verify_inner lines none keys sink = verify_lines lines keys sink
  verify_inner lines (some offset) keys sink = do
    (report, window) ← verify_lines lines keys sink
    err (LedgerError.torn_tail report.entries report.root offset)
