-- ===== src/Ledger/Writer.antt =====
-- crates/decern-ledger/src/ledger.rs and open.rs: the append-only writer on a single file. The file is its bytes;
-- a write says whether all of its bytes reached the file, and a read succeeds.
pub mod Append
pub mod Invariant
pub mod Steps
pub mod Runs
pub mod Recovery
pub mod Records
mod Examples
use decern.Base.{
  ℕ, zero, suc, ◌+◌, ◌≡◌, Bool, true, false, ◌&&◌, ◌||◌, not, Option, none, some, List, [], ◌∷◌,
  ◌++◌, if◌then◌else◌, take, Bytes, bytes_eq, map,
}
use decern.Ledger.Record.{
  Crates, Entry, RecordIn, SignerSpan, Why, LedgerError, Result, ok, err, ◌>>=◌, ◌>>◌, refuse_if,
  genesis, chain_hash, key_fingerprint,
}
use decern.Ledger.Verify.{
  VerifyReport, ReadWindow, verify_lines, verify_inner, successor, signed_last,
}
use decern.Ledger.Verify.Read.{superseded_by}
use decern.Ledger.Anchor.{
  Checkpoint, trusted_anchor, ledger_extends_checkpoint, refuse_removed_history,
}
use decern.Ledger.File.{prefix_lines, begins_a_record, heal_torn_tail}

-- A handle on an open ledger, with the bytes of its file. The number of the next record is unbounded, where the source has 64 bits.
pub record Ledger : Type 0 where
  pub key : Bytes
  pub file : Bytes
  pub last_hash : Bytes
  pub next_seq : ℕ
  pub verifiers : List Bytes
  pub signers : List SignerSpan
  pub sync : Bool
  pub failed : Bool

-- What `append` returns.
pub record Record : Type 0 where
  pub entry : Entry
  pub prev : Bytes
  pub hash : Bytes
  pub sig_b64 : Bytes
  pub kid : Option Bytes

-- How a write and its sync went: all done, or failed when this many bytes were in the file.
pub data Write : Type 0 where
  landed : Write
  broke : ℕ → Write

-- `Result<A>` of a method, with the ledger that it leaves.
abbrev pub Outcome : Type 0 → Type 0
Outcome A = Result A × Ledger

-- The only place where a record's bytes reach the file.
pub write_line : Ledger → Bytes → Write → Outcome (Unit {0})
write_line l line landed = (ok tt, record l { file = l.file ++ line })
write_line l line (broke n) =
    (err (LedgerError.io []), record l { file = l.file ++ take n line; failed = true })

-- Whether a key is in the ring.
unfoldable pub any_key_eq : List Bytes → Bytes → Bool
any_key_eq [] k = false
any_key_eq (v ∷ verifiers) k = bytes_eq v k || any_key_eq verifiers k

abbrev pub push_key : List Bytes → Bytes → List Bytes
push_key verifiers k = if any_key_eq verifiers k then verifiers else verifiers ++ k ∷ []

module _ (c : Crates) where
  abbrev pub kid_of : Bytes → Bytes
  kid_of key = key_fingerprint c (c.verifying_key key)

  -- The record around the entry's bytes.
  abbrev pub record_out : Ledger → Bytes → RecordIn
  record_out l entry_json = record {
    entry = entry_json;
    prev = l.last_hash;
    hash = c.hex_encode (chain_hash c entry_json l.last_hash);
    sig_b64 = c.base64_encode (c.sign l.key (chain_hash c entry_json l.last_hash));
    kid = some (kid_of l.key);
  }

  -- The span of a key that has not signed last.
  abbrev pub spans_after : Ledger → List SignerSpan
  spans_after l =
      if signed_last l.signers (kid_of l.key)
      then l.signers
      else l.signers ++ record { kid = kid_of l.key; first_seq = l.next_seq } ∷ []

  -- The head moves once the line is written.
  pub commit : Ledger → Entry → RecordIn → Outcome (Unit {0}) → Outcome Record
  commit l entry out (err e, l') = (err e, l')
  commit l entry out (ok u, l') = (
    ok (record {
      entry = entry;
      prev = out.prev;
      hash = out.hash;
      sig_b64 = out.sig_b64;
      kid = out.kid;
    }),
    record l' { last_hash = out.hash; next_seq = l.next_seq + 1; signers = spans_after l },
  )

  -- What follows the check of the latch: the two texts, the write, and the commit.
  pub write_entry : Ledger → Entry → Write → Outcome Record
  unfolding write_line commit
  write_entry l entry w = elim (c.print_entry entry) [
    | none ↦ (err LedgerError.serde, l)
    | some entry_json ↦ elim (c.print_record (record_out l entry_json)) [
      | none ↦ (err LedgerError.serde, l)
      | some text ↦ commit l entry (record_out l entry_json) (write_line l (text ++ 10 ∷ []) w)
    ]
  ]

  unfoldable pub append : Ledger → Entry → Write → Outcome Record
  unfolding write_entry
  append l given w =
      if l.failed
      then (err (LedgerError.io []), l)
      else write_entry l (record given { seq = l.next_seq }) w

  -- The loop of `append_all`, which stops at the first failure.
  pub append_loop : Ledger → List (Entry × Write) → Outcome (List Record)
  unfolding append
  append_loop l [] = (ok [], l)
  append_loop l ((entry, w) ∷ entries) =
      let (r, l') = append l entry w in
      elim r [
        | err e ↦ (err e, l')
        | ok written ↦
            let (rest, l'') = append_loop l' entries in
            elim rest [ err e ↦ (err e, l'') | ok records ↦ (ok (written ∷ records), l'') ]
      ]

  -- One sync at the end stands for the sync of each record.
  unfoldable pub append_all : Ledger → List (Entry × Write) → Bool → Outcome (List Record)
  unfolding append_loop
  append_all l entries synced =
      let (r, l') = append_loop (record l { sync = false }) entries in
      if l.sync && not synced
      then (err (LedgerError.io []), record l' { sync = l.sync; failed = true })
      else (r, record l' { sync = l.sync })

  unfoldable pub rotate : Ledger → Bytes → Outcome (Unit {0})
  unfolding any_key_eq
  rotate l new_key = elim (successor l.signers (kid_of new_key)) [
    | some next ↦ (err (LedgerError.key_superseded (kid_of new_key) next), l)
    | none ↦ (
      ok tt,
      record l { verifiers = push_key l.verifiers (c.verifying_key new_key); key = new_key },
    )
  ]

  unfoldable pub self_verify : Ledger → Result VerifyReport
  self_verify l = do
    let read = prefix_lines c l.file
    (report, window) ← verify_inner c read.0 read.1 l.verifiers none
    ok report

  -- The prefix must still extend the anchor, if there is one.
  pub extends_anchor :
      List (Result Bytes) → List Bytes → Option (Result (Option Checkpoint)) → Result (Unit {0})
  extends_anchor lines verifiers none = ok tt
  extends_anchor lines verifiers (some anchor) = trusted_anchor c anchor verifiers >>= elim [
    | none ↦ ok tt
    | some cp ↦ do
      extends ← ledger_extends_checkpoint c lines cp
      refuse_if (not extends) (LedgerError.tamper cp.count Why.not_extended)
  ]

  -- The report of the log to extend, and its bytes without a torn tail.
  unfoldable pub resolve_open_head :
      Bytes
      → List Bytes
      → Bytes
      → Option (Result (Option Checkpoint))
      → Result (VerifyReport × Bytes)
  unfolding extends_anchor
  resolve_open_head file verifiers signer anchor = do
    let read = prefix_lines c file
    (report, window) ← verify_lines c read.0 verifiers none
    u ← extends_anchor read.0 verifiers anchor
    elim (superseded_by report (key_fingerprint c signer)) [
      | some next ↦ err (LedgerError.key_superseded (key_fingerprint c signer) next)
      | none ↦ elim read.1 [
        | none ↦ ok (report, file)
        | some offset ↦
            if begins_a_record file offset
            then ok (report, heal_torn_tail file offset)
            else err (LedgerError.tamper report.entries Why.not_a_record)
      ]
    ]

  abbrev pub root_or_genesis : Option Bytes → Bytes
  root_or_genesis none = genesis
  root_or_genesis (some root) = root

  -- A handle on the log that a report describes.
  abbrev pub handle_on : Bytes → List Bytes → VerifyReport × Bytes → Ledger
  handle_on key verifiers head = record {
    key = key;
    file = head.1;
    last_hash = root_or_genesis head.0.root;
    next_seq = head.0.entries;
    verifiers = verifiers;
    signers = head.0.signers;
    sync = false;
    failed = false;
  }

  abbrev pub new_ledger : Bytes → List Bytes → Ledger
  new_ledger key verifiers = record {
    key = key;
    file = [];
    last_hash = genesis;
    next_seq = 0;
    verifiers = verifiers;
    signers = [];
    sync = false;
    failed = false;
  }

  -- The open of a file, or of none where the ledger is new.
  unfoldable pub open_single :
      Option Bytes → Bytes → List Bytes → Option (Result (Option Checkpoint)) → Result Ledger
  unfolding resolve_open_head any_key_eq
  open_single (some file) key retired anchor = do
    head ←
        resolve_open_head file (push_key retired (c.verifying_key key)) (c.verifying_key key) anchor
    ok (handle_on key (push_key retired (c.verifying_key key)) head)
  open_single none key retired anchor = do
    u ← refuse_removed_history c anchor (push_key retired (c.verifying_key key))
    ok (new_ledger key (push_key retired (c.verifying_key key)))
