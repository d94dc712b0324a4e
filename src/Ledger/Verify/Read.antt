-- ===== src/Ledger/Verify/Read.antt =====
-- The readers of crates/decern-ledger/src/verify.rs that stand on the scan: with one key, with a ring, with a
-- window, over stored records, and for the leaves of the tree.
use decern.Base.{
  ℕ, ◌+◌, ◌-◌, ◌^◌, min, Option, none, some, List, [], ◌∷◌, map, Bytes, ◌≡◌, refl, subst, ap,
}
use decern.Base.Json.{Json}
use decern.Ledger.Record.{Crates, SignerSpan, Result, ok, ◌>>=◌, >>=-eq-ok, ok_inj}
use decern.Ledger.Verify.{ReadWindow, VerifyReport, verify_lines, verify_inner, successor}
use decern.Ledger.Verify.Chain.{Reports, record_lines, verify_lines-Reports}
use decern.Ledger.Commitments.{leaves_from_records}

unfoldable pub superseded_by : VerifyReport → Bytes → Option SignerSpan
superseded_by report kid = successor report.signers kid

-- `pubkey` as a ring of keys: none leaves the signatures unchecked.
abbrev pub ring_of : Option Bytes → List Bytes
ring_of none = []
ring_of (some k) = k ∷ []

-- A window on 64-bit indices, empty as yet.
abbrev pub window_at : ℕ → ℕ → ReadWindow
window_at offset limit = record {
  offset = offset;
  stop = min (offset + limit) (2 ^ 64 - 1);
  records = [];
}

-- The records of a window that was passed to the scan.
abbrev pub window_records : Option ReadWindow → List Json
window_records none = []
window_records (some w) = w.records

module _ (c : Crates) where
  -- The report, and the torn fragment beside it.
  unfoldable pub verify_prefix :
      List (Result Bytes)
      → Option ℕ
      → List Bytes
      → Option ReadWindow
      → Result ((VerifyReport × Option ReadWindow) × Option ℕ)
  verify_prefix lines torn keys sink = do report ← verify_lines c lines keys sink; ok (report, torn)

  unfoldable pub verify_with_keys :
      List (Result Bytes) → Option ℕ → List Bytes → Result VerifyReport
  verify_with_keys lines torn keys = do
    (report, window) ← verify_inner c lines torn keys none
    ok report

  unfoldable pub verify : List (Result Bytes) → Option ℕ → Option Bytes → Result VerifyReport
  unfolding verify_with_keys
  verify lines torn pubkey = verify_with_keys lines torn (ring_of pubkey)

  unfoldable pub read_verified_with_keys :
      List (Result Bytes) → Option ℕ → List Bytes → ℕ → ℕ → Result (VerifyReport × List Json)
  read_verified_with_keys lines torn keys offset limit = do
    (report, window) ← verify_inner c lines torn keys (some (window_at offset limit))
    ok (report, window_records window)

  unfoldable pub read_verified :
      List (Result Bytes) → Option ℕ → Option Bytes → ℕ → ℕ → Result (VerifyReport × List Json)
  unfolding read_verified_with_keys
  read_verified lines torn pubkey offset limit =
      read_verified_with_keys lines torn (ring_of pubkey) offset limit

  -- The stored lines of a shard.
  unfoldable pub verify_stored_records : List Bytes → List Bytes → Result VerifyReport
  verify_stored_records records keys = do
    (report, window) ← verify_lines c (map ok records) keys none
    ok report

  unfoldable pub merkle_leaves_with_keys :
      List (Result Bytes) → Option ℕ → List Bytes → Result (List Bytes)
  unfolding read_verified_with_keys
  merkle_leaves_with_keys lines torn keys = do
    (report, records) ← read_verified_with_keys lines torn keys 0 (2 ^ 64 - 1)
    leaves_from_records c records

  unfoldable pub merkle_leaves_at :
      List (Result Bytes) → Option ℕ → Option Bytes → Result (List Bytes)
  unfolding merkle_leaves_with_keys
  merkle_leaves_at lines torn pubkey = merkle_leaves_with_keys lines torn (ring_of pubkey)

  pub inner-torn :
      (lines : List (Result Bytes)) (torn : Option ℕ) (keys : List Bytes) (sink : Option ReadWindow)
      {r : VerifyReport × Option ReadWindow}
      → verify_inner c lines torn keys sink ≡ ok r
      → (torn ≡ none) × (verify_lines c lines keys sink ≡ ok r)
  unfolding verify_inner
  inner-torn lines none keys sink h = (refl, h)
  inner-torn lines (some offset) keys sink h =
      let (r, _, refused) = >>=-eq-ok (verify_lines c lines keys sink) _ h in absurd (cc refused)

  -- A verified read refuses a log with a torn tail, and the report of one that it accepts describes a chain
  -- of all the log's records, whatever window was asked for.
  pub read_verified_with_keys-Reports :
      (lines : List (Result Bytes)) (torn : Option ℕ) (keys : List Bytes) (offset limit : ℕ)
      (report : VerifyReport) (records : List Json)
      → read_verified_with_keys lines torn keys offset limit ≡ ok (report, records)
      → (torn ≡ none) × Reports c (record_lines lines) report
  unfolding read_verified_with_keys
  read_verified_with_keys-Reports lines torn keys offset limit report records h =
      let (r, run, out) =
        >>=-eq-ok (verify_inner c lines torn keys (some (window_at offset limit))) _ h in
      let (whole, scan) = inner-torn lines torn keys (some (window_at offset limit)) run in
      let same : r.0 ≡ report = ap (λ (x : VerifyReport × List Json). x.0) (ok_inj out) in
      (
        whole,
        subst (Reports c (record_lines lines)) same
            (verify_lines-Reports c lines keys (some (window_at offset limit)) r.0 r.1 scan),
      )
