-- ===== src/Ledger/Anchor.antt =====
-- crates/decern-ledger/src/anchor.rs, and the checks of a ledger against its anchor in ledger/commitments.rs
-- and open.rs: the head after the first records of a log, and whether a log still extends a
-- checkpoint. The lines are those of the prefix, without a torn tail.
pub mod Extends
pub mod Vouched
pub mod Trust
use decern.Base.{
  ℕ, zero, suc, ◌+◌, ◌-◌, ◌/◌, ◌%◌, ◌||◌, codes, ◌≡◌, Bool, true, false, ◌&&◌, not, Option, none,
  some, List, [], ◌∷◌, ◌++◌, ltb, ◌==◌, if◌then◌else◌, length, Bytes, bytes_eq,
}
use decern.Ledger.Record.{
  Crates, RecordIn, Why, LedgerError, Result, ok, err, ◌>>=◌, ◌>>◌, refuse_if, ok_or, genesis,
  chain_hash,
}
use decern.Ledger.Verify.{is_blank}

pub record Checkpoint : Type 0 where
  pub root : Bytes
  pub count : ℕ
  pub ts_ms : ℕ
  pub pubkey_hex : Bytes
  pub sig_b64 : Bytes

-- The decimal digits of a number, as `format!` writes them.
decimal_loop : ℕ → ℕ → Bytes → Bytes
decimal_loop zero n out = out
decimal_loop (suc fuel) n out =
    let rest = decimal_loop fuel (n / 10) ((48 + n % 10) ∷ out) in
    if ltb n 10 then (48 + n) ∷ out else rest

unfoldable pub decimal : ℕ → Bytes
unfolding decimal_loop
decimal n = decimal_loop (suc n) n []

-- A tag, a hexadecimal field and two numbers, joined by the unit separator.
unfoldable pub commitment_bytes : Bytes → Bytes → ℕ → ℕ → Bytes
unfolding decimal
commitment_bytes tag hex_field a b = tag ++ 31 ∷ (hex_field ++ 31 ∷ (decimal a ++ 31 ∷ decimal b))

-- "decern-ledger-checkpoint"
abbrev pub checkpoint_tag : Bytes
checkpoint_tag = codes "decern-ledger-checkpoint"

-- "decern-ledger-tree-head"
abbrev pub tree_head_tag : Bytes
tree_head_tag = codes "decern-ledger-tree-head"

unfoldable pub checkpoint_bytes : Bytes → ℕ → ℕ → Bytes
unfolding commitment_bytes
checkpoint_bytes root count ts_ms = commitment_bytes checkpoint_tag root count ts_ms

unfoldable pub tree_head_bytes : Bytes → ℕ → ℕ → Bytes
unfolding commitment_bytes
tree_head_bytes merkle_root tree_size ts_ms =
    commitment_bytes tree_head_tag merkle_root tree_size ts_ms

-- Whether an optional hash is the checkpoint's root.
pub is_root : Option Bytes → Bytes → Bool
is_root none root = false
is_root (some hash) root = bytes_eq hash root

module _ (c : Crates) where
  unfoldable pub verify_checkpoint_sig : Checkpoint → Bytes → Bool
  unfolding checkpoint_bytes
  verify_checkpoint_sig cp pubkey = elim (c.base64_decode cp.sig_b64) [
    | none ↦ false
    | some sig ↦
        (length sig == 64)
        && c.verify_strict pubkey (checkpoint_bytes cp.root cp.count cp.ts_ms) sig
  ]

  -- One record of the scan of `root_at_count`: its hash, if it follows `prev`.
  pub follow : Bytes → ℕ → Bytes → Result Bytes
  follow prev seen line = do
    r ← ok_or (c.parse_record line) (LedgerError.tamper seen Why.unparseable_record)
    refuse_if (not (bytes_eq r.prev prev)) (LedgerError.tamper seen Why.broken_link)
    refuse_if (not (bytes_eq (c.hex_encode (chain_hash c r.entry r.prev)) r.hash))
        (LedgerError.tamper seen Why.hash_mismatch)
    ok r.hash

  -- `left` is `count - seen`, from 1 up: the scan stops at the record that makes it 0.
  pub root_loop : Bytes → ℕ → ℕ → List (Result Bytes) → Result (Option Bytes)
  root_loop prev seen left [] = ok none
  root_loop prev seen left (err e ∷ lines) = err e
  root_loop prev seen left (ok line ∷ lines) =
      let skip = root_loop prev seen left lines in
      let go_on = follow prev seen line >>= λ hash.
      let rest = root_loop hash (seen + 1) (left - 1) lines in
      if left == 1 then ok (some hash) else rest in
      if is_blank line then skip else go_on

  unfoldable pub root_at_count : List (Result Bytes) → ℕ → Result (Option Bytes)
  unfolding root_loop follow chain_hash is_blank
  root_at_count lines count =
      if count == 0 then ok (some genesis) else root_loop genesis 0 count lines

  unfoldable pub ledger_extends_checkpoint : List (Result Bytes) → Checkpoint → Result Bool
  unfolding root_at_count is_root
  ledger_extends_checkpoint lines cp = do
    root ← root_at_count lines cp.count
    ok (is_root root cp.root)

  unfoldable pub any_vouches : List Bytes → Checkpoint → Bool
  any_vouches [] cp = false
  any_vouches (k ∷ verifiers) cp = verify_checkpoint_sig cp k || any_vouches verifiers cp

  -- The anchor file as it was read: an error, no file, or a checkpoint.
  unfoldable pub trusted_anchor :
      Result (Option Checkpoint) → List Bytes → Result (Option Checkpoint)
  unfolding any_vouches verify_checkpoint_sig
  trusted_anchor anchor verifiers = anchor >>= elim [
    | none ↦ ok none
    | some cp ↦
        if any_vouches verifiers cp
        then ok (some cp)
        else err (LedgerError.tamper cp.count Why.anchor_not_trusted)
  ]

  unfoldable pub verify_against_anchor :
      List (Result Bytes) → List Bytes → Result (Option Checkpoint) → Result (Unit {0})
  unfolding trusted_anchor ledger_extends_checkpoint
  verify_against_anchor lines verifiers anchor = trusted_anchor anchor verifiers >>= elim [
    | none ↦ ok tt
    | some cp ↦ do
      extends ← ledger_extends_checkpoint lines cp
      refuse_if (not extends) (LedgerError.tamper cp.count Why.not_extended)
      ok tt
  ]

  -- An open of a ledger without a file, with the anchor that was asked for: an anchor that counts a record
  -- says that history was removed.
  unfoldable pub refuse_removed_history :
      Option (Result (Option Checkpoint)) → List Bytes → Result (Unit {0})
  unfolding trusted_anchor
  refuse_removed_history none verifiers = ok tt
  refuse_removed_history (some anchor) verifiers = trusted_anchor anchor verifiers >>= elim [
    | none ↦ ok tt
    | some cp ↦ refuse_if (ltb 0 cp.count) (LedgerError.tamper cp.count Why.not_extended)
  ]
