-- ===== src/Ledger/Commitments.antt =====
-- crates/decern-ledger/src/ledger/commitments.rs, checkpoint.rs and the leaves of verify.rs: the signed
-- commitments to a log and the proofs that a verifier gets. The head of the ledger and its signing key
-- are arguments; so are the records that were read.
pub mod Proofs
pub mod Signing
mod Examples
use decern.Base.{
  ℕ, zero, suc, ◌+◌, ◌≡◌, String, Bool, true, false, ◌&&◌, Option, none, some, List, [], ◌∷◌, ◌++◌,
  ◌==◌, map, length, codes, get_elem?, Bytes,
}
use decern.Base.Json.{Json, get, as_str}
use decern.Ledger.Record.{Crates, Why, LedgerError, Result, ok, err, ◌>>=◌, ◌>>◌, ok_or}
use decern.Ledger.Merkle.{tree_hash, inclusion_proof, consistency_proof}
use decern.Ledger.Anchor.{Checkpoint, checkpoint_bytes, tree_head_bytes}

pub record TreeHead : Type 0 where
  pub merkle_root : Bytes
  pub tree_size : ℕ
  pub ts_ms : ℕ
  pub pubkey_hex : Bytes
  pub sig_b64 : Bytes

pub record InclusionProof : Type 0 where
  pub leaf_index : ℕ
  pub tree_size : ℕ
  pub leaf_data : Bytes
  pub audit_path : List Bytes

pub record ConsistencyProof : Type 0 where
  pub first_size : ℕ
  pub second_size : ℕ
  pub proof : List Bytes

-- The text of a record's `hash`.
pub hash_text : Json → Option String
hash_text r = elim (get "hash" r) [ none ↦ none | some h ↦ as_str h ]

module _ (c : Crates) where
  pub leaves_loop : ℕ → List Json → Result (List Bytes)
  unfolding hash_text
  leaves_loop i [] = ok []
  leaves_loop i (r ∷ recs) = do
    hash_hex ← ok_or (hash_text r) (LedgerError.tamper i Why.missing_hash)
    leaf ← ok_or (c.hex_decode (codes hash_hex)) (LedgerError.tamper i Why.bad_hex)
    leaves ← leaves_loop (i + 1) recs
    ok (leaf ∷ leaves)

  -- The bytes that the hash of each record encodes.
  unfoldable pub leaves_from_records : List Json → Result (List Bytes)
  unfolding leaves_loop
  leaves_from_records recs = leaves_loop 0 recs

  pub line_leaves : ℕ → List Bytes → Result (List Bytes)
  line_leaves i [] = ok []
  line_leaves i (line ∷ lines) = do
    hash_hex ← ok_or (c.parse_hash line) (LedgerError.tamper i Why.missing_hash)
    leaf ← ok_or (c.hex_decode hash_hex) (LedgerError.tamper i Why.bad_hex)
    leaves ← line_leaves (i + 1) lines
    ok (leaf ∷ leaves)

  unfoldable pub leaves_from_lines : List Bytes → Result (List Bytes)
  unfolding line_leaves
  leaves_from_lines lines = line_leaves 0 lines

  -- `leaves[idx]` stands after the proof was made, where the index is in range.
  pub proof_over : List Bytes → ℕ → Result InclusionProof
  proof_over leaves seq = do
    path ← ok_or (inclusion_proof c.sha256 leaves seq) (LedgerError.tamper seq Why.index_past_end)
    leaf ← ok_or (get_elem? leaves seq) (LedgerError.tamper seq Why.index_past_end)
    ok (record {
      leaf_index = seq;
      tree_size = length leaves;
      leaf_data = c.hex_encode leaf;
      audit_path = map c.hex_encode path;
    })

  unfoldable pub inclusion_proofs_over : List Bytes → List ℕ → Result (List InclusionProof)
  unfolding proof_over
  inclusion_proofs_over leaves [] = ok []
  inclusion_proofs_over leaves (seq ∷ seqs) = do
    p ← proof_over leaves seq
    ps ← inclusion_proofs_over leaves seqs
    ok (p ∷ ps)

  -- `Ledger::inclusion_proof` over the records that were read.
  unfoldable pub prove_inclusion : List Json → ℕ → Result InclusionProof
  unfolding proof_over leaves_from_records
  prove_inclusion recs seq = do leaves ← leaves_from_records recs; proof_over leaves seq

  pub extension_over : List Bytes → ℕ → Result ConsistencyProof
  extension_over leaves first_size = do
    path ←
        ok_or (consistency_proof c.sha256 leaves first_size)
          (LedgerError.tamper first_size Why.size_out_of_range)
    ok (record {
      first_size = first_size;
      second_size = length leaves;
      proof = map c.hex_encode path;
    })

  -- `Ledger::consistency_proof` over the records that were read.
  unfoldable pub prove_consistency : List Json → ℕ → Result ConsistencyProof
  unfolding extension_over leaves_from_records
  prove_consistency recs first_size = do
    leaves ← leaves_from_records recs
    extension_over leaves first_size

  -- The current head, signed.
  unfoldable pub sign_checkpoint : Bytes → Bytes → ℕ → ℕ → Checkpoint
  sign_checkpoint key last_hash next_seq ts_ms = record {
    root = last_hash;
    count = next_seq;
    ts_ms = ts_ms;
    pubkey_hex = c.hex_encode (c.verifying_key key);
    sig_b64 = c.base64_encode (c.sign key (checkpoint_bytes last_hash next_seq ts_ms));
  }

  unfoldable pub sign_tree_head : Bytes → Bytes → ℕ → ℕ → TreeHead
  sign_tree_head key merkle_root tree_size ts_ms = record {
    merkle_root = merkle_root;
    tree_size = tree_size;
    ts_ms = ts_ms;
    pubkey_hex = c.hex_encode (c.verifying_key key);
    sig_b64 = c.base64_encode (c.sign key (tree_head_bytes merkle_root tree_size ts_ms));
  }

  unfoldable pub tree_head : Bytes → List Json → ℕ → Result TreeHead
  unfolding leaves_from_records sign_tree_head
  tree_head key recs ts_ms = do
    leaves ← leaves_from_records recs
    ok (sign_tree_head key (c.hex_encode (tree_hash c.sha256 leaves)) (length leaves) ts_ms)

  unfoldable pub verify_tree_head_sig : TreeHead → Bytes → Bool
  verify_tree_head_sig th pubkey = elim (c.base64_decode th.sig_b64) [
    | none ↦ false
    | some sig ↦
        (length sig == 64)
        && c.verify_strict pubkey (tree_head_bytes th.merkle_root th.tree_size th.ts_ms) sig
  ]
