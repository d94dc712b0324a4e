-- ===== src/Ledger/File.antt =====
-- crates/decern-ledger/src/open.rs and segment.rs: the bytes of a ledger's file, its lines, and the fragment
-- that a crash can leave behind the last newline.
pub mod Torn
pub mod Lines
use decern.Base.{
  ℕ, zero, suc, ◌+◌, ◌-◌, ◌*◌, min, ◌==◌, Bool, true, false, Option, none, some, List, [], ◌∷◌,
  ◌++◌, if◌then◌else◌, length, get_elem?, take, drop, Bytes,
}
use decern.Ledger.Record.{Crates, LedgerError, Result, ok, err}

-- `rposition(|&b| b == b'\n')`
pub last_newline : Bytes → Option ℕ
last_newline [] = none
last_newline (b ∷ bytes) = elim (last_newline bytes) [
  | some i ↦ some (suc i)
  | none ↦ if b == 10 then some 0 else none
]

-- `const CHUNK`
abbrev pub chunk : ℕ
chunk = 64 * 1024

-- The scan backward from `pos`, a chunk of `size` bytes at a time: the offset behind the last newline.
pub scan_back : ℕ → ℕ → Bytes → ℕ → ℕ
scan_back zero size file pos = 0
scan_back (suc fuel) size file zero = 0
scan_back (suc fuel) size file (suc p) =
    let start = suc p - min size (suc p) in
    elim (last_newline (take (min size (suc p)) (drop start file))) [
      | some idx ↦ start + idx + 1
      | none ↦ scan_back fuel size file start
    ]

-- Where the log must be cut: nowhere when the file is empty or ends with a newline. Every round moves `pos`
-- down by one byte at least.
unfoldable pub scan_torn_tail : Bytes → Option ℕ
unfolding scan_back last_newline
scan_torn_tail file =
    let cut = some (scan_back (length file) chunk file (length file)) in
    elim (get_elem? file (length file - 1)) [
      | none ↦ none
      | some last ↦ if last == 10 then none else cut
    ]

-- The lines of a file, without their newlines.
unfoldable pub split_lines : Bytes → List Bytes
split_lines [] = []
split_lines (b ∷ bytes) =
    let rest = split_lines bytes in
    if b == 10
    then [] ∷ rest
    else elim rest [ [] ↦ (b ∷ []) ∷ [] | line ∷ lines ↦ (b ∷ line) ∷ lines ]

-- A carriage return before the newline goes with it.
unfoldable pub strip_return : Bytes → Bytes
strip_return [] = []
strip_return (b ∷ []) = if b == 13 then [] else b ∷ []
strip_return (b ∷ a ∷ line) = b ∷ strip_return (a ∷ line)

-- The iterator ends with the first line that is not UTF-8.
unfoldable pub decode_lines : Crates → List Bytes → List (Result Bytes)
decode_lines c [] = []
decode_lines c (line ∷ lines) =
    if c.is_utf8 (strip_return line)
    then ok (strip_return line) ∷ decode_lines c lines
    else err (LedgerError.io []) ∷ []

-- The same where the last line has no newline: that line keeps its carriage return.
unfoldable pub decode_unterminated : Crates → List Bytes → List (Result Bytes)
decode_unterminated c [] = []
decode_unterminated c (line ∷ []) =
    if c.is_utf8 line then ok line ∷ [] else err (LedgerError.io []) ∷ []
decode_unterminated c (line ∷ next ∷ lines) =
    let rest = decode_unterminated c (next ∷ lines) in
    if c.is_utf8 (strip_return line)
    then ok (strip_return line) ∷ rest
    else err (LedgerError.io []) ∷ []

-- The lines of a file whose last line may be a fragment.
unfoldable pub read_lines : Crates → Bytes → List (Result Bytes)
unfolding split_lines decode_lines strip_return decode_unterminated
read_lines c file = elim (get_elem? file (length file - 1)) [
  | none ↦ []
  | some last ↦
      if last == 10
      then decode_lines c (split_lines file)
      else decode_unterminated c (split_lines file)
]

-- The bytes before a torn fragment.
abbrev pub prefix_bytes : Bytes → Option ℕ → Bytes
prefix_bytes file none = file
prefix_bytes file (some offset) = take offset file

-- The lines before a torn fragment, and where it begins.
unfoldable pub prefix_lines : Crates → Bytes → List (Result Bytes) × Option ℕ
unfolding scan_torn_tail split_lines decode_lines strip_return
prefix_lines c file =
    let torn = scan_torn_tail file in (decode_lines c (split_lines (prefix_bytes file torn)), torn)

-- Only a fragment that begins a record is discarded.
unfoldable pub begins_a_record : Bytes → ℕ → Bool
begins_a_record file offset = elim (get_elem? file offset) [ none ↦ false | some b ↦ b == 123 ]

unfoldable pub heal_torn_tail : Bytes → ℕ → Bytes
heal_torn_tail file offset = take offset file
