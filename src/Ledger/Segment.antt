-- ===== src/Ledger/Segment.antt =====
-- crates/decern-ledger/src/segment.rs: the manifest of a segmented ledger, its file names and its rollover. A directory
-- is the list of the names in it, which a rollover is given; its files are created, synced and renamed without failure.
pub mod Names
pub mod Shape
mod Examples
use decern.Base.{
  ℕ, zero, suc, ◌+◌, ◌-◌, ◌*◌, ◌/◌, ◌%◌, ◌==◌, ltb, leb, Bool, true, false, ◌&&◌, ◌||◌, not, Option,
  none, some, List, [], ◌∷◌, ◌++◌, if◌then◌else◌, length, take, drop, Bytes, bytes_eq,
}
use decern.Ledger.Record.{Why, LedgerError, Result, ok, err, ◌>>=◌, ◌>>◌, refuse_if, ok_or}

pub record RolloverPolicy : Type 0 where
  pub max_bytes : Option ℕ
  pub epoch_ms : Option ℕ

pub record SegmentMeta : Type 0 where
  pub file : Bytes
  pub start_seq : ℕ
  pub end_seq : Option ℕ
  pub opened_ms : ℕ

pub record Manifest : Type 0 where
  pub version : ℕ
  pub segments : List SegmentMeta

abbrev pub is_open : Option ℕ → Bool
is_open none = true
is_open (some n) = false

pub first_open : List SegmentMeta → Option SegmentMeta
first_open [] = none
first_open (s ∷ segments) = if is_open s.end_seq then some s else first_open segments

unfoldable pub active : Manifest → Option SegmentMeta
unfolding first_open
active manifest = first_open manifest.segments

-- The number of decimal digits, the loop on fuel that is no smaller than the number.
unfoldable pub decimal_length : ℕ → ℕ → ℕ
decimal_length zero n = 1
decimal_length (suc fuel) n = if ltb n 10 then 1 else suc (decimal_length fuel (n / 10))

-- The lowest `k` decimal digits.
unfoldable pub low_digits : ℕ → ℕ → Bytes
low_digits zero n = []
low_digits (suc k) n = low_digits k (n / 10) ++ (48 + n % 10) ∷ []

abbrev pub max_of : ℕ → ℕ → ℕ
max_of a b = if leb a b then b else a

-- ".jsonl"
abbrev pub suffix : Bytes
suffix = 46 ∷ 106 ∷ 115 ∷ 111 ∷ 110 ∷ 108 ∷ []

-- `{index:08}.jsonl`: eight digits at least
unfoldable pub segment_filename : ℕ → Bytes
unfolding low_digits decimal_length
segment_filename index = low_digits (max_of 8 (decimal_length index index)) index ++ suffix

abbrev pub strip_suffix : Bytes → Option Bytes
strip_suffix file =
    let n = length file - 6 in if bytes_eq (drop n file) suffix then some (take n file) else none

unfoldable pub all_digits : Bytes → Bool
all_digits [] = true
all_digits (b ∷ digits) = (leb 48 b && leb b 57) && all_digits digits

unfoldable pub parse_digits : ℕ → Bytes → ℕ
parse_digits acc [] = acc
parse_digits acc (b ∷ digits) = parse_digits (acc * 10 + (b - 48)) digits

abbrev pub bad_shape : LedgerError
bad_shape = LedgerError.tamper 0 Why.bad_manifest

-- Eight digits are below 2 ^ 32.
unfoldable pub index_of_digits : Bytes → Result ℕ
unfolding all_digits parse_digits
index_of_digits digits =
    if not (length digits == 8) || not (all_digits digits)
    then err bad_shape
    else ok (parse_digits 0 digits)

unfoldable pub validate_segment_filename : Bytes → Result ℕ
unfolding index_of_digits
validate_segment_filename file = ok_or (strip_suffix file) bad_shape >>= index_of_digits

unfoldable pub active_count : List SegmentMeta → ℕ
active_count [] = 0
active_count (s ∷ segments) =
    let rest = active_count segments in if is_open s.end_seq then suc rest else rest

unfoldable pub last_sealed : List SegmentMeta → Bool
last_sealed [] = true
last_sealed (s ∷ []) = not (is_open s.end_seq)
last_sealed (s ∷ t ∷ segments) = last_sealed (t ∷ segments)

abbrev pub hands_off : Option ℕ → ℕ → Bool
hands_off none start = false
hands_off (some n) start = n == start

-- `windows(2)`
unfoldable pub contiguous : List SegmentMeta → Bool
contiguous [] = true
contiguous (s ∷ []) = true
contiguous (s ∷ t ∷ segments) = hands_off s.end_seq t.start_seq && contiguous (t ∷ segments)

unfoldable pub validate_manifest_shape : Manifest → Result (Unit {0})
unfolding active_count last_sealed contiguous
validate_manifest_shape manifest = elim manifest.segments [
  | [] ↦ err bad_shape
  | s ∷ segments ↦
      refuse_if (not (s.start_seq == 0)) bad_shape
      >> (refuse_if (ltb 1 (active_count (s ∷ segments))) bad_shape
          >> (refuse_if ((active_count (s ∷ segments) == 1) && last_sealed (s ∷ segments)) bad_shape
              >> refuse_if (not (contiguous (s ∷ segments))) bad_shape))
]

-- An index of a name, or nothing of any other name.
abbrev pub index_or : ℕ → Result ℕ → ℕ
index_or max (err e) = max
index_or max (ok index) = max_of max index

unfoldable pub max_name : ℕ → List Bytes → ℕ
unfolding validate_segment_filename
max_name max [] = max
max_name max (name ∷ names) = max_name (index_or max (validate_segment_filename name)) names

abbrev pub files_of : List SegmentMeta → List Bytes
files_of [] = []
files_of (s ∷ segments) = s.file ∷ files_of segments

-- Over the manifest's names and those on disk.
unfoldable pub max_index : List Bytes → Manifest → ℕ
unfolding max_name
max_index names manifest = max_name (max_name 0 (files_of manifest.segments)) names

-- The first open segment, sealed.
unfoldable pub seal_active : ℕ → List SegmentMeta → List SegmentMeta
seal_active current_seq [] = []
seal_active current_seq (s ∷ segments) =
    if is_open s.end_seq
    then record s { end_seq = some current_seq } ∷ segments
    else s ∷ seal_active current_seq segments

-- The manifest to commit. The index exceeds no 32-bit number before it exceeds eight digits.
unfoldable pub roll_over : List Bytes → Manifest → ℕ → ℕ → Result Manifest
unfolding max_index segment_filename active seal_active
roll_over names manifest current_seq next_ts_ms = do
  let next_index = max_index names manifest + 1
  refuse_if (ltb 99999999 next_index) (LedgerError.io [])
  old_active ← ok_or (active manifest) (LedgerError.io [])
  ok (record manifest {
    segments =
        seal_active current_seq manifest.segments
        ++ record {
          file = segment_filename next_index;
          start_seq = current_seq;
          end_seq = none;
          opened_ms = next_ts_ms;
        }
          ∷ [];
  })

abbrev pub initialize : Manifest
initialize = record {
  version = 1;
  segments =
      record { file = segment_filename 1; start_seq = 0; end_seq = none; opened_ms = 0 } ∷ [];
}

abbrev pub opened_at : Option SegmentMeta → ℕ → ℕ
opened_at none next_ts_ms = next_ts_ms
opened_at (some s) next_ts_ms = s.opened_ms

abbrev pub starts_at : Option SegmentMeta → ℕ → Bool
starts_at none seq = false
starts_at (some s) seq = s.start_seq == seq

abbrev pub is_full : Option ℕ → ℕ → Bool
is_full none bytes = false
is_full (some max) bytes = leb max bytes

abbrev pub another_epoch : Option ℕ → ℕ → ℕ → Bool
another_epoch none a b = false
another_epoch (some epoch) a b = ltb 0 epoch && not (a / epoch == b / epoch)

unfoldable pub should_roll_over : RolloverPolicy → Manifest → ℕ → ℕ → ℕ → Bool
unfolding active
should_roll_over policy manifest current_seq current_bytes next_ts_ms =
    if starts_at (active manifest) current_seq
    then false
    else if is_full policy.max_bytes current_bytes
    then true
    else another_epoch policy.epoch_ms next_ts_ms (opened_at (active manifest) next_ts_ms)
