-- ===== src/Ledger/Segment/Examples.antt =====
-- The rollover of a new segmented ledger, and the property of it there.
use decern.Base.{◌≡◌, refl, none, some, List, [], ◌∷◌, if◌then◌else◌, Bytes, bytes_eq, leb}
use decern.Ledger.Record.{ok, err}
use decern.Ledger.Segment.{
  Manifest, initialize, roll_over, segment_filename, validate_manifest_shape, seal_active,
  max_index, active, validate_segment_filename, bad_shape,
}
use decern.Ledger.Segment.Names.{validate_segment_filename-bound}
use decern.Ledger.Segment.Shape.{RolledOver, roll_over-RolledOver}

abbrev names : List Bytes
names = segment_filename 1 ∷ []

abbrev rolled : Manifest
rolled = record initialize {
  segments =
      record { file = segment_filename 1; start_seq = 0; end_seq = some 5; opened_ms = 0 }
      ∷ record { file = segment_filename 2; start_seq = 5; end_seq = none; opened_ms = 70 }
      ∷ [];
}

rolled_over : roll_over names initialize 5 70 ≡ ok rolled
unfolding roll_over active max_index validate_segment_filename segment_filename seal_active bytes_eq
rolled_over = refl

roll_over-RolledOver_example : RolledOver names initialize 5 70 rolled
unfolding validate_manifest_shape
roll_over-RolledOver_example = roll_over-RolledOver names initialize 5 70 rolled refl rolled_over

validate_segment_filename-bound_example :
    validate_segment_filename (segment_filename 4096)
    ≡ (if leb 4096 99999999 then ok 4096 else err bad_shape)
validate_segment_filename-bound_example = validate_segment_filename-bound 4096
