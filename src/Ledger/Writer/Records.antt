-- ===== src/Ledger/Writer/Records.antt =====
-- `read_records` and `read_raw_records` of crates/decern-ledger/src/ledger.rs: windows of records that are not verified.
use decern.Base.{
  ℕ, zero, suc, ◌≡◌, refl, false, Option, some, List, [], ◌∷◌, take, drop, if◌then◌else◌, Bytes,
}
use decern.Base.Json.{Json}
use decern.Ledger.Record.{Crates, LedgerError, Result, ok, err, ◌>>=◌, ok_or}
use decern.Ledger.Verify.{is_blank}
use decern.Ledger.File.{read_lines}
use decern.Ledger.Writer.{Ledger}

module _ {ℓ} {A : Type ℓ} (parse : Bytes → Option A) where
  -- `limit` records at most; a blank line is none.
  unfoldable pub read_loop : ℕ → List (Result Bytes) → Result (List A)
  read_loop zero lines = ok []
  read_loop (suc limit) [] = ok []
  read_loop (suc limit) (l ∷ lines) =
      let skipped = read_loop (suc limit) lines in
      let rest = read_loop limit lines in
      l >>= λ line.
      if is_blank line
      then skipped
      else ok_or (parse line) LedgerError.serde >>= λ v. rest >>= λ vs. ok (v ∷ vs)

  -- Lines that hold these values, none of them blank.
  pub data Hold : List (Result Bytes) → List A → Type ℓ where
    no_line : Hold [] []
    one_line :
        {line : Bytes} {v : A} {lines : List (Result Bytes)} {vs : List A}
        → is_blank line ≡ false
        → parse line ≡ some v
        → Hold lines vs
        → Hold (ok line ∷ lines) (v ∷ vs)

  read_loop-Hold :
      (limit : ℕ) (lines : List (Result Bytes)) (vs : List A)
      → Hold lines vs
      → read_loop limit lines ≡ ok (take limit vs)
  unfolding read_loop
  read_loop-Hold zero lines vs h = refl
  read_loop-Hold (suc limit) [] [] Hold.no_line = refl
  read_loop-Hold (suc limit) [] (v ∷ vs) h = elim h [ ]
  read_loop-Hold (suc limit) (ok line ∷ lines) [] h = elim h [ ]
  read_loop-Hold (suc limit) (err _ ∷ lines) vs h = elim h [ ]
  read_loop-Hold (suc limit) (ok line ∷ lines) (v ∷ vs) (Hold.one_line full parsed h) =
      rw (full, parsed, read_loop-Hold limit lines vs h) refl

  Hold-drop :
      (n : ℕ) (lines : List (Result Bytes)) (vs : List A)
      → Hold lines vs
      → Hold (drop n lines) (drop n vs)
  Hold-drop zero lines vs h = h
  Hold-drop (suc n) [] [] Hold.no_line = Hold.no_line
  Hold-drop (suc n) [] (v ∷ vs) h = elim h [ ]
  Hold-drop (suc n) (ok line ∷ lines) [] h = elim h [ ]
  Hold-drop (suc n) (err _ ∷ lines) vs h = elim h [ ]
  Hold-drop (suc n) (ok line ∷ lines) (v ∷ vs) (Hold.one_line full parsed h) =
      Hold-drop n lines vs h

  unfoldable pub read_window : Crates → Ledger → ℕ → ℕ → Result (List A)
  unfolding read_loop
  read_window c l offset limit = read_loop limit (drop offset (read_lines c l.file))

  -- In a file without blank lines whose lines all parse, a window of records from an offset is as many of their values as the limit
  -- says, from that offset.
  pub read_window-Hold :
      (c : Crates) (l : Ledger) (offset limit : ℕ) (vs : List A)
      → Hold (read_lines c l.file) vs
      → read_window c l offset limit ≡ ok (take limit (drop offset vs))
  unfolding read_window
  read_window-Hold c l offset limit vs h =
      read_loop-Hold limit (drop offset (read_lines c l.file)) (drop offset vs)
        (Hold-drop offset (read_lines c l.file) vs h)

-- `read_raw_records` is the window whose values are the lines' own bytes, where they are JSON.
unfoldable pub read_records : Crates → Ledger → ℕ → ℕ → Result (List Json)
unfolding read_window
read_records c l offset limit = read_window c.parse_value c l offset limit
