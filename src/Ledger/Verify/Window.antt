-- ===== src/Ledger/Verify/Window.antt =====
-- The window of a verified read: which records the scan materializes.
use decern.Base.{
  ℕ, zero, suc, ◌+◌, ◌-◌, ◌<◌, ◌^◌, ◌≡◌, refl, sym, ap, ◌∙◌, subst, ◌&&◌, arith, ltb, leb,
  if◌then◌else◌, Bool-cases, inl, inr, Option, some, List, [], ◌∷◌, ◌++◌, map, take, drop, take-nil,
  Bytes,
}
use decern.Base.Json.{Json}
use decern.Ledger.Record.{Crates, LedgerError, Result, ok, err, ok_or, >>=-eq-ok, ok_inj}
use decern.Ledger.Verify.{
  Scan, ReadWindow, VerifyReport, is_blank, keep_line, verify_line, verify_loop, verify_lines,
  verify_inner, start_scan,
}
use decern.Ledger.Verify.Chain.{
  record_lines, record_lines-blank, record_lines-record, verify_line-Passed, ok_or-eq-ok,
}
use decern.Ledger.Verify.Read.{window_at, window_records, read_verified_with_keys, inner-torn}

-- The lines at positions from `offset` and below `stop`, where the first line has position `n`.
kept : ℕ → ℕ → ℕ → List Bytes → List Bytes
kept offset stop n [] = []
kept offset stop n (line ∷ lines) =
    let rest = kept offset stop (n + 1) lines in
    if leb offset n && ltb n stop then line ∷ rest else rest

drop-nil : (n : ℕ) → drop {A = Bytes} n [] ≡ []
drop-nil zero = refl
drop-nil (suc n) = refl

-- Those lines are a segment of the list.
kept-take :
    (offset stop n : ℕ) (lines : List Bytes)
    → kept offset stop n lines ≡ take (stop - (offset + (n - offset))) (drop (offset - n) lines)
unfolding kept
kept-take offset stop n [] = sym (
    ap (take (stop - (offset + (n - offset)))) (drop-nil (offset - n))
    ∙ take-nil (stop - (offset + (n - offset))))
kept-take offset stop n (line ∷ lines) =
    let ih = kept-take offset stop (n + 1) lines in
    elim (Bool-cases (leb offset n)) [
      | inr before ↦
          let a : stop - (offset + ((n + 1) - offset)) ≡ stop - (offset + (n - offset)) =
            ground arith in
          let b : suc (offset - (n + 1)) ≡ offset - n = ground arith in
          rw before (
            ih
            ∙ ap (λ k. take k (drop (offset - (n + 1)) lines)) a
            ∙ ap (λ k. take (stop - (offset + (n - offset))) (drop k (line ∷ lines))) b)
      | inl from ↦
          let b : 0 ≡ offset - n = ground arith in
          elim (Bool-cases (ltb n stop)) [
            | inl below ↦
                let a : suc (stop - (offset + ((n + 1) - offset)))
                    ≡ stop - (offset + (n - offset)) =
                  ground arith in
                let b' : offset - (n + 1) ≡ 0 = ground arith in
                rw (from, below)
                  (ap (λ t. line ∷ t)
                      (ih ∙ ap (λ k. take (stop - (offset + ((n + 1) - offset))) (drop k lines)) b')
                    ∙ ap (λ k. take k (line ∷ lines)) a
                    ∙ ap (λ k. take (stop - (offset + (n - offset))) (drop k (line ∷ lines))) b)
            | inr over ↦
                let a : stop - (offset + ((n + 1) - offset)) ≡ 0 = ground arith in
                let a' : 0 ≡ stop - (offset + (n - offset)) = ground arith in
                rw (from, over)
                  (ih
                    ∙ ap (λ k. take k (drop (offset - (n + 1)) lines)) a
                    ∙ ap (λ k. take k (drop (offset - n) (line ∷ lines))) a')
          ]
    ]

append_nil : (xs : List Json) → xs ++ [] ≡ xs
append_nil [] = refl
append_nil (x ∷ xs) = ap (λ t. x ∷ t) (append_nil xs)

module _ {A B : Type 0} (f : A → B) where
  map-append : (xs ys : List A) → map f (xs ++ ys) ≡ map f xs ++ map f ys
  map-append [] ys = refl
  map-append (x ∷ xs) ys = ap (λ t. f x ∷ t) (map-append xs ys)

append_assoc : (xs ys zs : List Json) → (xs ++ ys) ++ zs ≡ xs ++ (ys ++ zs)
append_assoc [] ys zs = refl
append_assoc (x ∷ xs) ys zs = ap (λ t. x ∷ t) (append_assoc xs ys zs)

-- The window `sink` is `w` with the values of the lines added.
record Filled (c : Crates) (w : ReadWindow) (lines : List Bytes) (sink : Option ReadWindow)
    : Type 0 where
  w' : ReadWindow
  at : sink ≡ some w'
  offset : w'.offset ≡ w.offset
  stop : w'.stop ≡ w.stop
  added : List Json
  records : w'.records ≡ w.records ++ added
  values : map c.parse_value lines ≡ map some added

-- What a round of the scan leaves in the window.
keep_line-Filled :
    (c : Crates) (w : ReadWindow) (n : ℕ) (line : Bytes) (sink : Option ReadWindow)
    → keep_line c (some w) n line ≡ ok sink
    → Filled c w (if leb w.offset n && ltb n w.stop then line ∷ [] else []) sink
unfolding keep_line
keep_line-Filled c w n line sink h = elim (Bool-cases (leb w.offset n && ltb n w.stop)) [
  | inl inside ↦
      let (v, p, q) = >>=-eq-ok (ok_or (c.parse_value line) LedgerError.serde) _ (rw inside at h) in
      record {
        w' = record w { records = w.records ++ v ∷ [] };
        at = sym (ok_inj q);
        offset = refl;
        stop = refl;
        added = v ∷ [];
        records = refl;
        values = rw inside (ap (λ o. o ∷ []) (ok_or-eq-ok _ _ p));
      }
  | inr outside ↦ record {
    w' = w;
    at = sym (ok_inj (rw outside at h));
    offset = refl;
    stop = refl;
    added = [];
    records = sym (append_nil w.records);
    values = rw outside refl;
  }
]

then_fill :
    (c : Crates) (w : ReadWindow) (ls ls' : List Bytes) {sink sink' : Option ReadWindow}
    → (a : Filled c w ls sink) → Filled c a.w' ls' sink'
    → Filled c w (ls ++ ls') sink'
then_fill c w ls ls' a b = record {
  w' = b.w';
  at = b.at;
  offset = b.offset ∙ a.offset;
  stop = b.stop ∙ a.stop;
  added = a.added ++ b.added;
  records = b.records ∙ ap (λ t. t ++ b.added) a.records ∙ append_assoc w.records a.added b.added;
  values =
      map-append c.parse_value ls ls'
      ∙ ap (λ t. t ++ map c.parse_value ls') a.values
      ∙ ap (λ t. map some a.added ++ t) b.values
      ∙ sym (map-append some a.added b.added);
}

kept-cons :
    (offset stop n : ℕ) (line : Bytes) (lines : List Bytes)
    → (if leb offset n && ltb n stop then line ∷ [] else []) ++ kept offset stop (suc n) lines
      ≡ kept offset stop n (line ∷ lines)
unfolding kept
kept-cons offset stop n line lines =
    let e : suc n ≡ n + 1 = omega arith in
    elim (Bool-cases (leb offset n && ltb n stop)) [
      | inl inside ↦ rw inside (ap (λ k. line ∷ kept offset stop k lines) e)
      | inr outside ↦ rw outside (ap (λ k. kept offset stop k lines) e)
    ]

kept_same :
    {offset offset' stop stop' n n' : ℕ}
    → offset ≡ offset'
    → stop ≡ stop'
    → n ≡ n'
    → (lines : List Bytes) → kept offset stop n lines ≡ kept offset' stop' n' lines
kept_same {offset' = o'} {stop} {stop' = s'} {n} a b e lines =
    ap (λ k. kept k stop n lines) a ∙ ap (λ k. kept o' k n lines) b ∙ ap (λ k. kept o' s' k lines) e

verify_loop-Filled :
    (c : Crates) (keys : List Bytes) (s : Scan) (i : ℕ) (lines : List (Result Bytes)) (s' : Scan)
    (w : ReadWindow)
    → verify_loop c keys s i lines ≡ ok s'
    → s.sink ≡ some w
    → Filled c w (kept w.offset w.stop s.count (record_lines lines)) s'.sink
unfolding verify_loop record_lines kept
verify_loop-Filled c keys s i [] s' w h e = record {
  w' = w;
  at = ap (λ (x : Scan). x.sink) (sym (ok_inj h)) ∙ e;
  offset = refl;
  stop = refl;
  added = [];
  records = sym (append_nil w.records);
  values = refl;
}
verify_loop-Filled c keys s i (err x ∷ lines) s' w h e = cc
verify_loop-Filled c keys s i (ok line ∷ lines) s' w h e = elim (Bool-cases (is_blank line)) [
  | inl blank ↦
      subst (λ (l : List Bytes). Filled c w (kept w.offset w.stop s.count l) s'.sink)
        (record_lines-blank line lines blank)
        (verify_loop-Filled c keys s (i + 1) lines s' w (rw blank at h) e)
  | inr full ↦
      let (t, step, rest) = >>=-eq-ok (verify_line c keys s i line) _ (rw full at h) in
      let a = verify_line-Passed c keys s i line t step in
      let round =
        keep_line-Filled c w s.count line t.sink
          (subst (λ o. keep_line c o s.count line ≡ ok t.sink) e a.step.windowed) in
      let later = verify_loop-Filled c keys t (i + 1) lines s' round.w' rest round.at in
      let moved : kept round.w'.offset round.w'.stop t.count (record_lines lines)
          ≡ kept w.offset w.stop (suc s.count) (record_lines lines) =
        kept_same round.offset round.stop a.step.counted (record_lines lines) in
      subst (λ (l : List Bytes). Filled c w l s'.sink)
        (kept-cons w.offset w.stop s.count line (record_lines lines)
          ∙ ap (kept w.offset w.stop s.count) (record_lines-record line lines full))
        (then_fill c w _ _ round
          (subst (λ (l : List Bytes). Filled c round.w' l s'.sink) moved later))
]

-- A verified read returns the values of the records in its window, in order: `limit` records from position
-- `offset` on, or those that there are, where the sum of the two is below 2 ^ 64.
pub read_verified_with_keys-window :
    (c : Crates) (lines : List (Result Bytes)) (torn : Option ℕ) (keys : List Bytes)
    (offset limit : ℕ) (report : VerifyReport) (records : List Json)
    → offset + limit < 2 ^ 64
    → read_verified_with_keys c lines torn keys offset limit ≡ ok (report, records)
    → map c.parse_value (take limit (drop offset (record_lines lines))) ≡ map some records
unfolding read_verified_with_keys verify_lines
read_verified_with_keys-window c lines torn keys offset limit report records small h =
    let w = window_at offset limit in
    let (r, run, out) = >>=-eq-ok (verify_inner c lines torn keys (some w)) _ h in
    let (_, scan) = inner-torn c lines torn keys (some w) run in
    let (s, loop, end) = >>=-eq-ok (verify_loop c keys (start_scan (some w)) 0 lines) _ scan in
    let f = verify_loop-Filled c keys (start_scan (some w)) 0 lines s w loop refl in
    let sink : s.sink ≡ r.1 = ap (λ (x : VerifyReport × Option ReadWindow). x.1) (ok_inj end) in
    let read : window_records r.1 ≡ records =
      ap (λ (x : VerifyReport × List Json). x.1) (ok_inj out) in
    let added : records ≡ f.added = sym read ∙ ap window_records (sym sink ∙ f.at) ∙ f.records in
    let count : w.stop - (offset + (0 - offset)) ≡ limit = ground arith in
    let start : offset - 0 ≡ offset = omega arith in
    let segment : kept w.offset w.stop 0 (record_lines lines)
        ≡ take limit (drop offset (record_lines lines)) =
      kept-take w.offset w.stop 0 (record_lines lines)
      ∙ ap (λ k. take k (drop (offset - 0) (record_lines lines))) count
      ∙ ap (λ k. take limit (drop k (record_lines lines))) start in
    ap (map c.parse_value) (sym segment) ∙ f.values ∙ ap (map some) (sym added)
