-- ===== src/Ledger/Segment/Shape.antt =====
-- A rollover keeps the manifest well-formed, and its new file is none that is there.
use decern.Base.{
  ℕ, ◌+◌, ◌≤◌, ◌<◌, ◌==◌, ==_iff, ltb, ◌≡◌, refl, sym, ap, ◌∙◌, subst, Bool, true, false, ◌&&◌, not,
  not-eq-false, Bool-cases, inl, inr, arith, Option, none, some, List, [], ◌∷◌, ◌++◌, if◌then◌else◌,
  Among, here, there, Bytes,
}
use decern.Ledger.Record.{
  Result, LedgerError, ok, err, refuse_if, ok_or, >>=-eq-ok, refuse_if-eq-ok,
}
use decern.Ledger.Segment.{
  SegmentMeta, Manifest, is_open, first_open, active, active_count, last_sealed, hands_off,
  contiguous, validate_manifest_shape, bad_shape, index_or, max_of, max_name, max_index, files_of,
  seal_active, roll_over, segment_filename, validate_segment_filename,
}
use decern.Ledger.Segment.Names.{validate_segment_filename-segment_filename}

-- Segments that hand off one to the next, the last of them open.
pub data Run : List SegmentMeta → SegmentMeta → Type 0 where
  last : {s : SegmentMeta} → s.end_seq ≡ none → Run (s ∷ []) s
  more :
      {s t a : SegmentMeta} {segments : List SegmentMeta}
      → s.end_seq ≡ some t.start_seq
      → Run (t ∷ segments) a
      → Run (s ∷ t ∷ segments) a

is_open-none : (o : Option ℕ) → is_open o ≡ true → o ≡ none
is_open-none none h = refl
is_open-none (some n) h = cc

hands_off-some : (o : Option ℕ) (n : ℕ) → hands_off o n ≡ true → o ≡ some n
hands_off-some none n h = cc
hands_off-some (some k) n h = ap some ((==_iff k n).0 h)

and_true : (a b : Bool) → (a && b) ≡ true → (a ≡ true) × (b ≡ true)
and_true true true h = (refl, refl)
and_true true false h = cc
and_true false b h = cc

contiguous-Run :
    (s : SegmentMeta) (segments : List SegmentMeta) (a : SegmentMeta)
    → contiguous (s ∷ segments) ≡ true
    → first_open (s ∷ segments) ≡ some a
    → Run (s ∷ segments) a
unfolding contiguous first_open
contiguous-Run s [] a c f = elim (Bool-cases (is_open s.end_seq)) [
  | inl open_last ↦
      let same : s ≡ a = cc (rw open_last at f) in
      subst (Run (s ∷ [])) same (Run.last (is_open-none s.end_seq open_last))
  | inr sealed ↦ absurd (cc (rw sealed at f))
]
contiguous-Run s (t ∷ segments) a c f =
    let (off, rest) = and_true (hands_off s.end_seq t.start_seq) (contiguous (t ∷ segments)) c in
    let e = hands_off-some s.end_seq t.start_seq off in
    Run.more e (contiguous-Run t segments a rest (rw e at f))

-- What a run passes.
record Passes (segments : List SegmentMeta) : Type 0 where
  linked : contiguous segments ≡ true
  one_open : active_count segments ≡ 1
  open_last : last_sealed segments ≡ false

Run-Passes : (segments : List SegmentMeta) (a : SegmentMeta) → Run segments a → Passes segments
unfolding contiguous active_count last_sealed
Run-Passes [] a r = elim r [ ]
Run-Passes (s ∷ []) a (Run.last e) = record {
  linked = refl;
  one_open = rw e refl;
  open_last = rw e refl;
}
Run-Passes (s ∷ t ∷ segments) a (Run.more e r) =
    let p = Run-Passes (t ∷ segments) a r in
    let off : hands_off s.end_seq t.start_seq ≡ true =
      rw e ((==_iff t.start_seq t.start_seq).1 refl) in
    record { linked = rw (off, p.linked) refl; one_open = rw e p.one_open; open_last = p.open_last }

abbrev next_segment : Bytes → ℕ → ℕ → SegmentMeta
next_segment file seq ts = record { file = file; start_seq = seq; end_seq = none; opened_ms = ts }

abbrev sealed_at : ℕ → SegmentMeta → SegmentMeta
sealed_at seq s = record s { end_seq = some seq }

seal_active-open :
    (seq : ℕ) (s : SegmentMeta) (segments : List SegmentMeta)
    → is_open s.end_seq ≡ true
    → seal_active seq (s ∷ segments) ≡ sealed_at seq s ∷ segments
unfolding seal_active
seal_active-open seq s segments e =
    ap (λ b. if b then sealed_at seq s ∷ segments else s ∷ seal_active seq segments) e

seal_active-sealed :
    (seq : ℕ) (s : SegmentMeta) (segments : List SegmentMeta)
    → is_open s.end_seq ≡ false
    → seal_active seq (s ∷ segments) ≡ s ∷ seal_active seq segments
unfolding seal_active
seal_active-sealed seq s segments e =
    ap (λ b. if b then sealed_at seq s ∷ segments else s ∷ seal_active seq segments) e

Run-seal_active :
    (segments : List SegmentMeta) (a : SegmentMeta) (file : Bytes) (seq ts : ℕ)
    → Run segments a
    → Run (seal_active seq segments ++ next_segment file seq ts ∷ []) (next_segment file seq ts)
Run-seal_active [] a file seq ts r = elim r [ ]
Run-seal_active (s ∷ []) a file seq ts (Run.last e) =
    let new = next_segment file seq ts in
    subst (λ l. Run (l ++ new ∷ []) new) (sym (seal_active-open seq s [] (ap is_open e)))
      (Run.more refl (Run.last refl))
Run-seal_active (s ∷ t ∷ []) a file seq ts (Run.more e (Run.last e')) =
    let new = next_segment file seq ts in
    subst (λ l. Run (l ++ new ∷ []) new)
      (sym (
        seal_active-sealed seq s (t ∷ []) (ap is_open e)
        ∙ ap (λ l. s ∷ l) (seal_active-open seq t [] (ap is_open e'))))
      (Run.more e (Run.more refl (Run.last refl)))
Run-seal_active (s ∷ t ∷ u ∷ segments) a file seq ts (Run.more e (Run.more e' r)) =
    let new = next_segment file seq ts in
    let at = seal_active-sealed seq t (u ∷ segments) (ap is_open e') in
    let ih =
      subst (λ l. Run (l ++ new ∷ []) new) at
        (Run-seal_active (t ∷ u ∷ segments) a file seq ts (Run.more e' r)) in
    subst (λ l. Run (l ++ new ∷ []) new)
      (sym (seal_active-sealed seq s (t ∷ u ∷ segments) (ap is_open e) ∙ ap (λ l. s ∷ l) at))
      (Run.more e ih)

first_start :
    (seq : ℕ) (s : SegmentMeta) (segments extra : List SegmentMeta)
    → (h : SegmentMeta) × (rest : List SegmentMeta) × (seal_active seq (s ∷ segments) ++ extra
        ≡ h ∷ rest)
      × (h.start_seq ≡ s.start_seq)
first_start seq s segments extra = elim (Bool-cases (is_open s.end_seq)) [
  | inl opened ↦ (
    sealed_at seq s,
    segments ++ extra,
    ap (λ l. l ++ extra) (seal_active-open seq s segments opened),
    refl,
  )
  | inr sealed ↦ (
    s,
    seal_active seq segments ++ extra,
    ap (λ l. l ++ extra) (seal_active-sealed seq s segments sealed),
    refl,
  )
]

-- What an accepted manifest shows.
record Shaped (segments : List SegmentMeta) : Type 0 where
  head : SegmentMeta
  tail : List SegmentMeta
  parts : segments ≡ head ∷ tail
  from_zero : head.start_seq ≡ 0
  linked : contiguous (head ∷ tail) ≡ true

validate-Shaped :
    (manifest : Manifest) → validate_manifest_shape manifest ≡ ok tt → Shaped manifest.segments
unfolding validate_manifest_shape
validate-Shaped manifest = go manifest.segments
  where
    refused_not : (b : Bool) → refuse_if (not b) bad_shape ≡ ok tt → b ≡ true
    refused_not true h = refl
    refused_not false h = cc

    go :
        (segments : List SegmentMeta)
        → validate_manifest_shape (record manifest { segments = segments }) ≡ ok tt
        → Shaped segments
    go [] h = absurd (cc h)
    go (s ∷ segments) h =
        let (a, h1) = refuse_if-eq-ok (not (s.start_seq == 0)) _ _ h in
        let (b, h2) = refuse_if-eq-ok (ltb 1 (active_count (s ∷ segments))) _ _ h1 in
        let (c, h3) =
          refuse_if-eq-ok ((active_count (s ∷ segments) == 1) && last_sealed (s ∷ segments)) _ _
            h2 in
        record {
          head = s;
          tail = segments;
          parts = refl;
          from_zero = (==_iff s.start_seq 0).0 (not-eq-false _ a);
          linked = refused_not (contiguous (s ∷ segments)) h3;
        }

Run-validate :
    (manifest : Manifest) (h a : SegmentMeta) (rest : List SegmentMeta)
    → manifest.segments ≡ h ∷ rest
    → h.start_seq ≡ 0
    → Run (h ∷ rest) a
    → validate_manifest_shape manifest ≡ ok tt
unfolding validate_manifest_shape
Run-validate manifest h a rest e z r =
    let p = Run-Passes (h ∷ rest) a r in
    let start : (h.start_seq == 0) ≡ true = (==_iff h.start_seq 0).1 z in
    ap (λ l. validate_manifest_shape (record manifest { segments = l })) e
    ∙ rw (validate_manifest_shape, start, p.one_open, p.open_last, p.linked) refl

max_name-ge : (max : ℕ) (names : List Bytes) → max ≤ max_name max names
unfolding max_name
max_name-ge max [] = omega arith
max_name-ge max (name ∷ names) =
    let rest = max_name-ge (index_or max (validate_segment_filename name)) names in
    let step = index_or-ge max (validate_segment_filename name) in omega (arith, rest, step)
  where
    index_or-ge : (max : ℕ) (r : Result ℕ) → max ≤ index_or max r
    index_or-ge max (err e) = omega arith
    index_or-ge max (ok i) = ground arith

max_name-Among :
    (max : ℕ) (names : List Bytes) (name : Bytes) (index : ℕ)
    → Among name names
    → validate_segment_filename name ≡ ok index
    → index ≤ max_name max names
unfolding max_name
max_name-Among max [] name index a h = elim a [ ]
max_name-Among max (x ∷ names) name index (here e) h =
    let rest = max_name-ge (index_or max (validate_segment_filename x)) names in
    let this : index_or max (validate_segment_filename x) ≡ max_of max index =
      ap (λ n. index_or max (validate_segment_filename n)) (sym e) ∙ ap (index_or max) h in
    let bound : index ≤ max_of max index = ground arith in omega (arith, rest, this, bound)
max_name-Among max (x ∷ names) name index (there a) h =
    max_name-Among (index_or max (validate_segment_filename x)) names name index a h

-- What a rollover of an accepted manifest makes.
pub record RolledOver (names : List Bytes) (manifest : Manifest) (seq ts : ℕ) (manifest' : Manifest)
    : Type 0 where
  pub valid : validate_manifest_shape manifest' ≡ ok tt
  pub appends_to :
      active manifest'
      ≡ some (next_segment (segment_filename (max_index names manifest + 1)) seq ts)
  pub fresh :
      (name : Bytes) (index : ℕ)
      → Among name names
      → validate_segment_filename name ≡ ok index
      → index < max_index names manifest + 1
  pub readable :
      validate_segment_filename (segment_filename (max_index names manifest + 1))
      ≡ ok (max_index names manifest + 1)

Run-first_open :
    (segments : List SegmentMeta) (a : SegmentMeta) → Run segments a → first_open segments ≡ some a
unfolding first_open
Run-first_open [] a r = elim r [ ]
Run-first_open (s ∷ []) a (Run.last e) = rw e refl
Run-first_open (s ∷ t ∷ segments) a (Run.more e r) = rw e (Run-first_open (t ∷ segments) a r)

-- A rollover of a manifest that is accepted makes one that is accepted. It appends next to a segment that starts where the old one ends,
-- under a name that is read back, with an index above those of the names in the directory.
pub roll_over-RolledOver :
    (names : List Bytes) (manifest : Manifest) (seq ts : ℕ) (manifest' : Manifest)
    → validate_manifest_shape manifest ≡ ok tt
    → roll_over names manifest seq ts ≡ ok manifest'
    → RolledOver names manifest seq ts manifest'
unfolding roll_over active max_index
roll_over-RolledOver names manifest seq ts manifest' v h =
    let shaped = validate-Shaped manifest v in
    let index = max_index names manifest + 1 in
    let (bound, h1) = refuse_if-eq-ok (ltb 99999999 index) _ _ h in
    let (old, found, h2) =
      >>=-eq-ok (ok_or (first_open manifest.segments) (LedgerError.io [])) _ h1 in
    let new = next_segment (segment_filename index) seq ts in
    let same : record manifest { segments = seal_active seq manifest.segments ++ new ∷ [] }
        ≡ manifest' =
      cc h2 in
    let found' : first_open (shaped.head ∷ shaped.tail) ≡ some old =
      ap first_open (sym shaped.parts) ∙ ok_or-some (first_open manifest.segments) found in
    let old_run = contiguous-Run shaped.head shaped.tail old shaped.linked found' in
    let new_run =
      Run-seal_active (shaped.head ∷ shaped.tail) old (segment_filename index) seq ts old_run in
    let (first, rest, split, start) = first_start seq shaped.head shaped.tail (new ∷ []) in
    let grown : seal_active seq manifest.segments ++ new ∷ [] ≡ first ∷ rest =
      ap (λ l. seal_active seq l ++ new ∷ []) shaped.parts ∙ split in
    let run = subst (λ l. Run l new) split new_run in
    subst (RolledOver names manifest seq ts) same (record {
      valid =
          Run-validate
            (record manifest { segments = seal_active seq manifest.segments ++ new ∷ [] }) first new
            rest grown (start ∙ shaped.from_zero) run;
      appends_to = ap first_open grown ∙ Run-first_open (first ∷ rest) new run;
      fresh = λ name i a e.
          (let bound = max_name-Among (max_name 0 (files_of manifest.segments)) names name i a e in
            omega (arith, bound));
      readable = validate_segment_filename-segment_filename index (ground (arith, bound));
    })
  where
    ok_or-some :
        (o : Option SegmentMeta) {s : SegmentMeta} → ok_or o (LedgerError.io []) ≡ ok s → o ≡ some s
    ok_or-some none h = cc
    ok_or-some (some s) h = cc
