-- ===== src/Ledger/Writer/Runs.antt =====
-- The invariant over the calls of a writer: the loop of `append_all`, a rotation of the key, and whole runs.
use decern.Base.{
  ℕ, suc, ◌+◌, ◌≡◌, refl, sym, ap, ◌∙◌, subst, Bool, true, false, not, ◌&&◌, arith, if◌then◌else◌,
  Bool-cases, Option-cases, inl, inr, none, List, [], ◌∷◌, ◌++◌, All, length, Bytes, bytes_eq,
  bytes_eq_refl,
}
use decern.Ledger.Record.{Crates, Entry, LedgerError, ok, err}
use decern.Ledger.Verify.{verify_loop, start_scan, report_of, successor}
use decern.Ledger.Verify.Growth.{verify_loop-more_keys}
use decern.Ledger.File.{split_lines, decode_lines}
use decern.Ledger.Writer.{
  Ledger, Record, Write, Outcome, append, append_loop, append_all, rotate, self_verify, kid_of,
  any_key_eq, push_key,
}
use decern.Ledger.Writer.Append.{Laws, IsReadable, head_of, any_key_eq-any_key}
use decern.Ledger.Writer.Invariant.{IsSound, IsSound-self_verify}
use decern.Ledger.Writer.Steps.{append-IsSound}

any_key_eq-last : (keys : List Bytes) (k : Bytes) → any_key_eq (keys ++ k ∷ []) k ≡ true
unfolding any_key_eq
any_key_eq-last [] k = rw (bytes_eq_refl k) refl
any_key_eq-last (x ∷ keys) k = elim (Bool-cases (bytes_eq x k)) [
  | inl same ↦ rw same refl
  | inr other ↦ rw other (any_key_eq-last keys k)
]

pub push_key-any_key_eq : (keys : List Bytes) (k : Bytes) → any_key_eq (push_key keys k) k ≡ true
push_key-any_key_eq keys k = elim (Bool-cases (any_key_eq keys k)) [
  | inl there ↦ rw there there
  | inr missing ↦ rw missing (any_key_eq-last keys k)
]

module _ (c : Crates) where
  -- The latch and the mode of the sync are no part of the invariant.
  IsSound-modes :
      (l : Ledger) (sync failed : Bool)
      → IsSound c l
      → IsSound c (record l { sync = sync; failed = failed })
  IsSound-modes l sync failed s = record {
    may_sign = record { in_ring = s.may_sign.in_ring; current = s.may_sign.current };
    terminated = s.terminated;
    scanned = s.scanned;
  }

  rotated-IsSound :
      (l : Ledger) (new_key : Bytes)
      → successor l.signers (kid_of c new_key) ≡ none
      → IsSound c l
      → IsSound c
          (record l { verifiers = push_key l.verifiers (c.verifying_key new_key); key = new_key })
  rotated-IsSound l new_key free s = record {
    may_sign = record {
      in_ring = push_key-any_key_eq l.verifiers (c.verifying_key new_key);
      current = free;
    };
    terminated = s.terminated;
    scanned = more (any_key_eq l.verifiers (c.verifying_key new_key));
  }
    where
      more :
          (b : Bool)
          → verify_loop c
              (if b then l.verifiers else l.verifiers ++ c.verifying_key new_key ∷ [])
              (start_scan none)
              0
              (decode_lines c (split_lines l.file))
            ≡ ok (head_of c l)
      more true = s.scanned
      more false =
          verify_loop-more_keys c l.verifiers (c.verifying_key new_key ∷ []) (start_scan none) 0
            (decode_lines c (split_lines l.file)) (head_of c l)
            (any_key_eq-any_key c l.verifiers (c.verifying_key l.key) s.may_sign.in_ring) s.scanned

  -- A rotation to a key that may still sign keeps the writer sound and its file as it was.
  pub rotate-IsSound :
      (l : Ledger) (new_key : Bytes) (l' : Ledger)
      → IsSound c l
      → rotate c l new_key ≡ (ok tt, l')
      → IsSound c l' × (l'.file ≡ l.file)
  unfolding rotate
  rotate-IsSound l new_key l' s h = elim (Option-cases (successor l.signers (kid_of c new_key))) [
    | inl free ↦
        let turned = record l {
          verifiers = push_key l.verifiers (c.verifying_key new_key);
          key = new_key;
        } in
        let same : turned ≡ l' = ap (λ (o : Outcome (Unit {0})). o.1) (rw (rotate, free) at h) in
        (
          subst (IsSound c) same (rotated-IsSound l new_key free s),
          sym (ap (λ (x : Ledger). x.file) same),
        )
    | inr (next, e) ↦ absurd (cc (rw (rotate, e) at h))
  ]

  module _ (laws : Laws c) where
    pub record Grew (l : Ledger) (n : ℕ) (l' : Ledger) : Type 0 where
      pub sound : IsSound c l'
      pub numbered : l'.next_seq ≡ l.next_seq + n
      pub same_keys : (l'.verifiers ≡ l.verifiers) × (l'.key ≡ l.key)

    append-Grew :
        (l : Ledger) (given : Entry) (w : Write) (r : Record) (l' : Ledger)
        → IsSound c l
        → IsReadable c given
        → append c l given w ≡ (ok r, l')
        → Grew l 1 l'
    append-Grew l given w r l' s readable e =
        let a = append-IsSound c laws l given w r l' s readable e in
        record {
          sound = a.sound;
          numbered = ap (λ (x : Ledger). x.next_seq) a.grown;
          same_keys =
              (ap (λ (x : Ledger). x.verifiers) a.grown, ap (λ (x : Ledger). x.key) a.grown);
        }

    abbrev pub AllReadable : List (Entry × Write) → Type 0
    AllReadable entries = All (λ (p : Entry × Write). IsReadable c p.0) entries

    abbrev LaterGrew : List (Entry × Write) → Type 0
    LaterGrew entries =
        (l : Ledger) (records : List Record) (l' : Ledger)
        → IsSound c l
        → append_loop c l entries ≡ (ok records, l')
        → Grew l (length entries) l'

    append_loop-Grew :
        (l : Ledger) (entries : List (Entry × Write)) (rs : List Record) (l' : Ledger)
        → IsSound c l
        → AllReadable entries
        → append_loop c l entries ≡ (ok rs, l')
        → Grew l (length entries) l'
    unfolding append_loop
    append_loop-Grew l [] rs l' s readable e =
        let same = ap (λ (o : Outcome (List Record)). o.1) e in
        record {
          sound = subst (IsSound c) same s;
          numbered = ap (λ (x : Ledger). x.next_seq) (sym same) ∙ omega arith;
          same_keys =
              (ap (λ (x : Ledger). x.verifiers) (sym same), ap (λ (x : Ledger). x.key) (sym same));
        }
    append_loop-Grew l ((given, w) ∷ entries) rs l' s readable e =
        first (λ l1 records l2 s1 h. append_loop-Grew l1 entries records l2 s1 readable.1 h)
          (append c l given w) refl e
      where
        later :
            LaterGrew entries
            → (r : Record) (l1 : Ledger) (o : Outcome (List Record))
            → append c l given w ≡ (ok r, l1)
            → append_loop c l1 entries ≡ o
            → elim o.0 as (λ _. Outcome (List Record)) [
              | err e ↦ (err e, o.1)
              | ok records ↦ (ok (r ∷ records), o.1)
            ]
              ≡ (ok rs, l')
            → Grew l (suc (length entries)) l'
        later ih r l1 (err e, l2) h h' h'' = cc
        later ih r l1 (ok records, l2) h h' h'' =
            let same : l2 ≡ l' = ap (λ (o : Outcome (List Record)). o.1) h'' in
            let a = append-Grew l given w r l1 s readable.0 h in
            let b = ih l1 records l2 a.sound h' in
            subst (Grew l (suc (length entries))) same (record {
              sound = b.sound;
              numbered = omega (arith, a.numbered, b.numbered);
              same_keys = (b.same_keys.0 ∙ a.same_keys.0, b.same_keys.1 ∙ a.same_keys.1);
            })

        first :
            LaterGrew entries
            → (o : Outcome Record) → append c l given w ≡ o
            → elim o.0 as (λ _. Outcome (List Record)) [
              | err e ↦ (err e, o.1)
              | ok r ↦ elim (append_loop c o.1 entries).0 as (λ _. Outcome (List Record)) [
                | err e ↦ (err e, (append_loop c o.1 entries).1)
                | ok records ↦ (ok (r ∷ records), (append_loop c o.1 entries).1)
              ]
            ]
              ≡ (ok rs, l')
            → Grew l (suc (length entries)) l'
        first ih (err e, l1) h h' = cc
        first ih (ok r, l1) h h' = later ih r l1 (append_loop c l1 entries) h refl h'

    pub append_all-Grew :
        (l : Ledger) (entries : List (Entry × Write)) (synced : Bool) (rs : List Record)
        (l' : Ledger)
        → IsSound c l
        → AllReadable entries
        → append_all c l entries synced ≡ (ok rs, l')
        → Grew l (length entries) l'
    unfolding append_all
    append_all-Grew l entries synced rs l' s readable e = last (l.sync && not synced) e
      where
        restored : Outcome (List Record) → Outcome (List Record)
        restored o = (o.0, record o.1 { sync = l.sync })

        unsynced : Outcome (List Record) → Outcome (List Record)
        unsynced o = (err (LedgerError.io []), record o.1 { sync = l.sync; failed = true })

        start : Ledger
        start = record l { sync = false }

        looped :
            (o : Outcome (List Record))
            → append_loop c start entries ≡ o
            → restored o ≡ (ok rs, l')
            → Grew l (length entries) l'
        looped (err e, l1) h h' = cc
        looped (ok records, l1) h h' =
            let same : record l1 { sync = l.sync } ≡ l' =
              ap (λ (o : Outcome (List Record)). o.1) h' in
            let g =
              append_loop-Grew start entries records l1 (IsSound-modes l false l.failed s) readable
                h in
            subst (Grew l (length entries)) same (record {
              sound = IsSound-modes l1 l.sync l1.failed g.sound;
              numbered = g.numbered;
              same_keys = g.same_keys;
            })

        last :
            (b : Bool)
            → (if b
                then unsynced (append_loop c start entries)
                else restored (append_loop c start entries))
              ≡ (ok rs, l')
            → Grew l (length entries) l'
        last true h = absurd (cc h)
        last false h = looped (append_loop c start entries) refl h

    -- The calls of a writer that succeed, one after another, and how many entries they appended.
    pub data Run : Ledger → ℕ → Ledger → Type 0 where
      stay : (l : Ledger) → Run l 0 l
      then_append :
          {l l' l'' : Ledger} {n : ℕ} (given : Entry) (w : Write) (r : Record)
          → IsReadable c given
          → append c l given w ≡ (ok r, l')
          → Run l' n l''
          → Run l (1 + n) l''
      then_append_all :
          {l l' l'' : Ledger} {n : ℕ} (entries : List (Entry × Write)) (synced : Bool)
          (rs : List Record)
          → AllReadable entries
          → append_all c l entries synced ≡ (ok rs, l')
          → Run l' n l''
          → Run l (length entries + n) l''
      then_rotate :
          {l l' l'' : Ledger} {n : ℕ} (new_key : Bytes)
          → rotate c l new_key ≡ (ok tt, l')
          → Run l' n l''
          → Run l n l''

    rotate-next_seq :
        (l : Ledger) (new_key : Bytes) (l' : Ledger)
        → rotate c l new_key ≡ (ok tt, l')
        → l'.next_seq ≡ l.next_seq
    unfolding rotate
    rotate-next_seq l new_key l' h = elim (Option-cases (successor l.signers (kid_of c new_key))) [
      | inl free ↦ sym (ap (λ (o : Outcome (Unit {0})). o.1.next_seq) (rw (rotate, free) at h))
      | inr (next, e) ↦ absurd (cc (rw (rotate, e) at h))
    ]

    Run-IsSound :
        {l l' : Ledger} {n : ℕ}
        → Run l n l'
        → IsSound c l
        → IsSound c l' × (l'.next_seq ≡ l.next_seq + n)
    Run-IsSound (Run.stay l) s = (s, omega arith)
    Run-IsSound (Run.then_append {l} {l'} given w r readable e run) s =
        let g = append-Grew l given w r l' s readable e in
        let (s', n) = Run-IsSound run g.sound in (s', omega (arith, n, g.numbered))
    Run-IsSound (Run.then_append_all {l} {l'} entries synced rs readable e run) s =
        let g = append_all-Grew l entries synced rs l' s readable e in
        let (s', n) = Run-IsSound run g.sound in (s', omega (arith, n, g.numbered))
    Run-IsSound (Run.then_rotate {l} {l'} new_key e run) s =
        let (s1, same) = rotate-IsSound l new_key l' s e in
        let (s', n) = Run-IsSound run s1 in (s', omega (arith, n, rotate-next_seq l new_key l' e))

    -- After any run of appends, batches and rotations that succeed from a sound writer, on entries that the parser reads back from
    -- their printed text, the writer's own verification of its file succeeds, and it counts the records that were there and those
    -- appended.
    pub Run-self_verify :
        {l l' : Ledger} {n : ℕ}
        → IsSound c l
        → Run l n l'
        → self_verify c l' ≡ ok (report_of l'.verifiers (head_of c l'))
          × (l'.next_seq ≡ l.next_seq + n)
    Run-self_verify {l'} s run = let (s', e) = Run-IsSound run s in (IsSound-self_verify c l' s', e)
