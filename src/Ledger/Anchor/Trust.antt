-- ===== src/Ledger/Anchor/Trust.antt =====
-- What the two checks against an anchor accept: only an anchor that a trusted key vouches for counts.
use decern.Base.{
  bytes_eq_sound, ◌≡◌, ◌↔◌, ◌⊎◌, inl, inr, refl, sym, ap, subst, Bool, true, false, not,
  not-eq-false, Option, none, some, List, Bytes, ltb, ◌==◌, ==_iff, Bool-cases, arith,
}
use decern.Ledger.Record.{
  ok_inj, Crates, Why, LedgerError, Result, ok, err, ◌>>=◌, ◌>>◌, refuse_if, >>=-eq-ok,
  refuse_if-eq-ok, genesis,
}
use decern.Ledger.Verify.Chain.{record_lines, HashChain}
use decern.Ledger.Anchor.{
  Checkpoint, any_vouches, trusted_anchor, ledger_extends_checkpoint, is_root,
  verify_against_anchor, refuse_removed_history,
}
use decern.Ledger.Anchor.Vouched.{SignedUnder, any_vouches-SignedUnder, SignedUnder-any_vouches}
use decern.Ledger.Anchor.Extends.{Heads, extends-Heads}

module _ (c : Crates) where
  trusted_anchor-vouched :
      (anchor : Result (Option Checkpoint)) (verifiers : List Bytes) (cp : Checkpoint)
      → trusted_anchor c anchor verifiers ≡ ok (some cp)
      → (anchor ≡ ok (some cp)) × (any_vouches c verifiers cp ≡ true)
  unfolding trusted_anchor
  trusted_anchor-vouched (err e) verifiers cp h = cc
  trusted_anchor-vouched (ok none) verifiers cp h = cc
  trusted_anchor-vouched (ok (some x)) verifiers cp h =
      elim (Bool-cases (any_vouches c verifiers x)) [
        | inl good ↦
            let same : x ≡ cp = cc (rw good at h) in
            (
              ap (λ (y : Checkpoint). ok (some y)) same,
              subst (λ (y : Checkpoint). any_vouches c verifiers y ≡ true) same good,
            )
        | inr bad ↦ absurd (cc (rw bad at h))
      ]

  trusted_anchor-none :
      (anchor : Result (Option Checkpoint)) (verifiers : List Bytes)
      → trusted_anchor c anchor verifiers ≡ ok none
      → anchor ≡ ok none
  unfolding trusted_anchor
  trusted_anchor-none (err e) verifiers h = cc
  trusted_anchor-none (ok none) verifiers h = refl
  trusted_anchor-none (ok (some x)) verifiers h = elim (Bool-cases (any_vouches c verifiers x)) [
    | inl good ↦ absurd (cc (rw good at h))
    | inr bad ↦ absurd (cc (rw bad at h))
  ]

  -- The log holds the anchor's records: as many as it counts, chained from the start to its root.
  abbrev pub Holds : List (Result Bytes) → Checkpoint → Type 0
  Holds lines cp = Heads c cp.root genesis cp.count (record_lines lines)

  extends-empty :
      (lines : List (Result Bytes)) (cp : Checkpoint)
      → cp.count ≡ 0
      → ledger_extends_checkpoint c lines cp ≡ ok true
      → genesis ≡ cp.root
  unfolding ledger_extends_checkpoint is_root
  extends-empty lines cp n h =
      let nothing : (cp.count == 0) ≡ true = (==_iff _ _).1 n in
      bytes_eq_sound genesis cp.root (ok_inj (rw nothing at h))

  extends-Holds :
      (lines : List (Result Bytes)) (cp : Checkpoint)
      → ledger_extends_checkpoint c lines cp ≡ ok true
      → Holds lines cp
  extends-Holds lines cp h = elim (Bool-cases (ltb 0 cp.count)) [
    | inl some_records ↦ extends-Heads c lines cp (ground (arith, some_records)) h
    | inr nothing ↦
        let n : 0 ≡ cp.count = ground (arith, nothing) in
        subst (λ k. Heads c cp.root genesis k (record_lines lines)) n
          (record {
            enough = omega arith;
            chain = HashChain.end (extends-empty lines cp (sym n) h);
          })
  ]

  -- If `verify_against_anchor` accepts a log, then there is no anchor, or the anchor's signature verifies under
  -- a trusted key and the log's first records, as many as the anchor counts, chain from the start to the anchor's root.
  pub verify_against_anchor-vouched :
      (lines : List (Result Bytes)) (verifiers : List Bytes) (anchor : Result (Option Checkpoint))
      → verify_against_anchor c lines verifiers anchor ≡ ok tt
      → (anchor ≡ ok none)
        ⊎ ((cp : Checkpoint) × (anchor ≡ ok (some cp))
            × SignedUnder c verifiers cp
            × Holds lines cp)
  unfolding verify_against_anchor
  verify_against_anchor-vouched lines verifiers anchor h =
      let (o, trust, rest) = >>=-eq-ok (trusted_anchor c anchor verifiers) _ h in go o trust rest
    where
      go :
          (o : Option Checkpoint)
          → trusted_anchor c anchor verifiers ≡ ok o
          → elim o as (λ _. Result (Unit {0})) [
            | none ↦ ok tt
            | some cp ↦ ledger_extends_checkpoint c lines cp >>= λ extends.
                refuse_if (not extends) (LedgerError.tamper cp.count Why.not_extended) >> ok tt
          ]
            ≡ ok tt
          → (anchor ≡ ok none)
            ⊎ ((cp : Checkpoint) × (anchor ≡ ok (some cp))
                × SignedUnder c verifiers cp
                × Holds lines cp)
      go none t k = inl (trusted_anchor-none anchor verifiers t)
      go (some cp) t k =
          let (extends, run, last) = >>=-eq-ok (ledger_extends_checkpoint c lines cp) _ k in
          let (held, _) = refuse_if-eq-ok (not extends) _ (ok tt) last in
          let (source, good) = trusted_anchor-vouched anchor verifiers cp t in
          let grown : extends ≡ true = not-eq-false extends held in
          let whole = subst (λ (b : Bool). ledger_extends_checkpoint c lines cp ≡ ok b) grown run in
          inr
            (cp, source, any_vouches-SignedUnder c verifiers cp good, extends-Holds lines cp whole)

  -- What a ledger without a file may be opened under: no anchor, or one signed by a trusted key that counts no record.
  abbrev pub NothingRemoved : Result (Option Checkpoint) → List Bytes → Type 0
  NothingRemoved anchor verifiers =
      (anchor ≡ ok none)
      ⊎ ((cp : Checkpoint) × (anchor ≡ ok (some cp)) × SignedUnder c verifiers cp × (cp.count ≡ 0))

  removed-NothingRemoved :
      (anchor : Result (Option Checkpoint)) (verifiers : List Bytes)
      → refuse_removed_history c (some anchor) verifiers ≡ ok tt
      → NothingRemoved anchor verifiers
  unfolding refuse_removed_history
  removed-NothingRemoved anchor verifiers h =
      let (o, trust, rest) = >>=-eq-ok (trusted_anchor c anchor verifiers) _ h in go o trust rest
    where
      go :
          (o : Option Checkpoint)
          → trusted_anchor c anchor verifiers ≡ ok o
          → elim o as (λ _. Result (Unit {0})) [
            | none ↦ ok tt
            | some cp ↦ refuse_if (ltb 0 cp.count) (LedgerError.tamper cp.count Why.not_extended)
          ]
            ≡ ok tt
          → NothingRemoved anchor verifiers
      go none t k = inl (trusted_anchor-none anchor verifiers t)
      go (some cp) t k = elim (Bool-cases (ltb 0 cp.count)) [
        | inl some_record ↦ absurd (cc (rw some_record at k))
        | inr nothing ↦
            let (source, good) = trusted_anchor-vouched anchor verifiers cp t in
            inr (cp, source, any_vouches-SignedUnder c verifiers cp good, ground arith)
      ]

  NothingRemoved-removed :
      (anchor : Result (Option Checkpoint)) (verifiers : List Bytes)
      → NothingRemoved anchor verifiers
      → refuse_removed_history c (some anchor) verifiers ≡ ok tt
  unfolding refuse_removed_history trusted_anchor
  NothingRemoved-removed anchor verifiers (inl e) = rw e refl
  NothingRemoved-removed anchor verifiers (inr (cp, e, (key, among, signs), n)) =
      let good = SignedUnder-any_vouches c verifiers cp key among signs in
      let nothing : ltb 0 cp.count ≡ false = ground (arith, n) in rw (e, good, nothing) refl

  -- `refuse_removed_history` lets a ledger without a file be opened under an anchor exactly when there is no anchor after all, or the anchor's signature verifies
  -- under a trusted key and it counts no record.
  pub refuse_removed_history-empty :
      (anchor : Result (Option Checkpoint)) (verifiers : List Bytes)
      → (refuse_removed_history c (some anchor) verifiers ≡ ok tt) ↔ NothingRemoved anchor verifiers
  refuse_removed_history-empty anchor verifiers =
      (removed-NothingRemoved anchor verifiers, NothingRemoved-removed anchor verifiers)
