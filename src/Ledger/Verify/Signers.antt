-- ===== src/Ledger/Verify/Signers.antt =====
-- The signatures of an accepted log, and the succession of its signers.
use decern.Base.{
  ℕ, ◌≡◌, ◌≢◌, refl, sym, ap, ◌∙◌, subst, true, false, arith, if◌then◌else◌, Bool-cases, inl, inr,
  Option, none, some, List, [], ◌∷◌, ◌++◌, All, All-append, Among, here, there, Bytes, bytes_eq,
  bytes_eq_iff, bytes_eq_sound, length,
}
use decern.Ledger.Record.{Crates, SignerSpan, Why, key_fingerprint}
use decern.Ledger.Verify.{
  accepted, refused, successor, signed_last, find_kid, find_verifying, signer_of, succeed,
}

-- No key has two spans.
abbrev pub IsSuccession : List SignerSpan → Type 0
IsSuccession [] = Unit
IsSuccession (s ∷ rest) = All (λ t. s.kid ≢ t.kid) rest × IsSuccession rest

-- A key that neither signed last nor was succeeded has not signed.
pub not_signed :
    (spans : List SignerSpan) (kid : Bytes)
    → signed_last spans kid ≡ false
    → successor spans kid ≡ none
    → All (λ t. t.kid ≢ kid) spans
unfolding signed_last successor
not_signed [] kid a b = tt
not_signed (s ∷ []) kid a b = ((λ e. ground (arith, bytes_eq_iff s.kid kid)), tt)
not_signed (s ∷ next ∷ rest) kid a b = elim (Bool-cases (bytes_eq s.kid kid)) [
  | inl same ↦ absurd (cc (rw same at b))
  | inr other ↦ (
    (λ e. ground (arith, bytes_eq_iff s.kid kid)),
    not_signed (next ∷ rest) kid a (rw other at b),
  )
]

IsSuccession-append :
    (spans : List SignerSpan) (last : SignerSpan)
    → IsSuccession spans
    → All (λ t. t.kid ≢ last.kid) spans
    → IsSuccession (spans ++ last ∷ [])
IsSuccession-append [] last h n = (tt, tt)
IsSuccession-append (s ∷ spans) last h n = (
  All-append (λ t. s.kid ≢ t.kid) spans (last ∷ []) h.0 (n.0, tt),
  IsSuccession-append spans last h.1 n.1,
)

pub succeed-IsSuccession :
    (spans : List SignerSpan) (seq : ℕ) (kid : Bytes) (spans' : List SignerSpan)
    → IsSuccession spans
    → succeed spans seq kid ≡ accepted spans'
    → IsSuccession spans'
unfolding succeed
succeed-IsSuccession spans seq kid spans' h e = elim (Bool-cases (signed_last spans kid)) [
  | inl last ↦ let same : spans ≡ spans' = cc (rw last at e) in subst IsSuccession same h
  | inr other ↦ go (successor spans kid) refl (rw other at e) (λ n. not_signed spans kid other n)
]
  where
    go :
        (o : Option SignerSpan)
        → successor spans kid ≡ o
        → elim o [
          | some next ↦ refused (Why.superseded kid next)
          | none ↦ accepted (spans ++ record { kid = kid; first_seq = seq } ∷ [])
        ]
          ≡ accepted spans'
        → (successor spans kid ≡ none → All (λ t. t.kid ≢ kid) spans)
        → IsSuccession spans'
    go (some next) p q n = cc
    go none p q n =
        let same : spans ++ record { kid = kid; first_seq = seq } ∷ [] ≡ spans' = cc q in
        subst IsSuccession same
          (IsSuccession-append spans (record { kid = kid; first_seq = seq }) h (n p))

module _ (c : Crates) where
  -- What a signature that the scan accepts shows.
  pub record SignedBy (keys : List Bytes) (hash sig_b64 kid : Bytes) : Type 0 where
    pub key : Bytes
    pub sig : Bytes
    pub trusted : Among key keys
    pub named : kid ≡ key_fingerprint c key
    pub decoded : c.base64_decode sig_b64 ≡ some sig
    pub size : length sig ≡ 64
    pub verified : c.verify_strict key hash sig ≡ true

  find_kid-Among :
      (keys : List Bytes) (kid k : Bytes)
      → find_kid c keys kid ≡ some k
      → Among k keys × (key_fingerprint c k ≡ kid)
  unfolding find_kid
  find_kid-Among [] kid k e = cc
  find_kid-Among (x ∷ keys) kid k e = elim (Bool-cases (bytes_eq (key_fingerprint c x) kid)) [
    | inl same ↦
        let it : x ≡ k = cc (rw same at e) in
        (here (sym it), ap (key_fingerprint c) (sym it) ∙ bytes_eq_sound _ _ same)
    | inr other ↦ let (p, q) = find_kid-Among keys kid k (rw other at e) in (there p, q)
  ]

  find_verifying-Among :
      (keys : List Bytes) (hash sig k : Bytes)
      → find_verifying c keys hash sig ≡ some k
      → Among k keys × (c.verify_strict k hash sig ≡ true)
  unfolding find_verifying
  find_verifying-Among [] hash sig k e = cc
  find_verifying-Among (x ∷ keys) hash sig k e = elim (Bool-cases (c.verify_strict x hash sig)) [
    | inl good ↦
        let it : x ≡ k = cc (rw good at e) in
        (here (sym it), ap (λ (t : Bytes). c.verify_strict t hash sig) (sym it) ∙ good)
    | inr bad ↦ let (p, q) = find_verifying-Among keys hash sig k (rw bad at e) in (there p, q)
  ]

  pub signer_of-verified :
      (keys : List Bytes) (hash sig : Bytes) (kid : Option Bytes) (signer : Bytes)
      → signer_of c keys hash sig kid ≡ accepted signer
      → (k : Bytes) × Among k keys
        × (signer ≡ key_fingerprint c k)
        × (c.verify_strict k hash sig ≡ true)
  unfolding signer_of
  signer_of-verified keys hash sig (some kid) signer e = go (find_kid c keys kid) refl e
    where
      go :
          (o : Option Bytes)
          → find_kid c keys kid ≡ o
          → elim o [
            | some k ↦
                if c.verify_strict k hash sig then accepted kid else refused Why.signature_invalid
            | none ↦ refused (Why.unknown_signer kid)
          ]
            ≡ accepted signer
          → (k : Bytes) × Among k keys
            × (signer ≡ key_fingerprint c k)
            × (c.verify_strict k hash sig ≡ true)
      go none p q = cc
      go (some k) p q = elim (Bool-cases (c.verify_strict k hash sig)) [
        | inl good ↦
            let it : kid ≡ signer = cc (rw good at q) in
            let (a, b) = find_kid-Among keys kid k p in (k, a, sym it ∙ sym b, good)
        | inr bad ↦ absurd (cc (rw bad at q))
      ]
  signer_of-verified keys hash sig none signer e = go (find_verifying c keys hash sig) refl e
    where
      go :
          (o : Option Bytes)
          → find_verifying c keys hash sig ≡ o
          → elim o [
            | some k ↦ accepted (key_fingerprint c k)
            | none ↦ refused Why.signature_invalid
          ]
            ≡ accepted signer
          → (k : Bytes) × Among k keys
            × (signer ≡ key_fingerprint c k)
            × (c.verify_strict k hash sig ≡ true)
      go none p q = cc
      go (some k) p q =
          let it : key_fingerprint c k ≡ signer = cc q in
          let (a, b) = find_verifying-Among keys hash sig k p in (k, a, sym it, b)
