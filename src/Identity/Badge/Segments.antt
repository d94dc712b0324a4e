-- ===== src/Identity/Badge/Segments.antt =====
-- Three base64 texts joined by dots are taken apart again.
use decern.Base.{
  ℕ, ◌≤◌, ◌==◌, ◌≡◌, ◌≢◌, refl, ap, ◌∙◌, false, arith, List, [], ◌∷◌, ◌++◌, All, All-append,
  append_assoc, Bytes,
}
use decern.Ledger.Verify.{is_space, is_space_two, is_space_three, is_blank}
use decern.Identity.Errors.{ok}
use decern.Identity.Badge.{trim_start, trim_end, split_dots, segments_of}

-- The bytes of a token: those of the base64 alphabet for URLs and the dot.
abbrev pub IsTokenByte : ℕ → Type 0
IsTokenByte b = (45 ≤ b) × (b ≤ 122)

-- A base64 text has no dot.
abbrev pub IsSegment : Bytes → Type 0
IsSegment b = All (λ x. IsTokenByte x × (x ≢ 46)) b

abbrev IsToken : Bytes → Type 0
IsToken b = All IsTokenByte b

no_space : (a : ℕ) → IsTokenByte a → is_space a ≡ false
unfolding is_space
no_space a h = ground (arith, h.0, h.1)

no_space_two : (a b : ℕ) → IsTokenByte a → is_space_two a b ≡ false
unfolding is_space_two
no_space_two a b h = let e : (a == 0xc2) ≡ false = ground (arith, h.0, h.1) in rw e refl

no_space_three : (a b c : ℕ) → IsTokenByte a → is_space_three a b c ≡ false
unfolding is_space_three
no_space_three a b c h =
    let e1 : (a == 0xe1) ≡ false = ground (arith, h.0, h.1) in
    let e2 : (a == 0xe2) ≡ false = ground (arith, h.0, h.1) in
    let e3 : (a == 0xe3) ≡ false = ground (arith, h.0, h.1) in rw (e1, e2, e3) refl

is_blank-token : (a : ℕ) (rest : Bytes) → IsTokenByte a → is_blank (a ∷ rest) ≡ false
unfolding is_blank
is_blank-token a [] h = no_space a h
is_blank-token a (b ∷ []) h = rw (no_space a h, no_space_two a b h) refl
is_blank-token a (b ∷ c ∷ rest) h =
    rw (no_space a h, no_space_two a b h, no_space_three a b c h) refl

trim_end-token : (b : Bytes) → IsToken b → trim_end b ≡ b
unfolding trim_end
trim_end-token [] h = refl
trim_end-token (x ∷ b) h = rw (is_blank-token x b h.0) (ap (λ t. x ∷ t) (trim_end-token b h.1))

trim_start-token : (b : Bytes) → IsToken b → trim_start b ≡ b
unfolding trim_start
trim_start-token [] h = refl
trim_start-token (a ∷ []) h = rw (no_space a h.0) refl
trim_start-token (a ∷ b ∷ []) h = rw (no_space a h.0, no_space_two a b h.0) refl
trim_start-token (a ∷ b ∷ c ∷ rest) h =
    rw (no_space a h.0, no_space_two a b h.0, no_space_three a b c h.0) refl

split_dots-none : (s : Bytes) → IsSegment s → split_dots s ≡ (s, [])
unfolding split_dots
split_dots-none [] h = refl
split_dots-none (x ∷ s) h =
    let other : (x == 46) ≡ false = ground (arith, h.0.1) in rw (split_dots-none s h.1, other) refl

split_dots-dot :
    (s rest : Bytes)
    → IsSegment s
    → split_dots (s ++ 46 ∷ rest) ≡ (s, (split_dots rest).0 ∷ (split_dots rest).1)
unfolding split_dots
split_dots-dot [] rest h = refl
split_dots-dot (x ∷ s) rest h =
    let other : (x == 46) ≡ false = ground (arith, h.0.1) in
    rw (split_dots-dot s rest h.1, other) refl

IsSegment-IsToken : (s : Bytes) → IsSegment s → IsToken s
IsSegment-IsToken [] h = tt
IsSegment-IsToken (x ∷ s) h = (h.0.0, IsSegment-IsToken s h.1)

pub segments_of-join :
    (h p s : Bytes)
    → IsSegment h
    → IsSegment p
    → IsSegment s
    → segments_of ((h ++ 46 ∷ p) ++ 46 ∷ s) ≡ ok (h, p, s)
unfolding segments_of
segments_of-join h p s a b c =
    let dot : IsTokenByte 46 = (omega arith, omega arith) in
    let token : IsToken ((h ++ 46 ∷ p) ++ 46 ∷ s) =
      All-append IsTokenByte (h ++ 46 ∷ p) (46 ∷ s)
        (All-append IsTokenByte h (46 ∷ p) (IsSegment-IsToken h a) (dot, IsSegment-IsToken p b))
        (dot, IsSegment-IsToken s c) in
    let whole : split_dots ((h ++ 46 ∷ p) ++ 46 ∷ s) ≡ (h, p ∷ s ∷ []) =
      ap split_dots (append_assoc h (46 ∷ p) (46 ∷ s))
      ∙ split_dots-dot h (p ++ 46 ∷ s) a
      ∙ ap (λ (x : Bytes × List Bytes). (h, x.0 ∷ x.1))
          (split_dots-dot p s b
            ∙ ap (λ (x : Bytes × List Bytes). (p, x.0 ∷ x.1)) (split_dots-none s c)) in
    rw (segments_of, trim_start-token _ token, trim_end-token _ token, whole) refl
