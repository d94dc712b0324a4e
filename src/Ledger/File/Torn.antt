-- ===== src/Ledger/File/Torn.antt =====
-- The scan for a torn tail against what it looks for: the part of the file behind its last newline.
use decern.Base.{
  ℕ, zero, suc, ◌+◌, ◌-◌, ◌<◌, ◌≤◌, min, ◌==◌, ◌≡◌, ◌≢◌, refl, sym, ap, ◌∙◌, subst, ◌⊎◌, inl, inr,
  true, false, arith, Option, none, some, List, [], ◌∷◌, ◌++◌, if◌then◌else◌, length, length-append,
  length-drop, drop-append_le, drop-append_ge, take-append_ge, append_assoc, append_nil, All-take,
  All-drop, ltb, get_elem?, take, drop, All, Bytes,
}
use native.Mathlib.Decide.{dec_le}
use decern.Ledger.File.{last_newline, scan_back, scan_torn_tail, chunk}

-- No byte is a newline.
abbrev pub IsLine : Bytes → Type 0
IsLine b = All (λ x. x ≢ 10) b

-- Empty, or ended by a newline.
abbrev pub IsTerminated : Bytes → Type 0
IsTerminated file = (file ≡ []) ⊎ ((b : Bytes) × (file ≡ b ++ 10 ∷ []))

last_newline-none : (b : Bytes) → IsLine b → last_newline b ≡ none
unfolding last_newline
last_newline-none [] h = refl
last_newline-none (x ∷ b) h =
    let ih = last_newline-none b h.1 in
    let other : (x == 10) ≡ false = ground (arith, h.0) in rw (ih, other) refl

last_newline-last : (b l : Bytes) → IsLine l → last_newline (b ++ 10 ∷ l) ≡ some (length b)
unfolding last_newline
last_newline-last [] l h = rw (last_newline-none l h) refl
last_newline-last (x ∷ b) l h = rw (last_newline-last b l h) refl

-- The chunk that holds the last newline, and one behind it.
slice-last :
    (b l : Bytes) (start k : ℕ)
    → start ≤ length b
    → length b + 1 ≤ start + k
    → IsLine l
    → last_newline (take k (drop start (b ++ 10 ∷ l))) ≡ some (length b - start)
slice-last b l start k h w line =
    let size = length-drop start b in
    let cut : take k (drop start (b ++ 10 ∷ l))
        ≡ drop start b ++ take (k - length (drop start b)) (10 ∷ l) =
      ap (take k) (drop-append_le start b (10 ∷ l) h)
      ∙ take-append_ge k (drop start b) (10 ∷ l) (omega (arith, size)) in
    let room : k - length (drop start b) ≡ suc (k - length (drop start b) - 1) =
      omega (arith, size) in
    ap last_newline (cut ∙ ap (λ n. drop start b ++ take n (10 ∷ l)) room)
    ∙ last_newline-last (drop start b) (take (k - length (drop start b) - 1) l)
        (All-take (λ x. x ≢ 10) (k - length (drop start b) - 1) l line)
    ∙ ap some size

slice-none :
    (done part : Bytes) (start k : ℕ)
    → length done ≤ start
    → IsLine part
    → last_newline (take k (drop start (done ++ part))) ≡ none
slice-none done part start k h line =
    ap (λ t. last_newline (take k t)) (drop-append_ge start done part h)
    ∙ last_newline-none (take k (drop (start - length done) part)) (
        All-take (λ x. x ≢ 10) k (drop (start - length done) part)
          (All-drop (λ x. x ≢ 10) (start - length done) part line))

scan_back-length :
    (fuel size : ℕ) (done part : Bytes) (pos : ℕ)
    → IsTerminated done
    → IsLine part
    → 0 < size
    → pos ≤ fuel
    → length done ≤ pos
    → scan_back fuel size (done ++ part) pos ≡ length done
unfolding scan_back
scan_back-length zero size done part pos t line s f le = omega arith
scan_back-length (suc fuel) size done part zero t line s f le = omega arith
scan_back-length (suc fuel) size done part (suc p) t line s f le =
    let start = suc p - min size (suc p) in
    elim (dec_le (length done) start) [
      | yes behind ↦
          next_chunk (slice-none done part start (min size (suc p)) behind line)
          ∙ scan_back-length fuel size done part start t line s (omega arith) behind
      | no inside ↦ elim t [
        | inl e ↦ absurd (omega (arith, ap length e))
        | inr (b, e) ↦
            let size_b : length done ≡ length b + 1 = ap length e ∙ length-append b (10 ∷ []) in
            let whole : b ++ 10 ∷ part ≡ done ++ part =
              sym (append_assoc b (10 ∷ []) part) ∙ ap (λ d. d ++ part) (sym e) in
            let found : last_newline (take (min size (suc p)) (drop start (done ++ part)))
                ≡ some (length b - start) =
              subst
                (λ d.
                  last_newline (take (min size (suc p)) (drop start d)) ≡ some (length b - start))
                whole
                (slice-last b part start (min size (suc p)) (omega (arith, inside)) (omega arith)
                  line) in
            next_chunk found ∙ omega (arith, inside)
      ]
    ]
  where
    next_chunk :
        {o : Option ℕ}
        → last_newline (take (min size (suc p)) (drop (suc p - min size (suc p)) (done ++ part)))
          ≡ o
        → scan_back (suc fuel) size (done ++ part) (suc p) ≡ elim o as (λ _. ℕ) [
          | some idx ↦ (suc p - min size (suc p)) + idx + 1
          | none ↦ scan_back fuel size (done ++ part) (suc p - min size (suc p))
        ]
    next_chunk e =
        ap
          (λ (o : Option ℕ). elim o as (λ _. ℕ) [
            | some idx ↦ (suc p - min size (suc p)) + idx + 1
            | none ↦ scan_back fuel size (done ++ part) (suc p - min size (suc p))
          ])
          e

pub get_elem?-append {ℓ} :
    {A : Type ℓ} (xs ys : List A) (i : ℕ) → get_elem? (xs ++ ys) (length xs + i) ≡ get_elem? ys i
get_elem?-append [] ys i = ap (get_elem? ys) (omega arith)
get_elem?-append (x ∷ xs) ys i =
    ap (get_elem? (x ∷ (xs ++ ys)))
      (let e : suc (length xs) + i ≡ suc (length xs + i) = omega arith in e)
    ∙ get_elem?-append xs ys i

last_byte :
    (x : ℕ) (part : Bytes)
    → IsLine (x ∷ part)
    → (last : ℕ) × (get_elem? (x ∷ part) (length part) ≡ some last) × ((last == 10) ≡ false)
last_byte x [] h = (x, refl, ground (arith, h.0))
last_byte x (y ∷ part) h = last_byte y part h.1

-- The scan of a file whose bytes behind the last newline are `part` cuts it there, and leaves a file alone that
-- has no such bytes.
pub scan_torn_tail_lem :
    (done part : Bytes)
    → IsTerminated done
    → IsLine part
    → scan_torn_tail (done ++ part) ≡ (if ltb 0 (length part) then some (length done) else none)
unfolding scan_torn_tail
scan_torn_tail_lem done (x ∷ part) t line =
    let (last, at, other) = last_byte x part line in
    let index : length done + length part ≡ length (done ++ x ∷ part) - 1 =
      omega (arith, length-append done (x ∷ part)) in
    let found : get_elem? (done ++ x ∷ part) (length (done ++ x ∷ part) - 1) ≡ some last =
      ap (get_elem? (done ++ x ∷ part)) (sym index)
      ∙ get_elem?-append done (x ∷ part) (length part)
      ∙ at in
    let held : ltb 0 (length (x ∷ part)) ≡ true = ground arith in
    rw (scan_torn_tail, found, other, held)
      (ap some (
        scan_back-length (length (done ++ x ∷ part)) chunk done (x ∷ part)
          (length (done ++ x ∷ part)) t line (omega arith) (omega arith)
          (omega (arith, length-append done (x ∷ part)))))
scan_torn_tail_lem done [] (inl e) line = subst (λ d. scan_torn_tail (d ++ []) ≡ none) (sym e) refl
scan_torn_tail_lem done [] (inr (b, e)) line =
    subst (λ d. scan_torn_tail (d ++ []) ≡ none) (sym e) (terminated b)
  where
    terminated : (b : Bytes) → scan_torn_tail ((b ++ 10 ∷ []) ++ []) ≡ none
    terminated b =
        let whole : b ++ 10 ∷ [] ≡ (b ++ 10 ∷ []) ++ [] = sym (append_nil (b ++ 10 ∷ [])) in
        let index : length b + 0 ≡ length (b ++ 10 ∷ []) - 1 =
          omega (arith, length-append b (10 ∷ [])) in
        let found : get_elem? (b ++ 10 ∷ []) (length (b ++ 10 ∷ []) - 1) ≡ some 10 =
          ap (get_elem? (b ++ 10 ∷ [])) (sym index) ∙ get_elem?-append b (10 ∷ []) 0 in
        subst (λ f. scan_torn_tail f ≡ none) whole (rw (found, scan_torn_tail) refl)
