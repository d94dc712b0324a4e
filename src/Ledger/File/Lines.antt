-- ===== src/Ledger/File/Lines.antt =====
-- The lines of a file that ends with a newline, when one more line is written behind it.
use decern.Base.{
  ℕ, ◌==◌, ◌≡◌, refl, sym, ap, ◌∙◌, subst, inl, inr, true, false, arith, List, [], ◌∷◌, ◌++◌,
  if◌then◌else◌, Bool-cases, append_assoc, append_nil, take-append_self, ltb, length, Option, none,
  some, All, Bytes,
}
use decern.Ledger.Record.{Crates, Result}
use decern.Ledger.Verify.{is_blank}
use decern.Ledger.File.{split_lines, strip_return, decode_lines, prefix_lines, prefix_bytes}
use decern.Ledger.File.Torn.{IsLine, IsTerminated, scan_torn_tail_lem}

pub split_lines-line :
    (l rest : Bytes) → IsLine l → split_lines (l ++ 10 ∷ rest) ≡ l ∷ split_lines rest
unfolding split_lines
split_lines-line [] rest h = refl
split_lines-line (x ∷ l) rest h =
    let ih = split_lines-line l rest h.1 in
    let other : (x == 10) ≡ false = ground (arith, h.0) in rw (ih, other) refl

split_lines-first :
    (b rest : Bytes)
    → (line : Bytes) × (lines : List Bytes) × (split_lines (b ++ 10 ∷ rest) ≡ line ∷ lines)
unfolding split_lines
split_lines-first [] rest = ([], split_lines rest, refl)
split_lines-first (x ∷ b) rest = elim (Bool-cases (x == 10)) [
  | inl newline ↦ ([], split_lines (b ++ 10 ∷ rest), rw newline refl)
  | inr other ↦
      let (line, lines, e) = split_lines-first b rest in (x ∷ line, lines, rw (other, e) refl)
]

split_lines-split :
    (b rest : Bytes) → split_lines (b ++ 10 ∷ rest) ≡ split_lines (b ++ 10 ∷ []) ++ split_lines rest
unfolding split_lines
split_lines-split [] rest = refl
split_lines-split (x ∷ b) rest = elim (Bool-cases (x == 10)) [
  | inl newline ↦ rw (newline, split_lines-split b rest) refl
  | inr other ↦
      let (line, lines, e) = split_lines-first b [] in rw (other, split_lines-split b rest, e) refl
]

-- The line comes last.
pub split_lines-append :
    (done l : Bytes)
    → IsTerminated done
    → IsLine l
    → split_lines (done ++ (l ++ 10 ∷ [])) ≡ split_lines done ++ l ∷ []
split_lines-append done l (inl e) h =
    subst (λ d. split_lines (d ++ (l ++ 10 ∷ [])) ≡ split_lines d ++ l ∷ []) (sym e)
      (unfold split_lines in split_lines-line l [] h)
split_lines-append done l (inr (b, e)) h =
    subst (λ d. split_lines (d ++ (l ++ 10 ∷ [])) ≡ split_lines d ++ l ∷ []) (sym e)
      (ap split_lines (append_assoc b (10 ∷ []) (l ++ 10 ∷ []))
        ∙ split_lines-split b (l ++ 10 ∷ [])
        ∙ ap (λ t. split_lines (b ++ 10 ∷ []) ++ t) (unfold split_lines in split_lines-line l [] h))

pub IsTerminated-append : (done l : Bytes) → IsTerminated (done ++ (l ++ 10 ∷ []))
IsTerminated-append done l = inr (done ++ l, sym (append_assoc done l (10 ∷ [])))

-- No byte of a text that ends with a brace is stripped.
pub strip_return-brace : (b : Bytes) → strip_return (b ++ 125 ∷ []) ≡ b ++ 125 ∷ []
unfolding strip_return
strip_return-brace [] = refl
strip_return-brace (x ∷ []) = refl
strip_return-brace (x ∷ y ∷ b) = ap (λ t. x ∷ t) (strip_return-brace (y ∷ b))

pub is_blank-brace : (b : Bytes) → is_blank (123 ∷ b) ≡ false
unfolding is_blank
is_blank-brace [] = refl
is_blank-brace (x ∷ []) = refl
is_blank-brace (x ∷ y ∷ b) = refl

-- Every line can be read.
abbrev pub IsDecoded : Crates → List Bytes → Type 0
IsDecoded c lines = All (λ l. c.is_utf8 (strip_return l) ≡ true) lines

pub decode_lines-append :
    (c : Crates) (lines more : List Bytes)
    → IsDecoded c lines
    → decode_lines c (lines ++ more) ≡ decode_lines c lines ++ decode_lines c more
unfolding decode_lines
decode_lines-append c [] more h = refl
decode_lines-append c (l ∷ lines) more h = rw (h.0, decode_lines-append c lines more h.1) refl

abbrev read_at : Crates → Bytes → Option ℕ → List (Result Bytes) × Option ℕ
read_at c file torn = (decode_lines c (split_lines (prefix_bytes file torn)), torn)

-- A file that is whole lines and a part of one: the lines, and where the part begins.
pub prefix_lines-append :
    (c : Crates) (done part : Bytes)
    → IsTerminated done
    → IsLine part
    → prefix_lines c (done ++ part) ≡ (
      decode_lines c (split_lines done),
      if ltb 0 (length part) then some (length done) else none,
    )
unfolding prefix_lines
prefix_lines-append c done part t line =
    ap (read_at c (done ++ part)) (scan_torn_tail_lem done part t line) ∙ cut part
  where
    cut :
        (part : Bytes)
        → read_at c (done ++ part) (if ltb 0 (length part) then some (length done) else none) ≡ (
          decode_lines c (split_lines done),
          if ltb 0 (length part) then some (length done) else none,
        )
    cut [] = ap (λ f. read_at c f none) (append_nil done) ∙ refl
    cut (x ∷ part) =
        let held : ltb 0 (length (x ∷ part)) ≡ true = ground arith in
        rw held (
          ap (λ f. (decode_lines c (split_lines f), some (length done)))
            (take-append_self done (x ∷ part)))
