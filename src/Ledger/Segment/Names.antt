-- ===== src/Ledger/Segment/Names.antt =====
-- A segment's file name holds its index, up to the largest of eight digits.
use decern.Base.{
  ℕ, zero, suc, ◌+◌, ◌-◌, ◌*◌, ◌/◌, ◌%◌, ◌≤◌, ◌<◌, ltb, leb, ◌≡◌, refl, sym, ap, ◌∙◌, subst, true,
  false, if◌then◌else◌, ◌==◌, Bool-cases, inl, inr, arith, some, [], ◌∷◌, ◌++◌, length,
  length-append, drop, take, drop-append_ge, take-append_self, Bytes, bytes_eq, bytes_eq_refl,
}
use decern.Ledger.Record.{ok, err, ◌>>=◌, ok_or}
use decern.Ledger.Segment.{
  decimal_length, low_digits, max_of, suffix, strip_suffix, segment_filename, all_digits,
  parse_digits, index_of_digits, validate_segment_filename, bad_shape,
}

length-low_digits : (k n : ℕ) → length (low_digits k n) ≡ k
unfolding low_digits
length-low_digits zero n = refl
length-low_digits (suc k) n = omega (
  arith,
  length-append (low_digits k (n / 10)) ((48 + n % 10) ∷ []),
  length-low_digits k (n / 10),
)

all_digits-append :
    (xs : Bytes) (d : ℕ) → d < 10 → all_digits xs ≡ true → all_digits (xs ++ (48 + d) ∷ []) ≡ true
unfolding all_digits
all_digits-append [] d h a =
    let lo : leb 48 (48 + d) ≡ true = ground arith in
    let hi : leb (48 + d) 57 ≡ true = ground (arith, h) in rw (lo, hi) refl
all_digits-append (x ∷ xs) d h a = ground (arith, all_digits-append xs d h)

all_digits-low_digits : (k n : ℕ) → all_digits (low_digits k n) ≡ true
unfolding low_digits all_digits
all_digits-low_digits zero n = refl
all_digits-low_digits (suc k) n =
    all_digits-append (low_digits k (n / 10)) (n % 10) (omega arith)
      (all_digits-low_digits k (n / 10))

parse_digits-append :
    (acc : ℕ) (xs : Bytes) (d : ℕ)
    → parse_digits acc (xs ++ (48 + d) ∷ []) ≡ parse_digits acc xs * 10 + d
unfolding parse_digits
parse_digits-append acc [] d = omega arith
parse_digits-append acc (x ∷ xs) d = parse_digits-append (acc * 10 + (x - 48)) xs d

abbrev pow_ten : ℕ → ℕ
pow_ten zero = 1
pow_ten (suc k) = 10 * pow_ten k

pow_ten-positive : (k : ℕ) → 1 ≤ pow_ten k
pow_ten-positive zero = omega arith
pow_ten-positive (suc k) = omega (arith, pow_ten-positive k)

parse_digits-low_digits : (k n : ℕ) → n < pow_ten k → parse_digits 0 (low_digits k n) ≡ n
unfolding low_digits parse_digits
parse_digits-low_digits zero n h = omega (arith, h)
parse_digits-low_digits (suc k) n h =
    let ih = parse_digits-low_digits k (n / 10) (omega (arith, h)) in
    parse_digits-append 0 (low_digits k (n / 10)) (n % 10) ∙ omega (arith, ih)

decimal_length-le : (k fuel n : ℕ) → n < pow_ten (suc k) → decimal_length fuel n ≤ suc k
unfolding decimal_length
decimal_length-le k zero n h = omega arith
decimal_length-le zero (suc fuel) n h =
    let small : ltb n 10 ≡ true = ground (arith, h) in rw (decimal_length, small) (omega arith)
decimal_length-le (suc k) (suc fuel) n h = elim (Bool-cases (ltb n 10)) [
  | inl small ↦ rw (decimal_length, small) (omega arith)
  | inr large ↦
      let ih = decimal_length-le k fuel (n / 10) (omega (arith, h)) in
      rw (decimal_length, large) (omega (arith, ih))
]

strip_suffix-append : (digits : Bytes) → strip_suffix (digits ++ suffix) ≡ some digits
strip_suffix-append digits =
    let size : length digits ≡ length (digits ++ suffix) - 6 =
      omega (arith, length-append digits suffix) in
    let tail : suffix ≡ drop (length (digits ++ suffix) - 6) (digits ++ suffix) = sym (
      drop-append_ge (length (digits ++ suffix) - 6) digits suffix (omega (arith, size))
      ∙ ap (λ k. drop k suffix)
          (let z : length (digits ++ suffix) - 6 - length digits ≡ 0 = omega (arith, size) in z)) in
    let front : take (length (digits ++ suffix) - 6) (digits ++ suffix) ≡ digits =
      ap (λ k. take k (digits ++ suffix)) (sym size) ∙ take-append_self digits suffix in
    let found : bytes_eq (drop (length (digits ++ suffix) - 6) (digits ++ suffix)) suffix ≡ true =
      ap (λ t. bytes_eq t suffix) (sym tail) ∙ bytes_eq_refl suffix in
    rw (strip_suffix, found) (ap some front)

index_of_digits-eight :
    (digits : Bytes)
    → length digits ≡ 8
    → all_digits digits ≡ true
    → index_of_digits digits ≡ ok (parse_digits 0 digits)
unfolding index_of_digits
index_of_digits-eight digits size all = rw (index_of_digits, size, all) refl

-- Eight digits are read back from the name of a segment whose index has at most eight.
pub validate_segment_filename-segment_filename :
    (index : ℕ) → index ≤ 99999999 → validate_segment_filename (segment_filename index) ≡ ok index
unfolding segment_filename validate_segment_filename
validate_segment_filename-segment_filename index h =
    let short : decimal_length index index ≤ 8 =
      decimal_length-le 7 index index (omega (arith, h)) in
    let eight : max_of 8 (decimal_length index index) ≡ 8 = ground (arith, short) in
    let digits = low_digits 8 index in
    let name : digits ++ suffix ≡ segment_filename index =
      ap (λ k. low_digits k index ++ suffix) (sym eight) in
    subst (λ f. validate_segment_filename f ≡ ok index) name
      (ap (λ o. ok_or o bad_shape >>= index_of_digits) (strip_suffix-append digits)
        ∙ index_of_digits-eight digits (length-low_digits 8 index) (all_digits-low_digits 8 index)
        ∙ ap ok (parse_digits-low_digits 8 index (omega (arith, h))))

decimal_length-ge : (k fuel n : ℕ) → k ≤ fuel → pow_ten k ≤ n → suc k ≤ decimal_length fuel n
unfolding decimal_length
decimal_length-ge zero zero n f h = omega arith
decimal_length-ge zero (suc fuel) n f h = ground arith
decimal_length-ge (suc k) zero n f h = omega (arith, f)
decimal_length-ge (suc k) (suc fuel) n f h =
    let positive = pow_ten-positive k in
    let large : ltb n 10 ≡ false = ground (arith, h, positive) in
    let ih = decimal_length-ge k fuel (n / 10) (omega (arith, f)) (omega (arith, h)) in
    rw (decimal_length, large) (omega (arith, ih))

index_of_digits-long : (digits : Bytes) → 8 < length digits → index_of_digits digits ≡ err bad_shape
unfolding index_of_digits
index_of_digits-long digits long =
    let size : (length digits == 8) ≡ false = ground (arith, long) in
    rw (index_of_digits, size) refl

validate_segment_filename-long :
    (index : ℕ)
    → 99999999 < index
    → validate_segment_filename (segment_filename index) ≡ err bad_shape
unfolding segment_filename validate_segment_filename
validate_segment_filename-long index h =
    let long : 9 ≤ decimal_length index index =
      decimal_length-ge 8 index index (omega (arith, h)) (omega (arith, h)) in
    let width = max_of 8 (decimal_length index index) in
    let wide : 9 ≤ width = ground (arith, long) in
    let digits = low_digits width index in
    ap (λ o. ok_or o bad_shape >>= index_of_digits) (strip_suffix-append digits)
    ∙ index_of_digits-long digits (omega (arith, wide, length-low_digits width index))

-- The name given to a segment is accepted if its index is at most 99,999,999, and then gives the index back; the name of a larger
-- index is refused.
pub validate_segment_filename-bound :
    (index : ℕ)
    → validate_segment_filename (segment_filename index)
      ≡ (if leb index 99999999 then ok index else err bad_shape)
validate_segment_filename-bound index = elim (Bool-cases (leb index 99999999)) [
  | inl small ↦ rw small (validate_segment_filename-segment_filename index (ground (arith, small)))
  | inr large ↦ rw large (validate_segment_filename-long index (ground (arith, large)))
]
