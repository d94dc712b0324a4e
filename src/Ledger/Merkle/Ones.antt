-- ===== src/Ledger/Merkle/Ones.antt =====
-- Where the consistency verifier starts: the trailing one bits are shifted out alike in a tree and
-- in the tree around it.
use decern.Base.{
  ℕ, zero, suc, ◌+◌, ◌*◌, ◌/◌, ◌%◌, ◌≤◌, ◌<◌, ◌≡◌, refl, true, false, arith, ◌==◌, Bool-cases, inl,
  inr,
}
use decern.Ledger.Merkle.{shift_ones}
use decern.Ledger.Merkle.Split.{pow2}
use decern.Ledger.Merkle.Climb.{Beside}

pub shift_ones-Beside :
    (fuel more f s e : ℕ)
    → f < s
    → s < pow2 e
    → f < fuel
    → f + pow2 e < more
    → Beside (shift_ones fuel f s) (shift_ones more (f + pow2 e) (s + pow2 e))
unfolding shift_ones
shift_ones-Beside zero more f s e h r q q' = absurd (omega arith)
shift_ones-Beside (suc fuel) zero f s e h r q q' = absurd (omega arith)
shift_ones-Beside (suc fuel) (suc more) f s zero h r q q' = absurd (omega arith)
shift_ones-Beside (suc fuel) (suc more) f s (suc e) h r q q' = elim (Bool-cases (f % 2 == 1)) [
  | inl odd ↦
      let one : f % 2 ≡ 1 = ground arith in
      let odd' : ((f + 2 * pow2 e) % 2 == 1) ≡ true = ground arith in
      let fe : (f + 2 * pow2 e) / 2 ≡ f / 2 + pow2 e = omega arith in
      let se : (s + 2 * pow2 e) / 2 ≡ s / 2 + pow2 e = omega arith in
      rw (odd, odd', fe, se)
        (shift_ones-Beside fuel more (f / 2) (s / 2) e (omega arith) (omega arith) (omega arith)
          (omega arith))
  | inr even ↦
      let even' : ((f + 2 * pow2 e) % 2 == 1) ≡ false = ground arith in
      rw (even, even')
        (record { exponent = suc e; node = refl; last = refl; inside = omega arith; room = r })
]

-- `full` are the indices in a full tree, `whole` those in a tree that has it on the left.
pub record Under (full whole : ℕ × ℕ) : Type 0 where
  pub exponent : ℕ
  pub node : whole.0 ≡ full.0
  pub inside : full.0 ≤ full.1
  pub last : suc full.1 ≡ pow2 exponent
  pub low : pow2 exponent ≤ whole.1
  pub high : whole.1 < 2 * pow2 exponent

pub shift_ones-Under :
    (fuel f s t e : ℕ)
    → f ≤ s
    → suc s ≡ pow2 e
    → pow2 e ≤ t
    → t < 2 * pow2 e
    → Under (shift_ones fuel f s) (shift_ones fuel f t)
unfolding shift_ones
shift_ones-Under zero f s t e h p lo hi = record {
  exponent = e;
  node = refl;
  inside = h;
  last = p;
  low = lo;
  high = hi;
}
shift_ones-Under (suc fuel) f s t e h p lo hi = elim (Bool-cases (f % 2 == 1)) [
  | inl odd ↦
      rw odd (down e (ground arith) h p lo hi (shift_ones-Under fuel (f / 2) (s / 2) (t / 2)))
  | inr even ↦
      rw even (record { exponent = e; node = refl; inside = h; last = p; low = lo; high = hi })
]
  where
    down :
        (k : ℕ)
        → f % 2 ≡ 1
        → f ≤ s
        → suc s ≡ pow2 k
        → pow2 k ≤ t
        → t < 2 * pow2 k
        → ((e' : ℕ)
            → f / 2 ≤ s / 2
            → suc (s / 2) ≡ pow2 e'
            → pow2 e' ≤ t / 2
            → t / 2 < 2 * pow2 e'
            → Under (shift_ones fuel (f / 2) (s / 2)) (shift_ones fuel (f / 2) (t / 2)))
        → Under (shift_ones fuel (f / 2) (s / 2)) (shift_ones fuel (f / 2) (t / 2))
    down zero o a b c d ih = absurd (omega arith)
    down (suc k) o a b c d ih = ih k (omega arith) (omega arith) (omega arith) (omega arith)

-- The first `pow2 e` leaves are one full subtree: the verifier starts at its node.
pub shift_ones-full :
    (fuel f t e : ℕ)
    → e ≤ fuel
    → suc f ≡ pow2 e
    → pow2 e ≤ t
    → t < 2 * pow2 e
    → shift_ones fuel f t ≡ (0, 1)
unfolding shift_ones
shift_ones-full zero f t zero h p lo hi = ground arith
shift_ones-full zero f t (suc e) h p lo hi = absurd (omega arith)
shift_ones-full (suc fuel) f t zero h p lo hi = ground arith
shift_ones-full (suc fuel) f t (suc e) h p lo hi =
    let odd : (f % 2 == 1) ≡ true = ground arith in
    rw odd (
      shift_ones-full fuel (f / 2) (t / 2) e (omega arith) (omega arith) (omega arith)
        (omega arith))
