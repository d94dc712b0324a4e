-- ===== src/Ledger/Merkle/Climb.antt =====
-- How the indices move up the tree: the same steps in a tree and in one with a full subtree of
-- `pow2 e` leaves to the left of it.
use decern.Base.{
  ℕ, zero, suc, ◌+◌, ◌*◌, ◌/◌, ◌%◌, ◌≤◌, ◌<◌, ◌≡◌, ◌≢◌, refl, true, false, arith, ◌==◌, Bool-cases,
  inl, inr,
}
use decern.Ledger.Merkle.{shift_zeros, climb_right, is_right}
use decern.Ledger.Merkle.Split.{pow2, pow2-pos}

-- The indices `f`, `s` of the small tree, and the exponent left of the full one beside it.
pub record Beside (small large : ℕ × ℕ) : Type 0 where
  pub exponent : ℕ
  pub node : large.0 ≡ small.0 + pow2 exponent
  pub last : large.1 ≡ small.1 + pow2 exponent
  pub inside : small.0 ≤ small.1
  pub room : small.1 < pow2 exponent

shift_zeros-Beside :
    (fuel more f s e : ℕ)
    → 0 < f
    → f ≤ s
    → s < pow2 e
    → f < fuel
    → f + pow2 e < more
    → Beside (shift_zeros fuel f s) (shift_zeros more (f + pow2 e) (s + pow2 e))
      × ((shift_zeros fuel f s).0 % 2 ≡ 1)
unfolding shift_zeros
shift_zeros-Beside zero more f s e p h r q q' = absurd (omega arith)
shift_zeros-Beside (suc fuel) zero f s e p h r q q' = absurd (omega arith)
shift_zeros-Beside (suc fuel) (suc more) f s zero p h r q q' = absurd (omega arith)
shift_zeros-Beside (suc fuel) (suc more) f s (suc e) p h r q q' = elim (Bool-cases (f % 2 == 0)) [
  | inl even ↦
      let even' : ((f + 2 * pow2 e) % 2 == 0) ≡ true = ground arith in
      let some : (f == 0) ≡ false = ground arith in
      let some' : (f + 2 * pow2 e == 0) ≡ false = ground arith in
      let fe : (f + 2 * pow2 e) / 2 ≡ f / 2 + pow2 e = omega arith in
      let se : (s + 2 * pow2 e) / 2 ≡ s / 2 + pow2 e = omega arith in
      let even'' : f % 2 ≡ 0 = ground arith in
      rw (even, even', some, some', fe, se)
        (shift_zeros-Beside fuel more (f / 2) (s / 2) e (omega arith) (omega arith) (omega arith)
          (omega arith) (omega arith))
  | inr odd ↦
      let odd' : ((f + 2 * pow2 e) % 2 == 0) ≡ false = ground arith in
      rw (odd, odd')
        (record { exponent = suc e; node = refl; last = refl; inside = h; room = r }, ground arith)
]

-- After a right child the small tree and the large one are again side by side.
pub climb_right-Beside :
    (f s e : ℕ)
    → f ≤ s
    → s < pow2 e
    → s ≢ 0
    → is_right f s ≡ true
    → Beside (climb_right f s) (climb_right (f + pow2 e) (s + pow2 e))
unfolding climb_right
climb_right-Beside f s zero h r n right = absurd (omega arith)
climb_right-Beside f s (suc e) h r n right = elim (Bool-cases (f % 2 == 0)) [
  | inl even ↦
      let even' : ((f + 2 * pow2 e) % 2 == 0) ≡ true = ground arith in
      let only : f ≡ s = ground arith in
      let (b, odd) =
        shift_zeros-Beside (suc f) (suc (f + 2 * pow2 e)) f s (suc e) (omega arith) h r
          (omega arith) (omega arith) in
      rw (even, even') (halve _ _ b odd)
  | inr odd ↦
      let odd' : ((f + 2 * pow2 e) % 2 == 0) ≡ false = ground arith in
      rw (odd, odd')
        (record {
          exponent = e;
          node = omega arith;
          last = omega arith;
          inside = omega arith;
          room = omega arith;
        })
]
  where
    halve : (a b : ℕ × ℕ) → Beside a b → a.0 % 2 ≡ 1 → Beside (a.0 / 2, a.1 / 2) (b.0 / 2, b.1 / 2)
    halve a b x odd = go x.exponent x.node x.last x.inside x.room
      where
        go :
            (k : ℕ)
            → b.0 ≡ a.0 + pow2 k
            → b.1 ≡ a.1 + pow2 k
            → a.0 ≤ a.1
            → a.1 < pow2 k
            → Beside (a.0 / 2, a.1 / 2) (b.0 / 2, b.1 / 2)
        go zero p q i t = absurd (omega arith)
        go (suc k) p q i t = record {
          exponent = k;
          node = omega arith;
          last = omega arith;
          inside = omega arith;
          room = omega arith;
        }

-- At the root of the full subtree's sibling the climb reaches the root of the whole.
shift_zeros-pow2 : (fuel k : ℕ) → pow2 k < fuel → shift_zeros fuel (pow2 k) (pow2 k) ≡ (1, 1)
unfolding shift_zeros
shift_zeros-pow2 zero k h = absurd (omega arith)
shift_zeros-pow2 (suc fuel) zero h = refl
shift_zeros-pow2 (suc fuel) (suc k) h =
    let even : ((2 * pow2 k) % 2 == 0) ≡ true = ground arith in
    let some : (2 * pow2 k == 0) ≡ false = ground (arith, pow2-pos k) in
    let half : (2 * pow2 k) / 2 ≡ pow2 k = omega arith in
    rw (even, some, half) (shift_zeros-pow2 fuel k (omega (arith, pow2-pos k)))

pub climb_right-pow2 : (k : ℕ) → climb_right (pow2 k) (pow2 k) ≡ (0, 0)
unfolding climb_right
climb_right-pow2 zero = refl
climb_right-pow2 (suc k) =
    let even : ((2 * pow2 k) % 2 == 0) ≡ true = ground arith in
    rw (even, shift_zeros-pow2 (suc (2 * pow2 k)) (suc k) (omega arith))

pub climb_right-odd : (f s : ℕ) → (f % 2 == 1) ≡ true → climb_right f s ≡ (f / 2, s / 2)
unfolding climb_right
climb_right-odd f s odd = let no_loop : (f % 2 == 0) ≡ false = ground arith in rw no_loop

pub is_right-lift :
    (f s e : ℕ) → s < pow2 e → s ≢ 0 → is_right (f + pow2 e) (s + pow2 e) ≡ is_right f s
is_right-lift f s zero r n = absurd (omega arith)
is_right-lift f s (suc e) r n =
    let parity : (f + 2 * pow2 e) % 2 ≡ f % 2 = omega arith in ground (arith, parity)

pub halve-Beside :
    (f s e : ℕ)
    → f ≤ s
    → s < pow2 e
    → s ≢ 0
    → Beside (f / 2, s / 2) ((f + pow2 e) / 2, (s + pow2 e) / 2)
halve-Beside f s zero h r n = absurd (omega arith)
halve-Beside f s (suc e) h r n = record {
  exponent = e;
  node = omega arith;
  last = omega arith;
  inside = omega arith;
  room = omega arith;
}
