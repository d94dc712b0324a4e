-- ===== src/Ledger/Merkle/Split.antt =====
-- The split point of `split`, and powers of two.
use decern.Base.{
  ℕ, zero, suc, ◌+◌, ◌-◌, ◌*◌, ◌/◌, ◌≤◌, ◌<◌, ◌≡◌, refl, true, false, arith, ltb, ◌==◌, Bool-cases,
  inl, inr, ap, sym, ◌∙◌, subst, ◌%◌,
}
use native.Mathlib.Decide.{dec_le}
use decern.Ledger.Merkle.{split_loop, split, halve_to_one, is_power_of_two}

abbrev pub pow2 : ℕ → ℕ
pow2 zero = 1
pow2 (suc e) = 2 * pow2 e

pub pow2-pos : (e : ℕ) → 0 < pow2 e
pow2-pos zero = omega arith
pow2-pos (suc e) = omega (arith, pow2-pos e)

-- `k` is a power of two with `k < n ≤ 2k`.
pub record IsSplit (n k : ℕ) : Type 0 where
  pub exponent : ℕ
  pub power : k ≡ pow2 exponent
  pub below : k < n
  pub reaches : n ≤ 2 * k

split_loop-IsSplit :
    (fuel n k e : ℕ) → k ≡ pow2 e → k < n → n ≤ k + fuel → IsSplit n (split_loop fuel n k)
unfolding split_loop
split_loop-IsSplit zero n k e p h f = absurd (omega arith)
split_loop-IsSplit (suc fuel) n k e p h f = elim (Bool-cases (ltb (k * 2) n)) [
  | inl more ↦ rw more (
      split_loop-IsSplit fuel n (k * 2) (suc e) (omega arith) (ground arith)
        (omega (arith, pow2-pos e)))
  | inr done ↦ rw done (record { exponent = e; power = p; below = h; reaches = ground arith })
]

-- For at least two leaves `split` ends with the largest power of two below their number.
pub split-IsSplit : (n : ℕ) → 2 ≤ n → IsSplit n (split n)
unfolding split
split-IsSplit n h = split_loop-IsSplit n n 1 0 refl (omega arith) (omega arith)

pub pow2_mono : (a b : ℕ) → a ≤ b → pow2 a ≤ pow2 b
pow2_mono zero b h = pow2-pos b
pow2_mono (suc a) zero h = absurd (omega arith)
pow2_mono (suc a) (suc b) h = omega (arith, pow2_mono a b)

pow2_cancel : (a b : ℕ) → pow2 a < 2 * pow2 b → a ≤ b
pow2_cancel a b h = elim (dec_le a b) [
  | yes le ↦ le
  | no gt ↦ absurd (omega (arith, pow2_mono (suc b) a))
]

-- A number has one split point.
pub IsSplit-unique : (n j k : ℕ) → IsSplit n j → IsSplit n k → j ≡ k
IsSplit-unique n j k p q =
    let a = p.exponent in
    let b = q.exponent in
    let ab : a ≤ b = pow2_cancel a b (omega (arith, p.power, q.power, p.below, q.reaches)) in
    let ba : b ≤ a = pow2_cancel b a (omega (arith, p.power, q.power, q.below, p.reaches)) in
    p.power ∙ ap pow2 (let e : a ≡ b = omega arith in e) ∙ sym q.power

-- A tree cut past its split point keeps the split point.
pub split-prefix : (n m : ℕ) → 2 ≤ n → split n < m → m ≤ n → split m ≡ split n
split-prefix n m h lo hi =
    let s = split-IsSplit n h in
    let cut : IsSplit m (split n) = record {
      exponent = s.exponent;
      power = s.power;
      below = lo;
      reaches = omega (arith, s.reaches);
    } in
    IsSplit-unique m (split m) (split n) (split-IsSplit m (omega (arith, s.below))) cut

halve_to_one-pow2 : (e fuel : ℕ) → e < fuel → halve_to_one fuel (pow2 e) ≡ true
unfolding halve_to_one
halve_to_one-pow2 e zero h = absurd (omega arith)
halve_to_one-pow2 zero (suc fuel) h = refl
halve_to_one-pow2 (suc e) (suc fuel) h =
    let half : (2 * pow2 e) / 2 ≡ pow2 e = omega arith in
    ground (arith, pow2-pos e, half, halve_to_one-pow2 e fuel)

pub pow2-gt : (e : ℕ) → e < pow2 e
pow2-gt zero = omega arith
pow2-gt (suc e) = omega (arith, pow2-gt e)

pub is_power_of_two-pow2 : (e : ℕ) → is_power_of_two (pow2 e) ≡ true
unfolding is_power_of_two
is_power_of_two-pow2 e = halve_to_one-pow2 e (pow2 e) (pow2-gt e)

halve_to_one-between : (e r fuel : ℕ) → 0 < r → r < pow2 e → halve_to_one fuel (pow2 e + r) ≡ false
unfolding halve_to_one
halve_to_one-between e r zero lo hi = refl
halve_to_one-between zero r (suc fuel) lo hi = absurd (omega arith)
halve_to_one-between (suc e) r (suc fuel) lo hi = elim (Bool-cases ((2 * pow2 e + r) % 2 == 0)) [
  | inl even ↦
      let half : (2 * pow2 e + r) / 2 ≡ pow2 e + r / 2 = omega arith in
      let two : r % 2 ≡ 0 = ground arith in
      ground (
        arith,
        pow2-pos e,
        half,
        two,
        halve_to_one-between e (r / 2) fuel (omega arith) (omega arith),
      )
  | inr odd ↦ ground (arith, pow2-pos e, odd)
]

-- Strictly between two powers of two no number is one.
pub is_power_of_two-between : (e n : ℕ) → pow2 e < n → n < 2 * pow2 e → is_power_of_two n ≡ false
unfolding is_power_of_two
is_power_of_two-between e n lo hi =
    let whole : pow2 e + (n - pow2 e) ≡ n = omega arith in
    subst (λ (t : ℕ). halve_to_one n t ≡ false) whole
      (halve_to_one-between e (n - pow2 e) n (omega arith) (omega arith))
