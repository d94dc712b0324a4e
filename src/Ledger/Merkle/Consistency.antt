-- ===== src/Ledger/Merkle/Consistency.antt =====
-- A consistency proof that the generator makes is accepted by the verifier.
use native.Mathlib.Decide.{dec_lt}
use decern.Base.{
  ℕ, zero, suc, ◌+◌, ◌-◌, ◌≤◌, ◌<◌, ◌≡◌, refl, ◌∙◌, ap, Bool, true, false, arith, ltb, leb, ◌==◌,
  Bool-cases, inl, inr, ◌⊎◌, some, List, [], ◌∷◌, ◌++◌, Bytes, length, take, drop, length-take,
  length-drop, take-take, drop-take, take-of_length_le, bytes_eq_refl, if◌then◌else◌,
}
use decern.Ledger.Merkle.{
  split, hash_children, tree_hash, subproof_loop, shift_ones, check_work, work_path,
  is_power_of_two, consistency_proof, consistency_loop, verify_consistency, is_nil,
}
use decern.Ledger.Merkle.Split.{
  pow2, pow2-pos, pow2-gt, IsSplit, split-IsSplit, split-prefix, is_power_of_two-pow2,
  is_power_of_two-between,
}
use decern.Ledger.Merkle.Tree.{tree_hash-node}
use decern.Ledger.Merkle.Walk.{walk, loop-append, lift_left, lift_right, finish_left, finish_right}
use decern.Ledger.Merkle.Ones.{shift_ones-Beside, shift_ones-Under, shift_ones-full}

module _ (sha256 : Bytes → Bytes) where
  -- From the hash in front, the rest of the working path leads to both roots.
  record Rebuilds (d : List Bytes) (m : ℕ) (work : List Bytes) : Type 0 where
    start : Bytes
    rest : List Bytes
    shape : work ≡ start ∷ rest
    run :
        consistency_loop sha256
          (walk
            (shift_ones m (m - 1) (length d - 1)).0
            (shift_ones m (m - 1) (length d - 1)).1
            start
            start)
          rest
        ≡ some (walk 0 0 (tree_hash sha256 (take m d)) (tree_hash sha256 d))

  module _ (d : List Bytes) (m : ℕ) (h : 2 ≤ length d) where
    abbrev cut : ℕ
    cut = split (length d)

    bounds : IsSplit (length d) cut
    bounds = split-IsSplit (length d) h

    left_part : length (take cut d) ≡ cut
    left_part = let lt = bounds.below in omega (arith, length-take cut d)

    right_part : length (drop cut d) ≡ length d - cut
    right_part = length-drop cut d

    -- The earlier tree is the left part itself.
    Rebuilds-at :
        m ≡ cut → Rebuilds d m (tree_hash sha256 (take cut d) ∷ tree_hash sha256 (drop cut d) ∷ [])
    Rebuilds-at e =
        let power = bounds.power in
        let low = bounds.below in
        let high = bounds.reaches in
        let start =
          shift_ones-full m (m - 1) (length d - 1) bounds.exponent
            (omega (arith, pow2-gt bounds.exponent)) (omega (arith, pow2-pos bounds.exponent))
            (omega arith) (omega arith) in
        record {
          start = tree_hash sha256 (take cut d);
          rest = tree_hash sha256 (drop cut d) ∷ [];
          shape = refl;
          run = rw start (finish_left sha256 _ _ _ ∙ rw (e, tree_hash-node sha256 d h));
        }

    Rebuilds-left :
        (work : List Bytes)
        → 0 < m
        → m < cut
        → Rebuilds (take cut d) m work
        → Rebuilds d m (work ++ tree_hash sha256 (drop cut d) ∷ [])
    Rebuilds-left work pos lt r =
        let power = bounds.power in
        let low = bounds.below in
        let high = bounds.reaches in
        let run' = rw left_part at r.run in
        let u =
          shift_ones-Under m (m - 1) (cut - 1) (length d - 1) bounds.exponent (omega arith)
            (omega arith) (omega arith) (omega arith) in
        let lifted =
          lift_left sha256 r.rest u.exponent _ _ _ r.start r.start _ u.inside u.last u.low u.high
            run' refl in
        let root = tree_hash-node sha256 d h in
        record {
          start = r.start;
          rest = r.rest ++ tree_hash sha256 (drop cut d) ∷ [];
          shape = ap (λ (w : List Bytes). w ++ tree_hash sha256 (drop cut d) ∷ []) r.shape;
          run = rw u.node (
              loop-append sha256 _ r.rest _ _ lifted
              ∙ finish_left sha256 _ _ _
              ∙ rw (root, take-take m cut d (omega arith)));
        }

    -- The tree of the first `m` leaves has the same left part.
    earlier_root :
        cut < m
        → m < length d
        → tree_hash sha256 (take m d)
          ≡ hash_children sha256
              (tree_hash sha256 (take cut d))
              (tree_hash sha256 (take (m - cut) (drop cut d)))
    earlier_root gt lt =
        let low = bounds.below in
        let size : length (take m d) ≡ m = omega (arith, length-take m d) in
        let s = bounds.power in
        let pos = pow2-pos bounds.exponent in
        let same : split (length (take m d)) ≡ cut =
          ap split size ∙ split-prefix (length d) m h gt (omega arith) in
        tree_hash-node sha256 (take m d) (omega arith)
        ∙ rw (same, take-take cut m d (omega arith), drop-take cut m (m - cut) d (omega arith))

    Rebuilds-right :
        (work : List Bytes)
        → cut < m
        → m < length d
        → Rebuilds (drop cut d) (m - cut) work
        → Rebuilds d m (work ++ tree_hash sha256 (take cut d) ∷ [])
    Rebuilds-right work gt lt r =
        let power = bounds.power in
        let low = bounds.below in
        let high = bounds.reaches in
        let run' = rw right_part at r.run in
        let j = m - cut in
        let s = length d - cut - 1 in
        let b =
          shift_ones-Beside j m (j - 1) s bounds.exponent (omega arith) (omega arith) (omega arith)
            (omega arith) in
        let (k, lifted) =
          lift_right sha256 r.rest b.exponent _ _ r.start r.start _ b.inside b.room run' refl in
        let node : j - 1 + pow2 bounds.exponent ≡ m - 1 = omega arith in
        let last : s + pow2 bounds.exponent ≡ length d - 1 = omega arith in
        let root = tree_hash-node sha256 d h in
        record {
          start = r.start;
          rest = r.rest ++ tree_hash sha256 (take cut d) ∷ [];
          shape = ap (λ (w : List Bytes). w ++ tree_hash sha256 (take cut d) ∷ []) r.shape;
          run =
              rw (← node, ← last, b.node, b.last)
                (loop-append sha256 _ r.rest _ _ lifted
                  ∙ finish_right sha256 k _ _ _
                  ∙ rw (root, earlier_root gt lt));
        }

  subproof_loop-left :
      (fuel : ℕ) (d : List Bytes) (m : ℕ) (b : Bool)
      → m < length d
      → m ≤ split (length d)
      → subproof_loop sha256 (suc fuel) d m b
        ≡ subproof_loop sha256 fuel (take (split (length d)) d) m b
          ++ tree_hash sha256 (drop (split (length d)) d) ∷ []
  unfolding subproof_loop
  subproof_loop-left fuel d m b lt le =
      let part : (m == length d) ≡ false = ground arith in
      let below : leb m (split (length d)) ≡ true = ground arith in rw (part, below)

  subproof_loop-right :
      (fuel : ℕ) (d : List Bytes) (m : ℕ) (b : Bool)
      → m < length d
      → split (length d) < m
      → subproof_loop sha256 (suc fuel) d m b
        ≡ subproof_loop sha256 fuel (drop (split (length d)) d) (m - split (length d)) false
          ++ tree_hash sha256 (take (split (length d)) d) ∷ []
  unfolding subproof_loop
  subproof_loop-right fuel d m b lt gt =
      let part : (m == length d) ≡ false = ground arith in
      let above : leb m (split (length d)) ≡ false = ground arith in rw (part, above)

  subproof_loop-whole :
      (fuel : ℕ) (d : List Bytes) (m : ℕ) (b : Bool)
      → m ≡ length d
      → subproof_loop sha256 (suc fuel) d m b ≡ (if b then [] else tree_hash sha256 d ∷ [])
  unfolding subproof_loop
  subproof_loop-whole fuel d m b e = let whole : (m == length d) ≡ true = ground arith in rw whole

  subproof_loop-Rebuilds :
      (fuel : ℕ) (d : List Bytes) (m : ℕ)
      → length d ≤ fuel
      → 0 < m
      → m < length d
      → Rebuilds d m (subproof_loop sha256 fuel d m false)
  subproof_loop-Rebuilds zero d m h pos lt = absurd (omega arith)
  subproof_loop-Rebuilds (suc zero) d m h pos lt = absurd (omega arith)
  subproof_loop-Rebuilds (suc (suc fuel)) d m h pos lt =
      let many : 2 ≤ length d = omega arith in
      let k = split (length d) in
      let s = bounds d m many in
      let low = s.below in
      let high = s.reaches in
      elim (dec_lt k m) [
        | yes gt ↦ rw (subproof_loop-right (suc fuel) d m false lt gt) (
            Rebuilds-right d m many _ gt lt (
              subproof_loop-Rebuilds (suc fuel) (drop k d) (m - k) (omega (arith, length-drop k d))
                (omega arith) (omega (arith, length-drop k d))))
        | no le ↦ rw (subproof_loop-left (suc fuel) d m false lt (omega arith)) (elim (dec_lt m k) [
          | yes below ↦ Rebuilds-left d m many _ pos below (
              subproof_loop-Rebuilds (suc fuel) (take k d) m (omega (arith, length-take k d)) pos
                (omega (arith, length-take k d)))
          | no above ↦
              rw (subproof_loop-whole fuel (take k d) m false (omega (arith, length-take k d)))
                (Rebuilds-at d m many (omega arith))
        ])
      ]

  work_path-append :
      (m : ℕ) (root c : Bytes) (path : List Bytes)
      → work_path m root (path ++ c ∷ []) ≡ work_path m root path ++ c ∷ []
  work_path-append m root c path = elim (Bool-cases (is_power_of_two m)) [
    | inl yes_power ↦ rw yes_power
    | inr no_power ↦ rw no_power
  ]

  -- The hash of the earlier tree is left out exactly when its size is a power of two.
  subproof_loop-work :
      (fuel : ℕ) (d : List Bytes) (m : ℕ)
      → length d ≤ fuel
      → 0 < m
      → m ≤ length d
      → (m < length d) ⊎ (is_power_of_two m ≡ true)
      → work_path m (tree_hash sha256 (take m d)) (subproof_loop sha256 fuel d m true)
        ≡ subproof_loop sha256 fuel d m false
  subproof_loop-work zero d m h pos le c = absurd (omega arith)
  subproof_loop-work (suc fuel) d m h pos le c = elim (dec_lt m (length d)) [
    | no whole ↦
        let power : is_power_of_two m ≡ true = ground arith in
        rw (
          subproof_loop-whole fuel d m true (omega arith),
          subproof_loop-whole fuel d m false (omega arith),
          power,
          take-of_length_le m d (omega arith),
        )
    | yes part ↦
        let many : 2 ≤ length d = omega arith in
        let k = split (length d) in
        let s = bounds d m many in
        let low = s.below in
        let high = s.reaches in
        elim (dec_lt k m) [
          | yes gt ↦
              let e = s.exponent in
              let is = s.power in
              let power = is_power_of_two-between e m (omega arith) (omega arith) in
              rw (
                power,
                subproof_loop-right fuel d m true part gt,
                subproof_loop-right fuel d m false part gt,
              )
          | no le' ↦
              let size : length (take k d) ≡ k = omega (arith, length-take k d) in
              let inner : (m < length (take k d)) ⊎ (is_power_of_two m ≡ true) = elim (dec_lt m k) [
                | yes below ↦ inl (omega arith)
                | no at ↦ inr (
                    ap is_power_of_two (let e : m ≡ k = omega arith in e ∙ s.power)
                    ∙ is_power_of_two-pow2 s.exponent)
              ] in
              let ih = subproof_loop-work fuel (take k d) m (omega arith) pos (omega arith) inner in
              rw (
                subproof_loop-left fuel d m true part (omega arith),
                subproof_loop-left fuel d m false part (omega arith),
                work_path-append,
                ← ih,
                take-take m k d (omega arith),
              )
        ]
  ]

  reject_nothing :
      (m n : ℕ) (first_root second_root : Bytes) (path : List Bytes)
      → 0 < m
      → m < n
      → verify_consistency sha256 m n first_root second_root path
        ≡ check_work sha256 m n first_root second_root (work_path m first_root path)
  unfolding verify_consistency
  reject_nothing m n first_root second_root path pos lt =
      let some_first : (m == 0) ≡ false = ground arith in
      let ordered : ltb n m ≡ false = ground arith in
      let proper : (m == n) ≡ false = ground arith in rw (some_first, ordered, proper)

  check_work-Rebuilds :
      (d : List Bytes) (m : ℕ) (work : List Bytes)
      → Rebuilds d m work
      → check_work sha256 m (length d) (tree_hash sha256 (take m d)) (tree_hash sha256 d) work
        ≡ true
  unfolding check_work
  check_work-Rebuilds d m work r = rw (
    r.shape,
    check_work,
    r.run,
    bytes_eq_refl (tree_hash sha256 (take m d)),
    bytes_eq_refl (tree_hash sha256 d),
  )

  generated :
      (d : List Bytes) (m : ℕ)
      → 0 < m
      → m ≤ length d
      → consistency_proof sha256 d m ≡ some (subproof_loop sha256 (length d) d m true)
  unfolding consistency_proof
  generated d m pos le =
      let some_first : (m == 0) ≡ false = ground arith in
      let ordered : ltb (length d) m ≡ false = ground arith in rw (some_first, ordered)

  -- The log itself is accepted with an empty path.
  accept_whole :
      (d : List Bytes) (m : ℕ)
      → 0 < m
      → m ≡ length d
      → verify_consistency sha256 m
          (length d)
          (tree_hash sha256 (take m d))
          (tree_hash sha256 d)
          (subproof_loop sha256 (length d) d m true)
        ≡ true
  unfolding verify_consistency is_nil
  accept_whole [] m pos e = absurd (omega arith)
  accept_whole (x ∷ d) m pos e =
      let some_first : (m == 0) ≡ false = ground arith in
      let ordered : ltb (suc (length d)) m ≡ false = ground arith in
      let same : (m == suc (length d)) ≡ true = ground arith in
      rw
        (
          some_first,
          ordered,
          same,
          subproof_loop-whole (length d) (x ∷ d) m true e,
          take-of_length_le m (x ∷ d) (omega arith),
        )
        (bytes_eq_refl (tree_hash sha256 (x ∷ d)))

  -- For every size from 1 to that of the log the generator returns a path, and the verifier accepts
  -- it for the two sizes and the roots of the earlier log and of the whole.
  pub verify_consistency-consistency_proof :
      (d : List Bytes) (m : ℕ)
      → 0 < m
      → m ≤ length d
      → (path : List Bytes) × (consistency_proof sha256 d m ≡ some path)
        × (verify_consistency sha256 m
              (length d)
              (tree_hash sha256 (take m d))
              (tree_hash sha256 d)
              path
            ≡ true)
  verify_consistency-consistency_proof d m pos le =
      let path = subproof_loop sha256 (length d) d m true in
      (
        path,
        generated d m pos le,
        elim (dec_lt m (length d)) [
          | yes part ↦
              rw
                (
                  reject_nothing m (length d) (tree_hash sha256 (take m d)) (tree_hash sha256 d)
                      path pos part,
                  subproof_loop-work (length d) d m (omega arith) pos le (inl part),
                )
                (check_work-Rebuilds d m _
                  (subproof_loop-Rebuilds (length d) d m (omega arith) pos part))
          | no whole ↦ accept_whole d m pos (omega arith)
        ],
      )
