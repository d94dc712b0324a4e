-- ===== src/Ledger/Merkle/Walk.antt =====
-- The loop of `verify_consistency` on a path inside a subtree, seen from the tree around it.
use decern.Base.{
  ℕ, zero, suc, ◌+◌, ◌*◌, ◌/◌, ◌%◌, ◌≤◌, ◌<◌, ◌≡◌, ◌≢◌, refl, sym, ◌∙◌, true, false, arith, ◌==◌,
  Bool-cases, inl, inr, Option, none, some, List, [], ◌∷◌, ◌++◌, Bytes,
}
use decern.Ledger.Merkle.{
  ConsistencyWalk, climb_right, is_right, hash_children, consistency_step, consistency_loop,
}
use decern.Ledger.Merkle.Split.{pow2, pow2-pos}
use decern.Ledger.Merkle.Climb.{
  Beside, climb_right-Beside, climb_right-pow2, climb_right-odd, is_right-lift, halve-Beside,
}

abbrev pub walk : ℕ → ℕ → Bytes → Bytes → ConsistencyWalk
walk f s fr sr = record { fn = f; sn = s; fr = fr; sr = sr }

module _ (sha256 : Bytes → Bytes) where
  pub step_end :
      (f s : ℕ) (fr sr c : Bytes) → s ≡ 0 → consistency_step sha256 (walk f s fr sr) c ≡ none
  unfolding consistency_step
  step_end f s fr sr c e = ground arith

  pub step_right :
      (f s : ℕ) (fr sr c : Bytes)
      → s ≢ 0
      → is_right f s ≡ true
      → consistency_step sha256 (walk f s fr sr) c
        ≡ some (
            walk
              (climb_right f s).0
              (climb_right f s).1
              (hash_children sha256 c fr)
              (hash_children sha256 c sr))
  unfolding consistency_step
  step_right f s fr sr c n right = let going : (s == 0) ≡ false = ground arith in rw (going, right)

  pub step_odd :
      (f s : ℕ) (fr sr c : Bytes)
      → s ≢ 0
      → (f % 2 == 1) ≡ true
      → consistency_step sha256 (walk f s fr sr) c
        ≡ some (walk (f / 2) (s / 2) (hash_children sha256 c fr) (hash_children sha256 c sr))
  step_odd f s fr sr c n odd = step_right f s fr sr c n (rw odd) ∙ rw (climb_right-odd f s odd)

  pub step_left :
      (f s : ℕ) (fr sr c : Bytes)
      → s ≢ 0
      → is_right f s ≡ false
      → consistency_step sha256 (walk f s fr sr) c
        ≡ some (walk (f / 2) (s / 2) fr (hash_children sha256 sr c))
  unfolding consistency_step
  step_left f s fr sr c n left = let going : (s == 0) ≡ false = ground arith in rw (going, left)

  pub loop_next :
      (w : ConsistencyWalk) (c : Bytes) (path : List Bytes) {u : ConsistencyWalk}
      → consistency_step sha256 w c ≡ some u
      → consistency_loop sha256 w (c ∷ path) ≡ consistency_loop sha256 u path
  unfolding consistency_loop
  loop_next w c path e = rw (e, consistency_loop)

  pub loop_stop :
      (w : ConsistencyWalk) (c : Bytes) (path : List Bytes)
      → consistency_step sha256 w c ≡ none
      → consistency_loop sha256 w (c ∷ path) ≡ none
  unfolding consistency_loop
  loop_stop w c path e = rw (e, consistency_loop)

  pub loop-append :
      (w : ConsistencyWalk) (xs ys : List Bytes) (v : ConsistencyWalk)
      → consistency_loop sha256 w xs ≡ some v
      → consistency_loop sha256 w (xs ++ ys) ≡ consistency_loop sha256 v ys
  unfolding consistency_loop
  loop-append w [] ys v h = ground arith
  loop-append w (x ∷ xs) ys v h = go (consistency_step sha256 w x) (λ u. loop-append u xs ys v) h
    where
      go :
          (o : Option ConsistencyWalk)
          → ((u : ConsistencyWalk)
              → consistency_loop sha256 u xs ≡ some v
              → consistency_loop sha256 u (xs ++ ys) ≡ consistency_loop sha256 v ys)
          → elim o [ none ↦ none | some u ↦ consistency_loop sha256 u xs ] ≡ some v
          → elim o [ none ↦ none | some u ↦ consistency_loop sha256 u (xs ++ ys) ]
            ≡ consistency_loop sha256 v ys
      go none ih e = cc
      go (some u) ih e = ih u e

  beside :
      {small large : ℕ × ℕ} (b : Beside small large) (fr sr : Bytes) (path : List Bytes)
      → consistency_loop sha256 (walk large.0 large.1 fr sr) path
        ≡ consistency_loop sha256
            (walk (small.0 + pow2 b.exponent) (small.1 + pow2 b.exponent) fr sr)
            path
  beside b fr sr path = rw (b.node, b.last)

  -- A walk that ends at the root of a subtree ends, in the tree with a full subtree to the left,
  -- at the node beside that one, with the same hashes.
  pub lift_right :
      (path : List Bytes) (e f s : ℕ) (fr sr : Bytes) (w : ConsistencyWalk)
      → f ≤ s
      → s < pow2 e
      → consistency_loop sha256 (walk f s fr sr) path ≡ some w
      → w.sn ≡ 0
      → (k : ℕ) × (consistency_loop sha256 (walk (f + pow2 e) (s + pow2 e) fr sr) path
          ≡ some (walk (pow2 k) (pow2 k) w.fr w.sr))
  lift_right [] e f s fr sr w h r run end = (e, unfold consistency_loop in ground arith)
  lift_right (c ∷ path) e f s fr sr w h r run end = elim (Bool-cases (s == 0)) [
    | inl z ↦ cc (run, loop_stop (walk f s fr sr) c path (step_end f s fr sr c (ground arith)))
    | inr nz ↦
        let more : s ≢ 0 = ground arith in
        let more' : s + pow2 e ≢ 0 = omega arith in
        elim (Bool-cases (is_right f s)) [
          | inl right ↦
              let b = climb_right-Beside f s e h r more right in
              let here = step_right f s fr sr c more right in
              let there =
                step_right (f + pow2 e) (s + pow2 e) fr sr c more'
                  (is_right-lift f s e r more ∙ right) in
              let (k, ih) =
                lift_right path b.exponent (climb_right f s).0 (climb_right f s).1
                  (hash_children sha256 c fr) (hash_children sha256 c sr) w b.inside b.room
                  (sym (loop_next _ c path here) ∙ run) end in
              (k, loop_next _ c path there ∙ beside b _ _ path ∙ ih)
          | inr left ↦
              let b = halve-Beside f s e h r more in
              let here = step_left f s fr sr c more left in
              let there =
                step_left (f + pow2 e) (s + pow2 e) fr sr c more'
                  (is_right-lift f s e r more ∙ left) in
              let (k, ih) =
                lift_right path b.exponent (f / 2) (s / 2) fr (hash_children sha256 sr c) w b.inside
                  b.room (sym (loop_next _ c path here) ∙ run) end in
              (k, loop_next _ c path there ∙ beside b _ _ path ∙ ih)
        ]
  ]

  -- A walk that ends at the root of a full subtree ends, in the tree that has it on the left, at
  -- its node, the first of two, with the same hashes.
  pub lift_left :
      (path : List Bytes) (e f s t : ℕ) (fr sr : Bytes) (w : ConsistencyWalk)
      → f ≤ s
      → suc s ≡ pow2 e
      → pow2 e ≤ t
      → t < 2 * pow2 e
      → consistency_loop sha256 (walk f s fr sr) path ≡ some w
      → w.sn ≡ 0
      → consistency_loop sha256 (walk f t fr sr) path ≡ some (walk 0 1 w.fr w.sr)
  lift_left [] zero f s t fr sr w h full lo hi run end = unfold consistency_loop in ground arith
  lift_left [] (suc e) f s t fr sr w h full lo hi run end =
      unfold consistency_loop in absurd (ground (arith, pow2-pos e))
  lift_left (c ∷ path) zero f s t fr sr w h full lo hi run end =
      cc (run, loop_stop (walk f s fr sr) c path (step_end f s fr sr c (omega arith)))
  lift_left (c ∷ path) (suc e) f s t fr sr w h full lo hi run end =
      let more : s ≢ 0 = omega (arith, pow2-pos e) in
      let more' : t ≢ 0 = omega (arith, pow2-pos e) in
      elim (Bool-cases (f % 2 == 1)) [
        | inl odd ↦
            let here = step_odd f s fr sr c more odd in
            let there = step_odd f t fr sr c more' odd in
            let ih =
              lift_left path e (f / 2) (s / 2) (t / 2) (hash_children sha256 c fr)
                (hash_children sha256 c sr) w (omega arith) (omega arith) (omega arith)
                (omega arith) (sym (loop_next _ c path here) ∙ run) end in
            loop_next _ c path there ∙ ih
        | inr even ↦
            let here = step_left f s fr sr c more (ground arith) in
            let there = step_left f t fr sr c more' (ground arith) in
            let ih =
              lift_left path e (f / 2) (s / 2) (t / 2) fr (hash_children sha256 sr c) w
                (omega arith) (omega arith) (omega arith) (omega arith)
                (sym (loop_next _ c path here) ∙ run) end in
            loop_next _ c path there ∙ ih
      ]

  -- The last hash of a path, at the node of a full left part and at the last node of a level.
  pub finish_left :
      (fr sr c : Bytes)
      → consistency_loop sha256 (walk 0 1 fr sr) (c ∷ [])
        ≡ some (walk 0 0 fr (hash_children sha256 sr c))
  unfolding consistency_loop
  finish_left fr sr c = loop_next _ c [] (step_left 0 1 fr sr c (omega arith) refl)

  pub finish_right :
      (k : ℕ) (fr sr c : Bytes)
      → consistency_loop sha256 (walk (pow2 k) (pow2 k) fr sr) (c ∷ [])
        ≡ some (walk 0 0 (hash_children sha256 c fr) (hash_children sha256 c sr))
  unfolding consistency_loop
  finish_right k fr sr c =
      let more : pow2 k ≢ 0 = omega (arith, pow2-pos k) in
      loop_next _ c [] (step_right (pow2 k) (pow2 k) fr sr c more (ground arith))
      ∙ rw (climb_right-pow2 k)
