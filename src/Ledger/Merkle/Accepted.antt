-- ===== src/Ledger/Merkle/Accepted.antt =====
-- What the verifiers have computed when they accept.
use native.Mathlib.Decide.{dec_lt}
use decern.Base.{
  ℕ, zero, suc, ◌-◌, ◌≤◌, ◌<◌, ◌≡◌, refl, Bool, true, false, ◌&&◌, arith, ltb, leb, ◌==◌,
  Bool-cases, ◌⊎◌, inl, inr, Option, none, some, List, [], ◌∷◌, All, Bytes, bytes_eq,
  bytes_eq_sound, length, take, drop, &&-elim, All-append, if◌then◌else◌, ◌||◌,
}
use decern.Ledger.Merkle.{
  ConsistencyWalk, tree_hash, consistency_loop, check_work, work_path, shift_ones, verify_inclusion,
  verify_consistency, split, is_nil, subproof_loop, path_loop,
}
use decern.Ledger.Merkle.Walk.{walk}
use decern.Ledger.Merkle.Inclusion.{forget, inclusion_loop-forget}
use decern.Ledger.Merkle.Binding.{IsDigest, tree_hash-IsDigest}

module _ (sha256 : Bytes → Bytes) where
  -- What an accepted inclusion proof has computed.
  pub record Included (m n : ℕ) (leaf_hash root : Bytes) (path : List Bytes) : Type 0 where
    pub inside : m < n
    pub final : ConsistencyWalk
    pub run : consistency_loop sha256 (walk m (n - 1) [] leaf_hash) path ≡ some final
    pub top : final.sn ≡ 0
    pub reaches : final.sr ≡ root

  pub verify_inclusion-Included :
      (m n : ℕ) (leaf_hash root : Bytes) (path : List Bytes)
      → verify_inclusion sha256 m n leaf_hash root path ≡ true
      → Included m n leaf_hash root path
  unfolding verify_inclusion
  verify_inclusion-Included m n leaf_hash root path h = elim (dec_lt m n) [
    | no out ↦ let late : leb n m ≡ true = ground arith in absurd (cc (rw late at h))
    | yes lt ↦
        let early : leb n m ≡ false = ground arith in
        go lt (consistency_loop sha256 (walk m (n - 1) [] leaf_hash) path) refl
          (rw (early, inclusion_loop-forget sha256 (walk m (n - 1) [] leaf_hash) path) at h)
  ]
    where
      go :
          m < n
          → (o : Option ConsistencyWalk)
          → consistency_loop sha256 (walk m (n - 1) [] leaf_hash) path ≡ o
          → elim (forget o) [ none ↦ false | some w ↦ (w.sn == 0) && bytes_eq w.r root ] ≡ true
          → Included m n leaf_hash root path
      go lt none e t = cc
      go lt (some w) e t =
          let (p, q) = &&-elim (w.sn == 0) (bytes_eq w.sr root) t in
          record {
            inside = lt;
            final = w;
            run = e;
            top = ground arith;
            reaches = bytes_eq_sound w.sr root q;
          }

  -- What an accepted consistency proof of a proper prefix has computed.
  pub record Consistent (m n : ℕ) (first_root second_root : Bytes) (path : List Bytes)
      : Type 0 where
    pub start : Bytes
    pub rest : List Bytes
    pub shape : work_path m first_root path ≡ start ∷ rest
    pub final : ConsistencyWalk
    pub run :
        consistency_loop sha256
          (walk (shift_ones m (m - 1) (n - 1)).0 (shift_ones m (m - 1) (n - 1)).1 start start)
          rest
        ≡ some final
    pub top : final.sn ≡ 0
    pub first : final.fr ≡ first_root
    pub second : final.sr ≡ second_root

  check_work-Consistent :
      (m n : ℕ) (first_root second_root : Bytes) (path work : List Bytes)
      → work_path m first_root path ≡ work
      → check_work sha256 m n first_root second_root work ≡ true
      → Consistent m n first_root second_root path
  unfolding check_work
  check_work-Consistent m n first_root second_root path [] e h = cc
  check_work-Consistent m n first_root second_root path (x ∷ work) e h =
      go
        (consistency_loop sha256
          (walk (shift_ones m (m - 1) (n - 1)).0 (shift_ones m (m - 1) (n - 1)).1 x x) work)
        refl h
    where
      go :
          (o : Option ConsistencyWalk)
          → consistency_loop sha256
              (walk (shift_ones m (m - 1) (n - 1)).0 (shift_ones m (m - 1) (n - 1)).1 x x)
              work
            ≡ o
          → elim o [
            | none ↦ false
            | some w ↦ bytes_eq w.fr first_root && bytes_eq w.sr second_root && (w.sn == 0)
          ]
            ≡ true
          → Consistent m n first_root second_root path
      go none q t = cc
      go (some w) q t =
          let (p, r) =
            &&-elim (bytes_eq w.fr first_root && bytes_eq w.sr second_root) (w.sn == 0) t in
          let (a, b) = &&-elim (bytes_eq w.fr first_root) (bytes_eq w.sr second_root) p in
          record {
            start = x;
            rest = work;
            shape = e;
            final = w;
            run = q;
            top = ground arith;
            first = bytes_eq_sound w.fr first_root a;
            second = bytes_eq_sound w.sr second_root b;
          }

  -- The verifier accepts sizes in order only, and below the later size only a full check.
  pub verify_consistency-cases :
      (m n : ℕ) (first_root second_root : Bytes) (path : List Bytes)
      → verify_consistency sha256 m n first_root second_root path ≡ true
      → (0 < m)
        × (m ≤ n)
        × (((m ≡ n) × (first_root ≡ second_root))
            ⊎ ((m < n) × Consistent m n first_root second_root path))
  unfolding verify_consistency
  verify_consistency-cases m n first_root second_root path h =
      elim (Bool-cases ((m == 0) || ltb n m)) [
        | inl bad ↦ absurd (cc (rw bad at h))
        | inr good ↦ elim (Bool-cases (m == n)) [
          | inl same ↦
              let (p, q) =
                &&-elim (is_nil path) (bytes_eq first_root second_root) (rw (good, same) at h) in
              (
                ground arith,
                ground arith,
                inl (ground arith, bytes_eq_sound first_root second_root q),
              )
          | inr proper ↦ (
            ground arith,
            ground arith,
            inr (
              ground arith,
              check_work-Consistent m n first_root second_root path _ refl (rw (good, proper) at h),
            ),
          )
        ]
      ]

  module _ (digest_size : (b : Bytes) → IsDigest (sha256 b)) where
    pub path_loop-IsDigest :
        (fuel : ℕ) (d : List Bytes) (m : ℕ) → All IsDigest (path_loop sha256 fuel d m)
    unfolding path_loop
    path_loop-IsDigest zero d m = tt
    path_loop-IsDigest (suc fuel) d m =
        let k = split (length d) in
        elim (Bool-cases (length d == 1)) [
          | inl one ↦ rw one tt
          | inr many ↦ elim (Bool-cases (ltb m k)) [
            | inl below ↦
                rw (many, below)
                  (All-append IsDigest _ _ (path_loop-IsDigest fuel (take k d) m)
                    (tree_hash-IsDigest sha256 digest_size (drop k d), tt))
            | inr above ↦
                rw (many, above)
                  (All-append IsDigest _ _ (path_loop-IsDigest fuel (drop k d) (m - k))
                    (tree_hash-IsDigest sha256 digest_size (take k d), tt))
          ]
        ]

    pub subproof_loop-IsDigest :
        (fuel : ℕ) (d : List Bytes) (m : ℕ) (b : Bool)
        → All IsDigest (subproof_loop sha256 fuel d m b)
    unfolding subproof_loop
    subproof_loop-IsDigest zero d m b = tt
    subproof_loop-IsDigest (suc fuel) d m b =
        let k = split (length d) in
        elim (Bool-cases (m == length d)) [
          | inl whole ↦ rw whole (last b)
          | inr part ↦ elim (Bool-cases (leb m k)) [
            | inl below ↦
                rw (part, below)
                  (All-append IsDigest _ _ (subproof_loop-IsDigest fuel (take k d) m b)
                    (tree_hash-IsDigest sha256 digest_size (drop k d), tt))
            | inr above ↦
                rw (part, above)
                  (All-append IsDigest _ _ (subproof_loop-IsDigest fuel (drop k d) (m - k) false)
                    (tree_hash-IsDigest sha256 digest_size (take k d), tt))
          ]
        ]
      where
        last : (b : Bool) → All IsDigest (if b then [] else tree_hash sha256 d ∷ [])
        last true = tt
        last false = (tree_hash-IsDigest sha256 digest_size d, tt)
