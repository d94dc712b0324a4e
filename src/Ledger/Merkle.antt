-- ===== src/Ledger/Merkle.antt =====
-- crates/decern-ledger/src/merkle.rs: the RFC 9162 tree over the record hashes, its proofs and their
-- verifiers. SHA-256 is a parameter; a digest is its 32 bytes.
pub mod Split
pub mod Tree
mod Climb
mod Walk
mod Ones
pub mod Inclusion
pub mod Consistency
pub mod Binding
mod Accepted
pub mod Soundness
pub mod Examples
use decern.Base.{
  ℕ, zero, suc, ◌+◌, ◌-◌, ◌*◌, ◌/◌, ◌%◌, ◌≤◌, ◌<◌, ◌≡◌, Bool, true, false, ◌&&◌, ◌||◌, not, Option,
  none, some, List, [], ◌∷◌, ◌++◌, ltb, leb, ◌==◌, if◌then◌else◌, length, take, drop, Bytes,
  bytes_eq,
}

-- `while k * 2 < n { k *= 2 }`, with the rounds bounded by the first argument.
split_loop : ℕ → ℕ → ℕ → ℕ
split_loop zero n k = k
split_loop (suc fuel) n k =
    let rest = split_loop fuel n (k * 2) in if ltb (k * 2) n then rest else k

-- The largest power of two strictly below `n`, for `n` at least 2.
unfoldable pub split : ℕ → ℕ
unfolding split_loop
split n = split_loop n n 1

-- The standard library's `is_power_of_two`: halve while even, and see whether 1 is reached.
halve_to_one : ℕ → ℕ → Bool
halve_to_one zero n = false
halve_to_one (suc fuel) n =
    let rest = halve_to_one fuel (n / 2) in
    if n == 1 then true else if n % 2 == 0 then rest else false

unfoldable pub is_power_of_two : ℕ → Bool
unfolding halve_to_one
is_power_of_two n = halve_to_one n n

-- `while (fn_ & 1) == 0 && fn_ != 0 { fn_ >>= 1; sn >>= 1 }`
pub shift_zeros : ℕ → ℕ → ℕ → ℕ × ℕ
shift_zeros zero fn sn = (fn, sn)
shift_zeros (suc fuel) fn sn =
    let rest = shift_zeros fuel (fn / 2) (sn / 2) in
    if (fn % 2 == 0) && not (fn == 0) then rest else (fn, sn)

-- `while (fn_ & 1) == 1 { fn_ >>= 1; sn >>= 1 }`
pub shift_ones : ℕ → ℕ → ℕ → ℕ × ℕ
shift_ones zero fn sn = (fn, sn)
shift_ones (suc fuel) fn sn =
    let rest = shift_ones fuel (fn / 2) (sn / 2) in if fn % 2 == 1 then rest else (fn, sn)

-- The node index `fn` and the last index `sn` of a level, and the hashes rebuilt so far.
pub record InclusionWalk : Type 0 where
  pub fn : ℕ
  pub sn : ℕ
  pub r : Bytes

pub record ConsistencyWalk : Type 0 where
  pub fn : ℕ
  pub sn : ℕ
  pub fr : Bytes
  pub sr : Bytes

-- Whether the node is a right child, or the last of its level and so hashed as one.
abbrev pub is_right : ℕ → ℕ → Bool
is_right fn sn = (fn % 2 == 1) || (fn == sn)

-- The indices after a right child: one level up, past the levels where it is the only node.
pub climb_right : ℕ → ℕ → ℕ × ℕ
climb_right fn sn =
    let (f, s) = if fn % 2 == 0 then shift_zeros (suc fn) fn sn else (fn, sn) in (f / 2, s / 2)

-- The working path: `first_root` stands in front when `first` is a power of two.
abbrev pub work_path : ℕ → Bytes → List Bytes → List Bytes
work_path first first_root path = if is_power_of_two first then first_root ∷ path else path

pub is_nil : List Bytes → Bool
is_nil [] = true
is_nil (x ∷ xs) = false

module _ (sha256 : Bytes → Bytes) where
  unfoldable pub hash_leaf : Bytes → Bytes
  hash_leaf leaf = sha256 (0 ∷ leaf)

  unfoldable pub hash_children : Bytes → Bytes → Bytes
  hash_children left right = sha256 (1 ∷ left ++ right)

  tree_hash_loop : ℕ → List Bytes → Bytes
  tree_hash_loop zero d = sha256 []
  tree_hash_loop (suc fuel) [] = sha256 []
  tree_hash_loop (suc fuel) (x ∷ []) = hash_leaf x
  tree_hash_loop (suc fuel) (x ∷ y ∷ d) =
      let k = split (length (x ∷ y ∷ d)) in
      hash_children (tree_hash_loop fuel (take k (x ∷ y ∷ d)))
        (tree_hash_loop fuel (drop k (x ∷ y ∷ d)))

  -- The recursion is at most as deep as the list is long.
  unfoldable pub tree_hash : List Bytes → Bytes
  unfolding tree_hash_loop split hash_leaf hash_children
  tree_hash d = tree_hash_loop (length d) d

  pub path_loop : ℕ → List Bytes → ℕ → List Bytes
  path_loop zero d m = []
  path_loop (suc fuel) d m =
      let k = split (length d) in
      let left = path_loop fuel (take k d) m ++ tree_hash (drop k d) ∷ [] in
      let right = path_loop fuel (drop k d) (m - k) ++ tree_hash (take k d) ∷ [] in
      if length d == 1 then [] else if ltb m k then left else right

  unfoldable pub inclusion_proof : List Bytes → ℕ → Option (List Bytes)
  unfolding path_loop tree_hash
  inclusion_proof d m = if leb (length d) m then none else some (path_loop (length d) d m)

  pub subproof_loop : ℕ → List Bytes → ℕ → Bool → List Bytes
  subproof_loop zero d m b = []
  subproof_loop (suc fuel) d m b =
      let k = split (length d) in
      let left = subproof_loop fuel (take k d) m b ++ tree_hash (drop k d) ∷ [] in
      let right = subproof_loop fuel (drop k d) (m - k) false ++ tree_hash (take k d) ∷ [] in
      if m == length d
      then (if b then [] else tree_hash d ∷ [])
      else if leb m k
      then left
      else right

  unfoldable pub consistency_proof : List Bytes → ℕ → Option (List Bytes)
  unfolding subproof_loop tree_hash
  consistency_proof d m =
      if (m == 0) || ltb (length d) m then none else some (subproof_loop (length d) d m true)

  -- One round of the loop over the audit path; `none` is the early `return false`.
  pub inclusion_step : InclusionWalk → Bytes → Option InclusionWalk
  inclusion_step w p =
      let (f, s) = climb_right w.fn w.sn in
      if w.sn == 0
      then none
      else if is_right w.fn w.sn
      then some (record { fn = f; sn = s; r = hash_children p w.r })
      else some (record { fn = w.fn / 2; sn = w.sn / 2; r = hash_children w.r p })

  pub inclusion_loop : InclusionWalk → List Bytes → Option InclusionWalk
  inclusion_loop w [] = some w
  inclusion_loop w (p ∷ path) = elim (inclusion_step w p) [
    | none ↦ none
    | some w' ↦ inclusion_loop w' path
  ]

  unfoldable pub verify_inclusion : ℕ → ℕ → Bytes → Bytes → List Bytes → Bool
  unfolding inclusion_loop inclusion_step climb_right shift_zeros hash_children
  verify_inclusion leaf_index tree_size leaf_hash root path =
      if leb tree_size leaf_index
      then false
      else elim (inclusion_loop (record { fn = leaf_index; sn = tree_size - 1; r = leaf_hash })
          path) [ none ↦ false | some w ↦ (w.sn == 0) && bytes_eq w.r root ]

  pub consistency_step : ConsistencyWalk → Bytes → Option ConsistencyWalk
  consistency_step w c =
      let (f, s) = climb_right w.fn w.sn in
      if w.sn == 0
      then none
      else if is_right w.fn w.sn
      then some (record { fn = f; sn = s; fr = hash_children c w.fr; sr = hash_children c w.sr })
      else some (record { fn = w.fn / 2; sn = w.sn / 2; fr = w.fr; sr = hash_children w.sr c })

  pub consistency_loop : ConsistencyWalk → List Bytes → Option ConsistencyWalk
  consistency_loop w [] = some w
  consistency_loop w (c ∷ work) = elim (consistency_step w c) [
    | none ↦ none
    | some w' ↦ consistency_loop w' work
  ]

  -- The part of `verify_consistency` after the working path is built.
  pub check_work : ℕ → ℕ → Bytes → Bytes → List Bytes → Bool
  check_work first second first_root second_root [] = false
  check_work first second first_root second_root (x ∷ work) =
      let (fn, sn) = shift_ones first (first - 1) (second - 1) in
      elim (consistency_loop (record { fn = fn; sn = sn; fr = x; sr = x }) work) [
        | none ↦ false
        | some w ↦ bytes_eq w.fr first_root && bytes_eq w.sr second_root && (w.sn == 0)
      ]

  unfoldable pub verify_consistency : ℕ → ℕ → Bytes → Bytes → List Bytes → Bool
  unfolding check_work consistency_loop consistency_step climb_right shift_zeros shift_ones
      hash_children is_power_of_two is_nil
  verify_consistency first second first_root second_root path =
      if (first == 0) || ltb second first
      then false
      else if first == second
      then is_nil path && bytes_eq first_root second_root
      else check_work first second first_root second_root (work_path first first_root path)
