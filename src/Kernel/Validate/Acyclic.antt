-- ===== src/Kernel/Validate/Acyclic.antt =====
-- The cycle rule of `validate`: the walk that finds no repetition ends, and so no chain of delegation edges
-- leads back to where it starts.
use decern.Base.{
  ℕ, zero, suc, ◌<◌, String, ◌≡◌, ◌≢◌, subst, sym, none, some, List, [], ◌∷◌, length, arith,
  Bool-cases, Option-cases, ◌⊎◌, inl, inr,
}
use decern.Base.Dict.{Dict, lookup, contains, lookup-values, unseen, unseen-le-length, unseen_drop}
use decern.Kernel.Graph.{PrincipalRec, Directory, cycle_loop, first_cycle_id}
use decern.Kernel.Graph.Ancestors.{Names, Reaches, direct, onward}
use decern.Kernel.Validate.{check_cycle, validate}
use decern.Kernel.Validate.Phases.{validate-Rules}

-- A principal has one delegator.
Names-unique :
    (m : Dict PrincipalRec) (p : String) {d e : String} → Names m p d → Names m p e → d ≡ e
Names-unique m p n k = cc (n.1, n.2, k.1, k.2)

first_edge : {m : Dict PrincipalRec} {p a : String} → Reaches m p a → (d : String) × Names m p d
first_edge (direct {d = d} n) = (d, n)
first_edge (onward r n) = first_edge r

after_edge :
    {m : Dict PrincipalRec} {p a d : String} → Reaches m p a → Names m p d → (d ≡ a) ⊎ Reaches m d a
after_edge {m} {p} (direct n) k = inl (Names-unique m p k n)
after_edge {m} {a = a} (onward {q = q} r n) k = elim (after_edge r k) [
  | inl e ↦ inr (direct (subst (λ z. Names m z a) (sym e) n))
  | inr s ↦ inr (onward s n)
]

-- A cycle is a cycle from each of its members.
rotate_lists : {m : Dict PrincipalRec} {c d : String} → Reaches m c c → Names m c d → Reaches m d d
rotate_lists {m} {c} {d} r n = elim (after_edge r n) [
  | inl e ↦ subst (λ z. Reaches m z z) (sym e) r
  | inr s ↦ onward s n
]

no_cycle :
    (fuel : ℕ) (m : Dict PrincipalRec) (seen : List String) (c : String) (cur : PrincipalRec)
    → lookup c m ≡ some cur
    → Reaches m c c
    → unseen seen m < fuel
    → cycle_loop fuel (λ (n : PrincipalRec). n.delegator) m seen cur ≢ none
unfolding cycle_loop
no_cycle zero m seen c cur at r lt h = omega arith
no_cycle (suc fuel) m seen c cur at r lt h =
    step (first_edge r) (λ d x. no_cycle fuel m (d ∷ seen) d x)
  where
    Round : Type 0
    Round =
        (d : String) (x : PrincipalRec)
        → lookup d m ≡ some x
        → Reaches m d d
        → unseen (d ∷ seen) m < fuel
        → cycle_loop fuel (λ (n : PrincipalRec). n.delegator) m (d ∷ seen) x ≢ none

    step : (d : String) × Names m c d → Round → ⊥
    step (d, n) rec =
        let e : cur.delegator ≡ some d = cc (at, n.1, n.2) in
        let s = rotate_lists r n in
        let next = first_edge s in
        elim (Bool-cases (contains d seen)) [
          | inl old ↦ absurd (cc (rw (cycle_loop, e, old) at h))
          | inr new ↦
              rec d next.1.0 next.1.1 s (omega (arith, lt, unseen_drop d seen m next.1.1 new))
                (rw (cycle_loop, e, new, next.1.1) at h)
        ]

no_violation :
    (dir : Directory) (p : PrincipalRec)
    → check_cycle dir p ≡ []
    → first_cycle_id (λ n. n.id) (λ n. n.delegator) dir.principals p ≡ none
unfolding check_cycle
no_violation dir p h =
    elim (Option-cases
      (first_cycle_id (λ (n : PrincipalRec). n.id) (λ n. n.delegator) dir.principals p)) [
        | inl quiet ↦ quiet
        | inr (via, found) ↦ absurd (cc (rw (check_cycle, found) at h))
      ]

-- In a directory without violations, no principal is its own ancestor: no chain of one or more delegation edges
-- leads from an identifier back to itself.
pub validate-acyclic :
    (dir : Directory) (id : String) → validate dir ≡ [] → ¬ Reaches dir.principals id id
unfolding first_cycle_id
validate-acyclic dir id v r =
    let n = (first_edge r).1 in
    let p = n.0 in
    no_cycle (suc (length dir.principals)) dir.principals (p.id ∷ []) id p n.1 r
      (omega (arith, unseen-le-length (p.id ∷ []) dir.principals))
      (no_violation dir p ((validate-Rules dir v).cycle p (lookup-values id dir.principals n.1)))
