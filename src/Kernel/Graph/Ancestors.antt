-- ===== src/Kernel/Graph/Ancestors.antt =====
-- What the walk up the delegation edges collects: every authority ancestor, and nothing else.
use decern.Base.{
  ℕ, zero, suc, ◌<◌, String, ◌≡◌, ◌≢◌, refl, sym, subst, true, false, ◌||◌, ◌↔◌, ◌⊎◌, inl, inr,
  Option, none, some, List, [], ◌∷◌, ◌++◌, Bool-cases, Option-cases, length, arith, Among, here,
  there, Among-append, Among-append_left, Among-append_right, Among-nil,
}
use decern.Base.Dict.{
  Dict, lookup, contains, contains-Among, Among-contains, unseen, unseen-le-length, unseen_drop,
}
use decern.Kernel.Graph.{
  PrincipalRec, Directory, ancestors_loop, ancestors_of, authored, any_authored, revoked,
}

-- The record of `p` names `d` as its delegator.
abbrev pub Names : Dict PrincipalRec → String → String → Type 0
Names m p d = (r : PrincipalRec) × (lookup p m ≡ some r) × (r.delegator ≡ some d)

-- A chain of one delegation edge or more leads from `p` up to an identifier.
pub data Reaches (m : Dict PrincipalRec) (p : String) : String → Type 0 where
  direct : {d : String} → Names m p d → Reaches m p d
  onward : {q d : String} → Reaches m p q → Names m q d → Reaches m p d

-- What the marks and the result of the walk hold between rounds.
record Marks (m : Dict PrincipalRec) (id : String) (seen out : List String) (c : String)
    : Type 0 where
  marked : (x : String) → Among x seen → Among x (id ∷ out)
  kept : (x : String) → Among x (id ∷ out) → Among x seen
  followed : (x d : String) → Among x seen → Names m x d → Among d seen ⊎ (x ≡ c)
  reached : (x : String) → Among x out → (x ≢ id) × Reaches m id x
  current : (c ≡ id) ⊎ Reaches m id c

-- What the walk returns: a set of ancestors that no edge leaves.
record Finished (m : Dict PrincipalRec) (id : String) (out : List String) : Type 0 where
  closed : (x d : String) → Among x (id ∷ out) → Names m x d → Among d (id ∷ out)
  sound : (x : String) → Among x out → (x ≢ id) × Reaches m id x

loop_stop :
    (fuel : ℕ) (m : Dict PrincipalRec) (seen out : List String)
    → out ≡ ancestors_loop fuel m seen out none
unfolding ancestors_loop
loop_stop zero m seen out = refl
loop_stop (suc fuel) m seen out = refl

-- The walk is finished where the current node leads nowhere new.
finish :
    {m : Dict PrincipalRec} {id : String} {seen out : List String} {c : String}
    → Marks m id seen out c
    → ((d : String) → Names m c d → Among d seen)
    → Finished m id out
finish {m = m} w last = record {
  closed = λ x d a n. elim (w.followed x d (w.kept x a) n) [
    | inl k ↦ w.marked d k
    | inr e ↦ w.marked d (last d (subst (λ z. Names m z d) e n))
  ];
  sound = w.reached;
}

one_more : (d x : String) (out : List String) → Among x (out ++ d ∷ []) → Among x out ⊎ (x ≡ d)
one_more d x out a = elim (Among-append x out (d ∷ []) a) [
  | inl l ↦ inl l
  | inr (here e) ↦ inr e
  | inr (there n) ↦ absurd (Among-nil n)
]

not_new : (d x : String) (seen : List String) → contains d seen ≡ false → Among x seen → d ≢ x
not_new d x seen new a e = cc (new, Among-contains d seen (subst (λ z. Among z seen) (sym e) a))

cur_reach :
    {m : Dict PrincipalRec} {id c d : String}
    → (c ≡ id) ⊎ Reaches m id c
    → Names m c d
    → Reaches m id d
cur_reach {m} {d = d} (inl e) n = direct (subst (λ z. Names m z d) e n)
cur_reach (inr r) n = onward r n

extend-Marks :
    {m : Dict PrincipalRec} {id : String} {seen out : List String} {c d : String}
    → Marks m id seen out c
    → Names m c d
    → ((d' : String) → Names m c d' → d' ≡ d)
    → contains d seen ≡ false
    → Marks m id (d ∷ seen) (out ++ d ∷ []) d
extend-Marks {m} {id} {seen} {out} {c} {d} w edge only new = record {
  marked = λ x a. elim a [
    | here e ↦ there (Among-append_right x out (d ∷ []) (here e))
    | there b ↦ elim (w.marked x b) [
      | here e ↦ here e
      | there o ↦ there (Among-append_left x out (d ∷ []) o)
    ]
  ];
  kept = λ x a. elim a [
    | here e ↦ there (w.kept x (here e))
    | there b ↦ elim (one_more d x out b) [ inl o ↦ there (w.kept x (there o)) | inr e ↦ here e ]
  ];
  followed = λ x d' a n. elim a [
    | here e ↦ inr e
    | there b ↦ elim (w.followed x d' b n) [
      | inl k ↦ inl (there k)
      | inr e ↦ inl (here (only d' (subst (λ z. Names m z d') e n)))
    ]
  ];
  reached = λ x a. elim (one_more d x out a) [
    | inl o ↦ w.reached x o
    | inr e ↦
        subst (λ z. (z ≢ id) × Reaches m id z) (sym e)
          (not_new d id seen new (w.kept id (here refl)), cur_reach w.current edge)
  ];
  current = inr (cur_reach w.current edge);
}

loop_finish :
    (fuel : ℕ) (m : Dict PrincipalRec) (id : String) (seen out : List String) (c : String)
    (cur : Option PrincipalRec)
    → lookup c m ≡ cur
    → Marks m id seen out c
    → unseen seen m < fuel
    → Finished m id (ancestors_loop fuel m seen out cur)
unfolding ancestors_loop
loop_finish zero m id seen out c cur at w lt = absurd (omega arith)
loop_finish (suc fuel) m id seen out c none at w lt = finish w (λ d n. absurd (cc (n.1, at)))
loop_finish (suc fuel) m id seen out c (some p) at w lt =
    step p.delegator refl (λ d x. loop_finish fuel m id (d ∷ seen) (out ++ d ∷ []) d (some x))
  where
    named : (d d' : String) → p.delegator ≡ some d → Names m c d' → d' ≡ d
    named d d' e n = cc (e, at, n.1, n.2)

    marks :
        (d : String)
        → p.delegator ≡ some d
        → contains d seen ≡ false
        → Marks m id (d ∷ seen) (out ++ d ∷ []) d
    marks d e new = extend-Marks w (p, at, e) (λ d' n. named d d' e n) new

    step :
        (o : Option String)
        → p.delegator ≡ o
        → ((d : String) (x : PrincipalRec)
            → lookup d m ≡ some x
            → Marks m id (d ∷ seen) (out ++ d ∷ []) d
            → unseen (d ∷ seen) m < fuel
            → Finished m id (ancestors_loop fuel m (d ∷ seen) (out ++ d ∷ []) (some x)))
        → Finished m id (ancestors_loop (suc fuel) m seen out (some p))
    step none e rec = rw e (finish w (λ d n. absurd (cc (e, at, n.1, n.2))))
    step (some d) e rec = rw e (elim (Bool-cases (contains d seen)) [
      | inl old ↦ rw old (finish w (λ d' n. contains-Among d' seen (cc (named d d' e n, old))))
      | inr new ↦ rw new (elim (Option-cases (lookup d m)) [
        | inl fails ↦ rw fails (
            subst (Finished m id) (loop_stop fuel m (d ∷ seen) (out ++ d ∷ []))
              (finish (marks d e new) (λ d' n. absurd (cc (fails, n.1)))))
        | inr (x, holds) ↦
            rw holds (rec d x holds (marks d e new) (omega (arith, unseen_drop d seen m holds new)))
      ])
    ])

ancestors_of-Finished :
    (dir : Directory) (id : String) → Finished dir.principals id (ancestors_of dir id)
unfolding ancestors_of
ancestors_of-Finished dir id =
    loop_finish (suc (length dir.principals)) dir.principals id (id ∷ []) [] id
      (lookup id dir.principals) refl
      (record {
        marked = λ x a. a;
        kept = λ x a. a;
        followed = λ x d a n. elim a [ here e ↦ inr e | there b ↦ absurd (Among-nil b) ];
        reached = λ x a. absurd (Among-nil a);
        current = inl refl;
      })
      (omega (arith, unseen-le-length (id ∷ []) dir.principals))

closed_reach :
    {m : Dict PrincipalRec} {id a : String} {out : List String}
    → Finished m id out
    → Reaches m id a
    → Among a (id ∷ out)
closed_reach {id = id} {a} f (direct n) = f.closed id a (here refl) n
closed_reach {a = a} f (onward {q = q} r n) = f.closed q a (closed_reach f r) n

-- `ancestors_of` returns the other principals that delegation edges lead to from `id`, over any number of
-- edges, and nothing else, also where the edges form a cycle.
pub ancestors_of-Reaches :
    (dir : Directory) (id a : String)
    → Among a (ancestors_of dir id) ↔ ((a ≢ id) × Reaches dir.principals id a)
ancestors_of-Reaches dir id a =
    let f = ancestors_of-Finished dir id in
    (f.sound a, (λ h. elim (closed_reach f h.1) [ here e ↦ absurd (h.0 e) | there b ↦ b ]))

any_authored-Among :
    (dir : Directory) (ids : List String)
    → any_authored dir ids ≡ true
    → (a : String) × Among a ids × (authored dir a ≡ true)
unfolding any_authored
any_authored-Among dir [] h = cc
any_authored-Among dir (a ∷ ids) h = elim (Bool-cases (authored dir a)) [
  | inl holds ↦ (a, here refl, holds)
  | inr fails ↦ let r = any_authored-Among dir ids (rw fails at h) in (r.0, there r.1, r.2)
]

Among-any_authored :
    (dir : Directory) (ids : List String) (a : String)
    → Among a ids
    → authored dir a ≡ true
    → any_authored dir ids ≡ true
unfolding any_authored
Among-any_authored dir [] a h t = absurd (Among-nil h)
Among-any_authored dir (x ∷ ids) a (here e) t = rw (subst (λ z. authored dir z ≡ true) e t) refl
Among-any_authored dir (x ∷ ids) a (there h) t = ground (arith, Among-any_authored dir ids a h t)

-- A principal is revoked where its own record or the record of a principal that its delegation edges
-- lead to says so, and only there.
pub revoked_iff :
    (dir : Directory) (id : String)
    → (revoked dir id ≡ true) ↔ (
        (authored dir id ≡ true)
        ⊎ ((a : String) × Reaches dir.principals id a × (authored dir a ≡ true)))
unfolding revoked
revoked_iff dir id = (forth, back)
  where
    forth :
        (authored dir id || any_authored dir (ancestors_of dir id)) ≡ true
        → (authored dir id ≡ true)
          ⊎ ((a : String) × Reaches dir.principals id a × (authored dir a ≡ true))
    forth h = elim (Bool-cases (authored dir id)) [
      | inl holds ↦ inl holds
      | inr fails ↦
          let r = any_authored-Among dir (ancestors_of dir id) (rw fails at h) in
          inr (r.0, ((ancestors_of-Reaches dir id r.0).0 r.1).1, r.2)
    ]

    back :
        (authored dir id ≡ true)
          ⊎ ((a : String) × Reaches dir.principals id a × (authored dir a ≡ true))
        → (authored dir id || any_authored dir (ancestors_of dir id)) ≡ true
    back (inl h) = rw h refl
    back (inr (a, r, h)) = elim (Bool-cases (authored dir id)) [
      | inl holds ↦ rw holds refl
      | inr fails ↦ elim (closed_reach (ancestors_of-Finished dir id) r) [
        | here e ↦ absurd (cc (subst (λ z. authored dir z ≡ true) e h, fails))
        | there b ↦ rw fails (Among-any_authored dir (ancestors_of dir id) a b h)
      ]
    ]

Reaches-trans :
    {m : Dict PrincipalRec} {a b c : String} → Reaches m a b → Reaches m b c → Reaches m a c
Reaches-trans r (direct n) = onward r n
Reaches-trans r (onward s n) = onward (Reaches-trans r s) n

-- Where a principal is revoked, every principal whose delegation edges lead to it is revoked as well.
pub revoked-Reaches :
    (dir : Directory) (id a : String)
    → Reaches dir.principals id a
    → revoked dir a ≡ true
    → revoked dir id ≡ true
revoked-Reaches dir id a r h = elim ((revoked_iff dir a).0 h) [
  | inl own ↦ (revoked_iff dir id).1 (inr (a, r, own))
  | inr up ↦ (revoked_iff dir id).1 (inr (up.0, Reaches-trans r up.1, up.2))
]
