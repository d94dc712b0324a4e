-- ===== src/Kernel/Graph.antt =====
-- crates/decern-kernel/src/graph.rs: the directory of principals, resources and organizations, and the
-- walks over its delegation edges.
pub mod Ancestors
use decern.Base.{
  ℕ, zero, suc, ◌+◌, String, ◌≡◌, Bool, true, false, ◌&&◌, ◌||◌, not, Option, none, some, List, [],
  ◌∷◌, ◌++◌, if◌then◌else◌, length,
}
use text.Mathlib.Text.{◌==◌ as str_eq}
use decern.Base.Dict.{Dict, lookup, values, contains}
use decern.Base.Int.{ℤ}

pub record PrincipalRec : Type 0 where
  pub id : String
  pub kind : String
  pub tenant : String
  pub expiry : ℤ
  pub scopes : List String
  pub delegator : Option String
  pub org : Option String
  pub roles : List String
  pub jurisdictions : List String
  pub revoked : Bool

pub record ResourceRec : Type 0 where
  pub id : String
  pub owner : String
  pub tenant : String
  pub org : Option String
  pub sensitivity : Option String
  pub residency : Option String
  pub viewers : List String

abbrev pub reserved_tenant : String
reserved_tenant = "__system__"

pub record OrgRec : Type 0 where
  pub id : String
  pub tenant : String
  pub parent : Option String

pub record Directory : Type 0 where
  pub principals : Dict PrincipalRec
  pub resources : Dict ResourceRec
  pub orgs : Dict OrgRec

-- The walk of `first_cycle_id`: `seen` holds the identifiers so far, and each step adds one.
unfoldable pub cycle_loop {ℓ} :
    {N : Type ℓ} → ℕ → (N → Option String) → Dict N → List String → N → Option String
cycle_loop zero next_of nodes seen cur = none
cycle_loop (suc fuel) next_of nodes seen cur = elim (next_of cur) [
  | none ↦ none
  | some next ↦
      let walked : Option String = elim (lookup next nodes) [
        | none ↦ none
        | some node ↦ cycle_loop fuel next_of nodes (next ∷ seen) node
      ] in
      if contains next seen then some next else walked
]

-- The first identifier that the walk from `start` meets twice. A walk visits each node once at most.
unfoldable pub first_cycle_id {ℓ} :
    {N : Type ℓ} → (N → String) → (N → Option String) → Dict N → N → Option String
unfolding cycle_loop
first_cycle_id id_of next_of nodes start =
    cycle_loop (suc (length nodes)) next_of nodes (id_of start ∷ []) start

-- The loop of `ancestors_of`; what it has collected is the result wherever it stops.
pub ancestors_loop :
    ℕ → Dict PrincipalRec → List String → List String → Option PrincipalRec → List String
ancestors_loop zero principals seen out cur = out
ancestors_loop (suc fuel) principals seen out none = out
ancestors_loop (suc fuel) principals seen out (some p) = elim p.delegator [
  | none ↦ out
  | some d ↦
      let rest = ancestors_loop fuel principals (d ∷ seen) (out ++ d ∷ []) (lookup d principals) in
      if contains d seen then out else rest
]

-- Every round but the last marks another principal as seen.
unfoldable pub ancestors_of : Directory → String → List String
unfolding ancestors_loop
ancestors_of dir id =
    ancestors_loop (suc (length dir.principals)) dir.principals (id ∷ []) []
      (lookup id dir.principals)

-- A principal whose own record says that it is revoked.
pub authored : Directory → String → Bool
authored dir p = elim (lookup p dir.principals) [ none ↦ false | some r ↦ r.revoked ]

pub any_authored : Directory → List String → Bool
any_authored dir [] = false
any_authored dir (a ∷ ids) = authored dir a || any_authored dir ids

unfoldable pub revoked : Directory → String → Bool
unfolding ancestors_of authored any_authored
revoked dir id = authored dir id || any_authored dir (ancestors_of dir id)

unfoldable pub contains_principal : Directory → String → Bool
contains_principal dir id = elim (lookup id dir.principals) [ none ↦ false | some r ↦ true ]
