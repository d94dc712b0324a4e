-- ===== src/Kernel/Load.antt =====
-- `Kernel::new` of crates/decern-kernel/src/lib.rs: the checks that a model passes before it is served.
use decern.Base.{
  String, ◌≡◌, refl, sym, ap, ◌∙◌, Bool, List, [], ◌∷◌, ◌⊎◌, inl, inr, if◌then◌else◌, Bool-cases,
}
use decern.Base.Json.{Json}
use decern.Kernel.Graph.{Directory}
use decern.Kernel.Parse.{ParseViolation, parse}
use decern.Kernel.Validate.{Violation, validate}
use decern.Kernel.Inject.{inject_derived}

pub record Model : Type 0 where
  pub schema : String
  pub policies : String
  pub entities : Json

pub data KernelError : Type 0 where
  schema_or_policy : KernelError
  entities_error : KernelError
  unreadable : List ParseViolation → KernelError
  graph : List Violation → KernelError

-- What cedar-policy decides: whether a schema and the policies over it load, with the contexts that the schema declares, and
-- whether entities conform to a schema.
pub record Cedar : Type 0 where
  pub loads : String → String → Bool
  pub conforms : String → Json → Bool

-- A directory without violations is served when its entities conform.
abbrev pub served : Cedar → Model → Directory → List Violation → KernelError ⊎ Directory
served cedar model dir (v ∷ violations) = inl (graph (v ∷ violations))
served cedar model dir [] =
    if cedar.conforms model.schema (inject_derived dir model.entities)
    then inr dir
    else inl entities_error

pub loaded_kernel : Cedar → Model → List ParseViolation ⊎ Directory → KernelError ⊎ Directory
loaded_kernel cedar model (inl violations) = inl (unreadable violations)
loaded_kernel cedar model (inr dir) = served cedar model dir (validate dir)

-- The directory that the kernel serves.
unfoldable pub new_kernel : Cedar → Model → KernelError ⊎ Directory
unfolding loaded_kernel
new_kernel cedar model =
    if cedar.loads model.schema model.policies
    then loaded_kernel cedar model (parse model.entities)
    else inl schema_or_policy

served-nil :
    (cedar : Cedar) (model : Model) (d dir : Directory) (vs : List Violation)
    → served cedar model d vs ≡ inr dir
    → (d ≡ dir) × (vs ≡ [])
served-nil cedar model d dir (v ∷ vs) q = cc
served-nil cedar model d dir [] q =
    elim (Bool-cases (cedar.conforms model.schema (inject_derived d model.entities))) [
      | inl good ↦ ((let same : d ≡ dir = cc (rw good at q) in same), refl)
      | inr bad ↦ absurd (cc (rw bad at q))
    ]

loaded_kernel-validate :
    (cedar : Cedar) (model : Model) (o : List ParseViolation ⊎ Directory) (dir : Directory)
    → loaded_kernel cedar model o ≡ inr dir
    → (o ≡ inr dir) × (validate dir ≡ [])
unfolding loaded_kernel
loaded_kernel-validate cedar model (inl violations) dir h = cc
loaded_kernel-validate cedar model (inr d) dir h =
    let (same, none_left) = served-nil cedar model d dir (validate d) h in
    (ap inr same, sym (ap validate same) ∙ none_left)

-- A model that loads has entities that parse into a directory without violations.
pub new_kernel-validate :
    (cedar : Cedar) (model : Model) (dir : Directory)
    → new_kernel cedar model ≡ inr dir
    → (parse model.entities ≡ inr dir) × (validate dir ≡ [])
unfolding new_kernel
new_kernel-validate cedar model dir h =
    elim (Bool-cases (cedar.loads model.schema model.policies)) [
      | inl good ↦
          loaded_kernel-validate cedar model (parse model.entities) dir (rw (new_kernel, good) at h)
      | inr bad ↦ absurd (cc (rw (new_kernel, bad) at h))
    ]
