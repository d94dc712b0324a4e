-- ===== src/Identity/Admission.antt =====
-- `admit` of crates/decern-identity/src/lib.rs: a verified badge becomes a principal of the graph.
use decern.Base.{
  ℕ, String, Bool, false, ◌&&◌, ◌||◌, not, Option, none, some, List, [], ◌∷◌, ◌++◌, ◌⊎◌, inl, inr,
  map, Bytes,
}
use text.Mathlib.Text.{◌==◌ as str_eq}
use decern.Base.Json.{Json, natural, object, array, string, number, member, end, nil, get, as_array}
use decern.Kernel.Inject.{of_list, entity_ref}
use decern.Kernel.Graph.{Directory}
use decern.Kernel.Load.{
  Model, KernelError, unreadable, graph, schema_or_policy, entities_error, Cedar, new_kernel,
}
use decern.Identity.Errors.{Refusal, IdentityError, Outcome, ok, err, ◌>>=◌, ◌>>◌, refuse_if, ok_or}
use decern.Identity.Badge.{Badge, BadgeSubject, Jose, verify_badge}

-- `v == Some(&text.into())`
abbrev pub is_text : Option Json → String → Bool
is_text (some (string s)) k = str_eq s k
is_text o k = false

abbrev pub uid_is : Option Json → String → Bool
uid_is none id = false
uid_is (some uid) id = is_text (get "type" uid) "Principal" && is_text (get "id" uid) id

unfoldable pub any_principal : List Json → String → Bool
any_principal [] id = false
any_principal (e ∷ entities) id = uid_is (get "uid" e) id || any_principal entities id

-- The members stand in key order.
abbrev pub principal_of : BadgeSubject → String → Json
principal_of s delegator = object (
    member "attrs"
      (object (
        member "delegator" (entity_ref delegator) (
          member "expiry" (number (natural s.expiry)) (
            member "kind" (string s.kind) (
              member "scopes" (array (of_list (map string s.scopes)))
                (member "tenant" (string s.tenant) end))))))
      (member "parents" (array nil) (
        member "uid" (object (member "id" (string s.id) (member "type" (string "Principal") end)))
          end)))

-- An error of the graph is one of the admission.
abbrev pub admission_error : KernelError → IdentityError
admission_error (unreadable violations) = IdentityError.admission
admission_error (graph violations) = IdentityError.admission
admission_error schema_or_policy = IdentityError.model_error
admission_error entities_error = IdentityError.model_error

abbrev pub gate : KernelError ⊎ Directory → Outcome Directory
gate (inl e) = err (admission_error e)
gate (inr dir) = ok dir

abbrev pub with_principal : Model → List Json → Json → Model
with_principal model entities e = record model { entities = array (of_list (entities ++ e ∷ [])) }

module _ (j : Jose) (cedar : Cedar) where
  unfoldable pub admit : Model → Bytes → Bytes → ℕ → Outcome (Model × Badge)
  unfolding any_principal of_list
  admit model jws pinned now = do
    badge ← verify_badge j jws pinned now
    refuse_if (not (str_eq badge.subject.kind "Agent"))
        (IdentityError.subject_invalid (Refusal.kind_of_badge badge.subject.kind))
    delegator ← ok_or badge.subject.delegator (IdentityError.subject_invalid Refusal.no_delegator)
    entities ← ok_or (as_array model.entities) IdentityError.model_error
    refuse_if (any_principal entities badge.subject.id)
        (IdentityError.already_exists badge.subject.id)
    let new_model = with_principal model entities (principal_of badge.subject delegator)
    dir ← gate (new_kernel cedar new_model)
    ok (new_model, badge)
