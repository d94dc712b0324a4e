-- ===== src/Identity/Errors.antt =====
-- The errors of crates/decern-identity/src/lib.rs, with the values that their messages show.
use decern.Base.{ℕ, String, Bool, true, false, Option, none, some, ◌≡◌, refl}
use decern.Store.Missions.{StoreError}

pub data Malformed : Type 0 where
  segments header_b64 header signature_b64 signature_length payload_b64 payload not_a_badge
        unprintable :
      Malformed
  unexpected_typ : String → Malformed

pub data Refusal : Type 0 where
  outlives unrepresentable : ℕ → Refusal
  kind_of_badge : String → Refusal
  no_delegator self_approval revoked_approver foreign_agent : Refusal
  reserved_prefix no_principal tool_not_held : String → Refusal
  approver_mismatch mission_outlives mission_expired : Refusal
  mission_terminated unregistered registered_terminated registered_approver registered_differs :
      Refusal

pub data IdentityError : Type 0 where
  malformed : Malformed → IdentityError
  alg_rejected : String → IdentityError
  pubkey_mismatch bad_signature : IdentityError
  not_yet_valid expired : ℕ → ℕ → IdentityError
  subject_invalid : Refusal → IdentityError
  already_exists : String → IdentityError
  admission model_error : IdentityError
  registry : StoreError → IdentityError

pub data Outcome {ℓ} (A : Type ℓ) : Type ℓ where
  ok : A → Outcome A
  err : IdentityError → Outcome A

infixl 5 ◌>>=◌
abbrev pub ◌>>=◌ {ℓ κ} : {A : Type ℓ} {B : Type κ} → Outcome A → (A → Outcome B) → Outcome B
err e >>= next = err e
ok a >>= next = next a

-- `if test { return Err(e) }`
abbrev pub refuse_if : Bool → IdentityError → Outcome (Unit {0})
refuse_if true e = err e
refuse_if false e = ok tt

infixl 5 ◌>>◌
abbrev pub ◌>>◌ {ℓ} : {B : Type ℓ} → Outcome (Unit {0}) → Outcome B → Outcome B
check >> rest = check >>= λ u. rest

-- `ok_or_else`
abbrev pub ok_or {ℓ} : {A : Type ℓ} → Option A → IdentityError → Outcome A
ok_or none e = err e
ok_or (some a) e = ok a

pub >>=-eq-ok {ℓ κ} :
    {A : Type ℓ} {B : Type κ} (first : Outcome A) (next : A → Outcome B) {result : B}
    → (first >>= next) ≡ ok result
    → (value : A) × (first ≡ ok value) × (next value ≡ ok result)
>>=-eq-ok (err e) next h = cc
>>=-eq-ok (ok a) next h = (a, refl, h)

pub refuse_if-eq-ok {ℓ} :
    {B : Type ℓ} (test : Bool) (e : IdentityError) (m : Outcome B) {b : B}
    → (refuse_if test e >> m) ≡ ok b
    → (test ≡ false) × (m ≡ ok b)
refuse_if-eq-ok true e m h = cc
refuse_if-eq-ok false e m h = (refl, h)

pub ok_or-eq-ok {ℓ} :
    {A : Type ℓ} (o : Option A) (e : IdentityError) {a : A} → ok_or o e ≡ ok a → o ≡ some a
ok_or-eq-ok none e h = cc
ok_or-eq-ok (some x) e h = cc
