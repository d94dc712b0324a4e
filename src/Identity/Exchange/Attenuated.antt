-- ===== src/Identity/Exchange/Attenuated.antt =====
-- What an exchange mints is inside the authority of the delegator, and the graph with it is still attenuated.
use decern.Base.{
  ℕ, ◌≤◌, ◌-◌, ◌^◌, ltb, String, ◌≡◌, refl, sym, ap, ◌∙◌, subst, true, false, not, Bool-cases, inl,
  inr, arith, some, List, [], ◌∷◌, ◌⊎◌, Among, here, there, Bytes,
}
use text.Mathlib.Text.{◌==◌ as str_eq}
use decern.Base.Dict.{contains, contains-Among}
use decern.Base.Json.{as_array}
use decern.Kernel.Graph.{Directory}
use decern.Kernel.Parse.{parse}
use decern.Kernel.Validate.{validate}
use decern.Kernel.Load.{Model, Cedar, KernelError, new_kernel, new_kernel-validate}
use decern.Identity.Errors.{
  Refusal, IdentityError, Outcome, ok, err, ok_or, >>=-eq-ok, refuse_if-eq-ok, ok_or-eq-ok,
}
use decern.Identity.Badge.{Jose, Badge, issue, verify_signature, verify_badge, check_times}
use decern.Identity.Badge.Signed.{JoseLaws, verify_signature-issue}
use decern.Identity.Admission.{admit, gate, with_principal, principal_of, any_principal}
use decern.Identity.Exchange.{
  ExchangeRequest, Exchanged, exchange, minted, clamp_delegation, held, delegator_attrs, forges,
  unvouched, reserved_subject_id_prefix,
}

pub held-Among :
    (del_scopes requested : List String) (s : String)
    → Among s (held del_scopes requested)
    → Among s requested × Among s del_scopes
unfolding held
held-Among del_scopes [] s h = elim h [ ]
held-Among del_scopes (r ∷ requested) s h =
    go (Bool-cases (contains r del_scopes)) (held-Among del_scopes requested s) h
  where
    go :
        (contains r del_scopes ≡ true) ⊎ (contains r del_scopes ≡ false)
        → (Among s (held del_scopes requested) → Among s requested × Among s del_scopes)
        → Among s (held del_scopes (r ∷ requested))
        → Among s (r ∷ requested) × Among s del_scopes
    go (inl keep) ih h = elim (rw keep at h) [
      | here e ↦
          (here e, subst (λ t. Among t del_scopes) (sym e) (contains-Among r del_scopes keep))
      | there k ↦ (there (ih k).0, (ih k).1)
    ]
    go (inr cut) ih h = let (a, b) = ih (rw cut at h) in (there a, b)

module _ (j : Jose) (cedar : Cedar) where
  record Admitted (model : Model) (jws pinned : Bytes) (now : ℕ) (model' : Model) (badge : Badge)
      : Type 0 where
    verified : verify_badge j jws pinned now ≡ ok badge
    dir : Directory
    parsed : parse model'.entities ≡ inr dir
    valid : validate dir ≡ []

  gate-ok : (o : KernelError ⊎ Directory) (dir : Directory) → gate o ≡ ok dir → o ≡ inr dir
  gate-ok (inl e) dir h = cc
  gate-ok (inr d) dir h = (let same : d ≡ dir = cc h in ap inr same)

  admit-Admitted :
      (model : Model) (jws pinned : Bytes) (now : ℕ) (model' : Model) (badge : Badge)
      → admit j cedar model jws pinned now ≡ ok (model', badge)
      → Admitted model jws pinned now model' badge
  unfolding admit
  admit-Admitted model jws pinned now model' badge h =
      let (b, verified, h1) = >>=-eq-ok (verify_badge j jws pinned now) _ h in
      let (agent, h2) = refuse_if-eq-ok (not (str_eq b.subject.kind "Agent")) _ _ h1 in
      let (delegator, some_delegator, h3) = >>=-eq-ok (ok_or b.subject.delegator _) _ h2 in
      let (entities, listed, h4) = >>=-eq-ok (ok_or (as_array model.entities) _) _ h3 in
      let (absent, h5) = refuse_if-eq-ok (any_principal entities b.subject.id) _ _ h4 in
      let new_model = with_principal model entities (principal_of b.subject delegator) in
      let (dir, served, h6) = >>=-eq-ok (gate (new_kernel cedar new_model)) _ h5 in
      let (parsed, valid) = new_kernel-validate cedar new_model dir (gate-ok _ dir served) in
      let same_model : new_model ≡ model' =
        ap (λ (o : Outcome (Model × Badge)). elim o as (λ _. Model) [ err e ↦ model | ok x ↦ x.0 ])
          h6 in
      let same_badge : b ≡ badge =
        ap (λ (o : Outcome (Model × Badge)). elim o as (λ _. Badge) [ err e ↦ b | ok x ↦ x.1 ])
          h6 in
      record {
        verified = verified ∙ ap ok same_badge;
        dir = dir;
        parsed = ap (λ (m : Model). parse m.entities) (sym same_model) ∙ parsed;
        valid = valid;
      }

  -- The authority of the badge against that of the delegator, as the model names it.
  pub record Attenuated (model : Model) (req : ExchangeRequest) (allowed : List String)
      (badge : Badge) (after : Model) : Type 0 where
    pub tenant : String
    pub expiry : ℕ
    pub scopes : List String
    pub held_by : delegator_attrs model req.delegator_id ≡ some (tenant, expiry, scopes)
    pub delegated_by : badge.subject.delegator ≡ some req.delegator_id
    pub same_tenant : badge.subject.tenant ≡ tenant
    pub scopes_held :
        (s : String) → Among s badge.subject.scopes → Among s req.requested_scopes × Among s scopes
    pub expires : (badge.subject.expiry ≤ req.requested_expiry) × (badge.subject.expiry ≤ expiry)
    pub entitled : forges (reserved_subject_id_prefix badge.subject.id) allowed ≡ false
    pub vouched : unvouched badge.mission req.delegator_id ≡ false
    pub under_mission : badge.mission ≡ req.mission
    pub named : badge.subject.id ≡ req.sub_agent_id
    pub dir : Directory
    pub parsed : parse after.entities ≡ inr dir
    pub valid : validate dir ≡ []

  module _ (laws : JoseLaws j) where
    check_times-ok : (b badge : Badge) (now : ℕ) → check_times j b now ≡ ok badge → b ≡ badge
    unfolding check_times
    check_times-ok b badge now h =
        let (a1, h1) = refuse_if-eq-ok (ltb now b.valid_from) _ _ h in
        let (a2, h2) = refuse_if-eq-ok (ltb b.valid_until now) _ _ h1 in
        let (a3, h3) = refuse_if-eq-ok (ltb b.valid_until b.subject.expiry) _ _ h2 in
        let (a4, h4) =
          refuse_if-eq-ok (ltb (2 ^ 63 - 1) b.subject.expiry)
            (IdentityError.subject_invalid (Refusal.unrepresentable b.subject.expiry)) (ok b) h3 in
        cc h4

    -- A badge verified from a token that its issuer made is the badge issued.
    verify_badge-issue :
        (issued badge : Badge) (key token : Bytes) (now : ℕ)
        → issue j issued key ≡ ok token
        → contains "AgentBadge" issued.types ≡ true
        → verify_badge j token (j.verifying_key key) now ≡ ok badge
        → issued ≡ badge
    unfolding verify_badge
    verify_badge-issue issued badge key token now made typed h =
        let (b, signed, times) = >>=-eq-ok (verify_signature j token (j.verifying_key key)) _ h in
        let same : ok issued ≡ ok b =
          sym (verify_signature-issue j laws issued key token made typed) ∙ signed in
        (let e : issued ≡ b = cc same in e) ∙ check_times-ok b badge now times

    -- A badge that an exchange mints names the delegator and its tenant, has only scopes that were requested and that the
    -- delegator holds, and expires no later than was requested and than the delegator does. Its subject is under no reserved
    -- prefix but one that the path may mint, its mission is the delegator's own, and the graph with
    -- the new principal has no violations.
    pub exchange-Attenuated :
        (model : Model) (req : ExchangeRequest) (key : Bytes) (allowed : List String)
        (ex : Exchanged)
        → exchange j cedar model req key allowed ≡ ok ex
        → Attenuated model req allowed ex.badge ex.model
    unfolding exchange clamp_delegation
    exchange-Attenuated model req key allowed ex h =
        let (entitled, h1) =
          refuse_if-eq-ok (forges (reserved_subject_id_prefix req.sub_agent_id) allowed) _ _ h in
        let (vouched, h2) = refuse_if-eq-ok (unvouched req.mission req.delegator_id) _ _ h1 in
        let (del, known, h3) = >>=-eq-ok (ok_or (delegator_attrs model req.delegator_id) _) _ h2 in
        let clamped = clamp_delegation del.2 del.1 req.requested_scopes req.requested_expiry in
        let (token, made, h4) = >>=-eq-ok (issue j (minted req del.0 clamped) key) _ h3 in
        let (admitted, let_in, h5) =
          >>=-eq-ok (admit j cedar model token (j.verifying_key key) req.now) _ h4 in
        let same : record { token = token; badge = admitted.1; model = admitted.0 } ≡ ex = cc h5 in
        let a =
          admit-Admitted model token (j.verifying_key key) req.now admitted.0 admitted.1 let_in in
        let it =
          verify_badge-issue (minted req del.0 clamped) admitted.1 key token req.now made refl
            a.verified in
        subst (λ (x : Exchanged). Attenuated model req allowed x.badge x.model) same
          (subst (λ b. Attenuated model req allowed b admitted.0) it
            (record {
              tenant = del.0;
              expiry = del.1;
              scopes = del.2;
              held_by = ok_or-eq-ok _ _ known;
              delegated_by = refl;
              same_tenant = refl;
              scopes_held = held-Among del.2 req.requested_scopes;
              expires = (omega arith, omega arith);
              entitled = entitled;
              vouched = vouched;
              under_mission = refl;
              named = refl;
              dir = a.dir;
              parsed = a.parsed;
              valid = a.valid;
            }))
