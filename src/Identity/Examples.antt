-- ===== src/Identity/Examples.antt =====
-- A mission and a token under stand-ins that print one badge only, and the properties of the issuer at them.
use decern.Base.{
  ℕ, zero, suc, ◌+◌, ◌==◌, ==_iff, String, ◌≡◌, ◌≢◌, refl, ap, ◌∙◌, Bool, true, false, ◌&&◌, inr,
  arith, Option, none, some, List, [], ◌∷◌, if◌then◌else◌, Bytes, bytes_eq, bytes_eq_refl,
}
use text.Mathlib.Text.{◌==◌ as str_eq}
use decern.Base.Dict.{str_eq_sound}
use decern.Ledger.Merkle.Examples.{fit, length-fit}
use decern.Ledger.Record.{MissionRef}
use decern.Base.Json.{Json, natural, object, array, string, number, member, end, nil, cons}
use decern.Base.Dict.{Dict}
use decern.Base.Int.{pos}
use decern.Kernel.Graph.{PrincipalRec, Directory, revoked}
use decern.Kernel.Parse.{parse}
use decern.Kernel.Validate.{validate}
use decern.Base.Dict.{insert, set_insert}
use decern.Kernel.Inject.{of_list}
use decern.Kernel.Load.{Model, Cedar, new_kernel}
use decern.Store.Missions.{MissionEntry, mission_register}
use decern.Store.Missions.Memory
use decern.Store.Missions.Held.{Changes}
use decern.Identity.Errors.{ok}
use decern.Identity.Admission.{principal_of, admit}
use decern.Identity.Exchange.{
  ExchangeRequest, Exchanged, exchange, delegator_attrs, principal_attrs, clamp_delegation, held,
  reserved_subject_id_prefix,
}
use decern.Identity.Exchange.Attenuated.{Attenuated, exchange-Attenuated}
use decern.Identity.Mission.{
  ApprovedMission, memory, mission_request, issue_under_mission, terminate_mission, active, Blobs,
  entry_of, approve, check_mission,
}
use decern.Identity.Mission.Approval.{Approved, approve-Approved}
use decern.Identity.Mission.Ceiling.{
  UnderCeiling, issue_under_mission-UnderCeiling, terminate_mission-issue_under_mission,
}
use decern.Identity.Badge.{
  sign_compact, hex_encode, issue, verify_signature, verify_badge, check_times,
}
use decern.Identity.Badge.Signed.{verify_signature-issue}
use decern.Identity.Badge.{
  Badge, BadgeSubject, Jose, CredentialSchema, jws_alg, jws_typ, vc_context, badge_type,
}
use decern.Identity.Badge.Segments.{IsSegment}
use decern.Identity.Badge.Signed.{JoseLaws}

abbrev unary : ℕ → Bytes → Bytes
unary zero rest = 98 ∷ rest
unary (suc n) rest = 97 ∷ unary n rest

abbrev encode : Bytes → Bytes
encode [] = []
encode (b ∷ bs) = unary b (encode bs)

abbrev cons_some : ℕ → Option Bytes → Option Bytes
cons_some n none = none
cons_some n (some bs) = some (n ∷ bs)

abbrev count : ℕ → Bytes → Option Bytes
count n [] = some []
count n (b ∷ bs) = if b == 97 then count (suc n) bs else cons_some n (count 0 bs)

count-unary : (n k : ℕ) (rest : Bytes) → count k (unary n rest) ≡ cons_some (k + n) (count 0 rest)
count-unary zero k rest = ap (λ x. cons_some x (count 0 rest)) (omega arith)
count-unary (suc n) k rest =
    count-unary n (suc k) rest
    ∙ ap (λ x. cons_some x (count 0 rest)) (let e : suc k + n ≡ k + suc n = omega arith in e)

count-encode : (b : Bytes) → count 0 (encode b) ≡ some b
count-encode [] = refl
count-encode (x ∷ b) =
    count-unary x 0 (encode b)
    ∙ ap (λ n. cons_some n (count 0 (encode b))) (let e : 0 + x ≡ x = omega arith in e)
    ∙ ap (cons_some x) (count-encode b)

unary-IsSegment : (n : ℕ) (rest : Bytes) → IsSegment rest → IsSegment (unary n rest)
unary-IsSegment zero rest h = (((omega arith, omega arith), λ e. absurd (omega (arith, e))), h)
unary-IsSegment (suc n) rest h =
    (((omega arith, omega arith), λ e. absurd (omega (arith, e))), unary-IsSegment n rest h)

encode-IsSegment : (b : Bytes) → IsSegment (encode b)
encode-IsSegment [] = tt
encode-IsSegment (x ∷ b) = unary-IsSegment x (encode b) (encode-IsSegment b)

abbrev texts_eq : List String → List String → Bool
texts_eq [] [] = true
texts_eq [] (b ∷ bs) = false
texts_eq (a ∷ xs) [] = false
texts_eq (a ∷ xs) (b ∷ bs) = str_eq a b && texts_eq xs bs

and_true : (a b : Bool) → (a && b) ≡ true → (a ≡ true) × (b ≡ true)
and_true true true h = (refl, refl)
and_true true false h = cc
and_true false b h = cc

texts_eq_sound : (a b : List String) → texts_eq a b ≡ true → a ≡ b
texts_eq_sound [] [] h = refl
texts_eq_sound [] (b ∷ bs) h = cc
texts_eq_sound (a ∷ xs) [] h = cc
texts_eq_sound (a ∷ xs) (b ∷ bs) h =
    let (p, q) = and_true (str_eq a b) (texts_eq xs bs) h in
    ap (λ x. x ∷ xs) (str_eq_sound a b p) ∙ ap (λ l. b ∷ l) (texts_eq_sound xs bs q)

abbrev option_texts : Option String → List String
option_texts none = []
option_texts (some s) = s ∷ []

option_texts_inj : (a b : Option String) → option_texts a ≡ option_texts b → a ≡ b
option_texts_inj none none h = refl
option_texts_inj none (some s) h = cc
option_texts_inj (some s) none h = cc
option_texts_inj (some s) (some t) h = cc

abbrev mission_texts : Option MissionRef → List String
mission_texts none = []
mission_texts (some m) = m.approver ∷ m.s256 ∷ []

abbrev ref : MissionRef
ref = record { approver = "ann"; s256 = "m" }

mission_sound :
    (o : Option MissionRef) → texts_eq ("ann" ∷ "m" ∷ []) (mission_texts o) ≡ true → some ref ≡ o
mission_sound none h = cc
mission_sound (some m) h =
    let (p, q) = and_true (str_eq "ann" m.approver) _ h in
    let (p', q') = and_true (str_eq "m" m.s256) _ q in
    ap some (
      ap (λ (a : String). record { approver = a; s256 = "m" }) (str_eq_sound "ann" m.approver p)
      ∙ ap (λ (s : String). record { approver = m.approver; s256 = s })
          (str_eq_sound "m" m.s256 p'))

abbrev is_none {ℓ} : {A : Type ℓ} → Option A → Bool
is_none none = true
is_none (some a) = false

is_none_sound {ℓ} : {A : Type ℓ} (o : Option A) → is_none o ≡ true → none ≡ o
is_none_sound none h = refl
is_none_sound (some a) h = cc

abbrev subject_of :
    String → String → String → List String → Option String → ℕ → Option String → BadgeSubject
subject_of i k t s d e a = record {
  id = i;
  kind = k;
  tenant = t;
  scopes = s;
  delegator = d;
  expiry = e;
  aud = a;
}

abbrev badge_of :
    List String
    → Option String
    → List String
    → String
    → ℕ
    → ℕ
    → BadgeSubject
    → Option MissionRef
    → Badge
badge_of c i t iss from until s m = record {
  context = c;
  id = i;
  types = t;
  issuer = iss;
  valid_from = from;
  valid_until = until;
  subject = s;
  credential_schema = none;
  mission = m;
}

abbrev the_subject : BadgeSubject
the_subject = subject_of "bot" "Agent" "t" ("read" ∷ []) (some "ann") 50 none

abbrev the_badge : Badge
the_badge =
    badge_of (vc_context ∷ []) (some "urn:decern:token:bot")
      ("VerifiableCredential" ∷ badge_type ∷ []) "did:decern:issuer" 10 50 the_subject (some ref)

abbrev is_subject : BadgeSubject → Bool
is_subject s =
    str_eq "bot" s.id
    && (str_eq "Agent" s.kind
        && (str_eq "t" s.tenant
            && (texts_eq ("read" ∷ []) s.scopes
                && (texts_eq ("ann" ∷ []) (option_texts s.delegator)
                    && ((50 == s.expiry) && is_none s.aud)))))

is_subject_sound : (s : BadgeSubject) → is_subject s ≡ true → the_subject ≡ s
is_subject_sound s h =
    let (a, h1) = and_true (str_eq "bot" s.id) _ h in
    let (b, h2) = and_true (str_eq "Agent" s.kind) _ h1 in
    let (d, h3) = and_true (str_eq "t" s.tenant) _ h2 in
    let (e, h4) = and_true (texts_eq ("read" ∷ []) s.scopes) _ h3 in
    let (f, h5) = and_true (texts_eq ("ann" ∷ []) (option_texts s.delegator)) _ h4 in
    let (g, i) = and_true (50 == s.expiry) (is_none s.aud) h5 in
    ap (λ x. subject_of x "Agent" "t" ("read" ∷ []) (some "ann") 50 none)
      (str_eq_sound "bot" s.id a)
    ∙ ap (λ x. subject_of s.id x "t" ("read" ∷ []) (some "ann") 50 none)
        (str_eq_sound "Agent" s.kind b)
    ∙ ap (λ x. subject_of s.id s.kind x ("read" ∷ []) (some "ann") 50 none)
        (str_eq_sound "t" s.tenant d)
    ∙ ap (λ x. subject_of s.id s.kind s.tenant x (some "ann") 50 none)
        (texts_eq_sound ("read" ∷ []) s.scopes e)
    ∙ ap (λ x. subject_of s.id s.kind s.tenant s.scopes x 50 none)
        (option_texts_inj (some "ann") s.delegator
          (texts_eq_sound ("ann" ∷ []) (option_texts s.delegator) f))
    ∙ ap (λ x. subject_of s.id s.kind s.tenant s.scopes s.delegator x none)
        ((==_iff 50 s.expiry).0 g)
    ∙ ap (λ x. subject_of s.id s.kind s.tenant s.scopes s.delegator s.expiry x)
        (is_none_sound s.aud i)

abbrev is_badge : Badge → Bool
is_badge b =
    texts_eq (vc_context ∷ []) b.context
    && (texts_eq ("urn:decern:token:bot" ∷ []) (option_texts b.id)
        && (texts_eq ("VerifiableCredential" ∷ badge_type ∷ []) b.types
            && (str_eq "did:decern:issuer" b.issuer
                && ((10 == b.valid_from)
                    && ((50 == b.valid_until)
                        && (is_subject b.subject
                            && (texts_eq ("ann" ∷ "m" ∷ []) (mission_texts b.mission)
                                && is_none b.credential_schema)))))))

is_badge_sound : (b : Badge) → is_badge b ≡ true → the_badge ≡ b
is_badge_sound b h =
    let (a, h1) = and_true (texts_eq (vc_context ∷ []) b.context) _ h in
    let (d, h2) = and_true (texts_eq ("urn:decern:token:bot" ∷ []) (option_texts b.id)) _ h1 in
    let (e, h3) = and_true (texts_eq ("VerifiableCredential" ∷ badge_type ∷ []) b.types) _ h2 in
    let (f, h4) = and_true (str_eq "did:decern:issuer" b.issuer) _ h3 in
    let (g, h5) = and_true (10 == b.valid_from) _ h4 in
    let (i, h6) = and_true (50 == b.valid_until) _ h5 in
    let (k, h7) = and_true (is_subject b.subject) _ h6 in
    let (l, m) =
      and_true (texts_eq ("ann" ∷ "m" ∷ []) (mission_texts b.mission)) (is_none b.credential_schema)
        h7 in
    ap
      (λ x.
        badge_of x (some "urn:decern:token:bot") ("VerifiableCredential" ∷ badge_type ∷ [])
          "did:decern:issuer" 10 50 the_subject (some ref))
      (texts_eq_sound _ b.context a)
    ∙ ap
        (λ x.
          badge_of b.context x ("VerifiableCredential" ∷ badge_type ∷ []) "did:decern:issuer" 10 50
            the_subject (some ref))
        (option_texts_inj (some "urn:decern:token:bot") b.id
          (texts_eq_sound _ (option_texts b.id) d))
    ∙ ap (λ x. badge_of b.context b.id x "did:decern:issuer" 10 50 the_subject (some ref))
        (texts_eq_sound _ b.types e)
    ∙ ap (λ x. badge_of b.context b.id b.types x 10 50 the_subject (some ref))
        (str_eq_sound "did:decern:issuer" b.issuer f)
    ∙ ap (λ x. badge_of b.context b.id b.types b.issuer x 50 the_subject (some ref))
        ((==_iff 10 b.valid_from).0 g)
    ∙ ap (λ x. badge_of b.context b.id b.types b.issuer b.valid_from x the_subject (some ref))
        ((==_iff 50 b.valid_until).0 i)
    ∙ ap (λ x. badge_of b.context b.id b.types b.issuer b.valid_from b.valid_until x (some ref))
        (is_subject_sound b.subject k)
    ∙ ap (λ x. badge_of b.context b.id b.types b.issuer b.valid_from b.valid_until b.subject x)
        (mission_sound b.mission l)
    ∙ ap (λ (x : Option (List CredentialSchema)). record b { credential_schema = x })
        (is_none_sound b.credential_schema m)

abbrev jose : Jose
jose = record {
  b64url_encode = encode;
  b64url_decode = count 0;
  verifying_key = λ k. k;
  sign = λ key message. fit 64 key;
  verify_strict = λ key message sig. bytes_eq sig (fit 64 key);
  print_header = λ h. h.kid;
  parse_header = λ b. some (record { alg = jws_alg; typ = jws_typ; kid = b });
  print_badge = λ b. if is_badge b then some [] else none;
  parse_badge = λ b. some the_badge;
}

badge_printed :
    (b : Badge) (t : Bool) (p : Bytes)
    → is_badge b ≡ t
    → (if t then some [] else none) ≡ some p
    → the_badge ≡ b
badge_printed b true p e h = is_badge_sound b e
badge_printed b false p e h = cc

jose_laws : JoseLaws jose
jose_laws = record {
  b64url_inverse = count-encode;
  b64url_alphabet = encode-IsSegment;
  header_inverse = λ kid. refl;
  badge_inverse = λ b p h. ap some (badge_printed b (is_badge b) p refl h);
  signature_size = λ key message. length-fit 64 key;
  signature_verifies = λ key message. bytes_eq_refl (fit 64 key);
}

abbrev ann_entity : Json
ann_entity = object (
    member "attrs"
      (object (
        member "expiry" (number (natural 90)) (
          member "kind" (string "Human") (
            member "scopes" (array (cons (string "read") (cons (string "write") nil)))
              (member "tenant" (string "t") end)))))
      (member "parents" (array nil) (
        member "uid" (object (member "id" (string "ann") (member "type" (string "Principal") end)))
          end)))

abbrev model : Model
model = record { schema = ""; policies = ""; entities = array (cons ann_entity nil) }

abbrev after : Model
after = record {
  schema = "";
  policies = "";
  entities = array (cons ann_entity (cons (principal_of the_subject "ann") nil));
}

abbrev cedar : Cedar
cedar = record { loads = λ s p. true; conforms = λ s e. true }

abbrev principal : String → String → ℕ → List String → Option String → PrincipalRec
principal id kind expiry scopes delegator = record {
  id = id;
  kind = kind;
  tenant = "t";
  expiry = pos expiry;
  scopes = scopes;
  delegator = delegator;
  org = none;
  roles = [];
  jurisdictions = [];
  revoked = false;
}

abbrev dir : Directory
dir = record {
  principals =
      ("ann", principal "ann" "Human" 90 ("read" ∷ "write" ∷ []) none)
      ∷ ("bot", principal "bot" "Agent" 50 ("read" ∷ []) (some "ann"))
      ∷ [];
  resources = [];
  orgs = [];
}

served_after : new_kernel cedar after ≡ inr dir
unfolding new_kernel parse validate insert set_insert of_list
served_after = refl

abbrev key : Bytes
key = 7 ∷ []

abbrev token : Bytes
token = sign_compact jose jws_typ (hex_encode key) [] key

issued : issue jose the_badge key ≡ ok token
unfolding issue
issued = refl

verified : verify_badge jose token key 10 ≡ ok the_badge
unfolding verify_badge check_times
verified =
    rw (verify_badge, verify_signature-issue jose jose_laws the_badge key token issued refl) refl

admitted : admit jose cedar model token key 10 ≡ ok (after, the_badge)
unfolding admit
admitted = rw (admit, verified, served_after) refl

abbrev m : ApprovedMission
m = record {
  mission = record {
    approver = "ann";
    agent = "bot";
    approved_at = 5;
    description = "";
    approved_tools = "read" ∷ [];
    capabilities = [];
    expiry = 50;
  };
  state = active;
  s256 = "m";
  blob = [];
}

abbrev store : Dict MissionEntry
store =
    (
      "m",
      record {
        approver = "ann";
        expiry = 50;
        terminated = false;
        agent = "bot";
        approved_tools = "read" ∷ [];
      },
    )
    ∷ []

abbrev req : ExchangeRequest
req = mission_request m "bot" ("read" ∷ "pay" ∷ []) 10

abbrev ex : Exchanged
ex = record { token = token; badge = the_badge; model = after }

exchanged : exchange jose cedar model req key [] ≡ ok ex
unfolding exchange delegator_attrs clamp_delegation held reserved_subject_id_prefix
exchanged = rw (exchange, issued, admitted) refl

minted_under :
    issue_under_mission memory jose cedar model m "bot" ("read" ∷ "pay" ∷ []) 10 key store ≡ ok ex
unfolding issue_under_mission reserved_subject_id_prefix Memory.status
minted_under = rw (issue_under_mission, exchanged) refl

verify_signature-issue_example : verify_signature jose token key ≡ ok the_badge
verify_signature-issue_example =
    verify_signature-issue jose jose_laws the_badge key token issued refl

exchange-Attenuated_example : Attenuated jose cedar model req [] the_badge after
exchange-Attenuated_example = exchange-Attenuated jose cedar jose_laws model req key [] ex exchanged

issue_under_mission-UnderCeiling_example :
    UnderCeiling memory jose cedar model m "bot" ("read" ∷ "pay" ∷ []) 10 store ex
issue_under_mission-UnderCeiling_example =
    issue_under_mission-UnderCeiling memory jose cedar jose_laws model m "bot" ("read" ∷ "pay" ∷ [])
      10 key store ex minted_under

-- The mission is ended, and then approved again.
abbrev later_store : Dict MissionEntry
later_store =
    (Memory.register (terminate_mission memory m 20 store).2 "m" (entry_of m.mission) 25).1

terminate_mission-issue_under_mission_example :
    issue_under_mission memory jose cedar model m "bot" ("read" ∷ []) 30 key later_store ≢ ok ex
terminate_mission-issue_under_mission_example =
    terminate_mission-issue_under_mission jose cedar model m m
      (record {
        approver = "ann";
        expiry = 50;
        terminated = false;
        agent = "bot";
        approved_tools = "read" ∷ [];
      })
      store later_store "bot" ("read" ∷ []) 20 30 key ex refl (omega arith)
      (Changes.registers "m" (entry_of m.mission) 25 (omega arith) (Changes.nothing later_store))
      refl

abbrev blobs : Blobs
blobs = record { print_mission = λ x. some []; digest_text = λ b. "m" }

approved_in_memory : approve memory blobs after m.mission 10 [] ≡ (ok m, store)
unfolding approve check_mission delegator_attrs principal_attrs parse insert set_insert of_list
    revoked Memory.register mission_register
approved_in_memory = refl

approve-Approved_example : Approved blobs after m.mission 10 [] m store
approve-Approved_example = approve-Approved blobs after m.mission 10 [] m store approved_in_memory
