-- ===== src/Identity/Badge.antt =====
-- crates/decern-identity/src/lib.rs: badges, signed as compact JWS and verified against a pinned key.
pub mod Segments
pub mod Signed
use decern.Base.{
  ℕ, suc, ◌+◌, ◌-◌, ◌*◌, ◌/◌, ◌%◌, ◌^◌, ◌==◌, ltb, String, Bool, true, false, ◌&&◌, ◌||◌, not,
  Option, none, some, List, [], ◌∷◌, ◌++◌, if◌then◌else◌, length, Bytes, bytes_eq,
}
use text.Mathlib.Text.{◌==◌ as str_eq}
use decern.Base.Dict.{contains}
use decern.Ledger.Record.{MissionRef}
use decern.Ledger.Verify.{is_space, is_space_two, is_space_three, is_blank}
use decern.Identity.Errors.{
  Malformed, Refusal, IdentityError, Outcome, ok, err, ◌>>=◌, ◌>>◌, refuse_if, ok_or,
}

abbrev pub jws_alg : String
jws_alg = "EdDSA"

abbrev pub jws_typ : String
jws_typ = "vc+jwt"

abbrev pub vc_context : String
vc_context = "https://www.w3.org/ns/credentials/v2"

abbrev pub badge_type : String
badge_type = "AgentBadge"

pub record JwsHeader : Type 0 where
  pub alg : String
  pub typ : String
  pub kid : Bytes

pub record CredentialSchema : Type 0 where
  pub id : String
  pub schema_type : String

pub record BadgeSubject : Type 0 where
  pub id : String
  pub kind : String
  pub tenant : String
  pub scopes : List String
  pub delegator : Option String
  pub expiry : ℕ
  pub aud : Option String

pub record Badge : Type 0 where
  pub context : List String
  pub id : Option String
  pub types : List String
  pub issuer : String
  pub valid_from : ℕ
  pub valid_until : ℕ
  pub subject : BadgeSubject
  pub credential_schema : Option (List CredentialSchema)
  pub mission : Option MissionRef

-- What the code calls in base64 (the URL alphabet), serde_json and decern-crypto's Ed25519. A header always prints.
pub record Jose : Type 0 where
  pub b64url_encode : Bytes → Bytes
  pub b64url_decode : Bytes → Option Bytes
  pub verifying_key : Bytes → Bytes
  pub sign : Bytes → Bytes → Bytes
  pub verify_strict : Bytes → Bytes → Bytes → Bool
  pub print_header : JwsHeader → Bytes
  pub parse_header : Bytes → Option JwsHeader
  pub print_badge : Badge → Option Bytes
  pub parse_badge : Bytes → Option Badge

hex_digit : ℕ → ℕ
hex_digit n = if ltb n 10 then 48 + n else 87 + n

unfoldable pub hex_encode : Bytes → Bytes
unfolding hex_digit
hex_encode [] = []
hex_encode (b ∷ key) = hex_digit (b / 16) ∷ hex_digit (b % 16) ∷ hex_encode key

-- `trim_start` and `trim_end` on the bytes of a text
unfoldable pub trim_start : Bytes → Bytes
unfolding is_space is_space_two is_space_three
trim_start [] = []
trim_start (a ∷ []) = if is_space a then [] else a ∷ []
trim_start (a ∷ b ∷ []) =
    let one = trim_start (b ∷ []) in
    if is_space a then one else if is_space_two a b then [] else a ∷ b ∷ []
trim_start (a ∷ b ∷ c ∷ text) =
    let one = trim_start (b ∷ c ∷ text) in
    let two = trim_start (c ∷ text) in
    let three = trim_start text in
    if is_space a
    then one
    else if is_space_two a b
    then two
    else if is_space_three a b c
    then three
    else a ∷ b ∷ c ∷ text

unfoldable pub trim_end : Bytes → Bytes
unfolding is_blank
trim_end [] = []
trim_end (b ∷ text) = let rest = trim_end text in if is_blank (b ∷ text) then [] else b ∷ rest

-- `split('.')`, which always has a first part
unfoldable pub split_dots : Bytes → Bytes × List Bytes
split_dots [] = ([], [])
split_dots (b ∷ text) =
    let (part, parts) = split_dots text in if b == 46 then ([], part ∷ parts) else (b ∷ part, parts)

-- The three segments.
abbrev pub three_parts : Bytes × List Bytes → Option (Bytes × Bytes × Bytes)
three_parts (h, p ∷ s ∷ []) = some (h, p, s)
three_parts (h, parts) = none

unfoldable pub segments_of : Bytes → Outcome (Bytes × Bytes × Bytes)
unfolding trim_start trim_end split_dots
segments_of jws =
    ok_or (three_parts (split_dots (trim_end (trim_start jws))))
      (IdentityError.malformed Malformed.segments)

abbrev pub malformed_unless {ℓ} : {A : Type ℓ} → Option A → Malformed → Outcome A
malformed_unless o why = ok_or o (IdentityError.malformed why)

abbrev pub signature_of_size : Bytes → Option Bytes
signature_of_size b = if length b == 64 then some b else none

module _ (j : Jose) where
  unfoldable pub sign_compact : String → Bytes → Bytes → Bytes → Bytes
  sign_compact typ kid payload key =
      let header : JwsHeader = record { alg = jws_alg; typ = typ; kid = kid } in
      let signing_input = j.b64url_encode (j.print_header header) ++ 46 ∷ j.b64url_encode payload in
      signing_input ++ 46 ∷ j.b64url_encode (j.sign key signing_input)

  unfoldable pub issue : Badge → Bytes → Outcome Bytes
  unfolding sign_compact hex_encode
  issue badge key = do
    payload ← malformed_unless (j.print_badge badge) Malformed.unprintable
    ok (sign_compact jws_typ (hex_encode (j.verifying_key key)) payload key)

  unfoldable pub read_header : Bytes → Outcome JwsHeader
  read_header h64 = do
    header_bytes ← malformed_unless (j.b64url_decode h64) Malformed.header_b64
    header ← malformed_unless (j.parse_header header_bytes) Malformed.header
    refuse_if (not (str_eq header.alg jws_alg)) (IdentityError.alg_rejected header.alg)
    refuse_if (not (str_eq header.typ jws_typ))
        (IdentityError.malformed (Malformed.unexpected_typ header.typ))
    ok header

  unfoldable pub read_badge : Bytes → Outcome Badge
  read_badge p64 = do
    payload_bytes ← malformed_unless (j.b64url_decode p64) Malformed.payload_b64
    badge ← malformed_unless (j.parse_badge payload_bytes) Malformed.payload
    refuse_if (not (contains badge_type badge.types))
        (IdentityError.malformed Malformed.not_a_badge)
    ok badge

  -- Nothing is authenticated.
  unfoldable pub peek_unverified : Bytes → Outcome (JwsHeader × Badge)
  unfolding segments_of read_header read_badge
  peek_unverified jws = do
    parts ← segments_of jws
    header ← read_header parts.0
    badge ← read_badge parts.1
    ok (header, badge)

  unfoldable pub verify_signature : Bytes → Bytes → Outcome Badge
  unfolding segments_of read_header read_badge hex_encode
  verify_signature jws pinned = do
    parts ← segments_of jws
    header ← read_header parts.0
    refuse_if (not (bytes_eq header.kid (hex_encode pinned))) IdentityError.pubkey_mismatch
    sig_bytes ← malformed_unless (j.b64url_decode parts.2) Malformed.signature_b64
    sig ← malformed_unless (signature_of_size sig_bytes) Malformed.signature_length
    refuse_if (not (j.verify_strict pinned (parts.0 ++ 46 ∷ parts.1) sig))
        IdentityError.bad_signature
    read_badge parts.1

  -- The window, and the bounds on the authority that the badge grants.
  unfoldable pub check_times : Badge → ℕ → Outcome Badge
  check_times badge now = do
    refuse_if (ltb now badge.valid_from) (IdentityError.not_yet_valid now badge.valid_from)
    refuse_if (ltb badge.valid_until now) (IdentityError.expired now badge.valid_until)
    refuse_if (ltb badge.valid_until badge.subject.expiry)
        (IdentityError.subject_invalid (Refusal.outlives badge.subject.expiry))
    refuse_if (ltb (2 ^ 63 - 1) badge.subject.expiry)
        (IdentityError.subject_invalid (Refusal.unrepresentable badge.subject.expiry))
    ok badge

  unfoldable pub verify_badge : Bytes → Bytes → ℕ → Outcome Badge
  unfolding verify_signature check_times
  verify_badge jws pinned now = do badge ← verify_signature jws pinned; check_times badge now
