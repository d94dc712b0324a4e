-- ===== src/Ledger/Record.antt =====
-- crates/decern-ledger/src/{record,error,checkpoint}.rs: the entry, the record on disk, the errors, and
-- the functions of other crates that the ledger calls. A text that is hashed or compared with a
-- hash stands as its UTF-8 bytes.
use decern.Base.{
  ℕ, zero, suc, ◌+◌, String, Bool, true, false, Option, none, some, List, [], ◌∷◌, ◌++◌, ◌≡◌, refl,
  Bytes, length,
}
use decern.Base.Json.{Json}

pub data EdgeType : Type 0 where
  attenuate mint : EdgeType

pub data SponsorSource : Type 0 where
  derived explicit : SponsorSource

pub record Party : Type 0 where
  pub kind : String
  pub id : String

pub record MissionRef : Type 0 where
  pub approver : String
  pub s256 : String

pub record DecisionSubject : Type 0 where
  pub handle : String
  pub scheme : Option String
  pub purpose : Option String

pub record AssertedBy : Type 0 where
  pub sub : String
  pub client_id : String
  pub iss : Option String

pub record ChallengeRecord : Type 0 where
  pub decision_ref : String
  pub decision_subject : String
  pub basis : List String
  pub requested_effect : String
  pub outcome : String
  pub outcome_basis : String
  pub evidence_digest : Option String

pub record Entry : Type 0 where
  pub seq : ℕ
  pub ts_ms : ℕ
  pub subject_type : String
  pub subject_id : String
  pub action : String
  pub resource_type : String
  pub resource_id : String
  pub context : Json
  pub decision : Bool
  pub reasons : List String
  pub edge : EdgeType
  pub sponsor : Option Party
  pub sponsor_source : SponsorSource
  pub mission : Option MissionRef
  pub decision_subject : Option DecisionSubject
  pub asserted_by : Option AssertedBy
  pub notice_required : Bool
  pub challenge : Option ChallengeRecord
  pub digests : List (String × String)

-- The read side of a record: `entry` is the byte span as stored.
pub record RecordIn : Type 0 where
  pub entry : Bytes
  pub prev : Bytes
  pub hash : Bytes
  pub sig_b64 : Bytes
  pub kid : Option Bytes

pub record SignerSpan : Type 0 where
  pub kid : Bytes
  pub first_seq : ℕ

-- The `why` of a refusal.
pub data Why : Type 0 where
  unparseable_record unparseable_entry broken_link hash_mismatch : Why
  sequence_break : ℕ → Why
  unparseable_signature signature_length signature_invalid : Why
  unknown_signer : Bytes → Why
  superseded : Bytes → SignerSpan → Why
  missing_hash bad_hex index_past_end size_out_of_range anchor_not_trusted not_extended : Why
  not_a_record bad_manifest : Why
  fewer_records : ℕ → ℕ → Why

pub data LedgerError : Type 0 where
  io : Bytes → LedgerError
  serde : LedgerError
  tamper : ℕ → Why → LedgerError
  torn_tail : ℕ → Option Bytes → ℕ → LedgerError
  key_superseded : Bytes → SignerSpan → LedgerError

pub data Result {ℓ} (A : Type ℓ) : Type ℓ where
  ok : A → Result A
  err : LedgerError → Result A

-- The `?` of the source.
infixl 5 ◌>>=◌
abbrev pub ◌>>=◌ {ℓ κ} : {A : Type ℓ} {B : Type κ} → Result A → (A → Result B) → Result B
err refusal >>= next = err refusal
ok value >>= next = next value

-- `if test { return Err(e) }`
abbrev pub refuse_if : Bool → LedgerError → Result (Unit {0})
refuse_if true e = err e
refuse_if false e = ok tt

-- `ok_or_else(|| Tamper { seq, why })`
abbrev pub ok_or {ℓ} : {A : Type ℓ} → Option A → LedgerError → Result A
ok_or none e = err e
ok_or (some a) e = ok a

infixl 5 ◌>>◌
abbrev pub ◌>>◌ {ℓ} : {B : Type ℓ} → Result (Unit {0}) → Result B → Result B
check >> rest = check >>= λ u. rest

-- What a chain that succeeds has passed.
pub >>=-eq-ok {ℓ κ} :
    {A : Type ℓ} {B : Type κ} (first : Result A) (next : A → Result B) {result : B}
    → (first >>= next) ≡ ok result
    → (value : A) × (first ≡ ok value) × (next value ≡ ok result)
>>=-eq-ok (err refusal) next passed = cc
>>=-eq-ok (ok value) next passed = (value, refl, passed)

-- A chain that succeeds still does where its later steps are replaced by others that succeed likewise.
pub >>=-mono {ℓ κ} :
    {A : Type ℓ} {B : Type κ} (first : Result A) (next other : A → Result B) {result : B}
    → (first >>= next) ≡ ok result
    → ((value : A) → next value ≡ ok result → other value ≡ ok result)
    → (first >>= other) ≡ ok result
>>=-mono (err refusal) next other passed replace = cc
>>=-mono (ok value) next other passed replace = replace value passed

pub ok_inj {ℓ} : {A : Type ℓ} {a b : A} → ok a ≡ ok b → a ≡ b
ok_inj h = cc

pub refuse_if-eq-ok {ℓ} :
    {B : Type ℓ} (test : Bool) (e : LedgerError) (m : Result B) {b : B}
    → (refuse_if test e >> m) ≡ ok b
    → (test ≡ false) × (m ≡ ok b)
refuse_if-eq-ok true e m h = cc
refuse_if-eq-ok false e m h = (refl, h)

-- What the ledger calls in the crates sha2, hex, base64, serde_json and ed25519.
pub record Crates : Type 0 where
  pub sha256 : Bytes → Bytes
  pub hex_encode : Bytes → Bytes
  pub hex_decode : Bytes → Option Bytes
  pub base64_encode : Bytes → Bytes
  pub base64_decode : Bytes → Option Bytes
  -- the public key of a signing key, a signature, and its strict verification under a public key
  pub verifying_key : Bytes → Bytes
  pub sign : Bytes → Bytes → Bytes
  pub verify_strict : Bytes → Bytes → Bytes → Bool
  pub parse_record : Bytes → Option RecordIn
  pub parse_entry : Bytes → Option Entry
  pub parse_value : Bytes → Option Json
  -- the `hash` field of a record, with nothing else read
  pub parse_hash : Bytes → Option Bytes
  -- the standard library's check that bytes are UTF-8
  pub is_utf8 : Bytes → Bool
  pub print_entry : Entry → Option Bytes
  pub print_record : RecordIn → Option Bytes

-- 64 zeros
abbrev pub genesis : Bytes
genesis = zeros 64
  where
    zeros : ℕ → Bytes
    zeros zero = []
    zeros (suc n) = 48 ∷ zeros n

module _ (c : Crates) where
  unfoldable pub chain_hash : Bytes → Bytes → Bytes
  chain_hash entry_bytes prev_hex = c.sha256 (entry_bytes ++ prev_hex)

  -- The `kid` of a public key.
  unfoldable pub key_fingerprint : Bytes → Bytes
  key_fingerprint key = c.hex_encode key

-- Documented behaviour of sha2 and hex: digests have 32 bytes, and the two lower-case digits for
-- each byte are decoded to the bytes that were encoded.
pub record HashLaws (c : Crates) : Type 0 where
  pub digest_size : (b : Bytes) → length (c.sha256 b) ≡ 32
  pub hex_size : (b : Bytes) → length (c.hex_encode b) ≡ length b + length b
  pub hex_inverse : (b : Bytes) → c.hex_decode (c.hex_encode b) ≡ some b
