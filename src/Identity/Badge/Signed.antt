-- ===== src/Identity/Badge/Signed.antt =====
-- A badge that a key issued verifies under its public key, and is read back as it was.
use decern.Base.{◌≡◌, refl, subst, true, some, ◌∷◌, ◌++◌, length, Bytes, bytes_eq_refl}
use decern.Base.Dict.{contains}
use decern.Identity.Errors.{ok, ok_or, >>=-eq-ok, ok_or-eq-ok}
use decern.Identity.Badge.{
  Jose, JwsHeader, Badge, badge_type, jws_alg, jws_typ, hex_encode, sign_compact, issue,
  read_header, read_badge, verify_signature,
}
use decern.Identity.Badge.Segments.{IsSegment, segments_of-join}

-- Documented behaviour of base64, serde_json and Ed25519: what was encoded or printed is read back, a base64 text for
-- URLs is of its alphabet, and a signature has 64 bytes and verifies under the public key of the key that made it.
pub record JoseLaws (j : Jose) : Type 0 where
  pub b64url_inverse : (b : Bytes) → j.b64url_decode (j.b64url_encode b) ≡ some b
  pub b64url_alphabet : (b : Bytes) → IsSegment (j.b64url_encode b)
  pub header_inverse :
      (kid : Bytes)
      → j.parse_header (j.print_header (record { alg = jws_alg; typ = jws_typ; kid = kid }))
        ≡ some (record { alg = jws_alg; typ = jws_typ; kid = kid })
  pub badge_inverse : (b : Badge) (p : Bytes) → j.print_badge b ≡ some p → j.parse_badge p ≡ some b
  pub signature_size : (key message : Bytes) → length (j.sign key message) ≡ 64
  pub signature_verifies :
      (key message : Bytes)
      → j.verify_strict (j.verifying_key key) message (j.sign key message) ≡ true

module _ (j : Jose) (laws : JoseLaws j) where
  abbrev header_of : Bytes → JwsHeader
  header_of key = record { alg = jws_alg; typ = jws_typ; kid = hex_encode (j.verifying_key key) }

  read_header-print :
      (key : Bytes)
      → read_header j (j.b64url_encode (j.print_header (header_of key))) ≡ ok (header_of key)
  unfolding read_header
  read_header-print key =
      rw
        (
          read_header,
          laws.b64url_inverse (j.print_header (header_of key)),
          laws.header_inverse (hex_encode (j.verifying_key key)),
        )
        refl

  read_badge-print :
      (badge : Badge) (payload : Bytes)
      → j.print_badge badge ≡ some payload
      → contains badge_type badge.types ≡ true
      → read_badge j (j.b64url_encode payload) ≡ ok badge
  unfolding read_badge
  read_badge-print badge payload printed typed =
      rw (read_badge, laws.b64url_inverse payload, laws.badge_inverse badge payload printed, typed)
        refl

  verify_signature-sign_compact :
      (badge : Badge) (payload key : Bytes)
      → j.print_badge badge ≡ some payload
      → contains badge_type badge.types ≡ true
      → verify_signature j
          (sign_compact j jws_typ (hex_encode (j.verifying_key key)) payload key)
          (j.verifying_key key)
        ≡ ok badge
  unfolding verify_signature sign_compact
  verify_signature-sign_compact badge payload key printed typed =
      let h64 = j.b64url_encode (j.print_header (header_of key)) in
      let p64 = j.b64url_encode payload in
      let input = h64 ++ 46 ∷ p64 in
      let sig = j.sign key input in
      rw
        (
          verify_signature,
          sign_compact,
          segments_of-join h64 p64 (j.b64url_encode sig)
              (laws.b64url_alphabet (j.print_header (header_of key))) (laws.b64url_alphabet payload)
              (laws.b64url_alphabet sig),
          read_header-print key,
          bytes_eq_refl (hex_encode (j.verifying_key key)),
          laws.b64url_inverse sig,
          laws.signature_size key input,
          laws.signature_verifies key input,
        )
        (read_badge-print badge payload printed typed)

  -- A badge that was issued under a key, and has the type of a badge, verifies under the public key of that key and
  -- is the badge that was issued.
  pub verify_signature-issue :
      (badge : Badge) (key token : Bytes)
      → issue j badge key ≡ ok token
      → contains badge_type badge.types ≡ true
      → verify_signature j token (j.verifying_key key) ≡ ok badge
  unfolding issue
  verify_signature-issue badge key token issued typed =
      let (payload, printed, signed) = >>=-eq-ok (ok_or (j.print_badge badge) _) _ issued in
      let it : sign_compact j jws_typ (hex_encode (j.verifying_key key)) payload key ≡ token =
        cc signed in
      subst (λ t. verify_signature j t (j.verifying_key key) ≡ ok badge) it
        (verify_signature-sign_compact badge payload key (ok_or-eq-ok _ _ printed) typed)
