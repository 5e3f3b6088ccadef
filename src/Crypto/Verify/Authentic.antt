-- ===== src/Crypto/Verify/Authentic.antt =====
-- What an accepted message of src/crypto/verify.rs proves about its sender.
use blapki.Prelude.{
  String, ◌≡◌, ◌⊎◌, inl, inr, true, Option, none, some, ok, Bytes, arith, >>=-eq-ok,
  map_err-bind-eq-ok, bytes_eq_iff, eq_iff, Result-cases,
}
use blapki.Crates.{Asn1, Primitives}
use blapki.Scep.Attributes.{
  from_value, id_message_type, id_transaction_id, id_sender_nonce, read_string, read_octets,
}
use blapki.Crypto.{id_sha1, id_sha256}
use blapki.Crypto.Verify.{
  ParsedRequest, Decoders, Parts, verify_rsa, digest, signed_parts, check_signature, claimed_digest,
  check_content, read_envelope, read_metadata, parse_and_verify,
}

-- The RSA signature `sig` of `msg` under one of the two accepted digests.
abbrev pub Signed : Primitives → String → Bytes → Bytes → Bytes → Type 0
Signed p digest_alg key msg sig =
    ((digest_alg ≡ id_sha256) × (p.verify_sha256 key msg sig ≡ true))
    ⊎ ((digest_alg ≡ id_sha1) × (p.verify_sha1 key msg sig ≡ true))

-- The digest of a text under the algorithm that the signer names.
abbrev pub DigestOf : Primitives → String → Bytes → Bytes → Type 0
DigestOf p digest_alg content h =
    ((digest_alg ≡ id_sha256) × (h ≡ p.sha256 content))
    ⊎ ((digest_alg ≡ id_sha1) × (h ≡ p.sha1 content))

-- The signed attributes are bound to the content by their messageDigest.
abbrev pub Bound : Asn1 → Primitives → Parts → Option Bytes → Type 0
Bound a p parts none = Unit
Bound a p parts (some content) =
    (h : Bytes) × (claimed_digest a parts.attrs ≡ ok h)
    × DigestOf p parts.signer.digest_alg content h

-- The message is signed by the key of the certificate that it carries, the signature covers the
-- attributes, the attributes cover the content, and the request's data are read from them.
pub record IsAuthentic (a : Asn1) (p : Primitives) (d : Decoders) (der : Bytes) (r : ParsedRequest)
    : Type 0 where
  pub parts : Parts
  pub signed : Bytes
  pub signature : Bytes
  pub type_text : String
  pub has_parts : signed_parts a p d der ≡ ok parts
  pub encoded : a.encode_attributes parts.attrs ≡ ok signed
  pub well_formed : p.new_signature parts.signer.signature ≡ ok signature
  pub verified : Signed p parts.signer.digest_alg parts.public_key signed signature
  pub bound : Bound a p parts parts.signed_data.econtent
  pub message_type : from_value type_text ≡ ok r.message_type
  pub type_signed : read_string a parts.attrs id_message_type ≡ ok type_text
  pub transaction_signed : read_string a parts.attrs id_transaction_id ≡ ok r.transaction_id
  pub nonce_signed : read_octets a parts.attrs id_sender_nonce ≡ ok r.sender_nonce
  pub reply_key : r.recipient.public_key ≡ parts.public_key
  pub reply_issuer : r.recipient.issuer ≡ parts.cert.issuer
  pub reply_serial : r.recipient.serial ≡ parts.cert.serial_number

module _ (a : Asn1) (p : Primitives) (d : Decoders) where
  verify_rsa-eq-ok :
      (alg : String) (key msg sig : Bytes)
      → verify_rsa p alg key msg sig ≡ ok tt
      → (s : Bytes) × (p.new_signature sig ≡ ok s) × Signed p alg key msg s
  unfolding verify_rsa
  verify_rsa-eq-ok alg key msg sig h = elim (Result-cases (p.new_signature sig)) [
    | inl (s, e) ↦ (s, e, ground (arith, eq_iff alg id_sha256, eq_iff alg id_sha1))
    | inr (x, e) ↦ absurd (ground arith)
  ]

  digest-eq-ok :
      (alg : String) (content h : Bytes) → digest p alg content ≡ ok h → DigestOf p alg content h
  unfolding digest
  digest-eq-ok alg content h e = ground (arith, eq_iff alg id_sha256, eq_iff alg id_sha1)

  check_content-eq-ok :
      (parts : Parts) (content : Option Bytes)
      → check_content a p parts content ≡ ok tt
      → Bound a p parts content
  unfolding check_content
  check_content-eq-ok parts none e = tt
  check_content-eq-ok parts (some content) e = elim (Result-cases (claimed_digest a parts.attrs)) [
    | inl (h, k) ↦ elim (Result-cases (digest p parts.signer.digest_alg content)) [
      | inl (c, f) ↦
          let same : h ≡ c = ground (arith, bytes_eq_iff h c) in
          (h, k, digest-eq-ok parts.signer.digest_alg content h (rw same f))
      | inr (x, f) ↦ absurd (ground arith)
    ]
    | inr (x, k) ↦ absurd (ground arith)
  ]

  check_signature-eq-ok :
      (parts : Parts)
      → check_signature a p parts ≡ ok tt
      → (signed : Bytes) × (s : Bytes) × (a.encode_attributes parts.attrs ≡ ok signed)
        × (p.new_signature parts.signer.signature ≡ ok s)
        × Signed p parts.signer.digest_alg parts.public_key signed s
  unfolding check_signature
  check_signature-eq-ok parts h =
      let (signed, e, h₁) = map_err-bind-eq-ok _ (a.encode_attributes parts.attrs) _ h in
      let (s, f, v) = verify_rsa-eq-ok _ _ signed _ h₁ in (signed, s, e, f, v)

  -- What `read_metadata` returned was read from the signed attributes and the certificate.
  abbrev Metadata : Parts → ParsedRequest → String → Type 0
  Metadata parts r type_text =
      (read_string a parts.attrs id_message_type ≡ ok type_text)
      × (from_value type_text ≡ ok r.message_type)
      × (read_string a parts.attrs id_transaction_id ≡ ok r.transaction_id)
      × (read_octets a parts.attrs id_sender_nonce ≡ ok r.sender_nonce)
      × (r.recipient.public_key ≡ parts.public_key)
      × (r.recipient.issuer ≡ parts.cert.issuer)
      × (r.recipient.serial ≡ parts.cert.serial_number)

  read_metadata-eq-ok :
      (parts : Parts) (r : ParsedRequest)
      → read_metadata a parts ≡ ok r
      → (type_text : String) × Metadata parts r type_text
  unfolding read_metadata
  read_metadata-eq-ok parts r h =
      let (t, e₁, h₁) = >>=-eq-ok (read_string a parts.attrs id_message_type) _ h in
      let (m, e₂, h₂) = >>=-eq-ok (from_value t) _ h₁ in
      let (i, e₃, h₃) = >>=-eq-ok (read_string a parts.attrs id_transaction_id) _ h₂ in
      let (n, e₄, h₄) = >>=-eq-ok (read_octets a parts.attrs id_sender_nonce) _ h₃ in
      let (v, e₅, h₅) = >>=-eq-ok (read_envelope a m parts.signed_data.econtent) _ h₄ in
      (t, (e₁, ground arith, ground arith, ground arith, ground arith, ground arith, ground arith))

  -- A message that is accepted is authentic.
  pub parse_and_verify-IsAuthentic :
      (der : Bytes) (r : ParsedRequest)
      → parse_and_verify a p d der ≡ ok r
      → IsAuthentic a p d der r
  unfolding parse_and_verify
  parse_and_verify-IsAuthentic der r h =
      let (parts, e₁, h₁) = >>=-eq-ok (signed_parts a p d der) _ h in
      let (_, e₂, h₂) = >>=-eq-ok (check_signature a p parts) _ h₁ in
      let (_, e₃, h₃) = >>=-eq-ok (check_content a p parts parts.signed_data.econtent) _ h₂ in
      let (signed, s, encoded, sig, v) = check_signature-eq-ok parts e₂ in
      let (t, m) = read_metadata-eq-ok parts r h₃ in
      record {
        parts = parts;
        signed = signed;
        signature = s;
        type_text = t;
        has_parts = e₁;
        encoded = encoded;
        well_formed = sig;
        verified = v;
        bound = check_content-eq-ok parts parts.signed_data.econtent e₃;
        message_type = m.1;
        type_signed = m.0;
        transaction_signed = m.2;
        nonce_signed = m.3;
        reply_key = m.4;
        reply_issuer = m.5;
        reply_serial = m.6;
      }
