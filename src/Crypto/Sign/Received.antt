-- ===== src/Crypto/Sign/Received.antt =====
-- A reply of src/crypto/sign.rs, as src/crypto/verify.rs receives it.
use blapki.Prelude
use blapki.Prelude.{
  String, true, false, ◌==◌, ◌≡◌, ◌≢◌, refl, sym, ap, ◌∙◌, subst, Option, none, some, Result, ok,
  err, List, [], ◌∷◌, ◌++◌, Bytes, arith, eq_iff, bytes_eq_iff, >>=-eq-ok, map_err-bind-eq-ok,
  map_err-eq-ok, Option-cases, inl, inr,
}
use blapki.Crates.{Attribute, Certificate, ContentInfo, EnvelopedData, Asn1, Primitives}
use blapki.Scep.Attributes.{
  find_attr, read_string, read_octets, MessageType, from_value, id_message_type, id_transaction_id,
  id_sender_nonce,
}
use blapki.Crypto.{id_content_type, id_message_digest, rsa_public_key_from_spki}
use blapki.Crypto.Verify.{
  Decoders, Parts, signed_parts, check_signature, read_envelope, read_metadata, parse_and_verify,
  verify_rsa, check_content, claimed_digest, digest, decode_first,
}
use blapki.Crypto.Sign.{SignerInfo}
use blapki.Crypto.Sign.Distinct.{
  In, all_distinct, oids, any-oid, find_attr-some, find_attr-none, find_attr-same,
}
use blapki.Crypto.Sign.Laws.{Emitted, from_draft, content_type, message_digest, HasDigest}

pub differ : (s t : String) → (s == t) ≡ false → s ≢ t
differ s t h e = absurd (ground (arith, eq_iff s t))

module _ (a : Asn1) where
  pub read_string-same :
      (xs ys : List Attribute) (oid : String)
      → find_attr xs oid ≡ find_attr ys oid
      → read_string a xs oid ≡ read_string a ys oid
  unfolding read_string
  read_string-same xs ys oid h = rw h refl

  pub read_octets-same :
      (xs ys : List Attribute) (oid : String)
      → find_attr xs oid ≡ find_attr ys oid
      → read_octets a xs oid ≡ read_octets a ys oid
  unfolding read_octets
  read_octets-same xs ys oid h = rw h refl

  -- The metadata of a CertRep, from the readings of its attributes.
  read_cert_rep :
      (parts : Parts) (transaction_id : String) (nonce : Bytes) (enveloped : Option EnvelopedData)
      → read_string a parts.attrs id_message_type ≡ ok "3"
      → read_string a parts.attrs id_transaction_id ≡ ok transaction_id
      → read_octets a parts.attrs id_sender_nonce ≡ ok nonce
      → read_envelope a MessageType.cert_rep parts.signed_data.econtent ≡ ok enveloped
      → read_metadata a parts
        ≡ ok (record {
          message_type = MessageType.cert_rep;
          transaction_id = transaction_id;
          sender_nonce = nonce;
          recipient = record {
            public_key = parts.public_key;
            issuer = parts.cert.issuer;
            serial = parts.cert.serial_number;
          };
          enveloped = enveloped;
        })
  unfolding read_metadata from_value Prelude.trim
  read_cert_rep parts transaction_id nonce enveloped mt ti sn env =
      rw mt (rw ti (rw sn (rw env refl)))

module _ (a : Asn1) (p : Primitives) (d : Decoders) where
  -- The parts of a message that was built are those of its draft.
  abbrev pub parts_of :
      (key : Bytes) (info : SignerInfo) (cert : Certificate) (ci : ContentInfo)
      → Emitted a p d key info cert ci
      → Parts
  parts_of key info cert ci m = record {
    signed_data = m.sd;
    signer = m.signer;
    cert = cert;
    attrs = m.attrs;
    public_key = key;
  }

  module _ (key : Bytes) (info : SignerInfo) (cert : Certificate) (ci : ContentInfo)
      (m : Emitted a p d key info cert ci) where
    signed_parts-Emitted :
        (der : Bytes)
        → a.decode_content_info der ≡ ok ci
        → rsa_public_key_from_spki p cert.public_key ≡ ok key
        → signed_parts a p d der ≡ ok (parts_of key info cert ci m)
    unfolding signed_parts decode_first
    signed_parts-Emitted der h k =
        rw (h, m.is_signed_data)
          (rw
            (
              m.has_signed_data, m.opens_signers, m.has_signer, m.has_certs, m.opens_certs,
              m.has_cert, m.has_attrs, k,
            )
            refl)

    check_signature-Emitted : check_signature a p (parts_of key info cert ci m) ≡ ok tt
    unfolding check_signature verify_rsa
    check_signature-Emitted = rw (m.encodes, m.well_formed, m.uses_sha256, m.verifies) refl

    find_digest :
        (v : Bytes)
        → m.sd.econtent ≡ some v
        → ((x : Attribute) → In x info.signed_attrs → x.oid ≢ id_message_digest)
        → claimed_digest a m.attrs ≡ ok (p.sha256 v)
    unfolding claimed_digest
    find_digest v e free =
        let (x, x_in, x_oid) = subst (λ c. HasDigest c m.attrs) e m.has_digest in
        elim (Option-cases (find_attr m.attrs id_message_digest)) [
          | inl h ↦ absurd (find_attr-none m.attrs id_message_digest x h x_in x_oid)
          | inr (y, h) ↦
              let (y_in, y_oid) = find_attr-some m.attrs id_message_digest y h in
              elim (m.origin y y_in) [
                | from_draft g ↦ absurd (free y g y_oid)
                | content_type c ↦ absurd (ground (arith, eq_iff id_content_type id_message_digest))
                | message_digest w b c o vs dec ↦
                    let same : w ≡ v = ground arith in
                    rw h (rw vs (rw dec (ap (λ u. ok (p.sha256 u)) same)))
              ]
        ]

    check_content-Emitted :
        (c : Option Bytes)
        → m.sd.econtent ≡ c
        → ((x : Attribute) → In x info.signed_attrs → x.oid ≢ id_message_digest)
        → check_content a p (parts_of key info cert ci m) c ≡ ok tt
    unfolding check_content digest
    check_content-Emitted none e free = refl
    check_content-Emitted (some v) e free =
        rw (find_digest v e free, m.uses_sha256)
          (rw ((bytes_eq_iff (p.sha256 v) (p.sha256 v)).1 refl) refl)

    -- An attribute of the draft is found in the message.
    find_attr-Emitted :
        (oid : String)
        → all_distinct (oids info.signed_attrs) ≡ true
        → oid ≢ id_content_type
        → oid ≢ id_message_digest
        → find_attr m.attrs oid ≡ find_attr info.signed_attrs oid
    find_attr-Emitted oid distinct not_type not_digest =
        find_attr-same info.signed_attrs m.attrs oid distinct m.keeps_attrs (λ y y_in y_oid.
          elim (m.origin y y_in) [
            | from_draft g ↦ g
            | content_type c ↦ absurd (not_type (sym y_oid ∙ c))
            | message_digest v h c o vs dec ↦ absurd (not_digest (sym y_oid ∙ o))
          ])

    -- A CertRep of distinct attributes is accepted, and read as it was written.
    pub parse_and_verify-Emitted :
        (der : Bytes) (transaction_id : String) (nonce : Bytes) (enveloped : Option EnvelopedData)
        → a.decode_content_info der ≡ ok ci
        → rsa_public_key_from_spki p cert.public_key ≡ ok key
        → all_distinct (id_message_digest ∷ oids info.signed_attrs) ≡ true
        → read_string a info.signed_attrs id_message_type ≡ ok "3"
        → read_string a info.signed_attrs id_transaction_id ≡ ok transaction_id
        → read_octets a info.signed_attrs id_sender_nonce ≡ ok nonce
        → read_envelope a MessageType.cert_rep m.sd.econtent ≡ ok enveloped
        → parse_and_verify a p d der
          ≡ ok (record {
            message_type = MessageType.cert_rep;
            transaction_id = transaction_id;
            sender_nonce = nonce;
            recipient = record {
              public_key = key;
              issuer = cert.issuer;
              serial = cert.serial_number;
            };
            enveloped = enveloped;
          })
    unfolding parse_and_verify
    parse_and_verify-Emitted der transaction_id nonce enveloped h k distinct mt ti sn env =
        let free : (x : Attribute) → In x info.signed_attrs → x.oid ≢ id_message_digest =
          λ x x_in e.
            absurd (ground (arith, any-oid x info.signed_attrs id_message_digest x_in e)) in
        let same = λ (oid : String). find_attr-Emitted oid (ground arith) in
        rw
          (
            signed_parts-Emitted der h k,
            check_signature-Emitted,
            check_content-Emitted m.sd.econtent refl free,
          )
          (read_cert_rep a (parts_of key info cert ci m) transaction_id nonce enveloped
            (read_string-same a m.attrs info.signed_attrs id_message_type (
                same id_message_type (differ id_message_type id_content_type refl)
                  (differ id_message_type id_message_digest refl))
              ∙ mt)
            (read_string-same a m.attrs info.signed_attrs id_transaction_id (
                same id_transaction_id (differ id_transaction_id id_content_type refl)
                  (differ id_transaction_id id_message_digest refl))
              ∙ ti)
            (read_octets-same a m.attrs info.signed_attrs id_sender_nonce (
                same id_sender_nonce (differ id_sender_nonce id_content_type refl)
                  (differ id_sender_nonce id_message_digest refl))
              ∙ sn)
            env)
