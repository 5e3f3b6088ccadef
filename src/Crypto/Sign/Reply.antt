-- ===== src/Crypto/Sign/Reply.antt =====
-- The way of a SUCCESS reply: src/scep/protocol.rs writes its attributes, src/crypto/sign.rs signs
-- them, and src/crypto/verify.rs, on the side of a client, accepts them.
use blapki.Prelude.{
  String, ◌≡◌, refl, ap, ◌∙◌, subst, Option, none, some, ok, List, [], ◌++◌, Bytes, arith,
  >>=-eq-ok, map_err-bind-eq-ok,
}
use blapki.Crates.{Attribute, Certificate, ContentInfo, EnvelopedData, Asn1, Primitives}
use blapki.Crates.Laws.{Asn1Laws}
use blapki.Scep.Attributes.{MessageType, der_err, message_type_value}
use blapki.Scep.Protocol.{success_attrs}
use blapki.Scep.Replies.{success_attrs-read, success_attrs-oids}
use blapki.Crypto.{sha256_alg, rsa_public_key_from_spki}
use blapki.Crypto.Envelope
use blapki.Crypto.Verify.{Decoders, read_envelope, parse_and_verify}
use blapki.Crypto.Sign.{
  SignerInfo, CmsBuilder, EncapsulatedContentInfo, builder_err, add_attributes, encapsulate,
  build_signed_data, build_cert_rep,
}
use blapki.Crypto.Sign.Laws.{CollectLaws, Emitted, IsValue}
use blapki.Crypto.Sign.Drafts.{draft_of, add_attributes-eq-ok, build_signed_data-eq-ok}
use blapki.Crypto.Sign.Received.{parse_and_verify-Emitted}

-- The signer of a reply, with its attributes.
abbrev pub signer_info_of :
    Bytes → Certificate → EncapsulatedContentInfo → List Attribute → SignerInfo
signer_info_of signer cert encap attrs = record {
  signer = signer;
  issuer = cert.issuer;
  serial_number = cert.serial_number;
  digest_alg = sha256_alg;
  encap = encap;
  signed_attrs = attrs;
}

module _ (a : Asn1) (b : CmsBuilder) (laws : Asn1Laws a) where
  encapsulate-value :
      (content : Bytes) (encap : EncapsulatedContentInfo) (v : Option Bytes)
      → encapsulate a b (some content) ≡ ok encap
      → IsValue a encap.econtent v
      → v ≡ some content
  unfolding encapsulate
  encapsulate-value content encap v h k =
      let (os, e₁, h₁) = map_err-bind-eq-ok der_err (a.new_octets content) _ h in
      let (any, e₂, h₂) = map_err-bind-eq-ok der_err (a.encode_octets os) _ h₁ in
      let is_any : encap.econtent ≡ some any = ground arith in
      let read : a.decode_octets any ≡ ok content =
        laws.decode-encode_octets os any e₂ ∙ ap ok (laws.new_octets_same content os e₁) in
      go any v read (subst (λ o. IsValue a o v) is_any k)
    where
      go :
          (any : Bytes) (v : Option Bytes)
          → a.decode_octets any ≡ ok content
          → IsValue a (some any) v
          → v ≡ some content
      go any none read k = absurd k
      go any (some v) read k = ground arith

module _ (a : Asn1) (b : CmsBuilder) (collect : CollectLaws b) where
  build_cert_rep-eq-ok :
      (signer : Bytes) (cert : Certificate) (content : Bytes) (attrs : List Attribute)
      (encap : EncapsulatedContentInfo) (der : Bytes)
      → encapsulate a b (some content) ≡ ok encap
      → build_cert_rep a b signer cert (some content) attrs ≡ ok der
      → (ci : ContentInfo) × (b.build (draft_of (signer_info_of signer cert encap attrs) cert)
          ≡ ok ci)
        × (a.encode_content_info ci ≡ ok der)
  unfolding build_cert_rep
  build_cert_rep-eq-ok signer cert content attrs encap der e h =
      let start = signer_info_of signer cert encap [] in
      let (encap', e₁, h₁) = >>=-eq-ok (encapsulate a b (some content)) _ h in
      let same : encap' ≡ encap = ground arith in
      let (fresh, e₂, h₂) =
        map_err-bind-eq-ok builder_err (b.new_signer_info (signer_info_of signer cert encap' [])) _
          h₁ in
      let (info, e₃, h₃) = >>=-eq-ok (add_attributes b attrs fresh) _ h₂ in
      let is_info : info ≡ signer_info_of signer cert encap' attrs =
        add_attributes-eq-ok b collect attrs fresh info e₃
        ∙ ap {A = SignerInfo} (λ i. record i { signed_attrs = i.signed_attrs ++ attrs })
            (collect.new_signer_info_same _ fresh e₂) in
      let chain : build_signed_data a b encap' sha256_alg cert info ≡ ok der = h₃ in
      let built : build_signed_data a b encap' sha256_alg cert
            (signer_info_of signer cert encap' attrs)
          ≡ ok der =
        rw (← is_info) chain in
      let (ci, e₄, h₄) =
        build_signed_data-eq-ok b collect a (signer_info_of signer cert encap' attrs) cert der
          built in
      (ci, rw (← same) e₄, h₄)

module _ (a : Asn1) (p : Primitives) (d : Decoders) (b : CmsBuilder) (laws : Asn1Laws a)
    (collect : CollectLaws b) where
  -- A SUCCESS reply is accepted by the checks of `parse_and_verify`, under the public key of the
  -- certificate of its signer, as a CertRep that names the transaction, carries the nonce of the
  -- server and has the envelope that it was built over. The message that the builder makes of the
  -- draft is what its documentation says.
  pub build_cert_rep-accepted :
      (signer key : Bytes) (cert : Certificate) (content nonce recipient_nonce : Bytes)
      (transaction_id : String) (attrs : List Attribute) (encap : EncapsulatedContentInfo)
      (envelope : EnvelopedData) (der : Bytes)
      → rsa_public_key_from_spki p cert.public_key ≡ ok key
      → encapsulate a b (some content) ≡ ok encap
      → ((ci : ContentInfo)
          → b.build (draft_of (signer_info_of signer cert encap attrs) cert) ≡ ok ci
          → Emitted a p d key (signer_info_of signer cert encap attrs) cert ci)
      → success_attrs a nonce transaction_id recipient_nonce ≡ ok attrs
      → Envelope.parse a content ≡ ok envelope
      → build_cert_rep a b signer cert (some content) attrs ≡ ok der
      → parse_and_verify a p d der
        ≡ ok (record {
          message_type = MessageType.cert_rep;
          transaction_id = transaction_id;
          sender_nonce = nonce;
          recipient = record {
            public_key = key;
            issuer = cert.issuer;
            serial = cert.serial_number;
          };
          enveloped = some envelope;
        })
  unfolding read_envelope message_type_value
  build_cert_rep-accepted signer key cert content nonce recipient_nonce transaction_id attrs encap
        envelope der k e emits made parsed h =
      let info = signer_info_of signer cert encap attrs in
      let (ci, built, encoded) =
        build_cert_rep-eq-ok a b collect signer cert content attrs encap der e h in
      let m = emits ci built in
      let value = encapsulate-value a b laws content encap m.sd.econtent e m.has_content in
      let (mt, st, ti, sn, rn) =
        success_attrs-read a laws nonce transaction_id recipient_nonce attrs made in
      let names = success_attrs-oids a laws nonce transaction_id recipient_nonce attrs made in
      parse_and_verify-Emitted a p d key info cert ci m der transaction_id nonce (some envelope)
        (laws.decode-encode_content_info ci der encoded) k (rw names refl) mt ti sn
        (rw value (rw parsed refl))
