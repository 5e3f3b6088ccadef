-- ===== src/Crypto/Verify.antt =====
-- src/crypto/verify.rs: parsing and verifying an inbound `pkiMessage`.
pub mod Authentic
pub mod Digests
use blapki.Prelude.{
  String, Bool, true, false, not, Option, none, some, Result, ok, err, List, [], ◌∷◌, Bytes, format,
  next, map_err, ok_or, to_option, and_then, ◌>>=◌, ◌==◌, bytes_eq, if◌then◌else◌,
}
use blapki.Error.{AppError, AppResult}
use blapki.Crates.{Attribute, Certificate, EnvelopedData, Asn1, Primitives}
use blapki.Scep.Attributes.{
  MessageType, from_value, id_message_type, id_transaction_id, id_sender_nonce, find_attr,
  read_string, read_octets,
}
use blapki.Crypto.{id_signed_data, id_sha1, id_sha256, id_message_digest, rsa_public_key_from_spki}
use blapki.Crypto.Envelope

-- Everything needed to encrypt the reply back to the requesting device.
pub record RecipientKey : Type 0 where
  pub public_key : Bytes
  pub issuer : Bytes
  pub serial : Bytes

-- The verified contents of an inbound request.
pub record ParsedRequest : Type 0 where
  pub message_type : MessageType
  pub transaction_id : String
  pub sender_nonce : Bytes
  pub recipient : RecipientKey
  pub enveloped : Option EnvelopedData

-- The fields of the relaxed structures that are read; the octets of `econtent` are its value.
pub record RelaxedSignedData : Type 0 where
  pub econtent : Option Bytes
  pub certificates : Option Bytes
  pub signer_infos : Bytes

pub record RelaxedSignerInfo : Type 0 where
  pub digest_alg : String
  pub signed_attrs : Option (List Attribute)
  pub signature : Bytes

-- The decoders of the relaxed structures, as `#[derive(Sequence)]` makes them. `open_container` is
-- `SliceReader::new` on the value of a container, and the two after it decode its first element.
pub record Decoders : Type 0 where
  pub decode_signed_data : Bytes → Result String RelaxedSignedData
  pub open_container : Bytes → Result String Bytes
  pub decode_signer_info : Bytes → Result String RelaxedSignerInfo
  pub decode_relaxed_certificate : Bytes → Result String Certificate

module _ (d : Decoders) where
  unfoldable pub decode_first :
      {T : Type 0} → (Bytes → Result String T) → Bytes → String → AppResult T
  decode_first decode container what = do
    reader ←
        map_err (λ e. AppError.bad_request (format ("bad " ∷ what ∷ " container: " ∷ e ∷ [])))
          (d.open_container container)
    map_err (λ e. AppError.bad_request (format ("bad " ∷ what ∷ ": " ∷ e ∷ []))) (decode reader)

-- What the source has at hand when it checks the signature.
pub record Parts : Type 0 where
  pub signed_data : RelaxedSignedData
  pub signer : RelaxedSignerInfo
  pub cert : Certificate
  pub attrs : List Attribute
  pub public_key : Bytes

abbrev pub invalid_signature : AppError
invalid_signature = AppError.bad_request "SCEP message signature is invalid"

module _ (p : Primitives) where
  unfoldable pub verify_rsa : String → Bytes → Bytes → Bytes → AppResult (Unit {0})
  verify_rsa digest_oid pubkey msg sig = do
    signature ←
        map_err (λ e. AppError.bad_request (format ("malformed signature: " ∷ e ∷ [])))
          (p.new_signature sig)
    if digest_oid == id_sha256
        then (if p.verify_sha256 pubkey msg signature then ok tt else err invalid_signature)
        else if digest_oid == id_sha1
        then (if p.verify_sha1 pubkey msg signature then ok tt else err invalid_signature)
        else err (AppError.bad_request (format ("unsupported signature digest " ∷ digest_oid ∷ [])))

  unfoldable pub digest : String → Bytes → AppResult Bytes
  digest oid content =
      if oid == id_sha256
      then ok (p.sha256 content)
      else if oid == id_sha1
      then ok (p.sha1 content)
      else err (AppError.bad_request (format ("unsupported digest " ∷ oid ∷ [])))

module _ (a : Asn1) (p : Primitives) (d : Decoders) where
  unfoldable pub signed_parts : Bytes → AppResult Parts
  unfolding decode_first rsa_public_key_from_spki
  signed_parts der = do
    ci ←
        map_err (λ e. AppError.bad_request (format ("not a CMS ContentInfo: " ∷ e ∷ [])))
          (a.decode_content_info der)
    if not (ci.content_type == id_signed_data)
        then err (AppError.bad_request "SCEP message is not signedData")
        else do
          sd ←
              map_err (λ e. AppError.bad_request (format ("bad SignedData: " ∷ e ∷ [])))
                (d.decode_signed_data ci.content)
          signer ← decode_first d d.decode_signer_info sd.signer_infos "SignerInfo"
          certs ← ok_or (AppError.bad_request "SignedData carries no certificates") sd.certificates
          cert ← decode_first d d.decode_relaxed_certificate certs "certificate"
          attrs ←
              ok_or (AppError.bad_request "SignerInfo has no signed attributes") signer.signed_attrs
          public_key ← rsa_public_key_from_spki p cert.public_key
          ok (record {
            signed_data = sd;
            signer = signer;
            cert = cert;
            attrs = attrs;
            public_key = public_key;
          })

module _ (a : Asn1) where
  -- The octets of the messageDigest attribute.
  unfoldable pub claimed_digest : List Attribute → AppResult Bytes
  unfolding find_attr
  claimed_digest attrs = do
    md_attr ←
        ok_or (AppError.bad_request "missing messageDigest attribute")
          (find_attr attrs id_message_digest)
    ok_or (AppError.bad_request "bad messageDigest attribute")
        (and_then (next md_attr.values) (λ v. to_option (a.decode_octets v)))

module _ (a : Asn1) (p : Primitives) where
  unfoldable pub check_signature : Parts → AppResult (Unit {0})
  check_signature parts = do
    signed_attrs_der ←
        map_err (λ e. AppError.crypto (format ("re-encode signed attrs: " ∷ e ∷ [])))
          (a.encode_attributes parts.attrs)
    verify_rsa p parts.signer.digest_alg parts.public_key signed_attrs_der parts.signer.signature

  unfoldable pub check_content : Parts → Option Bytes → AppResult (Unit {0})
  check_content parts none = ok tt
  check_content parts (some content) = do
    claimed ← claimed_digest a parts.attrs
    computed ← digest p parts.signer.digest_alg content
    if not (bytes_eq claimed computed)
        then err (AppError.bad_request "messageDigest does not match content")
        else ok tt

module _ (a : Asn1) where
  -- `econtent.as_deref().map(envelope::parse).transpose()`
  unfoldable pub parse_content : Option Bytes → AppResult (Option EnvelopedData)
  parse_content none = ok none
  parse_content (some content) = do enveloped ← Envelope.parse a content; ok (some enveloped)

  unfoldable pub read_envelope : MessageType → Option Bytes → AppResult (Option EnvelopedData)
  unfolding parse_content
  read_envelope MessageType.pkcs_req content = parse_content content
  read_envelope MessageType.renewal_req content = parse_content content
  read_envelope MessageType.cert_rep content = parse_content content
  read_envelope _ content = ok none

  unfoldable pub read_metadata : Parts → AppResult ParsedRequest
  unfolding read_envelope
  read_metadata parts = do
    type_text ← read_string a parts.attrs id_message_type
    message_type ← from_value type_text
    transaction_id ← read_string a parts.attrs id_transaction_id
    sender_nonce ← read_octets a parts.attrs id_sender_nonce
    enveloped ← read_envelope message_type parts.signed_data.econtent
    ok (record {
      message_type = message_type;
      transaction_id = transaction_id;
      sender_nonce = sender_nonce;
      recipient = record {
        public_key = parts.public_key;
        issuer = parts.cert.issuer;
        serial = parts.cert.serial_number;
      };
      enveloped = enveloped;
    })

module _ (a : Asn1) (p : Primitives) (d : Decoders) where
  unfoldable pub parse_and_verify : Bytes → AppResult ParsedRequest
  unfolding signed_parts check_signature check_content read_metadata
  parse_and_verify der = do
    parts ← signed_parts a p d der
    signature_ok ← check_signature a p parts
    content_ok ← check_content a p parts parts.signed_data.econtent
    read_metadata a parts
