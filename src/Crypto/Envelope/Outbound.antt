-- ===== src/Crypto/Envelope/Outbound.antt =====
-- src/crypto/envelope.rs: encrypting an outbound reply.
use blapki.Prelude.{
  ℕ, String, some, Result, ok, err, List, [], ◌∷◌, Bytes, format, map_err, ◌>>=◌, if◌then◌else◌,
}
use blapki.Error.{AppError, AppResult}
use blapki.Crates.{AlgorithmIdentifier, EncryptedContentInfo, Certificate, Asn1, Cipher, Primitives}
use blapki.Scep.Attributes.{der_err}
use blapki.Crypto.{
  id_data, id_enveloped_data, id_aes_256_cbc, id_rsa_encryption, null_der, rsa_public_key,
}

-- The recipient of an outbound envelope: the enrolling device.
pub record Recipient : Type 0 where
  pub public_key : Bytes
  pub issuer : Bytes
  pub serial : Bytes

pub record OutIssuerAndSerial : Type 0 where
  pub issuer : Bytes
  pub serial_number : Bytes

pub record OutKeyTransRecipientInfo : Type 0 where
  pub version : ℕ
  pub rid : OutIssuerAndSerial
  pub key_enc_alg : AlgorithmIdentifier
  pub enc_key : Bytes

pub record OutEnvelopedData : Type 0 where
  pub version : ℕ
  pub recip_infos : List Bytes
  pub encrypted_content : EncryptedContentInfo

-- The encoders that `#[derive(Sequence)]` makes for these two, `Any::new` for an OCTET STRING and
-- `SerialNumber::<Raw>::new`.
pub record OutCodec : Type 0 where
  pub encode_ktri : OutKeyTransRecipientInfo → Result String Bytes
  pub encode_enveloped : OutEnvelopedData → Result String Bytes
  pub octet_string_any : Bytes → Result String Bytes
  pub new_raw_serial : Bytes → Result String Bytes

-- The random values of one reply: the content-encryption key, the IV and the padding of the wrap.
pub record Draws : Type 0 where
  pub cek : Bytes
  pub iv : Bytes
  pub padding : Bytes

module _ (a : Asn1) (p : Primitives) (c : OutCodec) where
  unfoldable pub encrypt_content : Draws → Bytes → AppResult Bytes
  encrypt_content d plaintext =
      if p.cbc_accepts Cipher.aes256 d.cek d.iv
      then ok (p.cbc_encrypt Cipher.aes256 d.cek d.iv plaintext)
      else err (AppError.crypto "invalid AES key/IV length")

  -- the encoded `KeyTransRecipientInfo` of the reply
  unfoldable pub key_transport : Draws → Recipient → AppResult Bytes
  key_transport d recipient = do
    encrypted_key ←
        map_err (λ e. AppError.crypto (format ("RSA key wrap failed: " ∷ e ∷ [])))
          (p.rsa_encrypt d.padding recipient.public_key d.cek)
    enc_key ← map_err der_err (a.new_octets encrypted_key)
    map_err der_err (
        c.encode_ktri (record {
          version = 0;
          rid = record { issuer = recipient.issuer; serial_number = recipient.serial };
          key_enc_alg = record { oid = id_rsa_encryption; parameters = some null_der };
          enc_key = enc_key;
        }))

  -- the encoded `EnvelopedData` of the reply
  unfoldable pub enveloped_data : Draws → Bytes → Bytes → AppResult Bytes
  enveloped_data d ciphertext info = do
    recip_infos ← map_err der_err (a.set_insert [] info)
    iv ← map_err der_err (c.octet_string_any d.iv)
    content ← map_err der_err (a.new_octets ciphertext)
    map_err der_err (
        c.encode_enveloped (record {
          version = 0;
          recip_infos = recip_infos;
          encrypted_content = record {
            content_type = id_data;
            content_enc_alg = record { oid = id_aes_256_cbc; parameters = some iv };
            encrypted_content = some content;
          };
        }))

  unfoldable pub build_for : Draws → Bytes → Recipient → AppResult Bytes
  build_for d plaintext recipient = do
    ciphertext ← encrypt_content d plaintext
    info ← key_transport d recipient
    enveloped ← enveloped_data d ciphertext info
    map_err der_err
        (a.encode_content_info (record { content_type = id_enveloped_data; content = enveloped }))

  -- For the key, the issuer and the serial number of a certificate.
  unfoldable pub build : Draws → Bytes → Certificate → AppResult Bytes
  unfolding build_for
  build d plaintext recipient_cert = do
    public_key ← rsa_public_key p recipient_cert
    serial ← map_err der_err (c.new_raw_serial recipient_cert.serial_number)
    build_for d plaintext
        (record { public_key = public_key; issuer = recipient_cert.issuer; serial = serial })
