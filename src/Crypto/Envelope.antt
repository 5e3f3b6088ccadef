-- ===== src/Crypto/Envelope.antt =====
-- src/crypto/envelope.rs: decrypting an inbound request.
pub mod Keys
pub mod Recipients
pub mod Outbound
pub mod RoundTrip
use blapki.Prelude.{
  ℕ, String, Bool, true, false, ◌&&◌, Option, none, some, Result, ok, err, List, [], ◌∷◌, Bytes,
  format, find, take, length, map_err, ok_or, ◌>>=◌, ◌==◌, eqb, bytes_eq, as_bytes, if◌then◌else◌,
  ◌++◌,
}
use blapki.Error.{AppError, AppResult}
use blapki.Crates.{
  AlgorithmIdentifier, Certificate, RecipientIdentifier, issuer_and_serial_number,
  subject_key_identifier, KeyTransRecipientInfo, RecipientInfo, ktri, other_kind, EnvelopedData,
  ContentInfo, Asn1, Cipher, Primitives,
}
use blapki.Scep.Attributes.{der_err}
use blapki.Crypto.{
  id_data, id_enveloped_data, id_aes_128_cbc, id_aes_192_cbc, id_aes_256_cbc, id_des_ede3_cbc,
  id_des_cbc, id_rsa_encryption,
}

abbrev unsupported : String → AppError
unsupported alg = AppError.crypto (format ("unsupported content encryption algorithm " ∷ alg ∷ []))

unfoldable pub content_key_len : String → AppResult ℕ
content_key_len alg =
    if alg == id_aes_128_cbc
    then ok 16
    else if alg == id_aes_192_cbc
    then ok 24
    else if alg == id_aes_256_cbc
    then ok 32
    else if alg == id_des_ede3_cbc
    then ok 24
    else if alg == id_des_cbc
    then ok 8
    else err (unsupported alg)

-- The cipher that each arm of `decrypt_symmetric` names.
unfoldable pub cipher_of : String → AppResult Cipher
cipher_of alg =
    if alg == id_aes_128_cbc
    then ok Cipher.aes128
    else if alg == id_aes_192_cbc
    then ok Cipher.aes192
    else if alg == id_aes_256_cbc
    then ok Cipher.aes256
    else if alg == id_des_ede3_cbc
    then ok Cipher.tdes_ede3
    else if alg == id_des_cbc
    then ok Cipher.des
    else err (unsupported alg)

-- The key-transport recipients, in order.
unfoldable pub ktris : List RecipientInfo → List KeyTransRecipientInfo
ktris [] = []
ktris (ktri k ∷ rest) = k ∷ ktris rest
ktris (other_kind n ∷ rest) = ktris rest

only_or_err : List KeyTransRecipientInfo → AppResult KeyTransRecipientInfo
only_or_err (only ∷ []) = ok only
only_or_err _ = err (AppError.crypto "no key-transport recipient names the CA certificate")

module _ (a : Asn1) where
  unfoldable pub read_iv : Option Bytes → AppResult Bytes
  read_iv parameters = do
    any ← ok_or (AppError.crypto "content encryption algorithm has no IV parameter") parameters
    map_err (λ e. AppError.crypto (format ("IV is not an OCTET STRING: " ∷ e ∷ [])))
        (a.decode_octets any)

  ski_matches : Bytes → Option Bytes → Bool
  ski_matches ski none = false
  ski_matches ski (some ca_ski) = bytes_eq ca_ski ski

  rid_matches : RecipientIdentifier → Certificate → Bool
  unfolding ski_matches
  rid_matches (issuer_and_serial_number issuer serial) ca_cert =
      bytes_eq issuer ca_cert.issuer && bytes_eq serial ca_cert.serial_number
  rid_matches (subject_key_identifier ski) ca_cert = ski_matches ski (a.subject_key_id ca_cert)

  unfoldable pub ktri_matches : KeyTransRecipientInfo → Certificate → Bool
  unfolding rid_matches
  ktri_matches k ca_cert = rid_matches k.rid ca_cert

  unfoldable pub select_recipient : EnvelopedData → Certificate → AppResult KeyTransRecipientInfo
  unfolding ktris ktri_matches only_or_err
  select_recipient enveloped ca_cert =
      elim (find (λ k. ktri_matches k ca_cert) (ktris enveloped.recip_infos)) [
        | some k ↦ ok k
        | none ↦ only_or_err (ktris enveloped.recip_infos)
      ]

  -- A `ContentInfo` that wraps an `EnvelopedData`, or a bare one.
  unfoldable pub parse : Bytes → AppResult EnvelopedData
  parse der =
      let bare =
        map_err (λ e. AppError.crypto (format ("not an EnvelopedData: " ∷ e ∷ [])))
          (a.decode_enveloped_data der) in
      elim (a.decode_content_info der) [
        | ok ci ↦
            if ci.content_type == id_enveloped_data
            then map_err
                (λ e. AppError.crypto (format ("bad EnvelopedData in ContentInfo: " ∷ e ∷ [])))
                (a.decode_enveloped_data ci.content)
            else bare
        | err _ ↦ bare
      ]

module _ (p : Primitives) where
  unfoldable pub synthetic_cek : Bytes → Bytes → ℕ → Bytes
  synthetic_cek ca_key encrypted_key key_len =
      let kdk = p.sha256 (as_bytes "blapki implicit rejection" ++ p.private_exponent ca_key) in
      take key_len (p.hmac_sha256 kdk encrypted_key)

  -- the key that was unwrapped, if it has the right length, and the fallback otherwise
  choose_cek : ℕ → Bytes → Result String Bytes → Bytes
  choose_cek key_len synthetic (ok cek) = if eqb (length cek) key_len then cek else synthetic
  choose_cek key_len synthetic (err _) = synthetic

  unfoldable pub unwrap_cek : Bytes → Bytes → ℕ → Bytes
  unfolding choose_cek synthetic_cek
  unwrap_cek ca_key encrypted_key key_len =
      choose_cek key_len (synthetic_cek ca_key encrypted_key key_len)
        (p.rsa_decrypt ca_key encrypted_key)

  unfoldable pub decrypt_symmetric : String → Bytes → Bytes → Bytes → AppResult Bytes
  unfolding cipher_of
  decrypt_symmetric alg key iv ciphertext = do
    cipher ← cipher_of alg
    if p.cbc_accepts cipher key iv
        then ok_or (AppError.crypto "content decryption / unpad failed")
            (p.cbc_decrypt cipher key iv ciphertext)
        else err (AppError.crypto "invalid key/IV length for content cipher")

-- What `open` takes from an envelope before it uses the private key.
pub record Sealed : Type 0 where
  pub key_len : ℕ
  pub ciphertext : Bytes
  pub iv : Bytes
  pub recipient : KeyTransRecipientInfo

unfoldable pub public_checks : Asn1 → EnvelopedData → Certificate → AppResult Sealed
public_checks a enveloped ca_cert = do
  key_len ← content_key_len enveloped.content_enc_alg.oid
  ciphertext ←
      ok_or (AppError.crypto "enveloped data has no encrypted content") enveloped.encrypted_content
  iv ← read_iv a enveloped.content_enc_alg.parameters
  recipient ← select_recipient a enveloped ca_cert
  ok (record { key_len = key_len; ciphertext = ciphertext; iv = iv; recipient = recipient })

-- `open`: `ca_key` is the CA's private key.
unfoldable pub open_envelope :
    Asn1 → Primitives → EnvelopedData → Certificate → Bytes → AppResult Bytes
unfolding public_checks
open_envelope a p enveloped ca_cert ca_key = do
  s ← public_checks a enveloped ca_cert
  decrypt_symmetric p enveloped.content_enc_alg.oid
      (unwrap_cek p ca_key s.recipient.enc_key s.key_len) s.iv s.ciphertext
