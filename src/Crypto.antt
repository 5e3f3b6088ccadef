-- ===== src/Crypto.antt =====
-- src/crypto: the CMS messages of SCEP. The object identifiers are those of src/crypto/mod.rs, the
-- ones taken from `const-oid` by their documented values.
pub mod Envelope
pub mod Sign
pub mod Verify
use blapki.Prelude.{some, none, String, Bytes, format, map_err, [], ◌∷◌}
use blapki.Error.{AppError, AppResult}
use blapki.Crates.{AlgorithmIdentifier, Certificate, Primitives}

abbrev pub id_data : String
id_data = "1.2.840.113549.1.7.1"

abbrev pub id_signed_data : String
id_signed_data = "1.2.840.113549.1.7.2"

abbrev pub id_enveloped_data : String
id_enveloped_data = "1.2.840.113549.1.7.3"

abbrev pub id_sha1 : String
id_sha1 = "1.3.14.3.2.26"

abbrev pub id_sha256 : String
id_sha256 = "2.16.840.1.101.3.4.2.1"

abbrev pub id_aes_128_cbc : String
id_aes_128_cbc = "2.16.840.1.101.3.4.1.2"

abbrev pub id_aes_192_cbc : String
id_aes_192_cbc = "2.16.840.1.101.3.4.1.22"

abbrev pub id_aes_256_cbc : String
id_aes_256_cbc = "2.16.840.1.101.3.4.1.42"

abbrev pub id_des_ede3_cbc : String
id_des_ede3_cbc = "1.2.840.113549.3.7"

abbrev pub id_des_cbc : String
id_des_cbc = "1.3.14.3.2.7"

abbrev pub id_rsa_encryption : String
id_rsa_encryption = "1.2.840.113549.1.1.1"

-- `rfc5911::ID_CONTENT_TYPE`, which the builder of `cms` writes.
abbrev pub id_content_type : String
id_content_type = "1.2.840.113549.1.9.3"

abbrev pub id_message_digest : String
id_message_digest = "1.2.840.113549.1.9.4"

-- A digest algorithm without parameters.
abbrev pub digest_alg : String → AlgorithmIdentifier
digest_alg oid = record { oid = oid; parameters = none }

-- The DER of an ASN.1 NULL.
abbrev pub null_der : Bytes
null_der = 5 ∷ 0 ∷ []

-- SHA-256 with an explicit NULL.
abbrev pub sha256_alg : AlgorithmIdentifier
sha256_alg = record { oid = id_sha256; parameters = some null_der }

-- An RSA public key from a `SubjectPublicKeyInfo`.
unfoldable pub rsa_public_key_from_spki : Primitives → Bytes → AppResult Bytes
rsa_public_key_from_spki p spki =
    map_err (λ e. AppError.crypto (format ("not an RSA key: " ∷ e ∷ []))) (p.rsa_public_key spki)

unfoldable pub rsa_public_key : Primitives → Certificate → AppResult Bytes
unfolding rsa_public_key_from_spki
rsa_public_key p cert = rsa_public_key_from_spki p cert.public_key
