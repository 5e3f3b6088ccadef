-- ===== src/Crates.antt =====
-- What the program uses of the crates `der`, `const-oid`, `x509-cert`, `cms`, `rsa`, `sha1`, `sha2`,
-- `hmac`, `cbc` and `cipher`, none of which is part of the repository.
--
-- The structures are the public ones of these crates, with the fields that the program reads or
-- writes. A value that the program only passes on (a distinguished name, a public or a private key,
-- an ASN.1 `Any`) is its DER encoding; an object identifier is its dotted text. The functions are
-- the parameter `Asn1` or `Primitives` of the definitions that call them. A fallible one returns the
-- text that its error displays. What proofs need of them is in the records of laws.
pub mod Laws
use blapki.Prelude.{ℕ, String, Bool, Option, Result, List, Bytes}

pub record Attribute : Type 0 where
  pub oid : String
  pub values : List Bytes

pub record AlgorithmIdentifier : Type 0 where
  pub oid : String
  pub parameters : Option Bytes

pub record Extension : Type 0 where
  pub extn_id : String
  pub extn_value : Bytes

pub record DateTime : Type 0 where
  pub year : ℕ
  pub month : ℕ
  pub day : ℕ
  pub hour : ℕ
  pub minutes : ℕ
  pub seconds : ℕ

pub record Certificate : Type 0 where
  pub serial_number : Bytes
  pub issuer : Bytes
  pub subject : Bytes
  pub not_before : DateTime
  pub not_after : DateTime
  pub public_key : Bytes
  pub extensions : List Extension

pub record CertReq : Type 0 where
  pub subject : Bytes
  pub public_key : Bytes
  pub attributes : List Attribute

pub data RecipientIdentifier : Type 0 where
  issuer_and_serial_number : Bytes → Bytes → RecipientIdentifier
  subject_key_identifier : Bytes → RecipientIdentifier

pub record KeyTransRecipientInfo : Type 0 where
  pub rid : RecipientIdentifier
  pub enc_key : Bytes

-- The other kinds of recipient are told apart by their tag alone.
pub data RecipientInfo : Type 0 where
  ktri : KeyTransRecipientInfo → RecipientInfo
  other_kind : ℕ → RecipientInfo

pub record EnvelopedData : Type 0 where
  pub recip_infos : List RecipientInfo
  pub content_enc_alg : AlgorithmIdentifier
  pub encrypted_content : Option Bytes

pub record EncryptedContentInfo : Type 0 where
  pub content_type : String
  pub content_enc_alg : AlgorithmIdentifier
  pub encrypted_content : Option Bytes

pub record ContentInfo : Type 0 where
  pub content_type : String
  pub content : Bytes

-- Decoding and encoding.
pub record Asn1 : Type 0 where
  pub decode_printable : Bytes → Result String String
  pub decode_utf8 : Bytes → Result String String
  pub decode_ia5 : Bytes → Result String String
  pub decode_octets : Bytes → Result String Bytes
  pub new_printable : String → Result String String
  pub encode_printable : String → Result String Bytes
  pub new_octets : Bytes → Result String Bytes
  pub encode_octets : Bytes → Result String Bytes
  -- `SetOfVec::insert`
  pub set_insert : List Bytes → Bytes → Result String (List Bytes)
  pub decode_content_info : Bytes → Result String ContentInfo
  pub encode_content_info : ContentInfo → Result String Bytes
  pub decode_enveloped_data : Bytes → Result String EnvelopedData
  pub decode_cert_req : Bytes → Result String CertReq
  pub decode_certificate : Bytes → Result String Certificate
  pub encode_certificate : Certificate → Result String Bytes
  pub decode_extensions : Bytes → Result String (List Extension)
  -- the re-encoding of the signed attributes as a `SET OF`
  pub encode_attributes : List Attribute → Result String Bytes
  pub subject_key_id : Certificate → Option Bytes
  pub name_to_string : Bytes → String

-- The ciphers of the `cbc` mode.
pub data Cipher : Type 0 where
  aes128 aes192 aes256 tdes_ede3 des : Cipher

-- Keys, signatures, hashes and ciphers.
pub record Primitives : Type 0 where
  pub rsa_public_key : Bytes → Result String Bytes
  pub rsa_decrypt : Bytes → Bytes → Result String Bytes
  -- the first argument is the randomness of the padding
  pub rsa_encrypt : Bytes → Bytes → Bytes → Result String Bytes
  pub new_signature : Bytes → Result String Bytes
  pub verify_sha256 : Bytes → Bytes → Bytes → Bool
  pub verify_sha1 : Bytes → Bytes → Bytes → Bool
  pub private_exponent : Bytes → Bytes
  pub sha256 : Bytes → Bytes
  pub sha1 : Bytes → Bytes
  pub hmac_sha256 : Bytes → Bytes → Bytes
  -- whether `new_from_slices` accepts the lengths of the key and of the IV
  pub cbc_accepts : Cipher → Bytes → Bytes → Bool
  pub cbc_decrypt : Cipher → Bytes → Bytes → Bytes → Option Bytes
  pub cbc_encrypt : Cipher → Bytes → Bytes → Bytes → Bytes
