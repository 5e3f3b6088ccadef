-- ===== src/Crypto/Sign.antt =====
-- src/crypto/sign.rs: an outbound `CertRep`; and src/crypto/degenerate.rs.
pub mod Distinct
pub mod Laws
pub mod Drafts
pub mod Received
pub mod Reply
pub mod Refusal
use blapki.Prelude.{
  String, Option, none, some, Result, ok, List, [], ◌∷◌, Bytes, format, map_err, ◌>>=◌,
}
use blapki.Error.{AppError, AppResult}
use blapki.Crates.{AlgorithmIdentifier, Attribute, Certificate, ContentInfo, Asn1}
use blapki.Scep.Attributes.{der_err}
use blapki.Crypto.{id_data, sha256_alg}

pub record EncapsulatedContentInfo : Type 0 where
  pub econtent_type : String
  pub econtent : Option Bytes

-- A `SignerInfo` in the making: the key that will sign, who it names, and what is signed.
pub record SignerInfo : Type 0 where
  pub signer : Bytes
  pub issuer : Bytes
  pub serial_number : Bytes
  pub digest_alg : AlgorithmIdentifier
  pub encap : EncapsulatedContentInfo
  pub signed_attrs : List Attribute

-- A `SignedData` in the making.
pub record SignedData : Type 0 where
  pub encap : EncapsulatedContentInfo
  pub digest_algorithms : List AlgorithmIdentifier
  pub certificates : List Certificate
  pub signer_infos : List SignerInfo

-- The builders of `cms`. `build` signs and returns the `ContentInfo`; `certs_only` makes the DER of a
-- degenerate one of certificates.
pub record CmsBuilder : Type 0 where
  pub new_signer_info : SignerInfo → Result String SignerInfo
  pub content_type_attribute : String → Result String Attribute
  pub add_signed_attribute : SignerInfo → Attribute → Result String SignerInfo
  pub add_digest_algorithm : SignedData → AlgorithmIdentifier → Result String SignedData
  pub add_certificate : SignedData → Certificate → Result String SignedData
  pub add_signer_info : SignedData → SignerInfo → Result String SignedData
  pub build : SignedData → Result String ContentInfo
  pub certs_only : List Certificate → Result String Bytes

abbrev pub builder_err : String → AppError
builder_err e = AppError.crypto (format ("CMS builder error: " ∷ e ∷ []))

module _ (b : CmsBuilder) where
  unfoldable pub add_attributes : List Attribute → SignerInfo → AppResult SignerInfo
  add_attributes [] info = ok info
  add_attributes (attr ∷ attrs) info =
      map_err builder_err (b.add_signed_attribute info attr) >>= λ info'. add_attributes attrs info'

  -- The builder adds a content-type attribute only where there is content.
  unfoldable pub add_content_type : Option Bytes → SignerInfo → AppResult SignerInfo
  add_content_type (some content) info = ok info
  add_content_type none info = do
    ct ← map_err builder_err (b.content_type_attribute id_data)
    map_err builder_err (b.add_signed_attribute info ct)

  unfoldable pub certs_only : Certificate → AppResult Bytes
  certs_only cert = map_err der_err (b.certs_only (cert ∷ []))

  unfoldable pub chain_only : List Certificate → AppResult Bytes
  chain_only chain = map_err der_err (b.certs_only chain)

module _ (a : Asn1) (b : CmsBuilder) where
  unfoldable pub encapsulate : Option Bytes → AppResult EncapsulatedContentInfo
  encapsulate none = ok (record { econtent_type = id_data; econtent = none })
  encapsulate (some content) = do
    os ← map_err der_err (a.new_octets content)
    any ← map_err der_err (a.encode_octets os)
    ok (record { econtent_type = id_data; econtent = some any })

  -- `SignedDataBuilder`, from its start to the DER.
  unfoldable pub build_signed_data :
      EncapsulatedContentInfo → AlgorithmIdentifier → Certificate → SignerInfo → AppResult Bytes
  build_signed_data encap digest signer_cert signer_info = do
    with_digest ← map_err builder_err (
        b.add_digest_algorithm
          (record { encap = encap; digest_algorithms = []; certificates = []; signer_infos = [] })
          digest)
    with_certificate ← map_err builder_err (b.add_certificate with_digest signer_cert)
    with_signer ← map_err builder_err (b.add_signer_info with_certificate signer_info)
    content_info ← map_err builder_err (b.build with_signer)
    map_err der_err (a.encode_content_info content_info)

  unfoldable pub build_cert_rep :
      Bytes → Certificate → Option Bytes → List Attribute → AppResult Bytes
  unfolding encapsulate add_content_type build_signed_data
  build_cert_rep signer signer_cert message_data signed_attrs = do
    encap ← encapsulate message_data
    new_info ← map_err builder_err (
        b.new_signer_info (record {
          signer = signer;
          issuer = signer_cert.issuer;
          serial_number = signer_cert.serial_number;
          digest_alg = sha256_alg;
          encap = encap;
          signed_attrs = [];
        }))
    typed_info ← add_content_type b message_data new_info
    signer_info ← add_attributes b signed_attrs typed_info
    build_signed_data encap sha256_alg signer_cert signer_info
