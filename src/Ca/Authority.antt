-- ===== src/Ca/Authority.antt =====
-- src/ca/authority.rs: issuing a leaf certificate.
--
-- The `CertificateBuilder` is the crate's. `Builder` has its functions; a `Template` is a builder
-- in the making, of which the program sees nothing.
pub mod Leaf
use blapki.Prelude.{
  ℕ, ◌*◌, String, Bool, false, Option, none, some, Result, ok, err, List, [], ◌∷◌, Bytes, format,
  map_err, ◌>>=◌,
}
use blapki.Error.{AppError, AppResult}
use blapki.Crates.{Asn1, Certificate, CertReq, DateTime}
use blapki.Scep.Attributes.{der_err}
use blapki.Ca.Serial.{random_serial}
use blapki.Ca.Extensions.{
  ExtensionCodec, AccessDescription, key_usage, extended_key_usage, requested_san,
  authority_info_access, crl_distribution_points,
}

-- Parameters controlling how a leaf certificate is issued.
pub record IssueOptions : Type 0 where
  pub validity_days : ℕ
  pub key_usage : List String
  pub extended_key_usage : List String
  pub ocsp_url : Option String
  pub crl_url : Option String

-- A loaded certificate authority. Its signing key is made from its private key.
pub record CertificateAuthority : Type 0 where
  pub id : String
  pub cert : Certificate
  pub private_key : Bytes

-- `CertificateAuthority::new`
abbrev pub new : String → Certificate → Bytes → CertificateAuthority
new id cert private_key = record { id = id; cert = cert; private_key = private_key }

-- The issuer of the certificates that it issues.
abbrev pub subject : CertificateAuthority → Bytes
subject ca = ca.cert.subject

pub record Validity : Type 0 where
  pub not_before : DateTime
  pub not_after : DateTime

-- The extensions that the program adds.
pub data ExtensionValue : Type 0 where
  basic_constraints : Bool → Option ℕ → ExtensionValue
  key_usage_flags : ℕ → ExtensionValue
  key_purposes : List String → ExtensionValue
  subject_key_identifier : Bytes → ExtensionValue
  authority_key_identifier : Bytes → ExtensionValue
  subject_alt_name : Bytes → ExtensionValue
  info_access : List AccessDescription → ExtensionValue
  distribution_points : List String → ExtensionValue

pub record Builder : Type 1 where
  pub Template : Type 0
  -- `Validity::from_now`, of a number of seconds
  pub validity_from_now : ℕ → Result String Validity
  pub new_subject_key_id : Bytes → Result String Bytes
  pub new_authority_key_id : Bytes → Result String Bytes
  -- the issuer, the serial number, the validity, the subject, its public key and the signing key
  pub new_template : Bytes → Bytes → Validity → Bytes → Bytes → Bytes → Result String Template
  pub add_extension : Template → ExtensionValue → Result String Template
  pub build : Template → Result String Certificate

abbrev pub bld_err : String → AppError
bld_err e = AppError.crypto (format ("certificate builder error: " ∷ e ∷ []))

module _ (a : Asn1) (x : ExtensionCodec) (b : Builder) where
  unfoldable pub add_all : List ExtensionValue → b.Template → AppResult b.Template
  add_all [] template = ok template
  add_all (value ∷ values) template = do
    template' ← map_err bld_err (b.add_extension template value)
    add_all values template'

  unfoldable pub add_purposes : List String → b.Template → AppResult b.Template
  unfolding add_all
  add_purposes [] template = ok template
  add_purposes (oid ∷ oids) template = add_all (key_purposes (oid ∷ oids) ∷ []) template

  unfoldable pub add_san : Option Bytes → b.Template → AppResult b.Template
  unfolding add_all
  add_san none template = ok template
  add_san (some san) template = add_all (subject_alt_name san ∷ []) template

  unfoldable pub add_ocsp : Option String → b.Template → AppResult b.Template
  unfolding add_all
  add_ocsp none template = ok template
  add_ocsp (some ocsp) template =
      authority_info_access x ocsp >>= λ aia. add_all (info_access aia ∷ []) template

  unfoldable pub add_crl : Option String → b.Template → AppResult b.Template
  unfolding add_all
  add_crl none template = ok template
  add_crl (some crl) template =
      crl_distribution_points x crl >>= λ points. add_all (distribution_points points ∷ []) template

  -- The extensions of a leaf, in order.
  unfoldable pub add_leaf_extensions :
      CertReq → IssueOptions → Bytes → Bytes → b.Template → AppResult b.Template
  unfolding add_all add_purposes add_san add_ocsp add_crl
  add_leaf_extensions csr opts ski aki template = do
    with_constraints ← add_all (basic_constraints false none ∷ []) template
    usage ← key_usage opts.key_usage
    with_usage ← add_all (key_usage_flags usage ∷ []) with_constraints
    eku ← extended_key_usage x opts.extended_key_usage
    with_eku ← add_purposes eku with_usage
    with_ids ← add_all (subject_key_identifier ski ∷ authority_key_identifier aki ∷ []) with_eku
    san ← requested_san a x csr
    with_san ← add_san san with_ids
    with_ocsp ← add_ocsp opts.ocsp_url with_san
    add_crl opts.crl_url with_ocsp

  -- `random` is what the generator gives for the serial number.
  unfoldable pub issue :
      Bytes → CertificateAuthority → CertReq → IssueOptions → AppResult Certificate
  unfolding add_leaf_extensions
  issue random ca csr opts = do
    validity ← map_err der_err (b.validity_from_now (opts.validity_days * 86400))
    ski ←
        map_err (λ e. AppError.crypto (format ("subject key identifier: " ∷ e ∷ [])))
          (b.new_subject_key_id csr.public_key)
    aki ←
        map_err (λ e. AppError.crypto (format ("authority key identifier: " ∷ e ∷ [])))
          (b.new_authority_key_id ca.cert.public_key)
    template ← map_err bld_err (
        b.new_template (subject ca) (random_serial random) validity csr.subject csr.public_key
          ca.private_key)
    template' ← add_leaf_extensions csr opts ski aki template
    map_err bld_err (b.build template')
