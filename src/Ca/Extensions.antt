-- ===== src/Ca/Extensions.antt =====
-- src/ca/extensions.rs: the extensions of a leaf certificate.
use blapki.Prelude.{
  ℕ, String, Option, none, some, Result, ok, err, List, [], ◌∷◌, Bytes, format, next, find, map_err,
  map_ok, bit_or, not, ◌>>=◌, ◌==◌, ◌||◌, if◌then◌else◌,
}
use blapki.Error.{AppError, AppResult}
use blapki.Crates.{Asn1, Attribute, CertReq}

abbrev pub id_ce_subject_alt_name : String
id_ce_subject_alt_name = "2.5.29.17"

abbrev pub id_ad_ocsp : String
id_ad_ocsp = "1.3.6.1.5.5.7.48.1"

abbrev pub id_extension_req : String
id_extension_req = "1.2.840.113549.1.9.14"

abbrev pub id_kp_client_auth : String
id_kp_client_auth = "1.3.6.1.5.5.7.3.2"

abbrev pub id_kp_server_auth : String
id_kp_server_auth = "1.3.6.1.5.5.7.3.1"

abbrev pub id_kp_email_protection : String
id_kp_email_protection = "1.3.6.1.5.5.7.3.4"

-- The bits of `KeyUsages`.
unfoldable pub key_usage_flag : String → AppResult ℕ
key_usage_flag name =
    if name == "digitalSignature"
    then ok 1
    else if name == "nonRepudiation" || name == "contentCommitment"
    then ok 2
    else if name == "keyEncipherment"
    then ok 4
    else if name == "dataEncipherment"
    then ok 8
    else if name == "keyAgreement"
    then ok 16
    else if name == "keyCertSign"
    then ok 32
    else if name == "cRLSign" || name == "crlSign"
    then ok 64
    else err (AppError.config (format ("unknown key usage '" ∷ name ∷ "'" ∷ [])))

-- The loop of `key_usage`, from the flags so far.
unfoldable pub add_usages : ℕ → List String → AppResult ℕ
unfolding key_usage_flag
add_usages flags [] = ok flags
add_usages flags (name ∷ names) =
    key_usage_flag name >>= λ flag. add_usages (bit_or flags flag) names

unfoldable pub key_usage : List String → AppResult ℕ
unfolding add_usages
key_usage names = add_usages 0 names

-- What the extensions need of the crates: `ObjectIdentifier::new`, `Ia5String::new` and the decoder
-- of a subjectAltName, which is kept as its DER.
pub record ExtensionCodec : Type 0 where
  pub new_oid : String → Result String String
  pub new_ia5 : String → Result String String
  pub decode_san : Bytes → Result String Bytes

-- The `DistributionPoint` that the program builds: the full name and nothing else.
pub record AccessDescription : Type 0 where
  pub access_method : String
  pub access_location : String

module _ (x : ExtensionCodec) where
  unfoldable pub eku_oid : String → AppResult String
  eku_oid name =
      if name == "clientAuth"
      then ok id_kp_client_auth
      else if name == "serverAuth"
      then ok id_kp_server_auth
      else if name == "emailProtection"
      then ok id_kp_email_protection
      else map_err (λ e. AppError.config (format ("invalid EKU '" ∷ name ∷ "'" ∷ [])))
          (x.new_oid name)

  unfoldable pub extended_key_usage : List String → AppResult (List String)
  unfolding eku_oid
  extended_key_usage [] = ok []
  extended_key_usage (name ∷ names) = do
    oid ← eku_oid name
    oids ← extended_key_usage names
    ok (oid ∷ oids)

  unfoldable pub authority_info_access : String → AppResult (List AccessDescription)
  authority_info_access ocsp_url = do
    uri ←
        map_err (λ e. AppError.config (format ("invalid OCSP URL: " ∷ e ∷ []))) (x.new_ia5 ocsp_url)
    ok (record { access_method = id_ad_ocsp; access_location = uri } ∷ [])

  unfoldable pub crl_distribution_points : String → AppResult (List String)
  crl_distribution_points crl_url = do
    uri ← map_err (λ e. AppError.config (format ("invalid CRL URL: " ∷ e ∷ []))) (x.new_ia5 crl_url)
    ok (uri ∷ [])

module _ (a : Asn1) (x : ExtensionCodec) where
  -- The subjectAltName among the extensions of one extensionRequest.
  unfoldable pub san_of : Bytes → AppResult (Option Bytes)
  san_of value = do
    extensions ←
        map_err (λ e. AppError.bad_request (format ("bad extensionRequest: " ∷ e ∷ [])))
          (a.decode_extensions value)
    elim (find (λ ext. ext.extn_id == id_ce_subject_alt_name) extensions) [
      | none ↦ ok none
      | some ext ↦ map_ok some (
          map_err (λ e. AppError.bad_request (format ("bad SAN in CSR: " ∷ e ∷ [])))
            (x.decode_san ext.extn_value))
    ]

  -- What one attribute gives: nothing where the loop continues.
  unfoldable pub attribute_san : Attribute → AppResult (Option Bytes)
  unfolding san_of
  attribute_san attr =
      if not (attr.oid == id_extension_req)
      then ok none
      else elim (next attr.values) [ none ↦ ok none | some value ↦ san_of value ]

  unfoldable pub san_in : List Attribute → AppResult (Option Bytes)
  san_in [] = ok none
  san_in (attr ∷ attrs) = do
    found ← attribute_san attr
    elim found [ some san ↦ ok (some san) | none ↦ san_in attrs ]

  unfoldable pub requested_san : CertReq → AppResult (Option Bytes)
  unfolding san_in
  requested_san csr = san_in csr.attributes
