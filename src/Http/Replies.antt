-- ===== src/Http/Replies.antt =====
-- src/http/scep.rs: what its handlers compute without waiting: the parts of a reply.
pub mod Device
pub mod Received
use blapki.Prelude.{
  String, none, some, ok, err, [], ◌∷◌, Bytes, format, map_err, ok_or, to_option, unwrap_or, ◌>>=◌,
}
use blapki.Error.{AppError, AppResult, Response}
use blapki.Db.{IssuedCertificate}
use blapki.Db.Repo.{status_valid}
use blapki.Crates.{Certificate, DateTime, EnvelopedData}
use blapki.Scep.Attributes.{MessageType, FailInfo}
use blapki.Scep.Nonce.{generate}
use blapki.Scep.Protocol.{success_attrs, failure_attrs}
use blapki.Crypto.Envelope.{open_envelope}
use blapki.Crypto.Envelope.Outbound.{build_for}
use blapki.Crypto.Verify.{ParsedRequest}
use blapki.Crypto.Sign.{certs_only, build_cert_rep}
use blapki.Intune.{IssuedInfo}
use blapki.Challenge.{ValidationInput}
use blapki.Ca.Csr
use blapki.Ca.Csr.{ParsedCsr}
use blapki.Ca.Authority.{CertificateAuthority, IssueOptions}
use blapki.Http.{
  ProfileRuntime, AppState, ca_for_profile, ocsp_url, crl_url, Libraries, Moment, bytes_response,
}
use blapki.Http.Print.{time_to_utc, serial_decimal, common_name}

-- `der::DateTime::INFINITY`
abbrev pub infinity : DateTime
infinity = record { year = 9999; month = 12; day = 31; hour = 23; minutes = 59; seconds = 59 }

abbrev pub now_utc : Moment → String
now_utc m = time_to_utc (unwrap_or infinity (to_option m.now))

abbrev pub ct_ca_cert : String
ct_ca_cert = "application/x-x509-ca-cert"

abbrev pub ct_pki_message : String
ct_pki_message = "application/x-pki-message"

-- `{:?}`
abbrev debug_name : MessageType → String
debug_name MessageType.cert_rep = "CertRep"
debug_name MessageType.pkcs_req = "PkcsReq"
debug_name MessageType.renewal_req = "RenewalReq"
debug_name MessageType.get_cert_initial = "GetCertInitial"
debug_name MessageType.get_cert = "GetCert"
debug_name MessageType.get_crl = "GetCrl"

unfoldable pub check_type : MessageType → AppResult (Unit {0})
check_type MessageType.pkcs_req = ok tt
check_type MessageType.renewal_req = ok tt
check_type other = err (
    AppError.bad_request
      (format ("unsupported SCEP messageType " ∷ debug_name other ∷ " in v1" ∷ [])))

abbrev pub input_of : ParsedRequest → ParsedCsr → ValidationInput
input_of parsed csr = record {
  transaction_id = parsed.transaction_id;
  csr_der = csr.der;
  challenge_password = csr.challenge_password;
}

abbrev pub issue_options : AppState → ProfileRuntime → IssueOptions
issue_options state rt = record {
  validity_days = rt.validity_days;
  key_usage = rt.key_usage;
  extended_key_usage = rt.extended_key_usage;
  ocsp_url = some (ocsp_url state rt.ca_id);
  crl_url = some (crl_url state rt.ca_id);
}

module _ (l : Libraries) where
  abbrev pub thumbprint : Bytes → String
  thumbprint der = l.hex_encode_upper (l.primitives.sha1 der)

  abbrev pub serial_hex : Certificate → String
  serial_hex cert = l.hex_encode cert.serial_number

  unfoldable pub get_ca_cert : AppState → String → AppResult Response
  get_ca_cert state profile = do
    ca ←
        ok_or (AppError.not_found (format ("unknown SCEP profile '" ∷ profile ∷ "'" ∷ [])))
          (ca_for_profile state profile)
    der ←
        map_err (λ e. AppError.crypto (format ("encode CA cert: " ∷ e ∷ [])))
          (l.asn1.encode_certificate ca.cert)
    ok (bytes_response ct_ca_cert der)

  -- Opening the envelope and parsing the CSR in it, in one step.
  unfoldable pub open_request : CertificateAuthority → EnvelopedData → AppResult ParsedCsr
  open_request ca enveloped = do
    csr_der ← open_envelope l.asn1 l.primitives enveloped ca.cert ca.private_key
    Csr.parse l.asn1 csr_der

  -- The row that `persist` writes.
  abbrev pub issued_row :
      Moment
      → ProfileRuntime
      → CertificateAuthority
      → ParsedRequest
      → Certificate
      → Bytes
      → IssuedCertificate
  issued_row m rt ca parsed issued issued_der = record {
    serial = serial_hex issued;
    ca_id = ca.id;
    subject = l.asn1.name_to_string issued.subject;
    not_before = time_to_utc issued.not_before;
    not_after = time_to_utc issued.not_after;
    der_b64 = l.base64_encode issued_der;
    thumbprint_sha1 = thumbprint issued_der;
    transaction_id = some parsed.transaction_id;
    profile = some rt.name;
    status = status_valid;
    created_at = now_utc m;
    revoked_at = none;
    revocation_reason = none;
  }

  unfoldable pub issued_info : CertificateAuthority → Certificate → Bytes → IssuedInfo
  unfolding time_to_utc serial_decimal common_name
  issued_info ca issued issued_der = record {
    thumbprint_sha1 = thumbprint issued_der;
    serial_decimal = serial_decimal l.hex_encode issued.serial_number;
    not_after_utc = time_to_utc issued.not_after;
    issuer_cn = common_name (l.asn1.name_to_string ca.cert.subject);
  }

  unfoldable pub build_failure :
      Moment → CertificateAuthority → ParsedRequest → FailInfo → AppResult Bytes
  build_failure m ca parsed fail = do
    attrs ←
        failure_attrs l.asn1 (generate m.fill_bytes) parsed.transaction_id parsed.sender_nonce fail
    build_cert_rep l.asn1 l.cms ca.private_key ca.cert none attrs

  -- The signed and enveloped CertRep for the device.
  unfoldable pub build_success :
      Moment → CertificateAuthority → ParsedRequest → Certificate → AppResult Bytes
  build_success m ca parsed issued = do
    certs ← certs_only l.cms issued
    reply_env_der ← build_for l.asn1 l.primitives l.out m.draws certs (record {
      public_key = parsed.recipient.public_key;
      issuer = parsed.recipient.issuer;
      serial = parsed.recipient.serial;
    })
    attrs ← success_attrs l.asn1 (generate m.fill_bytes) parsed.transaction_id parsed.sender_nonce
    build_cert_rep l.asn1 l.cms ca.private_key ca.cert (some reply_env_der) attrs
