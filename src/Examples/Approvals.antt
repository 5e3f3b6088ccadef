-- ===== src/Examples/Approvals.antt =====
-- Runs of src/challenge, src/intune, src/ca, src/config.rs and the public endpoints of src/http.
use blapki.Prelude.{
  ℕ, ◌≤◌, String, ◌≡◌, ◌≢◌, refl, ◌↔◌, true, none, some, ok, List, [], ◌∷◌, Bytes, length, as_bytes,
  Some, All, ltb, if◌then◌else◌, format, pos,
}
use blapki.Db.Repo.{RevokedEntry}
use blapki.Intune.{
  Net, ValidateResponse, TokenResponse, action_request, scep_service_version, validate_path, token,
  valid_token, read_token, fetch_token, send, ttl_of,
}
use blapki.Intune.Calls.{
  validate_body, validate_request, validation_endpoint, post_intune, verdict, read_reply,
}
use blapki.Intune.Approval.{Posted, validate_request-approved}
use blapki.Intune.Token.{later, token_lifetime}
use blapki.Challenge.{ValidationInput, static_secret, constant_time_eq, validate}
use blapki.Challenge.Secret.{constant_time_eq_iff, validate-static_secret}
use blapki.Crates.{Certificate}
use blapki.Ca.Serial.{random_serial, random_serial-positive}
use blapki.Ca.Extensions.{
  key_usage, extended_key_usage, requested_san, attribute_san, authority_info_access,
  crl_distribution_points,
}
use blapki.Ca.Authority.{IssueOptions, issue}
use blapki.Ca.Authority.Leaf.{Contents, IsLeaf, issue-IsLeaf}
use blapki.Http.Crl.{RevokedCert, utc_time, serial_of, revoked_certs, to_time}
use blapki.Http.Crl.Listed.{revoked_certs_iff}
use blapki.Config
use blapki.Config.{
  Settings, CaConfig, ProfileConfig, mode_static, has_source, build_validator, build_client,
}
use blapki.Config.Validated.{ProfileIsOk, validate_iff}
use blapki.Examples.Toy.{date, ca_cert, request, toy_asn1}
use blapki.Examples.Site.{crl_codec}
use blapki.Examples.Server.{backend, client, net, builder, builder_laws, extension_codec, ca}

abbrev hi : Bytes
hi = 104 ∷ 105 ∷ []

abbrev hj : Bytes
hj = 104 ∷ 106 ∷ []

constant_time_eq_iff_example : (constant_time_eq hi hj ≡ true) ↔ (hi ≡ hj)
constant_time_eq_iff_example = constant_time_eq_iff hi hj

abbrev input : ValidationInput
input = record { transaction_id = "txn"; csr_der = 30 ∷ []; challenge_password = some "hunter2" }

validate-static_secret_example :
    (validate backend (static_secret "hunter2") input net ≡ (ok tt, net))
    ↔ ((pw : String) × (some "hunter2" ≡ some pw) × (as_bytes pw ≡ as_bytes "hunter2"))
validate-static_secret_example = validate-static_secret backend "hunter2" input net

random_serial-positive_example :
    (lead : ℕ) × (random_serial (200 ∷ 1 ∷ []) ≡ lead ∷ 1 ∷ [])
    × (1 ≤ lead)
    × (lead ≤ 127)
    × (length (random_serial (200 ∷ 1 ∷ [])) ≡ 2)
random_serial-positive_example = random_serial-positive 200 (1 ∷ [])

-- A bearer token is cached.
abbrev cached : Net
cached = record net {
  tokens = ("https://intune/.default", record { value = "bearer"; expires_at = 5000 }) ∷ [];
}

abbrev posted : Net
posted = record cached {
  sent =
      action_request "https://uri/ScepActions/validateRequest" "bearer" scep_service_version "txn"
        "request" (validate_body backend client "txn" (30 ∷ []))
      ∷ [];
  now = 1002;
}

validate_request-approved_example :
    (uri : String) × (resp : ValidateResponse) × Posted backend client backend.decode_validate
      (format (uri ∷ "/" ∷ validate_path ∷ []))
      "txn"
      "request"
      (validate_body backend client "txn" (30 ∷ []))
      posted
      resp
    × (resp.code ≡ some "Success")
unfolding validate_request validation_endpoint post_intune verdict token send read_reply
validate_request-approved_example =
    validate_request-approved backend client "txn" (30 ∷ []) cached posted refl

abbrev granted : TokenResponse
granted = record { access_token = "bearer"; expires_in = some (pos 3600) }

token_lifetime_example :
    ((token backend client "scope" net).0 ≡ ok "bearer")
    × (length (token backend client "scope" net).1.sent ≡ 1)
    × (token backend client "scope" (later (token backend client "scope" net).1 100) ≡ (
        if ltb 160 (ttl_of (some (pos 3600)))
        then (ok "bearer", later (token backend client "scope" net).1 100)
        else fetch_token backend client "scope" (later (token backend client "scope" net).1 100)))
unfolding valid_token read_token
token_lifetime_example = token_lifetime backend client "scope" net granted 100 refl refl

abbrev options : IssueOptions
options = record {
  validity_days = 365;
  key_usage = "digitalSignature" ∷ [];
  extended_key_usage = "clientAuth" ∷ [];
  ocsp_url = some "https://pki/ocsp/ca";
  crl_url = none;
}

abbrev leaf : Certificate
leaf = record {
  serial_number = 72 ∷ 1 ∷ [];
  issuer = 51 ∷ [];
  subject = 60 ∷ [];
  not_before = date;
  not_after = date;
  public_key = 61 ∷ [];
  extensions = [];
}

issue-IsLeaf_example :
    (t : Contents) × (builder.build t ≡ ok leaf)
    × IsLeaf toy_asn1 extension_codec builder builder_laws ca_cert.subject
        (random_serial (200 ∷ 1 ∷ []))
        request.subject
        request.public_key
        t
unfolding issue random_serial key_usage extended_key_usage requested_san attribute_san
    authority_info_access crl_distribution_points
issue-IsLeaf_example =
    issue-IsLeaf toy_asn1 extension_codec builder builder_laws (200 ∷ 1 ∷ []) ca request options
      leaf refl

abbrev revoked_row : RevokedEntry
revoked_row = record { serial = "0a"; revoked_at = none; reason = some (pos 1) }

abbrev listed : List RevokedCert
listed = record { serial_number = 10 ∷ []; revocation_date = utc_time date } ∷ []

revoked_certs_iff_example :
    Some (λ (r : RevokedCert). r.serial_number ≡ (10 ∷ [])) listed
    ↔ Some (λ row. serial_of crl_codec row ≡ ok (10 ∷ [])) (revoked_row ∷ [])
unfolding revoked_certs to_time
revoked_certs_iff_example =
    revoked_certs_iff crl_codec 1000 (revoked_row ∷ []) listed (10 ∷ []) refl

abbrev ca_config : CaConfig
ca_config = record {
  id = "ca";
  key_file = some "ca.pem";
  cert_pem = none;
  cert_pem_env = none;
  key_pem = none;
  key_pem_env = none;
  key_password_env = none;
  crl_lifetime_hours = 24;
}

abbrev wifi : ProfileConfig
wifi = record {
  name = "wifi";
  ca = "ca";
  challenge = mode_static;
  static_secret_env = some "SECRET";
  validity_days = 365;
  key_usage = [];
  extended_key_usage = [];
}

abbrev settings : Settings
settings = record {
  server = record { listen = ""; database_url = ""; base_url = "" };
  ca = ca_config ∷ [];
  profile = wifi ∷ [];
  intune = none;
}

validate_iff_example : (Config.validate settings ≡ ok tt) ↔ (
    (settings.ca ≢ [])
    × (All (λ ca. has_source ca ≡ true) settings.ca × All (ProfileIsOk settings) settings.profile))
validate_iff_example = validate_iff settings
