-- ===== src/Examples/Site.antt =====
-- The toy server behind its router: its codecs, its web framework and some requests.
use blapki.Prelude.{
  some, ◌==◌, if◌then◌else◌, none, some, ok, err, [], ◌∷◌, Bytes, ◌==◌, if◌then◌else◌,
}
use blapki.Error.{Response}
use blapki.Http.Crl.{CrlCodec}
use blapki.Http.Ocsp.{OcspCodec}
use blapki.Http.Router.{Axum, Site, Request, post, get}
use blapki.Examples.Toy.{date}
use blapki.Examples.Server.{libraries}

abbrev pub crl_codec : CrlCodec
crl_codec = record {
  hex_decode = λ s. ok (10 ∷ []);
  new_serial = λ b. ok b;
  parse_rfc3339 = λ s. none;
  from_system_time = λ n. ok date;
  utc_from_date_time = λ d. ok d;
  signature_algorithm = λ key. ok (record { oid = "sha256"; parameters = none });
  encode_tbs = λ tbs. ok [];
  try_sign = λ key tbs. ok [];
  to_bitstring = λ b. ok b;
  encode_crl = λ crl. ok [];
}

abbrev pub ocsp_codec : OcspCodec
ocsp_codec = record {
  decode_request = λ b. err "no request";
  generalized_time = λ n. ok date;
  infinity = date;
  parse_rfc3339 = λ s. if s == "then" then some 7 else none;
  encode_nonce = λ b. ok b;
  sign = λ r key certs at. ok [];
  encode_response = λ b. ok b;
  hex_encode = λ b. "0a";
  base64_decode = λ b. err "no base64";
}

abbrev text_response : Response
text_response = record { status = 404; content_type = "text/plain"; body = [] }

-- The one profile is "wifi", and the one CA is "ca".
abbrev pub axum : Axum
axum = record {
  match_path = λ paths path.
      if path == "/scep/wifi"
      then some ("/scep/{profile}", "wifi" ∷ [])
      else if path == "/crl/ca"
      then some ("/crl/{ca}", "ca" ∷ [])
      else none;
  query = λ s. ok [];
  read_body = λ b. ok b;
  without_body = λ r. record r { body = [] };
  not_found = text_response;
  method_not_allowed = text_response;
  bad_path = text_response;
}

abbrev pub site : Site
site = record {
  libraries = libraries;
  ocsp = ocsp_codec;
  crl = crl_codec;
  axum = axum;
  to_json = λ report. [];
  canonical_reason = λ status. none;
}

abbrev pub enrolment : Bytes → Request
enrolment message = record { method = post; path = "/scep/wifi"; query = ""; body = message }

abbrev pub crl_request : Request
crl_request = record { method = get; path = "/crl/ca"; query = ""; body = [] }
