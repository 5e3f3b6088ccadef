-- ===== src/Http/Ocsp.antt =====
-- src/http/ocsp.rs: the OCSP responder.
--
-- `OcspCodec` has the crates' decoder, times and response builder. A `SystemTime` is a number of
-- seconds since the epoch, and a generalized time is a `DateTime`.
pub mod Responses
use blapki.Prelude.{
  ℕ, ◌+◌, String, Option, none, some, Result, ok, err, List, [], ◌∷◌, Bytes, format, map_err, ok_or,
  and_then, to_option, unwrap_or,
}
use blapki.Prelude
use blapki.Error.{AppError, AppResult, Response, into_response}
use blapki.Exec.{Exec, pure, lift, ◌>>=◌}
use blapki.Db.{Pool}
use blapki.Db.Repo.{RevocationStatus, good, revoked, unknown, status_by_serial}
use blapki.Crates.{Certificate, DateTime}
use blapki.Ca.Authority.{CertificateAuthority}
use blapki.Http.{AppState, get, bytes_response}

abbrev pub ct_ocsp : String
ct_ocsp = "application/ocsp-response"

abbrev pub next_update_secs : ℕ
next_update_secs = 3600

-- The certificate that is asked about: its serial number, and the hashes of its issuer.
pub record CertId : Type 0 where
  pub serial_number : Bytes
  pub issuer_hashes : Bytes

pub record OcspRequest : Type 0 where
  pub request_list : List CertId
  pub nonce : Option Bytes

pub data CertStatus : Type 0 where
  status_good status_unknown : CertStatus
  status_revoked : DateTime → CertStatus

pub record SingleResponse : Type 0 where
  pub cert_id : CertId
  pub cert_status : CertStatus
  pub this_update : DateTime
  pub next_update : DateTime

-- The builder before it signs: the responder, the responses and the extensions.
pub record ResponseBuilder : Type 0 where
  pub responder : Bytes
  pub responses : List SingleResponse
  pub extensions : List Bytes

pub record OcspCodec : Type 0 where
  pub decode_request : Bytes → Result String OcspRequest
  pub generalized_time : ℕ → Result String DateTime
  pub infinity : DateTime
  pub parse_rfc3339 : String → Option ℕ
  pub encode_nonce : Bytes → Result String Bytes
  -- the key, the certificates to embed and the time of production
  pub sign : ResponseBuilder → Bytes → List Certificate → DateTime → Result String Bytes
  pub encode_response : Bytes → Result String Bytes
  pub hex_encode : Bytes → String
  pub base64_decode : Bytes → Result String Bytes

module _ (c : OcspCodec) where
  unfoldable pub ocsp_now : ℕ → DateTime
  ocsp_now now = unwrap_or c.infinity (to_option (c.generalized_time now))

  unfoldable pub next_update_time : ℕ → DateTime
  unfolding ocsp_now
  next_update_time now =
      unwrap_or (ocsp_now now) (to_option (c.generalized_time (now + next_update_secs)))

  unfoldable pub to_cert_status : ℕ → RevocationStatus → CertStatus
  unfolding ocsp_now
  to_cert_status now good = status_good
  to_cert_status now unknown = status_unknown
  to_cert_status now (revoked revoked_at reason) = status_revoked (
      unwrap_or (ocsp_now now)
        (and_then (and_then revoked_at c.parse_rfc3339) (λ st. to_option (c.generalized_time st))))

  abbrev pub single : ℕ → CertId → RevocationStatus → SingleResponse
  single now cert_id status = record {
    cert_id = cert_id;
    cert_status = to_cert_status now status;
    this_update = ocsp_now now;
    next_update = next_update_time now;
  }

  -- The loop over the requested certificates.
  unfoldable pub single_responses : ℕ → String → List CertId → Exec Pool (List SingleResponse)
  single_responses now ca_id [] = pure []
  single_responses now ca_id (entry ∷ entries) = do
    status ← status_by_serial ca_id (c.hex_encode entry.serial_number)
    rest ← single_responses now ca_id entries
    pure (single now entry status ∷ rest)

  unfoldable pub nonce_extensions : Option Bytes → AppResult (List Bytes)
  nonce_extensions none = ok []
  nonce_extensions (some nonce) =
      Prelude.map_ok (λ x. x ∷ [])
        (map_err (λ e. AppError.crypto (format ("OCSP nonce: " ∷ e ∷ []))) (c.encode_nonce nonce))

  unfoldable pub sign_response :
      ℕ → CertificateAuthority → List SingleResponse → List Bytes → AppResult Bytes
  unfolding ocsp_now
  sign_response now ca responses extensions =
      Prelude.◌>>=◌
        (map_err (λ e. AppError.crypto (format ("signing OCSP response: " ∷ e ∷ [])))
          (c.sign
            (record { responder = ca.cert.subject; responses = responses; extensions = extensions })
            ca.private_key (ca.cert ∷ []) (ocsp_now now)))
        (λ response.
          map_err (λ e. AppError.crypto (format ("encode OCSP response: " ∷ e ∷ [])))
            (c.encode_response response))

  unfoldable pub build_response : ℕ → AppState → String → Bytes → Exec Pool Bytes
  unfolding single_responses nonce_extensions sign_response
  build_response now state ca_id req_der = do
    ca ← lift (
        ok_or (AppError.not_found (format ("unknown CA '" ∷ ca_id ∷ "'" ∷ [])))
          (get ca_id state.cas))
    request ← lift (
        map_err (λ e. AppError.bad_request (format ("invalid OCSP request: " ∷ e ∷ [])))
          (c.decode_request req_der))
    responses ← single_responses now ca_id request.request_list
    extensions ← lift (nonce_extensions request.nonce)
    lift (sign_response now ca responses extensions)

  unfoldable pub respond :
      (ℕ → Option String) → ℕ → AppState → String → Bytes → Pool → Response × Pool
  respond canonical_reason now state ca_id req_der p =
      let (r, q) = build_response now state ca_id req_der p in
      elim r [
        | ok der ↦ (bytes_response ct_ocsp der, q)
        | err e ↦ (into_response canonical_reason e, q)
      ]

  unfoldable pub ocsp_post :
      (ℕ → Option String) → ℕ → AppState → String → Bytes → Pool → Response × Pool
  unfolding respond
  ocsp_post canonical_reason now state ca body p = respond canonical_reason now state ca body p

  abbrev bad_request_text : String → Response
  bad_request_text body = record {
    status = 400;
    content_type = "text/plain; charset=utf-8";
    body = Prelude.as_bytes body;
  }

  unfoldable pub ocsp_get :
      (ℕ → Option String) → ℕ → AppState → String → String → Pool → Response × Pool
  unfolding respond
  ocsp_get canonical_reason now state ca_id b64 p = elim (c.base64_decode (Prelude.as_bytes b64)) [
    | ok der ↦ respond canonical_reason now state ca_id der p
    | err _ ↦ (bad_request_text "invalid base64 OCSP request", p)
  ]

  unfoldable pub ocsp_get_root : Response
  ocsp_get_root =
      bad_request_text "OCSP: POST a request body or append the base64 request to the path"
