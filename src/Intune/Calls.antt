-- ===== src/Intune/Calls.antt =====
-- src/intune/mod.rs: the calls of the client: discovery, validation and the notifications.
use blapki.Prelude.{
  ℕ, String, Bool, false, not, none, some, Result, ok, err, List, [], ◌∷◌, Bytes, format, find,
  map_err, ok_or, and_then, unwrap_or, map_option, map_ok, trim_end_matches, take_chars, ◌==◌,
  if◌then◌else◌,
}
use blapki.Error.{AppError, AppResult}
use blapki.Exec.{Exec, pure, lift, ◌>>=◌, ◌>>◌}
use blapki.Intune.{
  intune_app_id, graph_resource, graph_api_version, scep_service_version, validation_service_name,
  caller_info, validate_path, success_path, failure_path, IssuedInfo, Json, text, number,
  discovery_request, action_request, HttpReply, Endpoint, ValidateResponse, Backend, Client, Net,
  is_success, upstream, send, token,
}

module _ (b : Backend) (c : Client) where
  abbrev pub discovery_url : String
  discovery_url = format (
      graph_resource ∷ "v" ∷ graph_api_version ∷ "/servicePrincipals/appId=" ∷ intune_app_id
      ∷ "/endpoints" ∷ [])

  abbrev is_validation_service : Endpoint → Bool
  is_validation_service e = elim e.provider_name [
    | none ↦ false
    | some name ↦ name == validation_service_name
  ]

  unfoldable pub read_endpoint : Result String HttpReply → AppResult String
  read_endpoint (err e) = err (upstream ("Graph endpoint discovery failed: " ∷ e ∷ []))
  read_endpoint (ok reply) =
      if not (is_success reply.status)
      then err
          (upstream ("Graph endpoint discovery returned HTTP " ∷ b.show_status reply.status ∷ []))
      else elim (b.decode_endpoints reply.body) [
        | err e ↦ err (upstream ("bad Graph endpoints response: " ∷ e ∷ []))
        | ok value ↦ map_ok (trim_end_matches b'/') (
            ok_or (upstream ("Graph did not return a " ∷ validation_service_name ∷ []))
              (and_then (find is_validation_service value) (λ e. e.uri)))
      ]

  unfoldable pub store_uri : String → Exec Net (Unit {0})
  store_uri uri n = (ok tt, record n { validation_uri = some uri })

  -- Discovery: the endpoint is asked for with a Graph token, and remembered.
  unfoldable pub discover : String → Exec Net String
  discover transaction_id = do
    graph_token ← token b c (format (graph_resource ∷ ".default" ∷ []))
    reply ← send b c (discovery_request discovery_url graph_token graph_api_version transaction_id)
    uri ← lift (read_endpoint reply)
    store_uri uri
    pure uri

  unfoldable pub validation_endpoint : String → Exec Net String
  validation_endpoint transaction_id n = elim n.validation_uri [
    | some uri ↦ (ok uri, n)
    | none ↦ discover transaction_id n
  ]

  -- The body of a successful answer.
  unfoldable pub read_reply {ℓ} :
      {T : Type ℓ} → (String → Result String T) → Result String HttpReply → AppResult T
  read_reply decode (err e) = err (upstream ("Intune request failed: " ∷ e ∷ []))
  read_reply decode (ok reply) =
      if not (is_success reply.status)
      then err (upstream ("Intune returned HTTP " ∷ b.show_status reply.status ∷ []))
      else map_err (λ e. upstream ("bad Intune response: " ∷ e ∷ [])) (decode reply.body)

  unfoldable pub post_intune :
      {T : Type 0}
      → (String → Result String T)
      → String
      → String
      → String
      → List (String × Json)
      → Exec Net T
  post_intune decode url transaction_id root body = do
    intune_token ← token b c (format (c.intune_resource ∷ ".default" ∷ []))
    reply ← send b c (action_request url intune_token scep_service_version transaction_id root body)
    lift (read_reply decode reply)

  -- The verdict of `validateRequest`.
  unfoldable pub verdict : ValidateResponse → AppResult (Unit {0})
  verdict resp = elim resp.code [
    | none ↦ err (AppError.upstream "Intune returned no status code")
    | some code ↦
        if code == "Success"
        then ok tt
        else err (
            upstream (
              "Intune rejected the request: "
              ∷ code
              ∷ unwrap_or "" (map_option (λ d. format (" (" ∷ d ∷ ")" ∷ [])) resp.error_description)
              ∷ []))
  ]

  abbrev pub validate_body : String → Bytes → List (String × Json)
  validate_body transaction_id csr_der =
      ("transactionId", text transaction_id)
      ∷ ("certificateRequest", text (b.b64 csr_der))
      ∷ ("callerInfo", text caller_info)
      ∷ []

  unfoldable pub validate_request : String → Bytes → Exec Net (Unit {0})
  validate_request transaction_id csr_der = do
    uri ← validation_endpoint transaction_id
    resp ←
        post_intune b.decode_validate (format (uri ∷ "/" ∷ validate_path ∷ [])) transaction_id
          "request" (validate_body transaction_id csr_der)
    lift (verdict resp)

  abbrev pub success_body : String → Bytes → IssuedInfo → List (String × Json)
  success_body transaction_id csr_der info =
      ("transactionId", text transaction_id)
      ∷ ("certificateRequest", text (b.b64 csr_der))
      ∷ ("certificateThumbprint", text info.thumbprint_sha1)
      ∷ ("certificateSerialNumber", text info.serial_decimal)
      ∷ ("certificateExpirationDateUtc", text info.not_after_utc)
      ∷ ("issuingCertificateAuthority", text info.issuer_cn)
      ∷ ("callerInfo", text caller_info)
      ∷ []

  unfoldable pub success_notification : String → Bytes → IssuedInfo → Exec Net (Unit {0})
  success_notification transaction_id csr_der info = do
    uri ← validation_endpoint transaction_id
    post_intune b.decode_value (format (uri ∷ "/" ∷ success_path ∷ [])) transaction_id
        "notification" (success_body transaction_id csr_der info)

  abbrev pub failure_body : String → Bytes → ℕ → String → List (String × Json)
  failure_body transaction_id csr_der hresult message =
      ("transactionId", text transaction_id)
      ∷ ("certificateRequest", text (b.b64 csr_der))
      ∷ ("hResult", number hresult)
      ∷ ("errorDescription", text (take_chars 255 message))
      ∷ ("callerInfo", text caller_info)
      ∷ []

  unfoldable pub failure_notification : String → Bytes → ℕ → String → Exec Net (Unit {0})
  failure_notification transaction_id csr_der hresult message = do
    uri ← validation_endpoint transaction_id
    post_intune b.decode_value (format (uri ∷ "/" ∷ failure_path ∷ [])) transaction_id
        "notification" (failure_body transaction_id csr_der hresult message)
