-- ===== src/Http/Scep.antt =====
-- src/http/scep.rs: the handlers of GetCACaps, GetCACert and PKIOperation.
pub mod Tables
pub mod Gate
pub mod Failures
pub mod Oracle
pub mod Consistency
pub mod Accepted
use blapki.Prelude.{
  String, not, Option, none, some, ok, err, List, [], ◌∷◌, Bytes, format, map_err, ok_or, unwrap_or,
  as_bytes, ◌==◌, if◌then◌else◌,
}
use blapki.Error.{AppError, AppResult, Response, to_string}
use blapki.Exec.{Exec, pure, raise, lift, attempt, ◌>>=◌, ◌>>◌}
use blapki.Db.{Pool}
use blapki.Db.Repo.{insert_issued, record_transaction}
use blapki.Crates.{Certificate}
use blapki.Scep.Attributes.{FailInfo}
use blapki.Scep.Protocol.{ca_caps}
use blapki.Crypto.Verify.{ParsedRequest, parse_and_verify}
use blapki.Challenge.{validate, on_issued, on_failure}
use blapki.Ca.Csr.{ParsedCsr}
use blapki.Ca.Authority.{CertificateAuthority, issue}
use blapki.Http.{
  ProfileRuntime, AppState, get, World, on_pool, on_net, Libraries, Moment, bytes_response,
}
use blapki.Http.Replies.{
  now_utc, ct_pki_message, check_type, input_of, issue_options, get_ca_cert, open_request,
  issued_row, issued_info, build_failure, build_success,
}

module _ (l : Libraries) (m : Moment) where
  -- `record`
  unfoldable pub record_status :
      ProfileRuntime → ParsedRequest → String → String → Exec Pool (Unit {0})
  record_status rt parsed status message_type =
      record_transaction parsed.transaction_id rt.name status message_type (now_utc m)

  unfoldable pub record_ok : ProfileRuntime → ParsedRequest → Exec Pool (Unit {0})
  unfolding record_status
  record_ok rt parsed = record_status rt parsed "issued" "PKCSReq"

  unfoldable pub persist :
      ProfileRuntime
      → CertificateAuthority
      → ParsedRequest
      → Certificate
      → Bytes
      → Exec Pool (Unit {0})
  unfolding record_ok
  persist rt ca parsed issued issued_der = do
    insert_issued (issued_row l m rt ca parsed issued issued_der)
    recorded ← attempt (record_ok rt parsed)
    pure tt

  -- The challenge was refused.
  unfoldable pub refuse :
      ProfileRuntime
      → CertificateAuthority
      → ParsedRequest
      → ParsedCsr
      → AppError
      → Exec World Bytes
  unfolding record_status
  refuse rt ca parsed csr e = do
    notified ←
        attempt (on_net (on_failure l.backend rt.validator (input_of parsed csr) (to_string e)))
    recorded ← attempt (on_pool (record_status rt parsed "failed" "PKCSReq"))
    lift (build_failure l m ca parsed FailInfo.bad_request)

  -- A certificate was issued.
  unfoldable pub deliver :
      ProfileRuntime
      → CertificateAuthority
      → ParsedRequest
      → ParsedCsr
      → Certificate
      → Exec World Bytes
  deliver rt ca parsed csr issued = do
    issued_der ← lift (
        map_err (λ e. AppError.crypto (format ("encode issued cert: " ∷ e ∷ [])))
          (l.asn1.encode_certificate issued))
    persisted ← attempt (on_pool (persist rt ca parsed issued issued_der))
    notified ← attempt (
        on_net (
          on_issued l.backend rt.validator (input_of parsed csr)
            (issued_info l ca issued issued_der)))
    lift (build_success l m ca parsed issued)

  -- The challenge was accepted.
  unfoldable pub issue_and_deliver :
      AppState
      → ProfileRuntime
      → CertificateAuthority
      → ParsedRequest
      → ParsedCsr
      → Exec World Bytes
  issue_and_deliver state rt ca parsed csr =
      elim (issue l.asn1 l.extensions l.builder m.serial ca csr.req (issue_options state rt)) [
        | ok issued ↦ deliver rt ca parsed csr issued
        | err e ↦ do
          notified ←
              attempt
                (on_net (on_failure l.backend rt.validator (input_of parsed csr) (to_string e)))
          lift (build_failure l m ca parsed FailInfo.bad_request)
      ]

  -- The CSR is at hand.
  unfoldable pub enrol :
      AppState
      → ProfileRuntime
      → CertificateAuthority
      → ParsedRequest
      → ParsedCsr
      → Exec World Bytes
  enrol state rt ca parsed csr = do
    verdict ← attempt (on_net (validate l.backend rt.validator (input_of parsed csr)))
    elim verdict [
      | ok _ ↦ issue_and_deliver state rt ca parsed csr
      | err e ↦ refuse rt ca parsed csr e
    ]

  -- The envelope was opened, or not: the error is dropped.
  unfoldable pub answer_opened :
      AppState
      → ProfileRuntime
      → CertificateAuthority
      → ParsedRequest
      → AppResult ParsedCsr
      → Exec World Bytes
  answer_opened state rt ca parsed (ok csr) = enrol state rt ca parsed csr
  answer_opened state rt ca parsed (err e) =
      lift (build_failure l m ca parsed FailInfo.bad_message_check)

  -- The message is authentic.
  unfoldable pub answer_parsed :
      AppState → ProfileRuntime → CertificateAuthority → ParsedRequest → Exec World Bytes
  answer_parsed state rt ca parsed = do
    lift (check_type parsed.message_type)
    enveloped ←
        lift (ok_or (AppError.bad_request "enrolment request carries no envelope") parsed.enveloped)
    answer_opened state rt ca parsed (open_request l ca enveloped)

  unfoldable pub pki_operation : AppState → String → Bytes → Exec World Bytes
  pki_operation state profile body = do
    rt ← lift (
        ok_or (AppError.not_found (format ("unknown SCEP profile '" ∷ profile ∷ "'" ∷ [])))
          (get profile state.profiles))
    ca ← lift (
        ok_or (AppError.config (format ("profile '" ∷ profile ∷ "' has no CA" ∷ [])))
          (get rt.ca_id state.cas))
    parsed ← lift (parse_and_verify l.asn1 l.primitives l.decoders body)
    answer_parsed state rt ca parsed

  -- `pki_operation`, and its answer as a response
  unfoldable pub answer_operation : AppState → String → Bytes → Exec World Response
  answer_operation state profile body = do
    der ← pki_operation state profile body
    pure (bytes_response ct_pki_message der)

  unfoldable pub get_message : List (String × String) → Exec World Bytes
  get_message params = do
    message ←
        lift (ok_or (AppError.bad_request "missing 'message' parameter") (get "message" params))
    lift (
        map_err (λ e. AppError.bad_request (format ("bad base64 message: " ∷ e ∷ [])))
          (l.base64_decode (as_bytes message)))

  unfoldable pub scep_get : AppState → String → List (String × String) → Exec World Response
  unfolding get_message
  scep_get state profile params =
      let operation = unwrap_or "" (get "operation" params) in
      if operation == "GetCACaps"
      then pure (bytes_response "text/plain" (as_bytes ca_caps))
      else if operation == "GetCACert"
      then lift (get_ca_cert l state profile)
      else if operation == "PKIOperation"
      then (get_message params >>= λ body. answer_operation state profile body)
      else raise
          (AppError.bad_request (format ("unsupported SCEP operation '" ∷ operation ∷ "'" ∷ [])))

  unfoldable pub scep_post :
      AppState → String → List (String × String) → Bytes → Exec World Response
  scep_post state profile params body =
      let operation = unwrap_or "PKIOperation" (get "operation" params) in
      if not (operation == "PKIOperation")
      then raise (
          AppError.bad_request
            (format ("POST only supports PKIOperation, not '" ∷ operation ∷ "'" ∷ [])))
      else answer_operation state profile body
