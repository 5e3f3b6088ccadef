-- ===== src/Intune/Approval.antt =====
-- When the client of src/intune/mod.rs approves a request.
use blapki.Prelude.{
  String, ◌≡◌, refl, true, some, ok, err, Result, List, [], ◌∷◌, ◌++◌, Bytes, format, arith, length,
  eq_iff, Bool-cases, Option-cases, inl, inr, map_err-eq-ok,
}
use blapki.Exec.{bind-eq-ok}
use blapki.Intune.{
  Backend, Client, Net, HttpReply, ValidateResponse, action_request, scep_service_version,
  validate_path, is_success, send, token, Json, HttpRequest,
}
use blapki.Intune.Calls.{
  validate_body, validation_endpoint, read_reply, post_intune, verdict, validate_request,
}

module _ (b : Backend) (c : Client) where
  -- An action was posted and answered: the state that the answer left, and what was decoded.
  pub record Posted {T : Type 0} (decode : String → Result String T)
      (url transaction_id root : String) (body : List (String × Json)) (n : Net) (t : T)
      : Type 0 where
    pub before : List HttpRequest
    pub bearer : String
    pub reply : HttpReply
    pub sent :
        n.sent
        ≡ before ++ action_request url bearer scep_service_version transaction_id root body ∷ []
    pub answered : (b.answers (length before)).outcome ≡ ok reply
    pub success : is_success reply.status ≡ true
    pub decoded : decode reply.body ≡ ok t

  read_reply-eq-ok :
      {T : Type 0} (decode : String → Result String T) (r : Result String HttpReply) (t : T)
      → read_reply b c decode r ≡ ok t
      → (reply : HttpReply) × (r ≡ ok reply)
        × (is_success reply.status ≡ true)
        × (decode reply.body ≡ ok t)
  unfolding read_reply
  read_reply-eq-ok decode (ok reply) t h = elim (Bool-cases (is_success reply.status)) [
    | inl good ↦ (reply, refl, good, map_err-eq-ok _ (decode reply.body) (rw good at h))
    | inr bad ↦ absurd (ground arith)
  ]
  read_reply-eq-ok decode (err e) t h = cc

  post_intune-eq-ok :
      {T : Type 0} (decode : String → Result String T) (url transaction_id root : String)
      (body : List (String × Json)) (n : Net) (t : T) (u : Net)
      → post_intune b c decode url transaction_id root body n ≡ (ok t, u)
      → Posted decode url transaction_id root body u t
  unfolding post_intune send
  post_intune-eq-ok decode url transaction_id root body n t u h =
      let (bearer, n₁, e₁, h₁) =
        bind-eq-ok (token b c (format (c.intune_resource ∷ ".default" ∷ []))) _ n h in
      let (reply, ans, good, dec) =
        read_reply-eq-ok decode (b.answers (length n₁.sent)).outcome t (ground arith) in
      record {
        before = n₁.sent;
        bearer = bearer;
        reply = reply;
        sent = ground arith;
        answered = ans;
        success = good;
        decoded = dec;
      }

  verdict-eq-ok : (r : ValidateResponse) → verdict b c r ≡ ok tt → r.code ≡ some "Success"
  unfolding verdict
  verdict-eq-ok r h = elim (Option-cases r.code) [
    | inl m ↦ absurd (ground (arith))
    | inr (code, e) ↦ ground (arith, eq_iff code "Success")
  ]

  -- Intune approves a request only if the last thing that was sent is the validation of exactly this
  -- transaction and CSR, and the server answered it with a success status and the code "Success".
  pub validate_request-approved :
      (transaction_id : String) (csr_der : Bytes) (n u : Net)
      → validate_request b c transaction_id csr_der n ≡ (ok tt, u)
      → (uri : String) × (resp : ValidateResponse) × Posted b.decode_validate
          (format (uri ∷ "/" ∷ validate_path ∷ []))
          transaction_id
          "request"
          (validate_body b c transaction_id csr_der)
          u
          resp
        × (resp.code ≡ some "Success")
  unfolding validate_request
  validate_request-approved transaction_id csr_der n u h =
      let (uri, n₁, e₁, h₁) = bind-eq-ok (validation_endpoint b c transaction_id) _ n h in
      let (resp, n₂, e₂, h₂) =
        bind-eq-ok
          (post_intune b c b.decode_validate (format (uri ∷ "/" ∷ validate_path ∷ []))
            transaction_id "request" (validate_body b c transaction_id csr_der))
          _ n₁ h₁ in
      let same : n₂ ≡ u = ground arith in
      (
        uri,
        resp,
        rw (← same)
            (post_intune-eq-ok b.decode_validate _ transaction_id "request" _ n₁ resp n₂ e₂),
        verdict-eq-ok resp (ground arith),
      )
