-- ===== src/Http/Scep/Failures.antt =====
-- How src/http/scep.rs answers a request that it does not serve.
use blapki.Prelude.{
  as_bytes, ◌==◌, if◌then◌else◌, some, List, [], String, ◌≡◌, refl, ok, err, Bytes,
}
use blapki.Error.{AppError}
use blapki.Scep.Attributes.{FailInfo}
use blapki.Crypto.Verify.{ParsedRequest}
use blapki.Challenge.{validate}
use blapki.Ca.Csr.{ParsedCsr}
use blapki.Ca.Authority.{CertificateAuthority}
use blapki.Http.{ProfileRuntime, AppState, get, World, Libraries, Moment}
use blapki.Http.Replies.{now_utc, input_of, build_failure}
use blapki.Db.Repo.Transactions.{
  transaction_view, upsert, record_transaction-upsert, record_transaction-up,
}
use blapki.Http.Scep.Tables.{record_transaction-issued_certificate}
use blapki.Http.Scep.{scep_get, scep_post, refuse, enrol, record_status}

module _ (l : Libraries) (m : Moment) where
  -- While the database serves its statements, a request whose challenge the validator refuses is
  -- answered with badRequest, no certificate is recorded, and its transaction, and no other, is
  -- recorded as failed.
  pub enrol-refused :
      (state : AppState) (rt : ProfileRuntime) (ca : CertificateAuthority) (parsed : ParsedRequest)
      (csr : ParsedCsr) (e : AppError) (w : World) (id : String)
      → (validate l.backend rt.validator (input_of parsed csr) w.net).0 ≡ err e
      → w.pool.outages ≡ []
      → ((enrol l m state rt ca parsed csr w).0 ≡ build_failure l m ca parsed FailInfo.bad_request)
        × ((enrol l m state rt ca parsed csr w).1.pool.issued_certificate
            ≡ w.pool.issued_certificate)
        × (transaction_view (enrol l m state rt ca parsed csr w).1.pool id ≡ (
            if parsed.transaction_id == id
            then upsert parsed.transaction_id rt.name "failed" "PKCSReq"
                (now_utc m)
                (transaction_view w.pool id)
            else transaction_view w.pool id))
  unfolding enrol refuse record_status
  enrol-refused state rt ca parsed csr e w id h up = (
    rw h refl,
    rw h (record_transaction-issued_certificate _ _ _ _ _ w.pool),
    rw h (
        record_transaction-upsert parsed.transaction_id rt.name "failed" "PKCSReq" (now_utc m) id
          w.pool (record_transaction-up _ _ _ _ _ w.pool up)),
  )

  -- A message that a GET carries in base64 is answered like the same message in a POST.
  pub scep_get-scep_post :
      (state : AppState) (profile message : String) (params : List (String × String)) (body : Bytes)
      (w : World)
      → get "operation" params ≡ some "PKIOperation"
      → get "message" params ≡ some message
      → l.base64_decode (as_bytes message) ≡ ok body
      → scep_get l m state profile params w ≡ scep_post l m state profile params body w
  unfolding scep_get scep_post
  scep_get-scep_post state profile message params body w h₁ h₂ h₃ = rw (h₁, h₂, h₃) refl
