-- ===== src/Http/Scep/Consistency.antt =====
-- PKIOperation keeps the tables well-formed.
use blapki.Prelude.{String, refl, inl, inr, Result-cases, Bytes, arith}
use blapki.Db.{Pool}
use blapki.Db.Repo.Invariant.{
  IsWellFormed, RowIsOk, insert_issued-IsWellFormed, record_transaction-IsWellFormed,
}
use blapki.Crates.{Certificate}
use blapki.Crypto.Verify.{ParsedRequest}
use blapki.Challenge.{validate}
use blapki.Ca.Csr.{ParsedCsr}
use blapki.Ca.Authority.{CertificateAuthority, issue}
use blapki.Http.{ProfileRuntime, AppState, World, Libraries, Moment}
use blapki.Http.Replies.{now_utc, input_of, issue_options, issued_row}
use blapki.Http.Scep.Gate.{pki_operation-untouched, pki_operation-Opened}
use blapki.Http.Scep.{
  persist, refuse, deliver, issue_and_deliver, enrol, pki_operation, record_status, record_ok,
}

module _ (l : Libraries) (m : Moment) where
  persist-IsWellFormed :
      (rt : ProfileRuntime) (ca : CertificateAuthority) (parsed : ParsedRequest)
      (issued : Certificate) (der : Bytes) (p : Pool)
      → IsWellFormed p
      → IsWellFormed (persist l m rt ca parsed issued der p).1
  unfolding persist record_ok record_status
  persist-IsWellFormed rt ca parsed issued der p wf =
      let row = issued_row l m rt ca parsed issued der in
      let valid : RowIsOk row = inl (refl, refl, refl) in
      let inserted = insert_issued-IsWellFormed row {p = p} valid wf in
      ground (
        arith,
        inserted,
        record_transaction-IsWellFormed parsed.transaction_id rt.name "issued" "PKCSReq" (now_utc m)
            inserted,
      )

  deliver-IsWellFormed :
      (rt : ProfileRuntime) (ca : CertificateAuthority) (parsed : ParsedRequest) (csr : ParsedCsr)
      (issued : Certificate) (w : World)
      → IsWellFormed w.pool
      → IsWellFormed (deliver l m rt ca parsed csr issued w).1.pool
  unfolding deliver
  deliver-IsWellFormed rt ca parsed csr issued w wf =
      elim (Result-cases (l.asn1.encode_certificate issued)) [
        | inr (e, h) ↦ rw h wf
        | inl (der, h) ↦ rw h (persist-IsWellFormed rt ca parsed issued der w.pool wf)
      ]

  issue_and_deliver-IsWellFormed :
      (state : AppState) (rt : ProfileRuntime) (ca : CertificateAuthority) (parsed : ParsedRequest)
      (csr : ParsedCsr) (w : World)
      → IsWellFormed w.pool
      → IsWellFormed (issue_and_deliver l m state rt ca parsed csr w).1.pool
  unfolding issue_and_deliver
  issue_and_deliver-IsWellFormed state rt ca parsed csr w wf =
      elim (Result-cases
        (issue l.asn1 l.extensions l.builder m.serial ca csr.req (issue_options state rt))) [
          | inr (e, h) ↦ ground arith
          | inl (issued, h) ↦ ground (arith, deliver-IsWellFormed rt ca parsed csr issued w wf)
        ]

  enrol-IsWellFormed :
      (state : AppState) (rt : ProfileRuntime) (ca : CertificateAuthority) (parsed : ParsedRequest)
      (csr : ParsedCsr) (w : World)
      → IsWellFormed w.pool
      → IsWellFormed (enrol l m state rt ca parsed csr w).1.pool
  unfolding enrol refuse record_status
  enrol-IsWellFormed state rt ca parsed csr w wf =
      let ran = validate l.backend rt.validator (input_of parsed csr) w.net in
      let w' : World = record w { net = ran.1 } in
      elim (Result-cases ran.0) [
        | inr (e, h) ↦ rw h (
            record_transaction-IsWellFormed parsed.transaction_id rt.name "failed" "PKCSReq"
              (now_utc m) wf)
        | inl (_, h) ↦ rw h (issue_and_deliver-IsWellFormed state rt ca parsed csr w' wf)
      ]

  -- Any PKIOperation, whatever its message and whichever statement of the database fails, keeps the
  -- tables well-formed: serials and transaction ids stay unique, and every row stays valid or fully
  -- revoked.
  pub pki_operation-IsWellFormed :
      (state : AppState) (profile : String) (body : Bytes) (w : World)
      → IsWellFormed w.pool
      → IsWellFormed (pki_operation l m state profile body w).1.pool
  pki_operation-IsWellFormed state profile body w wf =
      elim (pki_operation-untouched l m state profile body w) [
        | inr same ↦ rw same wf
        | inl o ↦
            rw (pki_operation-Opened l m state profile body w o)
              (enrol-IsWellFormed state o.rt o.ca o.parsed o.csr w wf)
      ]
