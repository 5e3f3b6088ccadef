-- ===== src/Http/Scep/Tables.antt =====
-- What src/http/scep.rs writes to the table of issued certificates, step by step.
use blapki.Prelude.{String, ◌≡◌, ◌⊎◌, inl, inr, Result-cases, ok, List, [], ◌∷◌, ◌++◌, Bytes, arith}
use blapki.Error.{AppError}
use blapki.Db.{IssuedCertificate, Pool}
use blapki.Db.Repo.{insert_issued, record_transaction}
use blapki.Crates.{Certificate}
use blapki.Crypto.Verify.{ParsedRequest}
use blapki.Challenge.{validate}
use blapki.Ca.Csr.{ParsedCsr}
use blapki.Ca.Authority.{CertificateAuthority, issue}
use blapki.Http.{ProfileRuntime, AppState, World, Libraries, Moment}
use blapki.Http.Replies.{now_utc, input_of, issue_options, issued_row}
use blapki.Http.Scep.{persist, refuse, deliver, issue_and_deliver, enrol, record_status, record_ok}

pub record_transaction-issued_certificate :
    (id profile status message_type created_at : String) (p : Pool)
    → (record_transaction id profile status message_type created_at p).1.issued_certificate
      ≡ p.issued_certificate
unfolding record_transaction
record_transaction-issued_certificate id profile status message_type created_at p = ground arith

-- The table is kept, or it gains this row at its end.
abbrev pub KeptOrGained :
    IssuedCertificate → List IssuedCertificate → List IssuedCertificate → Type 0
KeptOrGained row before after = (after ≡ before) ⊎ (after ≡ before ++ row ∷ [])

insert_issued-KeptOrGained :
    (row : IssuedCertificate) (p : Pool)
    → KeptOrGained row p.issued_certificate (insert_issued row p).1.issued_certificate
unfolding insert_issued
insert_issued-KeptOrGained row p = ground arith

module _ (l : Libraries) (m : Moment) where
  persist-KeptOrGained :
      (rt : ProfileRuntime) (ca : CertificateAuthority) (parsed : ParsedRequest)
      (issued : Certificate) (der : Bytes) (p : Pool)
      → KeptOrGained
          (issued_row l m rt ca parsed issued der)
          p.issued_certificate
          (persist l m rt ca parsed issued der p).1.issued_certificate
  unfolding persist record_ok record_status
  persist-KeptOrGained rt ca parsed issued der p = ground (
    arith,
    insert_issued-KeptOrGained (issued_row l m rt ca parsed issued der) p,
    record_transaction-issued_certificate parsed.transaction_id rt.name "issued" "PKCSReq"
        (now_utc m) (insert_issued (issued_row l m rt ca parsed issued der) p).1,
  )

  refuse-issued_certificate :
      (rt : ProfileRuntime) (ca : CertificateAuthority) (parsed : ParsedRequest) (csr : ParsedCsr)
      (e : AppError) (w : World)
      → (refuse l m rt ca parsed csr e w).1.pool.issued_certificate ≡ w.pool.issued_certificate
  unfolding refuse record_status
  refuse-issued_certificate rt ca parsed csr e w =
      record_transaction-issued_certificate _ _ _ _ _ w.pool

  -- What an enrolment adds to the table, if it gets that far.
  module _ (state : AppState) (rt : ProfileRuntime) (ca : CertificateAuthority)
      (parsed : ParsedRequest) (csr : ParsedCsr) (w : World) where
    pub record Gained (after : World) : Type 0 where
      pub issued : Certificate
      pub issued_der : Bytes
      pub signed :
          issue l.asn1 l.extensions l.builder m.serial ca csr.req (issue_options state rt)
          ≡ ok issued
      pub encoded : l.asn1.encode_certificate issued ≡ ok issued_der
      pub table :
          after.pool.issued_certificate
          ≡ w.pool.issued_certificate ++ issued_row l m rt ca parsed issued issued_der ∷ []

    deliver-table :
        (issued : Certificate)
        → ((deliver l m rt ca parsed csr issued w).1.pool.issued_certificate
            ≡ w.pool.issued_certificate)
          ⊎ ((der : Bytes) × (l.asn1.encode_certificate issued ≡ ok der)
              × ((deliver l m rt ca parsed csr issued w).1.pool.issued_certificate
                  ≡ w.pool.issued_certificate ++ issued_row l m rt ca parsed issued der ∷ []))
    unfolding deliver
    deliver-table issued = elim (Result-cases (l.asn1.encode_certificate issued)) [
      | inr (e, h) ↦ inl (ground arith)
      | inl (der, h) ↦ elim (persist-KeptOrGained rt ca parsed issued der w.pool) [
        | inl kept ↦ inl (ground arith)
        | inr gained ↦ inr (der, h, ground arith)
      ]
    ]

    issue_and_deliver-table :
        ((issue_and_deliver l m state rt ca parsed csr w).1.pool.issued_certificate
          ≡ w.pool.issued_certificate)
        ⊎ Gained (issue_and_deliver l m state rt ca parsed csr w).1
    unfolding issue_and_deliver
    issue_and_deliver-table =
        elim (Result-cases
          (issue l.asn1 l.extensions l.builder m.serial ca csr.req (issue_options state rt))) [
            | inr (e, h) ↦ inl (ground arith)
            | inl (issued, h) ↦ elim (deliver-table issued) [
              | inl kept ↦ inl (ground arith)
              | inr (der, encoded, table) ↦ inr (record {
                issued = issued;
                issued_der = der;
                signed = h;
                encoded = encoded;
                table = ground arith;
              })
            ]
          ]

  -- An enrolment adds a row only if the validator approved.
  pub enrol-table :
      (state : AppState) (rt : ProfileRuntime) (ca : CertificateAuthority) (parsed : ParsedRequest)
      (csr : ParsedCsr) (w : World)
      → ((enrol l m state rt ca parsed csr w).1.pool.issued_certificate ≡ w.pool.issued_certificate)
        ⊎ (((validate l.backend rt.validator (input_of parsed csr) w.net).0 ≡ ok tt)
            × Gained state rt ca parsed csr w (enrol l m state rt ca parsed csr w).1)
  unfolding enrol
  enrol-table state rt ca parsed csr w =
      let ran = validate l.backend rt.validator (input_of parsed csr) w.net in
      let w' : World = record w { net = ran.1 } in
      elim (Result-cases ran.0) [
        | inr (e, h) ↦ inl (rw h (refuse-issued_certificate rt ca parsed csr e w'))
        | inl (_, h) ↦ elim (issue_and_deliver-table state rt ca parsed csr w') [
          | inl kept ↦ inl (rw h kept)
          | inr g ↦ inr (
            h,
            record {
              issued = g.issued;
              issued_der = g.issued_der;
              signed = g.signed;
              encoded = g.encoded;
              table = rw h g.table;
            },
          )
        ]
      ]
