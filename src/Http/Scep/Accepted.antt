-- ===== src/Http/Scep/Accepted.antt =====
-- An enrolment that nothing stands in the way of, in src/http/scep.rs.
use blapki.Prelude.{
  String, ◌≡◌, refl, false, ok, [], ◌∷◌, ◌++◌, Bytes, any, ◌==◌, ◌&&◌, if◌then◌else◌, ap, ◌∙◌, ok,
}
use blapki.Db.{IssuedCertificate, Pool}
use blapki.Db.Repo.{has_serial, good, insert_issued, record_transaction, row_status}
use blapki.Db.Repo.Status.{status_view, status_view-insert_issued}
use blapki.Db.Repo.Transactions.{
  transaction_view, upsert, record_transaction-up, record_transaction-upsert,
}
use blapki.Crates.{Certificate}
use blapki.Crypto.Verify.{ParsedRequest}
use blapki.Challenge.{validate}
use blapki.Ca.Csr.{ParsedCsr}
use blapki.Ca.Authority.{CertificateAuthority, issue}
use blapki.Http.{ProfileRuntime, AppState, World, Libraries, Moment}
use blapki.Http.Replies.{now_utc, input_of, issue_options, issued_row, build_success, serial_hex}
use blapki.Http.Scep.{
  persist, deliver, issue_and_deliver, enrol, pki_operation, record_status, record_ok,
}
use blapki.Http.Scep.Tables.{record_transaction-issued_certificate}
use blapki.Http.Scep.Gate.{Opened, pki_operation-Opened}

-- The tables with one more row.
abbrev with_row : IssuedCertificate → Pool → Pool
with_row row p = record p { issued_certificate = p.issued_certificate ++ row ∷ [] }

insert_issued-up :
    (row : IssuedCertificate) (p : Pool)
    → p.outages ≡ []
    → any (has_serial row.serial) p.issued_certificate ≡ false
    → insert_issued row p ≡ (ok tt, with_row row p)
unfolding insert_issued
insert_issued-up row p up fresh = rw (up, fresh) refl

status_view-rows :
    (p q : Pool) (ca_id serial : String)
    → q.issued_certificate ≡ p.issued_certificate
    → status_view q ca_id serial ≡ status_view p ca_id serial
unfolding status_view
status_view-rows p q ca_id serial same = rw same refl

module _ (l : Libraries) (m : Moment) (rt : ProfileRuntime) (ca : CertificateAuthority)
    (parsed : ParsedRequest) (issued : Certificate) (der : Bytes) (p : Pool) (up : p.outages ≡ [])
    (fresh : any (has_serial (serial_hex l issued)) p.issued_certificate ≡ false) where
  abbrev row : IssuedCertificate
  row = issued_row l m rt ca parsed issued der

  -- What the tables are after `persist`.
  abbrev persisted : Pool
  persisted =
      (record_transaction parsed.transaction_id rt.name "issued" "PKCSReq" (now_utc m)
        (with_row row p)).1

  persist-up : persist l m rt ca parsed issued der p ≡ (ok tt, persisted)
  unfolding persist record_ok record_status
  persist-up = rw (insert_issued-up row p up fresh) refl

  persisted-status_view :
      (ca_id serial : String)
      → status_view persisted ca_id serial ≡ (
          if ca.id == ca_id && serial_hex l issued == serial
          then good
          else status_view p ca_id serial)
  unfolding row_status
  persisted-status_view ca_id serial =
      let inserted = insert_issued-up row p up fresh in
      status_view-rows (with_row row p) persisted ca_id serial
        (record_transaction-issued_certificate _ _ _ _ _ (with_row row p))
      ∙ rw inserted at (status_view-insert_issued row ca_id serial p (ap (λ r. r.0) inserted))

  persisted-transaction_view :
      (id : String)
      → transaction_view persisted id ≡ (
          if parsed.transaction_id == id
          then upsert parsed.transaction_id rt.name "issued" "PKCSReq"
              (now_utc m)
              (transaction_view p id)
          else transaction_view p id)
  persisted-transaction_view id =
      record_transaction-upsert parsed.transaction_id rt.name "issued" "PKCSReq" (now_utc m) id
        (with_row row p) (record_transaction-up _ _ _ _ _ (with_row row p) up)

module _ (l : Libraries) (m : Moment) where
  -- What an accepted enrolment leaves behind, and what it answers.
  pub record Delivered (rt : ProfileRuntime) (ca : CertificateAuthority) (parsed : ParsedRequest)
      (issued : Certificate) (before after : Pool) : Type 0 where
    pub status :
        (ca_id serial : String)
        → status_view after ca_id serial ≡ (
            if ca.id == ca_id && serial_hex l issued == serial
            then good
            else status_view before ca_id serial)
    pub transaction :
        (id : String)
        → transaction_view after id ≡ (
            if parsed.transaction_id == id
            then upsert parsed.transaction_id rt.name "issued" "PKCSReq"
                (now_utc m)
                (transaction_view before id)
            else transaction_view before id)

  enrol-approved :
      (state : AppState) (rt : ProfileRuntime) (ca : CertificateAuthority) (parsed : ParsedRequest)
      (csr : ParsedCsr) (w : World)
      → (validate l.backend rt.validator (input_of parsed csr) w.net).0 ≡ ok tt
      → enrol l m state rt ca parsed csr w
        ≡ issue_and_deliver l m state rt ca parsed csr
            (record w { net = (validate l.backend rt.validator (input_of parsed csr) w.net).1 })
  unfolding enrol
  enrol-approved state rt ca parsed csr w h = rw h refl

  issue_and_deliver-signed :
      (state : AppState) (rt : ProfileRuntime) (ca : CertificateAuthority) (parsed : ParsedRequest)
      (csr : ParsedCsr) (issued : Certificate) (w : World)
      → issue l.asn1 l.extensions l.builder m.serial ca csr.req (issue_options state rt) ≡ ok issued
      → issue_and_deliver l m state rt ca parsed csr w ≡ deliver l m rt ca parsed csr issued w
  unfolding issue_and_deliver
  issue_and_deliver-signed state rt ca parsed csr issued w h = rw (h, issue_and_deliver) refl

  deliver-encoded :
      (rt : ProfileRuntime) (ca : CertificateAuthority) (parsed : ParsedRequest) (csr : ParsedCsr)
      (issued : Certificate) (der : Bytes) (w : World)
      → l.asn1.encode_certificate issued ≡ ok der
      → ((deliver l m rt ca parsed csr issued w).0 ≡ build_success l m ca parsed issued)
        × ((deliver l m rt ca parsed csr issued w).1.pool
            ≡ (persist l m rt ca parsed issued der w.pool).1)
  unfolding deliver
  deliver-encoded rt ca parsed csr issued der w h = rw h (refl, refl)

  module _ (state : AppState) (profile : String) (body : Bytes) (w : World)
      (o : Opened l m state profile body) (issued : Certificate) (der : Bytes) where
    -- A request that opens to a CSR under a configured profile, that the validator approves, and
    -- whose certificate the CA issues and encodes under a serial number that the table does not have
    -- yet, is answered with the SUCCESS reply. If the database serves its statements, the new
    -- certificate is then good and the transaction is recorded as issued; the status of every other
    -- certificate and every other transaction are as they were.
    pub pki_operation-accepted :
        (validate l.backend o.rt.validator (input_of o.parsed o.csr) w.net).0 ≡ ok tt
        → issue l.asn1 l.extensions l.builder m.serial o.ca o.csr.req (issue_options state o.rt)
          ≡ ok issued
        → l.asn1.encode_certificate issued ≡ ok der
        → w.pool.outages ≡ []
        → any (has_serial (serial_hex l issued)) w.pool.issued_certificate ≡ false
        → ((pki_operation l m state profile body w).0 ≡ build_success l m o.ca o.parsed issued)
          × Delivered o.rt o.ca o.parsed issued w.pool
              (pki_operation l m state profile body w).1.pool
    pki_operation-accepted approved signed encoded up fresh =
        let w' : World = record w {
          net = (validate l.backend o.rt.validator (input_of o.parsed o.csr) w.net).1;
        } in
        let ran =
          pki_operation-Opened l m state profile body w o
          ∙ enrol-approved state o.rt o.ca o.parsed o.csr w approved
          ∙ issue_and_deliver-signed state o.rt o.ca o.parsed o.csr issued w' signed in
        let made = deliver-encoded o.rt o.ca o.parsed o.csr issued der w' encoded in
        let persisted = persist-up l m o.rt o.ca o.parsed issued der w.pool up fresh in
        rw (ran, made.0, made.1, persisted)
          (
            refl,
            record {
              status = persisted-status_view l m o.rt o.ca o.parsed issued der w.pool up fresh;
              transaction =
                  persisted-transaction_view l m o.rt o.ca o.parsed issued der w.pool up fresh;
            },
          )
