-- ===== src/Http/Ocsp/Responses.antt =====
-- What the responder of src/http/ocsp.rs says of each certificate.
use blapki.Prelude.{
  ℕ, String, ◌≡◌, ◌≢◌, refl, inl, inr, Bool-cases, Option, Option-cases, none, some, Result-cases,
  ok, List, [], ◌∷◌, map, find, arith, ◌==◌, eq_iff,
}
use blapki.Crates.{DateTime}
use blapki.Db.{IssuedCertificate, Pool, statement}
use blapki.Db.Repo.{revoked, status_by_serial, is_row_of, status_revoked, row_status}
use blapki.Db.Repo.Status.{status_view}
use blapki.Http.Ocsp.{
  OcspCodec, CertId, CertStatus, SingleResponse, single, single_responses, to_cert_status, ocsp_now,
  next_update_time,
}
use blapki.Prelude.{ℤ}

status_by_serial-up :
    (ca_id serial : String) (p : Pool)
    → p.outages ≡ []
    → status_by_serial ca_id serial p ≡ (ok (status_view p ca_id serial), p)
unfolding status_by_serial status_view statement
status_by_serial-up ca_id serial p up = rw up refl

module _ (c : OcspCodec) where
  -- No time can be read of what a row has for it.
  abbrev pub Unreadable : Option String → Type 0
  Unreadable revoked_at =
      (text : String) (n : ℕ) (t : DateTime)
      → revoked_at ≡ some text
      → c.parse_rfc3339 text ≡ some n
      → c.generalized_time n ≢ ok t

  -- The time that is told of a revocation: its own, or that of the answer where it cannot be read.
  pub data TimeTold (revoked_at : Option String) (answered t : DateTime) : Type 0 where
    own_time :
        (text : String) (n : ℕ)
        → revoked_at ≡ some text
        → c.parse_rfc3339 text ≡ some n
        → c.generalized_time n ≡ ok t
        → TimeTold revoked_at answered t
    time_of_answer : Unreadable revoked_at → t ≡ answered → TimeTold revoked_at answered t

  -- What is told of the certificate whose row this is, if there is one.
  pub data Told (row : Option IssuedCertificate) (r : SingleResponse) : Type 0 where
    told_unknown : row ≡ none → r.cert_status ≡ CertStatus.status_unknown → Told row r
    told_good :
        (x : IssuedCertificate)
        → row ≡ some x
        → x.status ≢ status_revoked
        → r.cert_status ≡ CertStatus.status_good
        → Told row r
    told_revoked :
        (x : IssuedCertificate) (t : DateTime)
        → row ≡ some x
        → x.status ≡ status_revoked
        → r.cert_status ≡ CertStatus.status_revoked t
        → TimeTold x.revoked_at r.this_update t
        → Told row r

  -- The answers, one for each certificate that is asked about.
  abbrev pub Answered : ℕ → String → Pool → List CertId → List SingleResponse → Type 0
  Answered now ca_id p [] [] = Unit
  Answered now ca_id p (entry ∷ entries) (r ∷ rs) =
      ((r.cert_id ≡ entry)
        × (r.this_update ≡ ocsp_now c now)
        × (r.next_update ≡ next_update_time c now)
        × Told (find (is_row_of ca_id (c.hex_encode entry.serial_number)) p.issued_certificate) r)
      × Answered now ca_id p entries rs
  Answered now ca_id p [] (r ∷ rs) = ⊥
  Answered now ca_id p (entry ∷ entries) [] = ⊥

  pub to_cert_status-revoked :
      (now : ℕ) (revoked_at : Option String) (reason : Option ℤ)
      → (t : DateTime) × (to_cert_status c now (revoked revoked_at reason)
          ≡ CertStatus.status_revoked t)
        × TimeTold revoked_at (ocsp_now c now) t
  unfolding to_cert_status
  to_cert_status-revoked now none reason =
      (ocsp_now c now, refl, time_of_answer (λ text n t e. absurd (ground arith)) refl)
  to_cert_status-revoked now (some text) reason = elim (Option-cases (c.parse_rfc3339 text)) [
    | inl h ↦ (
      ocsp_now c now,
      rw (h, to_cert_status) refl,
      time_of_answer (λ text' n t e p q. absurd (ground arith)) refl,
    )
    | inr (n, h) ↦ elim (Result-cases (c.generalized_time n)) [
      | inl (t, k) ↦ (t, rw (h, to_cert_status) (rw k refl), own_time text n refl h k)
      | inr (x, k) ↦ (
        ocsp_now c now,
        rw (h, to_cert_status) (rw k refl),
        time_of_answer (λ text' n' t e p q. absurd (ground arith)) refl,
      )
    ]
  ]

  single-Told :
      (now : ℕ) (entry : CertId) (row : Option IssuedCertificate)
      → Told row (single c now entry (row_status row))
  unfolding row_status to_cert_status
  single-Told now entry none = told_unknown refl refl
  single-Told now entry (some x) = elim (Bool-cases (x.status == status_revoked)) [
    | inr no' ↦
        told_good x refl (λ e. absurd (ground (arith, eq_iff x.status status_revoked)))
          (rw no' refl)
    | inl yes' ↦
        let (t, told, time) = to_cert_status-revoked now x.revoked_at x.revocation_reason in
        told_revoked x t refl ((eq_iff x.status status_revoked).0 yes') (rw yes' told) time
  ]

  pub single_responses-status_view :
      (now : ℕ) (ca_id : String) (entries : List CertId) (p : Pool)
      → p.outages ≡ []
      → single_responses c now ca_id entries p ≡ (
        ok (
            map
              (λ entry. single c now entry (status_view p ca_id (c.hex_encode entry.serial_number)))
              entries),
        p,
      )
  unfolding single_responses
  single_responses-status_view now ca_id [] p up = refl
  single_responses-status_view now ca_id (entry ∷ entries) p up =
      rw
        (
          status_by_serial-up ca_id (c.hex_encode entry.serial_number) p up,
          single_responses-status_view now ca_id entries p up,
        )
        refl

  map-single-Answered :
      (now : ℕ) (ca_id : String) (entries : List CertId) (p : Pool)
      → Answered now ca_id p entries (
          map
            (λ entry. single c now entry (status_view p ca_id (c.hex_encode entry.serial_number)))
            entries)
  unfolding status_view
  map-single-Answered now ca_id [] p = tt
  map-single-Answered now ca_id (entry ∷ entries) p = (
    (
      refl,
      refl,
      refl,
      single-Told now entry
          (find (is_row_of ca_id (c.hex_encode entry.serial_number)) p.issued_certificate),
    ),
    map-single-Answered now ca_id entries p,
  )

  -- While the database serves its statements, a request is answered certificate by certificate, in
  -- order, and the tables are only read: unknown, if this CA has no row with the serial number; good,
  -- if its row is not revoked; and else revoked, with the time of the row, or with that of the answer
  -- if no time can be read of the row.
  pub single_responses-Answered :
      (now : ℕ) (ca_id : String) (entries : List CertId) (p : Pool)
      → p.outages ≡ []
      → (rs : List SingleResponse) × (single_responses c now ca_id entries p ≡ (ok rs, p))
        × Answered now ca_id p entries rs
  single_responses-Answered now ca_id entries p up = (
    map (λ entry. single c now entry (status_view p ca_id (c.hex_encode entry.serial_number)))
        entries,
    single_responses-status_view now ca_id entries p up,
    map-single-Answered now ca_id entries p,
  )
