-- ===== src/Db/Repo/Status.antt =====
-- What an OCSP lookup sees after each operation of src/db/repo.rs: the tables refine a map from a
-- CA and a serial to a revocation status.
use blapki.Prelude.{
  String, ◌≡◌, Bool, true, false, ◌&&◌, Option, none, some, List, ok, any, find, arith, ◌==◌,
  eq_iff, if◌then◌else◌, ℤ, All, ltb, refl, ◌≢◌, Bool-cases, inl, inr, ◌↔◌, [], ◌∷◌,
}
use blapki.Db.{IssuedCertificate, Pool}
use blapki.Db.Repo.{
  is_row_of, status_valid, status_revoked, RevocationStatus, good, revoked, row_status,
  insert_issued, status_by_serial, revoke, rows_affected, is_revocable,
}
use blapki.Db.Repo.Invariant.{RowIsOk, SerialsDiffer, IsWellFormed}
use blapki.Db.Repo.Tables.{
  find-append, find-none, any-is_row_of, revoked_row, map_row, find-revoke_rows_self,
  find-revoke_rows_ne,
}

-- The abstract state: the status of every certificate.
unfoldable pub status_view : Pool → String → String → RevocationStatus
unfolding row_status
status_view p ca_id serial = row_status (find (is_row_of ca_id serial) p.issued_certificate)

-- A lookup that is answered returns the abstract status.
pub status_by_serial-status_view :
    (ca_id serial : String) (p : Pool) (st : RevocationStatus)
    → (status_by_serial ca_id serial p).0 ≡ ok st
    → st ≡ status_view p ca_id serial
unfolding status_by_serial status_view
status_by_serial-status_view ca_id serial p st h = ground arith

-- An accepted insertion gives the new certificate the status of its row, and leaves the status of
-- every other certificate as it was.
pub status_view-insert_issued :
    (cert : IssuedCertificate) (ca_id serial : String) (p : Pool)
    → (insert_issued cert p).0 ≡ ok tt
    → status_view (insert_issued cert p).1 ca_id serial ≡ (
        if cert.ca_id == ca_id && cert.serial == serial
        then row_status (some cert)
        else status_view p ca_id serial)
unfolding insert_issued status_view
status_view-insert_issued cert ca_id serial p h = ground (
  arith,
  find-append (is_row_of ca_id serial) p.issued_certificate cert,
  find-none (is_row_of ca_id serial) p.issued_certificate,
  any-is_row_of ca_id cert.serial p.issued_certificate,
  eq_iff cert.serial serial,
)

-- `revoke` leaves the status of every other certificate as it was.
pub status_view-revoke_ne :
    (ca_id serial ca' serial' : String) (reason : ℤ) (at : String) (p : Pool)
    → (ca_id == ca' && serial == serial') ≡ false
    → status_view (revoke ca_id serial reason at p).1 ca' serial' ≡ status_view p ca' serial'
unfolding revoke status_view
status_view-revoke_ne ca_id serial ca' serial' reason at p h =
    ground (arith, find-revoke_rows_ne ca_id serial reason at ca' serial' p.issued_certificate h)

pub valid≢revoked : ◌≢◌ {A = String} status_valid status_revoked
valid≢revoked = ground (arith, eq_iff status_valid status_revoked)

rows_affected-find :
    (ca_id serial : String) (rows : List IssuedCertificate)
    → any (is_row_of ca_id serial) rows ≡ false
    → rows_affected (is_revocable ca_id serial) rows ≡ 0
rows_affected-find ca_id serial [] h = ground arith
rows_affected-find ca_id serial (r ∷ rows) h = ground (arith, rows_affected-find ca_id serial rows)

-- Where serials differ, an update of one certificate affects a row exactly if the row that a lookup
-- finds is valid.
rows_affected-row_status :
    (ca_id serial : String) (rows : List IssuedCertificate)
    → All RowIsOk rows
    → SerialsDiffer rows
    → (ltb 0 (rows_affected (is_revocable ca_id serial) rows) ≡ true)
      ↔ (row_status (find (is_row_of ca_id serial) rows) ≡ good)
unfolding row_status
rows_affected-row_status ca_id serial [] h d = ground arith
rows_affected-row_status ca_id serial (r ∷ rows) (h, hs) (d, ds) =
    elim (Bool-cases (is_row_of ca_id serial r)) [
      | inl here ↦ rw here (
          ground (
            arith,
            rows_affected-find ca_id serial rows,
            any-is_row_of ca_id serial rows,
            eq_iff r.serial serial,
            eq_iff r.status status_valid,
            eq_iff r.status status_revoked,
            valid≢revoked,
          ))
      | inr later ↦ rw later (rows_affected-row_status ca_id serial rows hs ds)
    ]

-- What a served `revoke` makes of a status.
abbrev pub after_revoke : ℤ → String → RevocationStatus → RevocationStatus
after_revoke reason at good = revoked (some at) (some reason)
after_revoke reason at other = other

abbrev FoundIsOk : Option IssuedCertificate → Type 0
FoundIsOk none = Unit
FoundIsOk (some row) = RowIsOk row

find-FoundIsOk :
    (q : IssuedCertificate → Bool) (rows : List IssuedCertificate)
    → All RowIsOk rows
    → FoundIsOk (find q rows)
find-FoundIsOk q [] h = tt
find-FoundIsOk q (r ∷ rows) (h, hs) = ground (arith, find-FoundIsOk q rows hs)

row_status-revoked_row :
    (reason : ℤ) (at : String) (o : Option IssuedCertificate)
    → FoundIsOk o
    → row_status (map_row (revoked_row reason at) o) ≡ after_revoke reason at (row_status o)
unfolding row_status
row_status-revoked_row reason at none h = refl
row_status-revoked_row reason at (some row) h = elim (Bool-cases (row.status == status_valid)) [
  | inl yes' ↦ rw yes' (
      ground
        (arith, eq_iff row.status status_valid, eq_iff row.status status_revoked, valid≢revoked))
  | inr no' ↦
      rw no' (ground (arith, eq_iff row.status status_valid, eq_iff row.status status_revoked))
]

-- On well-formed tables, a served `revoke` answers `true` exactly if the certificate was good, and
-- then it is revoked with the given time and reason; in every other case its status stays.
pub revoke-status_view :
    (ca_id serial : String) (reason : ℤ) (at : String) (p : Pool) (done : Bool)
    → IsWellFormed p
    → (revoke ca_id serial reason at p).0 ≡ ok done
    → ((done ≡ true) ↔ (status_view p ca_id serial ≡ good))
      × (status_view (revoke ca_id serial reason at p).1 ca_id serial
          ≡ (if done then revoked (some at) (some reason) else status_view p ca_id serial))
unfolding revoke status_view
revoke-status_view ca_id serial reason at p done w h = ground (
  arith,
  rows_affected-row_status ca_id serial p.issued_certificate w.rows w.serials,
  find-revoke_rows_self ca_id serial reason at p.issued_certificate,
  row_status-revoked_row reason at (find (is_row_of ca_id serial) p.issued_certificate)
      (find-FoundIsOk (is_row_of ca_id serial) p.issued_certificate w.rows),
)
