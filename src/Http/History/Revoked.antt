-- ===== src/Http/History/Revoked.antt =====
-- What the public endpoints of src/http say of a certificate that was revoked.
use blapki.Prelude.{ℕ, String, ◌≡◌, refl, true, some, ok, ℤ, List, [], ◌∷◌}
use blapki.Crates.{DateTime}
use blapki.Db.{Pool}
use blapki.Db.Repo.{revoke, revoked, RevokedEntry, list_revoked, revoked_rows}
use blapki.Db.Repo.Status.{status_view, revoke-status_view}
use blapki.Db.Repo.Invariant.{IsWellFormed, revoke-IsWellFormed}
use blapki.Db.Repo.Revoked.{Listed, Listed-row_status}
use blapki.Http.{AppState, World}
use blapki.Http.Ocsp.{CertId, CertStatus, single_responses, ocsp_now, next_update_time}
use blapki.Http.Ocsp.Responses.{TimeTold, to_cert_status-revoked, single_responses-status_view}
use blapki.Http.Router.{Site}
use blapki.Http.History.{Reach}
use blapki.Http.History.Kept.{Reach-IsWellFormed, Reach-revoked}

abbrev pub entry : String → ℤ → String → RevokedEntry
entry serial reason at = record { serial = serial; revoked_at = some at; reason = some reason }

list_revoked-up :
    (ca_id : String) (p : Pool)
    → p.outages ≡ []
    → (list_revoked ca_id p).0 ≡ ok (revoked_rows ca_id p.issued_certificate)
unfolding list_revoked
list_revoked-up ca_id p up = rw up refl

status_view-Listed :
    (ca_id serial : String) (reason : ℤ) (at : String) (p : Pool)
    → IsWellFormed p
    → status_view p ca_id serial ≡ revoked (some at) (some reason)
    → Listed (entry serial reason at) (revoked_rows ca_id p.issued_certificate)
unfolding status_view
status_view-Listed ca_id serial reason at p f h =
    (Listed-row_status ca_id (entry serial reason at) p.issued_certificate f.serials).1 h

module _ (site : Site) (state : AppState) where
  -- Once a revocation of a well-formed database was answered with `true`, then in every world that
  -- the server comes to, and in which the database serves its statements, an OCSP request for that
  -- serial number is answered as revoked, with the time of this revocation, or with that of the
  -- answer if no time can be read of it; and the rows of the CRL hold its entry.
  pub revoke_seen_forever :
      (ca_id : String) (id : CertId) (reason : ℤ) (at : String) (now : ℕ) (w u : World)
      → IsWellFormed w.pool
      → (revoke ca_id (site.ocsp.hex_encode id.serial_number) reason at w.pool).0 ≡ ok true
      → Reach site state
          (record w {
            pool = (revoke ca_id (site.ocsp.hex_encode id.serial_number) reason at w.pool).1;
          })
          u
      → u.pool.outages ≡ []
      → (t : DateTime) × (single_responses site.ocsp now ca_id (id ∷ []) u.pool ≡ (
        ok (
            record {
              cert_id = id;
              cert_status = CertStatus.status_revoked t;
              this_update = ocsp_now site.ocsp now;
              next_update = next_update_time site.ocsp now;
            }
            ∷ []),
        u.pool,
      ))
        × TimeTold site.ocsp (some at) (ocsp_now site.ocsp now) t
        × (entries : List RevokedEntry) × ((list_revoked ca_id u.pool).0 ≡ ok entries)
        × Listed (entry (site.ocsp.hex_encode id.serial_number) reason at) entries
  revoke_seen_forever ca_id id reason at now w u f done reached up =
      let serial = site.ocsp.hex_encode id.serial_number in
      let first = (revoke-status_view ca_id serial reason at w.pool true f done).1 in
      let now_revoked =
        Reach-revoked site state ca_id serial (some at) (some reason) reached first in
      let sound =
        Reach-IsWellFormed site state reached (revoke-IsWellFormed ca_id serial reason at f) in
      let (t, told, time) = to_cert_status-revoked site.ocsp now (some at) (some reason) in
      (
        t,
        rw (single_responses-status_view site.ocsp now ca_id (id ∷ []) u.pool up, now_revoked)
            (rw told refl),
        time,
        revoked_rows ca_id u.pool.issued_certificate,
        list_revoked-up ca_id u.pool up,
        status_view-Listed ca_id serial reason at u.pool sound now_revoked,
      )
