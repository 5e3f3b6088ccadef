-- ===== src/Http/History/Kept.antt =====
-- What holds in every world that a server comes to: its tables are well-formed, and a revocation is
-- final.
use blapki.Prelude.{String, ◌≡◌, Option, inl, inr, ℤ, Bytes, refl, [], ◌∷◌, ◌++◌}
use blapki.Db.{IssuedCertificate, Pool}
use blapki.Db.Repo.{revoked, is_row_of}
use blapki.Db.Repo.Status.{status_view}
use blapki.Db.Repo.Reach.{row_status-append, revoke-revoked}
use blapki.Db.Repo.Invariant.{IsWellFormed, revoke-IsWellFormed}
use blapki.Http.{AppState, World, Moment}
use blapki.Http.Scep.{pki_operation}
use blapki.Http.Scep.Consistency.{pki_operation-IsWellFormed}
use blapki.Http.Scep.Gate.{pki_operation-gate}
use blapki.Http.Router.{Site}
use blapki.Http.Router.Reads.{SameTables}
use blapki.Http.Router.Writes.{serve-Effect}
use blapki.Http.History.{Step, serves, revokes, moves_on, Reach, here, next}

SameTables-IsWellFormed : (p q : Pool) → SameTables p q → IsWellFormed p → IsWellFormed q
SameTables-IsWellFormed p q (e, f) w = record {
  rows = rw e w.rows;
  serials = rw e w.serials;
  ids = rw f w.ids;
}

module _ (site : Site) (state : AppState) where
  Step-IsWellFormed :
      {w u : World} → Step site state w u → IsWellFormed w.pool → IsWellFormed u.pool
  Step-IsWellFormed {w} {u} (serves m now r e) f = elim (serve-Effect site state m now r w) [
    | inl (same, net) ↦ rw e (SameTables-IsWellFormed w.pool _ same f)
    | inr (profile, message, asks, ran) ↦
        rw (e, ran) (pki_operation-IsWellFormed site.libraries m state profile message w f)
  ]
  Step-IsWellFormed (revokes ca_id serial reason at e) f =
      rw e (revoke-IsWellFormed ca_id serial reason at f)
  Step-IsWellFormed (moves_on outages net e) f =
      rw e (record { rows = f.rows; serials = f.serials; ids = f.ids })

  -- Whatever requests come, whichever certificates are revoked and whichever statements fail, the
  -- tables of a server stay well-formed.
  pub Reach-IsWellFormed :
      {start w : World} → Reach site state start w → IsWellFormed start.pool → IsWellFormed w.pool
  Reach-IsWellFormed here f = f
  Reach-IsWellFormed (next reached step) f = Step-IsWellFormed step (Reach-IsWellFormed reached f)

-- Rows that were added, or none, keep a revocation.
pub status_view-kept :
    (p q : Pool) (ca_id serial : String) (t : Option String) (r : Option ℤ)
    → q.issued_certificate ≡ p.issued_certificate
    → status_view p ca_id serial ≡ revoked t r
    → status_view q ca_id serial ≡ revoked t r
unfolding status_view
status_view-kept p q ca_id serial t r same h = rw same h

status_view-gained :
    (p q : Pool) (row : IssuedCertificate) (ca_id serial : String) (t : Option String)
    (r : Option ℤ)
    → q.issued_certificate ≡ p.issued_certificate ++ row ∷ []
    → status_view p ca_id serial ≡ revoked t r
    → status_view q ca_id serial ≡ revoked t r
unfolding status_view
status_view-gained p q row ca_id serial t r gained h =
    rw gained (row_status-append (is_row_of ca_id serial) p.issued_certificate (row ∷ []) t r h)

module _ (site : Site) (state : AppState) (ca_id serial : String) (t : Option String)
    (r : Option ℤ) where
  pki_operation-revoked :
      (m : Moment) (profile : String) (message : Bytes) (w : World)
      → status_view w.pool ca_id serial ≡ revoked t r
      → status_view (pki_operation site.libraries m state profile message w).1.pool ca_id serial
        ≡ revoked t r
  pki_operation-revoked m profile message w h =
      let after = (pki_operation site.libraries m state profile message w).1.pool in
      elim (pki_operation-gate site.libraries m state profile message w) [
        | inl kept ↦ status_view-kept w.pool after ca_id serial t r kept h
        | inr (enrolled, gained) ↦ status_view-gained w.pool after _ ca_id serial t r gained h
      ]

  Step-revoked :
      {w u : World}
      → Step site state w u
      → status_view w.pool ca_id serial ≡ revoked t r
      → status_view u.pool ca_id serial ≡ revoked t r
  Step-revoked {w} {u} (serves m now q e) h = elim (serve-Effect site state m now q w) [
    | inl (same, net) ↦ status_view-kept w.pool u.pool ca_id serial t r (rw e same.0) h
    | inr (profile, message, asks, ran) ↦ rw (e, ran) (pki_operation-revoked m profile message w h)
  ]
  Step-revoked {w} {u} (revokes ca' serial' reason at e) h =
      rw e (revoke-revoked w.pool ca' serial' reason at ca_id serial t r h)
  Step-revoked {w} {u} (moves_on outages net e) h =
      status_view-kept w.pool u.pool ca_id serial t r (rw e refl) h

  -- A certificate that is revoked stays revoked, with its time and its reason, in every world that
  -- the server comes to.
  pub Reach-revoked :
      {start w : World}
      → Reach site state start w
      → status_view start.pool ca_id serial ≡ revoked t r
      → status_view w.pool ca_id serial ≡ revoked t r
  Reach-revoked here h = h
  Reach-revoked (next reached step) h = Step-revoked step (Reach-revoked reached h)
