-- ===== src/Http/History/Origins.antt =====
-- Where the rows of a server come from.
use blapki.Prelude.{
  String, ◌≡◌, refl, Bool-cases, none, inl, inr, ℤ, List, [], ◌∷◌, Bytes, All, All-append, arith,
}
use blapki.Db.{IssuedCertificate}
use blapki.Db.Repo.{status_valid, revoke, revoke_rows, is_revocable}
use blapki.Http.{AppState, World, Moment}
use blapki.Http.Scep.{pki_operation}
use blapki.Http.Scep.Gate.{Enrolled, pki_operation-gate}
use blapki.Http.Replies.{issued_row}
use blapki.Http.Router.{Request, Site}
use blapki.Http.Router.Asks.{Asks}
use blapki.Http.Router.Writes.{serve-Effect}
use blapki.Http.History.{Step, serves, revokes, moves_on, Reach, here, next}

-- A row as it was inserted, before any revocation.
abbrev pub as_issued : IssuedCertificate → IssuedCertificate
as_issued row = record row { status = status_valid; revoked_at = none; revocation_reason = none }

module _ (P : IssuedCertificate → Type 0) where
  -- A property of rows as they were issued outlives revocations.
  All-revoke_rows_of :
      (ca_id serial : String) (reason : ℤ) (at : String) (rows : List IssuedCertificate)
      → All (λ row. P (as_issued row)) rows
      → All (λ row. P (as_issued row)) (revoke_rows ca_id serial reason at rows)
  unfolding revoke_rows
  All-revoke_rows_of ca_id serial reason at [] h = tt
  All-revoke_rows_of ca_id serial reason at (row ∷ rows) (h, hs) =
      let rest = All-revoke_rows_of ca_id serial reason at rows hs in
      elim (Bool-cases (is_revocable ca_id serial row)) [
        | inl yes' ↦ rw yes' (h, rest)
        | inr no' ↦ rw no' (h, rest)
      ]

  All-revoke :
      (ca_id serial : String) (reason : ℤ) (at : String) (w : World)
      → All (λ row. P (as_issued row)) w.pool.issued_certificate
      → All (λ row. P (as_issued row)) (revoke ca_id serial reason at w.pool).1.issued_certificate
  unfolding revoke
  All-revoke ca_id serial reason at w h =
      ground (arith, All-revoke_rows_of ca_id serial reason at w.pool.issued_certificate h)

module _ (site : Site) (state : AppState) where
  -- The request behind a row: it reached a world that the server had come to, asked for a
  -- PKIOperation, and passed all that an enrolment has to pass.
  pub record Origin (start : World) (row : IssuedCertificate) : Type 0 where
    pub before : World
    pub reached : Reach site state start before
    pub m : Moment
    pub r : Request
    pub profile : String
    pub message : Bytes
    pub asks : Asks site r profile message
    pub enrolled : Enrolled site.libraries m state profile message before
    pub row_of :
        row
        ≡ issued_row site.libraries m enrolled.request.rt enrolled.request.ca
            enrolled.request.parsed enrolled.issued enrolled.issued_der

  abbrev pub HaveOrigins : World → List IssuedCertificate → Type 0
  HaveOrigins start rows = All (λ row. Origin start (as_issued row)) rows

  module _ (start before : World) (reached : Reach site state start before) where
    pki_operation-HaveOrigins :
        (m : Moment) (r : Request) (profile : String) (message : Bytes)
        → Asks site r profile message
        → HaveOrigins start before.pool.issued_certificate
        → HaveOrigins start
            (pki_operation site.libraries m state profile message before).1.pool.issued_certificate
    pki_operation-HaveOrigins m r profile message asks h =
        elim (pki_operation-gate site.libraries m state profile message before) [
          | inl kept ↦ rw kept h
          | inr (enrolled, gained) ↦
              let origin : Origin start (
                  issued_row site.libraries m enrolled.request.rt enrolled.request.ca
                    enrolled.request.parsed enrolled.issued enrolled.issued_der) =
                record {
                  before = before;
                  reached = reached;
                  m = m;
                  r = r;
                  profile = profile;
                  message = message;
                  asks = asks;
                  enrolled = enrolled;
                  row_of = refl;
                } in
              rw gained (
                All-append (λ row. Origin start (as_issued row)) before.pool.issued_certificate
                  (issued_row site.libraries m enrolled.request.rt enrolled.request.ca
                      enrolled.request.parsed enrolled.issued enrolled.issued_der
                    ∷ [])
                  h (origin, tt))
        ]

    Step-HaveOrigins :
        {after : World}
        → Step site state before after
        → HaveOrigins start before.pool.issued_certificate
        → HaveOrigins start after.pool.issued_certificate
    Step-HaveOrigins (serves m now r e) h = elim (serve-Effect site state m now r before) [
      | inl (same, net) ↦ rw (e, same.0) h
      | inr (profile, message, asks, ran) ↦
          rw (e, ran) (pki_operation-HaveOrigins m r profile message asks h)
    ]
    Step-HaveOrigins (revokes ca_id serial reason at e) h =
        rw e (All-revoke (Origin start) ca_id serial reason at before h)
    Step-HaveOrigins (moves_on outages net e) h = rw e h

  -- Every certificate in the database of a server that started with an empty table comes from a
  -- request that asked for a PKIOperation and passed all the checks of an enrolment in the world that
  -- it met: apart from its revocation, the row is the one that this enrolment wrote.
  pub Reach-HaveOrigins :
      {start w : World}
      → Reach site state start w
      → start.pool.issued_certificate ≡ []
      → HaveOrigins start w.pool.issued_certificate
  Reach-HaveOrigins here empty = rw empty tt
  Reach-HaveOrigins {start} (next {before} reached step) empty =
      Step-HaveOrigins start before reached step (Reach-HaveOrigins reached empty)
