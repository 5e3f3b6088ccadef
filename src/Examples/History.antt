-- ===== src/Examples/History.antt =====
-- The toy server over several requests.
use blapki.Prelude.{◌≡◌, refl, none, some, ok, List, [], ◌∷◌, pos, inl}
use blapki.Db.{IssuedCertificate}
use blapki.Db.Repo.{revoke, status_valid, list_revoked, RevokedEntry}
use blapki.Db.Repo.Revoked.{Listed}
use blapki.Db.Repo.Invariant.{IsWellFormed}
use blapki.Http.{World}
use blapki.Http.Ocsp.{
  CertId, CertStatus, SingleResponse, single_responses, ocsp_now, next_update_time,
}
use blapki.Http.Ocsp.Responses.{TimeTold, Answered, single_responses-Answered}
use blapki.Crates.{DateTime}
use blapki.Http.Router.{serve}
use blapki.Http.Router.Writes.{Effect, serve-Effect}
use blapki.Http.History.{Reach, here, next, serves, moves_on}
use blapki.Http.History.Kept.{Reach-IsWellFormed}
use blapki.Http.History.Origins.{HaveOrigins, Reach-HaveOrigins}
use blapki.Http.History.Revoked.{entry, revoke_seen_forever}
use blapki.Examples.Server.{state, moment, world, net, good_message}
use blapki.Examples.Site.{site, ocsp_codec, enrolment}

-- The world after one enrolment.
abbrev after : World
after = (serve site (state "hunter2") moment 0 (enrolment good_message) world).1

enrolled : Reach site (state "hunter2") world after
enrolled = next here (serves moment 0 (enrolment good_message) refl)

serve-Effect_example : Effect site (state "hunter2") moment 0 (enrolment good_message) world after
serve-Effect_example = serve-Effect site (state "hunter2") moment 0 (enrolment good_message) world

Reach-HaveOrigins_example : HaveOrigins site (state "hunter2") world after.pool.issued_certificate
Reach-HaveOrigins_example = Reach-HaveOrigins site (state "hunter2") enrolled refl

Reach-IsWellFormed_example : IsWellFormed after.pool
Reach-IsWellFormed_example =
    Reach-IsWellFormed site (state "hunter2") enrolled
      (record { rows = tt; serials = tt; ids = tt })

abbrev pub row : IssuedCertificate
row = record {
  serial = "0a";
  ca_id = "ca";
  subject = "CN=device";
  not_before = "2026";
  not_after = "2027";
  der_b64 = "";
  thumbprint_sha1 = "";
  transaction_id = some "txn";
  profile = some "wifi";
  status = status_valid;
  created_at = "now";
  revoked_at = none;
  revocation_reason = none;
}

-- One valid certificate, whose revocation is served; then the engine is down for a while.
abbrev one : World
one = record {
  pool = record { issued_certificate = row ∷ []; scep_transaction = []; outages = [] };
  net = net;
}

abbrev id : CertId
id = record { serial_number = 10 ∷ []; issuer_hashes = [] }

abbrev revoked_world : World
revoked_world = record one { pool = (revoke "ca" "0a" (pos 1) "then" one.pool).1 }

abbrev down : World
down = record revoked_world { pool = record revoked_world.pool { outages = some "down" ∷ [] } }

abbrev up_again : World
up_again = record down { pool = record down.pool { outages = [] } }

later : Reach site (state "hunter2") revoked_world up_again
later = next (next here (moves_on (some "down" ∷ []) net refl)) (moves_on [] net refl)

single_responses-Answered_example :
    (rs : List SingleResponse) × (single_responses ocsp_codec 1000 "ca" (id ∷ id ∷ []) up_again.pool
      ≡ (ok rs, up_again.pool))
    × Answered ocsp_codec 1000 "ca" up_again.pool (id ∷ id ∷ []) rs
single_responses-Answered_example =
    single_responses-Answered ocsp_codec 1000 "ca" (id ∷ id ∷ []) up_again.pool refl

revoke_seen_forever_example :
    (t : DateTime) × (single_responses ocsp_codec 1000 "ca" (id ∷ []) up_again.pool ≡ (
      ok (
          record {
            cert_id = id;
            cert_status = CertStatus.status_revoked t;
            this_update = ocsp_now ocsp_codec 1000;
            next_update = next_update_time ocsp_codec 1000;
          }
          ∷ []),
      up_again.pool,
    ))
    × TimeTold ocsp_codec (some "then") (ocsp_now ocsp_codec 1000) t
    × (entries : List RevokedEntry) × ((list_revoked "ca" up_again.pool).0 ≡ ok entries)
    × Listed (entry "0a" (pos 1) "then") entries
unfolding revoke
revoke_seen_forever_example =
    revoke_seen_forever site (state "hunter2") "ca" id (pos 1) "then" 1000 one up_again
      (record { rows = (inl (refl, refl, refl), tt); serials = (refl, tt); ids = tt }) refl later
      refl
