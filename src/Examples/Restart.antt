-- ===== src/Examples/Restart.antt =====
-- A start of src/main.rs over a database that has a revoked certificate.
use blapki.Prelude.{◌≡◌, refl, none, some, ok, [], ◌∷◌, pos, as_bytes}
use blapki.Db.{IssuedCertificate, Pool}
use blapki.Db.Repo.{revoked, status_revoked}
use blapki.Db.Repo.Status.{status_view}
use blapki.Db.Schema.{connect}
use blapki.Ca.Serial.{random_serial}
use blapki.Ca.Bootstrap.{generate_self_signed}
use blapki.Config
use blapki.Config.{load, build_client, build_profile, inline_material}
use blapki.Config.Tables.{read_settings}
use blapki.App.{Host, load_or_bootstrap_ca, load_cas, build_profiles, assemble, build_state}
use blapki.Main.{main}
use blapki.Main.Restart.{main-revoked}
use blapki.Http.{World}
use blapki.Http.History.{Reach, here, next, moves_on}
use blapki.Examples.Toy.{toy_asn1}
use blapki.Examples.Server.{builder, net}
use blapki.Examples.Site.{site}
use blapki.Examples.History.{row}
use blapki.Examples.Startup.{keys, root, pem, empty, written, table, missing, unknown, started}

abbrev revoked_row : IssuedCertificate
revoked_row = record row {
  status = status_revoked;
  revoked_at = some "then";
  revocation_reason = some (pos 1);
}

-- The database has no table of transactions yet.
abbrev before : Host
before = record {
  files = empty;
  database = record {
    issued_certificate = some (revoked_row ∷ []);
    scep_transaction = none;
    outages = [];
  };
}

abbrev after : Host
after = record {
  files = written;
  database = record {
    issued_certificate = some (revoked_row ∷ []);
    scep_transaction = some [];
    outages = [];
  };
}

abbrev pool : Pool
pool = record { issued_certificate = revoked_row ∷ []; scep_transaction = []; outages = [] }

abbrev first : World
first = record { pool = pool; net = net }

abbrev down : World
down = record first { pool = record pool { outages = some "down" ∷ [] } }

reached : Reach site started first down
reached = next here (moves_on (some "down" ∷ []) net refl)

main-revoked_example : status_view down.pool "ca" "0a" ≡ revoked (some "then") (some (pos 1))
unfolding main load read_settings Config.validate build_state assemble connect load_cas
    load_or_bootstrap_ca inline_material generate_self_signed random_serial build_client
    build_profiles build_profile as_bytes status_view
main-revoked_example =
    main-revoked toy_asn1 keys pem builder root (200 ∷ 1 ∷ []) (λ name. none) missing unknown
      (λ path. ok table) (λ url. ok tt) (λ address. ok tt) before after ":80" started site pool net
      down "ca" "0a" (some "then") (some (pos 1)) refl refl reached refl
