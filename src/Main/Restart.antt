-- ===== src/Main/Restart.antt =====
-- A restart of src/main.rs over the same database.
use blapki.Prelude.{
  String, ℤ, ◌≡◌, sym, ap, ◌∙◌, Option, some, Result, ok, [], Bytes, arith, unwrap_or,
}
use blapki.Error.{AppResult}
use blapki.Exec.{bind-eq-ok}
use blapki.Crates.{Asn1}
use blapki.Ca.Authority.{Builder}
use blapki.Ca.Bootstrap.{RootCodec}
use blapki.Ca.Keystore.{KeyCodec}
use blapki.Config.{Settings}
use blapki.Config.Tables.{SettingsTable}
use blapki.Db.{Pool}
use blapki.Db.Repo.{revoked}
use blapki.Db.Repo.Status.{status_view}
use blapki.Db.Schema.{Database, connect, pool_of}
use blapki.Db.Schema.Restart.{Connected, failed, served, connect-Connected}
use blapki.Intune.{Net}
use blapki.Http.{AppState, World}
use blapki.Http.Router.{Site}
use blapki.Http.History.{Reach}
use blapki.Http.History.Kept.{Reach-revoked, status_view-kept}
use blapki.App.{Host, PemCodec, build_state, on_database}
use blapki.Main.{Started, main}
use blapki.Main.Sound.{main-serving}

-- The tables of a database, a missing one as an empty one.
abbrev pub tables_of : Database → Pool
tables_of d = record {
  issued_certificate = unwrap_or [] d.issued_certificate;
  scep_transaction = unwrap_or [] d.scep_transaction;
  outages = [];
}

-- A connection that was served left the rows as they were.
served_rows :
    (d after : Database) (r : AppResult (Unit {0})) (p : Pool)
    → Connected d after r
    → r ≡ ok tt
    → pool_of after ≡ some p
    → p.issued_certificate ≡ unwrap_or [] d.issued_certificate
served_rows d after r p (failed e i t) h k = absurd (ground arith)
served_rows d after r p (served q e i t) h k =
    let found : some q ≡ some p = sym e ∙ k in let same : q ≡ p = ground arith in rw (← same) i

module _ (a : Asn1) (k : KeyCodec) (c : PemCodec) (b : Builder) (r : RootCodec b) (random : Bytes)
    (env : String → Option String) where
  build_state-connected :
      (open_pool : String → Result String (Unit {0})) (s : Settings) (h g : Host) (state : AppState)
      → build_state a k c b r random env open_pool s h ≡ (ok state, g)
      → ((connect (open_pool s.server.database_url) h.database).0 ≡ ok tt)
        × (g.database ≡ (connect (open_pool s.server.database_url) h.database).1)
  unfolding build_state
  build_state-connected open_pool s h g state e =
      let (u, h', e₁, h₁) =
        bind-eq-ok (on_database (connect (open_pool s.server.database_url))) _ h e in
      (ap (λ x. x.0) e₁, sym (ap (λ x. x.1.database) h₁) ∙ sym (ap (λ x. x.1.database) e₁))

  -- A revocation outlives the server: a certificate that is revoked in the database that a start
  -- connects to is revoked, with the same time and reason, in every world that the server then comes
  -- to.
  pub main-revoked :
      (missing unknown : String → String) (merge : String → Result String SettingsTable)
      (open_pool bind : String → Result String (Unit {0})) (h g : Host) (address : String)
      (state : AppState) (site : Site) (p : Pool) (net : Net) (w : World) (ca_id serial : String)
      (time : Option String) (reason : Option ℤ)
      → main a k c b r random env missing unknown merge open_pool bind h
        ≡ (ok (Started.serving address state), g)
      → pool_of g.database ≡ some p
      → Reach site state (record { pool = p; net = net }) w
      → status_view (tables_of h.database) ca_id serial ≡ revoked time reason
      → status_view w.pool ca_id serial ≡ revoked time reason
  main-revoked missing unknown merge open_pool bind h g address state site p net w ca_id serial time
        reason e pool reached was =
      let (t, s, merged, read, valid, built) =
        main-serving a k c b r random env missing unknown merge open_pool bind h g address state
          e in
      let (up, same) = build_state-connected open_pool s h g state built in
      let connected = connect-Connected (open_pool s.server.database_url) h.database in
      let rows =
        served_rows h.database (connect (open_pool s.server.database_url) h.database).1
          (connect (open_pool s.server.database_url) h.database).0 p connected up
          (rw same at pool) in
      Reach-revoked site state ca_id serial time reason reached
        (status_view-kept (tables_of h.database) p ca_id serial time reason rows was)
