-- ===== src/Main.antt =====
-- src/main.rs: from the environment to the server that answers requests.
--
-- The log, and the signal that ends the server, are left out; the router is served over the state by
-- axum, from then on as in Http/History. `bind` is the listener of the address.
pub mod Origins
pub mod Sound
pub mod Restart
use blapki.Prelude.{String, Option, Result, ok, err, Bytes, unwrap_or}
use blapki.Prelude
use blapki.Exec.{Exec, pure, lift, ◌>>=◌}
use blapki.Crates.{Asn1}
use blapki.Ca.Authority.{Builder}
use blapki.Ca.Bootstrap.{RootCodec}
use blapki.Ca.Keystore.{KeyCodec}
use blapki.Config.{Settings, load}
use blapki.Config.Tables.{SettingsTable, read_settings}
use blapki.Http.{AppState}
use blapki.App.{Host, PemCodec, build_state}

-- What becomes of a start: the router serves a state at an address, or the address is taken.
pub data Started : Type 0 where
  serving : String → AppState → Started
  not_bound : String → Started

abbrev pub listen_on : String → AppState → Result String (Unit {0}) → Started
listen_on listen state (ok _) = Started.serving listen state
listen_on listen state (err e) = Started.not_bound e

abbrev pub config_path : (String → Option String) → String
config_path env = unwrap_or "config.toml" (env "BLAPKI_CONFIG")

module _ (a : Asn1) (k : KeyCodec) (p : PemCodec) (b : Builder) (r : RootCodec b) (random : Bytes)
    (env : String → Option String) where
  -- `merge` is figment's merging of the file at a path with the environment.
  unfoldable pub main :
      (String → String)
      → (String → String)
      → (String → Result String SettingsTable)
      → (String → Result String (Unit {0}))
      → (String → Result String (Unit {0}))
      → Exec Host Started
  main missing unknown merge open_pool bind = do
    settings ← lift (
        load (λ path. Prelude.◌>>=◌ (merge path) (read_settings missing unknown)) (config_path env))
    state ← build_state a k p b r random env open_pool settings
    pure (listen_on settings.server.listen state (bind settings.server.listen))
