-- ===== src/Config/Tables.antt =====
-- src/config.rs: how `#[derive(Deserialize)]` makes the settings of a table of fields, with the
-- defaults of the source.
--
-- A table is what figment merges from the file and the environment: the fields that are there, by
-- their values. `missing` and `unknown` are the texts of the errors of serde.
use blapki.Prelude.{
  ℕ, String, Option, none, some, Result, ok, err, List, [], ◌∷◌, ok_or, unwrap_or, ◌>>=◌, ◌==◌,
  if◌then◌else◌,
}
use blapki.Config.{
  Settings, CaConfig, ProfileConfig, ServerConfig, IntuneConfig, ChallengeMode, mode_static,
  mode_intune, mode_none,
}

pub record CaTable : Type 0 where
  pub id : Option String
  pub key_file : Option String
  pub cert_pem : Option String
  pub cert_pem_env : Option String
  pub key_pem : Option String
  pub key_pem_env : Option String
  pub key_password_env : Option String
  pub crl_lifetime_hours : Option ℕ

pub record ProfileTable : Type 0 where
  pub name : Option String
  pub ca : Option String
  pub challenge : Option String
  pub static_secret_env : Option String
  pub validity_days : Option ℕ
  pub key_usage : Option (List String)
  pub extended_key_usage : Option (List String)

pub record IntuneTable : Type 0 where
  pub tenant_id : Option String
  pub client_id : Option String
  pub client_secret_env : Option String
  pub login_host : Option String
  pub resource : Option String

pub record ServerTable : Type 0 where
  pub listen : Option String
  pub database_url : Option String
  pub base_url : Option String

pub record SettingsTable : Type 0 where
  pub server : Option ServerTable
  pub ca : Option (List CaTable)
  pub profile : Option (List ProfileTable)
  pub intune : Option IntuneTable

abbrev pub default_crl_lifetime : ℕ
default_crl_lifetime = 24

abbrev pub default_validity_days : ℕ
default_validity_days = 365

abbrev pub default_key_usage : List String
default_key_usage = "digitalSignature" ∷ "keyEncipherment" ∷ []

abbrev pub default_eku : List String
default_eku = "clientAuth" ∷ []

abbrev pub default_login_host : String
default_login_host = "https://login.microsoftonline.com"

abbrev pub default_intune_resource : String
default_intune_resource = "https://api.manage.microsoft.com/"

unfoldable pub read_each {ℓ} : {E A B : Type ℓ} → (A → Result E B) → List A → Result E (List B)
read_each read [] = ok []
read_each read (x ∷ xs) = do y ← read x; ys ← read_each read xs; ok (y ∷ ys)

module _ (missing unknown : String → String) where
  abbrev required {ℓ} : {A : Type ℓ} → String → Option A → Result String A
  required field value = ok_or (missing field) value

  unfoldable pub read_ca : CaTable → Result String CaConfig
  read_ca t = do
    id ← required "id" t.id
    ok (record {
      id = id;
      key_file = t.key_file;
      cert_pem = t.cert_pem;
      cert_pem_env = t.cert_pem_env;
      key_pem = t.key_pem;
      key_pem_env = t.key_pem_env;
      key_password_env = t.key_password_env;
      crl_lifetime_hours = unwrap_or default_crl_lifetime t.crl_lifetime_hours;
    })

  -- The names of the modes are in lower case; `#[default]` is the static one.
  unfoldable pub read_mode : Option String → Result String ChallengeMode
  read_mode none = ok mode_static
  read_mode (some mode) =
      if mode == "static"
      then ok mode_static
      else if mode == "intune"
      then ok mode_intune
      else if mode == "none"
      then ok mode_none
      else err (unknown mode)

  unfoldable pub read_profile : ProfileTable → Result String ProfileConfig
  unfolding read_mode
  read_profile t = do
    challenge ← read_mode t.challenge
    name ← required "name" t.name
    ca ← required "ca" t.ca
    ok (record {
      name = name;
      ca = ca;
      challenge = challenge;
      static_secret_env = t.static_secret_env;
      validity_days = unwrap_or default_validity_days t.validity_days;
      key_usage = unwrap_or default_key_usage t.key_usage;
      extended_key_usage = unwrap_or default_eku t.extended_key_usage;
    })

  unfoldable pub read_server : Option ServerTable → Result String ServerConfig
  read_server none = err (missing "server")
  read_server (some t) = do
    listen ← required "listen" t.listen
    database_url ← required "database_url" t.database_url
    base_url ← required "base_url" t.base_url
    ok (record { listen = listen; database_url = database_url; base_url = base_url })

  unfoldable pub read_intune : Option IntuneTable → Result String (Option IntuneConfig)
  read_intune none = ok none
  read_intune (some t) = do
    tenant_id ← required "tenant_id" t.tenant_id
    client_id ← required "client_id" t.client_id
    client_secret_env ← required "client_secret_env" t.client_secret_env
    ok (
        some (record {
          tenant_id = tenant_id;
          client_id = client_id;
          client_secret_env = client_secret_env;
          login_host = unwrap_or default_login_host t.login_host;
          resource = unwrap_or default_intune_resource t.resource;
        }))

  -- The fields are read in the order of figment's map, and then the missing one is noticed.
  unfoldable pub read_settings : SettingsTable → Result String Settings
  unfolding read_ca read_profile read_server read_intune read_each
  read_settings t = do
    ca ← read_each read_ca (unwrap_or [] t.ca)
    intune ← read_intune t.intune
    profile ← read_each read_profile (unwrap_or [] t.profile)
    server ← read_server t.server
    ok (record { server = server; ca = ca; profile = profile; intune = intune })
