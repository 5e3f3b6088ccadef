-- ===== src/Config.antt =====
-- src/config.rs: the settings and their validation; and the choice of a validator in src/app.rs.
--
-- `env` is the process environment, as `std::env::var` reads it.
pub mod Tables
pub mod Validated
use blapki.Prelude.{
  ℕ, String, Bool, false, true, not, Option, none, some, ok, err, List, [], ◌∷◌, Bytes, format, any,
  find, is_some, map_err, map_ok, ok_or, trim_end_matches, Result, ◌>>=◌, ◌==◌, ◌&&◌, ◌||◌,
  if◌then◌else◌,
}
use blapki.Error.{AppError, AppResult}
use blapki.Intune.{Client}
use blapki.Challenge.{Validator, static_secret, accept_all, delegated}
use blapki.Http.{ProfileRuntime}

pub record CaConfig : Type 0 where
  pub id : String
  pub key_file : Option String
  pub cert_pem : Option String
  pub cert_pem_env : Option String
  pub key_pem : Option String
  pub key_pem_env : Option String
  pub key_password_env : Option String
  pub crl_lifetime_hours : ℕ

pub data ChallengeMode : Type 0 where
  mode_static mode_intune mode_none : ChallengeMode

pub record ProfileConfig : Type 0 where
  pub name : String
  pub ca : String
  pub challenge : ChallengeMode
  pub static_secret_env : Option String
  pub validity_days : ℕ
  pub key_usage : List String
  pub extended_key_usage : List String

pub record IntuneConfig : Type 0 where
  pub tenant_id : String
  pub client_id : String
  pub client_secret_env : String
  pub login_host : String
  pub resource : String

pub record ServerConfig : Type 0 where
  pub listen : String
  pub database_url : String
  pub base_url : String

pub record Settings : Type 0 where
  pub server : ServerConfig
  pub ca : List CaConfig
  pub profile : List ProfileConfig
  pub intune : Option IntuneConfig

unfoldable pub has_source : CaConfig → Bool
has_source ca =
    let has_cert = is_some ca.cert_pem || is_some ca.cert_pem_env in
    let has_key = is_some ca.key_pem || is_some ca.key_pem_env in
    (has_cert && has_key) || is_some ca.key_file

abbrev pub no_key_material : CaConfig → AppError
no_key_material ca = AppError.config (
    format (
      "ca '" ∷ ca.id ∷ "' has no key material: set key_file, or cert_pem(_env) + key_pem(_env)"
      ∷ []))

-- The loop over the CAs.
unfoldable pub validate_cas : List CaConfig → AppResult (Unit {0})
unfolding has_source
validate_cas [] = ok tt
validate_cas (ca ∷ cas) =
    let rest = validate_cas cas in if not (has_source ca) then err (no_key_material ca) else rest

abbrev is_static : ChallengeMode → Bool
is_static mode_static = true
is_static _ = false

abbrev is_intune : ChallengeMode → Bool
is_intune mode_intune = true
is_intune _ = false

unfoldable pub validate_profile : Settings → ProfileConfig → AppResult (Unit {0})
validate_profile s profile =
    if not (any (λ c. c.id == profile.ca) s.ca)
    then err (
        AppError.config (
          format
            ("profile '" ∷ profile.name ∷ "' references unknown ca '" ∷ profile.ca ∷ "'" ∷ [])))
    else if is_static profile.challenge && not (is_some profile.static_secret_env)
    then err (
        AppError.config (
          format (
            "profile '" ∷ profile.name ∷ "' uses static challenge but has no static_secret_env"
            ∷ [])))
    else if is_intune profile.challenge && not (is_some s.intune)
    then err (
        AppError.config (
          format (
            "profile '" ∷ profile.name ∷ "' uses intune challenge but [intune] is not configured"
            ∷ [])))
    else ok tt

unfoldable pub validate_profiles : Settings → List ProfileConfig → AppResult (Unit {0})
unfolding validate_profile
validate_profiles s [] = ok tt
validate_profiles s (profile ∷ profiles) =
    validate_profile s profile >>= λ _. validate_profiles s profiles

abbrev is_nil : List CaConfig → Bool
is_nil [] = true
is_nil (c ∷ cs) = false

unfoldable pub validate_some : List CaConfig → AppResult (Unit {0})
validate_some cas = if is_nil cas then err (AppError.config "no [[ca]] defined") else ok tt

unfoldable pub validate : Settings → AppResult (Unit {0})
unfolding validate_some validate_cas validate_profiles
validate s = do
  some_ca ← validate_some s.ca
  sources ← validate_cas s.ca
  validate_profiles s s.profile

-- `Settings::load`: `extract` is the library that merges the file at a path with the environment.
unfoldable pub load : (String → Result String Settings) → String → AppResult Settings
load extract path = do
  settings ← map_err AppError.config (extract path)
  valid ← validate settings
  ok settings

-- `Settings::ca`
unfoldable pub ca : Settings → String → Option CaConfig
ca s id = find (λ c. c.id == id) s.ca

-- `Settings::profile`
unfoldable pub profile : Settings → String → Option ProfileConfig
profile s name = find (λ p. p.name == name) s.profile

-- `IntuneClient::new`; its caches start empty.
unfoldable pub new_client : IntuneConfig → String → Client
new_client cfg client_secret = record {
  tenant_id = cfg.tenant_id;
  client_id = cfg.client_id;
  client_secret = client_secret;
  login_host = trim_end_matches b'/' cfg.login_host;
  intune_resource = cfg.resource;
}

module _ (env : String → Option String) where
  unfoldable pub resolve_value : Option String → Option String → String → AppResult (Option String)
  resolve_value (some v) env_name field = ok (some v)
  resolve_value none (some name) field = map_ok some (
      ok_or (AppError.config (format (field ∷ " env var '" ∷ name ∷ "' is not set" ∷ [])))
        (env name))
  resolve_value none none field = ok none

  -- Both or neither.
  unfoldable pub both_inline :
      CaConfig → Option String → Option String → AppResult (Option (String × String))
  both_inline ca (some cert) (some key) = ok (some (cert, key))
  both_inline ca none none = ok none
  both_inline ca _ _ = err (
      AppError.config
        (format ("ca '" ∷ ca.id ∷ "': provide both cert and key inline, or neither" ∷ [])))

  unfoldable pub inline_material : CaConfig → AppResult (Option (String × String))
  unfolding resolve_value both_inline
  inline_material ca = do
    cert ← resolve_value ca.cert_pem ca.cert_pem_env "cert_pem"
    key ← resolve_value ca.key_pem ca.key_pem_env "key_pem"
    both_inline ca cert key

  -- `build_validator`
  unfoldable pub build_static : ProfileConfig → Option String → AppResult Validator
  build_static profile none =
      err
        (AppError.config (format ("profile '" ∷ profile.name ∷ "' missing static_secret_env" ∷ [])))
  build_static profile (some name) = map_ok static_secret (
      ok_or
        (AppError.config (format ("static challenge secret env '" ∷ name ∷ "' is not set" ∷ [])))
        (env name))

  unfoldable pub build_validator : ProfileConfig → Option Client → AppResult Validator
  unfolding build_static
  build_validator profile intune = elim profile.challenge [
    | mode_static ↦ build_static profile profile.static_secret_env
    | mode_intune ↦
        map_ok delegated
          (ok_or (AppError.config "intune profile but [intune] not configured") intune)
    | mode_none ↦ ok accept_all
  ]

  -- The client of `build_state`, if Intune is configured.
  unfoldable pub build_client : Option IntuneConfig → AppResult (Option Client)
  build_client none = ok none
  build_client (some cfg) = do
    secret ←
        ok_or
          (AppError.config
            (format ("intune client secret env '" ∷ cfg.client_secret_env ∷ "' is not set" ∷ [])))
          (env cfg.client_secret_env)
    ok (some (new_client cfg secret))

  -- The runtime of one profile, in `build_state`.
  unfoldable pub build_profile : Option Client → ProfileConfig → AppResult ProfileRuntime
  unfolding build_validator
  build_profile intune p = do
    validator ← build_validator p intune
    ok (record {
      name = p.name;
      ca_id = p.ca;
      validator = validator;
      validity_days = p.validity_days;
      key_usage = p.key_usage;
      extended_key_usage = p.extended_key_usage;
    })
