-- ===== src/Http.antt =====
-- src/http/mod.rs: the state that the handlers share; src/http: the handlers.
--
-- A handler runs in a `World`: the database behind the pool, and what the one Intune client of the
-- server keeps (its caches, what it sent, the time). `Libraries` are the crates, and
-- `Moment` is what one request draws from the generator and the clock.
pub mod Print
pub mod Replies
pub mod Scep
pub mod Crl
pub mod Ocsp
pub mod Health
pub mod Router
pub mod History
use blapki.Prelude.{
  ℕ, String, Option, none, some, Result, List, [], ◌∷◌, Bytes, format, and_then, trim_end_matches,
  ◌==◌, if◌then◌else◌,
}
use blapki.Error.{Response}
use blapki.Exec.{Exec, zoom}
use blapki.Db.{Pool}
use blapki.Crates.{Asn1, Primitives, Certificate, DateTime}
use blapki.Crypto.Envelope.Outbound.{OutCodec, Draws}
use blapki.Crypto.Verify.{Decoders}
use blapki.Crypto.Sign.{CmsBuilder}
use blapki.Intune.{Backend, Net}
use blapki.Challenge.{Validator}
use blapki.Ca.Extensions.{ExtensionCodec}
use blapki.Ca.Authority.{Builder, CertificateAuthority}

-- Per-profile runtime state assembled from config.
pub record ProfileRuntime : Type 0 where
  pub name : String
  pub ca_id : String
  pub validator : Validator
  pub validity_days : ℕ
  pub key_usage : List String
  pub extended_key_usage : List String

-- Shared application state, without the pool.
pub record AppState : Type 0 where
  pub cas : List (String × CertificateAuthority)
  pub profiles : List (String × ProfileRuntime)
  pub base_url : String

-- `HashMap::get`
abbrev pub get {ℓ} : {A : Type ℓ} → String → List (String × A) → Option A
get key [] = none
get key ((k, v) ∷ more) = if k == key then some v else get key more

unfoldable pub ca_for_profile : AppState → String → Option CertificateAuthority
ca_for_profile state profile = and_then (get profile state.profiles) (λ rt. get rt.ca_id state.cas)

unfoldable pub ocsp_url : AppState → String → String
ocsp_url state ca_id = format (trim_end_matches b'/' state.base_url ∷ "/ocsp/" ∷ ca_id ∷ [])

unfoldable pub crl_url : AppState → String → String
crl_url state ca_id = format (trim_end_matches b'/' state.base_url ∷ "/crl/" ∷ ca_id ∷ [])

pub record World : Type 0 where
  pub pool : Pool
  pub net : Net

abbrev pub on_pool : {A : Type 0} → Exec Pool A → Exec World A
on_pool m = zoom (λ w. w.pool) (λ w p. record w { pool = p }) m

abbrev pub on_net : {A : Type 0} → Exec Net A → Exec World A
on_net m = zoom (λ w. w.net) (λ w n. record w { net = n }) m

pub record Libraries : Type 1 where
  pub asn1 : Asn1
  pub primitives : Primitives
  pub decoders : Decoders
  pub cms : CmsBuilder
  pub out : OutCodec
  pub extensions : ExtensionCodec
  pub builder : Builder
  pub backend : Backend
  pub base64_encode : Bytes → String
  pub base64_decode : Bytes → Result String Bytes
  pub hex_encode : Bytes → String
  pub hex_encode_upper : Bytes → String

pub record Moment : Type 0 where
  pub serial : Bytes
  -- what the generator fills a buffer of a length with
  pub fill_bytes : ℕ → Bytes
  pub draws : Draws
  -- `DateTime::from_system_time(SystemTime::now())`
  pub now : Result String DateTime

abbrev pub bytes_response : String → Bytes → Response
bytes_response content_type body = record { status = 200; content_type = content_type; body = body }
