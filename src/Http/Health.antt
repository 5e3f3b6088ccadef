-- ===== src/Http/Health.antt =====
-- src/http/health.rs: the health check.
--
-- `to_json` is the JSON encoder. The order of the keys of a `HashMap` is not fixed; here it is that
-- of the association list.
use blapki.Prelude.{String, List, [], ◌∷◌, Bytes}
use blapki.Error.{Response}
use blapki.Http.{AppState, bytes_response}

-- The object that is reported.
pub record HealthReport : Type 0 where
  pub status : String
  pub cas : List String
  pub profiles : List String

-- `HashMap::keys`
abbrev pub keys {ℓ} : {A : Type ℓ} → List (String × A) → List String
keys [] = []
keys ((k, v) ∷ more) = k ∷ keys more

abbrev pub report_of : AppState → HealthReport
report_of state = record { status = "ok"; cas = keys state.cas; profiles = keys state.profiles }

unfoldable pub health : (HealthReport → Bytes) → AppState → Response
health to_json state = bytes_response "application/json" (to_json (report_of state))
