-- ===== src/Http/Router.antt =====
-- src/http/mod.rs: the router, and with it a request from its path to its response.
--
-- `Axum` has what the web framework does before a handler runs: it finds the registered path that
-- a request matches and the values of its parameters, and it reads the query and the body. What it
-- answers itself, where it finds no handler or cannot read an argument, is its own too.
pub mod Reads
pub mod Asks
pub mod Writes
use blapki.Prelude.{
  ℕ, String, Option, none, some, Result, ok, err, List, [], ◌∷◌, Bytes, map, ◌==◌, find,
}
use blapki.Error.{Response, into_response}
use blapki.Exec.{Exec}
use blapki.Db.{Pool}
use blapki.Http.{AppState, World, Libraries, Moment}
use blapki.Http.Health.{HealthReport, health}
use blapki.Http.Scep.{scep_get, scep_post}
use blapki.Http.Ocsp.{OcspCodec, ocsp_post, ocsp_get, ocsp_get_root}
use blapki.Http.Crl.{CrlCodec, crl}

pub data Method : Type 0 where
  get head post : Method
  other : String → Method

pub record Request : Type 0 where
  pub method : Method
  pub path : String
  pub query : String
  pub body : Bytes

-- The handlers, by the method and the path that they are registered under.
pub data Handler : Type 0 where
  get_health get_scep post_scep get_ocsp_root post_ocsp get_ocsp get_crl : Handler

pub record Route : Type 0 where
  pub path : String
  pub on_get : Handler
  pub on_post : Option Handler

-- `router`
unfoldable pub routes : List Route
routes =
    record { path = "/health"; on_get = get_health; on_post = none }
    ∷ record { path = "/scep/{profile}"; on_get = get_scep; on_post = some post_scep }
    ∷ record { path = "/scep/{profile}/pkiclient.exe"; on_get = get_scep; on_post = some post_scep }
    ∷ record { path = "/ocsp/{ca}"; on_get = get_ocsp_root; on_post = some post_ocsp }
    ∷ record { path = "/ocsp/{ca}/{b64}"; on_get = get_ocsp; on_post = none }
    ∷ record { path = "/crl/{ca}"; on_get = get_crl; on_post = none }
    ∷ []

pub record Axum : Type 0 where
  pub match_path : List String → String → Option (String × List String)
  pub query : String → Result Response (List (String × String))
  pub read_body : Bytes → Result Response Bytes
  -- the answer to a HEAD request, from the one of GET
  pub without_body : Response → Response
  pub not_found : Response
  pub method_not_allowed : Response
  pub bad_path : Response

-- All the crates that a running server calls.
pub record Site : Type 1 where
  pub libraries : Libraries
  pub ocsp : OcspCodec
  pub crl : CrlCodec
  pub axum : Axum
  pub to_json : HealthReport → Bytes
  pub canonical_reason : ℕ → Option String

-- The handler of a method; `get` serves HEAD requests too.
unfoldable pub handler_for : Method → Route → Option Handler
handler_for get route = some route.on_get
handler_for head route = some route.on_get
handler_for post route = route.on_post
handler_for (other name) route = none

abbrev pub Answer : Type 0
Answer = World → Response × World

module _ (axum : Axum) where
  abbrev pub finish : Method → Response → Response
  finish head response = axum.without_body response
  finish _ response = response

  -- The registered path and its parameters.
  unfoldable pub route_of : Request → Option (Route × List String)
  route_of r = elim (axum.match_path (map (λ route. route.path) routes) r.path) [
    | none ↦ none
    | some (path, parameters) ↦ elim (find (λ route. route.path == path) routes) [
      | none ↦ none
      | some route ↦ some (route, parameters)
    ]
  ]

module _ (site : Site) (state : AppState) (m : Moment) (now : ℕ) where
  -- An error of a handler becomes a response.
  abbrev pub answer : Exec World Response → Answer
  answer action w =
      let (r, w') = action w in
      elim r [ ok response ↦ (response, w') | err e ↦ (into_response site.canonical_reason e, w') ]

  abbrev pub on_tables : (Pool → Response × Pool) → Answer
  on_tables action w = let (r, p) = action w.pool in (r, record w { pool = p })

  -- The arguments of a handler; the request is refused where one cannot be read.
  abbrev pub with_argument {ℓ} : {A : Type ℓ} → Result Response A → (A → Answer) → Answer
  with_argument (ok a) handler w = handler a w
  with_argument (err refusal) handler w = (refusal, w)

  abbrev pub with_parameter : List String → (String → Answer) → Answer
  with_parameter (x ∷ []) handler w = handler x w
  with_parameter _ handler w = (site.axum.bad_path, w)

  abbrev pub with_two_parameters : List String → (String → String → Answer) → Answer
  with_two_parameters (x ∷ y ∷ []) handler w = handler x y w
  with_two_parameters _ handler w = (site.axum.bad_path, w)

  unfoldable pub dispatch : Handler → List String → Request → Answer
  dispatch get_health parameters r w = (health site.to_json state, w)
  dispatch get_scep parameters r w =
      with_parameter parameters
        (λ profile.
          with_argument (site.axum.query r.query)
            (λ params. answer (scep_get site.libraries m state profile params)))
        w
  dispatch post_scep parameters r w =
      with_parameter parameters
        (λ profile. with_argument (site.axum.query r.query) (λ params.
          with_argument (site.axum.read_body r.body)
            (λ body. answer (scep_post site.libraries m state profile params body))))
        w
  dispatch get_ocsp_root parameters r w =
      with_parameter parameters (λ ca w'. (ocsp_get_root site.ocsp, w')) w
  dispatch post_ocsp parameters r w =
      with_parameter parameters
        (λ ca.
          with_argument (site.axum.read_body r.body)
            (λ body. on_tables (ocsp_post site.ocsp site.canonical_reason now state ca body)))
        w
  dispatch get_ocsp parameters r w =
      with_two_parameters parameters
        (λ ca b64. on_tables (ocsp_get site.ocsp site.canonical_reason now state ca b64)) w
  dispatch get_crl parameters r w =
      with_parameter parameters (λ ca. on_tables (crl site.crl site.canonical_reason now state ca))
        w

  -- A request that found its route, or not.
  unfoldable pub serve_route : Option (Route × List String) → Request → Answer
  serve_route none r w = (site.axum.not_found, w)
  serve_route (some (route, parameters)) r w = elim (handler_for r.method route) [
    | none ↦ (site.axum.method_not_allowed, w)
    | some handler ↦
        let (response, w') = dispatch handler parameters r w in
        (finish site.axum r.method response, w')
  ]

  unfoldable pub serve : Request → Answer
  unfolding serve_route
  serve r w = serve_route (route_of site.axum r) r w
