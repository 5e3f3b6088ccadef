-- ===== src/Http/Router/Asks.antt =====
-- Which requests ask for a PKIOperation on a server of src/http.
use blapki.Prelude.{
  String, ◌≡◌, refl, ◌⊎◌, inl, inr, Bool-cases, Option-cases, some, ok, List, [], ◌∷◌, Bytes,
  as_bytes, unwrap_or, arith, eq_iff, ◌==◌, map, find, All, Bool, true, false, Option, none,
}
use blapki.Http.{get}
use blapki.Http.Router.{
  Request, Route, Handler, Method, routes, get_scep, post_scep, Site, handler_for, route_of,
}

-- The two paths of SCEP, as they are registered.
abbrev pub IsScepPath : String → Type 0
IsScepPath path = (path ≡ "/scep/{profile}") ⊎ (path ≡ "/scep/{profile}/pkiclient.exe")

module _ (site : Site) where
  -- The framework matches the path of a request to a path of SCEP, with this profile.
  pub data UnderScep (r : Request) (profile : String) : Type 0 where
    under :
        (path : String)
        → site.axum.match_path (map (λ route. route.path) routes) r.path ≡ some (path, profile ∷ [])
        → IsScepPath path
        → UnderScep r profile

  -- A request asks for a PKIOperation under a profile with this message.
  pub data Asks (r : Request) (profile : String) (message : Bytes) : Type 0 where
    by_get :
        (params : List (String × String)) (text : String)
        → UnderScep r profile
        → (r.method ≡ Method.get) ⊎ (r.method ≡ Method.head)
        → site.axum.query r.query ≡ ok params
        → unwrap_or "" (get "operation" params) ≡ "PKIOperation"
        → get "message" params ≡ some text
        → site.libraries.base64_decode (as_bytes text) ≡ ok message
        → Asks r profile message
    by_post :
        (params : List (String × String))
        → UnderScep r profile
        → r.method ≡ Method.post
        → site.axum.query r.query ≡ ok params
        → unwrap_or "PKIOperation" (get "operation" params) ≡ "PKIOperation"
        → site.axum.read_body r.body ≡ ok message
        → Asks r profile message

abbrev is_scep : Handler → Bool
is_scep get_scep = true
is_scep post_scep = true
is_scep _ = false

abbrev is_scep_on : Option Handler → Bool
is_scep_on none = false
is_scep_on (some handler) = is_scep handler

-- A route has the handlers of SCEP, each for its own method, and then under a path of SCEP; or it
-- has neither.
abbrev pub IsApart : Route → Type 0
IsApart route =
    (IsScepPath route.path × (route.on_get ≡ get_scep) × (route.on_post ≡ some post_scep))
    ⊎ ((is_scep route.on_get ≡ false) × (is_scep_on route.on_post ≡ false))

routes-IsApart : All IsApart routes
unfolding routes
routes-IsApart = (
  inr (refl, refl),
  (
    inl (inl refl, refl, refl),
    (inl (inr refl, refl, refl), (inr (refl, refl), (inr (refl, refl), (inr (refl, refl), tt)))),
  ),
)

find-All {ℓ} :
    {A : Type ℓ} (P : A → Type 0) (p : A → Bool) (xs : List A) (x : A)
    → All P xs
    → find p xs ≡ some x
    → P x × (p x ≡ true)
find-All P p [] x h e = absurd (ground arith)
find-All P p (y ∷ xs) x (h, hs) e = elim (Bool-cases (p y)) [
  | inl yes' ↦ let same : y ≡ x = ground arith in rw (← same) (h, yes')
  | inr no' ↦ find-All P p xs x hs (ground arith)
]

pub handler_for-get_scep :
    (method : Method) (route : Route)
    → IsApart route
    → handler_for method route ≡ some get_scep
    → IsScepPath route.path × ((method ≡ Method.get) ⊎ (method ≡ Method.head))
unfolding handler_for
handler_for-get_scep Method.get route (inl (path, g, o)) h = (path, inl refl)
handler_for-get_scep Method.head route (inl (path, g, o)) h = (path, inr refl)
handler_for-get_scep Method.post route (inl (path, g, o)) h = absurd (ground arith)
handler_for-get_scep (Method.other name) route (inl (path, g, o)) h = absurd (ground arith)
handler_for-get_scep Method.get route (inr (g, o)) h = absurd (ground arith)
handler_for-get_scep Method.head route (inr (g, o)) h = absurd (ground arith)
handler_for-get_scep Method.post route (inr (g, o)) h = absurd (ground arith)
handler_for-get_scep (Method.other name) route (inr (g, o)) h = absurd (ground arith)

pub handler_for-post_scep :
    (method : Method) (route : Route)
    → IsApart route
    → handler_for method route ≡ some post_scep
    → IsScepPath route.path × (method ≡ Method.post)
unfolding handler_for
handler_for-post_scep Method.get route (inl (path, g, o)) h = absurd (ground arith)
handler_for-post_scep Method.head route (inl (path, g, o)) h = absurd (ground arith)
handler_for-post_scep Method.post route (inl (path, g, o)) h = (path, refl)
handler_for-post_scep (Method.other name) route (inl (path, g, o)) h = absurd (ground arith)
handler_for-post_scep Method.get route (inr (g, o)) h = absurd (ground arith)
handler_for-post_scep Method.head route (inr (g, o)) h = absurd (ground arith)
handler_for-post_scep Method.post route (inr (g, o)) h = absurd (ground arith)
handler_for-post_scep (Method.other name) route (inr (g, o)) h = absurd (ground arith)

module _ (site : Site) where
  -- A route that was found: its path is what the framework matched.
  pub route_of-eq-some :
      (r : Request) (route : Route) (parameters : List String)
      → route_of site.axum r ≡ some (route, parameters)
      → (site.axum.match_path (map (λ route. route.path) routes) r.path
          ≡ some (route.path, parameters))
        × IsApart route
  unfolding route_of
  route_of-eq-some r route parameters h =
      elim (Option-cases (site.axum.match_path (map (λ route. route.path) routes) r.path)) [
        | inl e ↦ absurd (ground arith)
        | inr ((path, xs), e) ↦ elim (Option-cases (find (λ route. route.path == path) routes)) [
          | inl k ↦ absurd (ground arith)
          | inr (found, k) ↦
              let (apart, same) =
                find-All IsApart (λ route. route.path == path) routes found routes-IsApart k in
              let is_path : found.path ≡ path = (eq_iff found.path path).0 same in
              let here : found ≡ route = ground arith in
              let with_these : xs ≡ parameters = ground arith in
              (rw (← here, ← with_these, is_path) e, rw (← here) apart)
        ]
      ]
