-- ===== src/Http/Router/Writes.antt =====
-- Which requests change anything on a server of src/http.
use blapki.Prelude.{
  ℕ, String, ◌≡◌, refl, ◌⊎◌, inl, inr, Bool-cases, Option-cases, Result-cases, some, ok, List, [],
  ◌∷◌, Bytes, as_bytes, unwrap_or, arith, eq_iff, ◌==◌,
}
use blapki.Http.{AppState, get, World, Moment}
use blapki.Http.Scep.{pki_operation, answer_operation, scep_get, scep_post}
use blapki.Http.Router.{
  Request, Route, Handler, get_health, get_scep, post_scep, get_ocsp_root, post_ocsp, get_ocsp,
  get_crl, Site, handler_for, dispatch, route_of, serve_route, serve,
}
use blapki.Http.Router.Reads.{OnlyReads, ocsp_post-SameTables, ocsp_get-SameTables, crl-SameTables}
use blapki.Http.Router.Asks.{
  Asks, by_get, by_post, under, handler_for-get_scep, handler_for-post_scep, route_of-eq-some,
}

module _ (site : Site) (state : AppState) (m : Moment) (now : ℕ) where
  answer_operation-world :
      (profile : String) (message : Bytes) (w : World)
      → (answer_operation site.libraries m state profile message w).1
        ≡ (pki_operation site.libraries m state profile message w).1
  unfolding answer_operation
  answer_operation-world profile message w = ground arith

  -- A GET for SCEP only reads, or its parameters carry a message.
  scep_get-cases :
      (profile : String) (params : List (String × String)) (w : World)
      → ((scep_get site.libraries m state profile params w).1 ≡ w)
        ⊎ ((text : String) × (message : Bytes) × (unwrap_or "" (get "operation" params)
              ≡ "PKIOperation")
            × (get "message" params ≡ some text)
            × (site.libraries.base64_decode (as_bytes text) ≡ ok message)
            × ((scep_get site.libraries m state profile params w).1
                ≡ (pki_operation site.libraries m state profile message w).1))
  unfolding scep_get
  scep_get-cases profile params w =
      let operation = unwrap_or "" (get "operation" params) in
      elim (Bool-cases (operation == "PKIOperation")) [
        | inr h ↦ inl (ground arith)
        | inl h ↦
            let e : operation ≡ "PKIOperation" = (eq_iff operation "PKIOperation").0 h in
            elim (Option-cases (get "message" params)) [
              | inl none' ↦ inl (rw (e, none', scep_get) refl)
              | inr (text, f) ↦ elim (Result-cases (site.libraries.base64_decode (as_bytes text))) [
                | inr (x, g) ↦ inl (rw (e, f, g, scep_get) refl)
                | inl (message, g) ↦ inr (
                  text,
                  message,
                  e,
                  f,
                  g,
                  rw (e, f, g, scep_get) (answer_operation-world profile message w),
                )
              ]
            ]
      ]

  scep_post-cases :
      (profile : String) (params : List (String × String)) (message : Bytes) (w : World)
      → ((scep_post site.libraries m state profile params message w).1 ≡ w)
        ⊎ ((unwrap_or "PKIOperation" (get "operation" params) ≡ "PKIOperation")
            × ((scep_post site.libraries m state profile params message w).1
                ≡ (pki_operation site.libraries m state profile message w).1))
  unfolding scep_post
  scep_post-cases profile params message w =
      let operation = unwrap_or "PKIOperation" (get "operation" params) in
      elim (Bool-cases (operation == "PKIOperation")) [
        | inr h ↦ inl (ground arith)
        | inl h ↦ inr (
          ground (arith, eq_iff operation "PKIOperation"),
          ground (arith, answer_operation-world profile message w),
        )
      ]

  -- What a request may do: read, or what a PKIOperation does that it asks for.
  abbrev pub Effect : Request → World → World → Type 0
  Effect r before after =
      OnlyReads before after
      ⊎ ((profile : String) × (message : Bytes) × Asks site r profile message
          × (after ≡ (pki_operation site.libraries m state profile message before).1))

  module _ (r : Request) (route : Route) (w : World) where
    get_scep-Effect :
        (parameters : List String)
        → route_of site.axum r ≡ some (route, parameters)
        → handler_for r.method route ≡ some get_scep
        → Effect r w (dispatch site state m now get_scep parameters r w).1
    unfolding dispatch
    get_scep-Effect [] e h = inl ((refl, refl), refl)
    get_scep-Effect (x ∷ y ∷ more) e h = inl ((refl, refl), refl)
    get_scep-Effect (profile ∷ []) e h =
        let scep =
          handler_for-get_scep r.method route (route_of-eq-some site r route (profile ∷ []) e).1 in
        elim (Result-cases (site.axum.query r.query)) [
          | inr (refusal, k) ↦ inl (rw (k, dispatch) ((refl, refl), refl))
          | inl (params, k) ↦ elim (scep_get-cases profile params w) [
            | inl same ↦ inl (rw (k, dispatch) (ground (arith, same)))
            | inr (text, message, a, b, d, ran) ↦ inr (
              profile,
              message,
              by_get params text
                  (under route.path (route_of-eq-some site r route (profile ∷ []) e).0 (scep h).0)
                  (scep h).1 k a b d,
              rw (k, dispatch) (ground (arith, ran)),
            )
          ]
        ]

    post_scep-Effect :
        (parameters : List String)
        → route_of site.axum r ≡ some (route, parameters)
        → handler_for r.method route ≡ some post_scep
        → Effect r w (dispatch site state m now post_scep parameters r w).1
    unfolding dispatch
    post_scep-Effect [] e h = inl ((refl, refl), refl)
    post_scep-Effect (x ∷ y ∷ more) e h = inl ((refl, refl), refl)
    post_scep-Effect (profile ∷ []) e h =
        let scep =
          handler_for-post_scep r.method route (route_of-eq-some site r route (profile ∷ []) e).1 in
        elim (Result-cases (site.axum.query r.query)) [
          | inr (refusal, k) ↦ inl (rw (k, dispatch) ((refl, refl), refl))
          | inl (params, k) ↦ elim (Result-cases (site.axum.read_body r.body)) [
            | inr (refusal, b) ↦ inl (rw (k, b, dispatch) ((refl, refl), refl))
            | inl (body, b) ↦ elim (scep_post-cases profile params body w) [
              | inl same ↦ inl (rw (k, b, dispatch) (ground (arith, same)))
              | inr (a, ran) ↦ inr (
                profile,
                body,
                by_post params
                    (under route.path (route_of-eq-some site r route (profile ∷ []) e).0 (scep h).0)
                    (scep h).1 k a b,
                rw (k, b, dispatch) (ground (arith, ran)),
              )
            ]
          ]
        ]

    dispatch-Effect :
        (handler : Handler) (parameters : List String)
        → route_of site.axum r ≡ some (route, parameters)
        → handler_for r.method route ≡ some handler
        → Effect r w (dispatch site state m now handler parameters r w).1
    unfolding dispatch
    dispatch-Effect get_scep parameters e h = get_scep-Effect parameters e h
    dispatch-Effect post_scep parameters e h = post_scep-Effect parameters e h
    dispatch-Effect get_health parameters e h = inl ((refl, refl), refl)
    dispatch-Effect get_ocsp_root [] e h = inl ((refl, refl), refl)
    dispatch-Effect get_ocsp_root (ca ∷ []) e h = inl ((refl, refl), refl)
    dispatch-Effect get_ocsp_root (x ∷ y ∷ more) e h = inl ((refl, refl), refl)
    dispatch-Effect post_ocsp [] e h = inl ((refl, refl), refl)
    dispatch-Effect post_ocsp (x ∷ y ∷ more) e h = inl ((refl, refl), refl)
    dispatch-Effect post_ocsp (ca ∷ []) e h = elim (Result-cases (site.axum.read_body r.body)) [
      | inr (refusal, b) ↦ inl (rw (b, dispatch) ((refl, refl), refl))
      | inl (body, b) ↦ inl (
          rw (b, dispatch)
            (ocsp_post-SameTables site.ocsp site.canonical_reason now state ca body w.pool, refl))
    ]
    dispatch-Effect get_ocsp [] e h = inl ((refl, refl), refl)
    dispatch-Effect get_ocsp (x ∷ []) e h = inl ((refl, refl), refl)
    dispatch-Effect get_ocsp (ca ∷ b64 ∷ []) e h =
        inl (ocsp_get-SameTables site.ocsp site.canonical_reason now state ca b64 w.pool, refl)
    dispatch-Effect get_ocsp (x ∷ y ∷ z ∷ more) e h = inl ((refl, refl), refl)
    dispatch-Effect get_crl [] e h = inl ((refl, refl), refl)
    dispatch-Effect get_crl (x ∷ y ∷ more) e h = inl ((refl, refl), refl)
    dispatch-Effect get_crl (ca ∷ []) e h =
        inl (crl-SameTables site.crl now state ca w.pool site.canonical_reason, refl)

  -- A request changes the tables or the network only as the PKIOperation does that it asks for: by
  -- a GET or a HEAD under one of the two SCEP paths of a profile, with that operation and a message
  -- in base64, or by a POST there, with that operation or none and the message as its body.
  pub serve-Effect : (r : Request) (w : World) → Effect r w (serve site state m now r w).1
  unfolding serve serve_route
  serve-Effect r w = elim (Option-cases (route_of site.axum r)) [
    | inl h ↦ inl (rw (h, serve_route) ((refl, refl), refl))
    | inr ((route, parameters), h) ↦ elim (Option-cases (handler_for r.method route)) [
      | inl k ↦ inl (rw (h, k, serve_route) ((refl, refl), refl))
      | inr (handler, k) ↦ rw (h, k, serve_route) (dispatch-Effect r route w handler parameters h k)
    ]
  ]
