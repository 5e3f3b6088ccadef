-- ===== src/Main/Sound.antt =====
-- What src/main.rs serves, if it comes to serve.
use blapki.Prelude.{
  Result, String, ◌≡◌, sym, ap, refl, ◌⊎◌, inl, inr, true, Option, none, some, ok, err, List, [],
  ◌∷◌, Bytes, Some, is_some, subst, Option-cases, ◌≢◌, arith, eq_iff, ◌==◌, >>=-eq-ok,
  map_err-bind-eq-ok, unwrap_or,
}
use blapki.Prelude
use blapki.Error.{AppError}
use blapki.Exec.{bind-eq-ok, lift}
use blapki.Crates.{Asn1}
use blapki.Challenge.{accept_all}
use blapki.Ca.Authority.{Builder}
use blapki.Ca.Bootstrap.{RootCodec}
use blapki.Ca.Keystore.{KeyCodec}
use blapki.Config.{Settings, load, validate, build_profile}
use blapki.Config.Tables.{
  SettingsTable, read_profile, read_ca, read_intune, read_server, read_each, read_settings,
}
use blapki.Http.{ProfileRuntime, AppState, get}
use blapki.App.{Host, PemCodec, build_state}
use blapki.App.Profiles.{build_state-ca_known, build_state-eq-ok}
use blapki.Main.{Started, main, listen_on, config_path}
use blapki.Main.Origins.{
  AsksNone, read_profile-none, read_each-Some, build_profile-accept_all, build_profiles-origin,
}

module _ (a : Asn1) (k : KeyCodec) (p : PemCodec) (b : Builder) (r : RootCodec b) (random : Bytes)
    (env : String → Option String) where
  listen_on-serving :
      (listen address : String) (s state : AppState) (bound : Result String (Unit {0}))
      → listen_on listen s bound ≡ Started.serving address state
      → s ≡ state
  listen_on-serving listen address s state (ok u) h = ground arith
  listen_on-serving listen address s state (err x) h = absurd (ground arith)

  -- A server that comes up: its settings were read and accepted, and its state was built.
  pub main-serving :
      (missing unknown : String → String) (merge : String → Result String SettingsTable)
      (open_pool bind : String → Result String (Unit {0})) (h g : Host) (address : String)
      (state : AppState)
      → main a k p b r random env missing unknown merge open_pool bind h
        ≡ (ok (Started.serving address state), g)
      → (t : SettingsTable) × (s : Settings) × (merge (config_path env) ≡ ok t)
        × (read_settings missing unknown t ≡ ok s)
        × (validate s ≡ ok tt)
        × (build_state a k p b r random env open_pool s h ≡ (ok state, g))
  unfolding main load
  main-serving missing unknown merge open_pool bind h g address state e =
      let path = config_path env in
      let extract : String → Result String Settings =
        λ path. Prelude.◌>>=◌ (merge path) (read_settings missing unknown) in
      let (s, h₁, e₁, rest) = bind-eq-ok (lift (load extract path)) _ h e in
      let (state', h₂, e₂, last) =
        bind-eq-ok (build_state a k p b r random env open_pool s) _ h₁ rest in
      let loaded : load extract path ≡ ok s = ground arith in
      let (s', e₃, accepted) = map_err-bind-eq-ok AppError.config (extract path) _ loaded in
      let (u, valid, e₄) = >>=-eq-ok (validate s') _ accepted in
      let same : s' ≡ s = ground arith in
      let (t, e₅, read) = >>=-eq-ok (merge path) (read_settings missing unknown) e₃ in
      let served : state' ≡ state =
        listen_on-serving s.server.listen address state' state (bind s.server.listen)
          (ground arith) in
      let from : h₁ ≡ h = sym (ap (λ r. r.1) e₁) in
      let to : h₂ ≡ g = ap (λ r. r.1) last in
      (t, s, e₅, rw (← same) read, rw (← same) valid, rw (← from, ← to, ← served) e₂)

  read_settings-profiles :
      (missing unknown : String → String) (t : SettingsTable) (s : Settings)
      → read_settings missing unknown t ≡ ok s
      → read_each (read_profile missing unknown) (unwrap_or [] t.profile) ≡ ok s.profile
  unfolding read_settings
  read_settings-profiles missing unknown t s h =
      let (ca, e₁, h₁) = >>=-eq-ok (read_each (read_ca missing unknown) (unwrap_or [] t.ca)) _ h in
      let (intune, e₂, h₂) = >>=-eq-ok (read_intune missing unknown t.intune) _ h₁ in
      let (profile, e₃, h₃) =
        >>=-eq-ok (read_each (read_profile missing unknown) (unwrap_or [] t.profile)) _ h₂ in
      let (server, e₄, h₄) = >>=-eq-ok (read_server missing unknown t.server) _ h₃ in ground arith

  -- Whatever settings there are, a server that comes up has a CA for each of its profiles.
  pub main-ca_known :
      (missing unknown : String → String) (merge : String → Result String SettingsTable)
      (open_pool bind : String → Result String (Unit {0})) (h g : Host) (address : String)
      (state : AppState) (name : String) (rt : ProfileRuntime)
      → main a k p b r random env missing unknown merge open_pool bind h
        ≡ (ok (Started.serving address state), g)
      → get name state.profiles ≡ some rt
      → is_some (get rt.ca_id state.cas) ≡ true
  main-ca_known missing unknown merge open_pool bind h g address state name rt e found =
      let (t, s, merged, read, valid, built) =
        main-serving missing unknown merge open_pool bind h g address state e in
      build_state-ca_known a k p b r random env open_pool s h g state name rt valid built found

  -- A server that comes up accepts a request without a check only under a profile whose table in the
  -- settings says so, with the challenge none.
  pub main-accept_all :
      (missing unknown : String → String) (merge : String → Result String SettingsTable)
      (open_pool bind : String → Result String (Unit {0})) (h g : Host) (address : String)
      (state : AppState) (table : SettingsTable) (name : String) (rt : ProfileRuntime)
      → main a k p b r random env missing unknown merge open_pool bind h
        ≡ (ok (Started.serving address state), g)
      → merge (config_path env) ≡ ok table
      → get name state.profiles ≡ some rt
      → rt.validator ≡ accept_all
      → Some (AsksNone name) (unwrap_or [] table.profile)
  unfolding main
  main-accept_all missing unknown merge open_pool bind h g address state table name rt e m found v =
      let (t, s, merged, read, valid, started) =
        main-serving missing unknown merge open_pool bind h g address state e in
      let (f, f₁, loaded, intune, built) =
        build_state-eq-ok a k p b r random env open_pool s h g state started in
      let same : t.profile ≡ table.profile = ground arith in
      elim (build_profiles-origin a k p b r random env intune s.profile [] state.profiles name rt
        built found) [
          | inl e ↦ absurd (ground arith)
          | inr origin ↦ rw (← same) (
              read_each-Some (λ q. (q.name ≡ name) × (build_profile env intune q ≡ ok rt))
                (AsksNone name) (read_profile missing unknown) (unwrap_or [] t.profile) s.profile
                (λ table q read_q (named, made). rw (← named) (
                  read_profile-none missing unknown table q read_q
                    (build_profile-accept_all env intune q rt made v)))
                (read_settings-profiles missing unknown t s read) origin)
        ]
