-- ===== src/App/Profiles.antt =====
-- The state that src/app.rs builds is closed: every profile has its CA.
use blapki.Prelude.{
  Result, String, ◌≡◌, refl, ◌⊎◌, inr, true, Option, some, ok, List, [], ◌∷◌, Bytes, All, any,
  is_some, arith, eq_iff, ◌==◌, if◌then◌else◌, >>=-eq-ok,
}
use blapki.Exec.{bind-eq-ok, lift}
use blapki.Db.Schema.{connect}
use blapki.Crates.{Asn1}
use blapki.Intune.{Client}
use blapki.Ca.Authority.{Builder, CertificateAuthority}
use blapki.Ca.Bootstrap.{RootCodec}
use blapki.Ca.Keystore.{KeyCodec}
use blapki.Config
use blapki.Config.{Settings, CaConfig, ProfileConfig, build_client, build_profile, build_validator}
use blapki.Config.Validated.{ProfileIsOk, validate_iff}
use blapki.Http.{ProfileRuntime, AppState, get}
use blapki.App.{
  Files, insert, PemCodec, load_or_bootstrap_ca, load_cas, build_profiles, assemble, build_state,
  Host, on_database,
}

pub get-insert {ℓ} :
    {A : Type ℓ} (key j : String) (v : A) (m : List (String × A))
    → get j (insert key v m) ≡ (if key == j then some v else get j m)
get-insert key j v [] = refl
get-insert key j v ((i, u) ∷ m) =
    ground (arith, eq_iff key j, eq_iff i key, eq_iff i j, get-insert key j v m)

-- The id of a configured CA.
abbrev IsConfigured : List CaConfig → String → Type 0
IsConfigured cas id = any (λ c. c.id == id) cas ≡ true

abbrev AllConfigured : List CaConfig → List (String × ProfileRuntime) → Type 0
AllConfigured cas [] = Unit
AllConfigured cas ((name, rt) ∷ more) = IsConfigured cas rt.ca_id × AllConfigured cas more

AllConfigured-get :
    (cas : List CaConfig) (name : String) (m : List (String × ProfileRuntime)) (rt : ProfileRuntime)
    → AllConfigured cas m
    → get name m ≡ some rt
    → IsConfigured cas rt.ca_id
AllConfigured-get cas name [] rt h e = cc
AllConfigured-get cas name ((i, u) ∷ m) rt (h, hs) e =
    ground (arith, AllConfigured-get cas name m rt hs)

AllConfigured-insert :
    (cas : List CaConfig) (key : String) (rt : ProfileRuntime) (m : List (String × ProfileRuntime))
    → AllConfigured cas m
    → IsConfigured cas rt.ca_id
    → AllConfigured cas (insert key rt m)
AllConfigured-insert cas key rt [] h c = (c, tt)
AllConfigured-insert cas key rt ((i, u) ∷ m) (h, hs) c =
    ground (arith, AllConfigured-insert cas key rt m hs c)

module _ (a : Asn1) (k : KeyCodec) (p : PemCodec) (b : Builder) (r : RootCodec b) (random : Bytes)
    (env : String → Option String) where
  load_cas-get :
      (id : String) (cfgs : List CaConfig) (cas m : List (String × CertificateAuthority))
      (f g : Files)
      → load_cas a k p b r random env cas cfgs f ≡ (ok m, g)
      → (is_some (get id cas) ≡ true) ⊎ IsConfigured cfgs id
      → is_some (get id m) ≡ true
  unfolding load_cas
  load_cas-get id [] cas m f g h c = ground arith
  load_cas-get id (cfg ∷ cfgs) cas m f g h c =
      let (ca, f', e, h') = bind-eq-ok (load_or_bootstrap_ca a k p b r random env cfg) _ f h in
      load_cas-get id cfgs (insert cfg.id ca cas) m f' g h'
        (ground (arith, get-insert cfg.id id ca cas))

  build_profile-ca_id :
      (intune : Option Client) (profile : ProfileConfig) (rt : ProfileRuntime)
      → build_profile env intune profile ≡ ok rt
      → rt.ca_id ≡ profile.ca
  unfolding build_profile
  build_profile-ca_id intune profile rt h =
      let (v, e, h') = >>=-eq-ok (build_validator env profile intune) _ h in ground arith

  build_profiles-AllConfigured :
      (s : Settings) (intune : Option Client) (ps : List ProfileConfig)
      (m n : List (String × ProfileRuntime))
      → All (ProfileIsOk s) ps
      → AllConfigured s.ca m
      → build_profiles a k p b r random env intune m ps ≡ ok n
      → AllConfigured s.ca n
  unfolding build_profiles
  build_profiles-AllConfigured s intune [] m n h c e = ground arith
  build_profiles-AllConfigured s intune (q ∷ ps) m n ((has, means), hs) c e =
      let (rt, e₁, h₁) = >>=-eq-ok (build_profile env intune q) _ e in
      let same = build_profile-ca_id intune q rt e₁ in
      build_profiles-AllConfigured s intune ps (insert q.name rt m) n hs
        (AllConfigured-insert s.ca q.name rt m c (rw same has)) h₁

  -- What a state that is assembled is made of.
  pub assemble-eq-ok :
      (s : Settings) (f g : Files) (state : AppState)
      → assemble a k p b r random env s f ≡ (ok state, g)
      → (f₁ : Files) × (load_cas a k p b r random env [] s.ca f ≡ (ok state.cas, f₁))
        × (intune : Option Client) × (build_profiles a k p b r random env intune [] s.profile
            ≡ ok state.profiles)
  unfolding assemble
  assemble-eq-ok s f g state h =
      let (cas, f₁, e₁, h₁) = bind-eq-ok (load_cas a k p b r random env [] s.ca) _ f h in
      let (intune, f₂, e₂, h₂) = bind-eq-ok (lift (build_client env s.intune)) _ f₁ h₁ in
      let (profiles, f₃, e₃, h₃) =
        bind-eq-ok (lift (build_profiles a k p b r random env intune [] s.profile)) _ f₂ h₂ in
      (f₁, ground arith, intune, ground arith)

  pub build_state-eq-ok :
      (open_pool : String → Result String (Unit {0})) (s : Settings) (h g : Host) (state : AppState)
      → build_state a k p b r random env open_pool s h ≡ (ok state, g)
      → (f f₁ : Files) × (load_cas a k p b r random env [] s.ca f ≡ (ok state.cas, f₁))
        × (intune : Option Client) × (build_profiles a k p b r random env intune [] s.profile
            ≡ ok state.profiles)
  unfolding build_state
  build_state-eq-ok open_pool s h g state e =
      let (u, h', e₁, h₁) =
        bind-eq-ok (on_database (connect (open_pool s.server.database_url))) _ h e in
      let (f₁, loaded, intune, built) =
        assemble-eq-ok s h'.files (assemble a k p b r random env s h'.files).1 state
          (ground arith) in
      (h'.files, f₁, loaded, intune, built)

  -- From settings that were accepted, the state that is built has a CA for each of its profiles.
  pub build_state-ca_known :
      (open_pool : String → Result String (Unit {0})) (s : Settings) (h g : Host) (state : AppState)
      (name : String) (rt : ProfileRuntime)
      → Config.validate s ≡ ok tt
      → build_state a k p b r random env open_pool s h ≡ (ok state, g)
      → get name state.profiles ≡ some rt
      → is_some (get rt.ca_id state.cas) ≡ true
  build_state-ca_known open_pool s h g state name rt valid e found =
      let (some_ca, (sources, profiles_ok)) = (validate_iff s).0 valid in
      let (f, f₁, loaded, intune, built) = build_state-eq-ok open_pool s h g state e in
      let configured =
        build_profiles-AllConfigured s intune s.profile [] state.profiles profiles_ok tt built in
      load_cas-get rt.ca_id s.ca [] state.cas f f₁ loaded
        (inr (AllConfigured-get s.ca name state.profiles rt configured found))
