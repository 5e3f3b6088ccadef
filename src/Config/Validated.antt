-- ===== src/Config/Validated.antt =====
-- What the validation of src/config.rs guarantees to src/app.rs.
use blapki.Prelude.{
  String, ◌≡◌, ◌≢◌, refl, true, Option, none, some, ok, List, [], ◌∷◌, any, is_some, arith, ◌==◌,
  All, IsOk, Option-cases, inl, inr, ◌↔◌, ◌⊎◌,
}
use blapki.Intune.{Client}
use blapki.Config.{
  Settings, ProfileConfig, CaConfig, ChallengeMode, mode_static, mode_intune, mode_none, has_source,
  validate_cas, validate_profile, validate_profiles, validate, build_static, build_validator,
  build_client, IntuneConfig,
}

abbrev pub HasCa : Settings → ProfileConfig → Type 0
HasCa s p = any (λ c. c.id == p.ca) s.ca ≡ true

-- What a mode needs.
abbrev pub HasMeans : Settings → ProfileConfig → ChallengeMode → Type 0
HasMeans s p mode_static = is_some p.static_secret_env ≡ true
HasMeans s p mode_intune = is_some s.intune ≡ true
HasMeans s p _ = Unit

abbrev pub ProfileIsOk : Settings → ProfileConfig → Type 0
ProfileIsOk s p = HasCa s p × HasMeans s p p.challenge

validate_cas_iff :
    (cas : List CaConfig) → (validate_cas cas ≡ ok tt) ↔ All (λ ca. has_source ca ≡ true) cas
unfolding validate_cas
validate_cas_iff [] = ground arith
validate_cas_iff (ca ∷ cas) = ground (arith, validate_cas_iff cas)

pub ChallengeMode-cases :
    (m : ChallengeMode) → (m ≡ mode_static) ⊎ ((m ≡ mode_intune) ⊎ (m ≡ mode_none))
ChallengeMode-cases mode_static = inl refl
ChallengeMode-cases mode_intune = inr (inl refl)
ChallengeMode-cases mode_none = inr (inr refl)

validate_profile_iff :
    (s : Settings) (p : ProfileConfig) → (validate_profile s p ≡ ok tt) ↔ ProfileIsOk s p
unfolding validate_profile
validate_profile_iff s p = elim (ChallengeMode-cases p.challenge) [
  | inl m ↦ rw m (ground arith)
  | inr (inl m) ↦ rw m (ground arith)
  | inr (inr m) ↦ rw m (ground arith)
]

validate_profiles_iff :
    (s : Settings) (ps : List ProfileConfig)
    → (validate_profiles s ps ≡ ok tt) ↔ All (ProfileIsOk s) ps
unfolding validate_profiles
validate_profiles_iff s [] = ground arith
validate_profiles_iff s (p ∷ ps) =
    ground (arith, validate_profile_iff s p, validate_profiles_iff s ps)

-- Settings are accepted exactly when there is a CA, every CA has a source of key material, and every
-- profile names a configured CA and has what its challenge mode needs.
pub validate_iff :
    (s : Settings)
    → (validate s ≡ ok tt)
      ↔ ((s.ca ≢ []) × (All (λ ca. has_source ca ≡ true) s.ca × All (ProfileIsOk s) s.profile))
unfolding validate
validate_iff s = ground (arith, validate_cas_iff s.ca, validate_profiles_iff s s.profile)

build_client-some :
    (env : String → Option String) (cfg : Option IntuneConfig) (client : Option Client)
    → is_some cfg ≡ true
    → build_client env cfg ≡ ok client
    → is_some client ≡ true
unfolding build_client
build_client-some env none client h k = absurd (ground arith)
build_client-some env (some cfg) client h k = elim (Option-cases (env cfg.client_secret_env)) [
  | inl e ↦ absurd (ground arith)
  | inr (v, e) ↦ ground arith
]

build_static-IsOk :
    (env : String → Option String) (p : ProfileConfig) (name : Option String)
    → is_some name ≡ true
    → ((n : String) → is_some (env n) ≡ true)
    → IsOk (build_static env p name)
unfolding build_static
build_static-IsOk env p none h set = absurd (ground arith)
build_static-IsOk env p (some name) h set = elim (Option-cases (env name)) [
  | inl e ↦ absurd (ground (arith, set name))
  | inr (v, e) ↦ ground arith
]

-- Settings that were accepted leave one reason for the validator of a profile not to be built: an
-- environment variable that is not set. In an environment that sets every variable, each profile
-- gets its validator.
pub build_validator-IsOk :
    (s : Settings) (env : String → Option String) (p : ProfileConfig) (client : Option Client)
    → ProfileIsOk s p
    → ((name : String) → is_some (env name) ≡ true)
    → build_client env s.intune ≡ ok client
    → IsOk (build_validator env p client)
unfolding build_validator
build_validator-IsOk s env p client (_, means) set h = elim (ChallengeMode-cases p.challenge) [
  | inl m ↦ rw m (build_static-IsOk env p p.static_secret_env (rw m at means) set)
  | inr (inl m) ↦
      let present = build_client-some env s.intune client (rw m at means) h in rw m (ground arith)
  | inr (inr m) ↦ rw m tt
]
