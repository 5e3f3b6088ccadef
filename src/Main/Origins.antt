-- ===== src/Main/Origins.antt =====
-- Which tables of the settings the profiles of a server of src/main.rs come from.
use blapki.Prelude.{
  Result, String, ◌≡◌, ◌⊎◌, inl, inr, Option, none, some, ok, List, [], ◌∷◌, Bytes, Some, subst,
  Option-cases, ◌≢◌, arith, eq_iff, >>=-eq-ok,
}
use blapki.Crates.{Asn1}
use blapki.Intune.{Client}
use blapki.Challenge.{accept_all}
use blapki.Ca.Authority.{Builder}
use blapki.Ca.Bootstrap.{RootCodec}
use blapki.Ca.Keystore.{KeyCodec}
use blapki.Config.{ProfileConfig, mode_none, build_profile, build_validator, build_static}
use blapki.Config.Validated.{ChallengeMode-cases}
use blapki.Config.Tables.{ProfileTable, read_mode, read_profile, read_each}
use blapki.Http.{ProfileRuntime, get}
use blapki.App.{PemCodec, build_profiles, insert}
use blapki.App.Profiles.{get-insert}

-- The table of a profile asks for no challenge, in so many words.
abbrev pub AsksNone : String → ProfileTable → Type 0
AsksNone name t = (t.name ≡ some name) × (t.challenge ≡ some "none")

module _ (missing unknown : String → String) where
  read_mode-none :
      (o : Option String) → read_mode missing unknown o ≡ ok mode_none → o ≡ some "none"
  unfolding read_mode
  read_mode-none none h = absurd (ground arith)
  read_mode-none (some mode) h =
      ground (arith, eq_iff mode "static", eq_iff mode "intune", eq_iff mode "none")

  pub read_profile-none :
      (t : ProfileTable) (p : ProfileConfig)
      → read_profile missing unknown t ≡ ok p
      → p.challenge ≡ mode_none
      → AsksNone p.name t
  unfolding read_profile
  read_profile-none t p h m =
      let (challenge, e₁, h₁) = >>=-eq-ok (read_mode missing unknown t.challenge) _ h in
      let none_mode : challenge ≡ mode_none = ground arith in
      (ground arith, read_mode-none t.challenge (rw (← none_mode) e₁))

nil_only {ℓ} : {E B : Type ℓ} (ys : List B) → ◌≡◌ {A = Result E (List B)} (ok []) (ok ys) → ys ≡ []
nil_only ys h = ground arith

pub read_each-Some {ℓ} :
    {E A B : Type ℓ} (P : B → Type 0) (Q : A → Type 0) (read : A → Result E B) (xs : List A)
    (ys : List B)
    → ((x : A) (y : B) → read x ≡ ok y → P y → Q x)
    → read_each read xs ≡ ok ys
    → Some P ys
    → Some Q xs
unfolding read_each
read_each-Some P Q read [] ys back h s = absurd (subst (Some P) (nil_only ys h) s)
read_each-Some P Q read (x ∷ xs) ys back h s =
    let (y, e₁, h₁) = >>=-eq-ok (read x) _ h in
    let (zs, e₂, h₂) = >>=-eq-ok (read_each read xs) _ h₁ in
    let here : ys ≡ y ∷ zs = ground arith in
    elim (subst (Some P) here s) [
      | inl holds ↦ inl (back x y e₁ holds)
      | inr later ↦ inr (read_each-Some P Q read xs zs back e₂ later)
    ]

module _ (env : String → Option String) (intune : Option Client) where
  build_static-guards :
      (q : ProfileConfig) (name : Option String) → build_static env q name ≢ ok accept_all
  unfolding build_static
  build_static-guards q none h = absurd (ground arith)
  build_static-guards q (some name) h = elim (Option-cases (env name)) [
    | inl e ↦ absurd (ground arith)
    | inr (s, e) ↦ absurd (ground arith)
  ]

  build_validator-accept_all :
      (q : ProfileConfig) → build_validator env q intune ≡ ok accept_all → q.challenge ≡ mode_none
  unfolding build_validator
  build_validator-accept_all q h = elim (ChallengeMode-cases q.challenge) [
    | inl m ↦ absurd (build_static-guards q q.static_secret_env (ground arith))
    | inr (inl m) ↦ elim (Option-cases intune) [
      | inl e ↦ absurd (ground arith)
      | inr (c, e) ↦ absurd (ground arith)
    ]
    | inr (inr m) ↦ m
  ]

  -- The validator that accepts everything is that of one mode only.
  pub build_profile-accept_all :
      (q : ProfileConfig) (rt : ProfileRuntime)
      → build_profile env intune q ≡ ok rt
      → rt.validator ≡ accept_all
      → q.challenge ≡ mode_none
  unfolding build_profile
  build_profile-accept_all q rt h v =
      let (validator, e₁, h₁) = >>=-eq-ok (build_validator env q intune) _ h in
      let same : validator ≡ accept_all = ground arith in
      build_validator-accept_all q (rw (← same) e₁)

module _ (a : Asn1) (k : KeyCodec) (p : PemCodec) (b : Builder) (r : RootCodec b) (random : Bytes)
    (env : String → Option String) where
  -- A profile that is built comes from its configuration.
  pub build_profiles-origin :
      (intune : Option Client) (ps : List ProfileConfig) (m n : List (String × ProfileRuntime))
      (name : String) (rt : ProfileRuntime)
      → build_profiles a k p b r random env intune m ps ≡ ok n
      → get name n ≡ some rt
      → (get name m ≡ some rt)
        ⊎ Some (λ q. (q.name ≡ name) × (build_profile env intune q ≡ ok rt)) ps
  unfolding build_profiles
  build_profiles-origin intune [] m n name rt h e = inl (ground arith)
  build_profiles-origin intune (q ∷ ps) m n name rt h e =
      let (rt', e₁, h₁) = >>=-eq-ok (build_profile env intune q) _ h in
      elim (build_profiles-origin intune ps (insert q.name rt' m) n name rt h₁ e) [
        | inl g ↦ ground (arith, get-insert q.name name rt' m, eq_iff q.name name)
        | inr s ↦ inr (inr s)
      ]
