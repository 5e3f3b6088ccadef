-- ===== src/App.antt =====
-- src/app.rs: from the settings to the state of the server.
--
-- The file system is `Files`: the contents of each file, and for a path that the system refuses to
-- read or write, the text of its error. Directories are not modelled. The pool of the state is the
-- database of the `Host`.
pub mod Profiles
pub mod Reload
use Prim.Native.String
use blapki.Prelude.{
  ℕ, String, Option, none, some, Result, ok, err, List, [], ◌∷◌, Bytes, format, and_then, is_some,
  map_err, as_bytes, ◌==◌, if◌then◌else◌,
}
use blapki.Prelude
use blapki.Error.{AppError, AppResult}
use blapki.Exec.{Exec, pure, raise, lift, gets, attempt, ◌>>=◌, ◌>>◌, zoom}
use blapki.Db.Schema.{Database, connect}
use blapki.Crates.{Asn1, Certificate}
use blapki.Intune.{Client}
use blapki.Ca.Authority.{Builder, CertificateAuthority, new}
use blapki.Ca.Bootstrap.{RootCodec, generate_self_signed}
use blapki.Ca.Keystore.{KeyCodec, from_material, load_inline, load_file}
use blapki.Config.{Settings, CaConfig, ProfileConfig, inline_material, build_client, build_profile}
use blapki.Http.{ProfileRuntime, AppState, get}

pub record Files : Type 0 where
  pub contents : List (String × Bytes)
  pub refused : String → Option String

-- What a start finds and changes: the files and the database.
pub record Host : Type 0 where
  pub files : Files
  pub database : Database

abbrev pub on_files : {A : Type 0} → Exec Files A → Exec Host A
on_files m = zoom (λ h. h.files) (λ h f. record h { files = f }) m

abbrev pub on_database : {A : Type 0} → Exec Database A → Exec Host A
on_database m = zoom (λ h. h.database) (λ h d. record h { database = d }) m

-- `HashMap::insert`
abbrev pub insert {ℓ} : {A : Type ℓ} → String → A → List (String × A) → List (String × A)
insert key v [] = (key, v) ∷ []
insert key v ((k, u) ∷ more) = if k == key then (key, v) ∷ more else (k, u) ∷ insert key v more

unfoldable pub read_file : Files → String → Result String Bytes
read_file files path = elim (files.refused path) [
  | some e ↦ err e
  | none ↦ Prelude.ok_or "No such file or directory" (get path files.contents)
]

-- `std::fs::write`
unfoldable pub write_file : String → Bytes → Files → Result String (Unit {0}) × Files
write_file path bytes files = elim (files.refused path) [
  | some e ↦ (err e, files)
  | none ↦ (ok tt, record files { contents = insert path bytes files.contents })
]

-- The PEM encoders.
pub record PemCodec : Type 0 where
  pub cert_to_pem : Certificate → Result String String
  pub key_to_pem : Bytes → Result String String

abbrev pub bootstrap_bits : ℕ
bootstrap_bits = 3072

module _ (a : Asn1) (k : KeyCodec) (p : PemCodec) (b : Builder) (r : RootCodec b) (random : Bytes)
    (env : String → Option String) where
  unfoldable pub write_ca_pem : CertificateAuthority → String → Exec Files (Unit {0})
  unfolding write_file
  write_ca_pem ca path = do
    cert_pem ← lift (
        map_err (λ e. AppError.crypto (format ("encode CA cert PEM: " ∷ e ∷ [])))
          (p.cert_to_pem ca.cert))
    key_pem ← lift (
        map_err (λ e. AppError.crypto (format ("encode CA key PEM: " ∷ e ∷ [])))
          (p.key_to_pem ca.private_key))
    λ files.
        let (written, after) = write_file path (as_bytes (String.◌++◌ cert_pem key_pem)) files in
        (
          map_err
              (λ e.
                AppError.config
                  (format ("cannot write bootstrapped CA to " ∷ path ∷ ": " ∷ e ∷ [])))
              written,
          after,
        )

  abbrev pub ca_of : CaConfig → Certificate × Bytes → CertificateAuthority
  ca_of cfg (cert, key) = new cfg.id cert key

  -- The dev bootstrap: a CA is generated and written.
  unfoldable pub bootstrap : CaConfig → String → Exec Files CertificateAuthority
  unfolding write_ca_pem
  bootstrap cfg path = do
    ca ← lift (
        generate_self_signed b r random cfg.id (format ("blapki CA " ∷ cfg.id ∷ [])) bootstrap_bits)
    write_ca_pem ca path
    pure ca

  unfoldable pub load_key_file :
      CaConfig → Option String → Option String → Exec Files CertificateAuthority
  unfolding bootstrap read_file
  load_key_file cfg password none files = (
    err (AppError.config (format ("ca '" ∷ cfg.id ∷ "' has no key material configured" ∷ []))),
    files,
  )
  load_key_file cfg password (some path) files =
      if is_some (get path files.contents)
      then (
        Prelude.map_ok (ca_of cfg)
            (load_file a k (read_file files) (record { path = path; password = password })),
        files,
      )
      else bootstrap cfg path files

  unfoldable pub load_or_bootstrap_ca : CaConfig → Exec Files CertificateAuthority
  unfolding load_key_file
  load_or_bootstrap_ca cfg =
      let password = and_then cfg.key_password_env env in
      lift (inline_material env cfg) >>= λ inline. elim inline [
        | some (cert, key) ↦ lift (
            Prelude.map_ok (ca_of cfg)
              (Prelude.◌>>=◌ (from_material k cert key password) (load_inline a k)))
        | none ↦ load_key_file cfg password cfg.key_file
      ]

  -- The loop over the CAs.
  unfoldable pub load_cas :
      List (String × CertificateAuthority)
      → List CaConfig
      → Exec Files (List (String × CertificateAuthority))
  load_cas cas [] = pure cas
  load_cas cas (cfg ∷ more) = do ca ← load_or_bootstrap_ca cfg; load_cas (insert cfg.id ca cas) more

  unfoldable pub build_profiles :
      Option Client
      → List (String × ProfileRuntime)
      → List ProfileConfig
      → AppResult (List (String × ProfileRuntime))
  build_profiles intune profiles [] = ok profiles
  build_profiles intune profiles (profile ∷ more) =
      Prelude.◌>>=◌ (build_profile env intune profile)
        (λ rt. build_profiles intune (insert profile.name rt profiles) more)

  -- The CAs, the client and the profiles, once the database is connected.
  unfoldable pub assemble : Settings → Exec Files AppState
  assemble settings = do
    cas ← load_cas [] settings.ca
    intune ← lift (build_client env settings.intune)
    profiles ← lift (build_profiles intune [] settings.profile)
    pure (record { cas = cas; profiles = profiles; base_url = settings.server.base_url })

  -- `open_pool` opens the connection of a URL.
  unfoldable pub build_state : (String → Result String (Unit {0})) → Settings → Exec Host AppState
  build_state open_pool settings =
      on_database (connect (open_pool settings.server.database_url)) >> on_files (assemble settings)
