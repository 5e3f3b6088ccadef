-- ===== src/Ca/Bootstrap.antt =====
-- src/ca/authority.rs: `generate_self_signed`.
use blapki.Prelude.{String, Result, ok, [], ◌∷◌, ℕ, ◌*◌, Bytes, format, map_err, ◌>>=◌}
use blapki.Error.{AppError, AppResult}
use blapki.Scep.Attributes.{der_err}
use blapki.Ca.Serial.{random_serial}
use blapki.Ca.Authority.{Builder, CertificateAuthority, Validity, bld_err}

-- Key generation, names and the root profile of the builder.
pub record RootCodec (b : Builder) : Type 0 where
  -- `RsaPrivateKey::new`, of a number of bits
  pub new_key : ℕ → Result String Bytes
  pub name_from_str : String → Result String Bytes
  pub public_key_of : Bytes → Result String Bytes
  -- the serial number, the validity, the subject, its public key and the signing key
  pub new_root : Bytes → Validity → Bytes → Bytes → Bytes → Result String b.Template

module _ (b : Builder) (r : RootCodec b) where
  unfoldable pub generate_self_signed : Bytes → String → String → ℕ → AppResult CertificateAuthority
  generate_self_signed random id common_name bits = do
    private_key ←
        map_err (λ e. AppError.crypto (format ("RSA keygen failed: " ∷ e ∷ []))) (r.new_key bits)
    subject ←
        map_err (λ e. AppError.config (format ("invalid CA subject: " ∷ e ∷ [])))
          (r.name_from_str (format ("CN=" ∷ common_name ∷ [])))
    validity ← map_err der_err (b.validity_from_now (3650 * 86400))
    spki ←
        map_err (λ e. AppError.crypto (format ("SPKI encode: " ∷ e ∷ [])))
          (r.public_key_of private_key)
    template ← map_err bld_err (r.new_root (random_serial random) validity subject spki private_key)
    cert ← map_err bld_err (b.build template)
    ok (record { id = id; cert = cert; private_key = private_key })
