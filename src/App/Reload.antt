-- ===== src/App/Reload.antt =====
-- A CA that src/app.rs generated is the one that it loads at the next start.
use Prim.Native.String
use blapki.Prelude.{
  Result, ℕ, String, subst, ◌≡◌, refl, true, Option, none, some, Result-cases, Option-cases, inl,
  inr, ok, List, [], ◌∷◌, Bytes, is_some, and_then, map_ok, format, as_bytes, arith, eq_refl,
}
use blapki.Exec.{bind-eq-ok, lift}
use blapki.Crates.{Asn1, Certificate}
use blapki.Ca.Authority.{Builder, CertificateAuthority}
use blapki.Ca.Bootstrap.{RootCodec, generate_self_signed}
use blapki.Ca.Keystore.{
  Block, KeyCodec, as_pem_blocks, parse_certificate, parse_private_key, first_certificate,
  first_key, load_key_block, load_file,
}
use blapki.Ca.Keystore.Bundle.{IsPem, as_pem_blocks-bundle}
use blapki.Config.{CaConfig, inline_material}
use blapki.Http.{get}
use blapki.App.{
  Files, insert, PemCodec, bootstrap_bits, read_file, write_file, write_ca_pem, ca_of, bootstrap,
  load_key_file, load_or_bootstrap_ca,
}
use blapki.App.Profiles.{get-insert}

-- The encoders write PEM whose content decodes to what was encoded.
pub record PemLaws (a : Asn1) (k : KeyCodec) (p : PemCodec) : Type 0 where
  pub cert_pem :
      (cert : Certificate) (text : String)
      → p.cert_to_pem cert ≡ ok text
      → (der : Bytes) × IsPem k "CERTIFICATE" der text × (a.decode_certificate der ≡ ok cert)
  pub key_pem :
      (key : Bytes) (text : String)
      → p.key_to_pem key ≡ ok text
      → (der : Bytes) × IsPem k "PRIVATE KEY" der text × (k.from_pkcs8_der der ≡ ok key)

module _ (a : Asn1) (k : KeyCodec) where
  parse_certificate-blocks :
      (bytes der : Bytes) (others : List Block) (cert : Certificate)
      → as_pem_blocks k bytes ≡ some (("CERTIFICATE", der) ∷ others)
      → a.decode_certificate der ≡ ok cert
      → parse_certificate a k bytes ≡ ok cert
  unfolding parse_certificate first_certificate
  parse_certificate-blocks bytes der others cert h d = rw (h, parse_certificate) (rw d refl)

  parse_private_key-blocks :
      (bytes cert_der der key : Bytes) (password : Option String)
      → as_pem_blocks k bytes ≡ some (("CERTIFICATE", cert_der) ∷ ("PRIVATE KEY", der) ∷ [])
      → k.from_pkcs8_der der ≡ ok key
      → parse_private_key k bytes password ≡ ok key
  unfolding parse_private_key first_key load_key_block
  parse_private_key-blocks bytes cert_der der key password h d =
      rw (h, parse_private_key) (rw d refl)

module _ (a : Asn1) (k : KeyCodec) (p : PemCodec) (laws : PemLaws a k p) where
  -- What was written loads, whatever password is given.
  load_file-bundle :
      (cert : Certificate) (key : Bytes) (cert_text key_text path : String)
      (password : Option String) (read : String → Result String Bytes)
      → p.cert_to_pem cert ≡ ok cert_text
      → p.key_to_pem key ≡ ok key_text
      → read path ≡ ok (as_bytes (String.◌++◌ cert_text key_text))
      → load_file a k read (record { path = path; password = password }) ≡ ok (cert, key)
  unfolding load_file
  load_file-bundle cert key cert_text key_text path password read h₁ h₂ there =
      let bytes = as_bytes (String.◌++◌ cert_text key_text) in
      let (cert_der, cert_is, cert_reads) = laws.cert_pem cert cert_text h₁ in
      let (key_der, key_is, key_reads) = laws.key_pem key key_text h₂ in
      let blocks = as_pem_blocks-bundle k cert_der key_der cert_text key_text cert_is key_is in
      rw
        (
          there,
          parse_certificate-blocks a k bytes cert_der (("PRIVATE KEY", key_der) ∷ []) cert blocks
              cert_reads,
          parse_private_key-blocks a k bytes cert_der key_der key password blocks key_reads,
        )
        refl

  module _ (b : Builder) (r : RootCodec b) (random : Bytes) (env : String → Option String) where
    generate_self_signed-id :
        (id common_name : String) (bits : ℕ) (ca : CertificateAuthority)
        → generate_self_signed b r random id common_name bits ≡ ok ca
        → ca.id ≡ id
    unfolding generate_self_signed
    generate_self_signed-id id common_name bits ca h = ground arith

    -- What a write that succeeded did.
    record Wrote (ca : CertificateAuthority) (path : String) (f g : Files) : Type 0 where
      cert_text : String
      key_text : String
      cert_is : p.cert_to_pem ca.cert ≡ ok cert_text
      key_is : p.key_to_pem ca.private_key ≡ ok key_text
      allowed : f.refused path ≡ none
      after : g ≡ record f {
        contents = insert path (as_bytes (String.◌++◌ cert_text key_text)) f.contents;
      }

    write_ca_pem-Wrote :
        (ca : CertificateAuthority) (path : String) (f g : Files)
        → write_ca_pem a k p b r random env ca path f ≡ (ok tt, g)
        → Wrote ca path f g
    unfolding write_ca_pem write_file
    write_ca_pem-Wrote ca path f g h = elim (Result-cases (p.cert_to_pem ca.cert)) [
      | inr (e, h₁) ↦ absurd (ground arith)
      | inl (cert_text, h₁) ↦ elim (Result-cases (p.key_to_pem ca.private_key)) [
        | inr (e, h₂) ↦ absurd (ground arith)
        | inl (key_text, h₂) ↦ elim (Option-cases (f.refused path)) [
          | inr (e, h₃) ↦ absurd (ground arith)
          | inl h₃ ↦ record {
            cert_text = cert_text;
            key_text = key_text;
            cert_is = h₁;
            key_is = h₂;
            allowed = h₃;
            after = ground arith;
          }
        ]
      ]
    ]

    read_file-Wrote :
        (ca : CertificateAuthority) (path : String) (f g : Files) (w : Wrote ca path f g)
        → (is_some (get path g.contents) ≡ true)
          × (read_file g path ≡ ok (as_bytes (String.◌++◌ w.cert_text w.key_text)))
    unfolding read_file
    read_file-Wrote ca path f g w =
        let bytes = as_bytes (String.◌++◌ w.cert_text w.key_text) in
        rw (w.after, w.allowed, get-insert path path bytes f.contents, eq_refl path) (refl, refl)

    -- The CA of a bootstrap has the configured id and was written.
    bootstrap-Wrote :
        (cfg : CaConfig) (path : String) (f g : Files) (ca : CertificateAuthority)
        → bootstrap a k p b r random env cfg path f ≡ (ok ca, g)
        → (ca.id ≡ cfg.id) × Wrote ca path f g
    unfolding bootstrap
    bootstrap-Wrote cfg path f g ca h =
        let name = format ("blapki CA " ∷ cfg.id ∷ []) in
        let (made, f₁, e₁, h₁) =
          bind-eq-ok (lift (generate_self_signed b r random cfg.id name bootstrap_bits)) _ f h in
        let (done, f₂, e₂, h₂) = bind-eq-ok (write_ca_pem a k p b r random env made path) _ f₁ h₁ in
        let is_made : generate_self_signed b r random cfg.id name bootstrap_bits ≡ ok made =
          ground arith in
        let wrote : Wrote made path f f₂ = write_ca_pem-Wrote made path f f₂ (ground arith) in
        let same : made ≡ ca = ground arith in
        let last : f₂ ≡ g = ground arith in
        (
          rw (← same) (generate_self_signed-id cfg.id name bootstrap_bits made is_made),
          subst (λ u. Wrote ca path f u) last (subst (λ x. Wrote x path f f₂) same wrote),
        )

    load_key_file-bootstrap :
        (cfg : CaConfig) (path : String) (password : Option String) (f g : Files)
        (ca : CertificateAuthority)
        → bootstrap a k p b r random env cfg path f ≡ (ok ca, g)
        → (is_some (get path g.contents) ≡ true)
          × (map_ok
                (ca_of a k p b r random env cfg)
                (load_file a k (read_file g) (record { path = path; password = password }))
              ≡ ok ca)
    load_key_file-bootstrap cfg path password f g ca h =
        let (same, w) = bootstrap-Wrote cfg path f g ca h in
        let (there, reads) = read_file-Wrote ca path f g w in
        let loads =
          load_file-bundle ca.cert ca.private_key w.cert_text w.key_text path password (read_file g)
            w.cert_is w.key_is reads in
        (there, rw (loads, ← same) refl)

  -- A CA whose key file is missing at the first start, and that this start generated and wrote, is
  -- loaded from the file at every later start with the same files: the same certificate, key and id,
  -- whatever the random bytes are, and the files stay as they are.
  pub load_or_bootstrap_ca-again :
      (b : Builder) (r : RootCodec b) (random later : Bytes) (env : String → Option String)
      (cfg : CaConfig) (path : String) (f g : Files) (ca : CertificateAuthority)
      → inline_material env cfg ≡ ok none
      → cfg.key_file ≡ some path
      → get path f.contents ≡ none
      → load_or_bootstrap_ca a k p b r random env cfg f ≡ (ok ca, g)
      → load_or_bootstrap_ca a k p b r later env cfg g ≡ (ok ca, g)
  unfolding load_or_bootstrap_ca load_key_file
  load_or_bootstrap_ca-again b r random later env cfg path f g ca inline file missing h =
      let password = and_then cfg.key_password_env env in
      let first : bootstrap a k p b r random env cfg path f ≡ (ok ca, g) =
        rw (inline, file, missing) at h in
      let (there, loads) = load_key_file-bootstrap b r random env cfg path password f g ca first in
      rw (inline, file, there, loads) refl
