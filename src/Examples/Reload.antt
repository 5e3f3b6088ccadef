-- ===== src/Examples/Reload.antt =====
-- A bootstrap of src/app.rs on a toy file system, and the start after it.
use Prim.Native.String
use blapki.Prelude.{
  ◌≡◌, refl, Bool, true, false, ◌&&◌, String, none, some, Result, ok, err, List, [], ◌∷◌, bytes_eq,
  bytes_eq_iff, eqb, arith, as_bytes, if◌then◌else◌, unlines,
}
use blapki.Crates.{Asn1, Certificate, DateTime, Extension}
use blapki.Ca.Serial.{random_serial}
use blapki.Ca.Authority.{CertificateAuthority}
use blapki.Ca.Bootstrap.{RootCodec, generate_self_signed}
use blapki.Ca.Keystore.{KeyCodec}
use blapki.Ca.Keystore.Bundle.{IsPem, begin_line, end_line}
use blapki.Config.{CaConfig, inline_material}
use blapki.App.{Files, PemCodec, load_or_bootstrap_ca}
use blapki.App.Reload.{PemLaws, load_or_bootstrap_ca-again}
use blapki.Examples.Toy.{toy_asn1, date}
use blapki.Examples.Server.{builder}

-- The one certificate that the toy writes and reads, and its key.
abbrev root_cert : Certificate
root_cert = record {
  serial_number = 72 ∷ 1 ∷ [];
  issuer = 51 ∷ [];
  subject = 51 ∷ [];
  not_before = date;
  not_after = date;
  public_key = 55 ∷ [];
  extensions = [];
}

abbrev is_date : DateTime → Bool
is_date t =
    eqb t.year 2026
    && (eqb t.month 1 && (eqb t.day 2 && (eqb t.hour 3 && (eqb t.minutes 4 && eqb t.seconds 5))))

abbrev no_extensions : List Extension → Bool
no_extensions [] = true
no_extensions (e ∷ es) = false

abbrev is_root : Certificate → Bool
is_root c =
    bytes_eq c.serial_number (72 ∷ 1 ∷ [])
    && (bytes_eq c.issuer (51 ∷ [])
        && (bytes_eq c.subject (51 ∷ [])
            && (bytes_eq c.public_key (55 ∷ [])
                && (is_date c.not_before && (is_date c.not_after && no_extensions c.extensions)))))

is_date-eq : (t : DateTime) → is_date t ≡ true → t ≡ date
is_date-eq t h = ground arith

no_extensions-eq : (es : List Extension) → no_extensions es ≡ true → es ≡ []
no_extensions-eq [] h = refl
no_extensions-eq (e ∷ es) h = cc

is_root-eq : (c : Certificate) → is_root c ≡ true → c ≡ root_cert
is_root-eq c h = ground (
  arith,
  bytes_eq_iff c.serial_number (72 ∷ 1 ∷ []),
  bytes_eq_iff c.issuer (51 ∷ []),
  bytes_eq_iff c.subject (51 ∷ []),
  bytes_eq_iff c.public_key (55 ∷ []),
  is_date-eq c.not_before,
  is_date-eq c.not_after,
  no_extensions-eq c.extensions,
)

abbrev asn1 : Asn1
asn1 = record toy_asn1 { decode_certificate = λ b. ok root_cert }

abbrev keys : KeyCodec
keys = record {
  base64_decode = λ b. ok b;
  from_pkcs8_der = λ b. ok (55 ∷ []);
  from_pkcs1_der = λ b. ok b;
  decode_encrypted = λ b. ok b;
  decrypt = λ epki password. ok epki;
}

abbrev pem_text : String → String
pem_text label = unlines (begin_line label ∷ "QUJD" ∷ end_line label ∷ [])

abbrev pem : PemCodec
pem = record {
  cert_to_pem = λ c. if is_root c then ok (pem_text "CERTIFICATE") else err "unknown";
  key_to_pem = λ key. if bytes_eq key (55 ∷ []) then ok (pem_text "PRIVATE KEY") else err "unknown";
}

pem_text-IsPem :
    (label text : String) → text ≡ pem_text label → IsPem keys label (as_bytes "QUJD") text
unfolding as_bytes
pem_text-IsPem label text e = record {
  body = "QUJD" ∷ [];
  layout = e;
  alphabet = ((refl, (refl, (refl, (refl, tt)))), tt);
  decodes = refl;
}

written_if :
    (b : Bool) (x text : String)
    → ◌≡◌ {A = Result String String} (if b then ok x else err "unknown") (ok text)
    → (b ≡ true) × (text ≡ x)
written_if true x text h = (refl, ground arith)
written_if false x text h = cc

pem_laws : PemLaws asn1 keys pem
pem_laws = record {
  cert_pem = λ c text h.
      let (is, e) = written_if (is_root c) (pem_text "CERTIFICATE") text h in
      (as_bytes "QUJD", pem_text-IsPem "CERTIFICATE" text e, rw (is_root-eq c is) refl);
  key_pem = λ key text h.
      let (is, e) = written_if (bytes_eq key (55 ∷ [])) (pem_text "PRIVATE KEY") text h in
      (
        as_bytes "QUJD",
        pem_text-IsPem "PRIVATE KEY" text e,
        rw ((bytes_eq_iff key (55 ∷ [])).0 is) refl,
      );
}

abbrev root : RootCodec builder
root = record {
  new_key = λ bits. ok (55 ∷ []);
  name_from_str = λ s. ok (51 ∷ []);
  public_key_of = λ key. ok key;
  new_root = λ serial validity subject key signer. ok (record {
    issuer = subject;
    serial_number = serial;
    subject = subject;
    public_key = key;
    extensions = [];
  });
}

abbrev ca_config : CaConfig
ca_config = record {
  id = "root";
  key_file = some "ca.pem";
  cert_pem = none;
  cert_pem_env = none;
  key_pem = none;
  key_pem_env = none;
  key_password_env = none;
  crl_lifetime_hours = 24;
}

abbrev empty : Files
empty = record { contents = []; refused = λ path. none }

abbrev written : Files
written = record empty {
  contents =
      ("ca.pem", as_bytes (String.◌++◌ (pem_text "CERTIFICATE") (pem_text "PRIVATE KEY"))) ∷ [];
}

abbrev new_ca : CertificateAuthority
new_ca = record { id = "root"; cert = root_cert; private_key = 55 ∷ [] }

-- Other random bytes at the second start make no other CA.
load_or_bootstrap_ca-again_example :
    load_or_bootstrap_ca asn1 keys pem builder root (9 ∷ 9 ∷ []) (λ name. none) ca_config written
    ≡ (ok new_ca, written)
unfolding load_or_bootstrap_ca inline_material generate_self_signed random_serial bytes_eq
load_or_bootstrap_ca-again_example =
    load_or_bootstrap_ca-again asn1 keys pem pem_laws builder root (200 ∷ 1 ∷ []) (9 ∷ 9 ∷ [])
      (λ name. none) ca_config "ca.pem" empty written new_ca refl refl refl refl
