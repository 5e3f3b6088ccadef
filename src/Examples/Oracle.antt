-- ===== src/Examples/Oracle.antt =====
-- A message of src/http/scep.rs whose envelope holds no CSR, with two ways to fail at it.
use blapki.Prelude.{◌≡◌, refl, none, ok, err, arith, trim}
use blapki.Error.{AppError}
use blapki.Crypto.{id_sha256}
use blapki.Scep.Attributes.{read_string, read_octets, from_value}
use blapki.Crypto.Envelope
use blapki.Crypto.Envelope.{
  open_envelope, content_key_len, read_iv, select_recipient, unwrap_cek, decrypt_symmetric,
}
use blapki.Crypto.Verify.{parse_and_verify, verify_rsa, digest, claimed_digest}
use blapki.Ca.Csr
use blapki.Http.{Libraries}
use blapki.Http.Replies.{open_request}
use blapki.Http.Scep.{pki_operation}
use blapki.Http.Scep.Gate.{Opened}
use blapki.Http.Scep.Oracle.{with_opening, Shut, pki_operation-no_oracle}
use blapki.Prelude.{bytes_eq}
use blapki.Examples.Toy.{bad_envelope, cek, toy_asn1, toy_primitives}
use blapki.Examples.Server.{
  libraries, moment, state, profile, ca, world, bad_message, parsed_bad, decoders,
}

-- The key is not unwrapped, and the content not decrypted.
abbrev failing : Libraries
failing = with_opening (λ key ct. err "padding") (λ k m. cek) (λ c key iv ct. none) libraries

-- The toy's crates unwrap and decrypt; what they get is no CSR.
message_is_authentic :
    parse_and_verify toy_asn1 toy_primitives (decoders id_sha256) bad_message ≡ ok parsed_bad
unfolding parse_and_verify verify_rsa claimed_digest digest read_string read_octets from_value trim
    Envelope.parse bytes_eq
message_is_authentic = refl

authentic_if_failing :
    parse_and_verify toy_asn1 failing.primitives (decoders id_sha256) bad_message ≡ ok parsed_bad
unfolding parse_and_verify verify_rsa claimed_digest digest read_string read_octets from_value trim
    Envelope.parse bytes_eq
authentic_if_failing = refl

no_csr :
    open_request libraries ca bad_envelope ≡ err (AppError.bad_request "invalid CSR: not a CertReq")
unfolding open_request open_envelope content_key_len read_iv select_recipient unwrap_cek
    decrypt_symmetric bytes_eq Csr.parse
no_csr = refl

no_content : (e : AppError) × (open_request failing ca bad_envelope ≡ err e)
unfolding open_request open_envelope content_key_len read_iv select_recipient unwrap_cek
    decrypt_symmetric bytes_eq
no_content = (_, refl)

stays_shut :
    (l : Libraries) (e : AppError)
    → parse_and_verify l.asn1 l.primitives l.decoders bad_message ≡ ok parsed_bad
    → open_request l ca bad_envelope ≡ err e
    → Opened l moment (state "hunter2") "wifi" bad_message
    → ⊥
stays_shut l e p q o =
    let is_parsed : parsed_bad ≡ o.parsed = ground arith in
    let is_envelope : bad_envelope ≡ o.enveloped = ground arith in
    let is_profile : profile "hunter2" ≡ o.rt = ground arith in
    let is_ca : ca ≡ o.ca = ground arith in
    let opened : open_request l ca bad_envelope ≡ ok o.csr = rw (is_ca, is_envelope) o.opened in
    absurd (ground arith)

pki_operation-no_oracle_example :
    (pki_operation libraries moment (state "hunter2") "wifi" bad_message world
      ≡ pki_operation failing moment (state "hunter2") "wifi" bad_message world)
    × Shut libraries moment
        (state "hunter2")
        "wifi"
        bad_message
        (pki_operation libraries moment (state "hunter2") "wifi" bad_message world).0
    × ((pki_operation libraries moment (state "hunter2") "wifi" bad_message world).1 ≡ world)
pki_operation-no_oracle_example =
    pki_operation-no_oracle libraries moment (λ key ct. err "padding") (λ k m. cek)
      (λ c key iv ct. none) (state "hunter2") "wifi" bad_message world
      (stays_shut libraries _ message_is_authentic no_csr)
      (stays_shut failing no_content.0 authentic_if_failing no_content.1)
