-- ===== src/Examples/Messages.antt =====
-- Runs of src/scep and src/crypto on the toy crates.
use blapki.Prelude.{
  arith, ◌≡◌, refl, ◌⊎◌, true, false, ok, err, [], ◌∷◌, Bytes, any, length, trim, bytes_eq,
}
use blapki.Error.{AppError}
use blapki.Crypto.{id_sha256}
use blapki.Crates.{EnvelopedData, issuer_and_serial_number}
use blapki.Scep.Attributes.{read_string, read_octets, from_value}
use blapki.Crypto.Envelope
use blapki.Crypto.Envelope.{
  Sealed, ktris, ktri_matches, select_recipient, public_checks, open_envelope, decrypt_symmetric,
  synthetic_cek, content_key_len, read_iv,
}
use blapki.Crypto.Envelope.Outbound.{
  Recipient, build_for, encrypt_content, key_transport, enveloped_data, Draws,
}
use blapki.Crypto.Envelope.Keys.{Unwraps, open_envelope-implicit_rejection}
use blapki.Crypto.Envelope.Recipients.{select_recipient-eq-ok}
use blapki.Crypto.Envelope.RoundTrip.{build_for-open}
use blapki.Crypto.Verify.{parse_and_verify, signed_parts, verify_rsa, digest, claimed_digest}
use blapki.Crypto.Verify.Authentic.{IsAuthentic, parse_and_verify-IsAuthentic}
use blapki.Crypto.Verify.Digests.{id_sha512, parse_and_verify-sha512}
use blapki.Examples.Toy.{
  cek, iv, plaintext, device, ca_cert, toy_asn1, toy_primitives, toy_laws, toy-CipherLaws,
  toy-IsKeyPair, toy_cbc, request_envelope,
}
use blapki.Examples.ToyOut.{toy_out, toy_codec}
use blapki.Examples.Server.{decoders, parts_of, good_message, parsed_good}

parse_and_verify-IsAuthentic_example :
    IsAuthentic toy_asn1 toy_primitives (decoders id_sha256) good_message parsed_good
unfolding parse_and_verify verify_rsa claimed_digest digest read_string read_octets from_value trim
    Envelope.parse bytes_eq
parse_and_verify-IsAuthentic_example =
    parse_and_verify-IsAuthentic toy_asn1 toy_primitives (decoders id_sha256) good_message
      parsed_good refl

parse_and_verify-sha512_example :
    (e : AppError) × (parse_and_verify toy_asn1 toy_primitives (decoders id_sha512) good_message
      ≡ err e)
unfolding signed_parts
parse_and_verify-sha512_example =
    parse_and_verify-sha512 toy_asn1 toy_primitives (decoders id_sha512) good_message
      (parts_of (5 ∷ []) id_sha512) refl refl

abbrev sealed : Sealed
sealed = record {
  key_len = 32;
  ciphertext = 30 ∷ [];
  iv = iv;
  recipient = record { rid = issuer_and_serial_number (50 ∷ []) (54 ∷ []); enc_key = cek };
}

open_envelope-implicit_rejection_example :
    (k : Bytes) × (length k ≡ 32)
    × (open_envelope toy_asn1 toy_primitives request_envelope ca_cert (55 ∷ [])
        ≡ decrypt_symmetric toy_primitives request_envelope.content_enc_alg.oid k sealed.iv
            sealed.ciphertext)
    × (Unwraps toy_primitives (55 ∷ []) cek 32 k
        ⊎ (((j : Bytes) → ¬ Unwraps toy_primitives (55 ∷ []) cek 32 j)
            × (k ≡ synthetic_cek toy_primitives (55 ∷ []) cek 32)))
unfolding public_checks content_key_len read_iv select_recipient bytes_eq
open_envelope-implicit_rejection_example =
    open_envelope-implicit_rejection toy_asn1 toy_primitives request_envelope ca_cert (55 ∷ [])
      sealed toy-CipherLaws refl

select_recipient-eq-ok_example :
    (ktri_matches toy_asn1 sealed.recipient ca_cert ≡ true)
    ⊎ ((any (λ r. ktri_matches toy_asn1 r ca_cert) (ktris request_envelope.recip_infos) ≡ false)
        × (ktris request_envelope.recip_infos ≡ sealed.recipient ∷ []))
unfolding select_recipient bytes_eq
select_recipient-eq-ok_example =
    select_recipient-eq-ok toy_asn1 request_envelope ca_cert sealed.recipient refl

abbrev draws : Draws
draws = record { cek = cek; iv = iv; padding = [] }

abbrev to_device : Recipient
to_device = record { public_key = 52 ∷ []; issuer = 50 ∷ []; serial = 53 ∷ [] }

build_for-open_example :
    (env : EnvelopedData) × (Envelope.parse toy_asn1 (7 ∷ 12 ∷ []) ≡ ok env)
    × (open_envelope toy_asn1 toy_primitives env device (55 ∷ []) ≡ ok plaintext)
unfolding build_for encrypt_content key_transport enveloped_data bytes_eq
build_for-open_example =
    build_for-open toy_asn1 toy_primitives toy_out toy_laws toy_codec draws to_device device
      (55 ∷ []) plaintext (7 ∷ 12 ∷ []) toy-IsKeyPair toy_cbc refl (omega arith) refl
