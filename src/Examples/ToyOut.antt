-- ===== src/Examples/ToyOut.antt =====
-- The toy's encoders of an outbound envelope, and their laws.
use blapki.Prelude.{
  String, ◌≡◌, refl, ◌&&◌, none, some, Result, ok, err, [], ◌∷◌, Bytes, bytes_eq, bytes_eq_iff,
  arith, if◌then◌else◌,
}
use blapki.Crypto.{id_data, id_aes_256_cbc}
use blapki.Crypto.Envelope.Outbound.{OutKeyTransRecipientInfo, OutEnvelopedData, OutCodec}
use blapki.Crypto.Envelope.RoundTrip.{CodecLaws, IsShortSerial, decoded}
use blapki.Prelude.{Option, Bool, none, false}
use blapki.Examples.Toy.{cek, iv, plaintext, decode_env, toy_asn1}

abbrev pub encode_ktri_toy : OutKeyTransRecipientInfo → Result String Bytes
encode_ktri_toy k =
    if bytes_eq k.rid.issuer (50 ∷ [])
      && bytes_eq k.rid.serial_number (53 ∷ [])
      && bytes_eq k.enc_key cek
    then ok (11 ∷ [])
    else err "not written"

abbrev pub bytes_or_none : Option Bytes → Bytes → Bool
bytes_or_none none b = false
bytes_or_none (some v) b = bytes_eq v b

abbrev pub encode_env_toy : OutEnvelopedData → Result String Bytes
encode_env_toy e =
    if bytes_or_none e.encrypted_content.encrypted_content plaintext
      && bytes_or_none e.encrypted_content.content_enc_alg.parameters iv
    then ok (12 ∷ [])
    else err "not written"

abbrev pub toy_out : OutCodec
toy_out = record {
  encode_ktri = encode_ktri_toy;
  encode_enveloped = encode_env_toy;
  octet_string_any = λ o. ok o;
  new_raw_serial = λ b. ok b;
}

toy_encode_env :
    (k : OutKeyTransRecipientInfo) (info v content b : Bytes)
    → IsShortSerial k.rid.serial_number
    → encode_ktri_toy k ≡ ok info
    → encode_env_toy (record {
      version = 0;
      recip_infos = info ∷ [];
      encrypted_content = record {
        content_type = id_data;
        content_enc_alg = record { oid = id_aes_256_cbc; parameters = some v };
        encrypted_content = some content;
      };
    })
      ≡ ok b
    → decode_env b ≡ ok (decoded k v content)
toy_encode_env k info v content b short h e =
    let ki : k.rid.issuer ≡ 50 ∷ [] = ground (arith, bytes_eq_iff k.rid.issuer (50 ∷ [])) in
    let ks : k.rid.serial_number ≡ 53 ∷ [] =
      ground (arith, bytes_eq_iff k.rid.serial_number (53 ∷ [])) in
    let ke : k.enc_key ≡ cek = (bytes_eq_iff k.enc_key cek).0 (ground arith) in
    let cp : content ≡ plaintext = ground (arith, bytes_eq_iff content plaintext) in
    let vi : v ≡ iv = ground (arith, bytes_eq_iff v iv) in
    let bb : b ≡ 12 ∷ [] = ground arith in rw (ki, ks, ke, cp, vi, bb) refl

pub toy_codec : CodecLaws toy_asn1 toy_out
toy_codec = record {
  decode-encode_enveloped = toy_encode_env;
  decode-octet_string_any = λ o b h. ground arith;
}
