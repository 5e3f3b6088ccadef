-- ===== src/Examples/Toy.antt =====
-- A toy instance of the crates: small enough to run, and lawful.
use blapki.Prelude.{
  ℕ, String, ◌≡◌, refl, none, some, Result, ok, err, List, [], ◌∷◌, Bytes, eqb, bytes_eq, eq_iff,
  length, arith, ◌==◌, if◌then◌else◌,
}
use blapki.Crates.{
  Certificate, CertReq, DateTime, issuer_and_serial_number, ktri, EnvelopedData, ContentInfo, Asn1,
  Primitives,
}
use blapki.Crates.Laws.{Asn1Laws, CipherLaws}
use blapki.Crypto.{id_signed_data, id_enveloped_data, id_aes_256_cbc, id_rsa_encryption, null_der}
use blapki.Scep.Attributes.{id_challenge_password}
use blapki.Crypto.Envelope.Outbound.{OutKeyTransRecipientInfo}
use blapki.Crypto.Envelope.RoundTrip.{IsKeyPair, CbcInverts, decoded}

-- A content key of 32 bytes.
abbrev pub cek : Bytes
cek =
    1 ∷ 2 ∷ 3 ∷ 4 ∷ 5 ∷ 6 ∷ 7 ∷ 8 ∷ 9 ∷ 10 ∷ 11 ∷ 12 ∷ 13 ∷ 14 ∷ 15 ∷ 16 ∷ 17 ∷ 18 ∷ 19 ∷ 20 ∷ 21
    ∷ 22 ∷ 23 ∷ 24 ∷ 25 ∷ 26 ∷ 27 ∷ 28 ∷ 29 ∷ 30 ∷ 31 ∷ 32 ∷ []

abbrev pub iv : Bytes
iv = 22 ∷ []

abbrev pub plaintext : Bytes
plaintext = 23 ∷ []

abbrev pub date : DateTime
date = record { year = 2026; month = 1; day = 2; hour = 3; minutes = 4; seconds = 5 }

abbrev pub certificate : Bytes → Certificate
certificate serial = record {
  serial_number = serial;
  issuer = 50 ∷ [];
  subject = 51 ∷ [];
  not_before = date;
  not_after = date;
  public_key = 52 ∷ [];
  extensions = [];
}

-- The device's certificate, and the CA's.
abbrev pub device : Certificate
device = certificate (53 ∷ [])

abbrev pub ca_cert : Certificate
ca_cert = certificate (54 ∷ [])

abbrev pub request : CertReq
request = record {
  subject = 60 ∷ [];
  public_key = 61 ∷ [];
  attributes = record { oid = id_challenge_password; values = (62 ∷ []) ∷ [] } ∷ [];
}

-- The texts that the toy writes, by their first byte.
abbrev pub encode_text : String → Result String Bytes
encode_text s =
    if s == "3"
    then ok (3 ∷ [])
    else if s == "0"
    then ok (0 ∷ [])
    else if s == "1"
    then ok (1 ∷ [])
    else if s == "2"
    then ok (2 ∷ [])
    else if s == "txn"
    then ok (9 ∷ [])
    else err "not a text of the toy"

abbrev pub decode_text_byte : ℕ → Result String String
decode_text_byte n =
    if eqb n 3
    then ok "3"
    else if eqb n 0
    then ok "0"
    else if eqb n 1
    then ok "1"
    else if eqb n 2
    then ok "2"
    else if eqb n 9
    then ok "txn"
    else if eqb n 19
    then ok "19"
    else if eqb n 62
    then ok "hunter2"
    else err "not a text of the toy"

abbrev pub decode_text_toy : Bytes → Result String String
decode_text_toy (n ∷ []) = decode_text_byte n
decode_text_toy _ = err "not a text of the toy"

abbrev pub encode_ci : ContentInfo → Result String Bytes
encode_ci ci =
    if ci.content_type == id_enveloped_data
    then ok (7 ∷ ci.content)
    else if ci.content_type == id_signed_data
    then ok (8 ∷ ci.content)
    else err "not written"

abbrev pub decode_ci : Bytes → Result String ContentInfo
decode_ci (n ∷ content) =
    if eqb n 7
    then ok (record { content_type = id_enveloped_data; content = content })
    else if eqb n 8
    then ok (record { content_type = id_signed_data; content = content })
    else err "not a ContentInfo"
decode_ci [] = err "empty"

-- The envelope of a reply, and that of a request.
abbrev pub reply_ktri : OutKeyTransRecipientInfo
reply_ktri = record {
  version = 0;
  rid = record { issuer = 50 ∷ []; serial_number = 53 ∷ [] };
  key_enc_alg = record { oid = id_rsa_encryption; parameters = some null_der };
  enc_key = cek;
}

abbrev pub request_envelope : EnvelopedData
request_envelope = record {
  recip_infos =
      ktri (record { rid = issuer_and_serial_number (50 ∷ []) (54 ∷ []); enc_key = cek }) ∷ [];
  content_enc_alg = record { oid = id_aes_256_cbc; parameters = some iv };
  encrypted_content = some (30 ∷ []);
}

-- An envelope whose content is no CSR.
abbrev pub bad_envelope : EnvelopedData
bad_envelope = record request_envelope { encrypted_content = some (31 ∷ []) }

abbrev pub decode_env_byte : ℕ → Result String EnvelopedData
decode_env_byte n =
    if eqb n 12
    then ok (decoded reply_ktri iv plaintext)
    else if eqb n 5
    then ok request_envelope
    else if eqb n 6
    then ok bad_envelope
    else err "not an EnvelopedData"

abbrev pub decode_env : Bytes → Result String EnvelopedData
decode_env (n ∷ []) = decode_env_byte n
decode_env _ = err "not an EnvelopedData"

abbrev pub decode_req : Bytes → Result String CertReq
decode_req bytes = if bytes_eq bytes (30 ∷ []) then ok request else err "not a CertReq"

abbrev pub one_value : List Bytes → Bytes → Result String (List Bytes)
one_value [] b = ok (b ∷ [])
one_value (c ∷ cs) b = err "the toy's sets have one value"

abbrev pub toy_asn1 : Asn1
toy_asn1 = record {
  decode_printable = decode_text_toy;
  decode_utf8 = decode_text_toy;
  decode_ia5 = decode_text_toy;
  decode_octets = λ b. ok b;
  new_printable = λ s. ok s;
  encode_printable = encode_text;
  new_octets = λ b. ok b;
  encode_octets = λ b. ok b;
  set_insert = one_value;
  decode_content_info = decode_ci;
  encode_content_info = encode_ci;
  decode_enveloped_data = decode_env;
  decode_cert_req = decode_req;
  decode_certificate = λ b. ok device;
  encode_certificate = λ cert. ok (cert.serial_number);
  decode_extensions = λ b. ok [];
  encode_attributes = λ attrs. ok (0 ∷ []);
  subject_key_id = λ cert. none;
  name_to_string = λ b. "CN=toy";
}

toy_encode_text : (s : String) (b : Bytes) → encode_text s ≡ ok b → decode_text_toy b ≡ ok s
toy_encode_text s b h =
    ground (arith, eq_iff s "3", eq_iff s "0", eq_iff s "1", eq_iff s "2", eq_iff s "txn")

pub toy_laws : Asn1Laws toy_asn1
toy_laws = record {
  new_printable_same = λ s t h. ground arith;
  decode-encode_printable = toy_encode_text;
  new_octets_same = λ o p h. ground arith;
  decode-encode_octets = λ o b h. ground arith;
  decode-encode_content_info = λ ci b h.
      ground
        (arith, eq_iff ci.content_type id_enveloped_data, eq_iff ci.content_type id_signed_data);
  set_insert-nil = λ b s h. ground arith;
}

-- The block cipher and RSA leave their text as it is; signatures are one byte.
abbrev pub toy_primitives : Primitives
toy_primitives = record {
  rsa_public_key = λ b. ok b;
  rsa_decrypt = λ key ct. ok ct;
  rsa_encrypt = λ padding key m. ok m;
  new_signature = λ s. ok s;
  verify_sha256 = λ key msg s. bytes_eq s (6 ∷ []);
  verify_sha1 = λ key msg s. bytes_eq s (6 ∷ []);
  private_exponent = λ key. key;
  sha256 = λ b. b;
  sha1 = λ b. b;
  hmac_sha256 = λ k m. cek;
  cbc_accepts = λ cipher key v. eqb (length key) 32;
  cbc_decrypt = λ cipher key v ct. some ct;
  cbc_encrypt = λ cipher key v m. m;
}

pub toy-CipherLaws : CipherLaws toy_primitives
toy-CipherLaws = record { length-hmac_sha256 = λ k m. refl }

pub toy-IsKeyPair : IsKeyPair toy_primitives (52 ∷ []) (55 ∷ [])
toy-IsKeyPair = record { decrypt-encrypt = λ padding m ct h. ground arith }

pub toy_cbc : CbcInverts toy_primitives
toy_cbc key v m h = refl
