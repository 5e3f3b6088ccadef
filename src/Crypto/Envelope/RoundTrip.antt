-- ===== src/Crypto/Envelope/RoundTrip.antt =====
-- What `build_for` of src/crypto/envelope.rs seals for a device, `parse` and `open` recover.
use blapki.Prelude.{
  ◌≡◌, sym, subst, true, ok, some, [], ◌∷◌, Bytes, arith, length, ◌≤◌, map_err-eq-ok,
  map_err-bind-eq-ok, >>=-eq-ok,
}
use blapki.Crates.{
  Certificate, issuer_and_serial_number, ktri, EnvelopedData, Asn1, Cipher, Primitives,
}
use blapki.Crates.Laws.{Asn1Laws}
use blapki.Scep.Attributes.{der_err}
use blapki.Crypto.{id_data, id_aes_256_cbc, id_rsa_encryption, id_enveloped_data, null_der}
use blapki.Crypto.Envelope.{
  parse, open_envelope, unwrap_cek, decrypt_symmetric, select_recipient, content_key_len, read_iv,
}
use blapki.Crypto.Envelope.Outbound.{
  Recipient, OutKeyTransRecipientInfo, OutCodec, Draws, encrypt_content, key_transport,
  enveloped_data, build_for,
}

-- The envelope that a decoder reads from what the reply's encoders wrote.
abbrev pub decoded : OutKeyTransRecipientInfo → Bytes → Bytes → EnvelopedData
decoded k iv content = record {
  recip_infos =
      ktri (record {
        rid = issuer_and_serial_number k.rid.issuer k.rid.serial_number;
        enc_key = k.enc_key;
      })
      ∷ [];
  content_enc_alg = record { oid = id_aes_256_cbc; parameters = some iv };
  encrypted_content = some content;
}

parse-eq-ok :
    (a : Asn1) (der b : Bytes) (env : EnvelopedData)
    → a.decode_content_info der ≡ ok (record { content_type = id_enveloped_data; content = b })
    → a.decode_enveloped_data b ≡ ok env
    → parse a der ≡ ok env
unfolding parse
parse-eq-ok a der b env h k = rw (h, parse) (rw k)

-- The serial numbers that the strict decoders of `cms` accept, by the cap of RFC 5280; the encoder
-- of the reply writes longer ones too.
abbrev pub IsShortSerial : Bytes → Type 0
IsShortSerial serial = length serial ≤ 20

-- The derived encoders are inverted by the decoders of `cms`, for a recipient with a short serial
-- number.
pub record CodecLaws (a : Asn1) (c : OutCodec) : Type 0 where
  pub decode-encode_enveloped :
      (k : OutKeyTransRecipientInfo) (info iv content b : Bytes)
      → IsShortSerial k.rid.serial_number
      → c.encode_ktri k ≡ ok info
      → c.encode_enveloped (record {
        version = 0;
        recip_infos = info ∷ [];
        encrypted_content = record {
          content_type = id_data;
          content_enc_alg = record { oid = id_aes_256_cbc; parameters = some iv };
          encrypted_content = some content;
        };
      })
        ≡ ok b
      → a.decode_enveloped_data b ≡ ok (decoded k iv content)
  pub decode-octet_string_any :
      (o b : Bytes) → c.octet_string_any o ≡ ok b → a.decode_octets b ≡ ok o

-- RSA and the block cipher invert their encryption.
pub record IsKeyPair (p : Primitives) (public_key private_key : Bytes) : Type 0 where
  pub decrypt-encrypt :
      (padding m ct : Bytes)
      → p.rsa_encrypt padding public_key m ≡ ok ct
      → p.rsa_decrypt private_key ct ≡ ok m

abbrev pub CbcInverts : Primitives → Type 0
CbcInverts p =
    (key iv m : Bytes)
    → p.cbc_accepts Cipher.aes256 key iv ≡ true
    → p.cbc_decrypt Cipher.aes256 key iv (p.cbc_encrypt Cipher.aes256 key iv m) ≡ some m

module _ (a : Asn1) (p : Primitives) (c : OutCodec) (laws : Asn1Laws a)
    (codec : CodecLaws a c) where
  abbrev wrapped : Recipient → Bytes → OutKeyTransRecipientInfo
  wrapped r enc_key = record {
    version = 0;
    rid = record { issuer = r.issuer; serial_number = r.serial };
    key_enc_alg = record { oid = id_rsa_encryption; parameters = some null_der };
    enc_key = enc_key;
  }

  key_transport-eq-ok :
      (d : Draws) (r : Recipient) (info : Bytes)
      → key_transport a p c d r ≡ ok info
      → (k : Bytes) × (p.rsa_encrypt d.padding r.public_key d.cek ≡ ok k)
        × (c.encode_ktri (wrapped r k) ≡ ok info)
  unfolding key_transport
  key_transport-eq-ok d r info h =
      let (k, e, h₁) = map_err-bind-eq-ok _ (p.rsa_encrypt d.padding r.public_key d.cek) _ h in
      let (o, f, h₂) = map_err-bind-eq-ok _ (a.new_octets k) _ h₁ in
      let same = laws.new_octets_same k o f in (k, e, map_err-eq-ok der_err _ (rw same at h₂))

  enveloped_data-eq-ok :
      (d : Draws) (r : Recipient) (ct info k b : Bytes)
      → IsShortSerial r.serial
      → c.encode_ktri (wrapped r k) ≡ ok info
      → enveloped_data a p c d ct info ≡ ok b
      → (iv : Bytes) × (a.decode_octets iv ≡ ok d.iv)
        × (a.decode_enveloped_data b ≡ ok (decoded (wrapped r k) iv ct))
  unfolding enveloped_data
  enveloped_data-eq-ok d r ct info k b short made h =
      let (s, e, h₁) = map_err-bind-eq-ok _ (a.set_insert [] info) _ h in
      let (iv, f, h₂) = map_err-bind-eq-ok _ (c.octet_string_any d.iv) _ h₁ in
      let (o, g, h₃) = map_err-bind-eq-ok _ (a.new_octets ct) _ h₂ in
      let same = laws.new_octets_same ct o g in
      let only = laws.set_insert-nil info s e in
      (
        iv,
        codec.decode-octet_string_any d.iv iv f,
        codec.decode-encode_enveloped (wrapped r k) info iv ct b short made
            (map_err-eq-ok der_err _ (rw (same, only) at h₃)),
      )

  encrypt_content-eq-ok :
      (d : Draws) (plaintext ct : Bytes)
      → encrypt_content a p c d plaintext ≡ ok ct
      → (p.cbc_accepts Cipher.aes256 d.cek d.iv ≡ true)
        × (ct ≡ p.cbc_encrypt Cipher.aes256 d.cek d.iv plaintext)
  unfolding encrypt_content
  encrypt_content-eq-ok d plaintext ct h = ground arith

  open_decoded :
      (d : Draws) (r : Recipient) (cert : Certificate) (private_key k iv plaintext : Bytes)
      → IsKeyPair p r.public_key private_key
      → CbcInverts p
      → length d.cek ≡ 32
      → p.cbc_accepts Cipher.aes256 d.cek d.iv ≡ true
      → p.rsa_encrypt d.padding r.public_key d.cek ≡ ok k
      → a.decode_octets iv ≡ ok d.iv
      → open_envelope a p
          (decoded (wrapped r k) iv (p.cbc_encrypt Cipher.aes256 d.cek d.iv plaintext))
          cert
          private_key
        ≡ ok plaintext
  unfolding open_envelope unwrap_cek decrypt_symmetric select_recipient content_key_len read_iv
  open_decoded d r cert private_key k iv plaintext pair inverts len accepts wrap ivd =
      ground
        (arith, pair.decrypt-encrypt d.padding d.cek k wrap, inverts d.cek d.iv plaintext accepts)

  -- Whatever was sealed for a device opens, with the device's private key and any certificate of
  -- its own, to the same plaintext: the reply parses as an envelope, and `open` recovers its content.
  -- The serial number of the device's certificate has at most 20 bytes, as the decoder of envelopes
  -- demands, and the random key has 32.
  pub build_for-open :
      (d : Draws) (r : Recipient) (cert : Certificate) (private_key plaintext der : Bytes)
      → IsKeyPair p r.public_key private_key
      → CbcInverts p
      → length d.cek ≡ 32
      → IsShortSerial r.serial
      → build_for a p c d plaintext r ≡ ok der
      → (env : EnvelopedData) × (parse a der ≡ ok env)
        × (open_envelope a p env cert private_key ≡ ok plaintext)
  unfolding build_for
  build_for-open d r cert private_key plaintext der pair inverts len short h =
      let (ct, e₁, h₁) = >>=-eq-ok (encrypt_content a p c d plaintext) _ h in
      let (info, e₂, h₂) = >>=-eq-ok (key_transport a p c d r) _ h₁ in
      let (b, e₃, h₃) = >>=-eq-ok (enveloped_data a p c d ct info) _ h₂ in
      let (accepts, same) = encrypt_content-eq-ok d plaintext ct e₁ in
      let (k, wrap, made) = key_transport-eq-ok d r info e₂ in
      let (iv, ivd, dec) = enveloped_data-eq-ok d r ct info k b short made e₃ in
      let outer = laws.decode-encode_content_info _ der (map_err-eq-ok der_err _ h₃) in
      (
        decoded (wrapped r k) iv ct,
        parse-eq-ok a der b _ outer dec,
        subst (λ x. open_envelope a p (decoded (wrapped r k) iv x) cert private_key ≡ ok plaintext)
            (sym same)
            (open_decoded d r cert private_key k iv plaintext pair inverts len accepts wrap ivd),
      )
