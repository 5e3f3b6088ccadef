-- ===== src/Http/Replies/Device.antt =====
-- What the device gets from a SUCCESS reply of src/http/scep.rs.
use blapki.Prelude.{List, ◌≡◌, ok, some, Bytes, length, >>=-eq-ok}
use blapki.Crates.{Attribute, Certificate, EnvelopedData}
use blapki.Crates.Laws.{Asn1Laws}
use blapki.Scep.Attributes.{
  PkiStatus, pki_status_value, id_pki_status, id_transaction_id, id_recipient_nonce, read_string,
  read_octets,
}
use blapki.Scep.Nonce.{generate}
use blapki.Scep.Protocol.{success_attrs}
use blapki.Scep.Replies.{success_attrs-read}
use blapki.Crypto.Envelope
use blapki.Crypto.Envelope.{open_envelope}
use blapki.Crypto.Envelope.Outbound.{Recipient, build_for}
use blapki.Crypto.Envelope.RoundTrip.{
  CodecLaws, IsShortSerial, IsKeyPair, CbcInverts, build_for-open,
}
use blapki.Crypto.Verify.{ParsedRequest}
use blapki.Crypto.Sign.{certs_only, build_cert_rep}
use blapki.Ca.Authority.{CertificateAuthority}
use blapki.Http.{Libraries, Moment}
use blapki.Http.Replies.{build_success}

abbrev pub device_of : ParsedRequest → Recipient
device_of parsed = record {
  public_key = parsed.recipient.public_key;
  issuer = parsed.recipient.issuer;
  serial = parsed.recipient.serial;
}

module _ (l : Libraries) (m : Moment) where
  -- A reply that the device can read: it is signed by the CA over an envelope that the device opens
  -- to the certificate message, and over attributes that answer its request.
  pub record Readable (ca : CertificateAuthority) (parsed : ParsedRequest)
      (issued device : Certificate) (device_key der : Bytes) : Type 0 where
    pub certs : Bytes
    pub sealed : Bytes
    pub envelope : EnvelopedData
    pub attrs : List Attribute
    pub has_certificate : certs_only l.cms issued ≡ ok certs
    pub signed : build_cert_rep l.asn1 l.cms ca.private_key ca.cert (some sealed) attrs ≡ ok der
    pub parses : Envelope.parse l.asn1 sealed ≡ ok envelope
    pub opens : open_envelope l.asn1 l.primitives envelope device device_key ≡ ok certs
    pub status : read_string l.asn1 attrs id_pki_status ≡ ok (pki_status_value PkiStatus.success)
    pub transaction : read_string l.asn1 attrs id_transaction_id ≡ ok parsed.transaction_id
    pub nonce : read_octets l.asn1 attrs id_recipient_nonce ≡ ok parsed.sender_nonce

  -- A SUCCESS reply reaches its device: the key of the certificate that signed the request opens the
  -- envelope of the reply to the message with the issued certificate, and the signed attributes say
  -- success, name the transaction and echo the nonce. The serial number of
  -- that certificate has at most 20 bytes, as the decoder of envelopes demands, and the random key 32.
  pub build_success-Readable :
      (laws : Asn1Laws l.asn1) (codec : CodecLaws l.asn1 l.out) (ca : CertificateAuthority)
      (parsed : ParsedRequest) (issued device : Certificate) (device_key der : Bytes)
      → IsKeyPair l.primitives parsed.recipient.public_key device_key
      → CbcInverts l.primitives
      → length m.draws.cek ≡ 32
      → IsShortSerial parsed.recipient.serial
      → build_success l m ca parsed issued ≡ ok der
      → Readable ca parsed issued device device_key der
  unfolding build_success
  build_success-Readable laws codec ca parsed issued device device_key der pair inverts len short
        h =
      let (certs, e₁, h₁) = >>=-eq-ok (certs_only l.cms issued) _ h in
      let (sealed, e₂, h₂) =
        >>=-eq-ok (build_for l.asn1 l.primitives l.out m.draws certs (device_of parsed)) _ h₁ in
      let (attrs, e₃, h₃) =
        >>=-eq-ok
          (success_attrs l.asn1 (generate m.fill_bytes) parsed.transaction_id parsed.sender_nonce) _
          h₂ in
      let (env, parses, opens) =
        build_for-open l.asn1 l.primitives l.out laws codec m.draws (device_of parsed) device
          device_key certs sealed pair inverts len short e₂ in
      let read =
        success_attrs-read l.asn1 laws (generate m.fill_bytes) parsed.transaction_id
          parsed.sender_nonce attrs e₃ in
      record {
        certs = certs;
        sealed = sealed;
        envelope = env;
        attrs = attrs;
        has_certificate = e₁;
        signed = h₃;
        parses = parses;
        opens = opens;
        status = read.1;
        transaction = read.2;
        nonce = read.4;
      }
