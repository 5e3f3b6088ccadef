-- ===== src/Http/Replies/Received.antt =====
-- The way of an issued certificate to its device: the reply of src/http/scep.rs, received with the
-- checks of src/crypto/verify.rs and opened as by src/crypto/envelope.rs.
use blapki.Prelude.{◌≡◌, none, some, ok, List, ◌∷◌, Bytes, length}
use blapki.Crates.{Attribute, Certificate, ContentInfo, EnvelopedData}
use blapki.Crates.Laws.{Asn1Laws}
use blapki.Scep.Attributes.{
  MessageType, PkiStatus, FailInfo, pki_status_value, fail_info_value, id_pki_status, id_fail_info,
  id_recipient_nonce, read_string, read_octets,
}
use blapki.Scep.Replies.Failure.{failure_attrs-read}
use blapki.Crypto.Sign.Refusal.{no_content, build_cert_rep-refused}
use blapki.Scep.Nonce.{generate}
use blapki.Scep.Protocol.{success_attrs, failure_attrs}
use blapki.Crypto.{id_data, rsa_public_key_from_spki}
use blapki.Crypto.Envelope.{open_envelope}
use blapki.Crypto.Envelope.Outbound.{build_for}
use blapki.Crypto.Envelope.RoundTrip.{
  CodecLaws, IsShortSerial, IsKeyPair, CbcInverts, build_for-open,
}
use blapki.Crypto.Verify.{ParsedRequest, parse_and_verify}
use blapki.Crypto.Sign.{EncapsulatedContentInfo, certs_only, encapsulate, build_cert_rep}
use blapki.Crypto.Sign.Laws.{CollectLaws, Emitted}
use blapki.Crypto.Sign.Drafts.{draft_of}
use blapki.Crypto.Sign.Reply.{signer_info_of, build_cert_rep-accepted}
use blapki.Ca.Authority.{CertificateAuthority}
use blapki.Http.{Libraries, Moment}
use blapki.Http.Replies.{build_success, build_failure}
use blapki.Http.Replies.Device.{device_of}

module _ (l : Libraries) (m : Moment) where
  build_success-signed :
      (ca : CertificateAuthority) (parsed : ParsedRequest) (issued : Certificate)
      (certs sealed der : Bytes) (attrs : List Attribute)
      → certs_only l.cms issued ≡ ok certs
      → build_for l.asn1 l.primitives l.out m.draws certs (device_of parsed) ≡ ok sealed
      → success_attrs l.asn1 (generate m.fill_bytes) parsed.transaction_id parsed.sender_nonce
        ≡ ok attrs
      → build_success l m ca parsed issued ≡ ok der
      → build_cert_rep l.asn1 l.cms ca.private_key ca.cert (some sealed) attrs ≡ ok der
  unfolding build_success
  build_success-signed ca parsed issued certs sealed der attrs e₁ e₂ e₃ h = rw (e₁, e₂, e₃) at h

  -- A SUCCESS reply, with a random key of 32 bytes, reaches a device whose certificate has a serial
  -- number of at most 20 bytes: the checks of
  -- `parse_and_verify` accept it under the key of the CA's certificate as a CertRep for the
  -- transaction, with an envelope that the key of the device opens to the message with the issued
  -- certificate. The message that the builder makes of the reply's draft is what its documentation
  -- says.
  pub build_success-received :
      (laws : Asn1Laws l.asn1) (codec : CodecLaws l.asn1 l.out) (collect : CollectLaws l.cms)
      (ca : CertificateAuthority) (parsed : ParsedRequest) (issued device : Certificate)
      (device_key key certs sealed der : Bytes) (attrs : List Attribute)
      (encap : EncapsulatedContentInfo)
      → IsKeyPair l.primitives parsed.recipient.public_key device_key
      → CbcInverts l.primitives
      → length m.draws.cek ≡ 32
      → IsShortSerial parsed.recipient.serial
      → rsa_public_key_from_spki l.primitives ca.cert.public_key ≡ ok key
      → certs_only l.cms issued ≡ ok certs
      → build_for l.asn1 l.primitives l.out m.draws certs (device_of parsed) ≡ ok sealed
      → success_attrs l.asn1 (generate m.fill_bytes) parsed.transaction_id parsed.sender_nonce
        ≡ ok attrs
      → encapsulate l.asn1 l.cms (some sealed) ≡ ok encap
      → ((ci : ContentInfo)
          → l.cms.build (draft_of (signer_info_of ca.private_key ca.cert encap attrs) ca.cert)
            ≡ ok ci
          → Emitted l.asn1 l.primitives l.decoders key
              (signer_info_of ca.private_key ca.cert encap attrs)
              ca.cert
              ci)
      → build_success l m ca parsed issued ≡ ok der
      → (env : EnvelopedData) × (parse_and_verify l.asn1 l.primitives l.decoders der
          ≡ ok (record {
            message_type = MessageType.cert_rep;
            transaction_id = parsed.transaction_id;
            sender_nonce = generate m.fill_bytes;
            recipient = record {
              public_key = key;
              issuer = ca.cert.issuer;
              serial = ca.cert.serial_number;
            };
            enveloped = some env;
          }))
        × (open_envelope l.asn1 l.primitives env device device_key ≡ ok certs)
  build_success-received laws codec collect ca parsed issued device device_key key certs sealed der
        attrs encap pair inverts len short k e₁ e₂ e₃ e₄ emits h =
      let (env, parses, opens) =
        build_for-open l.asn1 l.primitives l.out laws codec m.draws (device_of parsed) device
          device_key certs sealed pair inverts len short e₂ in
      (
        env,
        build_cert_rep-accepted l.asn1 l.primitives l.decoders l.cms laws collect ca.private_key key
            ca.cert sealed (generate m.fill_bytes) parsed.sender_nonce parsed.transaction_id attrs
            encap env der k e₄ emits e₃ parses
            (build_success-signed ca parsed issued certs sealed der attrs e₁ e₂ e₃ h),
        opens,
      )

  -- A FAILURE reply reaches its device: the checks of `parse_and_verify` accept it under the key of
  -- the CA's certificate as a CertRep without an envelope, for the transaction, and its signed
  -- attributes say failure, with the given reason, and echo the nonce of the request. The message
  -- that the builder makes of the reply's draft is what its documentation says.
  pub build_failure-received :
      (laws : Asn1Laws l.asn1) (collect : CollectLaws l.cms) (ca : CertificateAuthority)
      (parsed : ParsedRequest) (fail : FailInfo) (key der : Bytes) (attrs : List Attribute)
      → rsa_public_key_from_spki l.primitives ca.cert.public_key ≡ ok key
      → failure_attrs l.asn1 (generate m.fill_bytes) parsed.transaction_id parsed.sender_nonce fail
        ≡ ok attrs
      → ((ct : Attribute) (ci : ContentInfo)
          → l.cms.content_type_attribute id_data ≡ ok ct
          → l.cms.build
              (draft_of (signer_info_of ca.private_key ca.cert no_content (ct ∷ attrs)) ca.cert)
            ≡ ok ci
          → Emitted l.asn1 l.primitives l.decoders key
              (signer_info_of ca.private_key ca.cert no_content (ct ∷ attrs))
              ca.cert
              ci)
      → build_failure l m ca parsed fail ≡ ok der
      → (parse_and_verify l.asn1 l.primitives l.decoders der
          ≡ ok (record {
            message_type = MessageType.cert_rep;
            transaction_id = parsed.transaction_id;
            sender_nonce = generate m.fill_bytes;
            recipient = record {
              public_key = key;
              issuer = ca.cert.issuer;
              serial = ca.cert.serial_number;
            };
            enveloped = none;
          }))
        × (read_string l.asn1 attrs id_pki_status ≡ ok (pki_status_value PkiStatus.failure))
        × (read_string l.asn1 attrs id_fail_info ≡ ok (fail_info_value fail))
        × (read_octets l.asn1 attrs id_recipient_nonce ≡ ok parsed.sender_nonce)
  unfolding build_failure
  build_failure-received laws collect ca parsed fail key der attrs k made emits h =
      let (mt, st, fi, ti, sn, rn) =
        failure_attrs-read l.asn1 laws (generate m.fill_bytes) parsed.transaction_id
          parsed.sender_nonce fail attrs made in
      (
        build_cert_rep-refused l.asn1 l.primitives l.decoders l.cms laws collect ca.private_key key
            ca.cert (generate m.fill_bytes) parsed.sender_nonce parsed.transaction_id fail attrs der
            k emits made (rw made at h),
        st,
        fi,
        rn,
      )
