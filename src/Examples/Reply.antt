-- ===== src/Examples/Reply.antt =====
-- A run of src/crypto/sign.rs against src/crypto/verify.rs: a SUCCESS reply, and its receiver.
use blapki.Prelude.{
  ◌≡◌, refl, sym, ap, inl, inr, some, ok, List, [], ◌∷◌, ◌++◌, Bytes, arith, all_ok, bytes_eq,
}
use blapki.Crates.{Attribute, ContentInfo}
use blapki.Crypto.{
  id_signed_data, id_data, id_sha256, id_content_type, id_message_digest, rsa_public_key_from_spki,
}
use blapki.Scep.Attributes.{
  MessageType, id_message_type, id_pki_status, id_transaction_id, id_sender_nonce,
  id_recipient_nonce, printable_attribute, octet_attribute, message_type_value, pki_status_value,
}
use blapki.Scep.Protocol.{success_attrs}
use blapki.Crypto.Verify.{Decoders, RelaxedSignedData, RelaxedSignerInfo, parse_and_verify}
use blapki.Crypto.Sign.{
  CmsBuilder, EncapsulatedContentInfo, SignerInfo, add_attributes, build_cert_rep, encapsulate,
}
use blapki.Crypto.Sign.Distinct.{In}
use blapki.Crypto.Sign.Laws.{CollectLaws, Emitted, Origin, from_draft, content_type, message_digest}
use blapki.Crypto.Sign.Drafts.{draft_of}
use blapki.Crypto.Sign.Reply.{signer_info_of}
use blapki.Crypto.Sign.{certs_only}
use blapki.Crates.{EnvelopedData}
use blapki.Crypto.Envelope.{open_envelope}
use blapki.Crypto.Envelope.Outbound.{build_for, encrypt_content, key_transport, enveloped_data}
use blapki.Http.{Libraries}
use blapki.Http.Replies.{build_success}
use blapki.Http.Replies.Received.{build_success-received}
use blapki.Examples.Toy.{device, toy-IsKeyPair, toy_cbc}
use blapki.Examples.ToyOut.{toy_codec}
use blapki.Examples.Server.{libraries, moment, ca, parsed_good}
use blapki.Examples.Toy.{ca_cert, toy_asn1, toy_laws, toy_primitives}

-- A builder that makes one message of every draft.
abbrev pub collector : CmsBuilder
collector = record {
  new_signer_info = λ info. ok info;
  content_type_attribute = λ oid. ok (record { oid = id_content_type; values = [] });
  add_signed_attribute =
      λ info attr. ok (record info { signed_attrs = info.signed_attrs ++ attr ∷ [] });
  add_digest_algorithm = λ sd alg. ok (record sd { digest_algorithms = alg ∷ [] });
  add_certificate = λ sd cert. ok (record sd { certificates = cert ∷ [] });
  add_signer_info = λ sd info. ok (record sd { signer_infos = info ∷ [] });
  build = λ sd. ok (record { content_type = id_signed_data; content = 90 ∷ [] });
  certs_only = λ certs. ok (23 ∷ []);
}

pub collect_laws : CollectLaws collector
collect_laws = record {
  new_signer_info_same = λ i j h. ground arith;
  add_signed_attribute_last = λ i j x h. ground arith;
  content_type_attribute_oid = λ oid x h. ground arith;
  add_digest_algorithm-nil = λ d e alg n h. ground arith;
  add_certificate-nil = λ d e cert n h. ground arith;
  add_signer_info-nil = λ d e info n h. ground arith;
}

-- The envelope of the reply, and its attributes.
abbrev content : Bytes
content = 7 ∷ 12 ∷ []

abbrev attrs : List Attribute
attrs =
    record { oid = id_message_type; values = (3 ∷ []) ∷ [] }
    ∷ record { oid = id_pki_status; values = (0 ∷ []) ∷ [] }
    ∷ record { oid = id_transaction_id; values = (9 ∷ []) ∷ [] }
    ∷ record { oid = id_sender_nonce; values = (71 ∷ []) ∷ [] }
    ∷ record { oid = id_recipient_nonce; values = (70 ∷ []) ∷ [] }
    ∷ []

abbrev sent_attrs : List Attribute
sent_attrs =
    record { oid = id_content_type; values = [] }
    ∷ record { oid = id_message_digest; values = content ∷ [] }
    ∷ attrs

abbrev signed_data : RelaxedSignedData
signed_data = record {
  econtent = some content;
  certificates = some (80 ∷ []);
  signer_infos = 81 ∷ [];
}

abbrev signer : RelaxedSignerInfo
signer = record { digest_alg = id_sha256; signed_attrs = some sent_attrs; signature = 6 ∷ [] }

abbrev readers : Decoders
readers = record {
  decode_signed_data = λ b. ok signed_data;
  open_container = λ b. ok b;
  decode_signer_info = λ b. ok signer;
  decode_relaxed_certificate = λ b. ok ca_cert;
}

abbrev encap : EncapsulatedContentInfo
encap = record { econtent_type = id_data; econtent = some content }

abbrev info : SignerInfo
info = signer_info_of (55 ∷ []) ca_cert encap attrs

Origin-of :
    (x : Attribute) → In x sent_attrs → Origin toy_asn1 toy_primitives attrs (some content) x
Origin-of x (inl h) = content_type (sym (ap (λ a. a.oid) h))
Origin-of x (inr (inl h)) =
    message_digest content content refl (sym (ap (λ a. a.oid) h)) (sym (ap (λ a. a.values) h)) refl
Origin-of x (inr (inr h)) = from_draft h

emitted :
    (ci : ContentInfo)
    → collector.build (draft_of info ca_cert) ≡ ok ci
    → Emitted toy_asn1 toy_primitives readers (52 ∷ []) info ca_cert ci
unfolding bytes_eq
emitted ci h = record {
  sd = signed_data;
  signer = signer;
  attrs = sent_attrs;
  certs = 80 ∷ [];
  cert_reader = 80 ∷ [];
  signer_reader = 81 ∷ [];
  message = 0 ∷ [];
  signature = 6 ∷ [];
  is_signed_data = ground arith;
  has_signed_data = refl;
  has_content = refl;
  opens_signers = refl;
  has_signer = refl;
  has_certs = refl;
  opens_certs = refl;
  has_cert = refl;
  uses_sha256 = refl;
  has_attrs = refl;
  keeps_attrs = λ x h. inr (inr h);
  origin = Origin-of;
  has_digest = (record { oid = id_message_digest; values = content ∷ [] }, inr (inl refl), refl);
  encodes = refl;
  well_formed = refl;
  verifies = refl;
}

abbrev crates : Libraries
crates = record libraries { cms = collector; decoders = readers }

build_success-received_example :
    (env : EnvelopedData) × (parse_and_verify toy_asn1 toy_primitives readers (8 ∷ 90 ∷ [])
      ≡ ok (record {
        message_type = MessageType.cert_rep;
        transaction_id = "txn";
        sender_nonce = 71 ∷ [];
        recipient = record {
          public_key = 52 ∷ [];
          issuer = ca_cert.issuer;
          serial = ca_cert.serial_number;
        };
        enveloped = some env;
      }))
    × (open_envelope toy_asn1 toy_primitives env device (55 ∷ []) ≡ ok (23 ∷ []))
unfolding encapsulate success_attrs printable_attribute octet_attribute message_type_value
    pki_status_value all_ok build_cert_rep add_attributes rsa_public_key_from_spki bytes_eq
    build_success certs_only build_for encrypt_content key_transport enveloped_data
build_success-received_example =
    build_success-received crates moment toy_laws toy_codec collect_laws ca parsed_good device
      device (55 ∷ []) (52 ∷ []) (23 ∷ []) content (8 ∷ 90 ∷ []) attrs encap toy-IsKeyPair toy_cbc
      refl (omega arith) refl refl refl refl refl emitted refl
