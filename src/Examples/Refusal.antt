-- ===== src/Examples/Refusal.antt =====
-- A run of src/crypto/sign.rs against src/crypto/verify.rs: a FAILURE reply, and its receiver.
use blapki.Prelude.{
  ◌≡◌, refl, sym, ◌∙◌, inl, inr, none, some, ok, List, [], ◌∷◌, arith, all_ok, bytes_eq,
}
use blapki.Crates.{Attribute, ContentInfo}
use blapki.Crypto.{id_data, id_sha256, id_content_type, rsa_public_key_from_spki}
use blapki.Scep.Attributes.{
  MessageType, PkiStatus, FailInfo, id_message_type, id_pki_status, id_fail_info, id_transaction_id,
  id_sender_nonce, id_recipient_nonce, printable_attribute, octet_attribute, message_type_value,
  pki_status_value, fail_info_value, read_string, read_octets,
}
use blapki.Scep.Protocol.{failure_attrs}
use blapki.Crypto.Verify.{Decoders, RelaxedSignedData, RelaxedSignerInfo, parse_and_verify}
use blapki.Crypto.Sign.{SignerInfo, add_attributes, add_content_type, build_cert_rep}
use blapki.Crypto.Sign.Distinct.{In}
use blapki.Crypto.Sign.Laws.{Emitted, from_draft}
use blapki.Crypto.Sign.Drafts.{draft_of}
use blapki.Crypto.Sign.Reply.{signer_info_of}
use blapki.Crypto.Sign.Refusal.{no_content}
use blapki.Http.{Libraries}
use blapki.Http.Replies.{build_failure}
use blapki.Http.Replies.Received.{build_failure-received}
use blapki.Examples.Toy.{ca_cert, toy_asn1, toy_laws, toy_primitives}
use blapki.Examples.Server.{libraries, moment, ca, parsed_good}
use blapki.Examples.Reply.{collector, collect_laws}

abbrev attrs : List Attribute
attrs =
    record { oid = id_message_type; values = (3 ∷ []) ∷ [] }
    ∷ record { oid = id_pki_status; values = (2 ∷ []) ∷ [] }
    ∷ record { oid = id_fail_info; values = (2 ∷ []) ∷ [] }
    ∷ record { oid = id_transaction_id; values = (9 ∷ []) ∷ [] }
    ∷ record { oid = id_sender_nonce; values = (71 ∷ []) ∷ [] }
    ∷ record { oid = id_recipient_nonce; values = (70 ∷ []) ∷ [] }
    ∷ []

abbrev content_type : Attribute
content_type = record { oid = id_content_type; values = [] }

abbrev signed_data : RelaxedSignedData
signed_data = record { econtent = none; certificates = some (80 ∷ []); signer_infos = 81 ∷ [] }

abbrev signer : RelaxedSignerInfo
signer = record {
  digest_alg = id_sha256;
  signed_attrs = some (content_type ∷ attrs);
  signature = 6 ∷ [];
}

abbrev readers : Decoders
readers = record {
  decode_signed_data = λ b. ok signed_data;
  open_container = λ b. ok b;
  decode_signer_info = λ b. ok signer;
  decode_relaxed_certificate = λ b. ok ca_cert;
}

abbrev info : Attribute → SignerInfo
info ct = signer_info_of (55 ∷ []) ca_cert no_content (ct ∷ attrs)

keep : (ct x : Attribute) → content_type ≡ ct → In x (ct ∷ attrs) → In x (content_type ∷ attrs)
keep ct x e (inl h) = inl (e ∙ h)
keep ct x e (inr h) = inr h

In-draft : (ct x : Attribute) → content_type ≡ ct → In x (content_type ∷ attrs) → In x (ct ∷ attrs)
In-draft ct x e (inl h) = inl (sym e ∙ h)
In-draft ct x e (inr h) = inr h

emitted :
    (ct : Attribute) (ci : ContentInfo)
    → collector.content_type_attribute id_data ≡ ok ct
    → collector.build (draft_of (info ct) ca_cert) ≡ ok ci
    → Emitted toy_asn1 toy_primitives readers (52 ∷ []) (info ct) ca_cert ci
unfolding bytes_eq
emitted ct ci c h =
    let same : content_type ≡ ct = ground arith in
    record {
      sd = signed_data;
      signer = signer;
      attrs = content_type ∷ attrs;
      certs = 80 ∷ [];
      cert_reader = 80 ∷ [];
      signer_reader = 81 ∷ [];
      message = 0 ∷ [];
      signature = 6 ∷ [];
      is_signed_data = ground arith;
      has_signed_data = refl;
      has_content = tt;
      opens_signers = refl;
      has_signer = refl;
      has_certs = refl;
      opens_certs = refl;
      has_cert = refl;
      uses_sha256 = refl;
      has_attrs = refl;
      keeps_attrs = λ x i. keep ct x same i;
      origin = λ x i. from_draft (In-draft ct x same i);
      has_digest = tt;
      encodes = refl;
      well_formed = refl;
      verifies = refl;
    }

abbrev crates : Libraries
crates = record libraries { cms = collector; decoders = readers }

build_failure-received_example :
    (parse_and_verify toy_asn1 toy_primitives readers (8 ∷ 90 ∷ [])
      ≡ ok (record {
        message_type = MessageType.cert_rep;
        transaction_id = "txn";
        sender_nonce = 71 ∷ [];
        recipient = record {
          public_key = 52 ∷ [];
          issuer = ca_cert.issuer;
          serial = ca_cert.serial_number;
        };
        enveloped = none;
      }))
    × (read_string toy_asn1 attrs id_pki_status ≡ ok (pki_status_value PkiStatus.failure))
    × (read_string toy_asn1 attrs id_fail_info ≡ ok (fail_info_value FailInfo.bad_request))
    × (read_octets toy_asn1 attrs id_recipient_nonce ≡ ok (70 ∷ []))
unfolding failure_attrs printable_attribute octet_attribute message_type_value pki_status_value
    fail_info_value all_ok build_cert_rep add_content_type add_attributes rsa_public_key_from_spki
    build_failure
build_failure-received_example =
    build_failure-received crates moment toy_laws collect_laws ca parsed_good FailInfo.bad_request
      (52 ∷ []) (8 ∷ 90 ∷ []) attrs refl refl emitted refl
