-- ===== src/Crypto/Sign/Refusal.antt =====
-- The way of a FAILURE reply: it has no content, so src/crypto/sign.rs adds the type of the content
-- to its attributes, and src/crypto/verify.rs, on the side of a client, accepts it.
use blapki.Prelude.{
  String, false, ◌==◌, ◌≡◌, refl, ap, ◌∙◌, Option, none, some, ok, List, [], ◌∷◌, ◌++◌, Bytes,
  >>=-eq-ok, map_err-bind-eq-ok, map_err-eq-ok,
}
use blapki.Crates.{Attribute, Certificate, ContentInfo, Asn1, Primitives}
use blapki.Crates.Laws.{Asn1Laws}
use blapki.Scep.Attributes.{
  MessageType, FailInfo, message_type_value, find_attr, id_message_type, id_transaction_id,
  id_sender_nonce,
}
use blapki.Scep.Protocol.{failure_attrs}
use blapki.Scep.Replies.Failure.{failure_attrs-read, failure_attrs-oids}
use blapki.Crypto.{id_data, sha256_alg, id_content_type, rsa_public_key_from_spki}
use blapki.Crypto.Verify.{Decoders, read_envelope, parse_and_verify}
use blapki.Crypto.Sign.{
  SignerInfo, CmsBuilder, EncapsulatedContentInfo, builder_err, add_attributes, add_content_type,
  build_signed_data, build_cert_rep,
}
use blapki.Crypto.Sign.Laws.{CollectLaws, Emitted, IsValue}
use blapki.Crypto.Sign.Drafts.{draft_of, add_attributes-eq-ok, build_signed_data-eq-ok}
use blapki.Crypto.Sign.Received.{read_string-same, read_octets-same, parse_and_verify-Emitted}
use blapki.Crypto.Sign.Reply.{signer_info_of}

abbrev pub no_content : EncapsulatedContentInfo
no_content = record { econtent_type = id_data; econtent = none }

-- An attribute before the others is passed over.
find_attr-behind :
    (x : Attribute) (xs : List Attribute) (oid : String)
    → (x.oid == oid) ≡ false
    → find_attr (x ∷ xs) oid ≡ find_attr xs oid
unfolding find_attr
find_attr-behind x xs oid h = rw h refl

module _ (a : Asn1) (b : CmsBuilder) (collect : CollectLaws b) where
  add_content_type-eq-ok :
      (i j : SignerInfo)
      → add_content_type b none i ≡ ok j
      → (ct : Attribute) × (b.content_type_attribute id_data ≡ ok ct)
        × (j ≡ record i { signed_attrs = i.signed_attrs ++ ct ∷ [] })
  unfolding add_content_type
  add_content_type-eq-ok i j h =
      let (ct, e₁, h₁) = map_err-bind-eq-ok builder_err (b.content_type_attribute id_data) _ h in
      (ct, e₁, collect.add_signed_attribute_last i j ct (map_err-eq-ok builder_err _ h₁))

  build_cert_rep-refusal :
      (signer : Bytes) (cert : Certificate) (attrs : List Attribute) (der : Bytes)
      → build_cert_rep a b signer cert none attrs ≡ ok der
      → (ct : Attribute) × (ci : ContentInfo) × (b.content_type_attribute id_data ≡ ok ct)
        × (b.build (draft_of (signer_info_of signer cert no_content (ct ∷ attrs)) cert) ≡ ok ci)
        × (a.encode_content_info ci ≡ ok der)
  unfolding build_cert_rep
  build_cert_rep-refusal signer cert attrs der h =
      let start = signer_info_of signer cert no_content [] in
      let (fresh, e₁, h₁) = map_err-bind-eq-ok builder_err (b.new_signer_info start) _ h in
      let (typed, e₂, h₂) = >>=-eq-ok (add_content_type b none fresh) _ h₁ in
      let (info, e₃, h₃) = >>=-eq-ok (add_attributes b attrs typed) _ h₂ in
      let (ct, made, is_typed) = add_content_type-eq-ok fresh typed e₂ in
      let is_fresh = collect.new_signer_info_same start fresh e₁ in
      let is_info : info ≡ signer_info_of signer cert no_content (ct ∷ attrs) =
        add_attributes-eq-ok b collect attrs typed info e₃
        ∙ ap {A = SignerInfo} (λ i. record i { signed_attrs = i.signed_attrs ++ attrs }) is_typed
        ∙ ap {A = SignerInfo}
            (λ i. record i { signed_attrs = (i.signed_attrs ++ ct ∷ []) ++ attrs }) is_fresh in
      let chain : build_signed_data a b no_content sha256_alg cert info ≡ ok der = h₃ in
      let (ci, e₄, h₄) =
        build_signed_data-eq-ok b collect a (signer_info_of signer cert no_content (ct ∷ attrs))
          cert der (rw (← is_info) chain) in
      (ct, ci, made, e₄, h₄)

module _ (a : Asn1) (p : Primitives) (d : Decoders) (b : CmsBuilder) (laws : Asn1Laws a)
    (collect : CollectLaws b) where
  -- A FAILURE reply is accepted by the checks of `parse_and_verify`, under the public key of the
  -- certificate of its signer, as a CertRep without an envelope that names the transaction.
  pub build_cert_rep-refused :
      (signer key : Bytes) (cert : Certificate) (nonce recipient_nonce : Bytes)
      (transaction_id : String) (fail : FailInfo) (attrs : List Attribute) (der : Bytes)
      → rsa_public_key_from_spki p cert.public_key ≡ ok key
      → ((ct : Attribute) (ci : ContentInfo)
          → b.content_type_attribute id_data ≡ ok ct
          → b.build (draft_of (signer_info_of signer cert no_content (ct ∷ attrs)) cert) ≡ ok ci
          → Emitted a p d key (signer_info_of signer cert no_content (ct ∷ attrs)) cert ci)
      → failure_attrs a nonce transaction_id recipient_nonce fail ≡ ok attrs
      → build_cert_rep a b signer cert none attrs ≡ ok der
      → parse_and_verify a p d der
        ≡ ok (record {
          message_type = MessageType.cert_rep;
          transaction_id = transaction_id;
          sender_nonce = nonce;
          recipient = record {
            public_key = key;
            issuer = cert.issuer;
            serial = cert.serial_number;
          };
          enveloped = none;
        })
  unfolding read_envelope message_type_value
  build_cert_rep-refused signer key cert nonce recipient_nonce transaction_id fail attrs der k emits
        made h =
      let (ct, ci, typed, built, encoded) =
        build_cert_rep-refusal a b collect signer cert attrs der h in
      let m = emits ct ci typed built in
      let ct_oid = collect.content_type_attribute_oid id_data ct typed in
      let (mt, st, fi, ti, sn, rn) =
        failure_attrs-read a laws nonce transaction_id recipient_nonce fail attrs made in
      let names = failure_attrs-oids a laws nonce transaction_id recipient_nonce fail attrs made in
      let no_value : m.sd.econtent ≡ none = no_value_of m.sd.econtent m.has_content in
      let behind : (oid : String)
          → (id_content_type == oid) ≡ false
          → find_attr (ct ∷ attrs) oid ≡ find_attr attrs oid =
        λ oid differs. find_attr-behind ct attrs oid (rw ct_oid differs) in
      parse_and_verify-Emitted a p d key (signer_info_of signer cert no_content (ct ∷ attrs)) cert
        ci m der transaction_id nonce none (laws.decode-encode_content_info ci der encoded) k
        (rw (ct_oid, names) refl)
        (read_string-same a (ct ∷ attrs) attrs id_message_type (behind id_message_type refl) ∙ mt)
        (read_string-same a (ct ∷ attrs) attrs id_transaction_id (behind id_transaction_id refl)
          ∙ ti)
        (read_octets-same a (ct ∷ attrs) attrs id_sender_nonce (behind id_sender_nonce refl) ∙ sn)
        (rw no_value refl)
    where
      no_value_of : (v : Option Bytes) → IsValue a none v → v ≡ none
      no_value_of none h = refl
      no_value_of (some v) h = absurd h
