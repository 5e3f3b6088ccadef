-- ===== src/Scep/Replies.antt =====
-- What a client reads back from the attributes of src/scep/protocol.rs.
pub mod Failure
use blapki.Prelude.{
  String, ◌≡◌, ap, map, ok, List, [], ◌∷◌, Bytes, arith, all_ok-eq-ok, all_ok-nil, Result-cases,
  inl, inr,
}
use blapki.Crates.{Attribute, Asn1}
use blapki.Crates.Laws.{Asn1Laws}
use blapki.Scep.Attributes.{
  MessageType, PkiStatus, FailInfo, message_type_value, pki_status_value, fail_info_value,
  id_message_type, id_pki_status, id_fail_info, id_sender_nonce, id_recipient_nonce,
  id_transaction_id, printable_attribute, octet_attribute, decode_text, read_string, read_octets,
  single_value_attribute,
}
use blapki.Scep.Protocol.{success_attrs, failure_attrs}

abbrev pub attribute : String → Bytes → Attribute
attribute oid b = record { oid = oid; values = b ∷ [] }

module _ (a : Asn1) (laws : Asn1Laws a) where
  single_value_attribute-eq-ok :
      (oid : String) (b : Bytes) (attr : Attribute)
      → single_value_attribute a oid b ≡ ok attr
      → attr ≡ attribute oid b
  unfolding single_value_attribute
  single_value_attribute-eq-ok oid b attr h = elim (Result-cases (a.set_insert [] b)) [
    | inl (vs, e) ↦ let same = laws.set_insert-nil b vs e in ground arith
    | inr (x, e) ↦ absurd (ground arith)
  ]

  -- A text attribute that was built has one value, which decodes to the text.
  pub printable_attribute-eq-ok :
      (oid s : String) (attr : Attribute)
      → printable_attribute a oid s ≡ ok attr
      → (b : Bytes) × (attr ≡ attribute oid b) × (a.decode_printable b ≡ ok s)
  unfolding printable_attribute
  printable_attribute-eq-ok oid s attr h = elim (Result-cases (a.new_printable s)) [
    | inl (t, e) ↦ elim (Result-cases (a.encode_printable t)) [
      | inl (b, k) ↦
          let same = laws.new_printable_same s t e in
          (
            b,
            single_value_attribute-eq-ok oid b attr (ground arith),
            rw (← same) (laws.decode-encode_printable t b k),
          )
      | inr (x, k) ↦ absurd (ground arith)
    ]
    | inr (x, e) ↦ absurd (ground arith)
  ]

  pub octet_attribute-eq-ok :
      (oid : String) (o : Bytes) (attr : Attribute)
      → octet_attribute a oid o ≡ ok attr
      → (b : Bytes) × (attr ≡ attribute oid b) × (a.decode_octets b ≡ ok o)
  unfolding octet_attribute
  octet_attribute-eq-ok oid o attr h = elim (Result-cases (a.new_octets o)) [
    | inl (p, e) ↦ elim (Result-cases (a.encode_octets p)) [
      | inl (b, k) ↦
          let same = laws.new_octets_same o p e in
          (
            b,
            single_value_attribute-eq-ok oid b attr (ground arith),
            rw (← same) (laws.decode-encode_octets p b k),
          )
      | inr (x, k) ↦ absurd (ground arith)
    ]
    | inr (x, e) ↦ absurd (ground arith)
  ]

  read_success :
      (b₁ b₂ b₃ b₄ b₅ : Bytes) {mt st ti : String} {sn rn : Bytes} (attrs : List Attribute)
      → attrs
        ≡ attribute id_message_type b₁
          ∷ attribute id_pki_status b₂
          ∷ attribute id_transaction_id b₃
          ∷ attribute id_sender_nonce b₄
          ∷ attribute id_recipient_nonce b₅
          ∷ []
      → a.decode_printable b₁ ≡ ok mt
      → a.decode_printable b₂ ≡ ok st
      → a.decode_printable b₃ ≡ ok ti
      → a.decode_octets b₄ ≡ ok sn
      → a.decode_octets b₅ ≡ ok rn
      → (read_string a attrs id_message_type ≡ ok mt)
        × (read_string a attrs id_pki_status ≡ ok st)
        × (read_string a attrs id_transaction_id ≡ ok ti)
        × (read_octets a attrs id_sender_nonce ≡ ok sn)
        × (read_octets a attrs id_recipient_nonce ≡ ok rn)
  unfolding read_string read_octets
  read_success b₁ b₂ b₃ b₄ b₅ attrs e h₁ h₂ h₃ h₄ h₅ =
      rw e (rw (h₁, decode_text), rw (h₂, decode_text), rw (h₃, decode_text), rw h₄, rw h₅)

  -- The five attributes of a SUCCESS reply.
  success_attrs-eq-ok :
      (nonce : Bytes) (transaction_id : String) (recipient_nonce : Bytes) (attrs : List Attribute)
      → success_attrs a nonce transaction_id recipient_nonce ≡ ok attrs
      → (b₁ b₂ b₃ b₄ b₅ : Bytes) × (attrs
          ≡ attribute id_message_type b₁
            ∷ attribute id_pki_status b₂
            ∷ attribute id_transaction_id b₃
            ∷ attribute id_sender_nonce b₄
            ∷ attribute id_recipient_nonce b₅
            ∷ [])
        × (a.decode_printable b₁ ≡ ok (message_type_value MessageType.cert_rep))
        × (a.decode_printable b₂ ≡ ok (pki_status_value PkiStatus.success))
        × (a.decode_printable b₃ ≡ ok transaction_id)
        × (a.decode_octets b₄ ≡ ok nonce)
        × (a.decode_octets b₅ ≡ ok recipient_nonce)
  unfolding success_attrs
  success_attrs-eq-ok nonce transaction_id recipient_nonce attrs h =
      let (mt, xs₁, e₁, h₁, s₁) = all_ok-eq-ok _ _ _ h in
      let (st, xs₂, e₂, h₂, s₂) = all_ok-eq-ok _ _ _ h₁ in
      let (ti, xs₃, e₃, h₃, s₃) = all_ok-eq-ok _ _ _ h₂ in
      let (sn, xs₄, e₄, h₄, s₄) = all_ok-eq-ok _ _ _ h₃ in
      let (rn, xs₅, e₅, h₅, s₅) = all_ok-eq-ok _ _ _ h₄ in
      let (b₁, m₁, d₁) = printable_attribute-eq-ok _ _ _ e₁ in
      let (b₂, m₂, d₂) = printable_attribute-eq-ok _ _ _ e₂ in
      let (b₃, m₃, d₃) = printable_attribute-eq-ok _ _ _ e₃ in
      let (b₄, m₄, d₄) = octet_attribute-eq-ok _ _ _ e₄ in
      let (b₅, m₅, d₅) = octet_attribute-eq-ok _ _ _ e₅ in
      (b₁, b₂, b₃, b₄, b₅, cc (all_ok-nil xs₅ h₅), d₁, d₂, d₃, d₄, d₅)

  -- The attributes of a SUCCESS reply read back as a CertRep with status 0 that names the request's
  -- transaction, carries the server's nonce and echoes the nonce of the request.
  pub success_attrs-read :
      (nonce : Bytes) (transaction_id : String) (recipient_nonce : Bytes) (attrs : List Attribute)
      → success_attrs a nonce transaction_id recipient_nonce ≡ ok attrs
      → (read_string a attrs id_message_type ≡ ok (message_type_value MessageType.cert_rep))
        × (read_string a attrs id_pki_status ≡ ok (pki_status_value PkiStatus.success))
        × (read_string a attrs id_transaction_id ≡ ok transaction_id)
        × (read_octets a attrs id_sender_nonce ≡ ok nonce)
        × (read_octets a attrs id_recipient_nonce ≡ ok recipient_nonce)
  success_attrs-read nonce transaction_id recipient_nonce attrs h =
      let (b₁, b₂, b₃, b₄, b₅, e, d₁, d₂, d₃, d₄, d₅) =
        success_attrs-eq-ok nonce transaction_id recipient_nonce attrs h in
      read_success b₁ b₂ b₃ b₄ b₅ attrs e d₁ d₂ d₃ d₄ d₅

  pub success_attrs-oids :
      (nonce : Bytes) (transaction_id : String) (recipient_nonce : Bytes) (attrs : List Attribute)
      → success_attrs a nonce transaction_id recipient_nonce ≡ ok attrs
      → map (λ x. x.oid) attrs
        ≡ id_message_type ∷ id_pki_status ∷ id_transaction_id ∷ id_sender_nonce ∷ id_recipient_nonce
          ∷ []
  success_attrs-oids nonce transaction_id recipient_nonce attrs h =
      let (b₁, b₂, b₃, b₄, b₅, e, d₁, d₂, d₃, d₄, d₅) =
        success_attrs-eq-ok nonce transaction_id recipient_nonce attrs h in
      ap (map (λ x. x.oid)) e
