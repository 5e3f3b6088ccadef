-- ===== src/Scep/Replies/Failure.antt =====
-- What a client reads back from the attributes of a FAILURE reply of src/scep/protocol.rs.
use blapki.Prelude.{String, ◌≡◌, ap, map, ok, List, [], ◌∷◌, Bytes, all_ok-eq-ok, all_ok-nil}
use blapki.Crates.{Attribute, Asn1}
use blapki.Crates.Laws.{Asn1Laws}
use blapki.Scep.Attributes.{
  MessageType, PkiStatus, FailInfo, message_type_value, pki_status_value, fail_info_value,
  id_message_type, id_pki_status, id_fail_info, id_sender_nonce, id_recipient_nonce,
  id_transaction_id, decode_text, read_string, read_octets,
}
use blapki.Scep.Protocol.{failure_attrs}
use blapki.Scep.Replies.{attribute, printable_attribute-eq-ok, octet_attribute-eq-ok}

module _ (a : Asn1) (laws : Asn1Laws a) where
  -- The six attributes of a FAILURE reply.
  failure_attrs-eq-ok :
      (nonce : Bytes) (transaction_id : String) (recipient_nonce : Bytes) (fail : FailInfo)
      (attrs : List Attribute)
      → failure_attrs a nonce transaction_id recipient_nonce fail ≡ ok attrs
      → (b₁ b₂ b₃ b₄ b₅ b₆ : Bytes) × (attrs
          ≡ attribute id_message_type b₁
            ∷ attribute id_pki_status b₂
            ∷ attribute id_fail_info b₃
            ∷ attribute id_transaction_id b₄
            ∷ attribute id_sender_nonce b₅
            ∷ attribute id_recipient_nonce b₆
            ∷ [])
        × (a.decode_printable b₁ ≡ ok (message_type_value MessageType.cert_rep))
        × (a.decode_printable b₂ ≡ ok (pki_status_value PkiStatus.failure))
        × (a.decode_printable b₃ ≡ ok (fail_info_value fail))
        × (a.decode_printable b₄ ≡ ok transaction_id)
        × (a.decode_octets b₅ ≡ ok nonce)
        × (a.decode_octets b₆ ≡ ok recipient_nonce)
  unfolding failure_attrs
  failure_attrs-eq-ok nonce transaction_id recipient_nonce fail attrs h =
      let (mt, xs₁, e₁, h₁, s₁) = all_ok-eq-ok _ _ _ h in
      let (st, xs₂, e₂, h₂, s₂) = all_ok-eq-ok _ _ _ h₁ in
      let (fi, xs₃, e₃, h₃, s₃) = all_ok-eq-ok _ _ _ h₂ in
      let (ti, xs₄, e₄, h₄, s₄) = all_ok-eq-ok _ _ _ h₃ in
      let (sn, xs₅, e₅, h₅, s₅) = all_ok-eq-ok _ _ _ h₄ in
      let (rn, xs₆, e₆, h₆, s₆) = all_ok-eq-ok _ _ _ h₅ in
      let (b₁, m₁, d₁) = printable_attribute-eq-ok a laws _ _ _ e₁ in
      let (b₂, m₂, d₂) = printable_attribute-eq-ok a laws _ _ _ e₂ in
      let (b₃, m₃, d₃) = printable_attribute-eq-ok a laws _ _ _ e₃ in
      let (b₄, m₄, d₄) = printable_attribute-eq-ok a laws _ _ _ e₄ in
      let (b₅, m₅, d₅) = octet_attribute-eq-ok a laws _ _ _ e₅ in
      let (b₆, m₆, d₆) = octet_attribute-eq-ok a laws _ _ _ e₆ in
      (b₁, b₂, b₃, b₄, b₅, b₆, cc (all_ok-nil xs₆ h₆), d₁, d₂, d₃, d₄, d₅, d₆)

  read_failure :
      (b₁ b₂ b₃ b₄ b₅ b₆ : Bytes) {mt st fi ti : String} {sn rn : Bytes} (attrs : List Attribute)
      → attrs
        ≡ attribute id_message_type b₁
          ∷ attribute id_pki_status b₂
          ∷ attribute id_fail_info b₃
          ∷ attribute id_transaction_id b₄
          ∷ attribute id_sender_nonce b₅
          ∷ attribute id_recipient_nonce b₆
          ∷ []
      → a.decode_printable b₁ ≡ ok mt
      → a.decode_printable b₂ ≡ ok st
      → a.decode_printable b₃ ≡ ok fi
      → a.decode_printable b₄ ≡ ok ti
      → a.decode_octets b₅ ≡ ok sn
      → a.decode_octets b₆ ≡ ok rn
      → (read_string a attrs id_message_type ≡ ok mt)
        × (read_string a attrs id_pki_status ≡ ok st)
        × (read_string a attrs id_fail_info ≡ ok fi)
        × (read_string a attrs id_transaction_id ≡ ok ti)
        × (read_octets a attrs id_sender_nonce ≡ ok sn)
        × (read_octets a attrs id_recipient_nonce ≡ ok rn)
  unfolding read_string read_octets
  read_failure b₁ b₂ b₃ b₄ b₅ b₆ attrs e h₁ h₂ h₃ h₄ h₅ h₆ = rw e (
    rw (h₁, decode_text),
    rw (h₂, decode_text),
    rw (h₃, decode_text),
    rw (h₄, decode_text),
    rw h₅,
    rw h₆,
  )

  -- The attributes of a FAILURE reply read back as a CertRep with status 2 and the given reason,
  -- and like those of a SUCCESS reply name the transaction, carry the nonce of the server and echo
  -- the nonce of the request.
  pub failure_attrs-read :
      (nonce : Bytes) (transaction_id : String) (recipient_nonce : Bytes) (fail : FailInfo)
      (attrs : List Attribute)
      → failure_attrs a nonce transaction_id recipient_nonce fail ≡ ok attrs
      → (read_string a attrs id_message_type ≡ ok (message_type_value MessageType.cert_rep))
        × (read_string a attrs id_pki_status ≡ ok (pki_status_value PkiStatus.failure))
        × (read_string a attrs id_fail_info ≡ ok (fail_info_value fail))
        × (read_string a attrs id_transaction_id ≡ ok transaction_id)
        × (read_octets a attrs id_sender_nonce ≡ ok nonce)
        × (read_octets a attrs id_recipient_nonce ≡ ok recipient_nonce)
  failure_attrs-read nonce transaction_id recipient_nonce fail attrs h =
      let (b₁, b₂, b₃, b₄, b₅, b₆, e, d₁, d₂, d₃, d₄, d₅, d₆) =
        failure_attrs-eq-ok nonce transaction_id recipient_nonce fail attrs h in
      read_failure b₁ b₂ b₃ b₄ b₅ b₆ attrs e d₁ d₂ d₃ d₄ d₅ d₆

  pub failure_attrs-oids :
      (nonce : Bytes) (transaction_id : String) (recipient_nonce : Bytes) (fail : FailInfo)
      (attrs : List Attribute)
      → failure_attrs a nonce transaction_id recipient_nonce fail ≡ ok attrs
      → map (λ x. x.oid) attrs
        ≡ id_message_type ∷ id_pki_status ∷ id_fail_info ∷ id_transaction_id ∷ id_sender_nonce
          ∷ id_recipient_nonce ∷ []
  failure_attrs-oids nonce transaction_id recipient_nonce fail attrs h =
      let (b₁, b₂, b₃, b₄, b₅, b₆, e, d₁, d₂, d₃, d₄, d₅, d₆) =
        failure_attrs-eq-ok nonce transaction_id recipient_nonce fail attrs h in
      ap (map (λ x. x.oid)) e
