-- ===== src/Scep/Protocol.antt =====
-- src/scep/protocol.rs, and the nonces of src/scep/nonce.rs.
use blapki.Prelude.{String, all_ok, List, [], ◌∷◌, Bytes, ℕ}
use blapki.Error.{AppResult}
use blapki.Crates.{Attribute, Asn1}
use blapki.Scep.Attributes.{
  MessageType, PkiStatus, FailInfo, message_type_value, pki_status_value, fail_info_value,
  id_message_type, id_pki_status, id_fail_info, id_sender_nonce, id_recipient_nonce,
  id_transaction_id, printable_attribute, octet_attribute,
}

abbrev pub ca_caps : String
ca_caps = "Renewal\nSHA-512\nSHA-256\nSHA-1\nDES3\nAES\nPOSTPKIOperation\nSCEPStandard"

abbrev pub nonce_len : ℕ
nonce_len = 16

-- `nonce` is the server's fresh nonce: the `nonce_len` bytes that the generator fills in.
module _ (a : Asn1) (nonce : Bytes) where
  unfoldable pub success_attrs : String → Bytes → AppResult (List Attribute)
  success_attrs transaction_id recipient_nonce = all_ok (
      printable_attribute a id_message_type (message_type_value MessageType.cert_rep)
      ∷ printable_attribute a id_pki_status (pki_status_value PkiStatus.success)
      ∷ printable_attribute a id_transaction_id transaction_id
      ∷ octet_attribute a id_sender_nonce nonce
      ∷ octet_attribute a id_recipient_nonce recipient_nonce
      ∷ [])

  unfoldable pub failure_attrs : String → Bytes → FailInfo → AppResult (List Attribute)
  failure_attrs transaction_id recipient_nonce fail_info = all_ok (
      printable_attribute a id_message_type (message_type_value MessageType.cert_rep)
      ∷ printable_attribute a id_pki_status (pki_status_value PkiStatus.failure)
      ∷ printable_attribute a id_fail_info (fail_info_value fail_info)
      ∷ printable_attribute a id_transaction_id transaction_id
      ∷ octet_attribute a id_sender_nonce nonce
      ∷ octet_attribute a id_recipient_nonce recipient_nonce
      ∷ [])
