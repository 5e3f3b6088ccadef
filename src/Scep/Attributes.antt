-- ===== src/Scep/Attributes.antt =====
-- src/scep/attributes.rs
use blapki.Prelude.{
  String, Option, some, ok, err, List, [], ◌∷◌, Bytes, format, trim, find, next, map_err, ok_or,
  to_option, ◌>>=◌, ◌==◌, if◌then◌else◌,
}
use blapki.Error.{AppError, AppResult}
use blapki.Crates.{Attribute, Asn1}

abbrev pub id_message_type : String
id_message_type = "2.16.840.1.113733.1.9.2"

abbrev pub id_pki_status : String
id_pki_status = "2.16.840.1.113733.1.9.3"

abbrev pub id_fail_info : String
id_fail_info = "2.16.840.1.113733.1.9.4"

abbrev pub id_sender_nonce : String
id_sender_nonce = "2.16.840.1.113733.1.9.5"

abbrev pub id_recipient_nonce : String
id_recipient_nonce = "2.16.840.1.113733.1.9.6"

abbrev pub id_transaction_id : String
id_transaction_id = "2.16.840.1.113733.1.9.7"

abbrev pub id_challenge_password : String
id_challenge_password = "1.2.840.113549.1.9.7"

pub data MessageType : Type 0 where
  cert_rep pkcs_req renewal_req get_cert_initial get_cert get_crl : MessageType

unfoldable pub message_type_value : MessageType → String
message_type_value MessageType.cert_rep = "3"
message_type_value MessageType.renewal_req = "17"
message_type_value MessageType.pkcs_req = "19"
message_type_value MessageType.get_cert_initial = "20"
message_type_value MessageType.get_cert = "21"
message_type_value MessageType.get_crl = "22"

-- `MessageType::from_value`, on the trimmed text
unfoldable pub message_type_of : String → AppResult MessageType
message_type_of s =
    if s == "3"
    then ok MessageType.cert_rep
    else if s == "17"
    then ok MessageType.renewal_req
    else if s == "19"
    then ok MessageType.pkcs_req
    else if s == "20"
    then ok MessageType.get_cert_initial
    else if s == "21"
    then ok MessageType.get_cert
    else if s == "22"
    then ok MessageType.get_crl
    else err (AppError.bad_request (format ("unknown SCEP messageType '" ∷ s ∷ "'" ∷ [])))

unfoldable pub from_value : String → AppResult MessageType
unfolding message_type_of
from_value s = message_type_of (trim s)

pub data PkiStatus : Type 0 where
  success failure pending : PkiStatus

unfoldable pub pki_status_value : PkiStatus → String
pki_status_value PkiStatus.success = "0"
pki_status_value PkiStatus.failure = "2"
pki_status_value PkiStatus.pending = "3"

pub data FailInfo : Type 0 where
  bad_alg bad_message_check bad_request bad_time bad_cert_id : FailInfo

unfoldable pub fail_info_value : FailInfo → String
fail_info_value FailInfo.bad_alg = "0"
fail_info_value FailInfo.bad_message_check = "1"
fail_info_value FailInfo.bad_request = "2"
fail_info_value FailInfo.bad_time = "3"
fail_info_value FailInfo.bad_cert_id = "4"

abbrev pub der_err : String → AppError
der_err e = AppError.crypto (format ("DER error: " ∷ e ∷ []))

-- `attributes::find`
unfoldable pub find_attr : List Attribute → String → Option Attribute
find_attr attrs oid = find (λ a. a.oid == oid) attrs

module _ (a : Asn1) where
  unfoldable pub single_value_attribute : String → Bytes → AppResult Attribute
  single_value_attribute oid value = do
    values ← map_err der_err (a.set_insert [] value)
    ok (record { oid = oid; values = values })

  unfoldable pub printable_attribute : String → String → AppResult Attribute
  unfolding single_value_attribute
  printable_attribute oid value = do
    ps ←
        map_err (λ e. AppError.crypto (format ("invalid PrintableString: " ∷ e ∷ [])))
          (a.new_printable value)
    any ← map_err der_err (a.encode_printable ps)
    single_value_attribute oid any

  unfoldable pub octet_attribute : String → Bytes → AppResult Attribute
  unfolding single_value_attribute
  octet_attribute oid value = do
    os ← map_err der_err (a.new_octets value)
    any ← map_err der_err (a.encode_octets os)
    single_value_attribute oid any

  -- The three decodings that `read_string` and the CSR parser try in turn.
  unfoldable pub decode_text : Bytes → Option String
  decode_text value = elim (a.decode_printable value) [
    | ok s ↦ some s
    | err _ ↦ elim (a.decode_utf8 value) [ ok s ↦ some s | err _ ↦ to_option (a.decode_ia5 value) ]
  ]

  -- The first value of an attribute, as `read_string` and `read_octets` get it.
  unfoldable pub attribute_value : List Attribute → String → AppResult Bytes
  unfolding find_attr
  attribute_value attrs oid = do
    attr ←
        ok_or (AppError.bad_request (format ("missing SCEP attribute " ∷ oid ∷ [])))
          (find_attr attrs oid)
    ok_or (AppError.bad_request (format ("empty SCEP attribute " ∷ oid ∷ []))) (next attr.values)

  unfoldable pub read_string : List Attribute → String → AppResult String
  unfolding attribute_value decode_text
  read_string attrs oid = do
    value ← attribute_value attrs oid
    ok_or
        (AppError.bad_request
          (format ("SCEP attribute " ∷ oid ∷ " is not a recognised string type" ∷ [])))
        (decode_text value)

  unfoldable pub read_octets : List Attribute → String → AppResult Bytes
  unfolding attribute_value
  read_octets attrs oid = do
    value ← attribute_value attrs oid
    map_err
        (λ e.
          AppError.bad_request (format ("SCEP attribute " ∷ oid ∷ " not OCTET STRING: " ∷ e ∷ [])))
        (a.decode_octets value)
