-- ===== src/Examples/Operations.antt =====
-- Runs of the handlers of src/http on the toy server.
use blapki.Prelude.{
  ◌==◌, if◌then◌else◌, arith, none, ◌≡◌, refl, ◌⊎◌, ok, err, [], ◌∷◌, length, trim, bytes_eq,
  as_bytes,
}
use blapki.Error.{AppError}
use blapki.Crypto.{id_sha256}
use blapki.Crypto.Envelope
use blapki.Crypto.Envelope.{
  open_envelope, decrypt_symmetric, unwrap_cek, content_key_len, read_iv, select_recipient,
}
use blapki.Crypto.Envelope.Outbound.{build_for, encrypt_content, key_transport, enveloped_data}
use blapki.Crypto.Verify.{parse_and_verify, verify_rsa, digest, claimed_digest}
use blapki.Scep.Attributes.{FailInfo, read_string, read_octets, from_value}
use blapki.Challenge.{validate, constant_time_eq}
use blapki.Ca.Csr
use blapki.Ca.Authority.{issue}
use blapki.Ca.Serial.{random_serial}
use blapki.Ca.Extensions.{
  key_usage, attribute_san, extended_key_usage, requested_san, authority_info_access,
  crl_distribution_points,
}
use blapki.Db.Repo.{insert_issued, record_transaction}
use blapki.Http.Replies.{build_success}
use blapki.Http.Replies.Device.{Readable, build_success-Readable}
use blapki.Crypto.Sign.{certs_only, build_cert_rep, add_attributes}
use blapki.Crypto.Envelope.Outbound.{build_for, encrypt_content, key_transport, enveloped_data}
use blapki.Scep.Protocol.{success_attrs}
use blapki.Scep.Attributes.{
  printable_attribute, octet_attribute, message_type_value, pki_status_value,
}
use blapki.Prelude.{all_ok}
use blapki.Examples.Toy.{date, device, toy_laws, toy-IsKeyPair, toy_cbc}
use blapki.Examples.ToyOut.{toy_codec}
use blapki.Http.Replies.{now_utc, open_request, issued_row, build_failure, check_type, input_of}
use blapki.Http.Scep.{
  pki_operation, answer_parsed, answer_opened, enrol, issue_and_deliver, deliver, persist,
  record_status,
}
use blapki.Http.Scep.Gate.{Enrolled, Opened, pki_operation-gate, pki_operation-untouched}
use blapki.Db.Repo.Transactions.{transaction_view, upsert}
use blapki.Http.Print.Serials.{big_endian}
use blapki.Http.Print.Decimal.{read_decimal, serial_decimal-read}
use blapki.Http.Scep.Accepted.{Delivered, pki_operation-accepted}
use blapki.Crates.{Certificate}
use blapki.Http.Print.{serial_decimal}
use blapki.Http.Scep.Failures.{enrol-refused}
use blapki.Examples.Toy.{toy_asn1, toy_primitives, request_envelope}
use blapki.Examples.Server.{
  libraries, moment, state, profile, ca, csr, world, good_message, bad_message, parsed_good,
  decoders,
}

good_is_authentic :
    parse_and_verify toy_asn1 toy_primitives (decoders id_sha256) good_message ≡ ok parsed_good
unfolding parse_and_verify verify_rsa claimed_digest digest read_string read_octets from_value trim
    Envelope.parse bytes_eq
good_is_authentic = refl

good_opens : open_request libraries ca request_envelope ≡ ok csr
unfolding open_request open_envelope content_key_len read_iv select_recipient unwrap_cek
    decrypt_symmetric bytes_eq Csr.parse Csr.extract_challenge_password
good_opens = refl

-- With the right password the certificate is issued and recorded; with a wrong one it is not.
right_password_issues :
    length
      (pki_operation libraries moment
        (state "hunter2")
        "wifi"
        good_message
        world).1.pool.issued_certificate
    ≡ 1
unfolding parse_and_verify verify_rsa claimed_digest digest read_string read_octets from_value trim
    Envelope.parse bytes_eq open_request open_envelope content_key_len read_iv select_recipient
    unwrap_cek decrypt_symmetric Csr.parse Csr.extract_challenge_password pki_operation
    answer_parsed answer_opened enrol issue_and_deliver deliver persist record_status check_type
    validate issue random_serial key_usage extended_key_usage requested_san authority_info_access
    crl_distribution_points insert_issued record_transaction as_bytes constant_time_eq attribute_san
right_password_issues = refl

wrong_password_refused :
    validate libraries.backend (profile "other").validator (input_of parsed_good csr) world.net
    ≡ (err (AppError.bad_request "incorrect challenge password"), world.net)
unfolding validate as_bytes constant_time_eq
wrong_password_refused = refl

pki_operation-gate_example :
    ((pki_operation libraries moment
        (state "hunter2")
        "wifi"
        good_message
        world).1.pool.issued_certificate
      ≡ [])
    ⊎ ((e : Enrolled libraries moment (state "hunter2") "wifi" good_message world) × ((pki_operation
            libraries moment
            (state "hunter2")
            "wifi"
            good_message
            world).1.pool.issued_certificate
          ≡ issued_row libraries moment e.request.rt e.request.ca e.request.parsed e.issued
              e.issued_der
            ∷ []))
pki_operation-gate_example =
    pki_operation-gate libraries moment (state "hunter2") "wifi" good_message world

pki_operation-untouched_example :
    Opened libraries moment (state "hunter2") "wifi" bad_message
    ⊎ ((pki_operation libraries moment (state "hunter2") "wifi" bad_message world).1 ≡ world)
pki_operation-untouched_example =
    pki_operation-untouched libraries moment (state "hunter2") "wifi" bad_message world

enrol-refused_example :
    ((enrol libraries moment (state "other") (profile "other") ca parsed_good csr world).0
      ≡ build_failure libraries moment ca parsed_good FailInfo.bad_request)
    × ((enrol libraries moment
          (state "other")
          (profile "other")
          ca
          parsed_good
          csr
          world).1.pool.issued_certificate
        ≡ [])
    × (transaction_view
          (enrol libraries moment (state "other") (profile "other") ca parsed_good csr world).1.pool
          "txn"
        ≡ (if "txn" == "txn"
            then upsert "txn" "wifi" "failed" "PKCSReq" (now_utc moment) none
            else none))
unfolding validate as_bytes constant_time_eq
enrol-refused_example =
    enrol-refused libraries moment (state "other") (profile "other") ca parsed_good csr
      (AppError.bad_request "incorrect challenge password") world "txn" refl refl

serial_decimal-read_example :
    read_decimal 0 (serial_decimal libraries.hex_encode (127 ∷ 255 ∷ 1 ∷ []))
    ≡ big_endian 0 (127 ∷ 255 ∷ 1 ∷ [])
serial_decimal-read_example =
    serial_decimal-read libraries.hex_encode (127 ∷ 255 ∷ 1 ∷ [])
      (omega arith, (omega arith, (omega arith, tt))) (omega arith)

build_success-Readable_example :
    Readable libraries moment ca parsed_good device device (55 ∷ []) (8 ∷ 90 ∷ [])
unfolding build_success certs_only build_for encrypt_content key_transport enveloped_data bytes_eq
    success_attrs printable_attribute octet_attribute message_type_value pki_status_value all_ok
    build_cert_rep add_attributes
build_success-Readable_example =
    build_success-Readable libraries moment toy_laws toy_codec ca parsed_good device device
      (55 ∷ []) (8 ∷ 90 ∷ []) toy-IsKeyPair toy_cbc refl (omega arith) refl

abbrev good_opened : Opened libraries moment (state "hunter2") "wifi" good_message
unfolding good_is_authentic good_opens check_type
good_opened = record {
  rt = profile "hunter2";
  ca = ca;
  parsed = parsed_good;
  enveloped = request_envelope;
  csr = csr;
  profile_known = refl;
  ca_known = refl;
  authentic = good_is_authentic;
  enrols = refl;
  sealed = refl;
  opened = good_opens;
}

abbrev issued : Certificate
issued = record {
  serial_number = 72 ∷ 1 ∷ [];
  issuer = 51 ∷ [];
  subject = 60 ∷ [];
  not_before = date;
  not_after = date;
  public_key = 61 ∷ [];
  extensions = [];
}

pki_operation-accepted_example :
    ((pki_operation libraries moment (state "hunter2") "wifi" good_message world).0
      ≡ build_success libraries moment ca parsed_good issued)
    × Delivered libraries moment
        (profile "hunter2")
        ca
        parsed_good
        issued
        world.pool
        (pki_operation libraries moment (state "hunter2") "wifi" good_message world).1.pool
unfolding good_opened validate issue random_serial key_usage extended_key_usage requested_san
    authority_info_access crl_distribution_points as_bytes constant_time_eq attribute_san
pki_operation-accepted_example =
    pki_operation-accepted libraries moment (state "hunter2") "wifi" good_message world good_opened
      issued (72 ∷ 1 ∷ []) refl refl refl refl refl
