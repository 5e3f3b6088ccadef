-- ===== src/Examples/Server.antt =====
-- A toy server: the other crates, a configured state and an empty world.
use blapki.Prelude.{
  String, none, some, ok, err, List, [], ◌∷◌, ◌++◌, Bytes, bytes_eq, arith, if◌then◌else◌, pos,
}
use blapki.Crates.{Attribute}
use blapki.Crypto.{id_sha256, id_signed_data, id_message_digest}
use blapki.Scep.Attributes.{MessageType, id_message_type, id_transaction_id, id_sender_nonce}
use blapki.Crypto.Verify.{Decoders, RelaxedSignerInfo, Parts, ParsedRequest}
use blapki.Crypto.Sign.{CmsBuilder}
use blapki.Intune.{Backend, Client, Net}
use blapki.Challenge.{static_secret}
use blapki.Ca.Csr.{ParsedCsr}
use blapki.Ca.Extensions.{ExtensionCodec}
use blapki.Ca.Authority.{Builder, CertificateAuthority}
use blapki.Ca.Authority.Leaf.{Contents, BuilderLaws}
use blapki.Http.{ProfileRuntime, AppState, World, Libraries, Moment}
use blapki.Examples.Toy.{
  cek, iv, date, device, ca_cert, request, toy_asn1, toy_primitives, request_envelope, bad_envelope,
}
use blapki.Examples.ToyOut.{toy_out}

-- A request under the transaction "txn", as the device signs it; the content is one byte.
abbrev pub signed_attrs : Bytes → List Attribute
signed_attrs content =
    record { oid = id_message_digest; values = content ∷ [] }
    ∷ record { oid = id_message_type; values = (19 ∷ []) ∷ [] }
    ∷ record { oid = id_transaction_id; values = (9 ∷ []) ∷ [] }
    ∷ record { oid = id_sender_nonce; values = (70 ∷ []) ∷ [] }
    ∷ []

abbrev pub signer_info : Bytes → String → RelaxedSignerInfo
signer_info content digest_alg = record {
  digest_alg = digest_alg;
  signed_attrs = some (signed_attrs content);
  signature = 6 ∷ [];
}

-- The content of the toy's signed data is its last byte, and its signer uses `digest_alg`.
abbrev pub decoders : String → Decoders
decoders digest_alg = record {
  decode_signed_data =
      λ b. ok (record { econtent = some b; certificates = some (80 ∷ []); signer_infos = b });
  open_container = λ b. ok b;
  decode_signer_info = λ b. ok (signer_info b digest_alg);
  decode_relaxed_certificate = λ b. ok device;
}

abbrev pub parts_of : Bytes → String → Parts
parts_of content digest_alg = record {
  signed_data = record {
    econtent = some content;
    certificates = some (80 ∷ []);
    signer_infos = content;
  };
  signer = signer_info content digest_alg;
  cert = device;
  attrs = signed_attrs content;
  public_key = 52 ∷ [];
}

-- An enrolment whose envelope opens, and one whose envelope does not.
abbrev pub good_message : Bytes
good_message = 8 ∷ 5 ∷ []

abbrev pub bad_message : Bytes
bad_message = 8 ∷ 6 ∷ []

abbrev pub parsed_good : ParsedRequest
parsed_good = record {
  message_type = MessageType.pkcs_req;
  transaction_id = "txn";
  sender_nonce = 70 ∷ [];
  recipient = record { public_key = 52 ∷ []; issuer = 50 ∷ []; serial = 53 ∷ [] };
  enveloped = some request_envelope;
}

abbrev pub parsed_bad : ParsedRequest
parsed_bad = record parsed_good { enveloped = some bad_envelope }

abbrev pub csr : ParsedCsr
csr = record { req = request; der = 30 ∷ []; challenge_password = some "hunter2" }

abbrev pub cms : CmsBuilder
cms = record {
  new_signer_info = λ info. ok info;
  content_type_attribute = λ oid. ok (record { oid = oid; values = [] });
  add_signed_attribute = λ info attr. ok (record info { signed_attrs = attr ∷ info.signed_attrs });
  add_digest_algorithm =
      λ sd alg. ok (record sd { digest_algorithms = alg ∷ sd.digest_algorithms });
  add_certificate = λ sd cert. ok (record sd { certificates = cert ∷ sd.certificates });
  add_signer_info = λ sd info. ok (record sd { signer_infos = info ∷ sd.signer_infos });
  build = λ sd. ok (record { content_type = id_signed_data; content = 90 ∷ [] });
  certs_only = λ certs. ok (23 ∷ []);
}

abbrev pub extension_codec : ExtensionCodec
extension_codec = record {
  new_oid = λ s. err "no oid";
  new_ia5 = λ s. ok s;
  decode_san = λ b. ok b;
}

abbrev pub builder : Builder
builder = record {
  Template = Contents;
  validity_from_now = λ secs. ok (record { not_before = date; not_after = date });
  new_subject_key_id = λ key. ok key;
  new_authority_key_id = λ key. ok key;
  new_template = λ issuer serial validity subject key signer. ok (record {
    issuer = issuer;
    serial_number = serial;
    subject = subject;
    public_key = key;
    extensions = [];
  });
  add_extension = λ t v. ok (record t { extensions = t.extensions ++ v ∷ [] });
  build = λ t. ok (record {
    serial_number = t.serial_number;
    issuer = t.issuer;
    subject = t.subject;
    not_before = date;
    not_after = date;
    public_key = t.public_key;
    extensions = [];
  });
}

pub builder_laws : BuilderLaws builder
builder_laws = record {
  contents = λ t. t;
  new_template-contents = λ issuer serial validity subject key signer t h. ground arith;
  add_extension-contents = λ t v t' h. ground arith;
}

-- Every answer takes two seconds and succeeds.
abbrev pub backend : Backend
backend = record {
  answers = λ n. record { elapsed = 2; outcome = ok (record { status = 200; body = "body" }) };
  show_status = λ n. "status";
  decode_token = λ s. ok (record { access_token = "bearer"; expires_in = some (pos 3600) });
  decode_endpoints = λ s. ok [];
  decode_validate = λ s. ok (record { code = some "Success"; error_description = none });
  decode_value = λ s. ok tt;
  b64 = λ b. "b64";
}

abbrev pub client : Client
client = record {
  tenant_id = "tenant";
  client_id = "client";
  client_secret = "secret";
  login_host = "https://login";
  intune_resource = "https://intune/";
}

-- No token is cached yet; the endpoint is known.
abbrev pub net : Net
net = record { tokens = []; validation_uri = some "https://uri"; sent = []; now = 1000 }

abbrev pub libraries : Libraries
libraries = record {
  asn1 = toy_asn1;
  primitives = toy_primitives;
  decoders = decoders id_sha256;
  cms = cms;
  out = toy_out;
  extensions = extension_codec;
  builder = builder;
  backend = backend;
  base64_encode = λ b. "base64";
  base64_decode = λ b. err "no base64";
  hex_encode = λ b. if bytes_eq b [] then "" else "0a";
  hex_encode_upper = λ b. "0A";
}

abbrev pub ca : CertificateAuthority
ca = record { id = "ca"; cert = ca_cert; private_key = 55 ∷ [] }

abbrev pub profile : String → ProfileRuntime
profile secret = record {
  name = "wifi";
  ca_id = "ca";
  validator = static_secret secret;
  validity_days = 365;
  key_usage = "digitalSignature" ∷ [];
  extended_key_usage = "clientAuth" ∷ [];
}

abbrev pub state : String → AppState
state secret = record {
  cas = ("ca", ca) ∷ [];
  profiles = ("wifi", profile secret) ∷ [];
  base_url = "https://pki/";
}

abbrev pub moment : Moment
moment = record {
  serial = 200 ∷ 1 ∷ [];
  fill_bytes = λ n. 71 ∷ [];
  draws = record { cek = cek; iv = iv; padding = [] };
  now = ok date;
}

abbrev pub world : World
world = record {
  pool = record { issued_certificate = []; scep_transaction = []; outages = [] };
  net = net;
}
