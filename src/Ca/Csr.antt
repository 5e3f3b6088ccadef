-- ===== src/Ca/Csr.antt =====
-- src/ca/csr.rs: PKCS#10 certificate signing requests.
use blapki.Prelude.{String, Option, ok, [], ◌∷◌, Bytes, format, next, map_err, and_then, ◌>>=◌}
use blapki.Error.{AppError, AppResult}
use blapki.Crates.{Asn1, CertReq}
use blapki.Scep.Attributes.{id_challenge_password, find_attr, decode_text}

-- A parsed CSR plus the fields SCEP needs from it.
pub record ParsedCsr : Type 0 where
  pub req : CertReq
  pub der : Bytes
  pub challenge_password : Option String

module _ (a : Asn1) where
  unfoldable pub subject : ParsedCsr → String
  subject csr = a.name_to_string csr.req.subject

  unfoldable pub extract_challenge_password : CertReq → Option String
  unfolding find_attr decode_text
  extract_challenge_password req =
      and_then (find_attr req.attributes id_challenge_password)
        (λ attr. and_then (next attr.values) (decode_text a))

  unfoldable pub parse : Bytes → AppResult ParsedCsr
  parse der = do
    req ←
        map_err (λ e. AppError.bad_request (format ("invalid CSR: " ∷ e ∷ [])))
          (a.decode_cert_req der)
    ok (record { req = req; der = der; challenge_password = extract_challenge_password req })
