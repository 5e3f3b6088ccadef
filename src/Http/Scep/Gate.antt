-- ===== src/Http/Scep/Gate.antt =====
-- What must hold before src/http/scep.rs issues a certificate.
use blapki.Prelude.{
  String, ◌≡◌, refl, ◌⊎◌, inl, inr, Option-cases, Result-cases, some, ok, [], ◌∷◌, ◌++◌, Bytes,
}
use blapki.Crates.{Certificate, EnvelopedData}
use blapki.Crypto.Verify.{ParsedRequest, parse_and_verify}
use blapki.Challenge.{validate}
use blapki.Ca.Csr.{ParsedCsr}
use blapki.Ca.Authority.{CertificateAuthority, issue}
use blapki.Http.{ProfileRuntime, AppState, get, World, Libraries, Moment}
use blapki.Http.Replies.{check_type, input_of, issue_options, open_request, issued_row}
use blapki.Http.Scep.Tables.{enrol-table}
use blapki.Http.Scep.{enrol, answer_opened, answer_parsed, pki_operation}

module _ (l : Libraries) (m : Moment) where
  -- A request that got as far as its CSR.
  pub record Opened (state : AppState) (profile : String) (body : Bytes) : Type 0 where
    pub rt : ProfileRuntime
    pub ca : CertificateAuthority
    pub parsed : ParsedRequest
    pub enveloped : EnvelopedData
    pub csr : ParsedCsr
    pub profile_known : get profile state.profiles ≡ some rt
    pub ca_known : get rt.ca_id state.cas ≡ some ca
    pub authentic : parse_and_verify l.asn1 l.primitives l.decoders body ≡ ok parsed
    pub enrols : check_type parsed.message_type ≡ ok tt
    pub sealed : parsed.enveloped ≡ some enveloped
    pub opened : open_request l ca enveloped ≡ ok csr

  pub pki_operation-Opened :
      (state : AppState) (profile : String) (body : Bytes) (w : World)
      (o : Opened state profile body)
      → pki_operation l m state profile body w ≡ enrol l m state o.rt o.ca o.parsed o.csr w
  unfolding pki_operation answer_parsed answer_opened
  pki_operation-Opened state profile body w o =
      rw (o.profile_known, o.ca_known, o.authentic, o.enrols, o.sealed, o.opened) refl

  answer_parsed-cases :
      (state : AppState) (rt : ProfileRuntime) (ca : CertificateAuthority) (parsed : ParsedRequest)
      (w : World)
      → ((env : EnvelopedData) × (csr : ParsedCsr) × (check_type parsed.message_type ≡ ok tt)
          × (parsed.enveloped ≡ some env)
          × (open_request l ca env ≡ ok csr))
        ⊎ ((answer_parsed l m state rt ca parsed w).1 ≡ w)
  unfolding answer_parsed answer_opened
  answer_parsed-cases state rt ca parsed w = elim (Result-cases (check_type parsed.message_type)) [
    | inr (e, h) ↦ inr (rw h refl)
    | inl (_, h₁) ↦ elim (Option-cases parsed.enveloped) [
      | inl h ↦ inr (rw (h₁, h) refl)
      | inr (env, h₂) ↦ elim (Result-cases (open_request l ca env)) [
        | inr (e, h) ↦ inr (rw (h₁, h₂, h) refl)
        | inl (csr, h₃) ↦ inl (env, csr, h₁, h₂, h₃)
      ]
    ]
  ]

  -- Unless a request is authentic, an enrolment, and opens to a CSR under a configured profile,
  -- PKIOperation touches neither the database nor the network.
  pub pki_operation-untouched :
      (state : AppState) (profile : String) (body : Bytes) (w : World)
      → Opened state profile body ⊎ ((pki_operation l m state profile body w).1 ≡ w)
  unfolding pki_operation
  pki_operation-untouched state profile body w = elim (Option-cases (get profile state.profiles)) [
    | inl h ↦ inr (rw h refl)
    | inr (rt, h₁) ↦ elim (Option-cases (get rt.ca_id state.cas)) [
      | inl h ↦ inr (rw (h₁, h) refl)
      | inr (ca, h₂) ↦ elim (Result-cases (parse_and_verify l.asn1 l.primitives l.decoders body)) [
        | inr (e, h) ↦ inr (rw (h₁, h₂, h) refl)
        | inl (parsed, h₃) ↦ elim (answer_parsed-cases state rt ca parsed w) [
          | inr same ↦ inr (rw (h₁, h₂, h₃) same)
          | inl (env, csr, h₄, h₅, h₆) ↦ inl (record {
            rt = rt;
            ca = ca;
            parsed = parsed;
            enveloped = env;
            csr = csr;
            profile_known = h₁;
            ca_known = h₂;
            authentic = h₃;
            enrols = h₄;
            sealed = h₅;
            opened = h₆;
          })
        ]
      ]
    ]
  ]

  -- Everything that stood behind an enrolment, down to the row that it wrote.
  pub record Enrolled (state : AppState) (profile : String) (body : Bytes) (w : World)
      : Type 0 where
    pub request : Opened state profile body
    pub issued : Certificate
    pub issued_der : Bytes
    pub approved :
        (validate l.backend request.rt.validator (input_of request.parsed request.csr) w.net).0
        ≡ ok tt
    pub signed :
        issue l.asn1 l.extensions l.builder m.serial request.ca request.csr.req
          (issue_options state request.rt)
        ≡ ok issued
    pub encoded : l.asn1.encode_certificate issued ≡ ok issued_der

  -- A PKIOperation leaves the issued certificates as they are, or appends exactly one row, and then
  -- the profile and its CA are configured, the message was verified to be authentic and is an
  -- enrolment, its envelope opened to a CSR, the profile's validator approved this CSR and challenge
  -- password, the CA issued and encoded a certificate, and the row describes that certificate.
  pub pki_operation-gate :
      (state : AppState) (profile : String) (body : Bytes) (w : World)
      → ((pki_operation l m state profile body w).1.pool.issued_certificate
          ≡ w.pool.issued_certificate)
        ⊎ ((e : Enrolled state profile body w) × ((pki_operation l m state profile body
                w).1.pool.issued_certificate
              ≡ w.pool.issued_certificate
                ++ issued_row l m e.request.rt e.request.ca e.request.parsed e.issued e.issued_der
                  ∷ []))
  pki_operation-gate state profile body w = elim (pki_operation-untouched state profile body w) [
    | inr same ↦ inl (rw same refl)
    | inl o ↦
        let reached = pki_operation-Opened state profile body w o in
        elim (enrol-table l m state o.rt o.ca o.parsed o.csr w) [
          | inl kept ↦ inl (rw reached kept)
          | inr (approved, g) ↦ inr (
            record {
              request = o;
              issued = g.issued;
              issued_der = g.issued_der;
              approved = approved;
              signed = g.signed;
              encoded = g.encoded;
            },
            rw reached g.table,
          )
        ]
  ]
