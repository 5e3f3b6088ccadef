-- ===== src/Http/Scep/Oracle.antt =====
-- What an answer of src/http/scep.rs tells of the private key of the CA.
use blapki.Error.{AppError, AppResult}
use blapki.Scep.Attributes.{FailInfo}
use blapki.Prelude.{
  String, err, ◌⊎◌, ◌≡◌, refl, inl, inr, Option-cases, Result-cases, some, Result, Option, ok,
  Bytes,
}
use blapki.Crates.{Cipher}
use blapki.Crypto.{rsa_public_key_from_spki}
use blapki.Crypto.Verify.{ParsedRequest, verify_rsa, digest, parse_and_verify}
use blapki.Ca.Authority.{CertificateAuthority}
use blapki.Http.{ProfileRuntime, AppState, get, World, Libraries, Moment}
use blapki.Http.Replies.{check_type, open_request, build_failure}
use blapki.Http.Scep.{answer_opened, answer_parsed, pki_operation}
use blapki.Http.Scep.Gate.{Opened, pki_operation-untouched}

-- The same crates, but for what the opening of an envelope makes of its secrets: the unwrapping of
-- the key, the synthetic key, and the decryption of the content.
abbrev pub with_opening :
    (Bytes → Bytes → Result String Bytes)
    → (Bytes → Bytes → Bytes)
    → (Cipher → Bytes → Bytes → Bytes → Option Bytes)
    → Libraries
    → Libraries
with_opening rsa_decrypt hmac_sha256 cbc_decrypt l = record l {
  primitives = record l.primitives {
    rsa_decrypt = rsa_decrypt;
    hmac_sha256 = hmac_sha256;
    cbc_decrypt = cbc_decrypt;
  };
}

-- A message that is authentic is refused by the reply badMessageCheck of the CA of its profile.
pub record BadMessageCheck (l : Libraries) (m : Moment) (state : AppState) (profile : String)
    (body : Bytes) (answer : AppResult Bytes) : Type 0 where
  pub rt : ProfileRuntime
  pub ca : CertificateAuthority
  pub parsed : ParsedRequest
  pub profile_known : get profile state.profiles ≡ some rt
  pub ca_known : get rt.ca_id state.cas ≡ some ca
  pub authentic : parse_and_verify l.asn1 l.primitives l.decoders body ≡ ok parsed
  pub told : answer ≡ build_failure l m ca parsed FailInfo.bad_message_check

-- An error, or the reply badMessageCheck.
abbrev pub Shut : Libraries → Moment → AppState → String → Bytes → AppResult Bytes → Type 0
Shut l m state profile body answer =
    ((e : AppError) × (answer ≡ err e)) ⊎ BadMessageCheck l m state profile body answer

module _ (l : Libraries) (m : Moment) (state : AppState) (profile : String) (body : Bytes)
    (w : World) (shut : Opened l m state profile body → ⊥) where
  answer_parsed-Shut :
      (rt : ProfileRuntime) (ca : CertificateAuthority) (parsed : ParsedRequest)
      → get profile state.profiles ≡ some rt
      → get rt.ca_id state.cas ≡ some ca
      → parse_and_verify l.asn1 l.primitives l.decoders body ≡ ok parsed
      → Shut l m state profile body (answer_parsed l m state rt ca parsed w).0
  unfolding answer_parsed answer_opened
  answer_parsed-Shut rt ca parsed p c v = elim (Result-cases (check_type parsed.message_type)) [
    | inr (e, h) ↦ inl (e, rw h refl)
    | inl (_, t) ↦ elim (Option-cases parsed.enveloped) [
      | inl h ↦ rw (t, h) (inl (_, refl))
      | inr (env, s) ↦ elim (Result-cases (open_request l ca env)) [
        | inr (e, h) ↦ inr (record {
          rt = rt;
          ca = ca;
          parsed = parsed;
          profile_known = p;
          ca_known = c;
          authentic = v;
          told = rw (t, s, h) refl;
        })
        | inl (csr, o) ↦ absurd (
            shut (record {
              rt = rt;
              ca = ca;
              parsed = parsed;
              enveloped = env;
              csr = csr;
              profile_known = p;
              ca_known = c;
              authentic = v;
              enrols = t;
              sealed = s;
              opened = o;
            }))
      ]
    ]
  ]

  pki_operation-Shut : Shut l m state profile body (pki_operation l m state profile body w).0
  unfolding pki_operation
  pki_operation-Shut = elim (Option-cases (get profile state.profiles)) [
    | inl h ↦ rw h (inl (_, refl))
    | inr (rt, p) ↦ elim (Option-cases (get rt.ca_id state.cas)) [
      | inl h ↦ rw (p, h) (inl (_, refl))
      | inr (ca, c) ↦ elim (Result-cases (parse_and_verify l.asn1 l.primitives l.decoders body)) [
        | inr (e, h) ↦ inl (e, rw (p, c, h) refl)
        | inl (parsed, v) ↦ rw (p, c, v) (answer_parsed-Shut rt ca parsed p c v)
      ]
    ]
  ]

module _ (l : Libraries) (m : Moment) (rsa_decrypt : Bytes → Bytes → Result String Bytes)
    (hmac_sha256 : Bytes → Bytes → Bytes)
    (cbc_decrypt : Cipher → Bytes → Bytes → Bytes → Option Bytes) where
  abbrev other : Libraries
  other = with_opening rsa_decrypt hmac_sha256 cbc_decrypt l

  parse_and_verify-same :
      (body : Bytes)
      → parse_and_verify other.asn1 other.primitives other.decoders body
        ≡ parse_and_verify l.asn1 l.primitives l.decoders body
  unfolding parse_and_verify verify_rsa digest rsa_public_key_from_spki
  parse_and_verify-same body = refl

  module _ (state : AppState) (profile : String) (body : Bytes) (w : World)
      (shut : Opened l m state profile body → ⊥)
      (shut' : Opened other m state profile body → ⊥) where
    answer_parsed-same :
        (rt : ProfileRuntime) (ca : CertificateAuthority) (parsed : ParsedRequest)
        → get profile state.profiles ≡ some rt
        → get rt.ca_id state.cas ≡ some ca
        → parse_and_verify l.asn1 l.primitives l.decoders body ≡ ok parsed
        → answer_parsed l m state rt ca parsed w ≡ answer_parsed other m state rt ca parsed w
    unfolding answer_parsed answer_opened build_failure
    answer_parsed-same rt ca parsed p c v = elim (Result-cases (check_type parsed.message_type)) [
      | inr (e, h) ↦ rw h refl
      | inl (_, t) ↦ elim (Option-cases parsed.enveloped) [
        | inl h ↦ rw (t, h) refl
        | inr (env, s) ↦ elim (Result-cases (open_request l ca env)) [
          | inl (csr, o) ↦ absurd (
              shut (record {
                rt = rt;
                ca = ca;
                parsed = parsed;
                enveloped = env;
                csr = csr;
                profile_known = p;
                ca_known = c;
                authentic = v;
                enrols = t;
                sealed = s;
                opened = o;
              }))
          | inr (e, h) ↦ elim (Result-cases (open_request other ca env)) [
            | inl (csr, o) ↦ absurd (
                shut' (record {
                  rt = rt;
                  ca = ca;
                  parsed = parsed;
                  enveloped = env;
                  csr = csr;
                  profile_known = p;
                  ca_known = c;
                  authentic = rw (parse_and_verify-same body) v;
                  enrols = t;
                  sealed = s;
                  opened = o;
                }))
            | inr (e', h') ↦ rw (t, s, h, h') refl
          ]
        ]
      ]
    ]

    -- Take any message that does not open to a CSR, neither with these crates nor with others that
    -- differ in what the unwrapping of the key, the synthetic key and the decryption of the content
    -- give. The answers are the same, an error or the reply badMessageCheck to an authentic message,
    -- and neither the database nor the network is touched.
    pub pki_operation-no_oracle :
        (pki_operation l m state profile body w ≡ pki_operation other m state profile body w)
        × Shut l m state profile body (pki_operation l m state profile body w).0
        × ((pki_operation l m state profile body w).1 ≡ w)
    unfolding pki_operation
    pki_operation-no_oracle = (
      elim (Option-cases (get profile state.profiles)) [
        | inl h ↦ rw h refl
        | inr (rt, p) ↦ elim (Option-cases (get rt.ca_id state.cas)) [
          | inl h ↦ rw (p, h) refl
          | inr (ca, c) ↦
              elim (Result-cases (parse_and_verify l.asn1 l.primitives l.decoders body)) [
                | inr (e, h) ↦ rw (p, c, parse_and_verify-same body, h) refl
                | inl (parsed, v) ↦
                    rw (p, c, parse_and_verify-same body, v) (answer_parsed-same rt ca parsed p c v)
              ]
        ]
      ],
      pki_operation-Shut l m state profile body w shut,
      elim (pki_operation-untouched l m state profile body w) [
        | inl o ↦ absurd (shut o)
        | inr same ↦ same
      ],
    )
