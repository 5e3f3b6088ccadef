-- ===== src/Http/Router/Reads.antt =====
-- The requests of src/http that only read: the OCSP and CRL endpoints.
use blapki.Prelude.{
  ℕ, String, Option, ◌≡◌, refl, inl, inr, Option-cases, Result-cases, List, [], ◌∷◌, Bytes,
  as_bytes, arith,
}
use blapki.Db.{Pool}
use blapki.Db.Repo.{status_by_serial, list_revoked}
use blapki.Http.{AppState, get, World}
use blapki.Http.Ocsp.{
  OcspCodec, CertId, single_responses, build_response, respond, ocsp_post, ocsp_get,
}
use blapki.Http.Crl.{CrlCodec, build_crl, crl}

-- The tables are as they were; only the engine's coming answers may differ.
abbrev pub SameTables : Pool → Pool → Type 0
SameTables p q =
    (q.issued_certificate ≡ p.issued_certificate) × (q.scep_transaction ≡ p.scep_transaction)

-- Neither the tables nor the network are touched.
abbrev pub OnlyReads : World → World → Type 0
OnlyReads before after = SameTables before.pool after.pool × (after.net ≡ before.net)

status_by_serial-SameTables :
    (ca_id serial : String) (p : Pool) → SameTables p (status_by_serial ca_id serial p).1
unfolding status_by_serial
status_by_serial-SameTables ca_id serial p = ground arith

list_revoked-SameTables : (ca_id : String) (p : Pool) → SameTables p (list_revoked ca_id p).1
unfolding list_revoked
list_revoked-SameTables ca_id p = ground arith

module _ (c : OcspCodec) where
  single_responses-SameTables :
      (now : ℕ) (ca_id : String) (entries : List CertId) (p : Pool)
      → SameTables p (single_responses c now ca_id entries p).1
  unfolding single_responses
  single_responses-SameTables now ca_id [] p = (refl, refl)
  single_responses-SameTables now ca_id (entry ∷ entries) p =
      let serial = c.hex_encode entry.serial_number in
      ground (
        arith,
        status_by_serial-SameTables ca_id serial p,
        single_responses-SameTables now ca_id entries (status_by_serial ca_id serial p).1,
      )

  build_response-SameTables :
      (now : ℕ) (state : AppState) (ca_id : String) (der : Bytes) (p : Pool)
      → SameTables p (build_response c now state ca_id der p).1
  unfolding build_response
  build_response-SameTables now state ca_id der p = elim (Option-cases (get ca_id state.cas)) [
    | inl h ↦ rw h (refl, refl)
    | inr (ca, h) ↦ elim (Result-cases (c.decode_request der)) [
      | inr (e, k) ↦ rw (h, k) (refl, refl)
      | inl (request, k) ↦
          rw (h, k) (ground (arith, single_responses-SameTables now ca_id request.request_list p))
    ]
  ]

  respond-SameTables :
      (reason : ℕ → Option String) (now : ℕ) (state : AppState) (ca_id : String) (der : Bytes)
      (p : Pool)
      → SameTables p (respond c reason now state ca_id der p).1
  unfolding respond
  respond-SameTables reason now state ca_id der p =
      ground (arith, build_response-SameTables now state ca_id der p)

  pub ocsp_post-SameTables :
      (reason : ℕ → Option String) (now : ℕ) (state : AppState) (ca_id : String) (der : Bytes)
      (p : Pool)
      → SameTables p (ocsp_post c reason now state ca_id der p).1
  unfolding ocsp_post
  ocsp_post-SameTables reason now state ca_id der p =
      respond-SameTables reason now state ca_id der p

  pub ocsp_get-SameTables :
      (reason : ℕ → Option String) (now : ℕ) (state : AppState) (ca_id b64 : String) (p : Pool)
      → SameTables p (ocsp_get c reason now state ca_id b64 p).1
  unfolding ocsp_get
  ocsp_get-SameTables reason now state ca_id b64 p =
      elim (Result-cases (c.base64_decode (as_bytes b64))) [
        | inr (e, h) ↦ rw (h, ocsp_get) (refl, refl)
        | inl (der, h) ↦ rw (h, ocsp_get) (respond-SameTables reason now state ca_id der p)
      ]

module _ (c : CrlCodec) (now : ℕ) (state : AppState) (ca_id : String) (p : Pool) where
  build_crl-SameTables : SameTables p (build_crl c now state ca_id p).1
  unfolding build_crl
  build_crl-SameTables = elim (Option-cases (get ca_id state.cas)) [
    | inl h ↦ rw (h, build_crl) (refl, refl)
    | inr (ca, h) ↦ rw (h, build_crl) (ground (arith, list_revoked-SameTables ca_id p))
  ]

  pub crl-SameTables :
      (reason : ℕ → Option String) → SameTables p (crl c reason now state ca_id p).1
  unfolding crl
  crl-SameTables reason = ground (arith, build_crl-SameTables)
