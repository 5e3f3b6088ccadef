-- ===== src/Http/Crl/Listed.antt =====
-- Which certificates a list of src/http/crl.rs names.
use blapki.Prelude.{
  ℕ, ◌≡◌, ◌↔◌, inl, inr, ok, List, [], ◌∷◌, Bytes, Some, Result-cases, >>=-eq-ok, ◌>>=◌, arith,
}
use blapki.Db.Repo.{RevokedEntry}
use blapki.Http.Crl.{CrlCodec, RevokedCert, serial_of, revocation_date, revoked_certs}

module _ (c : CrlCodec) where
  revoked_certs-ok :
      (now : ℕ) (row : RevokedEntry) (rows : List RevokedEntry) (certs : List RevokedCert)
      (s : Bytes)
      → serial_of c row ≡ ok s
      → revoked_certs c now (row ∷ rows) ≡ ok certs
      → (revocation_date c now row.revoked_at >>= λ date. revoked_certs c now rows >>= λ rest.
          ok (record { serial_number = s; revocation_date = date } ∷ rest))
        ≡ ok certs
  unfolding revoked_certs
  revoked_certs-ok now row rows certs s f h = rw (f, revoked_certs) at h

  -- The certificates of a CRL are those of the revoked rows: a serial number is on the list exactly
  -- when some row has it as its serial, and rows whose serial is not a serial number are left out.
  pub revoked_certs_iff :
      (now : ℕ) (rows : List RevokedEntry) (certs : List RevokedCert) (serial : Bytes)
      → revoked_certs c now rows ≡ ok certs
      → Some (λ (r : RevokedCert). r.serial_number ≡ serial) certs
        ↔ Some (λ row. serial_of c row ≡ ok serial) rows
  unfolding revoked_certs
  revoked_certs_iff now [] certs serial h = ground arith
  revoked_certs_iff now (row ∷ rows) certs serial h = elim (Result-cases (serial_of c row)) [
    | inr (e, f) ↦ ground (arith, revoked_certs_iff now rows certs serial (ground arith))
    | inl (s, f) ↦
        let (date, _, h₁) =
          >>=-eq-ok (revocation_date c now row.revoked_at) _
            (revoked_certs-ok now row rows certs s f h) in
        let (rest, e, h₂) = >>=-eq-ok (revoked_certs c now rows) _ h₁ in
        ground (arith, revoked_certs_iff now rows rest serial e)
  ]
