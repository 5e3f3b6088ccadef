-- ===== src/Http/Crl.antt =====
-- src/http/crl.rs: the certificate revocation list.
--
-- A `SystemTime` is a number of seconds since the epoch. `CrlCodec` has the crates' functions on
-- times, serial numbers and signatures.
pub mod Listed
use blapki.Prelude.{
  ℕ, ◌+◌, String, Option, none, some, Result, ok, err, List, [], ◌∷◌, Bytes, format, map_err,
  map_ok, ok_or, ltb, and_then, ◌>>=◌, if◌then◌else◌,
}
use blapki.Prelude
use blapki.Error.{AppError, AppResult, Response, into_response}
use blapki.Exec
use blapki.Exec.{Exec}
use blapki.Db.{Pool}
use blapki.Db.Repo.{RevokedEntry, list_revoked}
use blapki.Crates.{AlgorithmIdentifier, DateTime}
use blapki.Ca.Authority.{CertificateAuthority}
use blapki.Http.{AppState, get, bytes_response}

abbrev pub ct_crl : String
ct_crl = "application/pkix-crl"

abbrev pub crl_lifetime_secs : ℕ
crl_lifetime_secs = 86400

pub data Time : Type 0 where
  utc_time : DateTime → Time
  general_time : DateTime → Time

pub record RevokedCert : Type 0 where
  pub serial_number : Bytes
  pub revocation_date : Time

pub record TbsCertList : Type 0 where
  pub signature : AlgorithmIdentifier
  pub issuer : Bytes
  pub this_update : Time
  pub next_update : Option Time
  pub revoked_certificates : Option (List RevokedCert)

pub record CertificateList : Type 0 where
  pub tbs_cert_list : TbsCertList
  pub signature_algorithm : AlgorithmIdentifier
  pub signature : Bytes

pub record CrlCodec : Type 0 where
  pub hex_decode : String → Result String Bytes
  pub new_serial : Bytes → Result String Bytes
  pub parse_rfc3339 : String → Option ℕ
  pub from_system_time : ℕ → Result String DateTime
  pub utc_from_date_time : DateTime → Result String DateTime
  pub signature_algorithm : Bytes → Result String AlgorithmIdentifier
  pub encode_tbs : TbsCertList → Result String Bytes
  pub try_sign : Bytes → Bytes → Result String Bytes
  pub to_bitstring : Bytes → Result String Bytes
  pub encode_crl : CertificateList → Result String Bytes

module _ (c : CrlCodec) where
  unfoldable pub to_time : ℕ → AppResult Time
  to_time st = do
    dt ← map_err (λ e. AppError.crypto (format ("bad time: " ∷ e ∷ []))) (c.from_system_time st)
    if ltb dt.year 2050
        then map_ok utc_time (
            map_err (λ e. AppError.crypto (format ("utc time: " ∷ e ∷ [])))
              (c.utc_from_date_time dt))
        else ok (general_time dt)

  -- `.map(to_time).transpose()?.unwrap_or(to_time(now)?)`: the default is computed in any case.
  unfoldable pub or_now : ℕ → Option ℕ → AppResult Time
  or_now now none = to_time now
  or_now now (some st) = do time ← to_time st; default ← to_time now; ok time

  unfoldable pub revocation_date : ℕ → Option String → AppResult Time
  unfolding or_now
  revocation_date now revoked_at = or_now now (and_then revoked_at c.parse_rfc3339)

  -- The serial number of a row, if it is one.
  unfoldable pub serial_of : RevokedEntry → Result String Bytes
  serial_of row = c.hex_decode row.serial >>= λ bytes. c.new_serial bytes

  unfoldable pub revoked_certs : ℕ → List RevokedEntry → AppResult (List RevokedCert)
  unfolding serial_of revocation_date
  revoked_certs now [] = ok []
  revoked_certs now (row ∷ rows) = elim (serial_of row) [
    | err _ ↦ revoked_certs now rows
    | ok serial_number ↦ do
      date ← revocation_date now row.revoked_at
      rest ← revoked_certs now rows
      ok (record { serial_number = serial_number; revocation_date = date } ∷ rest)
  ]

  abbrev none_if_empty : List RevokedCert → Option (List RevokedCert)
  none_if_empty [] = none
  none_if_empty (r ∷ rs) = some (r ∷ rs)

  -- The list that is signed.
  unfoldable pub tbs_of :
      ℕ → CertificateAuthority → AlgorithmIdentifier → List RevokedCert → AppResult TbsCertList
  unfolding to_time
  tbs_of now ca algorithm revoked_certificates = do
    this_update ← to_time now
    next_update ← to_time (now + crl_lifetime_secs)
    ok (record {
      signature = algorithm;
      issuer = ca.cert.subject;
      this_update = this_update;
      next_update = some next_update;
      revoked_certificates = none_if_empty revoked_certificates;
    })

  unfoldable pub sign_crl :
      CertificateAuthority → AlgorithmIdentifier → TbsCertList → AppResult Bytes
  sign_crl ca algorithm tbs = do
    tbs_der ←
        map_err (λ e. AppError.crypto (format ("encode TBS CRL: " ∷ e ∷ []))) (c.encode_tbs tbs)
    signed ←
        map_err (λ e. AppError.crypto (format ("sign CRL: " ∷ e ∷ [])))
          (c.try_sign ca.private_key tbs_der)
    signature ←
        map_err (λ e. AppError.crypto (format ("encode CRL signature: " ∷ e ∷ [])))
          (c.to_bitstring signed)
    map_err (λ e. AppError.crypto (format ("encode CRL: " ∷ e ∷ [])))
        (c.encode_crl
          (record { tbs_cert_list = tbs; signature_algorithm = algorithm; signature = signature }))

  -- From the rows to the DER.
  unfoldable pub crl_of : ℕ → CertificateAuthority → List RevokedEntry → AppResult Bytes
  unfolding revoked_certs tbs_of sign_crl
  crl_of now ca rows = do
    certs ← revoked_certs now rows
    algorithm ←
        map_err (λ e. AppError.crypto (format ("CRL signature alg: " ∷ e ∷ [])))
          (c.signature_algorithm ca.private_key)
    tbs ← tbs_of now ca algorithm certs
    sign_crl ca algorithm tbs

  unfoldable pub build_crl : ℕ → AppState → String → Exec Pool Bytes
  build_crl now state ca_id =
      Exec.◌>>=◌
        (Exec.lift (
          ok_or (AppError.not_found (format ("unknown CA '" ∷ ca_id ∷ "'" ∷ [])))
            (get ca_id state.cas)))
        (λ ca. Exec.◌>>=◌ (list_revoked ca_id) (λ rows. Exec.lift (crl_of now ca rows)))

  -- `crl`: an error becomes a response here.
  unfoldable pub crl : (ℕ → Option String) → ℕ → AppState → String → Pool → Response × Pool
  crl canonical_reason now state ca_id p =
      let (r, q) = build_crl now state ca_id p in
      elim r [
        | ok der ↦ (bytes_response ct_crl der, q)
        | err e ↦ (into_response canonical_reason e, q)
      ]
