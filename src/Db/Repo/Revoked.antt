-- ===== src/Db/Repo/Revoked.antt =====
-- The CRL's rows against the OCSP lookups: src/db/repo.rs answers both from one table.
use blapki.Prelude.{
  String, ◌≡◌, ◌↔◌, ◌⊎◌, inl, inr, false, List, [], ◌∷◌, ok, any, find, arith, eq_iff, Bool-cases,
}
use blapki.Db.{IssuedCertificate, Pool}
use blapki.Db.Repo.{
  has_serial, is_row_of, RevocationStatus, revoked, RevokedEntry, row_status, revoked_rows,
  list_revoked, status_by_serial,
}
use blapki.Db.Repo.Invariant.{SerialsDiffer, IsWellFormed}

abbrev pub Listed : RevokedEntry → List RevokedEntry → Type 0
Listed e [] = ⊥
Listed e (x ∷ xs) = (e ≡ x) ⊎ Listed e xs

not-Listed :
    (ca_id : String) (e : RevokedEntry) (rows : List IssuedCertificate)
    → any (has_serial e.serial) rows ≡ false
    → ¬ Listed e (revoked_rows ca_id rows)
unfolding revoked_rows
not-Listed ca_id e [] h l = l
not-Listed ca_id e (r ∷ rows) h l =
    ground (arith, not-Listed ca_id e rows, eq_iff r.serial e.serial)

pub Listed-row_status :
    (ca_id : String) (e : RevokedEntry) (rows : List IssuedCertificate)
    → SerialsDiffer rows
    → Listed e (revoked_rows ca_id rows)
      ↔ (row_status (find (is_row_of ca_id e.serial) rows) ≡ revoked e.revoked_at e.reason)
unfolding revoked_rows row_status
Listed-row_status ca_id e [] d = ground arith
Listed-row_status ca_id e (r ∷ rows) (d, ds) = elim (Bool-cases (is_row_of ca_id e.serial r)) [
  | inl here ↦ rw here (ground (arith, not-Listed ca_id e rows, eq_iff r.serial e.serial))
  | inr later ↦
      rw later (ground (arith, Listed-row_status ca_id e rows ds, eq_iff r.serial e.serial))
]

-- On well-formed tables, if a CRL query and an OCSP lookup are both answered, then the CRL rows of
-- a CA hold an entry exactly if the lookup of its serial reports that time and reason as revoked.
pub list_revoked-status_by_serial :
    (ca_id : String) (e : RevokedEntry) (p q : Pool) (entries : List RevokedEntry)
    (st : RevocationStatus)
    → IsWellFormed p
    → q.issued_certificate ≡ p.issued_certificate
    → (list_revoked ca_id p).0 ≡ ok entries
    → (status_by_serial ca_id e.serial q).0 ≡ ok st
    → Listed e entries ↔ (st ≡ revoked e.revoked_at e.reason)
unfolding list_revoked status_by_serial
list_revoked-status_by_serial ca_id e p q entries st w same h k =
    ground (arith, Listed-row_status ca_id e p.issued_certificate w.serials)
