-- ===== src/Db/Repo.antt =====
-- src/db/repo.rs: the statements over the two tables, one action for each function.
pub mod Tables
pub mod Invariant
pub mod Status
pub mod Revoked
pub mod Transactions
pub mod Reach
use blapki.Prelude.{
  ℕ, zero, suc, String, Bool, true, false, ◌&&◌, Option, none, some, List, [], ◌∷◌, ◌++◌, map, ok,
  err, any, find, ltb, is_some, ◌==◌, if◌then◌else◌, ℤ,
}
use blapki.Error.{AppError}
use blapki.Exec.{Exec, pure, raise, gets, ◌>>=◌, ◌>>◌}
use blapki.Db.{IssuedCertificate, Transaction, Pool, statement}

abbrev pub status_valid : String
status_valid = "valid"

abbrev pub status_revoked : String
status_revoked = "revoked"

-- The engine's text for a second row with one primary key.
abbrev pub duplicate_serial : AppError
duplicate_serial = AppError.database "UNIQUE constraint failed: issued_certificate.serial"

abbrev pub has_serial : String → IssuedCertificate → Bool
has_serial serial row = row.serial == serial

-- `WHERE ca_id = ? AND serial = ?`
abbrev pub is_row_of : String → String → IssuedCertificate → Bool
is_row_of ca_id serial row = row.ca_id == ca_id && row.serial == serial

insert_row : IssuedCertificate → Exec Pool Unit
insert_row cert p =
    if any (has_serial cert.serial) p.issued_certificate
    then (err duplicate_serial, p)
    else (ok tt, record p { issued_certificate = p.issued_certificate ++ cert ∷ [] })

unfoldable pub insert_issued : IssuedCertificate → Exec Pool Unit
unfolding insert_row statement
insert_issued cert = do statement; insert_row cert

-- The revocation status of a serial, for OCSP.
pub data RevocationStatus : Type 0 where
  good : RevocationStatus
  revoked : Option String → Option ℤ → RevocationStatus
  unknown : RevocationStatus

unfoldable pub row_status : Option IssuedCertificate → RevocationStatus
row_status none = unknown
row_status (some row) =
    if row.status == status_revoked then revoked row.revoked_at row.revocation_reason else good

unfoldable pub status_by_serial : String → String → Exec Pool RevocationStatus
unfolding statement row_status
status_by_serial ca_id serial = do
  statement
  row ← gets (λ p. find (is_row_of ca_id serial) p.issued_certificate)
  pure (row_status row)

-- A revoked entry for building a CRL.
pub record RevokedEntry : Type 0 where
  pub serial : String
  pub revoked_at : Option String
  pub reason : Option ℤ

abbrev pub entry_of : IssuedCertificate → RevokedEntry
entry_of row = record {
  serial = row.serial;
  revoked_at = row.revoked_at;
  reason = row.revocation_reason;
}

-- `WHERE ca_id = ? AND status = ?`, and the entry of each row
unfoldable pub revoked_rows : String → List IssuedCertificate → List RevokedEntry
revoked_rows ca_id [] = []
revoked_rows ca_id (row ∷ rows) =
    let rest = revoked_rows ca_id rows in
    if row.ca_id == ca_id && row.status == status_revoked then entry_of row ∷ rest else rest

unfoldable pub list_revoked : String → Exec Pool (List RevokedEntry)
unfolding statement revoked_rows
list_revoked ca_id = do statement; gets (λ p. revoked_rows ca_id p.issued_certificate)

-- `WHERE ca_id = ? AND serial = ? AND status = ?`
abbrev pub is_revocable : String → String → IssuedCertificate → Bool
is_revocable ca_id serial row = is_row_of ca_id serial row && row.status == status_valid

abbrev pub set_revoked : ℤ → String → IssuedCertificate → IssuedCertificate
set_revoked reason revoked_at row = record row {
  status = status_revoked;
  revoked_at = some revoked_at;
  revocation_reason = some reason;
}

unfoldable pub revoke_rows :
    String → String → ℤ → String → List IssuedCertificate → List IssuedCertificate
revoke_rows ca_id serial reason revoked_at [] = []
revoke_rows ca_id serial reason revoked_at (row ∷ rows) =
    (if is_revocable ca_id serial row then set_revoked reason revoked_at row else row)
    ∷ revoke_rows ca_id serial reason revoked_at rows

abbrev pub rows_affected : (IssuedCertificate → Bool) → List IssuedCertificate → ℕ
rows_affected p [] = 0
rows_affected p (row ∷ rows) = let rest = rows_affected p rows in if p row then suc rest else rest

update_revoked : String → String → ℤ → String → Exec Pool Bool
update_revoked ca_id serial reason revoked_at p = (
  ok (ltb 0 (rows_affected (is_revocable ca_id serial) p.issued_certificate)),
  record p { issued_certificate = revoke_rows ca_id serial reason revoked_at p.issued_certificate },
)

unfoldable pub revoke : String → String → ℤ → String → Exec Pool Bool
unfolding statement update_revoked
revoke ca_id serial reason revoked_at = do statement; update_revoked ca_id serial reason revoked_at

abbrev pub has_id : String → Transaction → Bool
has_id transaction_id row = row.transaction_id == transaction_id

unfoldable pub update_transactions : String → String → String → List Transaction → List Transaction
update_transactions transaction_id status message_type [] = []
update_transactions transaction_id status message_type (row ∷ rows) =
    (if has_id transaction_id row
      then record row { status = status; message_type = some message_type }
      else row)
    ∷ update_transactions transaction_id status message_type rows

-- `UPDATE scep_transaction SET status = ?, message_type = ? WHERE transaction_id = ?`
unfoldable pub update_transaction : String → String → String → Exec Pool Unit
unfolding statement update_transactions
update_transaction transaction_id status message_type = do
  statement
  λ p. (
    ok tt,
    record p {
      scep_transaction = update_transactions transaction_id status message_type p.scep_transaction;
    },
  )

abbrev pub duplicate_transaction : AppError
duplicate_transaction =
    AppError.database "UNIQUE constraint failed: scep_transaction.transaction_id"

insert_transaction_row : Transaction → Exec Pool Unit
insert_transaction_row row p =
    if any (has_id row.transaction_id) p.scep_transaction
    then (err duplicate_transaction, p)
    else (ok tt, record p { scep_transaction = p.scep_transaction ++ row ∷ [] })

-- `INSERT INTO scep_transaction …`
unfoldable pub insert_transaction : Transaction → Exec Pool Unit
unfolding statement insert_transaction_row
insert_transaction row = do statement; insert_transaction_row row

-- `SELECT transaction_id FROM scep_transaction WHERE transaction_id = ?`
unfoldable pub find_transaction : String → Exec Pool Bool
unfolding statement
find_transaction transaction_id = do
  statement
  gets (λ p. is_some (find (has_id transaction_id) p.scep_transaction))

unfoldable pub record_transaction : String → String → String → String → String → Exec Pool Unit
unfolding find_transaction update_transaction insert_transaction
record_transaction transaction_id profile status message_type created_at = do
  existing ← find_transaction transaction_id
  if existing
      then update_transaction transaction_id status message_type
      else insert_transaction (record {
        transaction_id = transaction_id;
        profile = some profile;
        status = status;
        message_type = some message_type;
        created_at = created_at;
      })
