-- ===== src/Db/Repo/Invariant.antt =====
-- The well-formedness of the tables, kept by every operation of src/db/repo.rs.
use blapki.Prelude.{
  String, ◌≡◌, ◌⊎◌, Bool, true, false, none, some, List, [], ◌∷◌, ◌++◌, any, arith, eq_iff, ℤ, All,
  All-append, is_some,
}
use blapki.Db.{IssuedCertificate, Transaction, Pool}
use blapki.Db.Repo.{
  has_serial, has_id, status_valid, status_revoked, insert_issued, revoke, revoke_rows,
  update_transactions, record_transaction,
}

-- A row is valid with no revocation data, or revoked with a time and a reason.
abbrev pub RowIsValid : IssuedCertificate → Type 0
RowIsValid row =
    (row.status ≡ status_valid) × (row.revoked_at ≡ none) × (row.revocation_reason ≡ none)

abbrev pub RowIsRevoked : IssuedCertificate → Type 0
RowIsRevoked row =
    (row.status ≡ status_revoked)
    × (is_some row.revoked_at ≡ true)
    × (is_some row.revocation_reason ≡ true)

abbrev pub RowIsOk : IssuedCertificate → Type 0
RowIsOk row = RowIsValid row ⊎ RowIsRevoked row

abbrev pub SerialsDiffer : List IssuedCertificate → Type 0
SerialsDiffer [] = Unit
SerialsDiffer (row ∷ rows) = (any (has_serial row.serial) rows ≡ false) × SerialsDiffer rows

abbrev pub IdsDiffer : List Transaction → Type 0
IdsDiffer [] = Unit
IdsDiffer (row ∷ rows) = (any (has_id row.transaction_id) rows ≡ false) × IdsDiffer rows

pub record IsWellFormed (p : Pool) : Type 0 where
  pub rows : All RowIsOk p.issued_certificate
  pub serials : SerialsDiffer p.issued_certificate
  pub ids : IdsDiffer p.scep_transaction

any-append {ℓ} :
    {A : Type ℓ} (p : A → Bool) (xs : List A) (x : A)
    → any p xs ≡ false
    → p x ≡ false
    → any p (xs ++ x ∷ []) ≡ false
any-append p [] x h k = ground arith
any-append p (y ∷ xs) x h k = ground (arith, any-append p xs x)

SerialsDiffer-append :
    (rows : List IssuedCertificate) (cert : IssuedCertificate)
    → SerialsDiffer rows
    → any (has_serial cert.serial) rows ≡ false
    → SerialsDiffer (rows ++ cert ∷ [])
SerialsDiffer-append [] cert d h = ground arith
SerialsDiffer-append (r ∷ rows) cert (d, ds) h = ground (
  arith,
  SerialsDiffer-append rows cert ds,
  any-append (has_serial r.serial) rows cert d,
  eq_iff cert.serial r.serial,
  eq_iff r.serial cert.serial,
)

IdsDiffer-append :
    (rows : List Transaction) (row : Transaction)
    → IdsDiffer rows
    → any (has_id row.transaction_id) rows ≡ false
    → IdsDiffer (rows ++ row ∷ [])
IdsDiffer-append [] row d h = ground arith
IdsDiffer-append (r ∷ rows) row (d, ds) h = ground (
  arith,
  IdsDiffer-append rows row ds,
  any-append (has_id r.transaction_id) rows row d,
  eq_iff row.transaction_id r.transaction_id,
  eq_iff r.transaction_id row.transaction_id,
)

module _ (ca_id serial : String) (reason : ℤ) (at : String) where
  any-revoke_rows :
      (s : String) (rows : List IssuedCertificate)
      → any (has_serial s) (revoke_rows ca_id serial reason at rows) ≡ any (has_serial s) rows
  unfolding revoke_rows
  any-revoke_rows s [] = ground arith
  any-revoke_rows s (r ∷ rows) = ground (arith, any-revoke_rows s rows)

  SerialsDiffer-revoke_rows :
      (rows : List IssuedCertificate)
      → SerialsDiffer rows
      → SerialsDiffer (revoke_rows ca_id serial reason at rows)
  unfolding revoke_rows
  SerialsDiffer-revoke_rows [] d = tt
  SerialsDiffer-revoke_rows (r ∷ rows) (d, ds) =
      ground (arith, any-revoke_rows r.serial rows, SerialsDiffer-revoke_rows rows ds)

  All-revoke_rows :
      (rows : List IssuedCertificate)
      → All RowIsOk rows
      → All RowIsOk (revoke_rows ca_id serial reason at rows)
  unfolding revoke_rows
  All-revoke_rows [] h = tt
  All-revoke_rows (r ∷ rows) (h, hs) = ground (arith, All-revoke_rows rows hs)

any-update_transactions :
    (id status message_type s : String) (rows : List Transaction)
    → any (has_id s) (update_transactions id status message_type rows) ≡ any (has_id s) rows
unfolding update_transactions
any-update_transactions id status message_type s [] = ground arith
any-update_transactions id status message_type s (r ∷ rows) =
    ground (arith, any-update_transactions id status message_type s rows)

IdsDiffer-update_transactions :
    (id status message_type : String) (rows : List Transaction)
    → IdsDiffer rows
    → IdsDiffer (update_transactions id status message_type rows)
unfolding update_transactions
IdsDiffer-update_transactions id status message_type [] d = tt
IdsDiffer-update_transactions id status message_type (r ∷ rows) (d, ds) = ground (
  arith,
  any-update_transactions id status message_type r.transaction_id rows,
  IdsDiffer-update_transactions id status message_type rows ds,
)

pub insert_issued-IsWellFormed :
    (cert : IssuedCertificate) {p : Pool}
    → RowIsOk cert
    → IsWellFormed p
    → IsWellFormed (insert_issued cert p).1
unfolding insert_issued
insert_issued-IsWellFormed cert {p} h w = ground (
  arith,
  SerialsDiffer-append p.issued_certificate cert w.serials,
  All-append RowIsOk p.issued_certificate (cert ∷ []) w.rows (h, tt),
)

pub revoke-IsWellFormed :
    (ca_id serial : String) (reason : ℤ) (at : String) {p : Pool}
    → IsWellFormed p
    → IsWellFormed (revoke ca_id serial reason at p).1
unfolding revoke
revoke-IsWellFormed ca_id serial reason at {p} w = ground (
  arith,
  SerialsDiffer-revoke_rows ca_id serial reason at p.issued_certificate w.serials,
  All-revoke_rows ca_id serial reason at p.issued_certificate w.rows,
)

pub record_transaction-IsWellFormed :
    (id profile status message_type created_at : String) {p : Pool}
    → IsWellFormed p
    → IsWellFormed (record_transaction id profile status message_type created_at p).1
unfolding record_transaction
record_transaction-IsWellFormed id profile status message_type created_at {p} w = ground (
  arith,
  IdsDiffer-update_transactions id status message_type p.scep_transaction w.ids,
  IdsDiffer-append p.scep_transaction
      (record {
        transaction_id = id;
        profile = some profile;
        status = status;
        message_type = some message_type;
        created_at = created_at;
      })
      w.ids,
)
