-- ===== src/Db/Repo/Tables.antt =====
-- Lookups in the certificate table after an insertion or an update, on the rows alone.
use blapki.Prelude.{
  String, ◌≡◌, Bool, false, ◌&&◌, Option, none, some, List, [], ◌∷◌, ◌++◌, arith, any, find, ◌==◌,
  eq_iff, if◌then◌else◌, ℤ,
}
use blapki.Db.{IssuedCertificate}
use blapki.Db.Repo.{has_serial, is_row_of, set_revoked, revoke_rows, status_valid}

-- Appending a row shows it to its own lookup, and to no lookup that found a row before.
pub find-append {ℓ} :
    {A : Type ℓ} (p : A → Bool) (rows : List A) (row : A)
    → find p (rows ++ row ∷ [])
      ≡ (if any p rows then find p rows else (if p row then some row else none))
find-append p [] row = ground arith
find-append p (r ∷ rows) row = ground (arith, find-append p rows row)

pub find-none {ℓ} :
    {A : Type ℓ} (p : A → Bool) (rows : List A) → any p rows ≡ false → find p rows ≡ none
find-none p [] h = ground arith
find-none p (r ∷ rows) h = ground (arith, find-none p rows)

-- A row of one CA with a serial is a row with that serial.
pub any-is_row_of :
    (ca_id serial : String) (rows : List IssuedCertificate)
    → any (has_serial serial) rows ≡ false
    → any (is_row_of ca_id serial) rows ≡ false
any-is_row_of ca_id serial [] h = ground arith
any-is_row_of ca_id serial (r ∷ rows) h = ground (arith, any-is_row_of ca_id serial rows)

-- What `revoke` makes of the row that a lookup finds.
abbrev pub revoked_row : ℤ → String → IssuedCertificate → IssuedCertificate
revoked_row reason at row = if row.status == status_valid then set_revoked reason at row else row

abbrev pub map_row :
    (IssuedCertificate → IssuedCertificate) → Option IssuedCertificate → Option IssuedCertificate
map_row f none = none
map_row f (some row) = some (f row)

module _ (ca_id serial : String) (reason : ℤ) (at : String) where
  pub find-revoke_rows_self :
      (rows : List IssuedCertificate)
      → find (is_row_of ca_id serial) (revoke_rows ca_id serial reason at rows)
        ≡ map_row (revoked_row reason at) (find (is_row_of ca_id serial) rows)
  unfolding revoke_rows
  find-revoke_rows_self [] = ground arith
  find-revoke_rows_self (r ∷ rows) = ground (arith, find-revoke_rows_self rows)

  pub find-revoke_rows_ne :
      (ca' serial' : String) (rows : List IssuedCertificate)
      → (ca_id == ca' && serial == serial') ≡ false
      → find (is_row_of ca' serial') (revoke_rows ca_id serial reason at rows)
        ≡ find (is_row_of ca' serial') rows
  unfolding revoke_rows
  find-revoke_rows_ne ca' serial' [] h = ground arith
  find-revoke_rows_ne ca' serial' (r ∷ rows) h = ground (
    arith,
    find-revoke_rows_ne ca' serial' rows h,
    eq_iff r.ca_id ca_id,
    eq_iff r.ca_id ca',
    eq_iff ca_id ca',
    eq_iff r.serial serial,
    eq_iff r.serial serial',
    eq_iff serial serial',
  )
