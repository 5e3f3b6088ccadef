-- ===== src/Examples/Rows.antt =====
-- Runs of src/db/repo.rs.
use blapki.Prelude.{
  String, ◌≡◌, refl, ◌↔◌, ◌⊎◌, Bool, true, ◌&&◌, none, some, ok, List, [], ◌∷◌, ◌==◌, if◌then◌else◌,
  inl, inr, pos,
}
use blapki.Db.{IssuedCertificate, Pool}
use blapki.Db.Repo.{
  RevokedEntry, good, revoked, row_status, insert_issued, status_by_serial, list_revoked, revoke,
  record_transaction, status_valid,
}
use blapki.Db.Schema.{Database, connect}
use blapki.Db.Schema.Restart.{Connected, connect-Connected}
use blapki.Db.Repo.Invariant.{IsWellFormed}
use blapki.Db.Repo.Status.{status_view, status_view-insert_issued, revoke-status_view}
use blapki.Db.Repo.Revoked.{Listed, list_revoked-status_by_serial}
use blapki.Db.Repo.Transactions.{transaction_view, upsert, record_transaction-upsert}
use blapki.Db.Repo.Reach.{
  Call, insert, revoke_serial, record_id, apply_all, apply_all-IsWellFormed, apply_all-revoked,
  tables, failed_call_keeps_tables,
}

abbrev row : String → IssuedCertificate
row serial = record {
  serial = serial;
  ca_id = "ca";
  subject = "CN=device";
  not_before = "2026";
  not_after = "2027";
  der_b64 = "";
  thumbprint_sha1 = "";
  transaction_id = some "txn";
  profile = some "wifi";
  status = status_valid;
  created_at = "now";
  revoked_at = none;
  revocation_reason = none;
}

abbrev empty : Pool
empty = record { issued_certificate = []; scep_transaction = []; outages = [] }

-- One valid certificate; the second statement from now fails.
abbrev one : Pool
one = record empty { issued_certificate = row "0a" ∷ []; outages = none ∷ some "down" ∷ [] }

one-IsWellFormed : IsWellFormed one
one-IsWellFormed = record { rows = (inl (refl, refl, refl), tt); serials = (refl, tt); ids = tt }

-- The same after its revocation.
abbrev two : Pool
two = record empty {
  issued_certificate =
      record (row "0a") {
        status = "revoked";
        revoked_at = some "then";
        revocation_reason = some (pos 1);
      }
      ∷ [];
}

abbrev calls : List Call
calls =
    revoke_serial "ca" "0a" (pos 1) "then"
    ∷ insert (row "0b")
    ∷ record_id "txn" "wifi" "issued" "PKCSReq" "now"
    ∷ revoke_serial "ca" "0a" (pos 4) "later"
    ∷ []

apply_all-IsWellFormed_example : IsWellFormed (apply_all one calls)
apply_all-IsWellFormed_example =
    apply_all-IsWellFormed one calls one-IsWellFormed (tt, (inl (refl, refl, refl), (tt, (tt, tt))))

apply_all-revoked_example :
    status_view (apply_all two calls) "ca" "0a" ≡ revoked (some "then") (some (pos 1))
unfolding status_view
apply_all-revoked_example = apply_all-revoked two calls "ca" "0a" (some "then") (some (pos 1)) refl

status_view-insert_issued_example : status_view (insert_issued (row "0b") one).1 "ca" "0b" ≡ (
    if ("ca" == "ca") && ("0b" == "0b")
    then row_status (some (row "0b"))
    else status_view one "ca" "0b")
unfolding insert_issued
status_view-insert_issued_example = status_view-insert_issued (row "0b") "ca" "0b" one refl

revoke-status_view_example :
    ((true ≡ true) ↔ (status_view one "ca" "0a" ≡ good))
    × (status_view (revoke "ca" "0a" (pos 1) "then" one).1 "ca" "0a"
        ≡ (if true then revoked (some "then") (some (pos 1)) else status_view one "ca" "0a"))
unfolding revoke
revoke-status_view_example =
    revoke-status_view "ca" "0a" (pos 1) "then" one true one-IsWellFormed refl

abbrev entry : RevokedEntry
entry = record { serial = "0a"; revoked_at = some "then"; reason = some (pos 1) }

two-IsWellFormed : IsWellFormed two
two-IsWellFormed = record { rows = (inr (refl, refl, refl), tt); serials = (refl, tt); ids = tt }

list_revoked-status_by_serial_example :
    Listed entry (entry ∷ [])
    ↔ (revoked (some "then") (some (pos 1)) ≡ revoked entry.revoked_at entry.reason)
unfolding list_revoked status_by_serial
list_revoked-status_by_serial_example =
    list_revoked-status_by_serial "ca" entry two two (entry ∷ [])
      (revoked (some "then") (some (pos 1))) two-IsWellFormed refl refl refl

record_transaction-upsert_example :
    transaction_view (record_transaction "txn" "wifi" "failed" "PKCSReq" "now" empty).1 "txn" ≡ (
      if "txn" == "txn"
      then upsert "txn" "wifi" "failed" "PKCSReq" "now" (transaction_view empty "txn")
      else transaction_view empty "txn")
unfolding record_transaction
record_transaction-upsert_example =
    record_transaction-upsert "txn" "wifi" "failed" "PKCSReq" "now" "txn" empty refl

failed_call_keeps_tables_example :
    (((insert_issued (row "0a") one).0 ≡ ok tt)
      ⊎ (tables (insert_issued (row "0a") one).1 ≡ tables one))
    × (((done : Bool) × ((revoke "ca" "0a" (pos 1) "then" one).0 ≡ ok done))
        ⊎ (tables (revoke "ca" "0a" (pos 1) "then" one).1 ≡ tables one))
    × (((record_transaction "txn" "wifi" "failed" "PKCSReq" "now" one).0 ≡ ok tt)
        ⊎ (tables (record_transaction "txn" "wifi" "failed" "PKCSReq" "now" one).1 ≡ tables one))
failed_call_keeps_tables_example =
    failed_call_keeps_tables one (row "0a") "ca" "0a" (pos 1) "then" "txn" "wifi" "failed" "PKCSReq"
      "now"

-- One table is there, with a row; the second statement fails.
abbrev half : Database
half = record {
  issued_certificate = some (row "0a" ∷ []);
  scep_transaction = none;
  outages = none ∷ some "down" ∷ [];
}

connect-Connected_example : Connected half (connect (ok tt) half).1 (connect (ok tt) half).0
connect-Connected_example = connect-Connected (ok tt) half
