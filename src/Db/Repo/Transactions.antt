-- ===== src/Db/Repo/Transactions.antt =====
-- `record_transaction` of src/db/repo.rs: an update or an insertion by transaction id.
use blapki.Prelude.{
  Option-cases, inl, inr, String, ◌≡◌, Bool, false, Option, none, some, List, [], ◌∷◌, ok, any,
  find, arith, ◌==◌, eq_iff, if◌then◌else◌,
}
use blapki.Db.{Transaction, Pool}
use blapki.Db.Repo.{has_id, update_transactions, record_transaction}
use blapki.Db.Repo.Tables.{find-append, find-none}

-- The row of a transaction, if there is one.
abbrev pub transaction_view : Pool → String → Option Transaction
transaction_view p id = find (has_id id) p.scep_transaction

-- The abstract effect: the first record of an id fixes its profile and its time, a later one
-- changes its status and its message type.
abbrev pub upsert :
    String → String → String → String → String → Option Transaction → Option Transaction
upsert id profile status message_type created_at none = some (record {
  transaction_id = id;
  profile = some profile;
  status = status;
  message_type = some message_type;
  created_at = created_at;
})
upsert id profile status message_type created_at (some row) =
    some (record row { status = status; message_type = some message_type })

find-any {ℓ} : {A : Type ℓ} (p : A → Bool) (xs : List A) → find p xs ≡ none → any p xs ≡ false
find-any p [] h = ground arith
find-any p (x ∷ xs) h = ground (arith, find-any p xs)

abbrev map_status : String → String → Option Transaction → Option Transaction
map_status status message_type none = none
map_status status message_type (some row) =
    some (record row { status = status; message_type = some message_type })

find-update_transactions :
    (id status message_type j : String) (rows : List Transaction)
    → find (has_id j) (update_transactions id status message_type rows) ≡ (
        if id == j
        then map_status status message_type (find (has_id j) rows)
        else find (has_id j) rows)
unfolding update_transactions
find-update_transactions id status message_type j [] = ground arith
find-update_transactions id status message_type j (r ∷ rows) = ground (
  arith,
  find-update_transactions id status message_type j rows,
  eq_iff r.transaction_id id,
  eq_iff r.transaction_id j,
  eq_iff id j,
)

-- While the engine serves its statements, every record is accepted.
pub record_transaction-up :
    (id profile status message_type created_at : String) (p : Pool)
    → p.outages ≡ []
    → (record_transaction id profile status message_type created_at p).0 ≡ ok tt
unfolding record_transaction
record_transaction-up id profile status message_type created_at p up =
    elim (Option-cases (find (has_id id) p.scep_transaction)) [
      | inl missing ↦ ground (arith, find-any (has_id id) p.scep_transaction missing)
      | inr (row, found) ↦ ground arith
    ]

-- A record that is accepted upserts the row of its own transaction and leaves the row of every
-- other transaction as it was.
pub record_transaction-upsert :
    (id profile status message_type created_at j : String) (p : Pool)
    → (record_transaction id profile status message_type created_at p).0 ≡ ok tt
    → transaction_view (record_transaction id profile status message_type created_at p).1 j ≡ (
        if id == j
        then upsert id profile status message_type created_at (transaction_view p j)
        else transaction_view p j)
unfolding record_transaction
record_transaction-upsert id profile status message_type created_at j p h = ground (
  arith,
  find-update_transactions id status message_type j p.scep_transaction,
  find-append (has_id j) p.scep_transaction (record {
    transaction_id = id;
    profile = some profile;
    status = status;
    message_type = some message_type;
    created_at = created_at;
  }),
  find-any (has_id id) p.scep_transaction,
  find-none (has_id j) p.scep_transaction,
  eq_iff id j,
)
