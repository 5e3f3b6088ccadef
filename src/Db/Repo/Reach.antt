-- ===== src/Db/Repo/Reach.antt =====
-- Any sequence of calls of src/db/repo.rs, the engine's failures included.
use blapki.Prelude.{
  String, ◌≡◌, Bool, ◌&&◌, Option, none, some, ◌⊎◌, List, [], ◌∷◌, ok, find, arith, ◌==◌, eq_iff, ℤ,
  All, Bool-cases, Option-cases, Result-cases, inl, inr, ◌++◌,
}
use blapki.Db.{IssuedCertificate, Transaction, Pool}
use blapki.Db.Repo.{
  is_row_of, status_valid, status_revoked, revoked, row_status, insert_issued, revoke, revoke_rows,
  record_transaction,
}
use blapki.Db.Repo.Invariant.{
  RowIsOk, IsWellFormed, insert_issued-IsWellFormed, revoke-IsWellFormed,
  record_transaction-IsWellFormed,
}
use blapki.Db.Repo.Tables.{revoked_row, map_row, find-revoke_rows_self, find-revoke_rows_ne}
use blapki.Db.Repo.Status.{status_view, valid≢revoked}

-- A call that writes.
pub data Call : Type 0 where
  insert : IssuedCertificate → Call
  revoke_serial : String → String → ℤ → String → Call
  record_id : String → String → String → String → String → Call

-- The tables after a call, whether it was served or failed.
unfoldable pub apply : Pool → Call → Pool
apply p (insert cert) = (insert_issued cert p).1
apply p (revoke_serial ca_id serial reason at) = (revoke ca_id serial reason at p).1
apply p (record_id id profile status message_type created_at) =
    (record_transaction id profile status message_type created_at p).1

unfoldable pub apply_all : Pool → List Call → Pool
apply_all p [] = p
apply_all p (c ∷ cs) = apply_all (apply p c) cs

-- Callers insert valid rows: those of `persist` in src/http/scep.rs are.
abbrev pub CallIsOk : Call → Type 0
CallIsOk (insert cert) = RowIsOk cert
CallIsOk _ = Unit

apply-IsWellFormed : {p : Pool} (c : Call) → CallIsOk c → IsWellFormed p → IsWellFormed (apply p c)
unfolding apply
apply-IsWellFormed (insert cert) h w = insert_issued-IsWellFormed cert h w
apply-IsWellFormed (revoke_serial ca_id serial reason at) h w =
    revoke-IsWellFormed ca_id serial reason at w
apply-IsWellFormed (record_id id profile status message_type created_at) h w =
    record_transaction-IsWellFormed id profile status message_type created_at w

-- After any sequence of calls that insert only well-formed rows, whichever of them failed, serials
-- and transaction ids are unique and every row is either valid or fully revoked.
pub apply_all-IsWellFormed :
    (p : Pool) (cs : List Call) → IsWellFormed p → All CallIsOk cs → IsWellFormed (apply_all p cs)
unfolding apply_all
apply_all-IsWellFormed p [] w h = w
apply_all-IsWellFormed p (c ∷ cs) w (h, hs) =
    apply_all-IsWellFormed (apply p c) cs (apply-IsWellFormed c h w) hs

row_status-keeps :
    (reason : ℤ) (at : String) (o : Option IssuedCertificate) (t : Option String) (r : Option ℤ)
    → row_status o ≡ revoked t r
    → row_status (map_row (revoked_row reason at) o) ≡ revoked t r
unfolding row_status
row_status-keeps reason at none t r h = cc
row_status-keeps reason at (some row) t r h = elim (Bool-cases (row.status == status_valid)) [
  | inl valid ↦ absurd (
      ground
        (arith, eq_iff row.status status_valid, eq_iff row.status status_revoked, valid≢revoked))
  | inr other ↦ rw other h
]

find-find-append {ℓ} :
    {A : Type ℓ} (p : A → Bool) (xs ys : List A) (x : A)
    → find p xs ≡ some x
    → find p (xs ++ ys) ≡ some x
find-find-append p [] ys x h = cc
find-find-append p (y ∷ xs) ys x h = ground (arith, find-find-append p xs ys x)

pub row_status-append :
    (q : IssuedCertificate → Bool) (xs ys : List IssuedCertificate) (t : Option String)
    (r : Option ℤ)
    → row_status (find q xs) ≡ revoked t r
    → row_status (find q (xs ++ ys)) ≡ revoked t r
unfolding row_status
row_status-append q xs ys t r h = elim (Option-cases (find q xs)) [
  | inl missing ↦ absurd (ground arith)
  | inr (row, found) ↦ rw (find-find-append q xs ys row found) (rw found at h)
]

row_status-revoke_rows :
    (ca_id serial ca' serial' : String) (reason : ℤ) (at : String) (rows : List IssuedCertificate)
    (t : Option String) (r : Option ℤ)
    → row_status (find (is_row_of ca' serial') rows) ≡ revoked t r
    → row_status (find (is_row_of ca' serial') (revoke_rows ca_id serial reason at rows))
      ≡ revoked t r
row_status-revoke_rows ca_id serial ca' serial' reason at rows t r h =
    elim (Bool-cases (ca_id == ca' && serial == serial')) [
      | inl same ↦
          let e : (ca_id ≡ ca') × (serial ≡ serial') =
            ground (arith, eq_iff ca_id ca', eq_iff serial serial') in
          rw (e.0, e.1, find-revoke_rows_self ca' serial' reason at rows)
            (row_status-keeps reason at (find (is_row_of ca' serial') rows) t r h)
      | inr other ↦ rw (find-revoke_rows_ne ca_id serial reason at ca' serial' rows other) h
    ]

pub revoke-revoked :
    (p : Pool) (ca' serial' : String) (reason : ℤ) (at ca_id serial : String) (t : Option String)
    (r : Option ℤ)
    → status_view p ca_id serial ≡ revoked t r
    → status_view (revoke ca' serial' reason at p).1 ca_id serial ≡ revoked t r
unfolding status_view revoke
revoke-revoked p ca' serial' reason at ca_id serial t r h =
    ground
      (arith, row_status-revoke_rows ca' serial' ca_id serial reason at p.issued_certificate t r h)

apply-revoked :
    (p : Pool) (c : Call) (ca_id serial : String) (t : Option String) (r : Option ℤ)
    → status_view p ca_id serial ≡ revoked t r
    → status_view (apply p c) ca_id serial ≡ revoked t r
unfolding apply status_view insert_issued revoke record_transaction
apply-revoked p (insert cert) ca_id serial t r h =
    ground
      (arith, row_status-append (is_row_of ca_id serial) p.issued_certificate (cert ∷ []) t r h)
apply-revoked p (revoke_serial ca' serial' reason at) ca_id serial t r h =
    revoke-revoked p ca' serial' reason at ca_id serial t r h
apply-revoked p (record_id id profile status message_type created_at) ca_id serial t r h =
    ground arith

-- Revocation is final: whatever calls follow, a revoked certificate stays revoked, with the time and
-- the reason of its first revocation.
pub apply_all-revoked :
    (p : Pool) (cs : List Call) (ca_id serial : String) (t : Option String) (r : Option ℤ)
    → status_view p ca_id serial ≡ revoked t r
    → status_view (apply_all p cs) ca_id serial ≡ revoked t r
unfolding apply_all
apply_all-revoked p [] ca_id serial t r h = h
apply_all-revoked p (c ∷ cs) ca_id serial t r h =
    apply_all-revoked (apply p c) cs ca_id serial t r (apply-revoked p c ca_id serial t r h)

-- The tables, without the engine's coming answers.
abbrev pub tables : Pool → List IssuedCertificate × List Transaction
tables p = (p.issued_certificate, p.scep_transaction)

-- An operation succeeds, or it leaves both tables as they were, whichever of its statements failed.
pub failed_call_keeps_tables :
    (p : Pool) (cert : IssuedCertificate) (ca_id serial : String) (reason : ℤ)
    (at id profile status message_type created_at : String)
    → (((insert_issued cert p).0 ≡ ok tt) ⊎ (tables (insert_issued cert p).1 ≡ tables p))
      × (((done : Bool) × ((revoke ca_id serial reason at p).0 ≡ ok done))
          ⊎ (tables (revoke ca_id serial reason at p).1 ≡ tables p))
      × (((record_transaction id profile status message_type created_at p).0 ≡ ok tt)
          ⊎ (tables (record_transaction id profile status message_type created_at p).1 ≡ tables p))
unfolding insert_issued revoke record_transaction
failed_call_keeps_tables p cert ca_id serial reason at id profile status message_type created_at = (
  ground arith,
  elim (Result-cases (revoke ca_id serial reason at p).0) [
    | inl (done, e) ↦ inl (done, e)
    | inr (x, e) ↦ inr (ground arith)
  ],
  ground arith,
)
