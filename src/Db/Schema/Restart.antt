-- ===== src/Db/Schema/Restart.antt =====
-- A start of src/db/mod.rs keeps the rows of the database.
use blapki.Prelude.{
  String, ◌≡◌, refl, ap, ◌∙◌, ◌⊎◌, inl, inr, Option, none, some, Result, ok, err, List, [], ◌∷◌,
  arith, unwrap_or,
}
use blapki.Error.{AppError, AppResult}
use blapki.Db.{Pool}
use blapki.Db.Schema.{
  Ddl, create, if_not_exists, create_issued_certificate, create_scep_transaction, execute, Database,
  pool_of, connect,
}

-- Rows that a table has are kept; a missing table stays missing or becomes empty.
abbrev pub Kept {ℓ} : {A : Type ℓ} → Option (List A) → Option (List A) → Type ℓ
Kept none after = (after ≡ none) ⊎ (after ≡ some [])
Kept (some rows) after = after ≡ some rows

-- What a statement does: it fails and changes no table, or it creates one.
execute-cases :
    (stmt : Ddl) (d : Database)
    → ((e : AppError) × ((execute stmt d).0 ≡ err e)
        × ((execute stmt d).1.issued_certificate ≡ d.issued_certificate)
        × ((execute stmt d).1.scep_transaction ≡ d.scep_transaction))
      ⊎ (((execute stmt d).0 ≡ ok tt)
          × ((execute stmt d).1.issued_certificate ≡ (create stmt d).issued_certificate)
          × ((execute stmt d).1.scep_transaction ≡ (create stmt d).scep_transaction))
unfolding execute
execute-cases stmt d = go d.outages refl
  where
    go :
        (o : List (Option String))
        → d.outages ≡ o
        → ((e : AppError) × ((execute stmt d).0 ≡ err e)
            × ((execute stmt d).1.issued_certificate ≡ d.issued_certificate)
            × ((execute stmt d).1.scep_transaction ≡ d.scep_transaction))
          ⊎ (((execute stmt d).0 ≡ ok tt)
              × ((execute stmt d).1.issued_certificate ≡ (create stmt d).issued_certificate)
              × ((execute stmt d).1.scep_transaction ≡ (create stmt d).scep_transaction))
    go [] h = inr (ground arith, ground arith, ground arith)
    go (none ∷ later) h = inr (ground arith, ground arith, ground arith)
    go (some e ∷ later) h = inl (AppError.database e, ground arith, ground arith, ground arith)

Kept-refl {ℓ} : {A : Type ℓ} (o : Option (List A)) → Kept o o
Kept-refl none = inl refl
Kept-refl (some rows) = refl

Kept-if_not_exists {ℓ} : {A : Type ℓ} (o : Option (List A)) → Kept o (if_not_exists o)
Kept-if_not_exists none = inr refl
Kept-if_not_exists (some rows) = refl

-- The tables after a connection, by what became of it.
pub data Connected (d after : Database) : AppResult (Unit {0}) → Type 0 where
  failed :
      (e : AppError)
      → Kept d.issued_certificate after.issued_certificate
      → Kept d.scep_transaction after.scep_transaction
      → Connected d after (err e)
  served :
      (p : Pool)
      → pool_of after ≡ some p
      → p.issued_certificate ≡ unwrap_or [] d.issued_certificate
      → p.scep_transaction ≡ unwrap_or [] d.scep_transaction
      → Connected d after (ok tt)

if_not_exists-some {ℓ} :
    {A : Type ℓ} (o : Option (List A)) → if_not_exists o ≡ some (unwrap_or [] o)
if_not_exists-some none = refl
if_not_exists-some (some rows) = refl

-- Both statements were served.
both_created :
    (d after : Database)
    → after.issued_certificate ≡ if_not_exists d.issued_certificate
    → after.scep_transaction ≡ if_not_exists d.scep_transaction
    → Connected d after (ok tt)
both_created d after h k =
    served
      (record {
        issued_certificate = unwrap_or [] d.issued_certificate;
        scep_transaction = unwrap_or [] d.scep_transaction;
        outages = after.outages;
      })
      (rw (h, k, if_not_exists-some d.issued_certificate, if_not_exists-some d.scep_transaction)
        refl)
      refl refl

-- A connection leaves a pool over both tables, with the rows that they had, or with none where a
-- table was missing; or it fails, in whichever statement, and no table has lost a row.
pub connect-Connected :
    (open_pool : Result String (Unit {0})) (d : Database)
    → Connected d (connect open_pool d).1 (connect open_pool d).0
unfolding connect
connect-Connected (err e) d =
    failed (AppError.database e) (Kept-refl d.issued_certificate) (Kept-refl d.scep_transaction)
connect-Connected (ok u) d = elim (execute-cases create_issued_certificate d) [
  | inl (e, r, c, t) ↦
      rw r (failed e (rw c (Kept-refl d.issued_certificate)) (rw t (Kept-refl d.scep_transaction)))
  | inr (r, c, t) ↦
      let d' = (execute create_issued_certificate d).1 in
      elim (execute-cases create_scep_transaction d') [
        | inl (e, r', c', t') ↦
            rw (r, r')
              (failed e (rw (c', c) (Kept-if_not_exists d.issued_certificate))
                (rw (t', t) (Kept-refl d.scep_transaction)))
        | inr (r', c', t') ↦
            rw (r, r')
              (both_created d (execute create_scep_transaction d').1 (c' ∙ c)
                (t' ∙ ap if_not_exists t))
      ]
]
