-- ===== src/Db/Schema.antt =====
-- src/db/mod.rs: the connection of the database and its tables.
--
-- A database that is connected to has each table, with its rows, or not yet. `CREATE TABLE IF NOT
-- EXISTS` makes an empty table where there is none. As behind the pool, `outages` are the engine's
-- answers to the coming statements. `open_pool` is what the connection gives.
pub mod Restart
use blapki.Prelude.{String, Option, none, some, Result, ok, err, List, [], ◌∷◌, map_err}
use blapki.Error.{AppError}
use blapki.Exec.{Exec, pure, lift, ◌>>=◌, ◌>>◌}
use blapki.Db.{IssuedCertificate, Transaction, Pool}

pub record Database : Type 0 where
  pub issued_certificate : Option (List IssuedCertificate)
  pub scep_transaction : Option (List Transaction)
  pub outages : List (Option String)

-- The statements of `SCHEMA`, by the table that they create.
pub data Ddl : Type 0 where
  create_issued_certificate create_scep_transaction : Ddl

unfoldable pub schema : List Ddl
schema = create_issued_certificate ∷ create_scep_transaction ∷ []

abbrev pub if_not_exists {ℓ} : {A : Type ℓ} → Option (List A) → Option (List A)
if_not_exists none = some []
if_not_exists (some rows) = some rows

abbrev pub create : Ddl → Database → Database
create create_issued_certificate d = record d {
  issued_certificate = if_not_exists d.issued_certificate;
}
create create_scep_transaction d = record d { scep_transaction = if_not_exists d.scep_transaction }

answer : List (Option String) → Exec Database Unit
answer [] d = (ok tt, d)
answer (none ∷ later) d = (ok tt, record d { outages = later })
answer (some e ∷ later) d = (err (AppError.database e), record d { outages = later })

unfoldable pub execute : Ddl → Exec Database Unit
unfolding answer
execute stmt = do (λ d. answer d.outages d); λ d. (ok tt, create stmt d)

-- The loop over the statements.
unfoldable pub migrate : List Ddl → Exec Database Unit
unfolding execute
migrate [] = pure tt
migrate (stmt ∷ stmts) = do execute stmt; migrate stmts

abbrev pub over_both :
    List (Option String) → Option (List IssuedCertificate) → Option (List Transaction) → Option Pool
over_both outages (some certificates) (some transactions) = some (record {
  issued_certificate = certificates;
  scep_transaction = transactions;
  outages = outages;
})
over_both outages _ _ = none

-- The pool over a database that has both tables.
abbrev pub pool_of : Database → Option Pool
pool_of d = over_both d.outages d.issued_certificate d.scep_transaction

unfoldable pub connect : Result String (Unit {0}) → Exec Database Unit
unfolding migrate schema
connect open_pool = do lift (map_err AppError.database open_pool); migrate schema
