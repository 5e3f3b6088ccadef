-- ===== src/Db.antt =====
-- src/db/mod.rs: the tables behind the connection pool.
--
-- `sqlx` and the database engine are not part of the program. What they do is taken from the SQL
-- text of the statements and the DDL of `SCHEMA`: a table is its rows in insertion order, and a
-- primary key holds each value once. Whether the connection serves the next statement is not the
-- program's to decide: `outages` lists the engine's answers to the coming statements, an error for
-- one that fails and changes nothing. Past its end the engine is up.
pub mod Repo
pub mod Schema
use blapki.Prelude.{String, Option, none, some, List, [], ◌∷◌, ok, err, ℤ}
use blapki.Error.{AppError}
use blapki.Exec.{Exec}

-- A record of a certificate this server issued: a row of `issued_certificate`.
pub record IssuedCertificate : Type 0 where
  pub serial : String
  pub ca_id : String
  pub subject : String
  pub not_before : String
  pub not_after : String
  pub der_b64 : String
  pub thumbprint_sha1 : String
  pub transaction_id : Option String
  pub profile : Option String
  pub status : String
  pub created_at : String
  pub revoked_at : Option String
  pub revocation_reason : Option ℤ

-- A row of `scep_transaction`.
pub record Transaction : Type 0 where
  pub transaction_id : String
  pub profile : Option String
  pub status : String
  pub message_type : Option String
  pub created_at : String

pub record Pool : Type 0 where
  pub issued_certificate : List IssuedCertificate
  pub scep_transaction : List Transaction
  pub outages : List (Option String)

-- The engine's answer to the next statement.
answer : List (Option String) → Exec Pool Unit
answer [] p = (ok tt, p)
answer (none ∷ later) p = (ok tt, record p { outages = later })
answer (some e ∷ later) p = (err (AppError.database e), record p { outages = later })

unfoldable pub statement : Exec Pool Unit
unfolding answer
statement p = answer p.outages p
