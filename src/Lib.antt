-- ===== src/Lib.antt =====
-- Verification of blapki, a certificate authority that enrols devices by SCEP.
--
-- A device posts a signed message with an encrypted certificate request. The handler verifies the
-- message, decrypts and parses the request, has the profile's validator approve it (a shared secret,
-- or the Intune service), lets the CA issue a certificate, records it, reports the outcome to Intune
-- and answers with a signed reply. Two public endpoints tell which certificates are revoked.
--
-- The parts, and the files that model them (paths from the root of the repository):
--   Prelude     Rust's standard library as far as the program calls it: bytes, texts, results.
--   Exec        an async handler: a function of the shared state to a result and a new state.
--   Error       src/error.rs: AppError and into_response.
--   Db          src/db/mod.rs and src/db/repo.rs: the two tables and the statements on them. Each
--               statement asks `outages` whether the engine serves it. Schema is the connection,
--               with the creation of missing tables.
--   Crates      the structures and functions of the crates that the program calls, as parameters,
--               with what proofs rely on in Crates/Laws, Crypto/Envelope/RoundTrip,
--               Crypto/Sign/Laws and Ca/Authority/Leaf as records of laws.
--   Scep        src/scep: attributes, codes, and the attributes of replies.
--   Crypto      src/crypto: Envelope (open, parse), with Outbound (build_for, build), Verify
--               (parse_and_verify), Sign (build_cert_rep, and certs_only of
--               src/crypto/degenerate.rs).
--   Intune      src/intune/mod.rs: the token cache, and in Calls the discovered endpoint and the calls.
--   Challenge   src/challenge/mod.rs: the validators.
--   Ca          src/ca: Serial, Csr, Extensions, Authority (CertificateAuthority::issue), Bootstrap
--               (generate_self_signed) and Keystore (src/ca/keystore.rs).
--   Http        src/http: the shared state; Replies and Scep are src/http/scep.rs, where
--               pki_operation is cut into answer_parsed, answer_opened, enrol, refuse,
--               issue_and_deliver and deliver along its early returns; Crl and Ocsp are
--               src/http/crl.rs and src/http/ocsp.rs; Health is src/http/health.rs; Router is the
--               table of routes and the way of a request through it; History is the life of a
--               server, a step relation of requests, revocations, failures and restarts.
--   Config      src/config.rs, and the choice of a validator in src/app.rs. Tables makes the
--               settings of a table of fields, with the defaults.
--   App         src/app.rs: build_state over a file system and the database.
--   Main        src/main.rs: from the settings to a server that serves its state, and what a
--               restart keeps.
--   Examples    a toy instance of the crates, and runs.
--
-- State is explicit: a database action is a function of the Pool, a call of the Intune client one
-- of the Net, and an enrolment one of the World, which has both. Calls whose result the source drops
-- (`let _ =`) are `attempt`. Loops are structural recursion; only the printing of a decimal number
-- has fuel, the number itself, which is at least its count of digits less one.
--
-- The server runs its handlers concurrently. The model answers the requests one after the other, in
-- any order, and so leaves out the interleaving of two handlers at their awaits. An Instant is a
-- number of seconds without a bound, so its overflow under a huge lifetime of a token is left out.
--
-- Random values and the clock are arguments of the operation that draws them. A key, a name and an
-- ASN.1 value are their DER; an object identifier is its text. A refused decoding is the text that
-- its error displays. The decoder of envelopes takes serial numbers of at most 20 bytes, as
-- src/crypto/envelope.rs documents, so replies are proved to reach devices with such serial numbers.
-- The log lines are left out, since they change no state.
--
-- Not modelled: the merging of the settings file and the environment by figment, which is a
-- parameter of the start; the logging and the shutdown of the process, which have no logic of their
-- own beside calls of the crates; the tests.
pub mod Prelude
pub mod Error
pub mod Exec
pub mod Db
pub mod Crates
pub mod Scep
pub mod Crypto
pub mod Intune
pub mod Main
pub mod Challenge
pub mod Ca
pub mod Http
pub mod Config
pub mod App
pub mod Examples
