-- ===== src/Scep/Nonce.antt =====
-- src/scep/nonce.rs: `fill_bytes` is what the generator of random numbers fills a buffer of a length
-- with.
use blapki.Prelude.{ℕ, Bytes}

abbrev pub nonce_len : ℕ
nonce_len = 16

abbrev pub generate : (ℕ → Bytes) → Bytes
generate fill_bytes = fill_bytes nonce_len
