-- ===== src/Ca.antt =====
-- src/ca: the certificate authority, its serial numbers, and the requests that it signs.
pub mod Serial
pub mod Csr
pub mod Extensions
pub mod Authority
pub mod Keystore
pub mod Bootstrap
