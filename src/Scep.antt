-- ===== src/Scep.antt =====
-- src/scep: the attributes of a SCEP message and the contents of the server's replies.
pub mod Attributes
pub mod Nonce
pub mod Protocol
pub mod Codes
pub mod Replies
