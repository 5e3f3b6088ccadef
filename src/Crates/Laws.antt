-- ===== src/Crates/Laws.antt =====
-- Documented behaviour of the crates that proofs about the program rely on.
use blapki.Prelude.{String, ◌≡◌, ok, List, [], ◌∷◌, Bytes, length}
use blapki.Crates.{ContentInfo, Asn1, Primitives}

-- A value that was encoded decodes to itself, and a set of one value can be made.
pub record Asn1Laws (a : Asn1) : Type 0 where
  pub new_printable_same : (s t : String) → a.new_printable s ≡ ok t → t ≡ s
  pub decode-encode_printable :
      (s : String) (b : Bytes) → a.encode_printable s ≡ ok b → a.decode_printable b ≡ ok s
  pub new_octets_same : (o p : Bytes) → a.new_octets o ≡ ok p → p ≡ o
  pub decode-encode_octets : (o b : Bytes) → a.encode_octets o ≡ ok b → a.decode_octets b ≡ ok o
  pub decode-encode_content_info :
      (ci : ContentInfo) (b : Bytes)
      → a.encode_content_info ci ≡ ok b
      → a.decode_content_info b ≡ ok ci
  pub set_insert-nil : (b : Bytes) (s : List Bytes) → a.set_insert [] b ≡ ok s → s ≡ b ∷ []

-- HMAC-SHA256 has 32 bytes, a cipher accepts a key and an IV by their lengths alone, and what was
-- encrypted decrypts under the same key and IV.
pub record CipherLaws (p : Primitives) : Type 0 where
  pub length-hmac_sha256 : (k m : Bytes) → length (p.hmac_sha256 k m) ≡ 32
