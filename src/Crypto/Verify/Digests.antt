-- ===== src/Crypto/Verify/Digests.antt =====
-- The digests that src/crypto/verify.rs accepts, against the capabilities of src/scep/protocol.rs.
use blapki.Prelude.{
  String, ◌≡◌, ◌≢◌, inl, inr, ok, err, Bytes, arith, Result-cases, eq_iff, format, [], ◌∷◌,
}
use blapki.Error.{AppError}
use blapki.Crates.{Asn1, Primitives}
use blapki.Crypto.{id_sha1, id_sha256}
use blapki.Crypto.Verify.{
  Decoders, Parts, verify_rsa, signed_parts, check_signature, parse_and_verify,
}

abbrev pub id_sha512 : String
id_sha512 = "2.16.840.1.101.3.4.2.3"

verify_rsa-unsupported :
    (p : Primitives) (alg : String) (key msg sig : Bytes)
    → alg ≢ id_sha256
    → alg ≢ id_sha1
    → (e : AppError) × (verify_rsa p alg key msg sig ≡ err e)
unfolding verify_rsa
verify_rsa-unsupported p alg key msg sig h k = elim (Result-cases (verify_rsa p alg key msg sig)) [
  | inl (u, e) ↦ absurd (ground (arith, eq_iff alg id_sha256, eq_iff alg id_sha1))
  | inr (x, e) ↦ (x, e)
]

check_signature-unsupported :
    (a : Asn1) (p : Primitives) (parts : Parts)
    → parts.signer.digest_alg ≢ id_sha256
    → parts.signer.digest_alg ≢ id_sha1
    → (e : AppError) × (check_signature a p parts ≡ err e)
unfolding check_signature
check_signature-unsupported a p parts h k = elim (Result-cases (a.encode_attributes parts.attrs)) [
  | inl (b, e) ↦
      let (x, f) =
        verify_rsa-unsupported p parts.signer.digest_alg parts.public_key b parts.signer.signature h
          k in
      (x, rw e f)
  | inr (x, e) ↦ (AppError.crypto (format ("re-encode signed attrs: " ∷ x ∷ [])), rw e)
]

-- A message whose signer uses SHA-512, which `ca_caps` advertises, is always refused, whatever its
-- signature is.
pub parse_and_verify-sha512 :
    (a : Asn1) (p : Primitives) (d : Decoders) (der : Bytes) (parts : Parts)
    → signed_parts a p d der ≡ ok parts
    → parts.signer.digest_alg ≡ id_sha512
    → (e : AppError) × (parse_and_verify a p d der ≡ err e)
unfolding parse_and_verify
parse_and_verify-sha512 a p d der parts h alg =
    let (x, e) =
      check_signature-unsupported a p parts (λ k. ground (arith, eq_iff id_sha512 id_sha256))
        (λ k. ground (arith, eq_iff id_sha512 id_sha1)) in
    (x, rw h (rw e))
