-- ===== src/Crypto/Envelope/Keys.antt =====
-- The implicit rejection of src/crypto/envelope.rs: how `open` comes by its content key.
use blapki.Prelude.{
  ℕ, zero, suc, ◌≤◌, String, ◌≡◌, refl, ◌⊎◌, inl, inr, ok, List, [], ◌∷◌, Bytes, arith, length,
  take, eqb_iff, eqb, Bool-cases, Result-cases,
}
use blapki.Crates.{EnvelopedData, Certificate, Asn1, Primitives}
use blapki.Crates.Laws.{CipherLaws}
use blapki.Crypto.Envelope.{
  content_key_len, synthetic_cek, unwrap_cek, decrypt_symmetric, Sealed, public_checks,
  open_envelope,
}

length-take {ℓ} : {A : Type ℓ} (n : ℕ) (xs : List A) → n ≤ length xs → length (take n xs) ≡ n
length-take zero xs h = refl
length-take (suc n) [] h = absurd (omega arith)
length-take (suc n) (x ∷ xs) h = omega (arith, length-take n xs (omega arith))

-- Every supported content cipher takes a key of at most 32 bytes.
pub content_key_len-le : (alg : String) (n : ℕ) → content_key_len alg ≡ ok n → n ≤ 32
unfolding content_key_len
content_key_len-le alg n h = ground arith

public_checks-key_len :
    (a : Asn1) (env : EnvelopedData) (cert : Certificate) (s : Sealed)
    → public_checks a env cert ≡ ok s
    → content_key_len env.content_enc_alg.oid ≡ ok s.key_len
unfolding public_checks
public_checks-key_len a env cert s h = ground arith

module _ (p : Primitives) (laws : CipherLaws p) where
  length-synthetic_cek :
      (ca_key encrypted_key : Bytes) (n : ℕ)
      → n ≤ 32
      → length (synthetic_cek p ca_key encrypted_key n) ≡ n
  unfolding synthetic_cek
  length-synthetic_cek ca_key encrypted_key n h =
      length-take n _ (omega (arith, laws.length-hmac_sha256 _ encrypted_key))

  -- The content key has the length that the cipher wants, whatever the RSA step returned.
  pub length-unwrap_cek :
      (ca_key encrypted_key : Bytes) (n : ℕ)
      → n ≤ 32
      → length (unwrap_cek p ca_key encrypted_key n) ≡ n
  unfolding unwrap_cek
  length-unwrap_cek ca_key encrypted_key n h =
      ground (arith, length-synthetic_cek ca_key encrypted_key n h)

-- The RSA step gave a usable key: the padding was valid and the length is the cipher's.
abbrev pub Unwraps : Primitives → Bytes → Bytes → ℕ → Bytes → Type 0
Unwraps p ca_key encrypted_key key_len cek =
    (p.rsa_decrypt ca_key encrypted_key ≡ ok cek) × (length cek ≡ key_len)

unwrap_cek-cases :
    (p : Primitives) (ca_key encrypted_key : Bytes) (n : ℕ)
    → Unwraps p ca_key encrypted_key n (unwrap_cek p ca_key encrypted_key n)
      ⊎ (((k : Bytes) → ¬ Unwraps p ca_key encrypted_key n k)
          × (unwrap_cek p ca_key encrypted_key n ≡ synthetic_cek p ca_key encrypted_key n))
unfolding unwrap_cek
unwrap_cek-cases p ca_key encrypted_key n =
    elim (Result-cases (p.rsa_decrypt ca_key encrypted_key)) [
      | inr (x, e) ↦ inr (λ k (f, g). ground arith, ground arith)
      | inl (cek, e) ↦ elim (Bool-cases (eqb (length cek) n)) [
        | inl h ↦ inl (ground (arith, eqb_iff (length cek) n))
        | inr h ↦ inr (λ k (f, g). ground (arith, eqb_iff (length cek) n), ground arith)
      ]
    ]

-- Once the checks on public data have passed, the outcome of opening an envelope is that of the
-- content cipher under a key of its length: the unwrapped key if the RSA step gave a usable one, and
-- otherwise the synthetic key. No failure of the RSA step becomes an error of its own.
pub open_envelope-implicit_rejection :
    (a : Asn1) (p : Primitives) (env : EnvelopedData) (cert : Certificate) (ca_key : Bytes)
    (s : Sealed)
    → CipherLaws p
    → public_checks a env cert ≡ ok s
    → (cek : Bytes) × (length cek ≡ s.key_len)
      × (open_envelope a p env cert ca_key
          ≡ decrypt_symmetric p env.content_enc_alg.oid cek s.iv s.ciphertext)
      × (Unwraps p ca_key s.recipient.enc_key s.key_len cek
          ⊎ (((k : Bytes) → ¬ Unwraps p ca_key s.recipient.enc_key s.key_len k)
              × (cek ≡ synthetic_cek p ca_key s.recipient.enc_key s.key_len)))
unfolding open_envelope
open_envelope-implicit_rejection a p env cert ca_key s laws h = (
  unwrap_cek p ca_key s.recipient.enc_key s.key_len,
  length-unwrap_cek p laws ca_key s.recipient.enc_key s.key_len
      (content_key_len-le _ _ (public_checks-key_len a env cert s h)),
  rw h,
  unwrap_cek-cases p ca_key s.recipient.enc_key s.key_len,
)
