-- ===== src/Challenge/Secret.antt =====
-- The comparison of src/challenge/mod.rs, and the static secret.
use blapki.Prelude.{
  ℕ, String, ◌≡◌, refl, true, ◌↔◌, Option, none, some, ok, [], ◌∷◌, Bytes, length, arith, as_bytes,
  bit_or, bit_xor, bit_or-zero_iff, bit_xor-zero_iff,
}
use blapki.Intune.{Backend, Net}
use blapki.Challenge.{
  ValidationInput, static_secret, differences, constant_time_eq, check_secret, validate,
}

differences-zero_iff :
    (diff : ℕ) (xs ys : Bytes)
    → length xs ≡ length ys
    → (differences diff xs ys ≡ 0) ↔ ((diff ≡ 0) × (xs ≡ ys))
unfolding differences
differences-zero_iff diff [] [] e = ground arith
differences-zero_iff diff [] (y ∷ ys) e = absurd (ground arith)
differences-zero_iff diff (x ∷ xs) [] e = absurd (ground arith)
differences-zero_iff diff (x ∷ xs) (y ∷ ys) e = ground (
  arith,
  differences-zero_iff (bit_or diff (bit_xor x y)) xs ys (omega arith),
  bit_or-zero_iff diff (bit_xor x y),
  bit_xor-zero_iff x y,
)

-- The comparison accumulates differences without stopping at the first, and still decides equality:
-- it is true exactly when the two byte slices are the same.
pub constant_time_eq_iff : (a b : Bytes) → (constant_time_eq a b ≡ true) ↔ (a ≡ b)
unfolding constant_time_eq
constant_time_eq_iff a b = ground (arith, differences-zero_iff 0 a b)

check_secret_iff :
    (secret : String) (password : Option String) (n : Net)
    → (check_secret secret password n ≡ (ok tt, n))
      ↔ ((pw : String) × (password ≡ some pw) × (as_bytes pw ≡ as_bytes secret))
unfolding check_secret
check_secret_iff secret none n = (λ h. absurd (ground arith), λ (pw, e, f). absurd (ground arith))
check_secret_iff secret (some pw) n =
    let (same, back) = constant_time_eq_iff (as_bytes pw) (as_bytes secret) in
    (
      λ h. (pw, refl, same (ground arith)),
      λ (pw', e, f). let g : as_bytes pw ≡ as_bytes secret = ground arith in rw (back g) refl,
    )

-- A static secret accepts a request, leaving the network as it is, exactly when the request carries
-- a challenge password whose bytes are those of the secret.
pub validate-static_secret :
    (b : Backend) (secret : String) (input : ValidationInput) (n : Net)
    → (validate b (static_secret secret) input n ≡ (ok tt, n))
      ↔ ((pw : String) × (input.challenge_password ≡ some pw) × (as_bytes pw ≡ as_bytes secret))
unfolding validate
validate-static_secret b secret input n = check_secret_iff secret input.challenge_password n
