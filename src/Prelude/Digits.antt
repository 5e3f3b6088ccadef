-- ===== src/Prelude/Digits.antt =====
-- The operators `&`, `|` and `^` of Rust on machine integers, from their binary digits.
use Prim.Native.Nat.{
  ℕ, zero, suc, ◌+◌, ◌*◌, ◌/◌, ◌%◌, ◌≤◌, ◌<◌, min, max, digits, differ, bit_and, bit_or, bit_xor,
  bit_and-bitwise, bit_or-bitwise, bit_xor-bitwise,
}
use mathlib.Core.Path.{◌≡◌, refl, ◌∙◌, sym}
use mathlib.Core.Logic.{◌↔◌}
use native.Mathlib.Omega.{arith}

or_zero : (n a b : ℕ) → a ≤ n → digits (λ y. y) max n a b ≡ 0 → (a ≡ 0) × (b ≡ 0)
or_zero zero zero b le h = (refl, h)
or_zero zero (suc a) b le h = absurd (omega arith)
or_zero (suc n) zero b le h = (refl, h)
or_zero (suc n) (suc a) b le h =
    let (p, q) = or_zero n (suc a / 2) (b / 2) (omega arith) (omega arith) in absurd (omega arith)

-- An inclusive or is zero only if both sides are.
pub bit_or-zero_iff : (a b : ℕ) → (bit_or a b ≡ 0) ↔ ((a ≡ 0) × (b ≡ 0))
bit_or-zero_iff a b =
    (λ h. or_zero a a b (omega arith) (sym (bit_or-bitwise a b) ∙ h), λ (p, q). rw (p, q) refl)

differ_zero : (x y : ℕ) → x < 2 → y < 2 → differ x y ≡ 0 → x ≡ y
differ_zero zero y p q h = sym h
differ_zero (suc zero) zero p q h = h
differ_zero (suc zero) (suc y) p q h = omega arith
differ_zero (suc (suc x)) y p q h = absurd (omega arith)

xor_zero : (n a b : ℕ) → a ≤ n → digits (λ y. y) differ n a b ≡ 0 → a ≡ b
xor_zero zero zero b le h = sym h
xor_zero zero (suc a) b le h = absurd (omega arith)
xor_zero (suc n) zero b le h = sym h
xor_zero (suc n) (suc a) b le h =
    let high = xor_zero n (suc a / 2) (b / 2) (omega arith) (omega arith) in
    let low = differ_zero (suc a % 2) (b % 2) (omega arith) (omega arith) (omega arith) in
    omega arith

differ_same : (x : ℕ) → differ x x ≡ 0
differ_same zero = refl
differ_same (suc x) = differ_same x

xor_same : (n a : ℕ) → a ≤ n → digits (λ y. y) differ n a a ≡ 0
xor_same zero zero le = refl
xor_same zero (suc a) le = absurd (omega arith)
xor_same (suc n) zero le = refl
xor_same (suc n) (suc a) le =
    omega (arith, xor_same n (suc a / 2) (omega arith), differ_same (suc a % 2))

-- An exclusive or is zero only if both sides are the same.
pub bit_xor-zero_iff : (a b : ℕ) → (bit_xor a b ≡ 0) ↔ (a ≡ b)
bit_xor-zero_iff a b = (
  λ h. xor_zero a a b (omega arith) (sym (bit_xor-bitwise a b) ∙ h),
  λ e. rw e (bit_xor-bitwise b b ∙ xor_same b b (omega arith)),
)

and_le : (n a b : ℕ) → digits (λ y. zero) min n a b ≤ b
and_le zero a b = omega arith
and_le (suc n) zero b = omega arith
and_le (suc n) (suc a) b = omega (arith, and_le n (suc a / 2) (b / 2))

-- A mask bounds what it is applied to.
pub bit_and_le : (a b : ℕ) → bit_and a b ≤ b
bit_and_le a b = omega (arith, bit_and-bitwise a b, and_le a a b)

or_fuel : (n m a b : ℕ) → a ≤ n → a ≤ m → digits (λ y. y) max n a b ≡ digits (λ y. y) max m a b
or_fuel zero zero a b p q = refl
or_fuel zero (suc m) zero b p q = refl
or_fuel zero (suc m) (suc a) b p q = absurd (omega arith)
or_fuel (suc n) zero zero b p q = refl
or_fuel (suc n) zero (suc a) b p q = absurd (omega arith)
or_fuel (suc n) (suc m) zero b p q = refl
or_fuel (suc n) (suc m) (suc a) b p q =
    omega (arith, or_fuel n m (suc a / 2) (b / 2) (omega arith) (omega arith))

or_step : (a b : ℕ) → bit_or a b ≡ bit_or (a / 2) (b / 2) * 2 + max (a % 2) (b % 2)
or_step zero b = omega (arith, bit_or-bitwise 0 b, bit_or-bitwise 0 (b / 2))
or_step (suc a) b = omega (
  arith,
  bit_or-bitwise (suc a) b,
  bit_or-bitwise (suc a / 2) (b / 2),
  or_fuel a (suc a / 2) (suc a / 2) (b / 2) (omega arith) (omega arith),
)

-- The lowest digit of an inclusive or, where the first number has a zero there.
or_double : (half a b : ℕ) → a ≡ half * 2 → bit_or a b ≡ bit_or half (b / 2) * 2 + b % 2
or_double half a b e =
    let h : a / 2 ≡ half = omega arith in
    let step : bit_or a b ≡ bit_or half (b / 2) * 2 + max (a % 2) (b % 2) =
      rw (← h) (or_step a b) in
    omega (arith, step)

or_nothing : (n a : ℕ) → a ≤ n → digits (λ y. y) max n a 0 ≡ a
or_nothing zero zero le = refl
or_nothing zero (suc a) le = absurd (omega arith)
or_nothing (suc n) zero le = refl
or_nothing (suc n) (suc a) le = omega (arith, or_nothing n (suc a / 2) (omega arith))

or_zero_right : (a b : ℕ) → b ≡ 0 → bit_or a b ≡ a
or_zero_right a b e = rw e (bit_or-bitwise a 0 ∙ or_nothing a a (omega arith))

-- `(v << 8) | b` is a sum.
pub bit_or-shift8 : (v b : ℕ) → b < 256 → bit_or (v * 256) b ≡ v * 256 + b
bit_or-shift8 v b h = omega (
  arith,
  or_double (v * 128) (v * 256) b (omega arith),
  or_double (v * 64) (v * 128) (b / 2) (omega arith),
  or_double (v * 32) (v * 64) (b / 2 / 2) (omega arith),
  or_double (v * 16) (v * 32) (b / 2 / 2 / 2) (omega arith),
  or_double (v * 8) (v * 16) (b / 2 / 2 / 2 / 2) (omega arith),
  or_double (v * 4) (v * 8) (b / 2 / 2 / 2 / 2 / 2) (omega arith),
  or_double (v * 2) (v * 4) (b / 2 / 2 / 2 / 2 / 2 / 2) (omega arith),
  or_double v (v * 2) (b / 2 / 2 / 2 / 2 / 2 / 2 / 2) (omega arith),
  or_zero_right v (b / 2 / 2 / 2 / 2 / 2 / 2 / 2 / 2) (omega arith),
)
