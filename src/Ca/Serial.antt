-- ===== src/Ca/Serial.antt =====
-- src/ca/serial.rs: serial numbers.
--
-- `bytes` is what the generator filled in: 16 bytes. `SerialNumber::new` keeps a slice whose first
-- byte is not zero as it is.
use blapki.Prelude.{
  ℕ, ◌≤◌, ◌≡◌, refl, [], ◌∷◌, Bytes, length, bit_and, bit_and_le, eqb, if◌then◌else◌, arith,
}

-- The first byte: its top bit cleared, and never zero.
unfoldable pub first_byte : ℕ → ℕ
first_byte x = let cleared = bit_and x 0x7f in if eqb cleared 0 then 0x01 else cleared

unfoldable pub random_serial : Bytes → Bytes
unfolding first_byte
random_serial [] = []
random_serial (x ∷ xs) = first_byte x ∷ xs

first_byte_bounds : (x : ℕ) → (1 ≤ first_byte x) × (first_byte x ≤ 127)
unfolding first_byte
first_byte_bounds x = ground (arith, bit_and_le x 0x7f)

-- Of any random bytes that are at least one, the serial number has as many, its first byte is
-- between 1 and 127, so that as a DER INTEGER it is positive and minimal, and the others are kept.
pub random_serial-positive :
    (x : ℕ) (xs : Bytes)
    → (lead : ℕ) × (random_serial (x ∷ xs) ≡ lead ∷ xs)
      × (1 ≤ lead)
      × (lead ≤ 127)
      × (length (random_serial (x ∷ xs)) ≡ length (x ∷ xs))
unfolding random_serial
random_serial-positive x xs =
    let (low, high) = first_byte_bounds x in (first_byte x, refl, low, high, refl)
