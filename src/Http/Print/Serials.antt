-- ===== src/Http/Print/Serials.antt =====
-- The number that src/http/scep.rs prints for a serial number.
use blapki.Prelude.{
  ℕ, zero, suc, ◌+◌, ◌*◌, ◌/◌, ◌%◌, ◌^◌, ◌≤◌, ◌<◌, ◌≡◌, refl, Bool, true, [], ◌∷◌, Bytes, All,
  length, arith, bit_or, bit_or-shift8, ltb, ◌&&◌,
}
use blapki.Http.Print.{serial_value}

-- The bytes as a big-endian number, without a bound.
abbrev pub big_endian : ℕ → Bytes → ℕ
big_endian v [] = v
big_endian v (b ∷ bytes) = big_endian (v * 256 + b) bytes

-- What fits before `k` more bytes.
abbrev room : ℕ → ℕ
room zero = 2 ^ 128
room (suc k) = room k / 256

room_le : (k : ℕ) → room k ≤ 2 ^ 128
room_le zero = omega arith
room_le (suc k) = omega (arith, room_le k)

-- The value does not wrap while there is room.
serial_value-room :
    (bytes : Bytes) (v : ℕ)
    → All (λ b. b < 256) bytes
    → v < room (length bytes)
    → serial_value v bytes ≡ big_endian v bytes
unfolding serial_value
serial_value-room [] v h lt = refl
serial_value-room (b ∷ bytes) v (h, hs) lt =
    let fits : v * 256 < 2 ^ 128 = omega (arith, room_le (length bytes)) in
    let whole : v * 256 % 2 ^ 128 ≡ v * 256 = omega (arith, fits) in
    let same : bit_or (v * 256 % 2 ^ 128) b ≡ v * 256 + b = rw whole (bit_or-shift8 v b h) in
    rw same (serial_value-room bytes (v * 256 + b) hs (omega arith))

room_check : ℕ → Bool
room_check zero = true
room_check (suc k) = ltb 0 (room k) && room_check k

room_check_sound : (n k : ℕ) → room_check n ≡ true → k < n → 0 < room k
unfolding room_check
room_check_sound zero k h lt = absurd (omega arith)
room_check_sound (suc n) k h lt = ground (arith, room_check_sound n k)

room_checked : room_check 17 ≡ true
unfolding room_check
room_checked = refl

-- Of a serial number of at most 16 bytes, the value that is printed is the big-endian number of its
-- bytes: the shifts of the 128-bit accumulator lose no bit.
pub serial_value-big_endian :
    (bytes : Bytes)
    → All (λ b. b < 256) bytes
    → length bytes ≤ 16
    → serial_value 0 bytes ≡ big_endian 0 bytes
serial_value-big_endian bytes h le =
    serial_value-room bytes 0 h (room_check_sound 17 (length bytes) room_checked (omega arith))
