-- ===== src/Http/Print/Decimal.antt =====
-- The decimal text that src/http/scep.rs gives Intune for a serial number, read back.
use Prim.Native.String
use text.Mathlib.TextLemmas.{cons-append, nil-append}
use blapki.Prelude.{
  Char, ℕ, zero, suc, ◌+◌, ◌-◌, ◌*◌, ◌/◌, ◌%◌, ◌≤◌, ◌<◌, ◌≡◌, refl, ap, ◌∙◌, String, code, Bytes,
  All, length, arith, leb, ltb, Bool-cases, inl, inr, true,
}
use blapki.Http.Print.{decimal_digit, decimal_from, decimal, serial_value, serial_decimal}
use blapki.Http.Print.Serials.{big_endian, serial_value-big_endian}

-- The number that a text of decimal digits stands for, after `acc`.
unfoldable pub read_decimal : ℕ → String → ℕ
read_decimal acc String.[] = acc
read_decimal acc (String.◌∷◌ c s) = read_decimal (acc * 10 + (code c - b'0')) s

read_decimal-char :
    (acc : ℕ) (c : Char) (tail : String)
    → read_decimal acc (String.◌++◌ (String.◌∷◌ c "") tail)
      ≡ read_decimal (acc * 10 + (code c - b'0')) tail
unfolding read_decimal
read_decimal-char acc c tail = rw (cons-append c "" tail, nil-append tail) refl

read_decimal-digit :
    (acc d : ℕ) (tail : String)
    → d < 10
    → read_decimal acc (String.◌++◌ (decimal_digit d) tail) ≡ read_decimal (acc * 10 + d) tail
unfolding read_decimal
read_decimal-digit acc zero tail h = read_decimal-char acc "0" tail
read_decimal-digit acc (suc zero) tail h = read_decimal-char acc "1" tail
read_decimal-digit acc (suc (suc zero)) tail h = read_decimal-char acc "2" tail
read_decimal-digit acc (suc (suc (suc zero))) tail h = read_decimal-char acc "3" tail
read_decimal-digit acc (suc (suc (suc (suc zero)))) tail h = read_decimal-char acc "4" tail
read_decimal-digit acc (suc (suc (suc (suc (suc zero))))) tail h = read_decimal-char acc "5" tail
read_decimal-digit acc (suc (suc (suc (suc (suc (suc zero)))))) tail h =
    read_decimal-char acc "6" tail
read_decimal-digit acc (suc (suc (suc (suc (suc (suc (suc zero))))))) tail h =
    read_decimal-char acc "7" tail
read_decimal-digit acc (suc (suc (suc (suc (suc (suc (suc (suc zero)))))))) tail h =
    read_decimal-char acc "8" tail
read_decimal-digit acc (suc (suc (suc (suc (suc (suc (suc (suc (suc zero))))))))) tail h =
    read_decimal-char acc "9" tail
read_decimal-digit acc (suc (suc (suc (suc (suc (suc (suc (suc (suc (suc n)))))))))) tail h =
    absurd (omega arith)

-- With fuel for the number, all its digits are printed.
read_decimal-decimal_from :
    (fuel n : ℕ) (tail : String)
    → n ≤ fuel
    → read_decimal 0 (decimal_from fuel n tail) ≡ read_decimal n tail
unfolding decimal_from
read_decimal-decimal_from zero zero tail h = read_decimal-digit 0 0 tail (omega arith)
read_decimal-decimal_from zero (suc n) tail h = absurd (omega arith)
read_decimal-decimal_from (suc fuel) n tail h = elim (Bool-cases (ltb n 10)) [
  | inl small ↦
      rw (small, decimal_from)
        (read_decimal-digit 0 n tail (ground arith) ∙ ap (λ k. read_decimal k tail) (omega arith))
  | inr large ↦
      rw (large, decimal_from)
        (read_decimal-decimal_from fuel (n / 10) (String.◌++◌ (decimal_digit (n % 10)) tail)
            (ground arith)
          ∙ read_decimal-digit (n / 10) (n % 10) tail (omega arith)
          ∙ ap (λ k. read_decimal k tail) (omega arith))
]

pub read_decimal-decimal : (n : ℕ) → read_decimal 0 (decimal n) ≡ n
unfolding decimal read_decimal
read_decimal-decimal n = read_decimal-decimal_from n n "" (omega arith)

-- Of a serial number of at most 16 bytes, the text that is printed reads, as a decimal number, as the
-- big-endian number of its bytes: the shifts of the 128-bit accumulator lose no bit, and the printing
-- no digit.
pub serial_decimal-read :
    (hex_encode : Bytes → String) (bytes : Bytes)
    → All (λ b. b < 256) bytes
    → length bytes ≤ 16
    → read_decimal 0 (serial_decimal hex_encode bytes) ≡ big_endian 0 bytes
unfolding serial_decimal
serial_decimal-read hex_encode bytes h le =
    let short : leb (length bytes) 16 ≡ true = ground arith in
    rw short (read_decimal-decimal (serial_value 0 bytes) ∙ serial_value-big_endian bytes h le)
