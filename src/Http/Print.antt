-- ===== src/Http/Print.antt =====
-- The texts that src/http/scep.rs makes of serial numbers, times and names.
pub mod Serials
pub mod Decimal
use Prim.Native.String
use blapki.Prelude.{
  ℕ, zero, suc, ◌-◌, ◌*◌, ◌/◌, ◌%◌, ◌^◌, String, true, false, none, some, List, [], ◌∷◌, Bytes,
  format, codes, length, ltb, leb, trim, split, strip_prefix, bit_or, if◌then◌else◌,
}
use blapki.Crates.{DateTime}

abbrev digit_text : ℕ → List String → String
digit_text n [] = ""
digit_text zero (s ∷ more) = s
digit_text (suc n) (s ∷ more) = digit_text n more

abbrev decimal_digit : ℕ → String
decimal_digit n = digit_text n ("0" ∷ "1" ∷ "2" ∷ "3" ∷ "4" ∷ "5" ∷ "6" ∷ "7" ∷ "8" ∷ "9" ∷ [])

-- The digits of `n` before `tail`; a number has at most as many digits as its value and one more.
decimal_from : ℕ → ℕ → String → String
decimal_from zero n tail = String.◌++◌ (decimal_digit n) tail
decimal_from (suc fuel) n tail = elim (ltb n 10) [
  | true ↦ String.◌++◌ (decimal_digit n) tail
  | false ↦ decimal_from fuel (n / 10) (String.◌++◌ (decimal_digit (n % 10)) tail)
]

-- `n.to_string()`
unfoldable pub decimal : ℕ → String
unfolding decimal_from
decimal n = decimal_from n n ""

zeros : ℕ → String → String
zeros zero s = s
zeros (suc n) s = String.◌++◌ "0" (zeros n s)

-- `{:0w}`
unfoldable pub padded : ℕ → ℕ → String
unfolding zeros decimal
padded w n = let s = decimal n in zeros (w - length (codes s)) s

unfoldable pub time_to_utc : DateTime → String
unfolding padded
time_to_utc t = format (
    padded 4 t.year
    ∷ "-"
    ∷ padded 2 t.month
    ∷ "-"
    ∷ padded 2 t.day
    ∷ "T"
    ∷ padded 2 t.hour
    ∷ ":"
    ∷ padded 2 t.minutes
    ∷ ":"
    ∷ padded 2 t.seconds
    ∷ "Z"
    ∷ [])

-- `v = (v << 8) | b` on a `u128`
unfoldable pub serial_value : ℕ → Bytes → ℕ
serial_value v [] = v
serial_value v (b ∷ bytes) = serial_value (bit_or (v * 256 % 2 ^ 128) b) bytes

-- `hex_encode` is the `hex` crate's.
unfoldable pub serial_decimal : (Bytes → String) → Bytes → String
unfolding serial_value decimal
serial_decimal hex_encode bytes =
    if leb (length bytes) 16 then decimal (serial_value 0 bytes) else hex_encode bytes

-- The first part that names a CN, or the whole.
unfoldable pub first_cn : String → List String → String
unfolding trim strip_prefix
first_cn dn [] = dn
first_cn dn (part ∷ parts) = elim (strip_prefix "CN=" (trim part)) [
  | some cn ↦ cn
  | none ↦ first_cn dn parts
]

unfoldable pub common_name : String → String
unfolding split first_cn
common_name dn = first_cn dn (split b',' dn)
