-- ===== src/Prelude/Lines.antt =====
-- Texts as lines and as bytes: what the program calls of `str` to read PEM.
pub mod Ascii
use Prim.Native.Nat.{ℕ, ◌+◌, ◌-◌, ◌*◌}
use Prim.Native.Char.{Char, char, code, IsScalar}
use Prim.Native.String.{String}
use mathlib.Core.Path.{◌≡◌, refl}
use mathlib.Core.Bool.{Bool, true, false, ◌&&◌, ◌||◌}
use mathlib.Core.Option.{Option, none, some}
use mathlib.Core.List.{List, [], ◌∷◌}
use native.Mathlib.Omega.{arith}
use text.Mathlib.Text.{◌==◌}
use blapki.Prelude.Tests.{ltb, leb, is_some, if◌then◌else◌}
use blapki.Prelude.Results.{map_option}
use blapki.Prelude.Texts.{Bytes, char_is_whitespace, strip_prefix, split}

scalar_low : (n : ℕ) → ltb n 0xd800 ≡ true → IsScalar n
scalar_low n h = ground arith

scalar_high : (n : ℕ) → (ltb 0xdfff n && ltb n 0x110000) ≡ true → IsScalar n
scalar_high n h = ground arith

scalar_of :
    (n : ℕ) (low high : Bool)
    → ltb n 0xd800 ≡ low
    → (ltb 0xdfff n && ltb n 0x110000) ≡ high
    → Option Char
unfolding scalar_low scalar_high
scalar_of n true high h k = some (char n (scalar_low n h))
scalar_of n false true h k = some (char n (scalar_high n k))
scalar_of n false false h k = none

-- `char::from_u32`
unfoldable pub from_u32 : ℕ → Option Char
unfolding scalar_of
from_u32 n = scalar_of n (ltb n 0xd800) (ltb 0xdfff n && ltb n 0x110000) refl refl

-- A character in the making: how many bytes are to come, its bits so far, and the least value that
-- its length may encode.
pub record Pending : Type 0 where
  pub left : ℕ
  pub bits : ℕ
  pub least : ℕ

abbrev push_char : Option Char → Option String → Option String
push_char (some c) (some s) = some (String.◌∷◌ c s)
push_char _ _ = none

abbrev first_of : ℕ → Option Pending
first_of a =
    if leb 0xc2 a && leb a 0xdf
    then some (record { left = 1; bits = a - 0xc0; least = 0x80 })
    else if leb 0xe0 a && leb a 0xef
    then some (record { left = 2; bits = a - 0xe0; least = 0x800 })
    else if leb 0xf0 a && leb a 0xf4
    then some (record { left = 3; bits = a - 0xf0; least = 0x10000 })
    else none

abbrev bits_with : Pending → ℕ → ℕ
bits_with p b = p.bits * 64 + (b - 0x80)

-- The decoder, between two bytes.
unfoldable pub utf8_from : Option Pending → Bytes → Option String
unfolding from_u32
utf8_from none [] = some ""
utf8_from (some p) [] = none
utf8_from none (a ∷ bytes) = elim (ltb a 0x80) [
  | true ↦ push_char (from_u32 a) (utf8_from none bytes)
  | false ↦ elim (first_of a) [ none ↦ none | some p ↦ utf8_from (some p) bytes ]
]
utf8_from (some p) (b ∷ bytes) = elim (leb 0x80 b && leb b 0xbf) [
  | false ↦ none
  | true ↦ elim (ltb 1 p.left) [
    | true ↦
        utf8_from (some (record { left = p.left - 1; bits = bits_with p b; least = p.least })) bytes
    | false ↦ elim (leb p.least (bits_with p b)) [
      | true ↦ push_char (from_u32 (bits_with p b)) (utf8_from none bytes)
      | false ↦ none
    ]
  ]
]

-- `std::str::from_utf8(bytes).ok()`
unfoldable pub from_utf8 : Bytes → Option String
unfolding utf8_from
from_utf8 bytes = utf8_from none bytes

unfoldable pub starts_with : String → String → Bool
unfolding strip_prefix
starts_with p s = is_some (strip_prefix p s)

unfoldable pub strip_suffix : String → String → Option String
strip_suffix p String.[] = if p == "" then some "" else none
strip_suffix p (String.◌∷◌ c s) =
    if p == String.◌∷◌ c s then some "" else map_option (λ t. String.◌∷◌ c t) (strip_suffix p s)

unfoldable pub contains : String → String → Bool
unfolding starts_with
contains p String.[] = starts_with p ""
contains p (String.◌∷◌ c s) = starts_with p (String.◌∷◌ c s) || contains p s

-- `chars().filter(|c| !c.is_whitespace()).collect()`
unfoldable pub without_whitespace : String → String
unfolding char_is_whitespace
without_whitespace String.[] = ""
without_whitespace (String.◌∷◌ c s) =
    let rest = without_whitespace s in
    if char_is_whitespace (code c) then rest else String.◌∷◌ c rest

strip_cr : String → String
unfolding strip_suffix
strip_cr s = elim (strip_suffix "\r" s) [ some t ↦ t | none ↦ s ]

-- The parts between line feeds as lines: what follows the last one is a line if it is not empty.
unfoldable pub lines_of : List String → List String
unfolding strip_cr
lines_of [] = []
lines_of (last ∷ []) = if last == "" then [] else last ∷ []
lines_of (part ∷ next ∷ more) = strip_cr part ∷ lines_of (next ∷ more)

-- `s.lines()`
unfoldable pub lines : String → List String
unfolding lines_of split
lines s = lines_of (split b'\n' s)
