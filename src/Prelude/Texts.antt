-- ===== src/Prelude/Texts.antt =====
-- The functions on `str` and `[u8]` that the program calls, from Rust's standard library.
use Prim.Native.Nat.{ℕ, zero, suc, ◌+◌, ◌/◌, ◌%◌}
use Prim.Native.Char.{Char, code}
use Prim.Native.String
use Prim.Native.String.{String}
use mathlib.Core.Path.{◌≡◌}
use mathlib.Core.Logic.{◌↔◌}
use mathlib.Core.Bool.{Bool, true, false, ◌||◌, ◌&&◌}
use mathlib.Core.Option.{Option, none, some}
use mathlib.Core.List.{List, [], ◌∷◌, ◌++◌}
use native.Mathlib.Omega.{arith}
use blapki.Prelude.Tests.{eqb, ltb, leb, if◌then◌else◌}

-- A `u8` is a number below 256.
abbrev pub Bytes : Type 0
Bytes = List ℕ

-- `format!`: the pieces of the text, one after the other.
abbrev pub format : List String → String
format [] = ""
format (s ∷ []) = s
format (s ∷ t ∷ more) = String.◌++◌ s (format (t ∷ more))

abbrev pub codes : String → List ℕ
codes String.[] = []
codes (String.◌∷◌ c s) = code c ∷ codes s

abbrev is_empty : String → Bool
is_empty String.[] = true
is_empty (String.◌∷◌ c s) = false

-- The code points with the property White_Space.
unfoldable pub char_is_whitespace : ℕ → Bool
char_is_whitespace c =
    (leb 9 c && leb c 13)
    || eqb c 32
    || eqb c 0x85
    || eqb c 0xa0
    || eqb c 0x1680
    || (leb 0x2000 c && leb c 0x200a)
    || eqb c 0x2028
    || eqb c 0x2029
    || eqb c 0x202f
    || eqb c 0x205f
    || eqb c 0x3000

unfoldable pub trim_start : String → String
unfolding char_is_whitespace
trim_start String.[] = ""
trim_start (String.◌∷◌ c s) = if char_is_whitespace (code c) then trim_start s else String.◌∷◌ c s

-- drops the characters at the end that pass the test
unfoldable pub trim_end_by : (ℕ → Bool) → String → String
trim_end_by p String.[] = ""
trim_end_by p (String.◌∷◌ c s) =
    let rest = trim_end_by p s in if is_empty rest && p (code c) then "" else String.◌∷◌ c rest

unfoldable pub trim_end : String → String
unfolding trim_end_by char_is_whitespace
trim_end s = trim_end_by char_is_whitespace s

unfoldable pub trim : String → String
unfolding trim_start trim_end
trim s = trim_end (trim_start s)

-- `s.trim_end_matches(ch)`, by the code of `ch`
unfoldable pub trim_end_matches : ℕ → String → String
unfolding trim_end_by
trim_end_matches ch s = trim_end_by (λ c. eqb c ch) s

unfoldable pub strip_prefix : String → String → Option String
strip_prefix String.[] s = some s
strip_prefix (String.◌∷◌ c p) String.[] = none
strip_prefix (String.◌∷◌ c p) (String.◌∷◌ d s) =
    if eqb (code c) (code d) then strip_prefix p s else none

-- `s.chars().take(n).collect()`
unfoldable pub take_chars : ℕ → String → String
take_chars zero s = ""
take_chars (suc n) String.[] = ""
take_chars (suc n) (String.◌∷◌ c s) = String.◌∷◌ c (take_chars n s)

abbrev push_front : Char → List String → List String
push_front c [] = String.◌∷◌ c "" ∷ []
push_front c (part ∷ parts) = String.◌∷◌ c part ∷ parts

-- `s.split(ch)`, by the code of `ch`; there is always a part
unfoldable pub split : ℕ → String → List String
split ch String.[] = "" ∷ []
split ch (String.◌∷◌ c s) =
    let parts = split ch s in if eqb (code c) ch then "" ∷ parts else push_front c parts

-- The UTF-8 form of a code point.
unfoldable pub utf8 : ℕ → Bytes
utf8 c =
    if ltb c 0x80
    then c ∷ []
    else if ltb c 0x800
    then (0xc0 + c / 64) ∷ (0x80 + c % 64) ∷ []
    else if ltb c 0x10000
    then (0xe0 + c / 4096) ∷ (0x80 + c / 64 % 64) ∷ (0x80 + c % 64) ∷ []
    else (0xf0 + c / 262144) ∷ (0x80 + c / 4096 % 64) ∷ (0x80 + c / 64 % 64) ∷ (0x80 + c % 64) ∷ []

-- `s.as_bytes()`
unfoldable pub as_bytes : String → Bytes
unfolding utf8
as_bytes String.[] = []
as_bytes (String.◌∷◌ c s) = utf8 (code c) ++ as_bytes s

-- `==` on byte slices
unfoldable pub bytes_eq : Bytes → Bytes → Bool
bytes_eq [] [] = true
bytes_eq (x ∷ xs) (y ∷ ys) = eqb x y && bytes_eq xs ys
bytes_eq _ _ = false

pub bytes_eq_iff : (xs ys : Bytes) → (bytes_eq xs ys ≡ true) ↔ (xs ≡ ys)
unfolding bytes_eq
bytes_eq_iff [] [] = ground arith
bytes_eq_iff [] (y ∷ ys) = ground arith
bytes_eq_iff (x ∷ xs) [] = ground arith
bytes_eq_iff (x ∷ xs) (y ∷ ys) = ground (arith, bytes_eq_iff xs ys)
