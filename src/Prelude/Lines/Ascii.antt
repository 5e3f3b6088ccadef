-- ===== src/Prelude/Lines/Ascii.antt =====
-- ASCII texts: as bytes and back, and line by line.
use Prim.Native.Nat.{ℕ}
use Prim.Native.Char.{Char, char, code}
use Prim.Native.String.{String, ◌++◌}
use mathlib.Core.Path.{◌≡◌, refl, ap, ◌∙◌, sym}
use mathlib.Core.Logic.{inl, inr}
use mathlib.Core.Bool.{Bool, true, false, ◌&&◌}
use mathlib.Core.Option.{none, some}
use mathlib.Core.List
use mathlib.Core.List.{List, [], ◌∷◌}
use native.Mathlib.Omega.{arith}
use text.Mathlib.Text.{◌==◌}
use text.Mathlib.TextEquality.{eq_iff, Char-path}
use text.Mathlib.TextLemmas.{cons-append, nil-append, head-eq_of_cons-eq, append_assoc}
use blapki.Prelude.Tests.{ltb, leb, Bool-cases}
use blapki.Prelude.Lists.{All}
use blapki.Prelude.Texts.{
  Bytes, utf8, as_bytes, char_is_whitespace, trim_start, trim_end_by, trim_end, trim, strip_prefix,
  split,
}
use blapki.Prelude.Lines.{
  scalar_of, scalar_low, push_char, from_u32, utf8_from, from_utf8, starts_with, strip_suffix,
  contains, strip_cr, lines_of, lines,
}

-- Every character has a code that passes a test.
abbrev pub AllCodes : (ℕ → Bool) → String → Type 0
AllCodes p String.[] = Unit
AllCodes p (String.◌∷◌ c s) = (p (code c) ≡ true) × AllCodes p s

-- The same as a test, for a text at hand.
abbrev pub all_codes : (ℕ → Bool) → String → Bool
all_codes p String.[] = true
all_codes p (String.◌∷◌ c s) = p (code c) && all_codes p s

pub AllCodes-of_test : (p : ℕ → Bool) (s : String) → all_codes p s ≡ true → AllCodes p s
AllCodes-of_test p String.[] h = tt
AllCodes-of_test p (String.◌∷◌ c s) h = ground (arith, AllCodes-of_test p s)

pub AllCodes-append :
    (p : ℕ → Bool) (s t : String) → AllCodes p s → AllCodes p t → AllCodes p (s ++ t)
AllCodes-append p String.[] t hs ht = rw (nil-append t) ht
AllCodes-append p (String.◌∷◌ c s) t (h, hs) ht =
    rw (cons-append c s t) (h, AllCodes-append p s t hs ht)

pub AllCodes-weaken :
    (p q : ℕ → Bool) (s : String)
    → ((n : ℕ) → p n ≡ true → q n ≡ true)
    → AllCodes p s
    → AllCodes q s
AllCodes-weaken p q String.[] imp h = tt
AllCodes-weaken p q (String.◌∷◌ c s) imp (h, hs) = (imp (code c) h, AllCodes-weaken p q s imp hs)

abbrev pub is_ascii : ℕ → Bool
is_ascii n = ltb n 128

scalar_of-low :
    (n : ℕ) (low high : Bool) (h : ltb n 0xd800 ≡ low) (k : (ltb 0xdfff n && ltb n 0x110000) ≡ high)
    (c : Char)
    → low ≡ true
    → code c ≡ n
    → scalar_of n low high h k ≡ some c
unfolding scalar_of
scalar_of-low n true high h k c e d = ap some (Char-path (char n (scalar_low n h)) c (sym d))
scalar_of-low n false high h k c e d = absurd (ground arith)

from_u32-low : (c : Char) → ltb (code c) 0xd800 ≡ true → from_u32 (code c) ≡ some c
unfolding from_u32
from_u32-low c h = scalar_of-low (code c) _ _ refl refl c h refl

utf8_from-low :
    (a : ℕ) (bytes : Bytes)
    → is_ascii a ≡ true
    → utf8_from none (a ∷ bytes) ≡ push_char (from_u32 a) (utf8_from none bytes)
unfolding utf8_from
utf8_from-low a bytes h = rw (h, utf8_from) refl

as_bytes-low :
    (c : Char) (s : String)
    → is_ascii (code c) ≡ true
    → as_bytes (String.◌∷◌ c s) ≡ code c ∷ as_bytes s
unfolding as_bytes utf8
as_bytes-low c s h = rw h refl

utf8_from-as_bytes : (s : String) → AllCodes is_ascii s → utf8_from none (as_bytes s) ≡ some s
unfolding as_bytes utf8_from
utf8_from-as_bytes String.[] h = refl
utf8_from-as_bytes (String.◌∷◌ c s) (h, hs) =
    ap (utf8_from none) (as_bytes-low c s h)
    ∙ utf8_from-low (code c) (as_bytes s) h
    ∙ rw (from_u32-low c (ground arith), utf8_from-as_bytes s hs) refl

pub from_utf8-as_bytes : (s : String) → AllCodes is_ascii s → from_utf8 (as_bytes s) ≡ some s
unfolding from_utf8
from_utf8-as_bytes s h = utf8_from-as_bytes s h

-- A character that trimming and the line breaks leave alone.
abbrev pub is_solid : ℕ → Bool
is_solid n = ltb 32 n && ltb n 127

solid_not_space : (n : ℕ) → is_solid n ≡ true → char_is_whitespace n ≡ false
unfolding char_is_whitespace
solid_not_space n h = ground arith

trim_end_by-solid : (s : String) → AllCodes is_solid s → trim_end_by char_is_whitespace s ≡ s
unfolding trim_end_by
trim_end_by-solid String.[] h = refl
trim_end_by-solid (String.◌∷◌ c s) (h, hs) =
    ground (arith, trim_end_by-solid s hs, solid_not_space (code c) h)

pub trim-solid : (s : String) → AllCodes is_solid s → trim s ≡ s
unfolding trim trim_start trim_end
trim-solid String.[] h = refl
trim-solid (String.◌∷◌ c s) (h, hs) =
    rw (solid_not_space (code c) h) (trim_end_by-solid (String.◌∷◌ c s) (h, hs))

pub strip_prefix-append : (p s : String) → strip_prefix p (p ++ s) ≡ some s
unfolding strip_prefix
strip_prefix-append String.[] s = rw (nil-append s) refl
strip_prefix-append (String.◌∷◌ c p) s =
    rw (cons-append c p s) (ground (arith, strip_prefix-append p s))

contains_of_starts_with : (p t : String) → starts_with p t ≡ true → contains p t ≡ true
unfolding contains
contains_of_starts_with p String.[] h = h
contains_of_starts_with p (String.◌∷◌ c t) h = rw h refl

pub contains-append : (p s : String) → contains p (p ++ s) ≡ true
unfolding starts_with
contains-append p s = contains_of_starts_with p (p ++ s) (rw (strip_prefix-append p s) refl)

-- A character that may stand within a line.
abbrev pub is_inline : ℕ → Bool
is_inline n = leb 32 n && ltb n 127

-- A line that no line break cuts.
split-line :
    (l rest : String)
    → AllCodes is_inline l
    → split b'\n' (l ++ (String.◌∷◌ "\n" rest)) ≡ l ∷ split b'\n' rest
unfolding split
split-line String.[] rest h = rw (nil-append (String.◌∷◌ "\n" rest)) refl
split-line (String.◌∷◌ c l) rest (h, hs) =
    rw (cons-append c l (String.◌∷◌ "\n" rest)) (ground (arith, split-line l rest hs))

strip_suffix-inline : (l : String) → AllCodes is_inline l → strip_suffix "\r" l ≡ none
unfolding strip_suffix
strip_suffix-inline String.[] h = refl
strip_suffix-inline (String.◌∷◌ c l) (h, hs) = elim (Bool-cases ("\r" == String.◌∷◌ c l)) [
  | inr no' ↦ rw (no', strip_suffix) (rw (strip_suffix-inline l hs) refl)
  | inl yes' ↦
      let e : code "\r" ≡ code c =
        ap code (head-eq_of_cons-eq ((eq_iff "\r" (String.◌∷◌ c l)).0 yes')) in
      absurd (ground arith)
]

strip_cr-inline : (l : String) → AllCodes is_inline l → strip_cr l ≡ l
unfolding strip_cr
strip_cr-inline l h = rw (strip_suffix-inline l h, strip_cr) refl

-- A text of whole lines.
abbrev pub unlines : List String → String
unlines [] = ""
unlines (l ∷ ls) = l ++ String.◌∷◌ "\n" (unlines ls)

-- What `split` makes of such a text.
abbrev with_rest : List String → List String
with_rest [] = "" ∷ []
with_rest (l ∷ ls) = l ∷ with_rest ls

split-unlines :
    (ls : List String) → All (AllCodes is_inline) ls → split b'\n' (unlines ls) ≡ with_rest ls
unfolding split
split-unlines [] h = refl
split-unlines (l ∷ ls) (h, hs) = split-line l (unlines ls) h ∙ ap (λ r. l ∷ r) (split-unlines ls hs)

lines_of-with_rest : (ls : List String) → All (AllCodes is_inline) ls → lines_of (with_rest ls) ≡ ls
unfolding lines_of
lines_of-with_rest [] h = refl
lines_of-with_rest (l ∷ []) (h, hs) = ap (λ t. t ∷ []) (strip_cr-inline l h)
lines_of-with_rest (l ∷ k ∷ ls) (h, hs) =
    rw (strip_cr-inline l h, lines_of-with_rest (k ∷ ls) hs) refl

pub lines-unlines : (ls : List String) → All (AllCodes is_inline) ls → lines (unlines ls) ≡ ls
unfolding lines
lines-unlines ls h = rw (split-unlines ls h) (lines_of-with_rest ls h)

pub unlines-append : (ks ls : List String) → unlines (List.◌++◌ ks ls) ≡ unlines ks ++ unlines ls
unlines-append [] ls = sym (nil-append (unlines ls))
unlines-append (k ∷ ks) ls =
    rw
      (
        append_assoc k (String.◌∷◌ "\n" (unlines ks)) (unlines ls),
        cons-append "\n" (unlines ks) (unlines ls),
        unlines-append ks ls,
      )
      refl

unlines-is_ascii : (ls : List String) → All (AllCodes is_inline) ls → AllCodes is_ascii (unlines ls)
unlines-is_ascii [] h = tt
unlines-is_ascii (l ∷ ls) (h, hs) =
    AllCodes-append is_ascii l (String.◌∷◌ "\n" (unlines ls))
      (AllCodes-weaken is_inline is_ascii l (λ n k. ground arith) h) (refl, unlines-is_ascii ls hs)

-- A text of lines of visible ASCII survives its bytes.
pub from_utf8-unlines :
    (ls : List String)
    → All (AllCodes is_inline) ls
    → from_utf8 (as_bytes (unlines ls)) ≡ some (unlines ls)
from_utf8-unlines ls h = from_utf8-as_bytes (unlines ls) (unlines-is_ascii ls h)
