-- ===== src/Prelude/Texts.antt =====
-- Texts that the program compares whole, and the shapes that it tests by regular expressions.
use Prim.Native.Nat.{ℕ, ◌+◌, ◌-◌, ◌*◌}
use Prim.Native.Char.{code}
use Prim.Native.String.{String}
use mathlib.Core.Path.{◌≡◌}
use mathlib.Core.Logic.{◌↔◌}
use mathlib.Core.Bool.{Bool, true, ◌&&◌, ◌||◌}
use mathlib.Core.List.{List, [], ◌∷◌}
use text.Mathlib.Text.{◌==◌}
use text.Mathlib.TextEquality.{eq_iff}
use hyeboard.Prelude.Tests.{ltb, if◌then◌else◌, leb, ◌==◌ as nat_eq}
use hyeboard.Prelude.Lists.{length, all}

abbrev pub str_eq : String → String → Bool
str_eq a b = a == b

pub str_eq_iff : (a b : String) → (str_eq a b ≡ true) ↔ (a ≡ b)
str_eq_iff a b = eq_iff a b

abbrev pub codes : String → List ℕ
codes String.[] = []
codes (String.◌∷◌ c s) = code c ∷ codes s

-- `s.length`: UTF-16 units, two for a code point past the first plane.
abbrev utf16_units : List ℕ → ℕ
utf16_units [] = 0
utf16_units (c ∷ cs) = (if ltb c 65536 then 1 else 2) + utf16_units cs

unfoldable pub utf16_length : String → ℕ
utf16_length s = utf16_units (codes s)

abbrev in_range : ℕ → ℕ → ℕ → Bool
in_range lo hi c = leb lo c && leb c hi

-- `[A-Za-z0-9_-]`
abbrev is_base64url_char : ℕ → Bool
is_base64url_char c =
    in_range b'A' b'Z' c
    || in_range b'a' b'z' c
    || in_range b'0' b'9' c
    || nat_eq c b'_'
    || nat_eq c b'-'

-- `[0-9a-f]`
abbrev is_hex_char : ℕ → Bool
is_hex_char c = in_range b'0' b'9' c || in_range b'a' b'f' c

-- `/^[A-Za-z0-9_-]{22}$/`
unfoldable pub is_base64url_22 : String → Bool
is_base64url_22 s = nat_eq (length (codes s)) 22 && all is_base64url_char (codes s)

-- `/^[0-9a-f]{n}$/`
unfoldable pub is_hex : ℕ → String → Bool
is_hex n s = nat_eq (length (codes s)) n && all is_hex_char (codes s)

-- `Number(text)` of decimal digits, after those that gave `acc`.
unfoldable pub read_digits : ℕ → List ℕ → ℕ
read_digits acc [] = acc
read_digits acc (c ∷ cs) = read_digits (acc * 10 + (c - b'0')) cs

abbrev pub number_of : String → ℕ
number_of s = read_digits 0 (codes s)
