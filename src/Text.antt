-- ===== src/Text.antt =====
-- Go strings as sequences of bytes, and the functions of package `strings` that the program calls.
pub mod Decimal
pub mod Laws
pub mod Trim
use Prim.Native.Char.{code}
use Prim.Native.String.{String}
use modex_cloud.Prelude.Int.{ℤ, pos, negsuc}
use modex_cloud.Prelude.{
  ℕ, zero, suc, ◌+◌, ◌-◌, ◌*◌, leb, ◌/◌, ◌%◌, Bool, true, false, ◌&&◌, List, [], ◌∷◌, ◌++◌, map,
  reverse, Option, none, some, ltb, length, if◌then◌else◌, ◌==◌, nat_eq,
}

abbrev pub Text : Type 0
Text = List ℕ

-- The UTF-8 encoding of a code point.
abbrev utf8 : ℕ → Text
utf8 c =
    if ltb c 0x80
    then c ∷ []
    else if ltb c 0x800
    then (0xc0 + c / 64) ∷ (0x80 + c % 64) ∷ []
    else if ltb c 0x10000
    then (0xe0 + c / 4096) ∷ (0x80 + (c / 64) % 64) ∷ (0x80 + c % 64) ∷ []
    else (0xf0 + c / 262144)
      ∷ (0x80 + (c / 4096) % 64)
      ∷ (0x80 + (c / 64) % 64)
      ∷ (0x80 + c % 64)
      ∷ []

-- A string literal of the source.
unfoldable pub text : String → Text
text String.[] = []
text (String.◌∷◌ c s) = utf8 (code c) ++ text s

-- The rest of a text behind a prefix.
pub strip_prefix : Text → Text → Option Text
strip_prefix [] s = some s
strip_prefix (a ∷ p) [] = none
strip_prefix (a ∷ p) (b ∷ s) = if a == b then strip_prefix p s else none

-- The encodings of the runes of `unicode.IsSpace`.
abbrev pub spaces : List Text
spaces =
    (9 ∷ [])
    ∷ (10 ∷ [])
    ∷ (11 ∷ [])
    ∷ (12 ∷ [])
    ∷ (13 ∷ [])
    ∷ (32 ∷ [])
    ∷ (0xc2 ∷ 0x85 ∷ [])
    ∷ (0xc2 ∷ 0xa0 ∷ [])
    ∷ (0xe1 ∷ 0x9a ∷ 0x80 ∷ [])
    ∷ (0xe2 ∷ 0x80 ∷ 0x80 ∷ [])
    ∷ (0xe2 ∷ 0x80 ∷ 0x81 ∷ [])
    ∷ (0xe2 ∷ 0x80 ∷ 0x82 ∷ [])
    ∷ (0xe2 ∷ 0x80 ∷ 0x83 ∷ [])
    ∷ (0xe2 ∷ 0x80 ∷ 0x84 ∷ [])
    ∷ (0xe2 ∷ 0x80 ∷ 0x85 ∷ [])
    ∷ (0xe2 ∷ 0x80 ∷ 0x86 ∷ [])
    ∷ (0xe2 ∷ 0x80 ∷ 0x87 ∷ [])
    ∷ (0xe2 ∷ 0x80 ∷ 0x88 ∷ [])
    ∷ (0xe2 ∷ 0x80 ∷ 0x89 ∷ [])
    ∷ (0xe2 ∷ 0x80 ∷ 0x8a ∷ [])
    ∷ (0xe2 ∷ 0x80 ∷ 0xa8 ∷ [])
    ∷ (0xe2 ∷ 0x80 ∷ 0xa9 ∷ [])
    ∷ (0xe2 ∷ 0x80 ∷ 0xaf ∷ [])
    ∷ (0xe2 ∷ 0x81 ∷ 0x9f ∷ [])
    ∷ (0xe3 ∷ 0x80 ∷ 0x80 ∷ [])
    ∷ []

-- What follows the first listed text that is a prefix.
pub strip_any : List Text → Text → Option Text
strip_any [] s = none
strip_any (p ∷ ps) s = elim (strip_prefix p s) [ some r ↦ some r | none ↦ strip_any ps s ]

-- Strips listed prefixes until none is left, at most as often as the fuel says.
pub strip_all : ℕ → List Text → Text → Text
strip_all zero ps s = s
strip_all (suc f) ps s = elim (strip_any ps s) [ some r ↦ strip_all f ps r | none ↦ s ]

pub trim_left : Text → Text
unfolding strip_all strip_any strip_prefix
trim_left s = strip_all (length s) spaces s

pub trim_right : Text → Text
unfolding strip_all strip_any strip_prefix
trim_right s = reverse (strip_all (length s) (map reverse spaces) (reverse s))

-- `strings.TrimSpace`: by the encodings above, from both ends.
unfoldable pub trim_space : Text → Text
unfolding trim_left trim_right
trim_space s = trim_right (trim_left s)

-- `strings.HasPrefix`.
unfoldable pub has_prefix : Text → Text → Bool
has_prefix s [] = true
has_prefix [] (b ∷ p) = false
has_prefix (a ∷ s) (b ∷ p) = a == b && has_prefix s p

-- `strings.Split` at one byte.
split_cons : ℕ → List Text → List Text
split_cons a [] = (a ∷ []) ∷ []
split_cons a (w ∷ ws) = (a ∷ w) ∷ ws

unfoldable pub split : Text → ℕ → List Text
unfolding split_cons
split [] sep = [] ∷ []
split (a ∷ s) sep = if a == sep then [] ∷ split s sep else split_cons a (split s sep)

-- `strings.Join`.
unfoldable pub join : List Text → Text → Text
join [] sep = []
join (w ∷ []) sep = w
join (w ∷ v ∷ ws) sep = w ++ (sep ++ join (v ∷ ws) sep)

-- `strings.TrimRight` with one byte as the cutset.
trim_byte : ℕ → Text → Text
trim_byte b [] = []
trim_byte b (a ∷ s) = if a == b then trim_byte b s else a ∷ s

unfoldable pub trim_right_byte : Text → ℕ → Text
unfolding trim_byte
trim_right_byte s b = reverse (trim_byte b (reverse s))

-- Decimal digits, the last first; a number needs no more rounds than itself plus one.
digits : ℕ → ℕ → Text
digits zero n = []
digits (suc f) n =
    let more = digits f (n / 10) in (b'0' + n % 10) ∷ (if n / 10 == 0 then [] else more)

-- `strconv.Itoa`, and `%d`.
unfoldable pub itoa_ℕ : ℕ → Text
unfolding digits
itoa_ℕ n = reverse (digits (suc n) n)

unfoldable pub itoa : ℤ → Text
unfolding itoa_ℕ
itoa (pos n) = itoa_ℕ n
itoa (negsuc n) = b'-' ∷ itoa_ℕ (suc n)

-- `encoding/hex`.
abbrev pub hex_digit : ℕ → ℕ
hex_digit d = if ltb d 10 then b'0' + d else b'a' + (d - 10)

unfoldable pub hex_encode : Text → Text
hex_encode [] = []
hex_encode (b ∷ s) = hex_digit (b / 16) ∷ hex_digit (b % 16) ∷ hex_encode s

unfoldable pub hex_value : ℕ → Option ℕ
hex_value c =
    if leb b'0' c && leb c b'9'
    then some (c - b'0')
    else if leb b'a' c && leb c b'f'
    then some (c - b'a' + 10)
    else if leb b'A' c && leb c b'F'
    then some (c - b'A' + 10)
    else none

-- Two digits and what follows them; an error in any of them is an error.
abbrev pub hex_pair : Option ℕ → Option ℕ → Option Text → Option Text
hex_pair (some x) (some y) (some r) = some ((x * 16 + y) ∷ r)
hex_pair _ _ _ = none

unfoldable pub hex_decode : Text → Option Text
hex_decode [] = some []
hex_decode (a ∷ []) = none
hex_decode (a ∷ b ∷ s) = hex_pair (hex_value a) (hex_value b) (hex_decode s)

-- The value of a run of decimal digits, `none` at any other byte.
unfoldable pub decimal : ℕ → Text → Option ℕ
decimal acc [] = some acc
decimal acc (c ∷ s) =
    let rest = decimal (acc * 10 + (c - b'0')) s in if leb b'0' c && leb c b'9' then rest else none

-- `strconv.Atoi`, `none` where it reports an error: no digits, another byte, or out of range.
in_range : Bool → Option ℕ → Option ℤ
in_range negative none = none
in_range false (some n) = if ltb n 0x8000000000000000 then some (pos n) else none
in_range true (some zero) = some (pos 0)
in_range true (some (suc n)) = if ltb n 0x8000000000000000 then some (negsuc n) else none

unsigned : Bool → Text → Option ℤ
unsigned negative [] = none
unsigned negative (c ∷ s) = in_range negative (decimal 0 (c ∷ s))

unfoldable pub atoi : Text → Option ℤ
unfolding unsigned in_range decimal
atoi [] = none
atoi (c ∷ s) =
    if c == b'-'
    then unsigned true s
    else if c == b'+'
    then unsigned false s
    else unsigned false (c ∷ s)

-- `strings.HasSuffix` and `strings.TrimPrefix`.
unfoldable pub has_suffix : Text → Text → Bool
unfolding has_prefix
has_suffix s p = has_prefix (reverse s) (reverse p)

unfoldable pub trim_prefix : Text → Text → Text
unfolding strip_prefix
trim_prefix s p = elim (strip_prefix p s) [ none ↦ s | some rest ↦ rest ]

-- A byte of `strings.ToLower`, for a test against ASCII letters other than `k`: no rune outside ASCII
-- has one of these as its lower case.
abbrev pub lower_byte : ℕ → ℕ
lower_byte c = if leb b'A' c && leb c b'Z' then c + 32 else c
