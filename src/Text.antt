-- ===== src/Text.antt =====
-- `str` operations of the Rust standard library, over a text given by its bytes.
pub mod Encode
pub mod Laws
pub mod Words
pub mod Decimal
pub mod Search
pub mod Ascii
pub mod Utf8
use vaultproxy.Prelude.{
  ℕ, zero, suc, Bool, true, false, not, ◌&&◌, ◌||◌, Option, none, some, List, [], ◌∷◌, ◌++◌,
  if◌then◌else◌, leb, ltb, eqb, ◌+◌, Text, text_beq, ◌≡◌, refl, arith, ap,
}

-- `s.is_empty()`
abbrev pub is_empty : Text → Bool
is_empty [] = true
is_empty (c ∷ s) = false

-- `s.starts_with(p)`
unfoldable pub starts_with : Text → Text → Bool
starts_with s [] = true
starts_with [] (c ∷ p) = false
starts_with (d ∷ s) (c ∷ p) = eqb d c && starts_with s p

-- `s.contains(p)`
unfoldable pub contains : Text → Text → Bool
contains [] p = is_empty p
contains (d ∷ s) p = starts_with (d ∷ s) p || contains s p

-- `s.ends_with(c)` for a character
unfoldable pub ends_with_char : Text → ℕ → Bool
ends_with_char [] c = false
ends_with_char (d ∷ []) c = eqb d c
ends_with_char (d ∷ e ∷ s) c = ends_with_char (e ∷ s) c

-- `s.trim_end_matches(c)` for a character
unfoldable pub trim_end_matches : ℕ → Text → Text
trim_end_matches c [] = []
trim_end_matches c (d ∷ s) =
    let rest = trim_end_matches c s in if is_empty rest && eqb d c then [] else d ∷ rest

-- `s.split_once(c)` for a character
unfoldable pub split_once : ℕ → Text → Option (Text × Text)
split_once c [] = none
split_once c (d ∷ s) =
    let rest = split_once c s in
    if eqb d c then some ([], s) else elim rest [ none ↦ none | some (a, b) ↦ some (d ∷ a, b) ]

-- `b'A'..=b'Z' | b'a'..=b'z' | b'0'..=b'9'`
unfoldable pub is_ascii_alphanumeric : ℕ → Bool
is_ascii_alphanumeric c =
    (leb b'A' c && leb c b'Z') || (leb b'a' c && leb c b'z') || (leb b'0' c && leb c b'9')

-- `s.starts_with(c)` for a character
abbrev pub starts_with_char : Text → ℕ → Bool
starts_with_char [] c = false
starts_with_char (d ∷ s) c = eqb d c

-- `s.split(c)` for a character: the parts between its occurrences, one at least.
abbrev pub push_front : ℕ → List Text → List Text
push_front d [] = (d ∷ []) ∷ []
push_front d (p ∷ ps) = (d ∷ p) ∷ ps

unfoldable pub split : ℕ → Text → List Text
split c [] = [] ∷ []
split c (d ∷ s) = let rest = split c s in if eqb d c then [] ∷ rest else push_front d rest

-- The bytes of a code point in UTF-8, and `s.len()` of a text given by its code points.
abbrev pub char_len : ℕ → ℕ
char_len c = if ltb c 0x80 then 1 else if ltb c 0x800 then 2 else if ltb c 0x10000 then 3 else 4

unfoldable pub byte_len : Text → ℕ
byte_len [] = 0
byte_len (c ∷ s) = char_len c + byte_len s

-- `str::from_utf8(..).is_ok()`: how many bytes may follow a leading byte, and the range of the
-- next one.
unfoldable pub utf8_lead : ℕ → Option (ℕ × ℕ × ℕ)
utf8_lead b =
    if ltb b 0x80
    then some (0, 0x80, 0xbf)
    else if leb 0xc2 b && leb b 0xdf
    then some (1, 0x80, 0xbf)
    else if eqb b 0xe0
    then some (2, 0xa0, 0xbf)
    else if eqb b 0xed
    then some (2, 0x80, 0x9f)
    else if leb 0xe1 b && leb b 0xef
    then some (2, 0x80, 0xbf)
    else if eqb b 0xf0
    then some (3, 0x90, 0xbf)
    else if leb 0xf1 b && leb b 0xf3
    then some (3, 0x80, 0xbf)
    else if eqb b 0xf4
    then some (3, 0x80, 0x8f)
    else none

unfoldable pub utf8_from : ℕ → ℕ → ℕ → Text → Bool
unfolding utf8_lead
utf8_from zero lo hi [] = true
utf8_from (suc p) lo hi [] = false
utf8_from zero lo hi (b ∷ s) = elim (utf8_lead b) [
  | none ↦ false
  | some (p, lo', hi') ↦ utf8_from p lo' hi' s
]
utf8_from (suc p) lo hi (b ∷ s) = leb lo b && leb b hi && utf8_from p 0x80 0xbf s

unfoldable pub is_utf8 : Text → Bool
unfolding utf8_from
is_utf8 s = utf8_from 0 0x80 0xbf s

-- `char::is_whitespace`
unfoldable pub is_whitespace : ℕ → Bool
is_whitespace c =
    (leb 0x09 c && leb c 0x0d)
    || eqb c 0x20
    || eqb c 0x85
    || eqb c 0xa0
    || eqb c 0x1680
    || (leb 0x2000 c && leb c 0x200a)
    || eqb c 0x2028
    || eqb c 0x2029
    || eqb c 0x202f
    || eqb c 0x205f
    || eqb c 0x3000

unfoldable pub trim_start : Text → Text
trim_start [] = []
trim_start (c ∷ s) = let rest = trim_start s in if is_whitespace c then rest else c ∷ s

unfoldable pub trim_end : Text → Text
trim_end [] = []
trim_end (c ∷ s) =
    let rest = trim_end s in if is_empty rest && is_whitespace c then [] else c ∷ rest

unfoldable pub trim : Text → Text
trim s = trim_end (trim_start s)

-- `s.lines()`: a line feed ends a line, with one carriage return before it.
abbrev pub ends_line : ℕ → Text → Bool
ends_line c s = eqb c 0x0d && starts_with_char s 0x0a

unfoldable pub lines : Text → List Text
lines [] = []
lines (c ∷ s) =
    let rest = lines s in
    if eqb c 0x0a then [] ∷ rest else if ends_line c s then rest else push_front c rest

-- `s.split_whitespace()`: the words, each of which the fold keeps in front until a space ends it.
abbrev pub add_to_word : ℕ → Text → List Text → List Text
add_to_word c s [] = (c ∷ []) ∷ []
add_to_word c [] (w ∷ ws) = (c ∷ []) ∷ w ∷ ws
add_to_word c (d ∷ s) (w ∷ ws) = if is_whitespace d then (c ∷ []) ∷ w ∷ ws else (c ∷ w) ∷ ws

unfoldable pub split_whitespace : Text → List Text
split_whitespace [] = []
split_whitespace (c ∷ s) =
    let rest = split_whitespace s in if is_whitespace c then rest else add_to_word c s rest

-- `words.nth(1)`
unfoldable pub second : List Text → Option Text
second [] = none
second (w ∷ []) = none
second (w ∷ v ∷ ws) = some v

-- `parts.join(",")`
unfoldable pub join : ℕ → List Text → Text
join c [] = []
join c (p ∷ []) = p
join c (p ∷ q ∷ ps) = p ++ c ∷ join c (q ∷ ps)
