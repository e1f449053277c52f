-- ===== src/MountHelper/Json.antt =====
-- The dependency-free JSON parser of bin/mount_helper.rs. `Parser { src, i }` is the list of bytes
-- from `i` on. A loop takes fuel and answers `stuck` when it has run out; Json/Fuel shows that one
-- more than the number of bytes is enough.
pub mod Strings
pub mod Bytewise
pub mod Documents
pub mod Fuel
use vaultproxy.Prelude.{
  ℕ, zero, suc, ◌+◌, ◌-◌, ◌*◌, ◌/◌, ◌%◌, Bool, true, false, not, ◌&&◌, ◌||◌, Option, none, some,
  List, [], ◌∷◌, ◌++◌, if◌then◌else◌, leb, ltb, eqb, HasEq, ◌==◌, text_eq, Text, codes, length,
  drop, take, Result, ok, err, ◌>>=◌, ◌>>◌, reject_if, ok_or,
}
use vaultproxy.Text.{is_empty, is_utf8}
use vaultproxy.Text.Encode.{encode_char}

pub data Value : Type 0 where
  string : Text → Value
  string_array : List Text → Value

pub record Obj : Type 0 where
  pub fields : List (Text × Value)

-- `Obj::string` and `Obj::string_array`: the first field of that name and kind.
unfoldable pub find_string : Text → List (Text × Value) → Option Text
find_string key [] = none
find_string key ((k, string s) ∷ fs) = if k == key then some s else find_string key fs
find_string key ((k, string_array a) ∷ fs) = find_string key fs

unfoldable pub find_string_array : Text → List (Text × Value) → Option (List Text)
find_string_array key [] = none
find_string_array key ((k, string s) ∷ fs) = find_string_array key fs
find_string_array key ((k, string_array a) ∷ fs) =
    if k == key then some a else find_string_array key fs

abbrev pub Bytes : Type 0
Bytes = List ℕ

abbrev pub Parse : Type 0 → Type 0
Parse A = Result Text (A × Bytes)

abbrev pub stuck : Text
stuck = codes "out of fuel"

unfoldable pub is_ws : ℕ → Bool
is_ws b = eqb b 0x20 || eqb b 0x09 || eqb b 0x0a || eqb b 0x0d

unfoldable pub skip_ws : Bytes → Bytes
skip_ws [] = []
skip_ws (b ∷ src) = let rest = skip_ws src in if is_ws b then rest else b ∷ src

abbrev pub take_char : ℕ → Bytes → Parse (Unit {0})
take_char c [] = err (codes "expected '" ++ c ∷ codes "'")
take_char c (b ∷ src) = if eqb b c then ok (tt, src) else err (codes "expected '" ++ c ∷ codes "'")

unfoldable pub expect : ℕ → Bytes → Parse (Unit {0})
expect c src = take_char c (skip_ws src)

abbrev pub head : Bytes → Option ℕ
head [] = none
head (b ∷ src) = some b

-- `peek` skips white space, which the callers then find skipped.
abbrev pub peek_is : ℕ → Bytes → Bool
peek_is c [] = false
peek_is c (b ∷ src) = eqb b c

-- A hexadecimal digit, as `u32::from_str_radix(_, 16)` reads it.
unfoldable pub hex_digit : ℕ → Option ℕ
hex_digit c =
    if leb b'0' c && leb c b'9'
    then some (c - b'0')
    else if leb b'a' c && leb c b'f'
    then some (c - b'a' + 10)
    else if leb b'A' c && leb c b'F'
    then some (c - b'A' + 10)
    else none

unfoldable pub hex_digits : ℕ → Bytes → Option ℕ
hex_digits acc [] = some acc
hex_digits acc (c ∷ cs) = elim (hex_digit c) [ none ↦ none | some d ↦ hex_digits (acc * 16 + d) cs ]

-- `from_str_radix` takes a leading `+`.
unfoldable pub from_str_radix : Bytes → Option ℕ
from_str_radix [] = none
from_str_radix (c ∷ []) = elim (hex_digit c) [ none ↦ none | some d ↦ some d ]
from_str_radix (c ∷ d ∷ cs) =
    if eqb c b'+' then hex_digits 0 (d ∷ cs) else hex_digits 0 (c ∷ d ∷ cs)

-- `char::from_u32`: no surrogates, nothing past U+10FFFF.
unfoldable pub from_u32 : ℕ → Option ℕ
from_u32 cp = if (leb 0xd800 cp && leb cp 0xdfff) || ltb 0x10ffff cp then none else some cp

unfoldable pub unicode_escape : Bytes → Parse ℕ
unicode_escape src = do
  reject_if (ltb (length src) 4) (codes "short \\u escape")
  reject_if (not (is_utf8 (take 4 src))) (codes "bad \\u escape")
  cp ← ok_or (from_str_radix (take 4 src)) (codes "bad \\u escape hex")
  c ← ok_or (from_u32 cp) (codes "invalid codepoint")
  ok (c, drop 4 src)

-- The character of a one-letter escape, other than `u`.
unfoldable pub simple_escape : ℕ → Option ℕ
simple_escape esc =
    if eqb esc b'"'
    then some b'"'
    else if eqb esc b'\\'
    then some b'\\'
    else if eqb esc b'/'
    then some b'/'
    else if eqb esc b'n'
    then some 0x0a
    else if eqb esc b'r'
    then some 0x0d
    else if eqb esc b't'
    then some 0x09
    else if eqb esc b'b'
    then some 0x08
    else if eqb esc b'f'
    then some 0x0c
    else none

unfoldable pub escape : Bytes → Parse ℕ
escape [] = err (codes "trailing backslash")
escape (esc ∷ src) =
    if eqb esc b'u'
    then unicode_escape src
    else elim (simple_escape esc) [ none ↦ err (codes "bad escape") | some c ↦ ok (c, src) ]

-- The `while` loop of `parse_string`. A byte that ends or escapes nothing is pushed as a character.
unfoldable pub string_loop : ℕ → Bytes → Text → Parse Text
string_loop zero src out = err stuck
string_loop (suc f) [] out = err (codes "unterminated string")
string_loop (suc f) (b ∷ src) out =
    let escaped : Parse Text = (do (c, src') ← escape src; string_loop f src' (out ++ c ∷ [])) in
    let plain = string_loop f src (out ++ b ∷ []) in
    if eqb b b'"' then ok (out, src) else if eqb b b'\\' then escaped else plain

unfoldable pub parse_string : ℕ → Bytes → Parse Text
parse_string f src = do (_, src') ← expect b'"' src; string_loop f src' []

-- After an item of an array: `,` goes on and `]` ends it.
abbrev pub array_next :
    (Bytes → List Text → Parse (List Text)) → Bytes → List Text → Parse (List Text)
array_next again [] out = err (codes "expected , or ] in array")
array_next again (b ∷ src) out =
    if eqb b b','
    then again src out
    else if eqb b b']'
    then ok (out, src)
    else err (codes "expected , or ] in array")

-- The `loop` of `parse_string_array`.
unfoldable pub array_loop : ℕ → Bytes → List Text → Parse (List Text)
array_loop zero src out = err stuck
array_loop (suc f) src out = do
  (s, src') ← parse_string (suc f) (skip_ws src)
  array_next (array_loop f) (skip_ws src') (out ++ s ∷ [])

unfoldable pub parse_string_array : ℕ → Bytes → Parse (List Text)
parse_string_array f src = do
  (_, src') ← expect b'[' src
  let rest = skip_ws src'
  if peek_is b']' rest then ok ([], drop 1 rest) else array_loop f rest []

unfoldable pub parse_value : ℕ → Bytes → Parse Value
parse_value f src = do
  let here = skip_ws src
  if peek_is b'"' here
      then (do (s, rest) ← parse_string f here; ok (string s, rest))
      else if peek_is b'[' here
      then (do (a, rest) ← parse_string_array f here; ok (string_array a, rest))
      else if peek_is b'n' here
      then (if take 4 here == codes "null"
          then ok (string [], drop 4 here)
          else err (codes "invalid literal"))
      else err (codes "only string and string-array values are supported")

-- After a field of an object: `,` goes on and `}` ends it.
abbrev pub object_next :
    (Bytes → List (Text × Value) → Parse Obj) → Bytes → List (Text × Value) → Parse Obj
object_next again [] out = err (codes "expected , or } in object")
object_next again (b ∷ src) out =
    if eqb b b','
    then again src out
    else if eqb b b'}'
    then ok (record { fields = out }, src)
    else err (codes "expected , or } in object")

-- The `loop` of `parse_object`.
unfoldable pub object_loop : ℕ → Bytes → List (Text × Value) → Parse Obj
object_loop zero src out = err stuck
object_loop (suc f) src out = do
  (key, src1) ← parse_string (suc f) (skip_ws src)
  (_, src2) ← expect b':' src1
  (val, src3) ← parse_value (suc f) src2
  object_next (object_loop f) (skip_ws src3) (out ++ (key, val) ∷ [])

unfoldable pub parse_object : ℕ → Bytes → Parse Obj
parse_object f src = do
  (_, src') ← expect b'{' src
  let rest = skip_ws src'
  if peek_is b'}' rest then ok (record { fields = [] }, drop 1 rest) else object_loop f rest []

-- `MiniJson::parse`
unfoldable pub parse : Bytes → Result Text Obj
parse src = do
  (obj, rest) ← parse_object (suc (length src)) (skip_ws src)
  reject_if (not (is_empty (skip_ws rest))) (codes "trailing content after JSON object")
  ok obj

-- The last digits of `\\u{:04x}` of a control character.
abbrev pub hex_char : ℕ → ℕ
hex_char d = if ltb d 10 then b'0' + d else b'a' + (d - 10)

unfoldable pub escape_char : ℕ → Text
escape_char c =
    if eqb c b'"'
    then b'\\' ∷ b'"' ∷ []
    else if eqb c b'\\'
    then b'\\' ∷ b'\\' ∷ []
    else if eqb c 0x0a
    then b'\\' ∷ b'n' ∷ []
    else if eqb c 0x0d
    then b'\\' ∷ b'r' ∷ []
    else if eqb c 0x09
    then b'\\' ∷ b't' ∷ []
    else if ltb c 0x20
    then b'\\' ∷ b'u' ∷ b'0' ∷ b'0' ∷ hex_char (c / 16) ∷ hex_char (c % 16) ∷ []
    else encode_char c

-- The bytes of the result; the argument is the characters.
unfoldable pub serde_escape : Text → Text
serde_escape [] = []
serde_escape (c ∷ s) = escape_char c ++ serde_escape s
