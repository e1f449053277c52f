-- ===== src/MountHelper/Json/Strings.antt =====
-- `serde_escape` and `parse_string` of bin/mount_helper.rs: an escaped string is read back.
use mathlib.Core.List.{append_assoc, append-nil}
use vaultproxy.Prelude.{
  ℕ, zero, suc, ◌+◌, ◌-◌, not, all, sym, ◌/◌, ◌%◌, ◌≤◌, ◌<◌, Bool, true, false, ◌&&◌, ◌≡◌, refl, ap,
  ◌∙◌, [], ◌∷◌, ◌++◌, arith, eqb, ltb, Text, length, none, some, ok, Bool-cases, inl, inr,
  length-append, eqb_iff, &&-eq-true,
}
use vaultproxy.Text.{is_utf8}
use vaultproxy.Text.Encode.{encode_char, encode, encode_char-is_ascii, all-encode_char}
use vaultproxy.MountHelper.Json.{
  escape_char, serde_escape, string_loop, escape, simple_escape, unicode_escape, from_str_radix,
  hex_digits, hex_digit, from_u32, hex_char, parse_string, expect, skip_ws, is_ws,
}

abbrev holds_under : (ℕ → Bool) → ℕ → Bool
holds_under test zero = true
holds_under test (suc top) = holds_under test top && test top

holds_under_lem :
    (test : ℕ → Bool) (top i : ℕ) → i < top → holds_under test top ≡ true → test i ≡ true
holds_under_lem test zero i lt h = elim lt [ ]
holds_under_lem test (suc top) i lt h = ground (arith, holds_under_lem test top i)

abbrev hex_of : ℕ → Text
hex_of c = b'0' ∷ b'0' ∷ hex_char (c / 16) ∷ hex_char (c % 16) ∷ []

abbrev reads_back : ℕ → Bool
reads_back c =
    elim (from_str_radix (hex_of c)) [ none ↦ false | some d ↦ eqb d c ] && is_utf8 (hex_of c)

control_table : holds_under reads_back 32 ≡ true
unfolding from_str_radix hex_digits hex_digit is_utf8
control_table = refl

hex_lem : (c : ℕ) → c < 32 → (from_str_radix (hex_of c) ≡ some c) × (is_utf8 (hex_of c) ≡ true)
hex_lem c h =
    let (r, u) = &&-eq-true _ _ (holds_under_lem reads_back 32 c h control_table) in (some-hex r, u)
  where
    some-hex :
        elim (from_str_radix (hex_of c)) [ none ↦ false | some d ↦ eqb d c ] ≡ true
        → from_str_radix (hex_of c) ≡ some c
    some-hex r = ground arith

unicode_escape_lem : (c : ℕ) (r : Text) → c < 32 → unicode_escape (hex_of c ++ r) ≡ ok (c, r)
unfolding unicode_escape from_u32
unicode_escape_lem c r h = let (digits, utf8) = hex_lem c h in rw (utf8, digits) (ground arith)

-- A control character, from its number in hexadecimal.
control_step :
    (f c : ℕ) (r out : Text)
    → c < 32
    → string_loop (suc f) (b'\\' ∷ b'u' ∷ (hex_of c ++ r)) out ≡ string_loop f r (out ++ c ∷ [])
unfolding string_loop escape
control_step f c r out h = rw (unicode_escape_lem c r h) refl

not-true : (b : Bool) → not b ≡ true → b ≡ false
not-true b h = ground arith

-- A byte that is pushed as it is.
abbrev is_plain : ℕ → Bool
is_plain b = not (eqb b b'"') && not (eqb b b'\\')

wide-is_plain : (b : ℕ) → 0x80 ≤ b → is_plain b ≡ true
wide-is_plain b h = ground arith

-- A round of the loop for each byte, and then the fuel that is left.
abbrev rounds : Text → ℕ → ℕ
rounds [] f = f
rounds (b ∷ bs) f = suc (rounds bs f)

rounds-length : (bs : Text) (f : ℕ) → rounds bs f ≡ length bs + f
rounds-length [] f = omega arith
rounds-length (b ∷ bs) f = omega (arith, rounds-length bs f)

plain_step :
    (c g : ℕ) (q o : Text)
    → is_plain c ≡ true
    → string_loop (suc g) (c ∷ q) o ≡ string_loop g q (o ++ c ∷ [])
unfolding string_loop
plain_step c g q o k =
    let (not_quote, not_backslash) = &&-eq-true _ _ k in
    rw (not-true (eqb c b'"') not_quote, not-true (eqb c b'\\') not_backslash) refl

string_loop-is_plain :
    (bs : Text) (f : ℕ) (r out : Text)
    → all is_plain bs ≡ true
    → string_loop (rounds bs f) (bs ++ r) out ≡ string_loop f r (out ++ bs)
string_loop-is_plain [] f r out h = ap (λ o. string_loop f r o) (sym (append-nil out))
string_loop-is_plain (b ∷ bs) f r out h =
    let (here, rest) = &&-eq-true _ _ h in
    plain_step b (rounds bs f) (bs ++ r) out here
    ∙ string_loop-is_plain bs f r (out ++ b ∷ []) rest
    ∙ ap (λ o. string_loop f r o) (append_assoc out (b ∷ []) bs)

-- One escaped character is a round of the loop for each byte of its UTF-8, and each is pushed.
string_loop-escape_char :
    (f c : ℕ) (r out : Text)
    → string_loop (rounds (encode_char c) f) (escape_char c ++ r) out
      ≡ string_loop f r (out ++ encode_char c)
unfolding escape_char
string_loop-escape_char f c r out = elim (Bool-cases (eqb c b'"')) [
  | inl e ↦ rw ((eqb_iff c b'"').0 e) (unfold string_loop escape simple_escape encode_char in refl)
  | inr n1 ↦ elim (Bool-cases (eqb c b'\\')) [
    | inl e ↦
        rw ((eqb_iff c b'\\').0 e) (unfold string_loop escape simple_escape encode_char in refl)
    | inr n2 ↦ elim (Bool-cases (eqb c 0x0a)) [
      | inl e ↦
          rw ((eqb_iff c 0x0a).0 e) (unfold string_loop escape simple_escape encode_char in refl)
      | inr n3 ↦ elim (Bool-cases (eqb c 0x0d)) [
        | inl e ↦
            rw ((eqb_iff c 0x0d).0 e) (unfold string_loop escape simple_escape encode_char in refl)
        | inr n4 ↦ elim (Bool-cases (eqb c 0x09)) [
          | inl e ↦
              rw ((eqb_iff c 0x09).0 e)
                (unfold string_loop escape simple_escape encode_char in refl)
          | inr n5 ↦ elim (Bool-cases (ltb c 0x20)) [
            | inl low ↦
                rw (n1, n2, n3, n4, n5, low, encode_char-is_ascii c (ground arith))
                  (control_step f c r out (ground arith))
            | inr high ↦
                rw (n1, n2, n3, n4, n5, high)
                  (string_loop-is_plain (encode_char c) f r out
                    (all-encode_char is_plain c wide-is_plain (rw (n1, n2) refl)))
          ]
        ]
      ]
    ]
  ]
]

string_loop-serde_escape :
    (f : ℕ) (s rest out : Text)
    → length (encode s) < f
    → string_loop f (serde_escape s ++ b'"' ∷ rest) out ≡ ok (out ++ encode s, rest)
unfolding serde_escape encode
string_loop-serde_escape zero [] rest out h = elim h [ ]
string_loop-serde_escape (suc f) [] rest out h = unfold string_loop in rw append-nil
string_loop-serde_escape f (c ∷ s) rest out h =
    let left = f - length (encode_char c) in
    let sum = length-append (encode_char c) (encode s) in
    ap (λ r. string_loop f r out) (append_assoc (escape_char c) (serde_escape s) (b'"' ∷ rest))
    ∙ ap (λ n. string_loop n (escape_char c ++ (serde_escape s ++ b'"' ∷ rest)) out)
        (omega (arith, sum, h, rounds-length (encode_char c) left))
    ∙ string_loop-escape_char left c (serde_escape s ++ b'"' ∷ rest) out
    ∙ string_loop-serde_escape left s rest (out ++ encode_char c) (omega (arith, sum, h))
    ∙ ap (λ r. ok (r, rest)) (append_assoc out (encode_char c) (encode s))

-- A string literal, as a client of the helper writes it.
unfoldable pub print_string : Text → Text
print_string s = b'"' ∷ (serde_escape s ++ b'"' ∷ [])

-- A printed string is read back with a character for each byte of its UTF-8, and the rest of the
-- input is left.
pub parse_string-print_string :
    (f : ℕ) (s rest : Text)
    → length (encode s) < f
    → parse_string f (print_string s ++ rest) ≡ ok (encode s, rest)
unfolding parse_string print_string expect skip_ws is_ws
parse_string-print_string f s rest h =
    ap (λ r. string_loop f r []) (append_assoc (serde_escape s) (b'"' ∷ []) rest)
    ∙ string_loop-serde_escape f s rest [] h

length-escape_char : (c : ℕ) → length (encode_char c) ≤ length (escape_char c)
unfolding escape_char encode_char
length-escape_char c = ground arith

length-serde_escape : (s : Text) → length (encode s) ≤ length (serde_escape s)
unfolding serde_escape encode
length-serde_escape [] = omega arith
length-serde_escape (c ∷ s) = omega (
  arith,
  length-append (escape_char c) (serde_escape s),
  length-append (encode_char c) (encode s),
  length-escape_char c,
  length-serde_escape s,
)

pub length-print_string : (s : Text) → suc (length (encode s)) ≤ length (print_string s)
unfolding print_string
length-print_string s =
    omega (arith, length-append (serde_escape s) (b'"' ∷ []), length-serde_escape s)
