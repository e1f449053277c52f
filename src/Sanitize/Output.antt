-- ===== src/Sanitize/Output.antt =====
-- What the filters of security/sanitize.rs let out.
use vaultproxy.Prelude.{
  ℕ, zero, suc, ◌+◌, ◌-◌, ◌/◌, ◌%◌, ◌^◌, ◌≤◌, ◌<◌, ◌≡◌, refl, ◌∙◌, Bool, true, false, not, ◌&&◌, [],
  ◌∷◌, ◌++◌, arith, ltb, Text, codes, length, length-append, all, all-append, all-retain, all_mono,
  &&-eq-true, Bool-cases, inl, inr,
}
use vaultproxy.Text.{byte_len, char_len}
use vaultproxy.Text.Laws.{byte_len-append}
use vaultproxy.Text.Decimal.{is_digit, decimal, decimal-is_digit}
use vaultproxy.Sanitize.{
  is_zero_width, floor_char_boundary, truncated, blocked, cleaned, sanitize_internal,
  sanitize_for_wire, count_matches, filtered, filter_all, phrases_for, Value, null, bool, number,
  string, array, object, Values, end_values, add_value, Members, end_members, add_member,
  sanitize_json, sanitize_values, sanitize_members,
}
use vaultproxy.Sanitize.Patterns.{markup_patterns, max_output_size}

abbrev pub is_visible : ℕ → Bool
is_visible c = not (is_zero_width c)

-- No zero-width character, and at most 100 KiB and the mark of the truncation.
abbrev pub IsClean : Text → Type 0
IsClean s = (all is_visible s ≡ true) × (byte_len s ≤ 102419)

both_true : {a b : Bool} → a ≡ true → b ≡ true → (a && b) ≡ true
both_true h k = rw h k

not_less : (a b : ℕ) → ltb a b ≡ false → b ≤ a
not_less a b h = ground arith

byte_len-floor_char_boundary : (n : ℕ) (s : Text) → byte_len (floor_char_boundary n s) ≤ n
unfolding byte_len floor_char_boundary
byte_len-floor_char_boundary n [] = omega arith
byte_len-floor_char_boundary n (c ∷ s) = elim (Bool-cases (ltb n (char_len c))) [
  | inl long ↦ rw long (omega arith)
  | inr short ↦ rw short (
      omega (arith, byte_len-floor_char_boundary (n - char_len c) s, not_less n (char_len c) short))
]

floor_char_boundary-all :
    (p : ℕ → Bool) (n : ℕ) (s : Text) → all p s ≡ true → all p (floor_char_boundary n s) ≡ true
unfolding floor_char_boundary
floor_char_boundary-all p n [] h = refl
floor_char_boundary-all p n (c ∷ s) h =
    let (first, others) = &&-eq-true (p c) (all p s) h in
    elim (Bool-cases (ltb n (char_len c))) [
      | inl long ↦ rw long refl
      | inr short ↦ rw short (both_true first (floor_char_boundary-all p (n - char_len c) s others))
    ]

mark_len : byte_len (codes "\n[OUTPUT TRUNCATED]") ≡ 19
unfolding byte_len
mark_len = refl

truncated-IsClean : (s : Text) → all is_visible s ≡ true → IsClean (truncated s)
unfolding truncated
truncated-IsClean s h = elim (Bool-cases (ltb max_output_size (byte_len s))) [
  | inl long ↦ rw long (
    all-append is_visible (floor_char_boundary max_output_size s) (codes "\n[OUTPUT TRUNCATED]")
        ∙ both_true (floor_char_boundary-all is_visible max_output_size s h)
            (unfold is_zero_width in refl),
    omega (
      arith,
      byte_len-floor_char_boundary max_output_size s,
      byte_len-append (floor_char_boundary max_output_size s) (codes "\n[OUTPUT TRUNCATED]"),
      mark_len,
    ),
  )
  | inr short ↦ rw short (h, omega (arith, not_less max_output_size (byte_len s) short))
]

digit-is_visible : (c : ℕ) → is_digit c ≡ true → is_visible c ≡ true
unfolding is_zero_width
digit-is_visible c h = ground arith

digit-char_len : (c : ℕ) → is_digit c ≡ true → char_len c ≡ 1
digit-char_len c h = ground arith

byte_len-digits : (s : Text) → all is_digit s ≡ true → byte_len s ≡ length s
unfolding byte_len
byte_len-digits [] h = refl
byte_len-digits (c ∷ s) h =
    let (first, others) = &&-eq-true (is_digit c) (all is_digit s) h in
    omega (arith, digit-char_len c first, byte_len-digits s others)

length-decimal-le : (n v : ℕ) → length (decimal n v) ≤ suc n
unfolding decimal
length-decimal-le zero v = omega arith
length-decimal-le (suc n) v = elim (Bool-cases (ltb v 10)) [
  | inl small ↦ rw small (omega arith)
  | inr large ↦ rw large (
      omega (
        arith,
        length-decimal-le n (v / 10),
        length-append (decimal n (v / 10)) ((b'0' + v % 10) ∷ []),
      ))
]

blocked-IsClean : (n : ℕ) → n < 2 ^ 64 → IsClean (blocked n)
unfolding is_zero_width byte_len
blocked-IsClean n h =
    let digits = decimal-is_digit 19 n (omega (arith, h)) in
    let front = codes "[CONTENT BLOCKED: " in
    let back = codes " injection patterns detected in service response]" in
    (
      all-append is_visible front (decimal 19 n ++ back)
          ∙ both_true refl (
              all-append is_visible (decimal 19 n) back
              ∙ both_true (all_mono is_digit is_visible (decimal 19 n) digit-is_visible digits)
                  refl),
      omega (
        arith,
        byte_len-append front (decimal 19 n ++ back),
        byte_len-append (decimal 19 n) back,
        byte_len-digits (decimal 19 n) digits,
        length-decimal-le 19 n,
      ),
    )

-- A text that `sanitize_for_wire` gives holds no zero-width character and has at most 102419 bytes.
pub sanitize_for_wire-IsClean : (text : Text) → IsClean (sanitize_for_wire text)
unfolding sanitize_internal
sanitize_for_wire-IsClean text =
    truncated-IsClean (cleaned text false)
      (all-retain is_visible (filter_all markup_patterns (filter_all [] text)))

-- A text that `sanitize_internal` gives, whatever text it is given, holds no zero-width character and
-- has at most 102419 bytes, if the number of marks fits in 64 bits.
pub sanitize_internal-IsClean :
    (text : Text) (aggressive : Bool)
    → count_matches filtered 0 (cleaned text aggressive) < 2 ^ 64
    → IsClean (sanitize_internal text aggressive)
unfolding sanitize_internal
sanitize_internal-IsClean text aggressive h =
    let n = count_matches filtered 0 (cleaned text aggressive) in
    elim (Bool-cases (aggressive && ltb 5 n)) [
      | inl block ↦ rw block (blocked-IsClean n h)
      | inr pass ↦ rw pass (
          truncated-IsClean (cleaned text aggressive) (
            all-retain is_visible
              (filter_all markup_patterns (filter_all (phrases_for aggressive) text))))
    ]

-- All strings of a JSON value but its keys are clean.
abbrev mutual
  pub AllClean : Value → Type 0
  AllClean null = Unit
  AllClean (bool b) = Unit
  AllClean (number n) = Unit
  AllClean (string s) = IsClean s
  AllClean (array arr) = AllValuesClean arr
  AllClean (object map) = AllMembersClean map

  pub AllValuesClean : Values → Type 0
  AllValuesClean end_values = Unit
  AllValuesClean (add_value item items) = AllClean item × AllValuesClean items

  pub AllMembersClean : Members → Type 0
  AllMembersClean end_members = Unit
  AllMembersClean (add_member key val members) = AllClean val × AllMembersClean members

mutual
  unfolding sanitize_json

  sanitized_value : (v : Value) → AllClean (sanitize_json v)
  sanitized_value null = tt
  sanitized_value (bool b) = tt
  sanitized_value (number n) = tt
  sanitized_value (string s) = sanitize_for_wire-IsClean s
  sanitized_value (array arr) = sanitized_values arr
  sanitized_value (object map) = sanitized_members map

  sanitized_values : (vs : Values) → AllValuesClean (sanitize_values vs)
  sanitized_values end_values = tt
  sanitized_values (add_value item items) = (sanitized_value item, sanitized_values items)

  sanitized_members : (ms : Members) → AllMembersClean (sanitize_members ms)
  sanitized_members end_members = tt
  sanitized_members (add_member key val members) = (sanitized_value val, sanitized_members members)

-- Every string of a JSON value that `sanitize_json` gives, other than a key and however deep it
-- stands, holds no zero-width character and has at most 102419 bytes.
pub sanitize_json-AllClean : (v : Value) → AllClean (sanitize_json v)
sanitize_json-AllClean v = sanitized_value v
