-- ===== src/Sanitize.antt =====
-- security/sanitize.rs: texts on their way to a language model or back to a client. A text is its code
-- points; the patterns are ASCII, so that they are found between the same characters as between the
-- bytes. Numbers of a JSON value are kept as they are written.
pub mod Patterns
pub mod Output
pub mod Gaps
mod Examples
use vaultproxy.Prelude.{
  ℕ, zero, suc, ◌+◌, ◌-◌, Bool, true, false, not, ◌&&◌, ◌||◌, List, [], ◌∷◌, ◌++◌, if◌then◌else◌,
  ltb, eqb, Text, codes, length, any, retain,
}
use vaultproxy.Text.{is_empty, byte_len, char_len, starts_with}
use vaultproxy.Text.Ascii.{to_ascii_lowercase_char}
use vaultproxy.Text.Decimal.{decimal}
use Patterns.{injection_phrases, markup_patterns, zero_width_chars, max_output_size}

-- The text starts with the needle, in any case of its ASCII letters.
unfoldable pub starts_with_ignore_case : Text → Text → Bool
starts_with_ignore_case s [] = true
starts_with_ignore_case [] (c ∷ needle) = false
starts_with_ignore_case (d ∷ s) (c ∷ needle) =
    eqb (to_ascii_lowercase_char d) (to_ascii_lowercase_char c) && starts_with_ignore_case s needle

-- The scan; the number says how many characters of a match are still to be left out.
unfoldable pub replace_from : Text → Text → ℕ → Text → Text
replace_from needle replacement n [] = []
replace_from needle replacement (suc n) (c ∷ s) = replace_from needle replacement n s
replace_from needle replacement zero (c ∷ s) =
    let found = starts_with_ignore_case (c ∷ s) needle in
    let rest = replace_from needle replacement (if found then length needle - 1 else 0) s in
    if found then replacement ++ rest else c ∷ rest

unfoldable pub case_insensitive_replace : Text → Text → Text → Text
case_insensitive_replace haystack needle replacement =
    if is_empty needle then haystack else replace_from needle replacement 0 haystack

abbrev pub filtered : Text
filtered = codes "[FILTERED]"

-- `for pattern in patterns`
unfoldable pub filter_all : List Text → Text → Text
filter_all [] text = text
filter_all (pattern ∷ patterns) text =
    filter_all patterns (case_insensitive_replace text pattern filtered)

unfoldable pub is_zero_width : ℕ → Bool
is_zero_width c = any (eqb c) zero_width_chars

abbrev pub remove_zero_width : Text → Text
remove_zero_width text = retain (λ c. not (is_zero_width c)) text

-- `text.matches(p).count()`
unfoldable pub count_matches : Text → ℕ → Text → ℕ
count_matches p n [] = 0
count_matches p (suc n) (c ∷ s) = count_matches p n s
count_matches p zero (c ∷ s) =
    let found = starts_with (c ∷ s) p in
    let rest = count_matches p (if found then length p - 1 else 0) s in
    if found then suc rest else rest

-- The longest part of the text that has at most so many bytes and ends between two characters.
unfoldable pub floor_char_boundary : ℕ → Text → Text
floor_char_boundary n [] = []
floor_char_boundary n (c ∷ s) =
    let rest = floor_char_boundary (n - char_len c) s in if ltb n (char_len c) then [] else c ∷ rest

unfoldable pub truncated : Text → Text
truncated text =
    if ltb max_output_size (byte_len text)
    then floor_char_boundary max_output_size text ++ codes "\n[OUTPUT TRUNCATED]"
    else text

abbrev pub blocked : ℕ → Text
blocked n =
    codes "[CONTENT BLOCKED: "
    ++ (decimal 19 n ++ codes " injection patterns detected in service response]")

abbrev pub phrases_for : Bool → List Text
phrases_for aggressive = if aggressive then injection_phrases else []

-- The text after the filters.
abbrev pub cleaned : Text → Bool → Text
cleaned text aggressive =
    remove_zero_width (filter_all markup_patterns (filter_all (phrases_for aggressive) text))

unfoldable pub sanitize_internal : Text → Bool → Text
sanitize_internal text aggressive =
    let result = cleaned text aggressive in
    let filter_count = count_matches filtered 0 result in
    if aggressive && ltb 5 filter_count then blocked filter_count else truncated result

abbrev pub sanitize_output : Text → Text
sanitize_output text = sanitize_internal text true

abbrev pub sanitize_for_wire : Text → Text
sanitize_for_wire text = sanitize_internal text false

mutual
  pub data Value : Type 0 where
    null : Value
    bool : Bool → Value
    number : Text → Value
    string : Text → Value
    array : Values → Value
    object : Members → Value

  pub data Values : Type 0 where
    end_values : Values
    add_value : Value → Values → Values

  pub data Members : Type 0 where
    end_members : Members
    add_member : (key : Text) → Value → Members → Members

unfoldable mutual
  pub sanitize_json : Value → Value
  sanitize_json null = null
  sanitize_json (bool b) = bool b
  sanitize_json (number n) = number n
  sanitize_json (string s) = string (sanitize_for_wire s)
  sanitize_json (array arr) = array (sanitize_values arr)
  sanitize_json (object map) = object (sanitize_members map)

  pub sanitize_values : Values → Values
  sanitize_values end_values = end_values
  sanitize_values (add_value item items) = add_value (sanitize_json item) (sanitize_values items)

  pub sanitize_members : Members → Members
  sanitize_members end_members = end_members
  sanitize_members (add_member key val members) =
      add_member key (sanitize_json val) (sanitize_members members)
