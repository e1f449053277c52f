-- ===== src/Text/Encode.antt =====
-- Texts as bytes: what Rust writes when it pushes characters to a `String`.
use vaultproxy.Prelude.{
  ℕ, ◌+◌, ◌/◌, ◌%◌, ◌≤◌, ◌≡◌, refl, ap, Bool, true, false, ◌⊎◌, inl, inr, ◌<◌, [], ◌∷◌, ◌++◌, arith,
  if◌then◌else◌, ltb, Text, length, all, length-append, Bool-cases,
}

-- The UTF-8 of a character.
unfoldable pub encode_char : ℕ → Text
encode_char c =
    if ltb c 0x80
    then c ∷ []
    else if ltb c 0x800
    then (0xc0 + c / 64) ∷ (0x80 + c % 64) ∷ []
    else if ltb c 0x10000
    then (0xe0 + c / 4096) ∷ (0x80 + c / 64 % 64) ∷ (0x80 + c % 64) ∷ []
    else (0xf0 + c / 262144) ∷ (0x80 + c / 4096 % 64) ∷ (0x80 + c / 64 % 64) ∷ (0x80 + c % 64) ∷ []

unfoldable pub encode : Text → Text
encode [] = []
encode (c ∷ s) = encode_char c ++ encode s

abbrev pub is_ascii : ℕ → Bool
is_ascii c = ltb c 0x80

pub encode_char-is_ascii : (c : ℕ) → is_ascii c ≡ true → encode_char c ≡ c ∷ []
unfolding encode_char
encode_char-is_ascii c h = rw h refl

pub encode-is_ascii : (s : Text) → all is_ascii s ≡ true → encode s ≡ s
unfolding encode encode_char
encode-is_ascii [] h = refl
encode-is_ascii (c ∷ s) h = ground (arith, encode-is_ascii s)

wide_lem : (c : ℕ) → is_ascii c ≡ false → 2 ≤ length (encode_char c)
unfolding encode_char
wide_lem c h = ground arith

pub encode_char-length : (c : ℕ) → 1 ≤ length (encode_char c)
unfolding encode_char
encode_char-length c = ground arith

-- A text is ASCII, or its UTF-8 is longer than it is.
pub encode_cases :
    (s : Text) → ((all is_ascii s ≡ true) × (encode s ≡ s)) ⊎ (length s < length (encode s))
unfolding encode
encode_cases [] = inl (refl, refl)
encode_cases (c ∷ s) = elim (encode_cases s) [
  | inl (rest, same) ↦ elim (Bool-cases (is_ascii c)) [
    | inl ascii ↦ inl (rw ascii rest, rw (encode_char-is_ascii c ascii, same) refl)
    | inr wide ↦
        inr
          (omega (arith, wide_lem c wide, length-append (encode_char c) (encode s), ap length same))
  ]
  | inr longer ↦
      inr (omega (arith, encode_char-length c, length-append (encode_char c) (encode s), longer))
]

-- No byte of a wide character is ASCII.
pub all-encode_char :
    (p : ℕ → Bool) (c : ℕ)
    → ((b : ℕ) → 0x80 ≤ b → p b ≡ true)
    → p c ≡ true
    → all p (encode_char c) ≡ true
unfolding encode_char
all-encode_char p c h here = elim (Bool-cases (ltb c 0x80)) [
  | inl one ↦ rw one (rw here refl)
  | inr not_one ↦ elim (Bool-cases (ltb c 0x800)) [
    | inl two ↦
        rw (not_one, two)
          (rw (h (0xc0 + c / 64) (omega arith), h (0x80 + c % 64) (omega arith)) refl)
    | inr not_two ↦ elim (Bool-cases (ltb c 0x10000)) [
      | inl three ↦
          rw (not_one, not_two, three)
            (rw
              (
                h (0xe0 + c / 4096) (omega arith),
                h (0x80 + c / 64 % 64) (omega arith),
                h (0x80 + c % 64) (omega arith),
              )
              refl)
      | inr four ↦
          rw (not_one, not_two, four)
            (rw
              (
                h (0xf0 + c / 262144) (omega arith),
                h (0x80 + c / 4096 % 64) (omega arith),
                h (0x80 + c / 64 % 64) (omega arith),
                h (0x80 + c % 64) (omega arith),
              )
              refl)
    ]
  ]
]
