-- ===== src/MountHelper/Json/Bytewise.antt =====
-- What the JSON parser of bin/mount_helper.rs makes of strings that are not ASCII.
use vaultproxy.Prelude.{
  ℕ, ◌≤◌, &&-eq-true, ◌+◌, ◌<◌, ◌≡◌, ◌↔◌, ◌⊎◌, inl, inr, refl, ap, Bool, true, ◌&&◌, List, [], ◌∷◌,
  arith, Text, length, all,
}
use vaultproxy.Text.Encode.{encode, is_ascii, encode_cases, encode-is_ascii}
use vaultproxy.MountHelper.Json.{Value, string, string_array}

-- What the parser makes of the strings: a character for each byte of their UTF-8.
abbrev pub bytewise_items : List Text → List Text
bytewise_items [] = []
bytewise_items (s ∷ ss) = encode s ∷ bytewise_items ss

abbrev pub bytewise_value : Value → Value
bytewise_value (string s) = string (encode s)
bytewise_value (string_array ss) = string_array (bytewise_items ss)

abbrev pub bytewise : List (Text × Value) → List (Text × Value)
bytewise [] = []
bytewise ((k, v) ∷ fs) = (encode k, bytewise_value v) ∷ bytewise fs

abbrev pub ascii_items : List Text → Bool
ascii_items [] = true
ascii_items (s ∷ ss) = all is_ascii s && ascii_items ss

abbrev pub ascii_value : Value → Bool
ascii_value (string s) = all is_ascii s
ascii_value (string_array ss) = ascii_items ss

abbrev pub all_ascii : List (Text × Value) → Bool
all_ascii [] = true
all_ascii ((k, v) ∷ fs) = all is_ascii k && (ascii_value v && all_ascii fs)

-- The number of characters.
abbrev items_size : List Text → ℕ
items_size [] = 0
items_size (s ∷ ss) = length s + items_size ss

abbrev value_size : Value → ℕ
value_size (string s) = length s
value_size (string_array ss) = items_size ss

abbrev size : List (Text × Value) → ℕ
size [] = 0
size ((k, v) ∷ fs) = length k + (value_size v + size fs)

both_true : {a b : Bool} → a ≡ true → b ≡ true → (a && b) ≡ true
both_true h k = rw h k

items_cases :
    (ss : List Text)
    → ((ascii_items ss ≡ true) × (bytewise_items ss ≡ ss))
      ⊎ (items_size ss < items_size (bytewise_items ss))
items_cases [] = inl (refl, refl)
items_cases (s ∷ ss) = elim (encode_cases s) [
  | inl (here, same) ↦ elim (items_cases ss) [
    | inl (rest, same_rest) ↦ inl (both_true here rest, rw (same, same_rest) refl)
    | inr more ↦ inr (omega (arith, ap length same, more))
  ]
  | inr longer ↦ elim (items_cases ss) [
    | inl (rest, same_rest) ↦ inr (omega (arith, longer, ap items_size same_rest))
    | inr more ↦ inr (omega (arith, longer, more))
  ]
]

value_cases :
    (v : Value)
    → ((ascii_value v ≡ true) × (bytewise_value v ≡ v))
      ⊎ (value_size v < value_size (bytewise_value v))
value_cases (string s) = elim (encode_cases s) [
  | inl (here, same) ↦ inl (here, ap string same)
  | inr longer ↦ inr longer
]
value_cases (string_array ss) = elim (items_cases ss) [
  | inl (here, same) ↦ inl (here, ap string_array same)
  | inr longer ↦ inr longer
]

fields_cases :
    (fs : List (Text × Value))
    → ((all_ascii fs ≡ true) × (bytewise fs ≡ fs)) ⊎ (size fs < size (bytewise fs))
fields_cases [] = inl (refl, refl)
fields_cases ((k, v) ∷ fs) = elim (encode_cases k) [
  | inl (key, same_key) ↦ elim (value_cases v) [
    | inl (value, same_value) ↦ elim (fields_cases fs) [
      | inl (rest, same) ↦
          inl (both_true key (both_true value rest), rw (same_key, same_value, same) refl)
      | inr more ↦ inr (omega (arith, ap length same_key, ap value_size same_value, more))
    ]
    | inr more ↦ inr (omega (arith, ap length same_key, more, size_le fs (fields_cases fs)))
  ]
  | inr more ↦ inr (omega (arith, more, value_le v (value_cases v), size_le fs (fields_cases fs)))
]
  where
    size_le :
        (gs : List (Text × Value))
        → ((all_ascii gs ≡ true) × (bytewise gs ≡ gs)) ⊎ (size gs < size (bytewise gs))
        → size gs ≤ size (bytewise gs)
    size_le gs (inl (_, same)) = omega (arith, ap size same)
    size_le gs (inr more) = omega (arith, more)

    value_le :
        (w : Value)
        → ((ascii_value w ≡ true) × (bytewise_value w ≡ w))
          ⊎ (value_size w < value_size (bytewise_value w))
        → value_size w ≤ value_size (bytewise_value w)
    value_le w (inl (_, same)) = omega (arith, ap value_size same)
    value_le w (inr more) = omega (arith, more)

all_ascii-false : (fs : List (Text × Value)) → size fs < size (bytewise fs) → bytewise fs ≡ fs → ⊥
all_ascii-false fs more same = omega (arith, more, ap size same)

items_same : (ss : List Text) → ascii_items ss ≡ true → bytewise_items ss ≡ ss
items_same [] h = refl
items_same (s ∷ ss) h =
    let (here, rest) = &&-eq-true _ _ h in rw (encode-is_ascii s here, items_same ss rest) refl

value_same : (v : Value) → ascii_value v ≡ true → bytewise_value v ≡ v
value_same (string s) h = ap string (encode-is_ascii s h)
value_same (string_array ss) h = ap string_array (items_same ss h)

fields_same : (fs : List (Text × Value)) → all_ascii fs ≡ true → bytewise fs ≡ fs
fields_same [] h = refl
fields_same ((k, v) ∷ fs) h =
    let (key, others) = &&-eq-true _ _ h in
    let (value, rest) = &&-eq-true _ _ others in
    rw (encode-is_ascii k key, value_same v value, fields_same fs rest) refl

-- What comes back is what was printed exactly if all is ASCII.
pub bytewise_iff : (fs : List (Text × Value)) → (bytewise fs ≡ fs) ↔ (all_ascii fs ≡ true)
bytewise_iff fs = (
  λ same. elim (fields_cases fs) [
    | inl (ascii, _) ↦ ascii
    | inr more ↦ absurd (all_ascii-false fs more same)
  ],
  fields_same fs,
)
