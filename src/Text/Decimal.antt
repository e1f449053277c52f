-- ===== src/Text/Decimal.antt =====
-- `parse` of an unsigned number below a bound, and the printing of a number by `format!`.
use vaultproxy.Prelude.{
  ℕ, zero, suc, ◌+◌, ◌-◌, ◌*◌, ◌/◌, ◌%◌, ◌<◌, ◌≡◌, refl, sym, ap, ◌∙◌, Bool, true, false, ◌&&◌,
  Option, none, some, [], ◌∷◌, ◌++◌, arith, if◌then◌else◌, leb, ltb, eqb, Text, all, all-append,
  Bool-cases, inl, inr,
}
use vaultproxy.Text.Search.{differs}

abbrev pub is_digit : ℕ → Bool
is_digit c = leb b'0' c && leb c b'9'

unfoldable pub value_from : ℕ → Text → Option ℕ
value_from acc [] = some acc
value_from acc (c ∷ s) =
    let rest = value_from (acc * 10 + (c - b'0')) s in if is_digit c then rest else none

abbrev pub below : ℕ → Option ℕ → Option ℕ
below max none = none
below max (some n) = if ltb n max then some n else none

-- One plus sign may stand in front; there is a digit at least. A value that leaves the bound on the
-- way is no less at the end.
unfoldable pub parse_uint : ℕ → Text → Option ℕ
parse_uint max [] = none
parse_uint max (c ∷ []) = below max (value_from 0 (c ∷ []))
parse_uint max (c ∷ d ∷ s) =
    if eqb c b'+' then below max (value_from 0 (d ∷ s)) else below max (value_from 0 (c ∷ d ∷ s))

-- A number of at most `n + 1` digits.
unfoldable pub decimal : ℕ → ℕ → Text
decimal zero v = (b'0' + v) ∷ []
decimal (suc n) v =
    let rest = decimal n (v / 10) in
    if ltb v 10 then (b'0' + v) ∷ [] else rest ++ (b'0' + v % 10) ∷ []

-- The numbers that `decimal` prints in full.
abbrev pub decimal_limit : ℕ → ℕ
decimal_limit zero = 10
decimal_limit (suc n) = 10 * decimal_limit n

value_from-append :
    (acc c : ℕ) (s : Text) (v : ℕ)
    → value_from acc s ≡ some v
    → is_digit c ≡ true
    → value_from acc (s ++ c ∷ []) ≡ some (v * 10 + (c - b'0'))
unfolding value_from
value_from-append acc c [] v h d = ground arith
value_from-append acc c (e ∷ s) v h d =
    ground (arith, value_from-append (acc * 10 + (e - b'0')) c s v)

value_from-decimal : (n v : ℕ) → v < decimal_limit n → value_from 0 (decimal n v) ≡ some v
unfolding decimal value_from
value_from-decimal zero v h = ground arith
value_from-decimal (suc n) v h = elim (Bool-cases (ltb v 10)) [
  | inl small ↦ rw small (ground arith)
  | inr large ↦ rw large (
      value_from-append 0 (b'0' + v % 10) (decimal n (v / 10)) (v / 10)
        (value_from-decimal n (v / 10) (omega (arith, h))) (ground arith)
      ∙ ap (λ x. some x) (omega arith))
]

digit_lem : (d : ℕ) → d < 10 → (is_digit (b'0' + d) && true) ≡ true
digit_lem d h = ground arith

pub decimal-is_digit : (n v : ℕ) → v < decimal_limit n → all is_digit (decimal n v) ≡ true
unfolding decimal
decimal-is_digit zero v h = ground arith
decimal-is_digit (suc n) v h = elim (Bool-cases (ltb v 10)) [
  | inl small ↦ rw small (ground arith)
  | inr large ↦ rw large (
      all-append is_digit (decimal n (v / 10)) ((b'0' + v % 10) ∷ [])
      ∙ ap (λ b. b && (is_digit (b'0' + v % 10) && true))
          (decimal-is_digit n (v / 10) (omega (arith, h)))
      ∙ digit_lem (v % 10) (omega arith))
]

parse_uint_digits :
    (max : ℕ) (c : ℕ) (s : Text)
    → all is_digit (c ∷ s) ≡ true
    → parse_uint max (c ∷ s) ≡ below max (value_from 0 (c ∷ s))
unfolding parse_uint
parse_uint_digits max c [] h = refl
parse_uint_digits max c (d ∷ s) h = ground arith

below-some : (max v : ℕ) → v < max → below max (some v) ≡ some v
below-some max v h = ground arith

append_cons : (s : Text) (c : ℕ) → (d : ℕ) × (t : Text) × (s ++ c ∷ [] ≡ d ∷ t)
append_cons [] c = (c, [], refl)
append_cons (d ∷ s) c = (d, s ++ c ∷ [], refl)

pub decimal_cons : (n v : ℕ) → (d : ℕ) × (t : Text) × (decimal n v ≡ d ∷ t)
unfolding decimal
decimal_cons zero v = (b'0' + v, [], refl)
decimal_cons (suc n) v = elim (Bool-cases (ltb v 10)) [
  | inl small ↦ rw small (b'0' + v, [], refl)
  | inr large ↦ rw large (append_cons (decimal n (v / 10)) (b'0' + v % 10))
]

-- What is printed is read back.
pub parse_uint-decimal :
    (n v max : ℕ) → v < decimal_limit n → v < max → parse_uint max (decimal n v) ≡ some v
parse_uint-decimal n v max h k =
    let (d, t, e) = decimal_cons n v in
    ap (parse_uint max) e
    ∙ parse_uint_digits max d t (ap (all is_digit) (sym e) ∙ decimal-is_digit n v h)
    ∙ ap (λ s. below max (value_from 0 s)) (sym e)
    ∙ ap (below max) (value_from-decimal n v h)
    ∙ below-some max v k

-- Digits are other characters than one that is no digit.
pub digit-differs :
    (c : ℕ) (s : Text) → is_digit c ≡ false → all is_digit s ≡ true → all (differs c) s ≡ true
unfolding differs
digit-differs c [] n h = refl
digit-differs c (d ∷ s) n h = ground (arith, digit-differs c s n)
