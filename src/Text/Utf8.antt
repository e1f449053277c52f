-- ===== src/Text/Utf8.antt =====
-- Strings kept as their bytes in UTF-8: `trim` of such a string, and the check of its bytes.
use mathlib.Core.List.{reverse, reverse_aux, reverse-reverse}
use vaultproxy.Prelude.{
  ℕ, zero, suc, ◌-◌, ◌≡◌, refl, Bool, true, false, ◌&&◌, ◌||◌, Option, none, some, [], ◌∷◌, ◌++◌,
  arith, if◌then◌else◌, leb, eqb, Text, all, &&-eq-true, ap, ◌∙◌,
}
use vaultproxy.Text.{is_utf8, utf8_from, utf8_lead}
use vaultproxy.Text.Decimal.{is_digit}
use vaultproxy.Text.Search.{differs}

-- The bytes of the whitespace character that a string starts with; none without one.
abbrev pub whitespace_two : ℕ → ℕ → Bool
whitespace_two b c = eqb b 0xc2 && (eqb c 0x85 || eqb c 0xa0)

abbrev pub whitespace_three : ℕ → ℕ → ℕ → Bool
whitespace_three b c d =
    (eqb b 0xe1 && eqb c 0x9a && eqb d 0x80)
    || (eqb b 0xe2
        && eqb c 0x80
        && (leb 0x80 d && leb d 0x8a || eqb d 0xa8 || eqb d 0xa9 || eqb d 0xaf))
    || (eqb b 0xe2 && eqb c 0x81 && eqb d 0x9f)
    || (eqb b 0xe3 && eqb c 0x80 && eqb d 0x80)

abbrev pub whitespace_one : ℕ → Bool
whitespace_one b = leb 0x09 b && leb b 0x0d || eqb b 0x20

unfoldable pub whitespace_first : Text → ℕ
whitespace_first [] = 0
whitespace_first (b ∷ []) = if whitespace_one b then 1 else 0
whitespace_first (b ∷ c ∷ []) = if whitespace_one b then 1 else if whitespace_two b c then 2 else 0
whitespace_first (b ∷ c ∷ d ∷ s) =
    if whitespace_one b
    then 1
    else if whitespace_two b c
    then 2
    else if whitespace_three b c d
    then 3
    else 0

-- The same from the end, with the last byte in front.
unfoldable pub whitespace_last : Text → ℕ
whitespace_last [] = 0
whitespace_last (b ∷ []) = if whitespace_one b then 1 else 0
whitespace_last (c ∷ b ∷ []) = if whitespace_one c then 1 else if whitespace_two b c then 2 else 0
whitespace_last (d ∷ c ∷ b ∷ s) =
    if whitespace_one d
    then 1
    else if whitespace_two c d
    then 2
    else if whitespace_three b c d
    then 3
    else 0

-- The first number says how many bytes of a whitespace character are still to be left out.
unfoldable pub trim_from : (Text → ℕ) → ℕ → Text → Text
trim_from width n [] = []
trim_from width (suc n) (b ∷ s) = trim_from width n s
trim_from width zero (b ∷ s) =
    let w = width (b ∷ s) in let rest = trim_from width (w - 1) s in if eqb w 0 then b ∷ s else rest

unfoldable pub trim_bytes : Text → Text
trim_bytes s = reverse (trim_from whitespace_last 0 (reverse (trim_from whitespace_first 0 s)))

-- `s.trim_end_matches("\r\n")`
abbrev pub is_lf : Text → Bool
is_lf [] = false
is_lf (d ∷ []) = eqb d 0x0a
is_lf (d ∷ e ∷ t) = false

unfoldable pub trim_end_crlf : Text → Text
trim_end_crlf [] = []
trim_end_crlf (c ∷ s) =
    let rest = trim_end_crlf s in if eqb c 0x0d && is_lf rest then [] else c ∷ rest

module _ (s t : Text) where
  abbrev checked_after : Text → Option (ℕ × ℕ × ℕ) → Bool
  checked_after r none = false
  checked_after r (some (p, lo, hi)) = utf8_from p lo hi r

  checked_after-append :
      (o : Option (ℕ × ℕ × ℕ))
      → ((p lo hi : ℕ) → utf8_from p lo hi s ≡ true → utf8_from p lo hi (s ++ t) ≡ true)
      → checked_after s o ≡ true
      → checked_after (s ++ t) o ≡ true
  checked_after-append none f h = cc
  checked_after-append (some (p, lo, hi)) f h = f p lo hi h

-- Between two characters the range of the next byte does not matter.
between : (lo hi : ℕ) (t : Text) → is_utf8 t ≡ true → utf8_from zero lo hi t ≡ true
unfolding utf8_from is_utf8
between lo hi [] h = refl
between lo hi (b ∷ t) h = h

both : (a b c : Bool) → (a ≡ true → b ≡ true) → (c && a) ≡ true → (c && b) ≡ true
both a b true f h = f h
both a b false f h = h

utf8_from-append :
    (n lo hi : ℕ) (s t : Text)
    → utf8_from n lo hi s ≡ true
    → is_utf8 t ≡ true
    → utf8_from n lo hi (s ++ t) ≡ true
unfolding utf8_from
utf8_from-append zero lo hi [] t h k = between lo hi t k
utf8_from-append (suc n) lo hi [] t h k = cc
utf8_from-append (suc n) lo hi (b ∷ s) t h k =
    both (utf8_from n 0x80 0xbf s) (utf8_from n 0x80 0xbf (s ++ t)) (leb lo b && leb b hi)
      (λ e. utf8_from-append n 0x80 0xbf s t e k) h
utf8_from-append zero lo hi (b ∷ s) t h k =
    checked_after-append s t (utf8_lead b) (λ p l u e. utf8_from-append p l u s t e k) h

pub is_utf8-append : (s t : Text) → is_utf8 s ≡ true → is_utf8 t ≡ true → is_utf8 (s ++ t) ≡ true
unfolding is_utf8
is_utf8-append s t h k = utf8_from-append 0 0x80 0xbf s t h (unfold is_utf8 in k)

-- Digits.
digit-utf8_lead : (c : ℕ) → is_digit c ≡ true → utf8_lead c ≡ some (0, 0x80, 0xbf)
unfolding utf8_lead
digit-utf8_lead c h = ground arith

pub digits-is_utf8 : (s : Text) → all is_digit s ≡ true → is_utf8 s ≡ true
unfolding is_utf8 utf8_from
digits-is_utf8 [] h = refl
digits-is_utf8 (c ∷ s) h =
    let (first, others) = &&-eq-true (is_digit c) (all is_digit s) h in
    ap (checked_after s s s) (digit-utf8_lead c first)
    ∙ between 0x80 0xbf s (digits-is_utf8 s others)

digit-whitespace_one : (c : ℕ) → is_digit c ≡ true → whitespace_one c ≡ false
digit-whitespace_one c h = ground arith

digit-whitespace_two : (c d : ℕ) → is_digit c ≡ true → whitespace_two c d ≡ false
digit-whitespace_two c d h = ground arith

digit-whitespace_two_last : (c d : ℕ) → is_digit c ≡ true → whitespace_two d c ≡ false
digit-whitespace_two_last c d h = ground arith

digit-whitespace_three : (c d e : ℕ) → is_digit c ≡ true → whitespace_three c d e ≡ false
digit-whitespace_three c d e h = ground arith

digit-whitespace_three_last : (c d e : ℕ) → is_digit c ≡ true → whitespace_three e d c ≡ false
digit-whitespace_three_last c d e h = ground arith

digit-whitespace_first : (c : ℕ) (s : Text) → is_digit c ≡ true → whitespace_first (c ∷ s) ≡ 0
unfolding whitespace_first
digit-whitespace_first c [] h = rw (digit-whitespace_one c h) refl
digit-whitespace_first c (d ∷ []) h = rw (digit-whitespace_one c h, digit-whitespace_two c d h) refl
digit-whitespace_first c (d ∷ e ∷ s) h =
    rw (digit-whitespace_one c h, digit-whitespace_two c d h, digit-whitespace_three c d e h) refl

digit-whitespace_last : (c : ℕ) (s : Text) → is_digit c ≡ true → whitespace_last (c ∷ s) ≡ 0
unfolding whitespace_last
digit-whitespace_last c [] h = rw (digit-whitespace_one c h) refl
digit-whitespace_last c (d ∷ []) h =
    rw (digit-whitespace_one c h, digit-whitespace_two_last c d h) refl
digit-whitespace_last c (d ∷ e ∷ s) h =
    rw
      (
        digit-whitespace_one c h,
        digit-whitespace_two_last c d h,
        digit-whitespace_three_last c d e h,
      )
      refl

trim_from_self :
    (width : Text → ℕ) (s : Text)
    → ((c : ℕ) (t : Text) → is_digit c ≡ true → width (c ∷ t) ≡ 0)
    → all is_digit s ≡ true
    → trim_from width 0 s ≡ s
unfolding trim_from
trim_from_self width [] f h = refl
trim_from_self width (c ∷ s) f h = rw (f c s (&&-eq-true (is_digit c) (all is_digit s) h).0) refl

all-reverse_aux :
    (p : ℕ → Bool) (s t : Text) → all p s ≡ true → all p t ≡ true → all p (reverse_aux s t) ≡ true
all-reverse_aux p [] t h k = k
all-reverse_aux p (c ∷ s) t h k =
    let (first, others) = &&-eq-true (p c) (all p s) h in
    all-reverse_aux p s (c ∷ t) others (rw first k)

pub digits-trim_bytes : (s : Text) → all is_digit s ≡ true → trim_bytes s ≡ s
unfolding trim_bytes
digits-trim_bytes s h =
    ap (λ t. reverse (trim_from whitespace_last 0 (reverse t)))
      (trim_from_self whitespace_first s digit-whitespace_first h)
    ∙ ap reverse (
        trim_from_self whitespace_last (reverse s) digit-whitespace_last
          (all-reverse_aux is_digit s [] h refl))
    ∙ reverse-reverse s

-- A space in front does not matter to `trim`.
pub trim_bytes-space : (s : Text) → trim_bytes (b' ' ∷ s) ≡ trim_bytes s
unfolding trim_bytes trim_from whitespace_first
trim_bytes-space [] = refl
trim_bytes-space (c ∷ []) = refl
trim_bytes-space (c ∷ d ∷ s) = refl

-- A line end after a line is taken off.
pub trim_end_crlf-append :
    (s : Text) → all (differs 0x0a) s ≡ true → trim_end_crlf (s ++ 0x0d ∷ 0x0a ∷ []) ≡ s
unfolding trim_end_crlf differs
trim_end_crlf-append [] h = refl
trim_end_crlf-append (c ∷ []) h = ground arith
trim_end_crlf-append (c ∷ d ∷ []) h = ground arith
trim_end_crlf-append (c ∷ d ∷ e ∷ s) h = ground (arith, trim_end_crlf-append (d ∷ e ∷ s))
