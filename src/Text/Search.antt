-- ===== src/Text/Search.antt =====
-- Searches from either end of a text: `strip_prefix`, `rsplit_once`, `splitn`, `find`, `replace`.
use mathlib.Core.List.{reverse}
use mathlib.Core.Option
use vaultproxy.Prelude.{
  ℕ, zero, suc, ◌-◌, ◌≡◌, refl, Bool, true, false, not, Option, none, some, List, [], ◌∷◌, ◌++◌,
  arith, if◌then◌else◌, eqb, Text, all, drop, length,
}
use vaultproxy.Text.{is_empty, starts_with, split_once}

-- `s.ends_with(p)` for a text
unfoldable pub ends_with : Text → Text → Bool
ends_with s p = starts_with (reverse s) (reverse p)

unfoldable pub strip_prefix : Text → Text → Option Text
strip_prefix s [] = some s
strip_prefix [] (c ∷ p) = none
strip_prefix (d ∷ s) (c ∷ p) = let rest = strip_prefix s p in if eqb d c then rest else none

abbrev pub in_front : ℕ → Option (Text × Text) → Option (Text × Text) → Option (Text × Text)
in_front d none other = other
in_front d (some (a, b)) other = some (d ∷ a, b)

-- `s.rsplit_once(c)` for a character
unfoldable pub rsplit_once : ℕ → Text → Option (Text × Text)
rsplit_once c [] = none
rsplit_once c (d ∷ s) = in_front d (rsplit_once c s) (if eqb d c then some ([], s) else none)

-- `s.rsplit_once(p)` for a text
unfoldable pub rsplit_once_at : Text → Text → Option (Text × Text)
rsplit_once_at p [] = none
rsplit_once_at p (d ∷ s) =
    in_front d (rsplit_once_at p s)
      (if starts_with (d ∷ s) p then some ([], drop (length p) (d ∷ s)) else none)

-- `s.split(p).next()` for a text
unfoldable pub before : Text → Text → Text
before p [] = []
before p (d ∷ s) = let rest = before p s in if starts_with (d ∷ s) p then [] else d ∷ rest

-- `s.splitn(3, c)`
abbrev pub split_rest : ℕ → Text → Option (Text × Text) → List Text
split_rest c s none = s ∷ []
split_rest c s (some (a, r)) =
    a ∷ elim (split_once c r) [ none ↦ r ∷ [] | some (b, t) ↦ b ∷ t ∷ [] ]

unfoldable pub splitn_three : ℕ → Text → List Text
splitn_three c s = split_rest c s (split_once c s)

-- Other than the character.
unfoldable pub differs : ℕ → ℕ → Bool
differs c d = not (eqb d c)

pub split_once-append :
    (c : ℕ) (a r : Text) → all (differs c) a ≡ true → split_once c (a ++ c ∷ r) ≡ some (a, r)
unfolding split_once differs
split_once-append c [] r h = ground arith
split_once-append c (d ∷ a) r h = ground (arith, split_once-append c a r)

pub splitn_three-append :
    (c : ℕ) (a b t : Text)
    → all (differs c) a ≡ true
    → all (differs c) b ≡ true
    → splitn_three c (a ++ c ∷ (b ++ c ∷ t)) ≡ a ∷ b ∷ t ∷ []
unfolding splitn_three
splitn_three-append c a b t h k =
    rw (split_once-append c a (b ++ c ∷ t) h) (rw (split_once-append c b t k) refl)

rsplit_once-none : (c : ℕ) (t : Text) → all (differs c) t ≡ true → rsplit_once c t ≡ none
unfolding rsplit_once differs
rsplit_once-none c [] h = refl
rsplit_once-none c (d ∷ t) h = ground (arith, rsplit_once-none c t)

pub rsplit_once-append :
    (c : ℕ) (s t : Text) → all (differs c) t ≡ true → rsplit_once c (s ++ c ∷ t) ≡ some (s, t)
unfolding rsplit_once
rsplit_once-append c [] t h = rw (rsplit_once-none c t h) (ground arith)
rsplit_once-append c (d ∷ s) t h = rw (rsplit_once-append c s t h) refl

-- What comes before the last occurrence is found if the last character of the text looked for does
-- not come after it.
rsplit_once_at-none :
    (b c : ℕ) (t : Text) → all (differs c) t ≡ true → rsplit_once_at (b ∷ c ∷ []) t ≡ none
unfolding rsplit_once_at differs starts_with
rsplit_once_at-none b c [] h = refl
rsplit_once_at-none b c (d ∷ []) h = ground arith
rsplit_once_at-none b c (d ∷ e ∷ t) h = ground (arith, rsplit_once_at-none b c (e ∷ t))

pub rsplit_once_at-append :
    (b c : ℕ) (s t : Text)
    → eqb c b ≡ false
    → all (differs c) t ≡ true
    → rsplit_once_at (b ∷ c ∷ []) (s ++ b ∷ c ∷ t) ≡ some (s, t)
unfolding rsplit_once_at starts_with
rsplit_once_at-append b c [] t n h = rw (rsplit_once_at-none b c t h, n) (ground arith)
rsplit_once_at-append b c (d ∷ s) t n h = rw (rsplit_once_at-append b c s t n h) refl

pub before-append :
    (b c : ℕ) (s t : Text) → all (differs b) s ≡ true → before (b ∷ c ∷ []) (s ++ b ∷ c ∷ t) ≡ s
unfolding before starts_with differs
before-append b c [] t h = ground arith
before-append b c (d ∷ s) t h = ground (arith, before-append b c s t)

-- `s.replace(p, r)` for a text that is not empty; the number says how many characters of an
-- occurrence are still to be left out.
unfoldable pub replace_at : Text → Text → ℕ → Text → Text
replace_at p r n [] = []
replace_at p r (suc n) (c ∷ s) = replace_at p r n s
replace_at p r zero (c ∷ s) =
    let found = starts_with (c ∷ s) p in
    let rest = replace_at p r (if found then length p - 1 else 0) s in
    if found then r ++ rest else c ∷ rest

-- What comes before the first occurrence, if there is one.
unfoldable pub find_before : Text → Text → Option Text
find_before p [] = if is_empty p then some [] else none
find_before p (c ∷ s) =
    let rest = find_before p s in
    if starts_with (c ∷ s) p then some [] else Option.map (λ t. c ∷ t) rest
