-- ===== src/Text/Words.antt =====
-- Words and the texts that are made of them.
use vaultproxy.Prelude.{
  ℕ, Bool, true, false, not, ◌≡◌, refl, ap, ◌∙◌, List, [], ◌∷◌, ◌++◌, arith, eqb, Text, all,
}
use vaultproxy.Text.{
  is_empty, is_whitespace, split_whitespace, add_to_word, split, join, trim_start, trim_end, trim,
}

unfoldable pub not_space : ℕ → Bool
not_space c = not (is_whitespace c)

-- A word is not empty and has no white space.
abbrev pub IsWord : Text → Type 0
IsWord w = (is_empty w ≡ false) × (all not_space w ≡ true)

add_to_word-space :
    (c : ℕ) (r : Text) (ws : List Text) → add_to_word c (0x20 ∷ r) ws ≡ (c ∷ []) ∷ ws
unfolding is_whitespace
add_to_word-space c r [] = refl
add_to_word-space c r (w ∷ ws) = refl

space-is_whitespace : is_whitespace 0x20 ≡ true
unfolding is_whitespace
space-is_whitespace = refl

pub split_whitespace-word_space :
    (w r : Text) → IsWord w → split_whitespace (w ++ 0x20 ∷ r) ≡ w ∷ split_whitespace r
unfolding split_whitespace not_space
split_whitespace-word_space [] r h = cc
split_whitespace-word_space (c ∷ []) r h =
    ground (arith, add_to_word-space c r (split_whitespace r), space-is_whitespace)
split_whitespace-word_space (c ∷ d ∷ w) r h = ground (arith, split_whitespace-word_space (d ∷ w) r)

pub split_whitespace-word : (w : Text) → IsWord w → split_whitespace w ≡ w ∷ []
unfolding split_whitespace not_space
split_whitespace-word [] h = cc
split_whitespace-word (c ∷ []) h = ground arith
split_whitespace-word (c ∷ d ∷ w) h = ground (arith, split_whitespace-word (d ∷ w))

-- A text without the separator is one part.
unfoldable pub no_sep : ℕ → ℕ → Bool
no_sep c d = not (eqb d c)

split_self : (c : ℕ) (w : Text) → all (no_sep c) w ≡ true → split c w ≡ w ∷ []
unfolding split no_sep
split_self c [] h = refl
split_self c (d ∷ w) h = ground (arith, split_self c w)

split-append : (c : ℕ) (w r : Text) → all (no_sep c) w ≡ true → split c (w ++ c ∷ r) ≡ w ∷ split c r
unfolding split no_sep
split-append c [] r h = ground arith
split-append c (d ∷ w) r h = ground (arith, split-append c w r)

-- Parts without the separator are read back from what joins them.
pub split-join :
    (c : ℕ) (p : Text) (ps : List Text)
    → all (all (no_sep c)) (p ∷ ps) ≡ true
    → split c (join c (p ∷ ps)) ≡ p ∷ ps
unfolding join
split-join c p [] h = split_self c p (ground arith)
split-join c p (q ∷ ps) h =
    split-append c p (join c (q ∷ ps)) (ground arith)
    ∙ ap (λ r. p ∷ r) (split-join c q ps (ground arith))

is_empty-append : (m : Text) (d : ℕ) (w : Text) → is_empty (m ++ d ∷ w) ≡ false
is_empty-append [] d w = refl
is_empty-append (c ∷ m) d w = refl

-- Trimming leaves a text alone that begins and ends in something else than white space.
pub trim_end-append : (m w : Text) → IsWord w → trim_end (m ++ w) ≡ m ++ w
unfolding trim_end not_space
trim_end-append [] [] h = cc
trim_end-append [] (c ∷ []) h = ground arith
trim_end-append [] (c ∷ d ∷ w) h = ground (arith, trim_end-append [] (d ∷ w))
trim_end-append (c ∷ m) [] h = cc
trim_end-append (c ∷ m) (d ∷ w) h = ground (arith, trim_end-append m (d ∷ w), is_empty-append m d w)

pub trim-append :
    (c : ℕ) (m w : Text) → is_whitespace c ≡ false → IsWord w → trim (c ∷ m ++ w) ≡ c ∷ m ++ w
unfolding trim trim_start
trim-append c m w h k = rw h (trim_end-append (c ∷ m) w k)
