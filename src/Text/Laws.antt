-- ===== src/Text/Laws.antt =====
-- Laws of the text operations.
use mathlib.Core.List.{append_assoc, append-nil}
use vaultproxy.Prelude.{
  ℕ, zero, suc, ◌+◌, ◌≡◌, refl, true, false, List, [], ◌∷◌, ◌++◌, arith, Text, ◌∙◌, ap, sym,
}
use vaultproxy.Text.{byte_len, ends_with_char, trim_end_matches}

abbrev pub replicate {ℓ} : {A : Type ℓ} → ℕ → A → List A
replicate zero a = []
replicate (suc n) a = a ∷ replicate n a

trim_end_matches-snoc : (c : ℕ) (s : Text) → trim_end_matches c (s ++ c ∷ []) ≡ trim_end_matches c s
unfolding trim_end_matches
trim_end_matches-snoc c [] = ground arith
trim_end_matches-snoc c (d ∷ s) = rw (trim_end_matches-snoc c s)

pub trim_end_matches-append_replicate :
    (c n : ℕ) (s : Text) → trim_end_matches c (s ++ replicate n c) ≡ trim_end_matches c s
trim_end_matches-append_replicate c zero s = ap (trim_end_matches c) (append-nil s)
trim_end_matches-append_replicate c (suc n) s =
    ap (trim_end_matches c) (sym (append_assoc s (c ∷ []) (replicate n c)))
    ∙ trim_end_matches-append_replicate c n (s ++ c ∷ [])
    ∙ trim_end_matches-snoc c s

pub trim_end_matches_self :
    (c : ℕ) (s : Text) → ends_with_char s c ≡ false → trim_end_matches c s ≡ s
unfolding trim_end_matches ends_with_char
trim_end_matches_self c [] h = refl
trim_end_matches_self c (d ∷ []) h = ground arith
trim_end_matches_self c (d ∷ e ∷ s) h = rw (trim_end_matches_self c (e ∷ s) h)

ends_with_char-replicate : (c n : ℕ) → ends_with_char (c ∷ replicate n c) c ≡ true
unfolding ends_with_char
ends_with_char-replicate c zero = ground arith
ends_with_char-replicate c (suc n) = ends_with_char-replicate c n

pub ends_with_char-append_replicate :
    (c n : ℕ) (s : Text) → ends_with_char (s ++ c ∷ replicate n c) c ≡ true
unfolding ends_with_char
ends_with_char-append_replicate c n [] = ends_with_char-replicate c n
ends_with_char-append_replicate c n (d ∷ []) = ends_with_char-replicate c n
ends_with_char-append_replicate c n (d ∷ e ∷ s) = ends_with_char-append_replicate c n (e ∷ s)

pub byte_len-append : (s t : Text) → byte_len (s ++ t) ≡ byte_len s + byte_len t
unfolding byte_len
byte_len-append [] t = omega arith
byte_len-append (c ∷ s) t = omega (arith, byte_len-append s t)
