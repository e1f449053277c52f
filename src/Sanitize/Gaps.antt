-- ===== src/Sanitize/Gaps.antt =====
-- What the filters of security/sanitize.rs do not find.
use vaultproxy.Prelude.{
  ◌≡◌, refl, sym, ap, ◌∙◌, Bool, true, not, ◌||◌, List, [], ◌∷◌, arith, Text, all, &&-eq-true,
  Bool-cases, inl, inr,
}
use vaultproxy.Text.{is_empty}
use vaultproxy.Sanitize.{
  starts_with_ignore_case, replace_from, case_insensitive_replace, filtered, filter_all,
  remove_zero_width, truncated, sanitize_internal, sanitize_for_wire,
}
use vaultproxy.Sanitize.Patterns.{markup_patterns}

-- The needle stands somewhere in the text, in any case of its ASCII letters.
unfoldable pub contains_ignore_case : Text → Text → Bool
contains_ignore_case [] needle = is_empty needle
contains_ignore_case (c ∷ s) needle =
    starts_with_ignore_case (c ∷ s) needle || contains_ignore_case s needle

abbrev pub lacks : Text → Text → Bool
lacks s needle = not (contains_ignore_case s needle)

replace_from-lacks :
    (needle replacement s : Text) → lacks s needle ≡ true → replace_from needle replacement 0 s ≡ s
unfolding contains_ignore_case replace_from
replace_from-lacks needle replacement [] h = refl
replace_from-lacks needle replacement (c ∷ s) h =
    elim (Bool-cases (starts_with_ignore_case (c ∷ s) needle)) [
      | inl found ↦ absurd (found_lacks (contains_ignore_case s needle) found h)
      | inr missed ↦ rw missed (
          ap (λ r. c ∷ r)
            (replace_from-lacks needle replacement s
              (ap (λ b. not (b || contains_ignore_case s needle)) (sym missed) ∙ h)))
    ]
  where
    found_lacks : {a : Bool} (b : Bool) → a ≡ true → not (a || b) ≡ true → ⊥
    found_lacks b e k = ground (arith, e, k)

case_insensitive_replace-lacks :
    (s needle replacement : Text)
    → lacks s needle ≡ true
    → case_insensitive_replace s needle replacement ≡ s
unfolding case_insensitive_replace
case_insensitive_replace-lacks s [] replacement h = refl
case_insensitive_replace-lacks s (c ∷ needle) replacement h =
    replace_from-lacks (c ∷ needle) replacement s h

filter_all-lacks :
    (patterns : List Text) (s : Text) → all (lacks s) patterns ≡ true → filter_all patterns s ≡ s
unfolding filter_all
filter_all-lacks [] s h = refl
filter_all-lacks (p ∷ patterns) s h =
    let (first, others) = &&-eq-true (lacks s p) (all (lacks s) patterns) h in
    ap (filter_all patterns) (case_insensitive_replace-lacks s p filtered first)
    ∙ filter_all-lacks patterns s others

-- A text in which no tag occurs comes out as it is but for its zero-width characters and what is
-- beyond 100 KiB, also when taking those characters away makes a tag.
pub sanitize_for_wire-lacks :
    (text : Text)
    → all (lacks text) markup_patterns ≡ true
    → sanitize_for_wire text ≡ truncated (remove_zero_width text)
unfolding sanitize_internal filter_all
sanitize_for_wire-lacks text h =
    ap (λ s. truncated (remove_zero_width s)) (filter_all-lacks markup_patterns text h)
