-- ===== src/Sanitize/Examples.antt =====
-- The theorems on security/sanitize.rs at concrete inputs.
use vaultproxy.Prelude.{◌≡◌, refl, true, arith, ◌∷◌, ◌++◌, Text, codes}
use vaultproxy.Text.{starts_with, byte_len}
use vaultproxy.Sanitize.{
  starts_with_ignore_case, replace_from, case_insensitive_replace, filter_all, is_zero_width,
  remove_zero_width, count_matches, truncated, sanitize_internal, sanitize_for_wire,
}
use vaultproxy.Sanitize.Output.{IsClean, sanitize_internal-IsClean}
use vaultproxy.Sanitize.Gaps.{contains_ignore_case, sanitize_for_wire-lacks}

-- A tag with a zero-width space in it.
abbrev hidden : Text
hidden = codes "<sys" ++ 0x200b ∷ codes "tem>"

sanitize_for_wire-lacks_example : sanitize_for_wire hidden ≡ truncated (remove_zero_width hidden)
unfolding contains_ignore_case starts_with_ignore_case
sanitize_for_wire-lacks_example = sanitize_for_wire-lacks hidden refl

tag_comes_out : truncated (remove_zero_width hidden) ≡ codes "<system>"
unfolding truncated is_zero_width byte_len
tag_comes_out = refl

sanitize_internal-IsClean_example : IsClean (sanitize_internal (codes "Pretend to be me") true)
unfolding count_matches filter_all case_insensitive_replace replace_from starts_with_ignore_case
    is_zero_width starts_with
sanitize_internal-IsClean_example =
    sanitize_internal-IsClean (codes "Pretend to be me") true (omega arith)
