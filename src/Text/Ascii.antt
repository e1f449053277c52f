-- ===== src/Text/Ascii.antt =====
-- ASCII letters regardless of case.
use vaultproxy.Prelude.{ℕ, ◌+◌, Bool, ◌&&◌, [], ◌∷◌, if◌then◌else◌, leb, Text, text_eq, ◌==◌}

abbrev pub to_ascii_lowercase_char : ℕ → ℕ
to_ascii_lowercase_char c = if leb b'A' c && leb c b'Z' then c + 32 else c

abbrev pub to_ascii_lowercase : Text → Text
to_ascii_lowercase [] = []
to_ascii_lowercase (c ∷ s) = to_ascii_lowercase_char c ∷ to_ascii_lowercase s

unfoldable pub eq_ignore_ascii_case : Text → Text → Bool
eq_ignore_ascii_case s t = to_ascii_lowercase s == to_ascii_lowercase t
