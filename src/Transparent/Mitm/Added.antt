-- ===== src/Transparent/Mitm/Added.antt =====
-- The header lines that proxy/transparent/mitm.rs adds to those of the client, read by its own loop.
use mathlib.Core.List.{append_assoc}
use vaultproxy.Prelude.{
  ℕ, ◌^◌, ◌≤◌, ◌≡◌, refl, ap, ◌∙◌, Bool, true, false, List, [], ◌∷◌, ◌++◌, arith, text_eq, Text,
  codes, length, ok,
}
use vaultproxy.Text.{is_utf8, utf8_from, utf8_lead}
use vaultproxy.Text.Ascii.{eq_ignore_ascii_case}
use vaultproxy.Text.Decimal.{decimal, digit-differs, decimal-is_digit, parse_uint-decimal}
use vaultproxy.Text.Search.{differs}
use vaultproxy.Text.Utf8.{
  trim_from, whitespace_first, whitespace_last, trim_bytes, digits-is_utf8, digits-trim_bytes,
}
use vaultproxy.Transparent.Mitm.{
  Header, split_lines, read_headers, header_line, added_lines, host_line, value_or_zero,
  max_transparent_body_bytes,
}
use vaultproxy.Transparent.Mitm.Headers.{
  IsLineText, IsHeader, added_host, read_headers-header_line, read_headers-end, length_after,
}

-- The headers that the proxy adds itself.
host-IsHeader :
    (host : Text) → IsLineText host → trim_bytes host ≡ host → IsHeader (codes "Host", host)
unfolding differs is_utf8 utf8_from utf8_lead trim_bytes trim_from whitespace_first whitespace_last
host-IsHeader host (u, l) t = ((refl, refl), (u, l), refl, refl, t)

close-IsHeader : IsHeader (codes "Connection", codes "close")
unfolding differs is_utf8 utf8_from utf8_lead trim_bytes trim_from whitespace_first whitespace_last
close-IsHeader = ((refl, refl), (refl, refl), refl, refl, refl)

length-IsHeader :
    (n : ℕ) → n ≤ max_transparent_body_bytes → IsHeader (codes "Content-Length", decimal 19 n)
unfolding differs is_utf8 utf8_from utf8_lead trim_bytes trim_from whitespace_first whitespace_last
length-IsHeader n h =
    let digits = decimal-is_digit 19 n (omega (arith, h)) in
    (
      (refl, refl),
      (digits-is_utf8 (decimal 19 n) digits, digit-differs 0x0a (decimal 19 n) refl digits),
      refl,
      refl,
      digits-trim_bytes (decimal 19 n) digits,
    )

-- The headers that follow those of the client.
length_after-decimal :
    (n : ℕ)
    → n ≤ max_transparent_body_bytes
    → length_after 0 (codes "Content-Length", decimal 19 n) ≡ n
unfolding eq_ignore_ascii_case
length_after-decimal n h =
    ap value_or_zero (parse_uint-decimal 19 n (2 ^ 64) (omega (arith, h)) (omega (arith, h)))

module _ (body : Text) (small : length body ≤ max_transparent_body_bytes) where
  abbrev pub added : List Header
  added =
      (codes "Connection", codes "close") ∷ (codes "Content-Length", decimal 19 (length body)) ∷ []

  read_headers-added_lines :
      (acc : List Header)
      → read_headers acc 0 (split_lines (added_lines body)) ≡ ok (acc ++ added, length body, body)
  unfolding eq_ignore_ascii_case
  read_headers-added_lines acc =
      let close : Header = (codes "Connection", codes "close") in
      let size : Header = (codes "Content-Length", decimal 19 (length body)) in
      read_headers-header_line acc 0 close (header_line size ++ 0x0d ∷ 0x0a ∷ body) close-IsHeader
      ∙ read_headers-header_line (acc ++ close ∷ []) 0 size (0x0d ∷ 0x0a ∷ body)
          (length-IsHeader (length body) small)
      ∙ read_headers-end (acc ++ close ∷ [] ++ size ∷ []) (length_after 0 size) body
      ∙ ap (λ n. ok (acc ++ close ∷ [] ++ size ∷ [], n, body))
          (length_after-decimal (length body) small)
      ∙ ap (λ hs. ok (hs, length body, body)) (append_assoc acc (close ∷ []) (size ∷ []))

  pub read_headers-host_line :
      (acc : List Header) (has_host : Bool) (host : Text)
      → IsLineText host
      → trim_bytes host ≡ host
      → read_headers acc 0 (split_lines (host_line has_host host (added_lines body)))
        ≡ ok (acc ++ (added_host has_host host ++ added), length body, body)
  unfolding eq_ignore_ascii_case
  read_headers-host_line acc true host h t = read_headers-added_lines acc
  read_headers-host_line acc false host h t =
      read_headers-header_line acc 0 (codes "Host", host) (added_lines body)
        (host-IsHeader host h t)
      ∙ read_headers-added_lines (acc ++ (codes "Host", host) ∷ [])
      ∙ ap (λ hs. ok (hs, length body, body)) (append_assoc acc ((codes "Host", host) ∷ []) added)
