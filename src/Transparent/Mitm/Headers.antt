-- ===== src/Transparent/Mitm/Headers.antt =====
-- The header lines that proxy/transparent/mitm.rs writes, read by its own loop over header lines.
use mathlib.Core.List.{append_assoc, append-nil}
use vaultproxy.Prelude.{
  ℕ, ◌^◌, ◌≡◌, refl, sym, ap, ◌∙◌, Bool, true, false, not, ◌&&◌, List, [], ◌∷◌, ◌++◌, arith,
  if◌then◌else◌, eqb, ◌==◌, text_eq, Text, codes, length, all, all-append, any, retain, ok,
  Bool-cases, inl, inr, &&-eq-true,
}
use vaultproxy.Text.{is_utf8, utf8_from, utf8_lead, split_once, push_front}
use vaultproxy.Text.Ascii.{eq_ignore_ascii_case}
use vaultproxy.Text.Decimal.{parse_uint, decimal}
use vaultproxy.Text.Search.{differs, split_once-append}
use vaultproxy.Text.Utf8.{
  trim_bytes, trim_end_crlf, is_utf8-append, trim_bytes-space, trim_end_crlf-append,
}
use vaultproxy.Transparent.Mitm.{
  Header, HttpRequest, split_lines, concat, add_header, read_headers, is_framing, is_host,
  header_line, header_lines, value_or_zero,
}

-- A string without a line feed.
abbrev pub IsLineText : Text → Type 0
IsLineText t = (is_utf8 t ≡ true) × (all (differs 0x0a) t ≡ true)

-- A header as `read_http_request` gives it.
abbrev pub IsHeader : Header → Type 0
IsHeader (k, v) =
    IsLineText k
    × IsLineText v
    × (all (differs b':') k ≡ true)
    × (trim_bytes k ≡ k)
    × (trim_bytes v ≡ v)

abbrev pub AllHeaders : List Header → Type 0
AllHeaders [] = Unit
AllHeaders (h ∷ hs) = IsHeader h × AllHeaders hs

-- The headers that go to the service.
abbrev pub is_sent : Header → Bool
is_sent h = not (is_framing h.0)

abbrev pub added_host : Bool → Text → List Header
added_host true target_host = []
added_host false target_host = (codes "Host", target_host) ∷ []

abbrev pub sent_headers : HttpRequest → Text → List Header
sent_headers req target_host =
    retain is_sent req.headers
    ++ (added_host (any is_host req.headers) target_host
        ++ (codes "Connection", codes "close")
          ∷ (codes "Content-Length", decimal 19 (length req.body))
          ∷ [])

concat-push_front : (c : ℕ) (ls : List Text) → concat (push_front c ls) ≡ c ∷ concat ls
unfolding concat
concat-push_front c [] = refl
concat-push_front c (l ∷ ls) = refl

concat-split_lines : (s : Text) → concat (split_lines s) ≡ s
unfolding split_lines concat
concat-split_lines [] = refl
concat-split_lines (c ∷ s) = elim (Bool-cases (eqb c 0x0a)) [
  | inl e ↦ rw e (ap (λ r. c ∷ r) (concat-split_lines s))
  | inr n ↦ rw n (concat-push_front c (split_lines s) ∙ ap (λ r. c ∷ r) (concat-split_lines s))
]

differs_lem : (c d : ℕ) → differs c d ≡ true → eqb d c ≡ false
unfolding differs
differs_lem c d h = ground arith

pub split_lines-line :
    (l s : Text)
    → all (differs 0x0a) l ≡ true
    → split_lines (l ++ 0x0d ∷ 0x0a ∷ s) ≡ (l ++ 0x0d ∷ 0x0a ∷ []) ∷ split_lines s
unfolding split_lines
split_lines-line [] s h = refl
split_lines-line (c ∷ l) s h =
    let (first, others) = &&-eq-true (differs 0x0a c) (all (differs 0x0a) l) h in
    rw (differs_lem 0x0a c first) (ap (push_front c) (split_lines-line l s others))

not_empty_line : (c : ℕ) (l : Text) → (c ∷ l ++ 0x0d ∷ 0x0a ∷ [] == 0x0d ∷ 0x0a ∷ []) ≡ false
not_empty_line c [] = ground arith
not_empty_line c (d ∷ []) = ground arith
not_empty_line c (d ∷ e ∷ l) = ground arith

-- The line of a header, before its end.
abbrev line_of_header : Header → Text
line_of_header (k, v) = k ++ b':' ∷ b' ' ∷ v

header_line-append :
    (h : Header) (rest : Text) → header_line h ++ rest ≡ line_of_header h ++ 0x0d ∷ 0x0a ∷ rest
header_line-append (k, v) rest =
    append_assoc k (b':' ∷ b' ' ∷ (v ++ 0x0d ∷ 0x0a ∷ [])) rest
    ∙ ap (λ t. k ++ b':' ∷ b' ' ∷ t) (append_assoc v (0x0d ∷ 0x0a ∷ []) rest)
    ∙ sym (append_assoc k (b':' ∷ b' ' ∷ v) (0x0d ∷ 0x0a ∷ rest))

header_not_empty : (h : Header) → (line_of_header h ++ 0x0d ∷ 0x0a ∷ [] == 0x0d ∷ 0x0a ∷ []) ≡ false
header_not_empty ([], v) = ground arith
header_not_empty (c ∷ k, v) = not_empty_line c (k ++ b':' ∷ b' ' ∷ v)

both_true : {a b : Bool} → a ≡ true → b ≡ true → (a && b) ≡ true
both_true h k = rw h k

pub IsLineText-append : (s t : Text) → IsLineText s → IsLineText t → IsLineText (s ++ t)
IsLineText-append s t (su, sl) (tu, tl) =
    (is_utf8-append s t su tu, all-append (differs 0x0a) s t ∙ both_true sl tl)

line_of_header-IsLineText : (h : Header) → IsHeader h → IsLineText (line_of_header h)
line_of_header-IsLineText (k, v) (kl, (vu, vl), colon, kt, vt) =
    IsLineText-append k (b':' ∷ b' ' ∷ v) kl (
      is_utf8-append (codes ": ") v (unfold is_utf8 utf8_from utf8_lead in refl) vu,
      unfold differs in vl,
    )

read_headers_cons :
    (acc : List Header) (n : ℕ) (line : Text) (stream : List Text)
    → is_utf8 line ≡ true
    → (line == 0x0d ∷ 0x0a ∷ []) ≡ false
    → read_headers acc n (line ∷ stream) ≡ (
        let next = add_header acc n (split_once b':' (trim_end_crlf line)) in
        read_headers next.0 next.1 stream)
unfolding read_headers
read_headers_cons acc n line stream u e = rw (u, e) refl

-- The length that a header gives.
abbrev pub length_after : ℕ → Header → ℕ
length_after n (k, v) =
    if eq_ignore_ascii_case k (codes "content-length")
    then value_or_zero (parse_uint (2 ^ 64) v)
    else n

length_after_sent : (n : ℕ) (h : Header) → is_framing h.0 ≡ false → length_after n h ≡ n
unfolding is_framing
length_after_sent n (k, v) e = ground arith

trimmed :
    (k v : Text)
    → trim_bytes k ≡ k
    → trim_bytes v ≡ v
    → ◌≡◌ {A = Header} (trim_bytes k, trim_bytes (b' ' ∷ v)) (k, v)
trimmed k v h e = rw (trim_bytes-space v, h, e) refl

pub read_headers-header_line :
    (acc : List Header) (n : ℕ) (h : Header) (rest : Text)
    → IsHeader h
    → read_headers acc n (split_lines (header_line h ++ rest))
      ≡ read_headers (acc ++ h ∷ []) (length_after n h) (split_lines rest)
read_headers-header_line acc n (k, v) rest ((ku, kl), (vu, vl), colon, kt, vt) =
    let h : Header = (k, v) in
    let line = line_of_header h ++ 0x0d ∷ 0x0a ∷ [] in
    let (utf8, feed) = line_of_header-IsLineText h ((ku, kl), (vu, vl), colon, kt, vt) in
    ap (λ t. read_headers acc n (split_lines t)) (header_line-append h rest)
    ∙ ap (read_headers acc n) (split_lines-line (line_of_header h) rest feed)
    ∙ read_headers_cons acc n line (split_lines rest)
        (is_utf8-append (line_of_header h) (0x0d ∷ 0x0a ∷ []) utf8
          (unfold is_utf8 utf8_from utf8_lead in refl))
        (header_not_empty h)
    ∙ ap (λ o. read_headers (add_header acc n o).0 (add_header acc n o).1 (split_lines rest))
        (ap (split_once b':') (trim_end_crlf-append (line_of_header h) feed)
          ∙ split_once-append b':' k (b' ' ∷ v) colon)
    ∙ ap (λ (p : Text × Text). read_headers (acc ++ p ∷ []) (length_after n p) (split_lines rest))
        (trimmed k v kt vt)

retain-framing :
    (h : Header) (hs : List Header)
    → is_framing h.0 ≡ true
    → retain is_sent (h ∷ hs) ≡ retain is_sent hs
retain-framing h hs e = rw (e, retain) refl

retain-sent :
    (h : Header) (hs : List Header)
    → is_framing h.0 ≡ false
    → retain is_sent (h ∷ hs) ≡ h ∷ retain is_sent hs
retain-sent h hs e = rw (e, retain) refl

-- The header lines of a request.
pub read_headers-header_lines :
    (acc : List Header) (n : ℕ) (hs : List Header) (rest : Text)
    → AllHeaders hs
    → read_headers acc n (split_lines (header_lines hs rest))
      ≡ read_headers (acc ++ retain is_sent hs) n (split_lines rest)
unfolding header_lines
read_headers-header_lines acc n [] rest a =
    ap (λ x. read_headers x n (split_lines rest)) (sym (append-nil acc))
read_headers-header_lines acc n (h ∷ hs) rest (first, others) = elim (Bool-cases (is_framing h.0)) [
  | inl framing ↦ rw framing (
      read_headers-header_lines acc n hs rest others
      ∙ ap (λ x. read_headers (acc ++ x) n (split_lines rest)) (sym (retain-framing h hs framing)))
  | inr sent ↦ rw sent (
      read_headers-header_line acc n h (header_lines hs rest) first
      ∙ ap (λ m. read_headers (acc ++ h ∷ []) m (split_lines (header_lines hs rest)))
          (length_after_sent n h sent)
      ∙ read_headers-header_lines (acc ++ h ∷ []) n hs rest others
      ∙ ap (λ x. read_headers x n (split_lines rest))
          (append_assoc acc (h ∷ []) (retain is_sent hs))
      ∙ ap (λ x. read_headers (acc ++ x) n (split_lines rest)) (sym (retain-sent h hs sent)))
]

pub read_headers-end :
    (acc : List Header) (n : ℕ) (body : Text)
    → read_headers acc n (split_lines (0x0d ∷ 0x0a ∷ body)) ≡ ok (acc, n, body)
unfolding read_headers split_lines is_utf8 utf8_from utf8_lead
read_headers-end acc n body = ap (λ b. ok (acc, n, b)) (concat-split_lines body)
