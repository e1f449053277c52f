-- ===== src/Transparent/Connect/RoundTrip.antt =====
-- A target that is printed by `Display` of proxy/transparent/connect.rs is read back.
use mathlib.Core.List.{reverse, reverse-reverse}
use vaultproxy.Prelude.{
  ℕ, ◌≤◌, ◌<◌, ◌≡◌, refl, ap, ◌∙◌, true, false, none, List, [], ◌∷◌, ◌++◌, arith, ltb, eqb, text_eq,
  Text, codes, length, all, all-append, any, ok, ◌>>=◌, ◌>>◌, reject_if, ok_or, Bool-cases, inl,
  inr,
}
use vaultproxy.Text.{is_empty, is_utf8, starts_with}
use vaultproxy.Text.Decimal.{digit-differs, decimal, parse_uint-decimal, decimal-is_digit, is_digit}
use vaultproxy.Text.Search.{
  differs, strip_prefix, splitn_three-append, rsplit_once-append, rsplit_once_at-append,
  before-append,
}
use vaultproxy.Transparent.Connect.{
  ConnectTarget, display, parse_port, target_of, parse_bracketed, parse_plain, parse_host_port,
  of_stripped, of_parts, parse_request_line, parse_head, read_connect_line,
}
use vaultproxy.Transparent.Connect.Reading.{block, AllLines, read_block-block}

-- A host without spaces and line ends. One without a colon is not empty and starts with no bracket.
abbrev pub IsHost : Text → Type 0
IsHost host =
    (all (differs b' ') host ≡ true)
    × (all (differs 0x0d) host ≡ true)
    × (all (differs 0x0a) host ≡ true)
    × (is_empty host ≡ false)
    × (starts_with host (codes "[") ≡ false)

abbrev pub IsTarget : ConnectTarget → Type 0
IsTarget t = IsHost t.host × (0 < t.port) × (t.port < 65536)

not_zero : (port : ℕ) (e : Text) → 0 < port → reject_if (eqb port 0) e ≡ ok tt
not_zero port e h = ground arith

parse_port-decimal : (port : ℕ) → 0 < port → port < 65536 → parse_port (decimal 4 port) ≡ ok port
parse_port-decimal port h k =
    ap
      (λ o. ok_or o (codes "invalid port: " ++ decimal 4 port) >>= λ p.
        reject_if (eqb p 0) (codes "port must be > 0") >> ok p)
      (parse_uint-decimal 4 port 65536 (omega (arith, k)) k)
    ∙ ap (λ r. r >> ok port) (not_zero port (codes "port must be > 0") h)

target_of-decimal :
    (t : ConnectTarget) → 0 < t.port → t.port < 65536 → target_of t.host (decimal 4 t.port) ≡ ok t
target_of-decimal t h k =
    ap (λ r. r >>= λ port. ok (record { host = t.host; port = port }))
      (parse_port-decimal t.port h k)

colon_free : (port : ℕ) → port < 65536 → all (differs b':') (decimal 4 port) ≡ true
colon_free port k =
    digit-differs b':' (decimal 4 port) refl (decimal-is_digit 4 port (omega (arith, k)))

strip_prefix-bracket :
    (s r : Text)
    → is_empty s ≡ false
    → starts_with s (codes "[") ≡ false
    → strip_prefix (s ++ r) (codes "[") ≡ none
unfolding starts_with strip_prefix
strip_prefix-bracket [] r h k = cc
strip_prefix-bracket (c ∷ s) r h k = ground arith

parse_plain-port :
    (t : ConnectTarget) → IsTarget t → parse_plain (t.host ++ b':' ∷ decimal 4 t.port) ≡ ok t
unfolding parse_plain
parse_plain-port t ((space, cr, lf, full, plain), h, k) =
    rw (rsplit_once-append b':' t.host (decimal 4 t.port) (colon_free t.port k))
      (rw full (target_of-decimal t h k))

parse_bracketed-port :
    (t : ConnectTarget) (s : Text)
    → IsTarget t
    → parse_bracketed s (t.host ++ b']' ∷ b':' ∷ decimal 4 t.port) ≡ ok t
unfolding parse_bracketed
parse_bracketed-port t s (host, h, k) =
    rw (rsplit_once_at-append b']' b':' t.host (decimal 4 t.port) refl (colon_free t.port k))
      (target_of-decimal t h k)

parse_host_port-display : (t : ConnectTarget) → IsTarget t → parse_host_port (display t) ≡ ok t
unfolding display parse_host_port
parse_host_port-display t ((space, cr, lf, full, plain), h, k) =
    elim (Bool-cases (any (λ c. eqb c b':') t.host)) [
      | inl colon ↦ rw colon (
          unfold strip_prefix in
          parse_bracketed-port t (b'[' ∷ (t.host ++ b']' ∷ b':' ∷ decimal 4 t.port))
            ((space, cr, lf, full, plain), h, k))
      | inr no_colon ↦ rw no_colon (
          ap (of_stripped (t.host ++ b':' ∷ decimal 4 t.port))
            (strip_prefix-bracket t.host (b':' ∷ decimal 4 t.port) full plain)
          ∙ parse_plain-port t ((space, cr, lf, full, plain), h, k))
    ]

-- The request line for a target.
abbrev pub request_line : ConnectTarget → Text
request_line t = codes "CONNECT " ++ (display t ++ codes " HTTP/1.1")

-- Characters that stand around the host pass the tests for spaces and line ends.
display-differs :
    (c : ℕ) (t : ConnectTarget)
    → is_digit c ≡ false
    → all (differs c) (codes "[]:") ≡ true
    → all (differs c) t.host ≡ true
    → t.port < 65536
    → all (differs c) (display t) ≡ true
unfolding display differs
display-differs c t n m h k =
    let port =
      digit-differs c (decimal 4 t.port) n (decimal-is_digit 4 t.port (omega (arith, k))) in
    let one = all-append (differs c) t.host (b']' ∷ b':' ∷ decimal 4 t.port) in
    let two = all-append (differs c) t.host (b':' ∷ decimal 4 t.port) in
    ground (arith, one, two, port)

parse_request_line-request_line :
    (t : ConnectTarget) → IsTarget t → parse_request_line (request_line t) ≡ ok t
unfolding parse_request_line differs
parse_request_line-request_line t ((space, cr, lf, full, plain), h, k) =
    ap of_parts (
      splitn_three-append b' ' (codes "CONNECT") (display t) (codes "HTTP/1.1") refl
        (display-differs b' ' t refl refl space k))
    ∙ parse_host_port-display t ((space, cr, lf, full, plain), h, k)

request_line-differs :
    (c : ℕ) (t : ConnectTarget)
    → all (differs c) (codes "CONNECT  HTTP/1.1") ≡ true
    → all (differs c) (display t) ≡ true
    → all (differs c) (request_line t) ≡ true
unfolding differs
request_line-differs c t m h =
    ground (arith, all-append (differs c) (display t) (codes " HTTP/1.1"))

not_long : (n : ℕ) (e : Text) → n ≤ 8192 → reject_if (ltb 8192 n) e ≡ ok tt
not_long n e h = ground arith

parse_head-block :
    (t : ConnectTarget) (headers : List Text)
    → IsTarget t
    → length (request_line t) ≤ 8192
    → is_utf8 (block (request_line t ∷ headers) []) ≡ true
    → parse_head (block (request_line t ∷ headers) []) ≡ ok t
unfolding parse_head
parse_head-block t headers ((space, cr, lf, full, plain), h, k) short utf8 =
    let line =
      request_line-differs 0x0d t (unfold differs in refl)
        (display-differs 0x0d t refl (unfold differs in refl) cr k) in
    let first = before-append 0x0d 0x0a (request_line t) (block headers []) line in
    rw (utf8, first)
      (ap (λ r. r >> parse_request_line (request_line t))
          (not_long (length (request_line t)) (codes "request line exceeds 8192 bytes") short)
        ∙ parse_request_line-request_line t ((space, cr, lf, full, plain), h, k))

-- A request for a target, with any headers, is read as that target, and what follows it is left in the
-- stream, if the block is in UTF-8, its first line has at most 8192 bytes, and it has at most 40 KiB.
pub read_connect_line-request_line :
    (t : ConnectTarget) (headers : List Text) (rest : Text)
    → IsTarget t
    → AllLines headers
    → length (request_line t) ≤ 8192
    → length (block (request_line t ∷ headers) []) ≤ 40960
    → is_utf8 (block (request_line t ∷ headers) []) ≡ true
    → read_connect_line (block (request_line t ∷ headers) rest) ≡ ok (t, rest)
unfolding read_connect_line
read_connect_line-request_line t headers rest ((space, cr, lf, full, plain), h, k) lines short small
      utf8 =
    let head = block (request_line t ∷ headers) [] in
    let line =
      request_line-differs 0x0a t (unfold differs in refl)
        (display-differs 0x0a t refl (unfold differs in refl) lf k) in
    ap (λ r. r >>= λ p. parse_head (reverse p.0) >>= λ target. ok (target, p.1))
      (read_block-block (request_line t) headers rest (line, lines) small)
    ∙ ap (λ b. parse_head b >>= λ target. ok (target, rest)) (reverse-reverse head)
    ∙ ap (λ r. r >>= λ target. ok (target, rest))
        (parse_head-block t headers ((space, cr, lf, full, plain), h, k) short utf8)
