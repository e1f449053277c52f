-- ===== src/Transparent/Mitm/RoundTrip.antt =====
-- A request that proxy/transparent/mitm.rs writes to a service, read by a reader of the same kind.
use mathlib.Core.List.{append_assoc}
use vaultproxy.Prelude.{
  ℕ, ◌≤◌, ◌≡◌, refl, sym, ap, ◌∙◌, true, List, [], ◌∷◌, ◌++◌, arith, ltb, text_eq, Text, codes,
  length, take, all, any, retain, ok, ◌>>=◌, ◌>>◌, reject_if,
}
use vaultproxy.Text.{is_utf8, utf8_from, utf8_lead}
use vaultproxy.Text.Search.{differs, splitn_three, splitn_three-append}
use vaultproxy.Text.Utf8.{trim_bytes, is_utf8-append, trim_end_crlf-append}
use vaultproxy.Transparent.Mitm.{
  HttpRequest, split_lines, read_body, read_rest, request_parts, read_from, read_http_request,
  is_host, header_lines, added_lines, host_line, serialize_request, max_transparent_body_bytes,
}
use vaultproxy.Transparent.Mitm.Added.{read_headers-host_line}
use vaultproxy.Transparent.Mitm.Headers.{
  IsLineText, AllHeaders, is_sent, sent_headers, split_lines-line, IsLineText-append,
  read_headers-header_lines,
}

take-all : {A : Type 0} (xs : List A) → take (length xs) xs ≡ xs
take-all [] = refl
take-all (x ∷ xs) = ap (λ r. x ∷ r) (take-all xs)

read_body-all : (body : Text) → read_body (length body) body ≡ ok body
read_body-all body =
    ap (λ r. r >> ok (take (length body) body)) (reject_if_false (length body))
    ∙ ap (λ b. ok b) (take-all body)
  where
    reject_if_false : (n : ℕ) → reject_if (ltb n n) (codes "early eof") ≡ ok tt
    reject_if_false n = ground arith

-- A request line that is read as it was written.
abbrev pub IsRequestLine : Text → Text → Type 0
IsRequestLine method path =
    IsLineText method
    × IsLineText path
    × (all (differs b' ') method ≡ true)
    × (all (differs b' ') path ≡ true)

abbrev request_line : Text → Text → Text
request_line method path = method ++ b' ' ∷ (path ++ b' ' ∷ codes "HTTP/1.1")

request_line-IsLineText :
    (method path : Text) → IsRequestLine method path → IsLineText (request_line method path)
unfolding is_utf8 utf8_from utf8_lead differs
request_line-IsLineText method path (m, p, ms, ps) =
    IsLineText-append method (b' ' ∷ (path ++ b' ' ∷ codes "HTTP/1.1")) m (
      IsLineText-append (b' ' ∷ path) (b' ' ∷ codes "HTTP/1.1")
        (IsLineText-append (b' ' ∷ []) path space p) version)
  where
    space : IsLineText (b' ' ∷ [])
    space = (refl, refl)

    version : IsLineText (b' ' ∷ codes "HTTP/1.1")
    version = (refl, refl)

request_parts-request_line :
    (method path : Text)
    → IsRequestLine method path
    → request_parts (splitn_three b' ' (request_line method path)) ≡ ok (method, path)
request_parts-request_line method path (m, p, ms, ps) =
    ap request_parts (splitn_three-append b' ' method path (codes "HTTP/1.1") ms ps)

not_large :
    (n : ℕ) (e : Text)
    → n ≤ max_transparent_body_bytes
    → reject_if (ltb max_transparent_body_bytes n) e ≡ ok tt
not_large n e h = ground arith

-- What is read after the request line.
read_rest-header_lines :
    (req : HttpRequest) (host : Text)
    → AllHeaders req.headers
    → IsLineText host
    → trim_bytes host ≡ host
    → length req.body ≤ max_transparent_body_bytes
    → read_rest req.method req.path (
        split_lines (
          header_lines req.headers
            (host_line (any is_host req.headers) host (added_lines req.body))))
      ≡ ok (record {
        method = req.method;
        path = req.path;
        headers = sent_headers req host;
        body = req.body;
      })
read_rest-header_lines req host headers h t small =
    ap
      (λ r. r >>= λ p.
        reject_if (ltb max_transparent_body_bytes p.1) (codes "request body too large")
        >> (read_body p.1 p.2 >>= λ b.
            ok (record { method = req.method; path = req.path; headers = p.0; body = b })))
      (read_headers-header_lines [] 0 req.headers
          (host_line (any is_host req.headers) host (added_lines req.body)) headers
        ∙ read_headers-host_line req.body small (retain is_sent req.headers)
            (any is_host req.headers) host h t)
    ∙ ap
        (λ r.
          r
          >> (read_body (length req.body) req.body >>= λ b. ok (record {
            method = req.method;
            path = req.path;
            headers = sent_headers req host;
            body = b;
          })))
        (not_large (length req.body) (codes "request body too large") small)
    ∙ ap
        (λ r. r >>= λ b. ok (record {
          method = req.method;
          path = req.path;
          headers = sent_headers req host;
          body = b;
        }))
        (read_body-all req.body)

append-request_line :
    (method path rest : Text)
    → method ++ b' ' ∷ (path ++ b' ' ∷ (codes "HTTP/1.1" ++ rest))
      ≡ request_line method path ++ rest
append-request_line method path rest =
    ap (λ t. method ++ b' ' ∷ t) (sym (append_assoc path (b' ' ∷ codes "HTTP/1.1") rest))
    ∙ sym (append_assoc method (b' ' ∷ (path ++ b' ' ∷ codes "HTTP/1.1")) rest)

crlf-IsLineText : (line : Text) → IsLineText line → is_utf8 (line ++ 0x0d ∷ 0x0a ∷ []) ≡ true
unfolding is_utf8 utf8_from utf8_lead
crlf-IsLineText line h = is_utf8-append line (0x0d ∷ 0x0a ∷ []) h.0 refl

-- The first line of a stream.
read_from-request_line :
    (method path : Text) (stream : List Text)
    → IsRequestLine method path
    → read_from ((request_line method path ++ 0x0d ∷ 0x0a ∷ []) ∷ stream)
      ≡ read_rest method path stream
read_from-request_line method path stream line =
    let text = request_line-IsLineText method path line in
    rw (crlf-IsLineText (request_line method path) text) (
      ap (λ l. request_parts (splitn_three b' ' l) >>= λ p. read_rest p.0 p.1 stream)
        (trim_end_crlf-append (request_line method path) text.1)
      ∙ ap (λ r. r >>= λ p. read_rest p.0 p.1 stream) (request_parts-request_line method path line))

-- A request that is written to a service is read there as the same request, with the headers of the
-- client except the four that frame the message, a Host header if the client sent none, and one
-- Connection and one Content-Length header with the length of the body, if its strings hold no line
-- feed, its method and path no space, its header names no colon, nothing of it is to be trimmed, and
-- the body has at most 256 MiB.
pub read_http_request-serialize_request :
    (req : HttpRequest) (host : Text)
    → IsRequestLine req.method req.path
    → AllHeaders req.headers
    → IsLineText host
    → trim_bytes host ≡ host
    → length req.body ≤ max_transparent_body_bytes
    → read_http_request (serialize_request req host)
      ≡ ok (record {
        method = req.method;
        path = req.path;
        headers = sent_headers req host;
        body = req.body;
      })
unfolding read_http_request serialize_request
read_http_request-serialize_request req host line headers h t small =
    let lines =
      header_lines req.headers (host_line (any is_host req.headers) host (added_lines req.body)) in
    ap (λ t. read_from (split_lines t))
      (append-request_line req.method req.path (0x0d ∷ 0x0a ∷ lines))
    ∙ ap read_from (
        split_lines-line (request_line req.method req.path) lines
          (request_line-IsLineText req.method req.path line).1)
    ∙ read_from-request_line req.method req.path (split_lines lines) line
    ∙ read_rest-header_lines req host headers h t small
