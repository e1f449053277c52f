-- ===== src/Transparent/Mitm.antt =====
-- proxy/transparent/mitm.rs: the HTTP/1.1 request of a client inside the tunnel, as it is read and as
-- it is written to the service. Strings are kept as their bytes. A read that fails otherwise than by
-- the end of the stream is left out.
pub mod Headers
pub mod Added
pub mod RoundTrip
mod Examples
use vaultproxy.Prelude.{
  ℕ, ◌+◌, ◌*◌, ◌^◌, Bool, true, false, not, ◌&&◌, ◌||◌, Option, none, some, List, [], ◌∷◌, ◌++◌,
  if◌then◌else◌, ltb, eqb, HasEq, ◌==◌, text_eq, Text, codes, length, take, any, Result, ok, err,
  ◌>>=◌, ◌>>◌, reject_if,
}
use vaultproxy.Text.{is_empty, is_utf8, split_once, push_front}
use vaultproxy.Text.Ascii.{eq_ignore_ascii_case}
use vaultproxy.Text.Decimal.{parse_uint, decimal}
use vaultproxy.Text.Search.{splitn_three}
use vaultproxy.Text.Utf8.{trim_bytes, trim_end_crlf}

abbrev pub Header : Type 0
Header = Text × Text

pub record HttpRequest : Type 0 where
  pub method : Text
  pub path : Text
  pub headers : List Header
  pub body : Text

-- MAX_TRANSPARENT_BODY_BYTES
abbrev pub max_transparent_body_bytes : ℕ
max_transparent_body_bytes = 268435456

-- What `read_line` gives one after the other: each line keeps its end.
unfoldable pub split_lines : Text → List Text
split_lines [] = []
split_lines (c ∷ s) =
    let rest = split_lines s in if eqb c 0x0a then (c ∷ []) ∷ rest else push_front c rest

unfoldable pub concat : List Text → Text
concat [] = []
concat (l ∷ ls) = l ++ concat ls

-- `reader.read_line(&mut line).await?`
abbrev pub checked_line : Text → Result Text Text
checked_line line = do
  reject_if (not (is_utf8 line)) (codes "stream did not contain valid UTF-8")
  ok line

-- Method and path.
abbrev pub request_parts : List Text → Result Text (Text × Text)
request_parts [] = err (codes "HTTP method")
request_parts (method ∷ []) = err (codes "HTTP path")
request_parts (method ∷ path ∷ []) = err (codes "HTTP version")
request_parts (method ∷ path ∷ version ∷ more) = do
  reject_if (not (version == codes "HTTP/1.1"))
      (codes "agent sent unsupported HTTP version '" ++ (version ++ codes "'"))
  ok (method, path)

abbrev pub value_or_zero : Option ℕ → ℕ
value_or_zero none = 0
value_or_zero (some n) = n

-- What a line of the head does to the headers and the length of the body.
abbrev pub add_header : List Header → ℕ → Option (Text × Text) → List Header × ℕ
add_header headers content_length none = (headers, content_length)
add_header headers content_length (some (k, v)) = (
  headers ++ (trim_bytes k, trim_bytes v) ∷ [],
  if eq_ignore_ascii_case (trim_bytes k) (codes "content-length")
      then value_or_zero (parse_uint (2 ^ 64) (trim_bytes v))
      else content_length,
)

-- The loop over the header lines: the headers, the length of the body, and the stream that is left.
unfoldable pub read_headers : List Header → ℕ → List Text → Result Text (List Header × ℕ × Text)
read_headers headers content_length [] = ok (headers, content_length, [])
read_headers headers content_length (line ∷ stream) =
    let next = add_header headers content_length (split_once b':' (trim_end_crlf line)) in
    let rest = read_headers next.0 next.1 stream in
    if not (is_utf8 line)
    then err (codes "stream did not contain valid UTF-8")
    else if line == 0x0d ∷ 0x0a ∷ []
    then ok (headers, content_length, concat stream)
    else rest

-- `reader.read_exact`
abbrev pub read_body : ℕ → Text → Result Text Text
read_body n stream = do reject_if (ltb (length stream) n) (codes "early eof"); ok (take n stream)

abbrev pub read_rest : Text → Text → List Text → Result Text HttpRequest
read_rest method path stream = do
  (headers, content_length, left) ← read_headers [] 0 stream
  reject_if (ltb max_transparent_body_bytes content_length) (codes "request body too large")
  body ← read_body content_length left
  ok (record { method = method; path = path; headers = headers; body = body })

abbrev pub read_from : List Text → Result Text HttpRequest
read_from [] = do (method, path) ← request_parts (splitn_three b' ' []); read_rest method path []
read_from (line ∷ stream) = do
  line' ← checked_line line
  (method, path) ← request_parts (splitn_three b' ' (trim_end_crlf line'))
  read_rest method path stream

unfoldable pub read_http_request : Text → Result Text HttpRequest
read_http_request stream = read_from (split_lines stream)

-- Headers that `serialize_request` leaves out.
unfoldable pub is_framing : Text → Bool
is_framing k =
    eq_ignore_ascii_case k (codes "content-length")
    || eq_ignore_ascii_case k (codes "connection")
    || eq_ignore_ascii_case k (codes "proxy-connection")
    || eq_ignore_ascii_case k (codes "transfer-encoding")

abbrev pub is_host : Header → Bool
is_host h = eq_ignore_ascii_case h.0 (codes "host")

abbrev pub header_line : Header → Text
header_line (k, v) = k ++ b':' ∷ b' ' ∷ (v ++ 0x0d ∷ 0x0a ∷ [])

unfoldable pub header_lines : List Header → Text → Text
header_lines [] rest = rest
header_lines (h ∷ hs) rest =
    let others = header_lines hs rest in if is_framing h.0 then others else header_line h ++ others

abbrev pub host_line : Bool → Text → Text → Text
host_line has_host target_host rest =
    if has_host then rest else header_line (codes "Host", target_host) ++ rest

-- What follows the headers of the client.
abbrev pub added_lines : Text → Text
added_lines body =
    header_line (codes "Connection", codes "close")
    ++ (header_line (codes "Content-Length", decimal 19 (length body)) ++ 0x0d ∷ 0x0a ∷ body)

unfoldable pub serialize_request : HttpRequest → Text → Text
serialize_request req target_host =
    req.method
    ++ b' '
      ∷ (req.path
          ++ b' '
            ∷ (codes "HTTP/1.1"
                ++ 0x0d
                  ∷ 0x0a
                  ∷ header_lines req.headers
                      (host_line (any is_host req.headers) target_host (added_lines req.body))))
