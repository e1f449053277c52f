-- ===== src/Transparent/Connect.antt =====
-- proxy/transparent/connect.rs: the CONNECT request of a client. The stream is the bytes that come
-- before the client closes it; the limit of five seconds is left out.
pub mod Reading
pub mod RoundTrip
mod Examples
use mathlib.Core.List.{reverse}
use vaultproxy.Prelude.{
  ℕ, suc, ◌+◌, ◌*◌, Bool, true, false, not, ◌&&◌, Option, none, some, List, [], ◌∷◌, ◌++◌,
  if◌then◌else◌, ltb, eqb, HasEq, ◌==◌, text_eq, Text, codes, length, any, Result, ok, err, ◌>>=◌,
  ◌>>◌, reject_if, ok_or,
}
use vaultproxy.Text.{is_empty, is_utf8, starts_with}
use vaultproxy.Text.Decimal.{parse_uint, decimal}
use vaultproxy.Text.Search.{strip_prefix, rsplit_once, rsplit_once_at, before, splitn_three}

pub record ConnectTarget : Type 0 where
  pub host : Text
  pub port : ℕ

-- `Display`
unfoldable pub display : ConnectTarget → Text
display t =
    if any (λ c. eqb c b':') t.host
    then b'[' ∷ (t.host ++ b']' ∷ b':' ∷ decimal 4 t.port)
    else t.host ++ b':' ∷ decimal 4 t.port

abbrev pub parse_port : Text → Result Text ℕ
parse_port port_part = do
  port ← ok_or (parse_uint 65536 port_part) (codes "invalid port: " ++ port_part)
  reject_if (eqb port 0) (codes "port must be > 0")
  ok port

abbrev pub target_of : Text → Text → Result Text ConnectTarget
target_of host port_part = do port ← parse_port port_part; ok (record { host = host; port = port })

-- `[ip]:port`, after the bracket.
unfoldable pub parse_bracketed : Text → Text → Result Text ConnectTarget
parse_bracketed s rest = do
  (ip, port_part) ← ok_or (rsplit_once_at (codes "]:") rest) (codes "malformed IPv6 target: " ++ s)
  target_of ip port_part

unfoldable pub parse_plain : Text → Result Text ConnectTarget
parse_plain s = do
  (host, port_part) ← ok_or (rsplit_once b':' s) (codes "CONNECT target missing port: " ++ s)
  reject_if (is_empty host) (codes "CONNECT target has empty host")
  target_of host port_part

abbrev pub of_stripped : Text → Option Text → Result Text ConnectTarget
of_stripped s none = parse_plain s
of_stripped s (some rest) = parse_bracketed s rest

unfoldable pub parse_host_port : Text → Result Text ConnectTarget
parse_host_port s = of_stripped s (strip_prefix s (codes "["))

-- The parts that `splitn(3, ' ')` gives.
abbrev pub of_parts : List Text → Result Text ConnectTarget
of_parts [] = err (codes "empty request line")
of_parts (method ∷ []) = err (codes "missing request target")
of_parts (method ∷ target ∷ []) = err (codes "missing HTTP version")
of_parts (method ∷ target ∷ version ∷ more) = do
  reject_if (not (method == codes "CONNECT"))
      (codes "only CONNECT supported; got '" ++ (method ++ codes "'"))
  reject_if (not (version == codes "HTTP/1.1"))
      (codes "only HTTP/1.1 supported; got '" ++ (version ++ codes "'"))
  parse_host_port target

unfoldable pub parse_request_line : Text → Result Text ConnectTarget
parse_request_line line = of_parts (splitn_three b' ' line)

-- The loop of `read_connect_line`. The buffer has its newest byte in front, so that it starts with
-- the end of the block backwards.
abbrev pub is_complete : Text → Bool
is_complete buf = starts_with buf (0x0a ∷ 0x0d ∷ 0x0a ∷ 0x0d ∷ [])

unfoldable pub read_block : ℕ → Text → Text → Result Text (Text × Text)
read_block len buf [] = err (codes "client closed before request was complete")
read_block len buf (byte ∷ stream) =
    let rest = read_block (suc len) (byte ∷ buf) stream in
    if ltb (40 * 1024) (suc len)
    then err (codes "CONNECT request exceeds 40 KiB")
    else if is_complete (byte ∷ buf)
    then ok (byte ∷ buf, stream)
    else rest

unfoldable pub parse_head : Text → Result Text ConnectTarget
parse_head head = do
  reject_if (not (is_utf8 head)) (codes "CONNECT block not UTF-8")
  reject_if (ltb 8192 (length (before (0x0d ∷ 0x0a ∷ []) head)))
      (codes "request line exceeds 8192 bytes")
  parse_request_line (before (0x0d ∷ 0x0a ∷ []) head)

-- The target, and the bytes that are left in the stream.
unfoldable pub read_connect_line : Text → Result Text (ConnectTarget × Text)
read_connect_line stream = do
  (buf, left) ← read_block 0 [] stream
  target ← parse_head (reverse buf)
  ok (target, left)
