-- ===== src/Transparent/Connect/Examples.antt =====
-- Runs of proxy/transparent/connect.rs, and its theorems at concrete inputs.
use mathlib.Core.List.{reverse}
use vaultproxy.Prelude.{
  ◌≡◌, ◌≤◌, refl, true, [], ◌∷◌, ◌++◌, arith, text_eq, Text, codes, length, ok, err,
}
use vaultproxy.Text.{is_utf8, utf8_from, starts_with}
use vaultproxy.Text.Decimal.{parse_uint, value_from, decimal}
use vaultproxy.Text.Search.{differs, strip_prefix, rsplit_once}
use vaultproxy.Transparent.Connect.{
  ConnectTarget, display, parse_host_port, parse_plain, parse_head, read_connect_line, is_complete,
}
use vaultproxy.Transparent.Connect.Reading.{block, read_connect_line_block}
use vaultproxy.Transparent.Connect.RoundTrip.{request_line, read_connect_line-request_line}

abbrev github : ConnectTarget
github = record { host = codes "github.com"; port = 443 }

abbrev local : ConnectTarget
local = record { host = codes "2001:db8::1"; port = 8443 }

abbrev hello : Text
hello = 22 ∷ 3 ∷ 1 ∷ []

printed : display local ≡ codes "[2001:db8::1]:8443"
unfolding display decimal
printed = refl

zero_port : parse_host_port (codes "github.com:0") ≡ err (codes "port must be > 0")
unfolding parse_host_port parse_plain strip_prefix rsplit_once parse_uint value_from
zero_port = refl

read_connect_line-request_line_example :
    read_connect_line (block (request_line github ∷ codes "Host: x" ∷ []) hello)
    ≡ ok (github, hello)
unfolding differs starts_with display decimal
read_connect_line-request_line_example =
    read_connect_line-request_line github (codes "Host: x" ∷ []) hello
      ((refl, refl, refl, refl, refl), (omega arith), (omega arith)) (refl, tt) (omega arith)
      (omega arith) (unfold is_utf8 utf8_from in refl)

read_connect_line_block_example :
    (buf : Text) × (reverse buf ++ hello ≡ block (request_line github ∷ codes "Host: x" ∷ []) hello)
    × (is_complete buf ≡ true)
    × (length buf ≤ 40960)
    × (parse_head (reverse buf) ≡ ok github)
read_connect_line_block_example =
    read_connect_line_block (block (request_line github ∷ codes "Host: x" ∷ []) hello) hello github
      read_connect_line-request_line_example
