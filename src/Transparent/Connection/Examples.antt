-- ===== src/Transparent/Connection/Examples.antt =====
-- The theorems on the connections of proxy/transparent/mod.rs at concrete inputs.
use mathlib.Core.List.{Mem}
use vaultproxy.Prelude.{
  ◌≡◌, refl, ℕ, [], ◌∷◌, Option, none, some, false, text_eq, Text, codes, drop, ok,
}
use vaultproxy.Text.{starts_with, split_once, is_utf8, utf8_from, utf8_lead}
use vaultproxy.Text.Ascii.{to_ascii_lowercase}
use vaultproxy.Text.Decimal.{decimal, parse_uint, value_from}
use vaultproxy.Text.Search.{strip_prefix, splitn_three, rsplit_once, before}
use vaultproxy.HashMap.{get, insert}
use vaultproxy.Transparent.Connect.{
  ConnectTarget, read_connect_line, parse_request_line, parse_head, parse_host_port, parse_plain,
  read_block,
}
use vaultproxy.Transparent.Connection.{allowlist, handle_connection}
use vaultproxy.Transparent.Connection.Outcomes.{Injects, intercepted-Serves, tunnelled-Serves}
use vaultproxy.Transparent.Registry.{
  TransparentRegistry, parse, lookup, claimed, add_entry, add_entries, build, host_port,
}
use vaultproxy.Transparent.Registry.Lookup.{Serves}
use vaultproxy.Transparent.Service.{ServiceEntry, TransparentMode, bearer, host_inject, passthrough}

abbrev parse_https : Text → Option (Option Text × Option ℕ)
parse_https url = some (some (drop 8 url), some 443)

abbrev service : TransparentMode → ServiceEntry
service mode = record {
  name = codes "s";
  base_url = codes "https://a.test";
  auth = bearer (codes "pat");
  insecure_tls = false;
  ca_cert_path = none;
  timeout_secs = none;
  transparent_mode = mode;
}

abbrev registry : TransparentMode → TransparentRegistry
registry mode = record {
  by_host_port = (host_port (codes "a.test") 443, service mode) ∷ [];
  wildcards = [];
}

abbrev request : Text
request = codes "CONNECT A.test:443 HTTP/1.1\r\n\r\nhi"

abbrev target : ConnectTarget
target = record { host = codes "A.test"; port = 443 }

intercepted-Serves_example :
    (read_connect_line request ≡ ok (target, codes "hi"))
    × Mem (service host_inject) (service host_inject ∷ [])
    × Serves to_ascii_lowercase parse_https (service host_inject) (codes "A.test") 443
    × Injects host_inject
unfolding build add_entries add_entry claimed parse strip_prefix starts_with get insert decimal
    lookup handle_connection read_connect_line read_block parse_head parse_request_line
    parse_host_port parse_plain splitn_three split_once rsplit_once before parse_uint value_from
    is_utf8 utf8_from utf8_lead
intercepted-Serves_example =
    intercepted-Serves to_ascii_lowercase parse_https (service host_inject ∷ [])
      (registry host_inject) allowlist request (codes "hi") target (service host_inject) refl refl

tunnelled-Serves_example :
    (e : ServiceEntry) × Mem e (service passthrough ∷ [])
    × Serves to_ascii_lowercase parse_https e (codes "A.test") 443
    × (e.transparent_mode ≡ passthrough)
unfolding build add_entries add_entry claimed parse strip_prefix starts_with get insert decimal
    lookup handle_connection read_connect_line read_block parse_head parse_request_line
    parse_host_port parse_plain splitn_three split_once rsplit_once before parse_uint value_from
    is_utf8 utf8_from utf8_lead
tunnelled-Serves_example =
    tunnelled-Serves to_ascii_lowercase parse_https (service passthrough ∷ [])
      (registry passthrough) request (codes "hi") target refl refl
