-- ===== src/Transparent/Registry/Examples.antt =====
-- The theorems on proxy/transparent/registry.rs at concrete inputs.
use vaultproxy.Prelude.{
  ◌≡◌, refl, ℕ, [], ◌∷◌, Option, none, some, false, text_eq, Text, codes, drop,
}
use vaultproxy.Text.{starts_with}
use vaultproxy.Text.Ascii.{to_ascii_lowercase}
use vaultproxy.Text.Decimal.{decimal}
use vaultproxy.Text.Search.{strip_prefix}
use vaultproxy.HashMap.{get, insert}
use vaultproxy.Transparent.Service.{ServiceEntry, bearer, host_inject}
use vaultproxy.Transparent.Registry.{
  TransparentRegistry, parse, lookup, claimed, add_entry, add_entries, build, host_port,
}
use vaultproxy.Transparent.Registry.Lookup.{lookup-build}

-- `https://host` without a port.
abbrev parse_https : Text → Option (Option Text × Option ℕ)
parse_https url = some (some (drop 8 url), some 443)

abbrev service : Text → ServiceEntry
service base_url = record {
  name = codes "s";
  base_url = base_url;
  auth = bearer (codes "pat");
  insecure_tls = false;
  ca_cert_path = none;
  timeout_secs = none;
  transparent_mode = host_inject;
}

abbrev api : ServiceEntry
api = service (codes "https://API.test")

abbrev any_test : ServiceEntry
any_test = service (codes "https://*.test")

abbrev registry : TransparentRegistry
registry = record {
  by_host_port = (host_port (codes "api.test") 443, api) ∷ [];
  wildcards = (record { suffix = codes ".test"; port = 443 }, any_test) ∷ [];
}

lookup-build_example : lookup to_ascii_lowercase registry (codes "Api.Test") 443 ≡ some api
unfolding build add_entries add_entry claimed parse strip_prefix starts_with get insert decimal
lookup-build_example =
    lookup-build to_ascii_lowercase parse_https (any_test ∷ []) [] api registry (codes "api.test")
      (codes "Api.Test") 443 refl refl refl refl refl
