-- ===== src/Transparent/Registry.antt =====
-- proxy/transparent/registry.rs: which service a host and a port belong to. The parser of URLs, which
-- gives the host and the port, the default of the scheme included, and the lower case of Unicode are
-- arguments.
pub mod Build
pub mod Lookup
mod Examples
use vaultproxy.Prelude.{
  ℕ, Bool, true, false, not, ◌&&◌, ◌||◌, Option, none, some, List, [], ◌∷◌, ◌++◌, if◌then◌else◌,
  ltb, eqb, HasEq, text_eq, Text, codes, any, length, Result, ok, err, ◌>>=◌, ok_or,
}
use vaultproxy.Text.{is_empty, starts_with}
use vaultproxy.Text.Decimal.{decimal}
use vaultproxy.Text.Search.{strip_prefix, ends_with}
use vaultproxy.HashMap.{HashMap, get, insert}
use vaultproxy.Transparent.Service.{
  ServiceEntry, TransparentMode, off, host_inject, placeholder, passthrough,
}

pub record WildcardPattern : Type 0 where
  pub suffix : Text
  pub port : ℕ

pub record TransparentRegistry : Type 0 where
  pub by_host_port : HashMap Text ServiceEntry
  pub wildcards : List (WildcardPattern × ServiceEntry)

abbrev pub is_off : TransparentMode → Bool
is_off off = true
is_off host_inject = false
is_off placeholder = false
is_off passthrough = false

-- `format!("{host}:{port}")`
abbrev pub host_port : Text → ℕ → Text
host_port host port = host ++ b':' ∷ decimal 4 port

abbrev pub port_or_443 : Option ℕ → ℕ
port_or_443 none = 443
port_or_443 (some port) = port

module _ (to_lowercase : Text → Text) where
  abbrev pub pattern_of : ℕ → Option Text → Option WildcardPattern
  pattern_of port none = none
  pattern_of port (some rest) =
      if is_empty rest || any (λ c. eqb c b'*') rest
      then none
      else some (record { suffix = b'.' ∷ to_lowercase rest; port = port })

  unfoldable pub parse : Text → ℕ → Option WildcardPattern
  parse host port = pattern_of port (strip_prefix host (codes "*."))

  unfoldable pub matches : WildcardPattern → Text → ℕ → Bool
  matches pat host port =
      let h = to_lowercase host in
      eqb port pat.port && (ends_with h pat.suffix && ltb (length pat.suffix) (length h))

  abbrev pub first_match : Text → ℕ → List (WildcardPattern × ServiceEntry) → Option ServiceEntry
  first_match host port [] = none
  first_match host port ((pat, service) ∷ others) =
      let rest = first_match host port others in
      if matches pat host port then some service else rest

  abbrev pub or_wildcard : Option ServiceEntry → Option ServiceEntry → Option ServiceEntry
  or_wildcard none wildcard = wildcard
  or_wildcard (some service) wildcard = some service

  unfoldable pub lookup : TransparentRegistry → Text → ℕ → Option ServiceEntry
  lookup r host port =
      or_wildcard (get (host_port (to_lowercase host) port) r.by_host_port)
        (first_match host port r.wildcards)

  module _ (parse_url : Text → Option (Option Text × Option ℕ)) where
    abbrev pub add_wildcard :
        TransparentRegistry
        → ServiceEntry
        → Option WildcardPattern
        → Result Text TransparentRegistry
    add_wildcard r entry none =
        err (codes "service '" ++ (entry.name ++ codes "': wildcard host invalid"))
    add_wildcard r entry (some pat) = ok (record r { wildcards = r.wildcards ++ (pat, entry) ∷ [] })

    abbrev pub add_exact :
        TransparentRegistry
        → ServiceEntry
        → Text
        → Option ServiceEntry
        → Result Text TransparentRegistry
    add_exact r entry key none = ok (record r { by_host_port = insert key entry r.by_host_port })
    add_exact r entry key (some prev) = err (codes "transparent host:port collision: " ++ key)

    abbrev pub add_host :
        TransparentRegistry → ServiceEntry → Text → ℕ → Result Text TransparentRegistry
    add_host r entry host port =
        if starts_with host (codes "*.")
        then add_wildcard r entry (parse host port)
        else add_exact r entry (host_port host port) (get (host_port host port) r.by_host_port)

    -- The host, in lower case, and the port that an entry claims.
    unfoldable pub claimed : ServiceEntry → Result Text (Text × ℕ)
    claimed entry = do
      (host, port) ← ok_or (parse_url entry.base_url) (codes "base_url invalid: " ++ entry.name)
      host' ← ok_or host (codes "base_url has no host: " ++ entry.name)
      ok (to_lowercase host', port_or_443 port)

    -- One round of the loop of `build`.
    unfoldable pub add_entry : TransparentRegistry → ServiceEntry → Result Text TransparentRegistry
    add_entry r entry =
        let add = claimed entry >>= λ c. add_host r entry c.0 c.1 in
        if is_off entry.transparent_mode then ok r else add

    unfoldable pub add_entries :
        TransparentRegistry → List ServiceEntry → Result Text TransparentRegistry
    add_entries r [] = ok r
    add_entries r (entry ∷ entries) = add_entry r entry >>= λ r'. add_entries r' entries

    unfoldable pub build : List ServiceEntry → Result Text TransparentRegistry
    build registry = add_entries (record { by_host_port = []; wildcards = [] }) registry
