-- ===== src/Transparent/Connection.antt =====
-- proxy/transparent/mod.rs: what becomes of a connection, from its CONNECT request and the registry.
-- The two ways on, the interception of TLS and the tunnel, are outcomes.
pub mod Outcomes
mod Examples
use vaultproxy.Prelude.{
  ℕ, Option, none, some, List, [], ◌∷◌, ◌++◌, HasEq, ◌==◌, text_eq, Text, codes, if◌then◌else◌,
  Result, ok, err,
}
use vaultproxy.Transparent.Connect.{ConnectTarget, display, read_connect_line}
use vaultproxy.Transparent.Errors.{
  TransparentErrorCode, malformed_connect, unregistered_host_blocked,
}
use vaultproxy.Transparent.Registry.{TransparentRegistry, lookup}
use vaultproxy.Transparent.Service.{
  ServiceEntry, TransparentMode, off, host_inject, placeholder, passthrough,
}

pub data UnregisteredPolicy : Type 0 where
  passthrough_hosts : UnregisteredPolicy
  allowlist : UnregisteredPolicy

abbrev pub parse_policy : Text → Result Text UnregisteredPolicy
parse_policy s =
    if s == codes "passthrough"
    then ok passthrough_hosts
    else if s == codes "allowlist"
    then ok allowlist
    else err (codes "unknown transparent-unregistered-policy '" ++ (s ++ codes "'"))

pub data Outcome : Type 0 where
  -- An error response
  refused : TransparentErrorCode → Text → Outcome
  -- `mitm::run`, with what is left of the stream
  intercepted : ConnectTarget → ServiceEntry → Text → Outcome
  -- `tunnel_with_audit`
  tunnelled : ConnectTarget → Text → Outcome

abbrev pub by_mode : ConnectTarget → ServiceEntry → Text → TransparentMode → Outcome
by_mode target service stream host_inject = intercepted target service stream
by_mode target service stream placeholder = intercepted target service stream
by_mode target service stream off = tunnelled target stream
by_mode target service stream passthrough = tunnelled target stream

abbrev pub dispatch : UnregisteredPolicy → ConnectTarget → Text → Option ServiceEntry → Outcome
dispatch policy target stream (some service) =
    by_mode target service stream service.transparent_mode
dispatch allowlist target stream none = refused unregistered_host_blocked (
    codes "host " ++ (display target ++ codes " has no [[service]] block; allowlist policy active"))
dispatch passthrough_hosts target stream none = tunnelled target stream

module _ (to_lowercase : Text → Text) (r : TransparentRegistry) (policy : UnregisteredPolicy) where
  abbrev pub connected : Result Text (ConnectTarget × Text) → Outcome
  connected (err e) = refused malformed_connect e
  connected (ok (target, left)) =
      dispatch policy target left (lookup to_lowercase r target.host target.port)

  unfoldable pub handle_connection : Text → Outcome
  handle_connection stream = connected (read_connect_line stream)
