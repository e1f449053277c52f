-- ===== src/Transparent/Tunnel.antt =====
-- proxy/transparent/mitm.rs: what becomes of a request inside the tunnel, from the bytes of the client
-- to the bytes for the service over HTTP/1.1. The forwarding over HTTP/2, which is tried before, and
-- the way of the answer are left out.
pub mod Upstream
mod Examples
use vaultproxy.Prelude.{ℕ, ◌*◌, List, Text, codes, Result, ok, err}
use vaultproxy.HashMap.{HashMap}
use vaultproxy.Transparent.Errors.{
  TransparentErrorCode, placeholder_unresolved, vault_resolution_failed,
}
use vaultproxy.Transparent.Inject.{Vault, inject}
use vaultproxy.Transparent.Mitm.{HttpRequest, read_http_request, serialize_request}
use vaultproxy.Transparent.Placeholder.{
  TransparentPlaceholder, SubstituteError, unresolved, not_in_vault, body_not_utf8, substitute,
}
use vaultproxy.Transparent.Service.{
  ServiceEntry, TransparentMode, off, host_inject, placeholder, passthrough,
}

pub data Exchange : Type 0 where
  -- `forward_to_upstream`
  sent : Text → Exchange
  -- An error response to the client
  refused : TransparentErrorCode → Exchange
  -- The connection ends without a response.
  failed : Text → Exchange
  -- `unreachable!`
  panicked : Exchange

abbrev pub code_of : SubstituteError → TransparentErrorCode
code_of (unresolved token) = placeholder_unresolved
code_of (not_in_vault token item) = vault_resolution_failed
code_of body_not_utf8 = vault_resolution_failed

abbrev pub injected : Text → Result Text HttpRequest → Exchange
injected host (ok req) = sent (serialize_request req host)
injected host (err e) = failed e

abbrev pub substituted : Text → Result SubstituteError HttpRequest → Exchange
substituted host (ok req) = sent (serialize_request req host)
substituted host (err e) = refused (code_of e)

module _ (base64 url_encode : Text → Text) (iterate : HashMap Text Text → HashMap Text Text)
    (vault : Vault) (folder : Text) (placeholders : List TransparentPlaceholder) where
  abbrev pub exchange_for : ServiceEntry → Text → HttpRequest → TransparentMode → Exchange
  exchange_for service host req host_inject =
      injected host (inject base64 url_encode vault folder req service)
  exchange_for service host req placeholder =
      substituted host (substitute iterate req placeholders vault folder (32 * 1024 * 1024))
  exchange_for service host req off = panicked
  exchange_for service host req passthrough = panicked

  abbrev pub exchange_of : ServiceEntry → Text → Result Text HttpRequest → Exchange
  exchange_of service host (err e) = failed e
  exchange_of service host (ok req) = exchange_for service host req service.transparent_mode

  unfoldable pub run_http1 : ServiceEntry → Text → Text → Exchange
  run_http1 service host stream = exchange_of service host (read_http_request stream)
