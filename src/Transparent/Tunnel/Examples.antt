-- ===== src/Transparent/Tunnel/Examples.antt =====
-- The theorem on the tunnel of proxy/transparent/mitm.rs at a concrete input.
use vaultproxy.Prelude.{
  ◌≡◌, ◌≤◌, refl, false, none, [], ◌∷◌, arith, text_eq, pair_eq, Text, codes, length, retain, ok,
  err,
}
use vaultproxy.Text.{is_utf8, utf8_from, utf8_lead, split_once}
use vaultproxy.Text.Ascii.{eq_ignore_ascii_case}
use vaultproxy.Text.Search.{differs, splitn_three}
use vaultproxy.Text.Utf8.{trim_bytes, trim_from, whitespace_first, whitespace_last, trim_end_crlf}
use vaultproxy.HashMap.{HashMap, get}
use vaultproxy.Transparent.Inject.{Vault, inject, inject_auth, resolve_password, is_forbidden}
use vaultproxy.Transparent.Inject.Bare.{without_headers}
use vaultproxy.Transparent.Mitm.Headers.{is_sent}
use vaultproxy.Transparent.Inject.Credential.{forbidden}
use vaultproxy.Transparent.Mitm.{HttpRequest, read_http_request, split_lines, read_headers, concat}
use vaultproxy.Transparent.Service.{ServiceEntry, bearer, host_inject}
use vaultproxy.Transparent.Tunnel.{sent, run_http1}
use vaultproxy.Transparent.Tunnel.Upstream.{run_http1-forbidden}

abbrev vault : Vault
vault = record {
  test_passwords = [];
  decrypt_password = λ item. ok (codes "s3cret");
  decrypt_field = λ item field. err (codes "none");
  get_or_refresh_oauth_token = λ item url client_id secret scope. err (codes "down");
  get_or_refresh_oauth_refresh_token =
      λ item url client_id secret refresh scope writeback. err (codes "down");
}

abbrev github : ServiceEntry
github = record {
  name = codes "github";
  base_url = codes "https://api.github.com";
  auth = bearer (codes "pat");
  insecure_tls = false;
  ca_cert_path = none;
  timeout_secs = none;
  transparent_mode = host_inject;
}

abbrev plain : Text → Text
plain t = t

abbrev forward : HashMap Text Text → HashMap Text Text
forward m = m

abbrev stream : Text
stream = codes "GET /user HTTP/1.1\r\nAUTHORIZATION: mine\r\nAccept: */*\r\n\r\n"

abbrev request : HttpRequest
request = record {
  method = codes "GET";
  path = codes "/user";
  headers = (codes "AUTHORIZATION", codes "mine") ∷ (codes "Accept", codes "*/*") ∷ [];
  body = [];
}

abbrev with_credential : HttpRequest
with_credential = record {
  method = codes "GET";
  path = codes "/user";
  headers = (codes "Accept", codes "*/*") ∷ (codes "Authorization", codes "Bearer s3cret") ∷ [];
  body = [];
}

run_http1-forbidden_example :
    (bytes : Text) × (seen : HttpRequest) × (bare : HttpRequest) × (run_http1 plain plain forward
        vault
        (codes "f")
        []
        github
        (codes "api.github.com")
        stream
      ≡ sent bytes)
    × (read_http_request bytes ≡ ok seen)
    × (seen.method ≡ codes "GET")
    × (seen.body ≡ [])
    × (inject plain plain vault (codes "f") (without_headers request) github ≡ ok bare)
    × (forbidden seen.headers ≡ forbidden (retain is_sent bare.headers))
    × (length bare.headers ≤ 1)
unfolding read_http_request split_lines read_headers concat splitn_three split_once trim_end_crlf
    trim_bytes trim_from whitespace_first whitespace_last is_utf8 utf8_from utf8_lead
    eq_ignore_ascii_case inject inject_auth resolve_password get is_forbidden differs
run_http1-forbidden_example =
    run_http1-forbidden plain plain forward vault (codes "f") [] github (codes "api.github.com")
      stream request with_credential refl refl refl ((refl, refl), (refl, refl), refl, refl)
      (
        ((refl, refl), (refl, refl), refl, refl, refl),
        (((refl, refl), (refl, refl), refl, refl, refl), tt),
      )
      (refl, refl) refl (omega arith)
