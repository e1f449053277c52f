-- ===== src/Transparent/Inject/Examples.antt =====
-- The theorems on proxy/transparent/inject_host.rs at concrete inputs.
use vaultproxy.Prelude.{
  ◌≡◌, ◌≤◌, refl, List, [], ◌∷◌, ◌++◌, none, false, text_eq, pair_eq, Text, codes, length, ok, err,
}
use vaultproxy.Text.{is_utf8, utf8_from, utf8_lead}
use vaultproxy.Text.Ascii.{eq_ignore_ascii_case}
use vaultproxy.HashMap.{get}
use vaultproxy.Transparent.Mitm.{Header, HttpRequest}
use vaultproxy.Transparent.Service.{AuthPattern, bearer, header, ServiceEntry, host_inject}
use vaultproxy.Transparent.Inject.{
  is_forbidden, strip_forbidden_headers, Vault, inject, inject_auth, resolve_password,
}
use vaultproxy.Transparent.Inject.Credential.{
  Adds, forbidden, inject-drop, inject-Adds, inject-header,
}

abbrev vault : Vault
vault = record {
  test_passwords = [];
  decrypt_password = λ item. ok (codes "s3cret");
  decrypt_field = λ item field. ok (codes "field");
  get_or_refresh_oauth_token = λ item url client_id secret scope. err (codes "down");
  get_or_refresh_oauth_refresh_token =
      λ item url client_id secret refresh scope writeback. err (codes "down");
}

abbrev service_with : AuthPattern → ServiceEntry
service_with auth = record {
  name = codes "github";
  base_url = codes "https://api.github.com";
  auth = auth;
  insecure_tls = false;
  ca_cert_path = none;
  timeout_secs = none;
  transparent_mode = host_inject;
}

abbrev request_with : List Header → HttpRequest
request_with headers = record {
  method = codes "GET";
  path = codes "/user";
  headers = headers;
  body = [];
}

abbrev accept : Header
accept = (codes "Accept", codes "*/*")

abbrev stolen : Header
stolen = (codes "AUTHORIZATION", codes "Bearer stolen")

-- The encoders are not used.
abbrev plain : Text → Text
plain t = t

abbrev sent : HttpRequest
sent = request_with (accept ∷ (codes "Authorization", codes "Bearer s3cret") ∷ [])

inject-drop_example :
    inject plain plain vault
      (codes "vault")
      (request_with (accept ∷ stolen ∷ []))
      (service_with (bearer (codes "pat")))
    ≡ inject plain plain vault
        (codes "vault")
        (request_with (accept ∷ []))
        (service_with (bearer (codes "pat")))
inject-drop_example =
    inject-drop plain plain vault (codes "vault") (request_with [])
      (service_with (bearer (codes "pat"))) (accept ∷ []) [] stolen
      (unfold is_forbidden eq_ignore_ascii_case in refl)

inject-Adds_example :
    Adds (request_with (strip_forbidden_headers (accept ∷ stolen ∷ []))) sent
    × (length (forbidden sent.headers) ≤ 1)
unfolding inject inject_auth resolve_password get is_utf8 utf8_from utf8_lead is_forbidden
    eq_ignore_ascii_case
inject-Adds_example =
    inject-Adds plain plain vault (codes "vault") (request_with (accept ∷ stolen ∷ [])) sent
      (service_with (bearer (codes "pat"))) refl

inject-header_example :
    inject plain plain vault
      (codes "vault")
      (request_with (accept ∷ (codes "X-Token", codes "mine") ∷ []))
      (service_with (header (codes "X-Token") (codes "item")))
    ≡ ok (
        request_with (
          strip_forbidden_headers (accept ∷ [])
          ++ (codes "X-Token", codes "mine")
            ∷ (strip_forbidden_headers [] ++ (codes "X-Token", codes "s3cret") ∷ [])))
unfolding resolve_password get is_utf8 utf8_from utf8_lead is_forbidden eq_ignore_ascii_case
inject-header_example =
    inject-header plain plain vault (codes "vault") (request_with [])
      (service_with (header (codes "X-Token") (codes "item"))) (accept ∷ []) [] (codes "X-Token")
      (codes "item") (codes "mine") (codes "s3cret") refl refl refl
