-- ===== src/Transparent/Inject/Bare.antt =====
-- What proxy/transparent/inject_host.rs adds to a request, whatever the headers of the client are.
use mathlib.Core.List.{append-nil}
use vaultproxy.Prelude.{
  ok-injective, ◌≤◌, ◌≡◌, refl, sym, ap, ◌∙◌, codes, [], ◌∷◌, ◌++◌, arith, Text, length, Result, ok,
  err, ◌>>=◌,
}
use vaultproxy.Transparent.Mitm.{Header, HttpRequest}
use vaultproxy.Transparent.Service.{
  AuthPattern, header, query_param, bearer, basic, session, unifi_dual, oauth_client_credentials,
  oauth_refresh, ServiceEntry,
}
use vaultproxy.Transparent.Inject.{
  strip_forbidden_headers, Vault, add_to_headers, inject_auth, inject, bearer_header,
  resolve_password, with_context, quoted, basic_pair, separator,
}

-- The request without its headers.
abbrev pub without_headers : HttpRequest → HttpRequest
without_headers req = record req { headers = [] }

-- The headers that an injection of the request without headers answers with stand behind those of
-- the request, and there is one at most.
abbrev pub Extends : Result Text HttpRequest → HttpRequest → HttpRequest → Type 0
Extends answer req out =
    (bare : HttpRequest) × (answer ≡ ok bare)
    × (out.headers ≡ req.headers ++ bare.headers)
    × (length bare.headers ≤ 1)

module _ (req out : HttpRequest) where
  extend_one :
      (m : Result Text Text) (f : Text → Header)
      → (m >>= λ t. ok (add_to_headers req (f t))) ≡ ok out
      → Extends (m >>= λ t. ok (add_to_headers (without_headers req) (f t))) req out
  extend_one (ok t) f h = (
    record req { headers = f t ∷ [] },
    refl,
    ap (λ r. r.headers) (sym (ok-injective h)),
    omega arith,
  )
  extend_one (err e) f h = cc

  extend_path :
      (m : Result Text Text) (f : Text → Text)
      → (m >>= λ t. ok (record req { path = f t })) ≡ ok out
      → Extends (m >>= λ t. ok (record (without_headers req) { path = f t })) req out
  extend_path (ok t) f h = (
    record req { path = f t; headers = [] },
    refl,
    ap (λ r. r.headers) (sym (ok-injective h)) ∙ sym (append-nil req.headers),
    omega arith,
  )
  extend_path (err e) f h = cc

module _ (base64 url_encode : Text → Text) (vault : Vault) (folder : Text) where
  inject_auth-Extends :
      (auth : AuthPattern) (name : Text) (req out : HttpRequest)
      → inject_auth base64 url_encode vault folder auth name req ≡ ok out
      → Extends (inject_auth base64 url_encode vault folder auth name (without_headers req)) req out
  unfolding inject_auth
  inject_auth-Extends (bearer item) name req out h =
      extend_one req out
        (with_context (resolve_password vault folder item) (quoted "resolve vault item '" item))
        bearer_header h
  inject_auth-Extends (header header_name item) name req out h =
      extend_one req out
        (with_context (resolve_password vault folder item) (quoted "resolve vault item '" item))
        (λ t. (header_name, t)) h
  inject_auth-Extends (basic item key secret) name req out h =
      extend_one req out (basic_pair vault folder item key secret)
        (λ pair. (codes "Authorization", codes "Basic " ++ base64 pair)) h
  inject_auth-Extends (query_param param_name item) name req out h =
      extend_path req out
        (with_context (resolve_password vault folder item) (quoted "resolve vault item '" item))
        (λ value. req.path ++ (separator req.path ++ (param_name ++ b'=' ∷ url_encode value))) h
  inject_auth-Extends (oauth_client_credentials item url client_id secret scope) name req out h =
      extend_one req out
        (with_context (vault.get_or_refresh_oauth_token item url client_id secret scope)
          (quoted "oauth token for vault item '" item))
        bearer_header h
  inject_auth-Extends (oauth_refresh item url client_id secret refresh scope w) name req out h =
      extend_one req out
        (with_context
          (vault.get_or_refresh_oauth_refresh_token item url client_id secret refresh scope w)
          (quoted "oauth refresh for vault item '" item))
        bearer_header h
  inject_auth-Extends (session item path field username) name req out h = cc
  inject_auth-Extends (unifi_dual item path) name req out h = cc

  pub inject-Extends :
      (req out : HttpRequest) (service : ServiceEntry)
      → inject base64 url_encode vault folder req service ≡ ok out
      → Extends
          (inject base64 url_encode vault folder (without_headers req) service)
          (record req { headers = strip_forbidden_headers req.headers })
          out
  unfolding inject
  inject-Extends req out service h =
      inject_auth-Extends service.auth service.name
        (record req { headers = strip_forbidden_headers req.headers }) out h
