-- ===== src/Transparent/Inject/Credential.antt =====
-- What the injection of proxy/transparent/inject_host.rs leaves of the headers that a client sends.
use mathlib.Core.List.{append-nil, append_assoc}
use vaultproxy.Prelude.{
  ok-injective, length-retain-le, ◌≤◌, ◌≡◌, refl, sym, ap, ◌∙◌, true, false, not, codes, List, [],
  ◌∷◌, ◌++◌, arith, Text, length, retain, retain-append, Result, ok, err, ◌>>=◌,
}
use vaultproxy.Transparent.Mitm.{Header, HttpRequest}
use vaultproxy.Transparent.Service.{
  AuthPattern, header, query_param, bearer, basic, session, unifi_dual, oauth_client_credentials,
  oauth_refresh, ServiceEntry,
}
use vaultproxy.Transparent.Inject.{
  is_forbidden, strip_forbidden_headers, Vault, add_to_headers, inject_auth, inject, bearer_header,
  resolve_password, with_context, quoted, basic_pair, separator,
}

abbrev pub forbidden : List Header → List Header
forbidden hs = retain (λ h. is_forbidden h.0) hs

strip_forbidden_headers-drop :
    (a b : List Header) (h : Header)
    → is_forbidden h.0 ≡ true
    → strip_forbidden_headers (a ++ h ∷ b) ≡ strip_forbidden_headers (a ++ b)
strip_forbidden_headers-drop [] b h f = rw (f, retain) refl
strip_forbidden_headers-drop (x ∷ a) b h f = ground (arith, strip_forbidden_headers-drop a b h f)

forbidden-strip : (hs : List Header) → forbidden (strip_forbidden_headers hs) ≡ []
forbidden-strip [] = refl
forbidden-strip (h ∷ hs) = ground (arith, forbidden-strip hs)

retain-kept :
    (hs : List Header) (h : Header)
    → is_forbidden h.0 ≡ false
    → strip_forbidden_headers (h ∷ hs) ≡ h ∷ strip_forbidden_headers hs
retain-kept hs h e = rw (e, retain) refl

-- One header at most is added, and nothing else of the request but its path is changed.
abbrev pub Adds : HttpRequest → HttpRequest → Type 0
Adds req out =
    (added : List Header) × (out.headers ≡ req.headers ++ added)
    × (length added ≤ 1)
    × (out.method ≡ req.method)
    × (out.body ≡ req.body)

module _ (req out : HttpRequest) where
  add_one :
      (m : Result Text Text) (f : Text → Header)
      → (m >>= λ t. ok (add_to_headers req (f t))) ≡ ok out
      → Adds req out
  add_one (ok t) f h =
      let e = sym (ok-injective h) in
      (f t ∷ [], ap (λ r. r.headers) e, (omega arith), ap (λ r. r.method) e, ap (λ r. r.body) e)
  add_one (err e) f h = cc

  add_path :
      (m : Result Text Text) (f : Text → Text)
      → (m >>= λ t. ok (record req { path = f t })) ≡ ok out
      → Adds req out
  add_path (ok t) f h =
      let e = sym (ok-injective h) in
      (
        [],
        ap (λ r. r.headers) e ∙ sym (append-nil req.headers),
        (omega arith),
        ap (λ r. r.method) e,
        ap (λ r. r.body) e,
      )
  add_path (err e) f h = cc

-- The forbidden headers of a request to which one header was added.
forbidden-Adds :
    (req out : HttpRequest)
    → forbidden req.headers ≡ []
    → Adds req out
    → length (forbidden out.headers) ≤ 1
forbidden-Adds req out none_left (added, e, one, m, b) =
    let few = length-retain-le (λ h. is_forbidden h.0) added in
    let split =
      ap (λ hs. length (forbidden hs)) e
      ∙ ap length (retain-append (λ h. is_forbidden h.0) req.headers added)
      ∙ ap (λ hs. length (hs ++ forbidden added)) none_left in
    omega (arith, few, one, split)

module _ (base64 url_encode : Text → Text) (vault : Vault) (folder : Text) where
  inject_auth-Adds :
      (auth : AuthPattern) (name : Text) (req out : HttpRequest)
      → inject_auth base64 url_encode vault folder auth name req ≡ ok out
      → Adds req out
  unfolding inject_auth
  inject_auth-Adds (bearer item) name req out h =
      add_one req out
        (with_context (resolve_password vault folder item) (quoted "resolve vault item '" item))
        bearer_header h
  inject_auth-Adds (header header_name item) name req out h =
      add_one req out
        (with_context (resolve_password vault folder item) (quoted "resolve vault item '" item))
        (λ t. (header_name, t)) h
  inject_auth-Adds (basic item key secret) name req out h =
      add_one req out (basic_pair vault folder item key secret)
        (λ pair. (codes "Authorization", codes "Basic " ++ base64 pair)) h
  inject_auth-Adds (query_param param_name item) name req out h =
      add_path req out
        (with_context (resolve_password vault folder item) (quoted "resolve vault item '" item))
        (λ value. req.path ++ (separator req.path ++ (param_name ++ b'=' ∷ url_encode value))) h
  inject_auth-Adds (oauth_client_credentials item url client_id secret scope) name req out h =
      add_one req out
        (with_context (vault.get_or_refresh_oauth_token item url client_id secret scope)
          (quoted "oauth token for vault item '" item))
        bearer_header h
  inject_auth-Adds (oauth_refresh item url client_id secret refresh scope w) name req out h =
      add_one req out
        (with_context
          (vault.get_or_refresh_oauth_refresh_token item url client_id secret refresh scope w)
          (quoted "oauth refresh for vault item '" item))
        bearer_header h
  inject_auth-Adds (session item path field username) name req out h = cc
  inject_auth-Adds (unifi_dual item path) name req out h = cc

  -- What a client sends in a forbidden header has no influence on the request that is sent.
  pub inject-drop :
      (req : HttpRequest) (service : ServiceEntry) (a b : List Header) (h : Header)
      → is_forbidden h.0 ≡ true
      → inject base64 url_encode vault folder (record req { headers = a ++ h ∷ b }) service
        ≡ inject base64 url_encode vault folder (record req { headers = a ++ b }) service
  unfolding inject
  inject-drop req service a b h f =
      ap
        (λ hs.
          inject_auth base64 url_encode vault folder service.auth service.name
            (record req { headers = hs }))
        (strip_forbidden_headers-drop a b h f)

  -- When a credential is injected, the request has the headers of the client without the forbidden
  -- ones and at most one more, so at most one forbidden header, and the same method and body.
  pub inject-Adds :
      (req out : HttpRequest) (service : ServiceEntry)
      → inject base64 url_encode vault folder req service ≡ ok out
      → Adds (record req { headers = strip_forbidden_headers req.headers }) out
        × (length (forbidden out.headers) ≤ 1)
  unfolding inject
  inject-Adds req out service h =
      let stripped = record req { headers = strip_forbidden_headers req.headers } in
      let adds = inject_auth-Adds service.auth service.name stripped out h in
      (adds, forbidden-Adds stripped out (forbidden-strip req.headers) adds)

  -- A service whose credential goes into a header of another name than the forbidden ones: a header
  -- of that name that the client sends stays, in front of the one with the credential.
  pub inject-header :
      (req : HttpRequest) (service : ServiceEntry) (a b : List Header)
      (header_name item sent secret : Text)
      → service.auth ≡ header header_name item
      → is_forbidden header_name ≡ false
      → resolve_password vault folder item ≡ ok secret
      → inject base64 url_encode vault folder
          (record req { headers = a ++ (header_name, sent) ∷ b })
          service
        ≡ ok (record req {
          headers =
              strip_forbidden_headers a
              ++ (header_name, sent) ∷ (strip_forbidden_headers b ++ (header_name, secret) ∷ []);
        })
  unfolding inject inject_auth
  inject-header req service a b header_name item sent secret e kept resolved =
      let put = λ (hs : List Header). record req { headers = hs } in
      let first =
        retain-append (λ h. not (is_forbidden h.0)) a ((header_name, sent) ∷ b)
        ∙ ap (λ hs. strip_forbidden_headers a ++ hs) (retain-kept b (header_name, sent) kept) in
      ap (λ hs. inject_auth base64 url_encode vault folder service.auth service.name (put hs)) first
      ∙ ap
          (λ auth.
            inject_auth base64 url_encode vault folder auth service.name
              (put (strip_forbidden_headers a ++ (header_name, sent) ∷ strip_forbidden_headers b)))
          e
      ∙ ap
          (λ r. with_context r (quoted "resolve vault item '" item) >>= λ value. ok (
            add_to_headers
              (put (strip_forbidden_headers a ++ (header_name, sent) ∷ strip_forbidden_headers b))
              (header_name, value)))
          resolved
      ∙ ap (λ hs. ok (put hs))
          (append_assoc (strip_forbidden_headers a)
            ((header_name, sent) ∷ strip_forbidden_headers b) ((header_name, secret) ∷ []))
