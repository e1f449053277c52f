-- ===== src/Transparent/Tunnel/Upstream.antt =====
-- What a service sees of a request that went through the tunnel of proxy/transparent/mitm.rs.
use vaultproxy.Prelude.{
  ℕ, ◌≤◌, ◌≡◌, refl, ap, ◌∙◌, Bool, true, false, List, [], ◌∷◌, ◌++◌, arith, Text, codes, length,
  any, retain, retain-append, ok,
}
use vaultproxy.HashMap.{HashMap}
use vaultproxy.Text.Ascii.{eq_ignore_ascii_case}
use vaultproxy.Text.Decimal.{decimal}
use vaultproxy.Text.Utf8.{trim_bytes}
use vaultproxy.Transparent.Inject.{Vault, inject, is_forbidden, strip_forbidden_headers}
use vaultproxy.Transparent.Inject.Bare.{without_headers, inject-Extends}
use mathlib.Core.List.{append-nil}
use vaultproxy.Transparent.Inject.Credential.{forbidden, inject-Adds}
use vaultproxy.Transparent.Mitm.{
  Header, HttpRequest, read_http_request, serialize_request, is_host, max_transparent_body_bytes,
}
use vaultproxy.Transparent.Mitm.Headers.{IsLineText, AllHeaders, is_sent, added_host, sent_headers}
use vaultproxy.Transparent.Mitm.RoundTrip.{IsRequestLine, read_http_request-serialize_request}
use vaultproxy.Transparent.Placeholder.{TransparentPlaceholder}
use vaultproxy.Transparent.Service.{ServiceEntry, host_inject}
use vaultproxy.Transparent.Tunnel.{sent, injected, exchange_for, exchange_of, run_http1}

-- No header of the client that is sent is a forbidden one.
forbidden-sent-strip :
    (hs : List Header) → forbidden (retain is_sent (strip_forbidden_headers hs)) ≡ []
forbidden-sent-strip [] = refl
forbidden-sent-strip (h ∷ hs) = ground (arith, forbidden-sent-strip hs)

-- The headers that the proxy adds carry no credential.
forbidden-added_host : (has_host : Bool) (host : Text) → forbidden (added_host has_host host) ≡ []
unfolding is_forbidden eq_ignore_ascii_case
forbidden-added_host true host = refl
forbidden-added_host false host = refl

forbidden-framing :
    (n : ℕ)
    → forbidden ((codes "Connection", codes "close") ∷ (codes "Content-Length", decimal 19 n) ∷ [])
      ≡ []
unfolding is_forbidden eq_ignore_ascii_case
forbidden-framing n = refl

forbidden-sent_headers :
    (req : HttpRequest) (host : Text)
    → forbidden (sent_headers req host) ≡ forbidden (retain is_sent req.headers)
forbidden-sent_headers req host =
    let p : Header → Bool = λ h. is_forbidden h.0 in
    let has = any is_host req.headers in
    let framing : List Header =
      (codes "Connection", codes "close")
      ∷ (codes "Content-Length", decimal 19 (length req.body))
      ∷ [] in
    retain-append p (retain is_sent req.headers) (added_host has host ++ framing)
    ∙ ap (λ hs. forbidden (retain is_sent req.headers) ++ hs)
        (retain-append p (added_host has host) framing
          ∙ ap (λ hs. hs ++ forbidden framing) (forbidden-added_host has host)
          ∙ forbidden-framing (length req.body))
    ∙ append-nil (forbidden (retain is_sent req.headers))

-- Behind the headers of the client only what is added can be forbidden.
forbidden-added :
    (hs added all_headers : List Header)
    → all_headers ≡ strip_forbidden_headers hs ++ added
    → forbidden (retain is_sent all_headers) ≡ forbidden (retain is_sent added)
forbidden-added hs added all_headers e =
    let p : Header → Bool = λ h. is_forbidden h.0 in
    ap (λ l. forbidden (retain is_sent l)) e
    ∙ ap forbidden (retain-append is_sent (strip_forbidden_headers hs) added)
    ∙ retain-append p (retain is_sent (strip_forbidden_headers hs)) (retain is_sent added)
    ∙ ap (λ l. l ++ forbidden (retain is_sent added)) (forbidden-sent-strip hs)

module _ (base64 url_encode : Text → Text) (iterate : HashMap Text Text → HashMap Text Text)
    (vault : Vault) (folder : Text) (placeholders : List TransparentPlaceholder) where
  -- From what is sent for a request of a client to a service with host_inject, once the request is
  -- read and the credential is injected, a reader of the same kind at the service reads a request with
  -- the same method and body. The forbidden headers in it are those that the injection adds to the
  -- same request when it has no headers at all, as far as they are sent, so none is the client's;
  -- there is one at most. It is asked that what is sent has no line feed in its strings, no space in
  -- its method and path, no colon in its header names, nothing to be trimmed, and a body of at most
  -- 256 MiB.
  pub run_http1-forbidden :
      (service : ServiceEntry) (host stream : Text) (req out : HttpRequest)
      → service.transparent_mode ≡ host_inject
      → read_http_request stream ≡ ok req
      → inject base64 url_encode vault folder req service ≡ ok out
      → IsRequestLine out.method out.path
      → AllHeaders out.headers
      → IsLineText host
      → trim_bytes host ≡ host
      → length out.body ≤ max_transparent_body_bytes
      → (bytes : Text) × (seen : HttpRequest) × (bare : HttpRequest) × (run_http1 base64 url_encode
            iterate vault folder placeholders service host stream
          ≡ sent bytes)
        × (read_http_request bytes ≡ ok seen)
        × (seen.method ≡ req.method)
        × (seen.body ≡ req.body)
        × (inject base64 url_encode vault folder (without_headers req) service ≡ ok bare)
        × (forbidden seen.headers ≡ forbidden (retain is_sent bare.headers))
        × (length bare.headers ≤ 1)
  unfolding run_http1
  run_http1-forbidden service host stream req out mode read injected_out line headers h t small =
      let ((added, e, few, method, body), one) =
        inject-Adds base64 url_encode vault folder req out service injected_out in
      let (bare, answer, behind, single) =
        inject-Extends base64 url_encode vault folder req out service injected_out in
      let seen : HttpRequest = record {
        method = out.method;
        path = out.path;
        headers = sent_headers out host;
        body = out.body;
      } in
      (
        serialize_request out host,
        seen,
        bare,
        ap (exchange_of base64 url_encode iterate vault folder placeholders service host) read
            ∙ ap (exchange_for base64 url_encode iterate vault folder placeholders service host req)
                mode
            ∙ ap (injected host) injected_out,
        read_http_request-serialize_request out host line headers h t small,
        method,
        body,
        answer,
        forbidden-sent_headers out host
            ∙ forbidden-added req.headers bare.headers out.headers behind,
        single,
      )
