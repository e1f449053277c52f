-- ===== src/Transparent/Mitm/Examples.antt =====
-- The theorem on the requests of proxy/transparent/mitm.rs at a concrete input.
use vaultproxy.Prelude.{◌≡◌, refl, [], ◌∷◌, arith, codes, ok, err}
use vaultproxy.Text.{is_utf8, utf8_from, utf8_lead, split_once}
use vaultproxy.Text.Search.{differs, splitn_three}
use vaultproxy.Text.Utf8.{trim_end_crlf, trim_bytes, trim_from, whitespace_first, whitespace_last}
use vaultproxy.Transparent.Mitm.{HttpRequest, read_http_request, serialize_request, split_lines}
use vaultproxy.Transparent.Mitm.Headers.{sent_headers}
use vaultproxy.Transparent.Mitm.RoundTrip.{read_http_request-serialize_request}

abbrev post : HttpRequest
post = record {
  method = codes "POST";
  path = codes "/a?b";
  headers =
      (codes "Accept", codes "*/*")
      ∷ (codes "Transfer-Encoding", codes "chunked")
      ∷ (codes "content-length", codes "0")
      ∷ [];
  body = codes "a\nb";
}

read_http_request-serialize_request_example :
    read_http_request (serialize_request post (codes "api.test"))
    ≡ ok (record {
      method = codes "POST";
      path = codes "/a?b";
      headers = sent_headers post (codes "api.test");
      body = codes "a\nb";
    })
unfolding is_utf8 utf8_from utf8_lead differs trim_bytes trim_from whitespace_first whitespace_last
read_http_request-serialize_request_example =
    read_http_request-serialize_request post (codes "api.test")
      ((refl, refl), (refl, refl), refl, refl)
      (
        ((refl, refl), (refl, refl), refl, refl, refl),
        (
          ((refl, refl), (refl, refl), refl, refl, refl),
          (((refl, refl), (refl, refl), refl, refl, refl), tt),
        ),
      )
      (refl, refl) refl (omega arith)

old_version :
    read_http_request (codes "GET / HTTP/1.0\r\n\r\n")
    ≡ err (codes "agent sent unsupported HTTP version 'HTTP/1.0'")
unfolding read_http_request split_lines is_utf8 utf8_from utf8_lead splitn_three split_once
    trim_end_crlf
old_version = refl
