-- ===== src/Transparent/Errors.antt =====
-- proxy/transparent/errors.rs: the answers to a client that is turned away. The JSON envelope is an
-- argument.
use vaultproxy.Prelude.{ℕ, ◌∷◌, ◌++◌, if◌then◌else◌, eqb, Text, codes, length}
use vaultproxy.Text.Decimal.{decimal}

pub data TransparentErrorCode : Type 0 where
  malformed_connect : TransparentErrorCode
  upstream_unreachable : TransparentErrorCode
  unregistered_host_blocked : TransparentErrorCode
  placeholder_unresolved : TransparentErrorCode
  vault_resolution_failed : TransparentErrorCode
  agent_read_timeout : TransparentErrorCode

abbrev pub http_status : TransparentErrorCode → ℕ
http_status malformed_connect = 400
http_status upstream_unreachable = 502
http_status unregistered_host_blocked = 502
http_status placeholder_unresolved = 502
http_status vault_resolution_failed = 502
http_status agent_read_timeout = 504

abbrev pub code : TransparentErrorCode → Text
code malformed_connect = codes "malformed_connect"
code upstream_unreachable = codes "upstream_unreachable"
code unregistered_host_blocked = codes "unregistered_host_blocked"
code placeholder_unresolved = codes "placeholder_unresolved"
code vault_resolution_failed = codes "vault_resolution_failed"
code agent_read_timeout = codes "agent_read_timeout"

abbrev pub reason : TransparentErrorCode → Text
reason c =
    if eqb (http_status c) 400
    then codes "Bad Request"
    else if eqb (http_status c) 502
    then codes "Bad Gateway"
    else if eqb (http_status c) 504
    then codes "Gateway Timeout"
    else codes "Error"

-- What is written to the client; `envelope` makes the JSON of the code and the message.
unfoldable pub write_error_response : (Text → Text → Text) → TransparentErrorCode → Text → Text
write_error_response envelope c message =
    let body = envelope (code c) message in
    codes "HTTP/1.1 "
    ++ (decimal 2 (http_status c)
        ++ b' '
          ∷ (reason c
              ++ 0x0d
                ∷ 0x0a
                ∷ (codes "Content-Type: application/json"
                    ++ 0x0d
                      ∷ 0x0a
                      ∷ (codes "Content-Length: "
                          ++ (decimal 19 (length body)
                              ++ 0x0d
                                ∷ 0x0a
                                ∷ (codes "Connection: close"
                                    ++ 0x0d ∷ 0x0a ∷ 0x0d ∷ 0x0a ∷ body))))))
