-- ===== src/Lib.antt =====
-- vaultproxy: parts of the credential proxy, modelled function by function.
--
-- The program keeps credentials in a vault and lends them to tools. Requests pass the request rate
-- limiter before they reach the vault; the dashboard's sessions and the permissions of tools decide
-- who may do what; what is fetched is cached for a while and recorded in the access log; SMB shares
-- are mounted by a privileged helper, which trusts nothing that it is handed. A transparent proxy puts
-- credentials into the requests of tools that never see them, and a sanitizer filters what comes back.
--
-- Prelude, HashMap, Text
--   Shared: Boolean tests, lists over the native numbers, results, maps as association lists whose
--   order is the order of iteration, and the string operations of the Rust standard library.
-- RateLimit (src/security/rate_limit.rs)
--   `RateLimiter` is the record of that name; `check` is split into the sweep (`gc`), the cap
--   (`is_full`), the reset and count of an entry (`bump`) and the answer (`admit`). The middleware
--   and the key of a caller are functions of the path, the headers and the peer; what goes on to the
--   next handler is the request as it came.
-- MountHelper (src/bin/mount_helper.rs)
--   Validate holds the validators, Json the parser, Request the reading of a request, Fstab the entry
--   and its block, Effects both actions over a `World` of files. The parser runs on fuel, one more
--   than the length of its input. It reads bytes and makes a character of each, while `serde_escape`
--   reads characters and writes their UTF-8 (Text/Encode). A world holds the outcomes of the system calls to come, so that
--   any of them may fail, and a failed write leaves part of its bytes; the text of an errno is left
--   out of the messages, and the modes of directories are not kept.
-- Window (src/notify.rs)
--   The list of instants that the notifier's limiter prunes and extends; its operations are those of
--   the limits of Sessions too.
-- Sessions (src/dashboard/auth.rs)
--   `SessionStore` without its locks. `login` is split where the program releases a lock, so that
--   logins may be interleaved there. bcrypt, the random session id, the clocks and the file with the
--   password hash are arguments.
-- AccessLog (src/access_log.rs)
--   The file is the list of its lines and what stands after the last line feed, where a write goes on.
--   JSON and the HMAC are parameters, and what a write comes to, a part of the line included, is an
--   argument of `record_event`. Messages of errors are the constructors of `Failure`, with the
--   number of the line.
-- CredCache (src/cred_cache.rs)
--   The cache with its three operations; a credential is a text.
-- Permissions (src/security/permissions.rs)
--   The keywords of tools, gone through in the order of the map. Unicode lower case is a parameter.
-- Sanitize (src/security/sanitize.rs)
--   A text is its code points and the limit counts their bytes in UTF-8. A scan that skips a match
--   counts down the characters that are left of it, so that it is structural and needs no fuel. A
--   JSON value is a tree of three types, and the walk over it three functions.
-- Transparent (src/proxy/transparent)
--   The transparent HTTPS proxy. Connect (connect.rs) reads a CONNECT request; Registry
--   (registry.rs) finds the service of a host and a port; Connection (mod.rs) puts both together
--   and decides what becomes of a connection; Mitm (mitm.rs) reads the HTTP/1.1 request inside
--   the tunnel and writes it to the service; Inject (inject_host.rs) and Placeholder
--   (inject_placeholder.rs) put the credential in between; Tunnel (mitm.rs) puts these together;
--   Errors (errors.rs) are the answers to a client that is turned away; Service holds the entry
--   of a service (src/proxy/registry.rs). A stream is the bytes that come before its end, and
--   strings are kept as their bytes. The parser of URLs, base64, JSON, the vault's decryption,
--   the token endpoints and the lower case of Unicode are parameters.
-- Oauth (src/proxy/mod.rs)
--   The cache of the tokens of OAuth client credentials. A call looks at the cache at one instant and
--   has the answer of the endpoint at a later one; the endpoint is a function of the instant, the URL
--   and the form. That the sum of an instant and a lifetime is too large is an error of its own.
-- SyncMap (src/sync/mapping.rs)
--   The map of synchronised items, its live file and the backups beside it; a backup is named by the
--   number of its time stamp. Whether the copy of the live file succeeds and which backups can be
--   removed are arguments; an error of the copy does not stop a save. JSON is a parameter.
-- Policy (src/policy.rs)
--   The rotation policies and their file; JSON is a parameter.
--
-- An `Instant` is a number of nanoseconds and its differences stop at zero, as in Rust; time stamps
-- are seconds since 1970. Counters of 64 bits keep their wrap-around. Log messages are left out.
--
-- Not modelled: the HTTP handlers, the explicit proxy, TLS and HTTP/2, the synchronisation with the cloud, the
-- rotation strategies, the audit engine, the browser and the key stores, which are mostly calls of
-- libraries and of remote services; and what the parts above hand to the file system or to JSON
-- beyond what is said there.
pub mod Prelude
pub mod HashMap
pub mod Text
pub mod RateLimit
pub mod MountHelper
pub mod Window
pub mod Sessions
pub mod AccessLog
pub mod CredCache
pub mod Permissions
pub mod Sanitize
pub mod SyncMap
pub mod Policy
pub mod Oauth
pub mod Transparent
