-- ===== src/Transparent/Inject.antt =====
-- proxy/transparent/inject_host.rs: the credential of a service put into a request. Base64, the
-- encoding of URLs, and what the vault decrypts are arguments; messages name no pattern and no cause.
pub mod Bare
pub mod Credential
mod Examples
use Prim.Native.String.{String}
use vaultproxy.Prelude.{
  Bool, true, false, not, Option, none, some, List, [], ◌∷◌, ◌++◌, if◌then◌else◌, eqb, HasEq,
  text_eq, pair_eq, Text, codes, any, retain, Result, ok, err, ◌>>=◌, ◌>>◌, reject_if, ok_or,
}
use vaultproxy.Text.{is_utf8}
use vaultproxy.Text.Ascii.{eq_ignore_ascii_case}
use vaultproxy.HashMap.{HashMap, get}
use vaultproxy.Transparent.Mitm.{Header, HttpRequest}
use vaultproxy.Transparent.Service.{
  AuthPattern, header, query_param, bearer, basic, session, unifi_dual, oauth_client_credentials,
  oauth_refresh, ServiceEntry,
}

abbrev pub forbidden_headers : List Text
forbidden_headers =
    codes "authorization"
    ∷ codes "x-api-key"
    ∷ codes "x-plex-token"
    ∷ codes "cookie"
    ∷ codes "proxy-authorization"
    ∷ codes ":authority"
    ∷ codes ":scheme"
    ∷ codes ":method"
    ∷ codes ":path"
    ∷ codes ":status"
    ∷ codes "trailer"
    ∷ codes "te"
    ∷ []

unfoldable pub is_forbidden : Text → Bool
is_forbidden k = any (λ f. eq_ignore_ascii_case k f) forbidden_headers

abbrev pub strip_forbidden_headers : List Header → List Header
strip_forbidden_headers headers = retain (λ h. not (is_forbidden h.0)) headers

-- What is asked of the vault and of the token endpoints.
pub record Vault : Type 0 where
  pub test_passwords : HashMap (Text × Text) Text
  pub decrypt_password : Text → Result Text Text
  pub decrypt_field : Text → Text → Result Text Text
  pub get_or_refresh_oauth_token : (item url client_id secret scope : Text) → Result Text Text
  pub get_or_refresh_oauth_refresh_token :
      (item url client_id secret refresh scope : Text) (writeback : Bool) → Result Text Text

-- vault/mod.rs; the lock of the map is free.
abbrev pub test_item_password : Vault → Text → Text → Option Text
test_item_password vault folder item = get (folder, item) vault.test_passwords

-- `with_context`: the outermost message.
abbrev pub with_context : {A : Type 0} → Result Text A → Text → Result Text A
with_context (ok a) message = ok a
with_context (err e) message = err message

abbrev pub quoted : String → Text → Text
quoted message name = codes message ++ (name ++ codes "'")

abbrev pub utf8_string : Text → Text → Result Text Text
utf8_string buf message = do reject_if (not (is_utf8 buf)) message; ok buf

abbrev pub seeded_or : Option Text → Result Text Text → Result Text Text
seeded_or none decrypted = decrypted
seeded_or (some value) decrypted = ok value

unfoldable pub resolve_password : Vault → Text → Text → Result Text Text
resolve_password vault folder item =
    seeded_or (test_item_password vault folder item) (
      vault.decrypt_password item >>= λ buf.
      utf8_string buf (codes "credential is not valid UTF-8"))

abbrev pub add_to_headers : HttpRequest → Header → HttpRequest
add_to_headers req h = record req { headers = req.headers ++ h ∷ [] }

abbrev pub separator : Text → Text
separator path = if any (λ c. eqb c b'?') path then codes "&" else codes "?"

-- The user and the password of `Basic`, joined.
abbrev pub basic_pair : Vault → Text → Text → Text → Text → Result Text Text
basic_pair vault folder item key_field secret_field = elim (test_item_password vault folder item) [
  | some pair ↦ ok pair
  | none ↦ do
    key ←
        with_context (vault.decrypt_field item key_field)
          (codes "resolve " ++ (item ++ b'.' ∷ key_field))
    secret ←
        with_context (vault.decrypt_field item secret_field)
          (codes "resolve " ++ (item ++ b'.' ∷ secret_field))
    key_s ← utf8_string key (codes "key field is not valid UTF-8")
    secret_s ← utf8_string secret (codes "secret field is not valid UTF-8")
    ok (key_s ++ b':' ∷ secret_s)
]

abbrev pub bearer_header : Text → Header
bearer_header token = (codes "Authorization", codes "Bearer " ++ token)

-- What a pattern does to a request without forbidden headers.
module _ (base64 url_encode : Text → Text) (vault : Vault) (folder : Text) where
  unfoldable pub inject_auth : AuthPattern → Text → HttpRequest → Result Text HttpRequest
  inject_auth (bearer vault_item) name req = do
    token ←
        with_context (resolve_password vault folder vault_item)
          (quoted "resolve vault item '" vault_item)
    ok (add_to_headers req (bearer_header token))
  inject_auth (header header_name vault_item) name req = do
    value ←
        with_context (resolve_password vault folder vault_item)
          (quoted "resolve vault item '" vault_item)
    ok (add_to_headers req (header_name, value))
  inject_auth (basic vault_item key_field secret_field) name req = do
    pair ← basic_pair vault folder vault_item key_field secret_field
    ok (add_to_headers req (codes "Authorization", codes "Basic " ++ base64 pair))
  inject_auth (query_param param_name vault_item) name req = do
    value ←
        with_context (resolve_password vault folder vault_item)
          (quoted "resolve vault item '" vault_item)
    ok (record req {
      path = req.path ++ (separator req.path ++ (param_name ++ b'=' ∷ url_encode value));
    })
  inject_auth (oauth_client_credentials item url client_id secret scope) name req = do
    token ←
        with_context (vault.get_or_refresh_oauth_token item url client_id secret scope)
          (quoted "oauth token for vault item '" item)
    ok (add_to_headers req (bearer_header token))
  inject_auth (oauth_refresh item url client_id secret refresh scope writeback) name req = do
    token ←
        with_context
          (vault.get_or_refresh_oauth_refresh_token item url client_id secret refresh scope
            writeback)
          (quoted "oauth refresh for vault item '" item)
    ok (add_to_headers req (bearer_header token))
  inject_auth (session vault_item login_path token_field username) name req =
      err (quoted "transparent host_inject does not support auth pattern; service '" name)
  inject_auth (unifi_dual vault_item login_path) name req =
      err (quoted "transparent host_inject does not support auth pattern; service '" name)

  unfoldable pub inject : HttpRequest → ServiceEntry → Result Text HttpRequest
  inject req service =
      inject_auth service.auth service.name
        (record req { headers = strip_forbidden_headers req.headers })
