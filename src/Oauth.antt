-- ===== src/Oauth.antt =====
-- proxy/mod.rs: the tokens of OAuth client credentials and their cache. What the vault decrypts and
-- what a token endpoint answers at an instant are arguments. Messages of errors are constructors.
mod Issued
mod History
pub mod Lifetime
mod Examples
use vaultproxy.Prelude.{
  ℕ, ◌+◌, ◌-◌, ◌*◌, ◌^◌, Bool, true, false, not, ◌&&◌, Option, none, some, List, [], ◌∷◌, ◌++◌,
  if◌then◌else◌, ltb, leb, HasEq, ◌==◌, text_eq, Text, codes, Result, ok, err, ◌>>=◌, ◌>>◌,
  reject_if, ok_or,
}
use vaultproxy.Text.{is_empty, is_utf8}
use vaultproxy.HashMap.{HashMap, get, insert}

pub data OauthError : Type 0 where
  vault_error : Text → OauthError
  no_username : (vault_item : Text) → OauthError
  not_utf8 : (field : Text) → OauthError
  request_failed : OauthError
  not_json : OauthError
  refused_by_endpoint : (status : ℕ) → OauthError
  missing_access_token : OauthError
  -- The addition to the instant panics.
  instant_overflow : OauthError

-- What comes back from a token endpoint. In JSON, the token if it is a string and the lifetime in
-- seconds if it is a number of 64 bits.
pub data Reply : Type 0 where
  no_reply : Reply
  no_json : Reply
  json : (status : ℕ) (access_token : Option Text) (expires_in : Option ℕ) → Reply

pub record Secrets : Type 0 where
  pub test_item_password : Text → Text → Option Text
  pub decrypt_username : Text → Result Text (Option Text)
  pub decrypt_password : Text → Result Text Text
  pub decrypt_field : Text → Text → Result Text Text

-- An instant is a number of nanoseconds below 2 ^ 63 seconds.
abbrev pub secs : ℕ → ℕ
secs n = n * 1000000000

abbrev pub oauth_refresh_margin : ℕ
oauth_refresh_margin = secs 60

abbrev pub oauth_default_ttl : ℕ
oauth_default_ttl = secs 300

-- The tokens with the instants from which they are not used any more.
abbrev pub OauthTokens : Type 0
OauthTokens = HashMap Text (Text × ℕ)

abbrev pub Form : Type 0
Form = List (Text × Text)

abbrev pub vault : {A : Type 0} → Result Text A → Result OauthError A
vault (ok a) = ok a
vault (err e) = err (vault_error e)

abbrev pub client_id_of : Secrets → Text → Text → Result OauthError Text
client_id_of secrets item field =
    if field == codes "username"
    then (vault (secrets.decrypt_username item) >>= λ name. ok_or name (no_username item))
    else vault (secrets.decrypt_field item field)

abbrev pub client_secret_of : Secrets → Text → Text → Result OauthError Text
client_secret_of secrets item field =
    if field == codes "password"
    then vault (secrets.decrypt_password item)
    else vault (secrets.decrypt_field item field)

abbrev pub decrypted : Secrets → Text → Text → Text → Result OauthError (Text × Text)
decrypted secrets item id_field secret_field = do
  id ← client_id_of secrets item id_field
  secret ← client_secret_of secrets item secret_field
  reject_if (not (is_utf8 id)) (not_utf8 (codes "client_id"))
  reject_if (not (is_utf8 secret)) (not_utf8 (codes "client_secret"))
  ok (id, secret)

abbrev pub seeded_pair :
    Option Text → Option Text → Result OauthError (Text × Text) → Result OauthError (Text × Text)
seeded_pair (some id) (some secret) others = ok (id, secret)
seeded_pair (some id) none others = others
seeded_pair none secret others = others

unfoldable pub client_of : Secrets → Text → Text → Text → Result OauthError (Text × Text)
client_of secrets item id_field secret_field =
    seeded_pair (secrets.test_item_password (codes "vault-proxy") (item ++ codes ":client_id"))
      (secrets.test_item_password (codes "vault-proxy") (item ++ codes ":client_secret"))
      (decrypted secrets item id_field secret_field)

abbrev pub form_of : Text × Text → Text → Form
form_of (id, secret) scope =
    (codes "grant_type", codes "client_credentials")
    ∷ (codes "client_id", id)
    ∷ (codes "client_secret", secret)
    ∷ (if is_empty scope then [] else (codes "scope", scope) ∷ [])

abbrev pub ttl_of : Option ℕ → ℕ
ttl_of none = oauth_default_ttl
ttl_of (some n) = secs n

-- The token, and the instant until which it is kept, from what comes back at the instant.
unfoldable pub token_from : ℕ → Reply → Result OauthError (Text × ℕ)
token_from later no_reply = err request_failed
token_from later no_json = err not_json
token_from later (json status access_token expires_in) = do
  reject_if (not (leb 200 status && ltb status 300)) (refused_by_endpoint status)
  token ← ok_or access_token missing_access_token
  reject_if (leb (secs (2 ^ 63)) (later + (ttl_of expires_in - oauth_refresh_margin)))
      instant_overflow
  ok (token, later + (ttl_of expires_in - oauth_refresh_margin))

abbrev pub unexpired : ℕ → Option (Text × ℕ) → Option Text
unexpired now none = none
unexpired now (some (token, expires_at)) = if ltb now expires_at then some token else none

unfoldable pub cached : Bool → ℕ → Text → OauthTokens → Option Text
cached force_refresh now item tokens =
    if force_refresh then none else unexpired now (get item tokens)

-- A call: it looks at the cache at one instant, and has the answer at a later one.
pub record Call : Type 0 where
  pub vault_item : Text
  pub token_url : Text
  pub client_id_field : Text
  pub client_secret_field : Text
  pub scope : Text
  pub force_refresh : Bool
  pub now : ℕ
  pub later : ℕ

-- `access_token` is put under the item of the vault.
abbrev pub keep :
    Text → OauthTokens → Result OauthError (Text × ℕ) → OauthTokens × Result OauthError Text
keep item tokens (err e) = (tokens, err e)
keep item tokens (ok (token, expires_at)) = (insert item (token, expires_at) tokens, ok token)

module _ (secrets : Secrets) (post : ℕ → Text → Form → Reply) where
  unfoldable pub fetch : Call → Result OauthError (Text × ℕ)
  fetch c = do
    client ← client_of secrets c.vault_item c.client_id_field c.client_secret_field
    token_from c.later (post c.later c.token_url (form_of client c.scope))

  abbrev pub or_fetch : OauthTokens → Call → Option Text → OauthTokens × Result OauthError Text
  or_fetch tokens c none = keep c.vault_item tokens (fetch c)
  or_fetch tokens c (some token) = (tokens, ok token)

  unfoldable pub get_or_refresh_oauth_token :
      OauthTokens → Call → OauthTokens × Result OauthError Text
  get_or_refresh_oauth_token tokens c =
      or_fetch tokens c (cached c.force_refresh c.now c.vault_item tokens)

  unfoldable pub run : OauthTokens → List Call → OauthTokens
  run tokens [] = tokens
  run tokens (c ∷ calls) = run (get_or_refresh_oauth_token tokens c).0 calls
