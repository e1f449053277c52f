-- ===== src/Oauth/Examples.antt =====
-- The theorems on the token cache of proxy/mod.rs at concrete inputs.
use vaultproxy.Prelude.{
  ℕ, ◌≡◌, refl, true, false, none, some, List, [], ◌∷◌, text_eq, Text, codes, ok, err,
}
use vaultproxy.Text.{is_utf8, utf8_from, utf8_lead}
use vaultproxy.HashMap.{get, insert}
use vaultproxy.Oauth.{
  Reply, json, Secrets, Form, Call, secs, cached, fetch, client_of, token_from, run,
  get_or_refresh_oauth_token, refused_by_endpoint,
}
use vaultproxy.Oauth.Lifetime.{IsFresh, get_or_refresh_oauth_token-IsFresh}

abbrev secrets : Secrets
secrets = record {
  test_item_password = λ folder item. none;
  decrypt_username = λ item. ok (some (codes "id"));
  decrypt_password = λ item. ok (codes "pw");
  decrypt_field = λ item field. err (codes "no field");
}

abbrev post : ℕ → Text → Form → Reply
post later url form = json 200 (some (codes "tok")) (some 3600)

abbrev call_at : ℕ → Text → Call
call_at now scope = record {
  vault_item = codes "idp";
  token_url = codes "https://idp.test/token";
  client_id_field = codes "username";
  client_secret_field = codes "password";
  scope = scope;
  force_refresh = false;
  now = now;
  later = now;
}

-- Another item of the vault, with a forced new token.
abbrev other_call : Call
other_call = record (call_at (secs 30) []) { vault_item = codes "other"; force_refresh = true }

abbrev history : List Call
history = call_at 0 (codes "read") ∷ other_call ∷ []

get_or_refresh_oauth_token-IsFresh_example :
    IsFresh secrets post history (call_at (secs 60) (codes "read")) (codes "tok")
unfolding get_or_refresh_oauth_token run cached fetch client_of token_from get insert is_utf8
    utf8_from utf8_lead
get_or_refresh_oauth_token-IsFresh_example =
    get_or_refresh_oauth_token-IsFresh secrets post history (call_at (secs 60) (codes "read"))
      (codes "tok") refl

refused : token_from 0 (json 401 none none) ≡ err (refused_by_endpoint 401)
unfolding token_from
refused = refl
