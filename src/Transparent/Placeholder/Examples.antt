-- ===== src/Transparent/Placeholder/Examples.antt =====
-- The theorems on proxy/transparent/inject_placeholder.rs at concrete inputs.
use vaultproxy.Prelude.{◌≡◌, refl, [], ◌∷◌, List, text_eq, pair_eq, Text, codes, ok, err}
use vaultproxy.Text.{starts_with, is_utf8, utf8_from, utf8_lead, is_ascii_alphanumeric}
use vaultproxy.Text.Search.{find_before, ends_with}
use vaultproxy.HashMap.{HashMap}
use vaultproxy.Transparent.Inject.{Vault}
use vaultproxy.Transparent.Mitm.{HttpRequest}
use vaultproxy.Transparent.Placeholder.{
  TransparentPlaceholder, SubstituteError, scan, insert_token, find_placeholders, substitute,
  validate_placeholder_token,
}
use vaultproxy.Transparent.Placeholder.Resolution.{substitute_unseeded}

abbrev vault_with : HashMap (Text × Text) Text → Vault
vault_with seeded = record {
  test_passwords = seeded;
  decrypt_password = λ item. ok (codes "s3cret");
  decrypt_field = λ item field. ok (codes "s3cret");
  get_or_refresh_oauth_token = λ item url client_id secret scope. err (codes "down");
  get_or_refresh_oauth_refresh_token =
      λ item url client_id secret refresh scope writeback. err (codes "down");
}

abbrev declared : List TransparentPlaceholder
declared =
    record { token = codes "__vault.pat__"; vault_item = codes "GitHub"; field = codes "password" }
    ∷ []

abbrev request_for : Text → HttpRequest
request_for path = record { method = codes "GET"; path = path; headers = []; body = [] }

abbrev forward : HashMap Text Text → HashMap Text Text
forward m = m

substitute_unseeded_example :
    (e : SubstituteError) × (substitute forward
        (request_for (codes "/__vault.pat__"))
        declared
        (vault_with [])
        (codes "f")
        100
      ≡ err e)
unfolding find_placeholders scan starts_with find_before insert_token is_utf8 utf8_from utf8_lead
substitute_unseeded_example =
    substitute_unseeded declared (vault_with []) (codes "f") forward
      (request_for (codes "/__vault.pat__")) 100 (codes "__vault.pat__") [] refl refl

-- A name with two underscores in it may be declared, and is not what the scan finds.
inner_underscores_declared : validate_placeholder_token (codes "__vault.a__b__") ≡ ok tt
unfolding validate_placeholder_token starts_with ends_with is_ascii_alphanumeric
inner_underscores_declared = refl

inner_underscores_found : scan 0 (codes "__vault.a__b__") ≡ codes "__vault.a__" ∷ []
unfolding scan starts_with find_before
inner_underscores_found = refl
