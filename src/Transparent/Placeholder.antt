-- ===== src/Transparent/Placeholder.antt =====
-- proxy/transparent/inject_placeholder.rs: `__vault.<name>__` in a request replaced by passwords. The
-- order in which the map of the resolved tokens is gone through is an argument.
pub mod Resolution
mod Examples
use vaultproxy.Prelude.{
  ℕ, zero, suc, ◌+◌, ◌-◌, ◌*◌, Bool, true, false, not, ◌&&◌, ◌||◌, Option, none, some, List, [],
  ◌∷◌, ◌++◌, if◌then◌else◌, ltb, leb, eqb, HasEq, ◌==◌, text_eq, Text, codes, length, all, any,
  take, drop, Result, ok, err, ◌>>=◌, ◌>>◌, reject_if, ok_or,
}
use vaultproxy.Text.{is_empty, is_utf8, starts_with, contains, is_ascii_alphanumeric}
use vaultproxy.Text.Ascii.{eq_ignore_ascii_case}
use vaultproxy.Text.Search.{ends_with, replace_at, find_before}
use vaultproxy.HashMap.{HashMap, insert}
use vaultproxy.Transparent.Inject.{Vault, test_item_password}
use vaultproxy.Transparent.Mitm.{Header, HttpRequest}

pub record TransparentPlaceholder : Type 0 where
  pub token : Text
  pub vault_item : Text
  pub field : Text

pub data SubstituteError : Type 0 where
  -- `PlaceholderUnresolved`
  unresolved : (token : Text) → SubstituteError
  -- The vault has no value for the item of the token.
  not_in_vault : (token vault_item : Text) → SubstituteError
  body_not_utf8 : SubstituteError

abbrev pub prefix : Text
prefix = codes "__vault."

-- The tokens of one string. After a token the search goes on behind it, and where none is closed it
-- ends.
abbrev pub token_of : Option Text → Option Text
token_of none = none
token_of (some name) = some (prefix ++ (name ++ codes "__"))

abbrev pub token_at : Text → Option Text
token_at s = if starts_with s prefix then token_of (find_before (codes "__") (drop 8 s)) else none

abbrev pub behind : Option Text → ℕ
behind none = 0
behind (some token) = length token - 1

abbrev pub with_token : Option Text → List Text → List Text
with_token none tokens = tokens
with_token (some token) tokens = token ∷ tokens

unfoldable pub scan : ℕ → Text → List Text
scan n [] = []
scan (suc n) (c ∷ s) = scan n s
scan zero (c ∷ s) =
    let token = token_at (c ∷ s) in let rest = scan (behind token) s in with_token token rest

abbrev pub text_ltb : Text → Text → Bool
text_ltb s [] = false
text_ltb [] (d ∷ t) = true
text_ltb (c ∷ s) (d ∷ t) = ltb c d || (eqb c d && text_ltb s t)

-- `BTreeSet::insert`
unfoldable pub insert_token : Text → List Text → List Text
insert_token t [] = t ∷ []
insert_token t (u ∷ us) =
    let rest = insert_token t us in
    if t == u then u ∷ us else if text_ltb t u then t ∷ u ∷ us else u ∷ rest

abbrev pub insert_all : List Text → List Text → List Text
insert_all [] set = set
insert_all (t ∷ ts) set = insert_all ts (insert_token t set)

abbrev pub scan_headers : List Header → List Text → List Text
scan_headers [] set = set
scan_headers (h ∷ hs) set = scan_headers hs (insert_all (scan 0 h.1) set)

unfoldable pub find_placeholders : HttpRequest → List Text
find_placeholders req =
    let set = scan_headers req.headers (insert_all (scan 0 req.path) []) in
    if is_utf8 req.body then insert_all (scan 0 req.body) set else set

abbrev pub find_placeholder : Text → List TransparentPlaceholder → Option TransparentPlaceholder
find_placeholder token [] = none
find_placeholder token (p ∷ ps) =
    let rest = find_placeholder token ps in if p.token == token then some p else rest

abbrev pub resolve_token :
    List TransparentPlaceholder → Vault → Text → Text → Result SubstituteError Text
resolve_token placeholders vault folder token = do
  cfg ← ok_or (find_placeholder token placeholders) (unresolved token)
  ok_or (test_item_password vault folder cfg.vault_item) (not_in_vault token cfg.vault_item)

-- The loop over the tokens that are used.
unfoldable pub resolve_all :
    List TransparentPlaceholder
    → Vault
    → Text
    → List Text
    → HashMap Text Text
    → Result SubstituteError (HashMap Text Text)
resolve_all placeholders vault folder [] resolved = ok resolved
resolve_all placeholders vault folder (token ∷ used) resolved =
    resolve_token placeholders vault folder token >>= λ value.
    resolve_all placeholders vault folder used (insert token value resolved)

-- One token after the other.
unfoldable pub replace_tokens : HashMap Text Text → Text → Text
replace_tokens [] s = s
replace_tokens ((token, value) ∷ resolved) s = replace_tokens resolved (replace_at token value 0 s)

abbrev pub replace_in_headers : HashMap Text Text → List Header → List Header
replace_in_headers resolved [] = []
replace_in_headers resolved ((k, v) ∷ hs) =
    (k, replace_tokens resolved v) ∷ replace_in_headers resolved hs

abbrev pub content_type : List Header → Text
content_type [] = []
content_type ((k, v) ∷ hs) =
    let rest = content_type hs in if eq_ignore_ascii_case k (codes "content-type") then v else rest

-- TEXTUAL_PREFIXES
abbrev pub textual_prefixes : List Text
textual_prefixes =
    codes "application/json" ∷ codes "application/x-www-form-urlencoded" ∷ codes "text/" ∷ []

abbrev pub is_textual : List Header → Bool
is_textual headers = any (λ p. starts_with (content_type headers) p) textual_prefixes

abbrev pub replace_in_body :
    HashMap Text Text → ℕ → HttpRequest → Result SubstituteError HttpRequest
replace_in_body resolved body_limit_bytes req =
    if not (is_textual req.headers)
    then ok req
    else if ltb body_limit_bytes (length req.body)
    then ok req
    else if not (is_utf8 req.body)
    then err body_not_utf8
    else ok (record req { body = replace_tokens resolved req.body })

abbrev pub substitute_in : HttpRequest → ℕ → HashMap Text Text → Result SubstituteError HttpRequest
substitute_in req body_limit_bytes resolved =
    replace_in_body resolved body_limit_bytes (record req {
      path = replace_tokens resolved req.path;
      headers = replace_in_headers resolved req.headers;
    })

module _ (iterate : HashMap Text Text → HashMap Text Text) where
  abbrev pub substitute_used :
      HttpRequest
      → List TransparentPlaceholder
      → Vault
      → Text
      → ℕ
      → List Text
      → Result SubstituteError HttpRequest
  substitute_used req placeholders vault folder body_limit_bytes [] = ok req
  substitute_used req placeholders vault folder body_limit_bytes (token ∷ used) = do
    resolved ← resolve_all placeholders vault folder (token ∷ used) []
    substitute_in req body_limit_bytes (iterate resolved)

  unfoldable pub substitute :
      HttpRequest
      → List TransparentPlaceholder
      → Vault
      → Text
      → ℕ
      → Result SubstituteError HttpRequest
  substitute req placeholders vault folder body_limit_bytes =
      substitute_used req placeholders vault folder body_limit_bytes (find_placeholders req)

-- proxy/registry.rs: which tokens the configuration may declare.
unfoldable pub validate_placeholder_token : Text → Result Text (Unit {0})
validate_placeholder_token t =
    let inner = take (length t - 2 - 8) (drop 8 t) in
    do
      reject_if (not (starts_with t prefix) || not (ends_with t (codes "__")))
          (codes "token must match __vault.<name>__")
      reject_if (is_empty inner) (codes "token name is empty")
      reject_if (not (all (λ c. is_ascii_alphanumeric c || eqb c b'_' || eqb c b'-') inner))
          (codes "token name must match [A-Za-z0-9_-]+")
