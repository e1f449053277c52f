-- ===== src/Oauth/Issued.antt =====
-- Where the tokens of proxy/mod.rs come from.
use vaultproxy.Prelude.{
  ℕ, ◌+◌, ◌-◌, ◌<◌, ◌≡◌, refl, sym, ap, ◌∙◌, ◌^◌, Bool, true, false, not, ◌&&◌, Option, none, some,
  ltb, leb, ◌≤◌, arith, text_eq, Text, ok, ◌>>=◌, ◌>>◌, >>=-eq-ok, >>-eq-ok, ok-injective,
  reject_if, ok_or,
}
use vaultproxy.Oauth.{
  OauthError, Reply, no_reply, no_json, json, Secrets, oauth_refresh_margin, Form, ttl_of,
  token_from, Call, fetch, client_of, form_of, missing_access_token, refused_by_endpoint,
  instant_overflow, secs,
}

accepted : (b : Bool) (e : OauthError) → reject_if (not b) e ≡ ok tt → b ≡ true
accepted true e h = refl
accepted false e h = cc

in_range :
    (status : ℕ) → (leb 200 status && ltb status 300) ≡ true → (200 ≤ status) × (status < 300)
in_range status h = ground arith

module _ (secrets : Secrets) (post : ℕ → Text → Form → Reply) where
  -- The endpoint of the call has answered it with success and the token, and the token is kept until
  -- a minute before the end that the answer gives.
  abbrev pub IsIssued : Call → Text → ℕ → Type 0
  IsIssued c token expires_at =
      (client : Text × Text) × (status : ℕ) × (expires_in : Option ℕ) × (client_of secrets
          c.vault_item c.client_id_field c.client_secret_field
        ≡ ok client)
      × (post c.later c.token_url (form_of client c.scope) ≡ json status (some token) expires_in)
      × (200 ≤ status)
      × (status < 300)
      × (expires_at ≡ c.later + (ttl_of expires_in - oauth_refresh_margin))

  ok_or-some : {A : Type 0} (o : Option A) (e : OauthError) (a : A) → ok_or o e ≡ ok a → o ≡ some a
  ok_or-some none e a h = cc
  ok_or-some (some x) e a h = cc

  token_from_lem :
      (later : ℕ) (r : Reply) (token : Text) (expires_at : ℕ)
      → token_from later r ≡ ok (token, expires_at)
      → (status : ℕ) × (expires_in : Option ℕ) × (r ≡ json status (some token) expires_in)
        × (200 ≤ status)
        × (status < 300)
        × (expires_at ≡ later + (ttl_of expires_in - oauth_refresh_margin))
  unfolding token_from
  token_from_lem later no_reply token expires_at h = cc
  token_from_lem later no_json token expires_at h = cc
  token_from_lem later (json status access_token expires_in) token expires_at h =
      let until = later + (ttl_of expires_in - oauth_refresh_margin) in
      let (good, rest) =
        >>-eq-ok (reject_if (not (leb 200 status && ltb status 300)) (refused_by_endpoint status))
          (ok_or access_token missing_access_token >>= λ t.
            reject_if (leb (secs (2 ^ 63)) until) instant_overflow >> ok (t, until))
          h in
      let (t, given, kept) =
        >>=-eq-ok (ok_or access_token missing_access_token)
          (λ t. reject_if (leb (secs (2 ^ 63)) until) instant_overflow >> ok (t, until)) rest in
      let (fits, same) =
        >>-eq-ok (reject_if (leb (secs (2 ^ 63)) until) instant_overflow) (ok (t, until)) kept in
      let pair = ok-injective same in
      let (low, high) = in_range status (accepted _ (refused_by_endpoint status) good) in
      (
        status,
        expires_in,
        ap (λ o. json status o expires_in)
            (ok_or-some access_token missing_access_token t given
              ∙ ap (λ (x : Text × ℕ). some x.0) pair),
        low,
        high,
        sym (ap (λ (x : Text × ℕ). x.1) pair),
      )

  pub fetch-IsIssued :
      (c : Call) (token : Text) (expires_at : ℕ)
      → fetch secrets post c ≡ ok (token, expires_at)
      → IsIssued c token expires_at
  unfolding fetch
  fetch-IsIssued c token expires_at h =
      let (client, found, rest) =
        >>=-eq-ok (client_of secrets c.vault_item c.client_id_field c.client_secret_field)
          (λ client. token_from c.later (post c.later c.token_url (form_of client c.scope))) h in
      let (status, expires_in, reply, low, high, end) =
        token_from_lem c.later (post c.later c.token_url (form_of client c.scope)) token expires_at
          rest in
      (client, status, expires_in, found, reply, low, high, end)
