-- ===== src/Oauth/Lifetime.antt =====
-- How long the tokens of proxy/mod.rs are used, and for whom.
use vaultproxy.Prelude.{
  ℕ, ◌<◌, ◌≡◌, refl, sym, ap, ◌∙◌, ◌⊎◌, inl, inr, Bool, true, false, Option, none, some, List, [],
  ◌∷◌, if◌then◌else◌, ltb, ltb→lt, ◌==◌, text_eq, Text, Result, ok, err, ok-injective, Bool-cases,
  Option-cases,
}
use vaultproxy.Oauth.History.{HasFetched, IsFrom, run_cases, some-injective, none-some}
use vaultproxy.Oauth.Issued.{fetch-IsIssued}
use vaultproxy.HashMap.{get}
use vaultproxy.Oauth.{
  OauthError, Reply, Secrets, OauthTokens, Form, unexpired, cached, Call, keep, fetch, or_fetch,
  get_or_refresh_oauth_token, run,
}

module _ (secrets : Secrets) (post : ℕ → Text → Form → Reply) where
  -- The call has fetched the token itself, or an earlier call for its item has, the call forces no
  -- new one, and it comes before the instant until which the token is kept.
  abbrev pub IsFresh : List Call → Call → Text → Type 0
  IsFresh calls c token =
      (expires_at : ℕ) × (HasFetched secrets post (run secrets post [] calls) c token expires_at
        ⊎ (IsFrom secrets post [] calls c.vault_item token expires_at
            × (c.force_refresh ≡ false)
            × (c.now < expires_at)))

  unexpired_lem :
      (now : ℕ) (o : Option (Text × ℕ)) (token : Text)
      → unexpired now o ≡ some token
      → (expires_at : ℕ) × (o ≡ some (token, expires_at)) × (now < expires_at)
  unexpired_lem now none token h = cc
  unexpired_lem now (some (t, e)) token h = elim (Bool-cases (ltb now e)) [
    | inl early ↦
        let same = some-injective (sym (ap (λ b. if b then some t else none) early) ∙ h) in
        (e, ap (λ x. some (x, e)) same, ltb→lt now e early)
    | inr late ↦ absurd (none-some (sym (ap (λ b. if b then some t else none) late) ∙ h))
  ]

  cached_lem :
      (force : Bool) (now : ℕ) (item token : Text) (tokens : OauthTokens)
      → cached force now item tokens ≡ some token
      → (force ≡ false)
        × (expires_at : ℕ) × (get item tokens ≡ some (token, expires_at))
        × (now < expires_at)
  unfolding cached
  cached_lem true now item token tokens h = cc
  cached_lem false now item token tokens h =
      let (expires_at, there, early) = unexpired_lem now (get item tokens) token h in
      (refl, expires_at, there, early)

  keep_lem :
      (item token : Text) (tokens : OauthTokens) (r : Result OauthError (Text × ℕ))
      → (keep item tokens r).1 ≡ ok token
      → (expires_at : ℕ) × (r ≡ ok (token, expires_at))
  keep_lem item token tokens (err e) h = cc
  keep_lem item token tokens (ok (t, e)) h = (e, ap (λ x. ok (x, e)) (ok-injective h))

  -- After any calls on an empty cache, a token that a call answers with was fetched by this very
  -- call, or by one of the calls before it for the same item of the vault, which did not find a token
  -- in the cache; in that case the call does not force a new token, and comes before the instant until
  -- which the token is kept. Who has fetched it has posted the client of that item to its own endpoint,
  -- and the answer, with a status from 200 to 299, has the token; it is kept from the instant of that
  -- answer for the lifetime that it names, or five minutes, less one minute, or not at all if that is
  -- less.
  pub get_or_refresh_oauth_token-IsFresh :
      (calls : List Call) (c : Call) (token : Text)
      → (get_or_refresh_oauth_token secrets post (run secrets post [] calls) c).1 ≡ ok token
      → IsFresh calls c token
  unfolding get_or_refresh_oauth_token get
  get_or_refresh_oauth_token-IsFresh calls c token h =
      let tokens = run secrets post [] calls in
      elim (Option-cases (cached c.force_refresh c.now c.vault_item tokens)) [
        | inl missed ↦
            let (expires_at, fetched) =
              keep_lem c.vault_item token tokens (fetch secrets post c)
                (sym (ap (λ o. (or_fetch secrets post tokens c o).1) missed) ∙ h) in
            (
              expires_at,
              inl (missed, fetched, fetch-IsIssued secrets post c token expires_at fetched),
            )
        | inr (t, held) ↦
            let same =
              ok-injective (sym (ap (λ o. (or_fetch secrets post tokens c o).1) held) ∙ h) in
            let (unforced, expires_at, there, early) =
              cached_lem c.force_refresh c.now c.vault_item token tokens
                (held ∙ ap (λ x. some x) same) in
            elim (run_cases secrets post calls [] c.vault_item token expires_at there) [
              | inl from ↦ (expires_at, inr (from, unforced, early))
              | inr nothing ↦ absurd (none-some nothing)
            ]
      ]

  -- The call is for another item, or does not force a new token and comes before the instant.
  abbrev pub IsQuiet : Text → ℕ → Call → Type 0
  IsQuiet item expires_at c =
      ((c.vault_item == item) ≡ false) ⊎ ((c.force_refresh ≡ false) × (c.now < expires_at))

  abbrev pub AllQuiet : Text → ℕ → List Call → Type 0
  AllQuiet item expires_at [] = Unit
  AllQuiet item expires_at (c ∷ calls) = IsQuiet item expires_at c × AllQuiet item expires_at calls
