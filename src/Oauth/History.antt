-- ===== src/Oauth/History.antt =====
-- Which call has put a token into the cache of proxy/mod.rs.
use vaultproxy.Prelude.{
  ℕ, ◌≡◌, refl, sym, ap, ◌∙◌, ◌⊎◌, inl, inr, true, Option, none, some, List, [], ◌∷◌, if◌then◌else◌,
  ◌==◌, ◌++◌, text_eq, Text, ok, Result-cases, Bool-cases, Option-cases,
}
use vaultproxy.Oauth.Issued.{IsIssued, fetch-IsIssued}
use vaultproxy.HashMap.{get, insert}
use vaultproxy.HashMap.Laws.{get-insert}
use vaultproxy.Oauth.{
  Reply, Secrets, OauthTokens, Form, cached, Call, keep, fetch, or_fetch,
  get_or_refresh_oauth_token, run,
}

pub some-injective : {A : Type 0} {a b : A} → ◌≡◌ {A = Option A} (some a) (some b) → a ≡ b
some-injective h = cc

pub none-some : {A : Type 0} {a : A} → ◌≡◌ {A = Option A} none (some a) → ⊥
none-some h = cc

pub same_text : (a b : Text) → (a == b) ≡ true → a ≡ b
same_text a b h = (text_eq.same_iff a b).0 h

module _ (secrets : Secrets) (post : ℕ → Text → Form → Reply) where
  -- The call did not find a token in the cache, and has fetched this one.
  abbrev pub HasFetched : OauthTokens → Call → Text → ℕ → Type 0
  HasFetched tokens c token expires_at =
      (cached c.force_refresh c.now c.vault_item tokens ≡ none)
      × (fetch secrets post c ≡ ok (token, expires_at))
      × IsIssued secrets post c token expires_at

  -- One of the calls, for this item, has fetched the token.
  abbrev pub IsFrom : OauthTokens → List Call → Text → Text → ℕ → Type 0
  IsFrom tokens calls item token expires_at =
      (before after : List Call) × (d : Call) × (calls ≡ before ++ d ∷ after)
      × (d.vault_item ≡ item)
      × HasFetched (run secrets post tokens before) d token expires_at

  abbrev pub Gets : OauthTokens → Text → Text → ℕ → Type 0
  Gets tokens item token expires_at = get item tokens ≡ some (token, expires_at)

  insert_cases :
      (tokens : OauthTokens) (c : Call) (t : Text) (e : ℕ) (item token : Text) (expires_at : ℕ)
      → cached c.force_refresh c.now c.vault_item tokens ≡ none
      → fetch secrets post c ≡ ok (t, e)
      → Gets (insert c.vault_item (t, e) tokens) item token expires_at
      → ((c.vault_item ≡ item) × HasFetched tokens c token expires_at)
        ⊎ Gets tokens item token expires_at
  insert_cases tokens c t e item token expires_at missed fetched h =
      elim (Bool-cases (c.vault_item == item)) [
        | inl same ↦
            let pair = some-injective (
              sym (ap (λ b. if b then some (t, e) else get item tokens) same)
              ∙ sym (get-insert c.vault_item item (t, e) tokens)
              ∙ h) in
            let now = fetched ∙ ap (λ (p : Text × ℕ). ok p) pair in
            inl (
              same_text c.vault_item item same,
              (missed, now, fetch-IsIssued secrets post c token expires_at now),
            )
        | inr other ↦ inr (
            sym (ap (λ b. if b then some (t, e) else get item tokens) other)
            ∙ sym (get-insert c.vault_item item (t, e) tokens)
            ∙ h)
      ]

  -- What a call leaves in the cache was there, or is what it has fetched for its item.
  step_cases :
      (tokens : OauthTokens) (c : Call) (item token : Text) (expires_at : ℕ)
      → Gets (get_or_refresh_oauth_token secrets post tokens c).0 item token expires_at
      → ((c.vault_item ≡ item) × HasFetched tokens c token expires_at)
        ⊎ Gets tokens item token expires_at
  unfolding get_or_refresh_oauth_token
  step_cases tokens c item token expires_at h =
      elim (Option-cases (cached c.force_refresh c.now c.vault_item tokens)) [
        | inl missed ↦
            let kept = sym (ap (λ o. get item (or_fetch secrets post tokens c o).0) missed) ∙ h in
            elim (Result-cases (fetch secrets post c)) [
              | inl ((t, e), fetched) ↦
                  insert_cases tokens c t e item token expires_at missed fetched
                    (sym (ap (λ r. get item (keep c.vault_item tokens r).0) fetched) ∙ kept)
              | inr (e, failed) ↦
                  inr (sym (ap (λ r. get item (keep c.vault_item tokens r).0) failed) ∙ kept)
            ]
        | inr (t, found) ↦
            inr (sym (ap (λ o. get item (or_fetch secrets post tokens c o).0) found) ∙ h)
      ]

  pub run_cases :
      (calls : List Call) (tokens : OauthTokens) (item token : Text) (expires_at : ℕ)
      → Gets (run secrets post tokens calls) item token expires_at
      → IsFrom tokens calls item token expires_at ⊎ Gets tokens item token expires_at
  unfolding run
  run_cases [] tokens item token expires_at h = inr h
  run_cases (c ∷ calls) tokens item token expires_at h =
      let next = (get_or_refresh_oauth_token secrets post tokens c).0 in
      elim (run_cases calls next item token expires_at h) [
        | inl (before, after, d, split, same, fetched) ↦
            inl (c ∷ before, after, d, ap (λ l. c ∷ l) split, same, fetched)
        | inr there ↦ elim (step_cases tokens c item token expires_at there) [
          | inl (same, fetched) ↦ inl ([], calls, c, refl, same, fetched)
          | inr held ↦ inr held
        ]
      ]
