-- ===== src/Transparent/Placeholder/Resolution.antt =====
-- When proxy/transparent/inject_placeholder.rs lets a request through.
use mathlib.Core.Path.{subst}
use vaultproxy.Prelude.{
  Result-cases, ℕ, ◌≡◌, sym, ap, ◌∙◌, Option, none, some, List, [], ◌∷◌, text_eq, pair_eq, Text, ok,
  err, >>=-eq-ok, ok_or, inl, inr,
}
use vaultproxy.HashMap.{HashMap, get, insert}
use vaultproxy.Transparent.Inject.{Vault, test_item_password}
use vaultproxy.Transparent.Mitm.{HttpRequest}
use vaultproxy.Transparent.Placeholder.{
  TransparentPlaceholder, SubstituteError, unresolved, not_in_vault, find_placeholder,
  resolve_token, resolve_all, find_placeholders, substitute_used, substitute_in, substitute,
}

get_empty : (k : Text × Text) (v : Text) → get {V = Text} k [] ≡ some v → ⊥
unfolding get
get_empty k v h = cc

module _ (placeholders : List TransparentPlaceholder) (vault : Vault) (folder : Text) where
  -- The token is declared, and the map of the seeded passwords has its item.
  abbrev pub IsResolved : Text → Type 0
  IsResolved token =
      (cfg : TransparentPlaceholder) × (value : Text) × (find_placeholder token placeholders
        ≡ some cfg)
      × (test_item_password vault folder cfg.vault_item ≡ some value)

  abbrev pub AllResolved : List Text → Type 0
  AllResolved [] = Unit
  AllResolved (token ∷ tokens) = IsResolved token × AllResolved tokens

  ok_or-some :
      {A : Type 0} (o : Option A) (e : SubstituteError) (a : A) → ok_or o e ≡ ok a → o ≡ some a
  ok_or-some none e a h = cc
  ok_or-some (some x) e a h = cc

  resolve_token-IsResolved :
      (token value : Text)
      → resolve_token placeholders vault folder token ≡ ok value
      → IsResolved token
  resolve_token-IsResolved token value h =
      let (cfg, declared, rest) =
        >>=-eq-ok (ok_or (find_placeholder token placeholders) (unresolved token))
          (λ cfg.
            ok_or (test_item_password vault folder cfg.vault_item)
              (not_in_vault token cfg.vault_item))
          h in
      (
        cfg,
        value,
        ok_or-some (find_placeholder token placeholders) (unresolved token) cfg declared,
        ok_or-some (test_item_password vault folder cfg.vault_item)
            (not_in_vault token cfg.vault_item) value rest,
      )

  resolve_all-AllResolved :
      (tokens : List Text) (resolved out : HashMap Text Text)
      → resolve_all placeholders vault folder tokens resolved ≡ ok out
      → AllResolved tokens
  unfolding resolve_all
  resolve_all-AllResolved [] resolved out h = tt
  resolve_all-AllResolved (token ∷ tokens) resolved out h =
      let (value, first, others) =
        >>=-eq-ok (resolve_token placeholders vault folder token)
          (λ value. resolve_all placeholders vault folder tokens (insert token value resolved)) h in
      (
        resolve_token-IsResolved token value first,
        resolve_all-AllResolved tokens (insert token value resolved) out others,
      )

  module _ (iterate : HashMap Text Text → HashMap Text Text) where
    substitute_used-AllResolved :
        (req out : HttpRequest) (limit : ℕ) (tokens : List Text)
        → substitute_used iterate req placeholders vault folder limit tokens ≡ ok out
        → AllResolved tokens
    substitute_used-AllResolved req out limit [] h = tt
    substitute_used-AllResolved req out limit (token ∷ tokens) h =
        let (resolved, first, others) =
          >>=-eq-ok (resolve_all placeholders vault folder (token ∷ tokens) [])
            (λ m. substitute_in req limit (iterate m)) h in
        resolve_all-AllResolved (token ∷ tokens) [] resolved first

    -- A request goes on only if every token that occurs in it is declared and has a seeded password.
    pub substitute-AllResolved :
        (req out : HttpRequest) (limit : ℕ)
        → substitute iterate req placeholders vault folder limit ≡ ok out
        → AllResolved (find_placeholders req)
    unfolding substitute
    substitute-AllResolved req out limit h =
        substitute_used-AllResolved req out limit (find_placeholders req) h

    -- Without seeded passwords a request with a token does not go on, whatever is declared and
    -- whatever the vault holds.
    pub substitute_unseeded :
        (req : HttpRequest) (limit : ℕ) (token : Text) (tokens : List Text)
        → vault.test_passwords ≡ []
        → find_placeholders req ≡ token ∷ tokens
        → (e : SubstituteError) × (substitute iterate req placeholders vault folder limit ≡ err e)
    unfolding substitute
    substitute_unseeded req limit token tokens empty used =
        elim (Result-cases (substitute iterate req placeholders vault folder limit)) [
          | inl (out, passed) ↦
              let ((cfg, value, declared, held), others) =
                subst AllResolved used (substitute-AllResolved req out limit passed) in
              absurd (
                get_empty (folder, cfg.vault_item) value
                  (ap (get (folder, cfg.vault_item)) (sym empty) ∙ held))
          | inr failed ↦ failed
        ]
