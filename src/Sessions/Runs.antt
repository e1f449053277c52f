-- ===== src/Sessions/Runs.antt =====
-- Runs of the store of dashboard/auth.rs: operations in any order, and the logins among them.
use vaultproxy.Prelude.{
  ℕ, ◌+◌, ◌≡◌, ◌<◌, sym, ap, ◌∙◌, refl, Bool, true, Option, none, some, List, [], ◌∷◌, arith,
  text_eq, Text, Result, ok, err, ltb, inl, inr, ◌⊎◌, Option-cases,
}
use vaultproxy.HashMap.{HashMap, get, IsMap}
use vaultproxy.HashMap.Laws.{get-insert, get-remove, get-retain_map, keep_if}
use vaultproxy.Sessions.{
  SessionStore, Login, new, login, is_valid, cleanup_expired, evict, check_unlock_rate_limit,
  record_unlock_failure, reset_unlock_failures, check_config_write_rate, set_password, oldest,
}
use vaultproxy.Sessions.Granted.{login-ok, login-err}
use vaultproxy.Sessions.Expiry.{
  IsBounded, login-IsBounded, is_valid-IsBounded, cleanup_expired-IsBounded,
}

pub data Operation : Type 0 where
  log_in : Login → Operation
  validate : Text → ℕ → Operation
  clean_up : ℕ → Operation
  check_unlock : ℕ → Operation
  unlock_failed : ℕ → Operation
  unlock_succeeded : Operation
  check_write : ℕ → Operation
  change_password : Result Text Text → Result Text Unit → Operation

get-evict : (m : HashMap Text ℕ) (id : Text) (e : ℕ) → get id (evict m) ≡ some e → get id m ≡ some e
unfolding evict
get-evict m id e g = elim (Option-cases (oldest m)) [
  | inl absent ↦ ground arith
  | inr ((i, f), found) ↦ ground (arith, get-remove i id m)
]

get-is_valid :
    (s : SessionStore) (i id : Text) (t e : ℕ)
    → get id (is_valid s i t).0.sessions ≡ some e
    → get id s.sessions ≡ some e
unfolding is_valid
get-is_valid s i id t e g = ground (arith, get-remove i id s.sessions)

keep_if-some : (p : ℕ → Bool) (o : Option ℕ) (e : ℕ) → keep_if p o ≡ some e → o ≡ some e
keep_if-some p none e h = h
keep_if-some p (some f) e h = ground arith

get-cleanup_expired :
    (s : SessionStore) (id : Text) (t e : ℕ)
    → IsMap s.sessions
    → get id (cleanup_expired s t).sessions ≡ some e
    → get id s.sessions ≡ some e
unfolding cleanup_expired
get-cleanup_expired s id t e m g = ground (
  arith,
  get-retain_map (λ (i : Text) expiry. ltb t expiry) id s.sessions m,
  keep_if-some (ltb t) (get id s.sessions) e,
)

valid-get :
    (s : SessionStore) (id : Text) (t : ℕ)
    → (is_valid s id t).1 ≡ true
    → (e : ℕ) × (get id s.sessions ≡ some e) × (t < e)
unfolding is_valid
valid-get s id t h = elim (Option-cases (get id s.sessions)) [
  | inl absent ↦ cc
  | inr (e, found) ↦ (e, found, ground arith)
]

none-some : {e : ℕ} → ◌≡◌ {A = Option ℕ} none (some e) → ⊥
none-some h = cc

module _ (verify : Text → Text → Result Text Bool) where
  unfoldable pub step : SessionStore → Operation → SessionStore
  step s (log_in l) = (login verify s l).0
  step s (validate id t) = (is_valid s id t).0
  step s (clean_up t) = cleanup_expired s t
  step s (check_unlock t) = (check_unlock_rate_limit s t).0
  step s (unlock_failed t) = record_unlock_failure s t
  step s unlock_succeeded = reset_unlock_failures s
  step s (check_write t) = (check_config_write_rate s t).0
  step s (change_password hashed written) = (set_password s hashed written).0

  unfoldable pub run : SessionStore → List Operation → SessionStore
  run s [] = s
  run s (o ∷ os) = run (step s o) os

  set_password-IsBounded :
      (s : SessionStore) (hashed : Result Text Text) (written : Result Text Unit)
      → IsBounded s
      → IsBounded (set_password s hashed written).0
  unfolding set_password
  set_password-IsBounded s (err e) written b = b
  set_password-IsBounded s (ok h) (err e) b = b
  set_password-IsBounded s (ok h) (ok u) b = record { keyed = b.keyed; capped = b.capped }

  check_config_write_rate-IsBounded :
      (s : SessionStore) (t : ℕ) → IsBounded s → IsBounded (check_config_write_rate s t).0
  unfolding check_config_write_rate
  check_config_write_rate-IsBounded s t b = record {
    keyed = ground (arith, b.keyed);
    capped = ground (arith, b.capped);
  }

  step-IsBounded : (s : SessionStore) (o : Operation) → IsBounded s → IsBounded (step s o)
  unfolding step check_unlock_rate_limit record_unlock_failure reset_unlock_failures
  step-IsBounded s (log_in l) b = login-IsBounded verify s l b
  step-IsBounded s (validate id t) b = is_valid-IsBounded s id t b
  step-IsBounded s (clean_up t) b = cleanup_expired-IsBounded s t b
  step-IsBounded s (check_unlock t) b = record { keyed = b.keyed; capped = b.capped }
  step-IsBounded s (unlock_failed t) b = record { keyed = b.keyed; capped = b.capped }
  step-IsBounded s unlock_succeeded b = record { keyed = b.keyed; capped = b.capped }
  step-IsBounded s (check_write t) b = check_config_write_rate-IsBounded s t b
  step-IsBounded s (change_password hashed written) b = set_password-IsBounded s hashed written b

  run-IsBounded : (s : SessionStore) (os : List Operation) → IsBounded s → IsBounded (run s os)
  unfolding run
  run-IsBounded s [] b = b
  run-IsBounded s (o ∷ os) b = run-IsBounded (step s o) os (step-IsBounded s o b)

  -- Whatever operations are run on a new store, it holds each session id once and at most
  -- `max_sessions` of them.
  pub run-new-IsBounded : (hash : Option Text) (os : List Operation) → IsBounded (run (new hash) os)
  unfolding new
  run-new-IsBounded hash os =
      run-IsBounded (new hash) os (record { keyed = tt; capped = omega arith })

  -- The operation is a login that has granted the session, with its expiry.
  unfoldable pub Grants : SessionStore → Operation → Text → ℕ → Type 0
  Grants s (log_in l) id e = ((login verify s l).1 ≡ ok id) × (e ≡ l.timestamp + 86400)
  Grants s _ id e = ⊥

  -- One of the operations, run from the state on, has granted the session.
  unfoldable pub IsGranted : SessionStore → List Operation → Text → ℕ → Type 0
  IsGranted s [] id e = ⊥
  IsGranted s (o ∷ os) id e = Grants s o id e ⊎ IsGranted (step s o) os id e

  get-login :
      (s : SessionStore) (l : Login) (id : Text) (e : ℕ) (answer : Result Text Text)
      → (login verify s l).1 ≡ answer
      → get id (login verify s l).0.sessions ≡ some e
      → (get id s.sessions ≡ some e) ⊎ Grants s (log_in l) id e
  unfolding Grants
  get-login s l id e (err m) h g = inl (ap (λ m. get id m) (sym (login-err verify s l m h)) ∙ g)
  get-login s l id e (ok i) h g =
      let (accepted, same, sessions) = login-ok verify s l i h in
      let put =
        ap (λ m. get id m) sessions ∙ get-insert i id (l.timestamp + 86400) (evict s.sessions) in
      ground (arith, h, put, g, text_eq.same_iff i id, get-evict s.sessions id e)

  writes : (s : SessionStore) (t : ℕ) → (check_config_write_rate s t).0.sessions ≡ s.sessions
  unfolding check_config_write_rate
  writes s t = ground arith

  passwords :
      (s : SessionStore) (hashed : Result Text Text) (written : Result Text Unit)
      → (set_password s hashed written).0.sessions ≡ s.sessions
  unfolding set_password
  passwords s (err e) written = refl
  passwords s (ok h) (err e) = refl
  passwords s (ok h) (ok u) = refl

  get-step :
      (s : SessionStore) (o : Operation) (id : Text) (e : ℕ)
      → IsMap s.sessions
      → get id (step s o).sessions ≡ some e
      → (get id s.sessions ≡ some e) ⊎ Grants s o id e
  unfolding step check_unlock_rate_limit record_unlock_failure reset_unlock_failures
  get-step s (log_in l) id e m g = get-login s l id e (login verify s l).1 refl g
  get-step s (validate i t) id e m g = inl (get-is_valid s i id t e g)
  get-step s (clean_up t) id e m g = inl (get-cleanup_expired s id t e m g)
  get-step s (check_unlock t) id e m g = inl g
  get-step s (unlock_failed t) id e m g = inl g
  get-step s unlock_succeeded id e m g = inl g
  get-step s (check_write t) id e m g = inl (ap (λ k. get id k) (sym (writes s t)) ∙ g)
  get-step s (change_password hashed written) id e m g =
      inl (ap (λ k. get id k) (sym (passwords s hashed written)) ∙ g)

  get-run :
      (s : SessionStore) (os : List Operation) (id : Text) (e : ℕ)
      → IsBounded s
      → get id (run s os).sessions ≡ some e
      → (get id s.sessions ≡ some e) ⊎ IsGranted s os id e
  unfolding run IsGranted
  get-run s [] id e b g = inl g
  get-run s (o ∷ os) id e b g = elim (get-run (step s o) os id e (step-IsBounded s o b) g) [
    | inr later ↦ inr (inr later)
    | inl before ↦ elim (get-step s o id e b.keyed before) [
      | inl old ↦ inl old
      | inr granted ↦ inr (inl granted)
    ]
  ]

  -- After any operations on a new store, a session that is valid was granted by a login among them,
  -- and has not expired.
  pub valid-IsGranted :
      (hash : Option Text) (os : List Operation) (id : Text) (t : ℕ)
      → (is_valid (run (new hash) os) id t).1 ≡ true
      → (e : ℕ) × IsGranted (new hash) os id e × (t < e)
  unfolding new get
  valid-IsGranted hash os id t h =
      let (e, g, later) = valid-get (run (new hash) os) id t h in
      let b : IsBounded (new hash) = record { keyed = tt; capped = omega arith } in
      elim (get-run (new hash) os id e b g) [
        | inl old ↦ absurd (none-some old)
        | inr granted ↦ (e, granted, later)
      ]
