-- ===== src/Sessions/Concurrent.antt =====
-- Logins of dashboard/auth.rs whose first parts all run before the second part of any of them: the
-- lock of the failed attempts is released in between.
use vaultproxy.Prelude.{
  ℕ, ◌+◌, ◌≡◌, refl, Bool, false, some, List, [], ◌∷◌, ◌++◌, arith, Text, length, length-append,
  Result, ok, map, ap, ◌∙◌,
}
use vaultproxy.Window.{prune}
use vaultproxy.Sessions.{
  SessionStore, Login, login_check, after_check, login_finish, with_hash, conclude, load_hash,
  Checked,
}

-- The first parts, each with what it finds.
unfoldable pub check_all : SessionStore → List Login → SessionStore × List (Login × Checked)
check_all s [] = (s, [])
check_all s (l ∷ ls) =
    let (s1, checked) = login_check s l.now in
    let (s2, rest) = check_all s1 ls in (s2, (l, checked) ∷ rest)

module _ (verify : Text → Text → Result Text Bool) where
  unfoldable pub finish_all : SessionStore → List (Login × Checked) → SessionStore
  finish_all s [] = s
  finish_all s ((l, checked) ∷ ls) = finish_all (after_check verify s l checked).0 ls

  unfoldable pub login_all : SessionStore → List Login → SessionStore
  login_all s ls = let (s1, checks) = check_all s ls in finish_all s1 checks

  abbrev pub AllWrong : Text → List Login → Type 0
  AllWrong hash [] = Unit
  AllWrong hash (l ∷ ls) = (verify l.password hash ≡ ok false) × AllWrong hash ls

  -- A store with a password and the given failed attempts.
  abbrev pub store : SessionStore → Text → List ℕ → SessionStore
  store s hash attempts = record s { hash = some hash; failed_attempts = attempts }

  check_all-store :
      (s : SessionStore) (hash : Text) (ls : List Login)
      → check_all (store s hash []) ls ≡ (store s hash [], map (λ l. (l, ok tt)) ls)
  unfolding check_all login_check prune
  check_all-store s hash [] = refl
  check_all-store s hash (l ∷ ls) = ap (λ r. (r.0, (l, ok tt) ∷ r.1)) (check_all-store s hash ls)

  after_check-store :
      (s : SessionStore) (hash : Text) (attempts : List ℕ) (l : Login)
      → verify l.password hash ≡ ok false
      → (after_check verify (store s hash attempts) l (ok tt)).0
        ≡ store s hash (attempts ++ l.failed_at ∷ [])
  unfolding after_check login_finish with_hash load_hash conclude
  after_check-store s hash attempts l w =
      ap (λ answer. (conclude verify (store s hash attempts) l answer).0) w

  finish_all-store :
      (s : SessionStore) (hash : Text) (attempts : List ℕ) (ls : List Login)
      → AllWrong hash ls
      → length (finish_all (store s hash attempts) (map (λ l. (l, ok tt)) ls)).failed_attempts
        ≡ length attempts + length ls
  unfolding finish_all
  finish_all-store s hash attempts [] w = omega arith
  finish_all-store s hash attempts (l ∷ ls) (w, ws) =
      let rest = finish_all-store s hash (attempts ++ l.failed_at ∷ []) ls ws in
      let more = length-append attempts (l.failed_at ∷ []) in
      ap (λ t. length (finish_all t (map (λ k. (k, ok tt)) ls)).failed_attempts)
        (after_check-store s hash attempts l w)
      ∙ omega (arith, rest, more)

  -- On a store with a password and no failed attempt, logins that are all checked before any of
  -- them has tried its password all try it: as many attempts fail as there are logins.
  pub login_all_wrong :
      (s : SessionStore) (hash : Text) (ls : List Login)
      → AllWrong hash ls
      → length (login_all (store s hash []) ls).failed_attempts ≡ length ls
  unfolding login_all
  login_all_wrong s hash ls w =
      ap (λ r. length (finish_all r.0 r.1).failed_attempts) (check_all-store s hash ls)
      ∙ omega (arith, finish_all-store s hash [] ls w)
