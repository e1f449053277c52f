-- ===== src/Sessions/Granted.antt =====
-- What a login of dashboard/auth.rs that succeeds has checked, and how long its session is valid.
use vaultproxy.Prelude.{
  ℕ, ◌+◌, ◌≤◌, ◌≡◌, ◌≢◌, refl, Bool, true, false, Option, none, some, arith, if◌then◌else◌, ltb,
  ==_refl, text_eq, Text, length, Result, ok, err, inl, inr, ◌⊎◌, Option-cases, ap, sym, ◌∙◌,
}
use vaultproxy.HashMap.{HashMap, get, insert, IsMap}
use vaultproxy.HashMap.Laws.{get-insert, get-remove}
use vaultproxy.Sessions.{
  SessionStore, Login, login, create_session, is_valid, evict, login_check, after_check,
  login_finish, with_hash, conclude, load_hash, or_disk, Checked, max_sessions, oldest,
}
use vaultproxy.Sessions.Expiry.{oldest-get, oldest-le}

module _ (verify : Text → Text → Result Text Bool) where
  -- The stored hash accepts the password.
  abbrev pub IsAccepted : Login → Option Text → Type 0
  IsAccepted l none = ⊥
  IsAccepted l (some hash) = verify l.password hash ≡ ok true

  conclude-ok :
      (s : SessionStore) (l : Login) (answer : Result Text Bool) (id : Text)
      → (conclude verify s l answer).1 ≡ ok id
      → (answer ≡ ok true)
        × (id ≡ l.session_id)
        × ((conclude verify s l answer).0 ≡ create_session s l.session_id l.timestamp)
  unfolding conclude
  conclude-ok s l (err e) id h = cc
  conclude-ok s l (ok false) id h = cc
  conclude-ok s l (ok true) id h = (refl, cc, refl)

  with_hash-ok :
      (s : SessionStore) (l : Login) (hash : Option Text) (id : Text)
      → (with_hash verify s l hash).1 ≡ ok id
      → IsAccepted l hash
        × (id ≡ l.session_id)
        × ((with_hash verify s l hash).0 ≡ create_session s l.session_id l.timestamp)
  unfolding with_hash
  with_hash-ok s l none id h = cc
  with_hash-ok s l (some hash) id h = conclude-ok s l (verify l.password hash) id h

  after_check-ok :
      (s : SessionStore) (l : Login) (checked : Checked) (id : Text)
      → (after_check verify s l checked).1 ≡ ok id
      → IsAccepted l (or_disk s.hash l.on_disk)
        × (id ≡ l.session_id)
        × ((after_check verify s l checked).0
            ≡ create_session (load_hash s l.on_disk) l.session_id l.timestamp)
  unfolding after_check login_finish load_hash
  after_check-ok s l (err e) id h = cc
  after_check-ok s l (ok u) id h =
      with_hash-ok (load_hash s l.on_disk) l (load_hash s l.on_disk).hash id h

  conclude-err :
      (s : SessionStore) (l : Login) (answer : Result Text Bool) (e : Text)
      → (conclude verify s l answer).1 ≡ err e
      → (conclude verify s l answer).0.sessions ≡ s.sessions
  unfolding conclude
  conclude-err s l (err m) e h = refl
  conclude-err s l (ok false) e h = refl
  conclude-err s l (ok true) e h = cc

  with_hash-err :
      (s : SessionStore) (l : Login) (hash : Option Text) (e : Text)
      → (with_hash verify s l hash).1 ≡ err e
      → (with_hash verify s l hash).0.sessions ≡ s.sessions
  unfolding with_hash
  with_hash-err s l none e h = refl
  with_hash-err s l (some hash) e h = conclude-err s l (verify l.password hash) e h

  after_check-err :
      (s : SessionStore) (l : Login) (checked : Checked) (e : Text)
      → (after_check verify s l checked).1 ≡ err e
      → (after_check verify s l checked).0.sessions ≡ s.sessions
  unfolding after_check login_finish load_hash
  after_check-err s l (err m) e h = refl
  after_check-err s l (ok u) e h =
      with_hash-err (load_hash s l.on_disk) l (load_hash s l.on_disk).hash e h

  pub login-err :
      (s : SessionStore) (l : Login) (e : Text)
      → (login verify s l).1 ≡ err e
      → (login verify s l).0.sessions ≡ s.sessions
  unfolding login login_check
  login-err s l e h = after_check-err (login_check s l.now).0 l (login_check s l.now).1 e h

  pub login-ok :
      (s : SessionStore) (l : Login) (id : Text)
      → (login verify s l).1 ≡ ok id
      → IsAccepted l (or_disk s.hash l.on_disk)
        × (id ≡ l.session_id)
        × ((login verify s l).0.sessions ≡ insert id (l.timestamp + 86400) (evict s.sessions))
  unfolding login login_check
  login-ok s l id h =
      let (accepted, same, state) =
        after_check-ok (login_check s l.now).0 l (login_check s l.now).1 id h in
      (
        accepted,
        same,
        unfold create_session load_hash in
            (ap (λ t. t.sessions) state
              ∙ ap (λ i. insert i (l.timestamp + 86400) (evict s.sessions)) (sym same)),
      )

pub is_valid-get :
    (s : SessionStore) (id : Text) (t e : ℕ)
    → get id s.sessions ≡ some e
    → (is_valid s id t).1 ≡ ltb t e
unfolding is_valid
is_valid-get s id t e g = ground arith

-- The other sessions, when there is room, or without the one that is evicted.
pub evict-get :
    (m : HashMap Text ℕ) (other : Text) (e : ℕ)
    → IsMap m
    → get other m ≡ some e
    → (get other (evict m) ≡ some e)
      ⊎ ((max_sessions ≤ length m) × ((id : Text) (f : ℕ) → get id m ≡ some f → e ≤ f))
unfolding evict
evict-get m other e h g = elim (Option-cases (oldest m)) [
  | inl absent ↦ ground arith
  | inr ((id, f), found) ↦
      let least = λ (i : Text) (x : ℕ). oldest-le m (id, f) i x found in
      ground (
        arith,
        get-remove id other m,
        oldest-get m (id, f) h found,
        least,
        text_eq.same_iff id other,
      )
]

module _ (verify : Text → Text → Result Text Bool) where
  -- A login that succeeds was accepted by bcrypt for the stored hash; its session is valid until 24
  -- hours after it and not longer.
  pub login-is_valid :
      (s : SessionStore) (l : Login) (id : Text)
      → (login verify s l).1 ≡ ok id
      → IsAccepted verify l (or_disk s.hash l.on_disk)
        × ((t : ℕ) → (is_valid (login verify s l).0 id t).1 ≡ ltb t (l.timestamp + 86400))
  login-is_valid s l id h =
      let (accepted, same, sessions) = login-ok verify s l id h in
      (
        accepted,
        λ t. is_valid-get (login verify s l).0 id t (l.timestamp + 86400) (
            ap (λ m. get id m) sessions
            ∙ get-insert id id (l.timestamp + 86400) (evict s.sessions)
            ∙ ap (λ b. if b then some (l.timestamp + 86400) else get id (evict s.sessions))
                (==_refl id)),
      )

  -- A login takes away no other session, except, when there are `max_sessions`, one that does not
  -- expire later than any of them.
  pub login_others :
      (s : SessionStore) (l : Login) (id other : Text) (e : ℕ)
      → IsMap s.sessions
      → (login verify s l).1 ≡ ok id
      → id ≢ other
      → get other s.sessions ≡ some e
      → (get other (login verify s l).0.sessions ≡ some e)
        ⊎ ((max_sessions ≤ length s.sessions)
            × ((any : Text) (f : ℕ) → get any s.sessions ≡ some f → e ≤ f))
  login_others s l id other e m h n g =
      let (accepted, same, sessions) = login-ok verify s l id h in
      let put =
        ap (λ t. get other t) sessions
        ∙ get-insert id other (l.timestamp + 86400) (evict s.sessions) in
      let kept = evict-get s.sessions other e m g in
      ground (arith, put, kept, text_eq.same_iff id other)
