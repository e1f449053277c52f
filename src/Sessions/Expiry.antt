-- ===== src/Sessions/Expiry.antt =====
-- Sessions of dashboard/auth.rs: how many there are, and how long each is valid.
use vaultproxy.Prelude.{
  ℕ, ◌+◌, ◌≤◌, ◌<◌, ◌≡◌, refl, Bool, true, false, Option, none, some, [], ◌∷◌, arith, ltb, ==_refl,
  text_eq, Text, length, Result, ok, err, Option-cases, inl, inr,
}
use vaultproxy.HashMap.{HashMap, get, IsMap}
use vaultproxy.HashMap.Laws.{
  insert-IsMap, remove-IsMap, retain_map-IsMap, length-insert, length-remove, length-retain_map-le,
}
use vaultproxy.Sessions.{
  SessionStore, Login, max_sessions, oldest, evict, create_session, is_valid, cleanup_expired,
  login, login_check, login_finish, conclude, load_hash, with_hash, after_check, Checked,
}

-- The entry that is evicted is in the map, and none expires before it.
pub oldest-get :
    (m : HashMap Text ℕ) (p : Text × ℕ) → IsMap m → oldest m ≡ some p → get p.0 m ≡ some p.1
unfolding oldest get
oldest-get [] p h o = cc
oldest-get ((j, v) ∷ m) p h o = elim (Option-cases (oldest m)) [
  | inl absent ↦ ground (arith, ==_refl j)
  | inr (f, found) ↦ ground (arith, oldest-get m f h.1 found, text_eq.same_iff j f.0, ==_refl j)
]

get-oldest-none : (m : HashMap Text ℕ) (k : Text) → oldest m ≡ none → get k m ≡ none
unfolding oldest get
get-oldest-none [] k h = refl
get-oldest-none (e ∷ m) k h = cc

length-oldest-none : (m : HashMap Text ℕ) → oldest m ≡ none → length m ≡ 0
unfolding oldest
length-oldest-none [] h = refl
length-oldest-none (e ∷ m) h = cc

pub oldest-le :
    (m : HashMap Text ℕ) (p : Text × ℕ) (k : Text) (e : ℕ)
    → oldest m ≡ some p
    → get k m ≡ some e
    → p.1 ≤ e
unfolding oldest get
oldest-le [] p k e o g = cc
oldest-le ((j, v) ∷ m) p k e o g = elim (Option-cases (oldest m)) [
  | inl absent ↦ ground (arith, get-oldest-none m k absent)
  | inr (f, found) ↦ ground (arith, oldest-le m f k e found)
]

module _ (m : HashMap Text ℕ) (h : IsMap m) where
  evict-IsMap : IsMap (evict m)
  unfolding evict
  evict-IsMap = elim (Option-cases (oldest m)) [
    | inl absent ↦ ground arith
    | inr ((id, e), found) ↦ ground (arith, remove-IsMap id m h)
  ]

  length-evict : length m ≤ max_sessions → length (evict m) < max_sessions
  unfolding evict
  length-evict le = elim (Option-cases (oldest m)) [
    | inl absent ↦ ground (arith, length-oldest-none m absent)
    | inr ((id, e), found) ↦ ground (arith, length-remove id m h, oldest-get m (id, e) h found)
  ]

-- What holds of the sessions at all times.
pub record IsBounded (s : SessionStore) : Type 0 where
  pub keyed : IsMap s.sessions
  pub capped : length s.sessions ≤ max_sessions

pub create_session-IsBounded :
    (s : SessionStore) (id : Text) (timestamp : ℕ)
    → IsBounded s
    → IsBounded (create_session s id timestamp)
unfolding create_session
create_session-IsBounded s id timestamp b =
    let m = evict s.sessions in
    let less = length-evict s.sessions b.keyed b.capped in
    record {
      keyed = insert-IsMap id (timestamp + 86400) m (evict-IsMap s.sessions b.keyed);
      capped = ground (arith, length-insert id (timestamp + 86400) m);
    }

pub is_valid-IsBounded :
    (s : SessionStore) (id : Text) (timestamp : ℕ)
    → IsBounded s
    → IsBounded (is_valid s id timestamp).0
unfolding is_valid
is_valid-IsBounded s id timestamp b =
    ground (arith, remove-IsMap id s.sessions b.keyed, length-remove id s.sessions b.keyed)

pub cleanup_expired-IsBounded :
    (s : SessionStore) (now : ℕ) → IsBounded s → IsBounded (cleanup_expired s now)
unfolding cleanup_expired
cleanup_expired-IsBounded s now b = record {
  keyed = retain_map-IsMap (λ id expiry. ltb now expiry) s.sessions b.keyed;
  capped =
      omega
        (arith, length-retain_map-le (λ (id : Text) expiry. ltb now expiry) s.sessions, b.capped);
}

module _ (verify : Text → Text → Result Text Bool) where
  conclude-IsBounded :
      (s : SessionStore) (l : Login) (answer : Result Text Bool)
      → IsBounded s
      → IsBounded (conclude verify s l answer).0
  unfolding conclude
  conclude-IsBounded s l (err e) b = b
  conclude-IsBounded s l (ok false) b = record { keyed = b.keyed; capped = b.capped }
  conclude-IsBounded s l (ok true) b = create_session-IsBounded s l.session_id l.timestamp b

  with_hash-IsBounded :
      (s : SessionStore) (l : Login) (hash : Option Text)
      → IsBounded s
      → IsBounded (with_hash verify s l hash).0
  unfolding with_hash
  with_hash-IsBounded s l none b = b
  with_hash-IsBounded s l (some hash) b = conclude-IsBounded s l (verify l.password hash) b

  after_check-IsBounded :
      (s : SessionStore) (l : Login) (checked : Checked)
      → IsBounded s
      → IsBounded (after_check verify s l checked).0
  unfolding after_check login_finish load_hash
  after_check-IsBounded s l (err e) b = b
  after_check-IsBounded s l (ok u) b =
      with_hash-IsBounded (load_hash s l.on_disk) l (load_hash s l.on_disk).hash
        (record { keyed = b.keyed; capped = b.capped })

  pub login-IsBounded :
      (s : SessionStore) (l : Login) → IsBounded s → IsBounded (login verify s l).0
  unfolding login login_check
  login-IsBounded s l b =
      after_check-IsBounded (login_check s l.now).0 l (login_check s l.now).1
        (record { keyed = b.keyed; capped = b.capped })
