-- ===== src/CredCache/Refinement.antt =====
-- The cache of cred_cache.rs against a store that never removes anything: what a lookup answers
-- depends on what was put, not on when old entries were taken out.
use vaultproxy.Prelude.{
  ℕ, ◌+◌, ◌≤◌, ◌≡◌, refl, ap, ◌∙◌, ◌&&◌, Option, none, some, List, [], ◌∷◌, arith, if◌then◌else◌,
  ltb, eqb, ◌==◌, pair_eq, text_eq, Bool-cases, inl, inr,
}
use vaultproxy.HashMap.{HashMap, get, insert, IsMap}
use vaultproxy.HashMap.Laws.{get-insert, get-retain_map}
use vaultproxy.CredCache.{
  Key, Entry, CredCache, with_ttl, get_cred, remove_if, is_none, unwrap_or, put, purge_expired,
}
use vaultproxy.CredCache.Lifetime.{
  Operation, get_at, put_at, purge_at, step, run, fresh, get_cred-fresh, remove_found-later,
  keep_if-fresh, step-IsMap,
}

-- The abstract store: the last entry of each key.
abbrev pub Store : Type 0
Store = Key → Option Entry

abbrev pub update : Key → Entry → Store → Store
update key entry store k = if key == k then some entry else store k

-- Lookups and purges do nothing to it. A credential is put unless caching is off.
unfoldable pub replay_step : ℕ → Store → Operation → Store
replay_step default_ttl store (get_at key now) k = store k
replay_step default_ttl store (purge_at now) k = store k
replay_step default_ttl store (put_at key value ttl now) k =
    if eqb default_ttl 0 && is_none ttl
    then store k
    else update key (record { value = value; expires_at = now + unwrap_or ttl default_ttl }) store k

unfoldable pub replay : ℕ → Store → List Operation → Store
replay default_ttl store [] = store
replay default_ttl store (o ∷ os) = replay default_ttl (replay_step default_ttl store o) os

abbrev pub time_of : Operation → ℕ
time_of (get_at key now) = now
time_of (put_at key value ttl now) = now
time_of (purge_at now) = now

abbrev pub AllUntil : ℕ → List Operation → Type 0
AllUntil until [] = Unit
AllUntil until (o ∷ os) = (time_of o ≤ until) × AllUntil until os

-- A lookup at the instant sees the same in both.
abbrev pub Agrees : ℕ → CredCache → Store → Type 0
Agrees until cache store = (key : Key) → fresh until (get key cache.inner) ≡ fresh until (store key)

step-default_ttl :
    (cache : CredCache) (o : Operation) → (step cache o).default_ttl ≡ cache.default_ttl
unfolding step get_cred put purge_expired
step-default_ttl cache (get_at key now) = refl
step-default_ttl cache (put_at key value ttl now) = ground arith
step-default_ttl cache (purge_at now) = refl

update-Agrees :
    (until : ℕ) (m : HashMap Key Entry) (store : Store) (key k : Key) (entry : Entry)
    → fresh until (get k m) ≡ fresh until (store k)
    → fresh until (get k (insert key entry m)) ≡ fresh until (update key entry store k)
update-Agrees until m store key k entry h = elim (Bool-cases (key == k)) [
  | inl same ↦ rw (get-insert key k entry m, same) refl
  | inr other ↦ rw (get-insert key k entry m, other) h
]

step-Agrees :
    (until : ℕ) (cache : CredCache) (store : Store) (o : Operation)
    → IsMap cache.inner
    → time_of o ≤ until
    → Agrees until cache store
    → Agrees until (step cache o) (replay_step cache.default_ttl store o)
unfolding step get_cred remove_if put purge_expired replay_step
step-Agrees until cache store (get_at key now) m le a k =
    remove_found-later key cache.inner now until k (get key cache.inner) refl le ∙ a k
step-Agrees until cache store (purge_at now) m le a k =
    ap (fresh until) (get-retain_map (λ (k : Key) e. ltb now e.expires_at) k cache.inner m)
    ∙ keep_if-fresh now until (get k cache.inner) le
    ∙ a k
step-Agrees until cache store (put_at key value ttl now) m le a k =
    elim (Bool-cases (eqb cache.default_ttl 0 && is_none ttl)) [
      | inl off ↦ rw off (a k)
      | inr on ↦ rw on (
          update-Agrees until cache.inner store key k
            (record { value = value; expires_at = now + unwrap_or ttl cache.default_ttl }) (a k))
    ]

run-Agrees :
    (until : ℕ) (cache : CredCache) (store : Store) (os : List Operation)
    → IsMap cache.inner
    → AllUntil until os
    → Agrees until cache store
    → Agrees until (run cache os) (replay cache.default_ttl store os)
unfolding run replay
run-Agrees until cache store [] m le a key = a key
run-Agrees until cache store (o ∷ os) m (le, les) a key =
    run-Agrees until (step cache o) (replay_step cache.default_ttl store o) os
      (step-IsMap cache o m) les (step-Agrees until cache store o m le a) key
    ∙ ap (λ d. fresh until (replay d (replay_step cache.default_ttl store o) os key))
        (step-default_ttl cache o)

-- The cache implements the store: after any operations that are no later than a lookup, the lookup
-- answers with the entry that was last put under its key, if its lifetime has not passed, whatever
-- lookups and purges have taken out of the map before.
pub get_cred-replay :
    (default_ttl : ℕ) (os : List Operation) (key : Key) (until : ℕ)
    → AllUntil until os
    → (get_cred (run (with_ttl default_ttl) os) key until).1
      ≡ fresh until (replay default_ttl (λ k. none) os key)
unfolding with_ttl get
get_cred-replay default_ttl os key until le =
    get_cred-fresh (run (with_ttl default_ttl) os) key until
    ∙ run-Agrees until (with_ttl default_ttl) (λ k. none) os tt le (λ k. refl) key
