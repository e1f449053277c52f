-- ===== src/CredCache.antt =====
-- cred_cache.rs: the cache of credentials. Instants and durations are numbers of nanoseconds.
pub mod Lifetime
pub mod Refinement
mod Examples
use vaultproxy.Prelude.{
  ℕ, suc, ◌+◌, Bool, true, false, ◌&&◌, Option, none, some, List, [], ◌∷◌, if◌then◌else◌, leb, ltb,
  eqb, HasEq, pair_eq, text_eq, Text, length,
}
use vaultproxy.HashMap.{HashMap, get, insert, remove, retain_map}

abbrev pub Key : Type 0
Key = Text × Text

pub record Entry : Type 0 where
  pub value : Text
  pub expires_at : ℕ

pub record CredCache : Type 0 where
  pub inner : HashMap Key Entry
  pub default_ttl : ℕ

unfoldable pub with_ttl : ℕ → CredCache
with_ttl default_ttl = record { inner = []; default_ttl = default_ttl }

-- `DashMap::remove_if`, given what the map holds at the key.
unfoldable pub remove_found :
    Key → (Entry → Bool) → HashMap Key Entry → Option Entry → HashMap Key Entry
remove_found key expired m none = m
remove_found key expired m (some entry) = if expired entry then remove key m else m

unfoldable pub remove_if : Key → (Entry → Bool) → HashMap Key Entry → HashMap Key Entry
remove_if key expired m = remove_found key expired m (get key m)

abbrev pub value_of : Option Entry → Option Text
value_of none = none
value_of (some entry) = some entry.value

-- `get`, at the instant that `remove_if` reads.
unfoldable pub get_cred : CredCache → Key → ℕ → CredCache × Option Text
get_cred cache key now =
    let inner = remove_if key (λ e. leb e.expires_at now) cache.inner in
    (record cache { inner = inner }, value_of (get key inner))

abbrev pub is_none : Option ℕ → Bool
is_none none = true
is_none (some ttl) = false

abbrev pub unwrap_or : Option ℕ → ℕ → ℕ
unwrap_or none d = d
unwrap_or (some ttl) d = ttl

unfoldable pub put : CredCache → Key → Text → Option ℕ → ℕ → CredCache
put cache key value ttl now =
    if eqb cache.default_ttl 0 && is_none ttl then cache else record cache {
      inner =
          insert key (record { value = value; expires_at = now + unwrap_or ttl cache.default_ttl })
            cache.inner;
    }

unfoldable pub purge_expired : CredCache → ℕ → CredCache
purge_expired cache now = record cache {
  inner = retain_map (λ k e. ltb now e.expires_at) cache.inner;
}

unfoldable pub len : CredCache → ℕ
len cache = length cache.inner
