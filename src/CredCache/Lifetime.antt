-- ===== src/CredCache/Lifetime.antt =====
-- How long cred_cache.rs keeps a credential.
use vaultproxy.Prelude.{
  ℕ, ◌+◌, ◌≤◌, ◌≡◌, ◌≢◌, refl, sym, ap, ◌∙◌, Bool, true, ◌&&◌, Option, none, some, List, [], ◌∷◌,
  arith, if◌then◌else◌, leb, ltb, eqb, ◌==◌, ==_refl, pair_eq, text_eq, Text, Bool-cases, inl, inr,
}
use vaultproxy.HashMap.{HashMap, get, retain_map, IsMap}
use vaultproxy.HashMap.Laws.{
  get-insert, get-insert_distinct, get-remove, get-retain_map, keep_if, insert-IsMap, remove-IsMap,
  retain_map-IsMap,
}
use vaultproxy.CredCache.{
  Key, Entry, CredCache, with_ttl, remove_if, remove_found, value_of, get_cred, is_none, unwrap_or,
  put, purge_expired,
}

pub data Operation : Type 0 where
  get_at : Key → ℕ → Operation
  put_at : Key → Text → Option ℕ → ℕ → Operation
  purge_at : ℕ → Operation

unfoldable pub step : CredCache → Operation → CredCache
step cache (get_at key now) = (get_cred cache key now).0
step cache (put_at key value ttl now) = put cache key value ttl now
step cache (purge_at now) = purge_expired cache now

unfoldable pub run : CredCache → List Operation → CredCache
run cache [] = cache
run cache (o ∷ os) = run (step cache o) os

-- The operation does not put this key, and runs no later than `until`.
abbrev pub Spares : Key → ℕ → Operation → Type 0
Spares key until (get_at k now) = now ≤ until
Spares key until (put_at k value ttl now) = (k ≢ key) × (now ≤ until)
Spares key until (purge_at now) = now ≤ until

abbrev pub AllSpare : Key → ℕ → List Operation → Type 0
AllSpare key until [] = Unit
AllSpare key until (o ∷ os) = Spares key until o × AllSpare key until os

-- What a lookup at the instant `now` sees of an entry.
abbrev pub fresh : ℕ → Option Entry → Option Text
fresh now none = none
fresh now (some entry) = if ltb now entry.expires_at then some entry.value else none

module _ (key : Key) (m : HashMap Key Entry) where
  remove_found-fresh :
      (now : ℕ) (o : Option Entry)
      → get key m ≡ o
      → value_of (get key (remove_found key (λ e. leb e.expires_at now) m o)) ≡ fresh now o
  unfolding remove_found
  remove_found-fresh now none g = rw g refl
  remove_found-fresh now (some e) g = ground (arith, get-remove key key m, ==_refl key)

  remove_found-IsMap :
      (expired : Entry → Bool) (o : Option Entry) → IsMap m → IsMap (remove_found key expired m o)
  unfolding remove_found
  remove_found-IsMap expired none h = h
  remove_found-IsMap expired (some e) h = ground (arith, remove-IsMap key m h)

  -- An entry that is removed at one instant is not seen at a later one.
  pub remove_found-later :
      (now until : ℕ) (k : Key) (o : Option Entry)
      → get key m ≡ o
      → now ≤ until
      → fresh until (get k (remove_found key (λ e. leb e.expires_at now) m o))
        ≡ fresh until (get k m)
  unfolding remove_found
  remove_found-later now until k none g le = refl
  remove_found-later now until k (some e) g le = elim (Bool-cases (leb e.expires_at now)) [
    | inl old ↦ rw old (elim (Bool-cases (key == k)) [
      | inl same ↦
          let here : get k m ≡ some e =
            ap (λ j. get j m) (sym ((pair_eq.same_iff key k).0 same)) ∙ g in
          rw (get-remove key k m, same, here) (ground arith)
      | inr other ↦ rw (get-remove key k m, other) refl
    ])
    | inr young ↦ rw young refl
  ]

pub get_cred-fresh :
    (cache : CredCache) (key : Key) (now : ℕ)
    → (get_cred cache key now).1 ≡ fresh now (get key cache.inner)
unfolding get_cred remove_if
get_cred-fresh cache key now = remove_found-fresh key cache.inner now (get key cache.inner) refl

pub step-IsMap :
    (cache : CredCache) (o : Operation) → IsMap cache.inner → IsMap (step cache o).inner
unfolding step get_cred remove_if put purge_expired
step-IsMap cache (get_at key now) h =
    remove_found-IsMap key cache.inner (λ e. leb e.expires_at now) (get key cache.inner) h
step-IsMap cache (put_at key value ttl now) h = ground (
  arith,
  insert-IsMap key (record { value = value; expires_at = now + unwrap_or ttl cache.default_ttl })
      cache.inner h,
)
step-IsMap cache (purge_at now) h = retain_map-IsMap (λ k e. ltb now e.expires_at) cache.inner h

pub keep_if-fresh :
    (now until : ℕ) (o : Option Entry)
    → now ≤ until
    → fresh until (keep_if (λ e. ltb now e.expires_at) o) ≡ fresh until o
keep_if-fresh now until none le = refl
keep_if-fresh now until (some e) le = ground arith

step-fresh :
    (cache : CredCache) (o : Operation) (key : Key) (until : ℕ)
    → IsMap cache.inner
    → Spares key until o
    → fresh until (get key (step cache o).inner) ≡ fresh until (get key cache.inner)
unfolding step get_cred remove_if put purge_expired
step-fresh cache (get_at k now) key until m s =
    remove_found-later k cache.inner now until key (get k cache.inner) refl s
step-fresh cache (put_at k value ttl now) key until m (other, le) =
    let entry : Entry = record {
      value = value;
      expires_at = now + unwrap_or ttl cache.default_ttl;
    } in
    elim (Bool-cases (eqb cache.default_ttl 0 && is_none ttl)) [
      | inl off ↦ rw off refl
      | inr on ↦ rw on (ap (fresh until) (get-insert_distinct k key entry cache.inner other))
    ]
step-fresh cache (purge_at now) key until m le =
    ap (fresh until) (get-retain_map (λ (k : Key) e. ltb now e.expires_at) key cache.inner m)
    ∙ keep_if-fresh now until (get key cache.inner) le

run-fresh :
    (cache : CredCache) (os : List Operation) (key : Key) (until : ℕ)
    → IsMap cache.inner
    → AllSpare key until os
    → fresh until (get key (run cache os).inner) ≡ fresh until (get key cache.inner)
unfolding run
run-fresh cache [] key until m s = refl
run-fresh cache (o ∷ os) key until m (s, ss) =
    run-fresh (step cache o) os key until (step-IsMap cache o m) ss
    ∙ step-fresh cache o key until m s

-- The lifetime that a credential is put with: none if caching is off.
abbrev pub lifetime : CredCache → Option ℕ → Option ℕ
lifetime cache ttl =
    if eqb cache.default_ttl 0 && is_none ttl then none else some (unwrap_or ttl cache.default_ttl)

put-get :
    (cache : CredCache) (key : Key) (value : Text) (ttl : Option ℕ) (now d : ℕ)
    → lifetime cache ttl ≡ some d
    → get key (put cache key value ttl now).inner
      ≡ some (record { value = value; expires_at = now + d })
unfolding put
put-get cache key value ttl now d l =
    let entry : Entry = record {
      value = value;
      expires_at = now + unwrap_or ttl cache.default_ttl;
    } in
    ground (arith, get-insert key key entry cache.inner, ==_refl key)

-- A credential that is put with a lifetime is what a lookup answers until the lifetime has passed,
-- and then nothing is, whatever is looked up, purged and put under other keys in between.
pub get_cred-put :
    (cache : CredCache) (os : List Operation) (key : Key) (value : Text) (ttl : Option ℕ)
    (now d until : ℕ)
    → IsMap cache.inner
    → lifetime cache ttl ≡ some d
    → AllSpare key until os
    → (get_cred (run (put cache key value ttl now) os) key until).1
      ≡ (if ltb until (now + d) then some value else none)
get_cred-put cache os key value ttl now d until m l s =
    let there = put cache key value ttl now in
    get_cred-fresh (run there os) key until
    ∙ run-fresh there os key until (unfold step in step-IsMap cache (put_at key value ttl now) m) s
    ∙ ap (fresh until) (put-get cache key value ttl now d l)

-- The operation does not put with a lifetime of its own.
abbrev pub IsPlain : Operation → Type 0
IsPlain (get_at k now) = Unit
IsPlain (put_at k value ttl now) = is_none ttl ≡ true
IsPlain (purge_at now) = Unit

abbrev pub AllPlain : List Operation → Type 0
AllPlain [] = Unit
AllPlain (o ∷ os) = IsPlain o × AllPlain os

step-with_ttl : (o : Operation) → IsPlain o → step (with_ttl 0) o ≡ with_ttl 0
unfolding step with_ttl get_cred remove_if remove_found put purge_expired get retain_map
step-with_ttl (get_at k now) h = refl
step-with_ttl (put_at k value none now) h = refl
step-with_ttl (put_at k value (some ttl) now) h = cc
step-with_ttl (purge_at now) h = refl

-- A cache whose lifetime is zero stays empty, as long as nothing is put with a lifetime of its own.
pub run-with_ttl : (os : List Operation) → AllPlain os → run (with_ttl 0) os ≡ with_ttl 0
unfolding run
run-with_ttl [] h = refl
run-with_ttl (o ∷ os) (h, hs) = ap (λ c. run c os) (step-with_ttl o h) ∙ run-with_ttl os hs
