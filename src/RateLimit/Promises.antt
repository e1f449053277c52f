-- ===== src/RateLimit/Promises.antt =====
-- What security/rate_limit.rs promises to a caller and to the process.
use Prim.Native.Nat.{min}
use vaultproxy.Prelude.{
  ℕ, zero, suc, ◌+◌, ◌-◌, ◌*◌, ◌^◌, ◌≤◌, ◌<◌, ◌≡◌, ◌≢◌, refl, true, false, ◌&&◌, Option, none, some,
  List, [], ◌∷◌, ◌++◌, arith, text_eq, pair_eq, nat_eq, Text, length, take, all, Bool-cases, inl,
  inr, ◌⊎◌, ◌∙◌, length-take, length-append, not, &&-eq-true, Option-cases, Bool, if◌then◌else◌,
  codes,
}
use vaultproxy.Text.Laws.{
  replicate, trim_end_matches-append_replicate, trim_end_matches_self,
  ends_with_char-append_replicate,
}
use mathlib.Core.List.{append-nil}
use vaultproxy.HashMap.{get, IsMap}
use vaultproxy.HashMap.Laws.{length-insert, length-retain_map-le}
use vaultproxy.Text.{is_empty, ends_with_char}
use vaultproxy.RateLimit.{
  RouteCounter, RateLimiter, limit_of, is_live, gc, bump, admit, check, max_caller_entries, Request,
  is_printable, client_key, header_key, extract_caller_key, normalize_path, rate_limit_middleware,
  Outcome, too_many_requests, next,
}
use vaultproxy.RateLimit.Budget.{Call, requests, allowed, Within, allowed-live}
use vaultproxy.RateLimit.Sliding.{count_of, allowed-Within}

module _ (l : RateLimiter) (cs : List Call) (from : ℕ) (p u : Text) where
  -- While the window of a route and caller runs, of any interleaving of calls by anybody exactly
  -- as many calls for that route and caller are let through as its limit leaves, or all of them
  -- if they are fewer. The counter must not reach 2^64 in these calls.
  pub exact_budget :
      (e : RouteCounter)
      → IsMap l.counters
      → get (p, u) l.counters ≡ some e
      → from ≤ e.window_start
      → Within from l.window cs
      → e.count + length cs < 2 ^ 64
      → allowed (p, u) l cs ≡ min (limit_of l p - e.count) (requests (p, u) cs)
  exact_budget e m = allowed-live from l.window (limit_of l p) p u l e cs (m, refl, refl)

  -- From any state, in any interval shorter than the window, at most twice the limit of a route is
  -- let through for one caller, and at most the limit if the caller had no entry yet. The counter
  -- must not reach 2^64 in these calls.
  pub two_budgets :
      IsMap l.counters
      → Within from l.window cs
      → count_of (get (p, u) l.counters) + length cs < 2 ^ 64
      → (allowed (p, u) l cs ≤ 2 * limit_of l p)
        × (get (p, u) l.counters ≡ none → allowed (p, u) l cs ≤ limit_of l p)
  two_budgets m w r =
      let bound = allowed-Within from l.window (limit_of l p) p u l cs (m, refl, refl) w r in
      ground arith

-- The number of entries stays within the cap, whatever the call. A call that is turned away
-- because the map is full adds no entry.
pub check-max_caller_entries :
    (l : RateLimiter) (path caller : Text) (now : ℕ)
    → length l.counters ≤ max_caller_entries
    → length (check l path caller now).0.counters ≤ max_caller_entries
unfolding check admit gc
check-max_caller_entries l path caller now h = ground (
  arith,
  length-retain_map-le (is_live l.window now) l.counters,
  length-insert (path, caller) (bump (gc l now).window now (get (path, caller) (gc l now).counters))
      (gc l now).counters,
)

normalize_path-append_slashes :
    (p : Text) (n : ℕ)
    → p ≢ []
    → ends_with_char p b'/' ≡ false
    → normalize_path (p ++ replicate n b'/') ≡ p
unfolding normalize_path
normalize_path-append_slashes p zero ne h = rw (append-nil, h) (ground arith)
normalize_path-append_slashes p (suc n) ne h =
    rw
      (
        ends_with_char-append_replicate b'/' n p,
        trim_end_matches-append_replicate b'/' (suc n) p,
        trim_end_matches_self b'/' p h,
      )
      (ground (arith, length-append p (b'/' ∷ replicate n b'/')))

normalize_path_self : (p : Text) → ends_with_char p b'/' ≡ false → normalize_path p ≡ p
unfolding normalize_path
normalize_path_self p h = rw h (ground arith)

-- The answer, if the request that goes on is this one.
pub carried : Request → Outcome → Outcome
carried req too_many_requests = too_many_requests
carried req (next _) = next req

carried-next :
    (r s : Request) (b : Bool)
    → (if b then next r else too_many_requests)
      ≡ carried r (if b then next s else too_many_requests)
unfolding carried
carried-next r s b = ground arith

-- Trailing slashes do not change how a request is limited: a path that is not empty and does not
-- end in a slash, with any number of slashes after it, leaves the limiter as the path without them
-- does, and is answered with 429 exactly if that path is. What is passed on otherwise is the
-- request as it came, with its slashes.
pub middleware_trailing_slashes :
    (to_str : Text → Option Text) (l : RateLimiter) (req : Request) (now n : ℕ)
    → req.path ≢ []
    → ends_with_char req.path b'/' ≡ false
    → rate_limit_middleware to_str l (record req { path = req.path ++ replicate n b'/' }) now ≡ (
      (rate_limit_middleware to_str l req now).0,
      carried
          (record req { path = req.path ++ replicate n b'/' })
          (rate_limit_middleware to_str l req now).1,
    )
unfolding rate_limit_middleware extract_caller_key client_key carried
middleware_trailing_slashes to_str l req now n ne h =
    rw (normalize_path-append_slashes req.path n ne h, normalize_path_self req.path h)
      (ground arith)

length_pos : (t : Text) → not (is_empty t) ≡ true → 0 < length t
length_pos [] h = cc
length_pos (c ∷ t) h = omega arith

-- A caller key that stands for the header's value.
abbrev pub IsHeaderKey : Text → Text → Type 0
IsHeaderKey s k = (k ≡ take 64 s) × (all is_printable k ≡ true) × (0 < length k) × (length k ≤ 64)

-- A text whose first 64 bytes are no key: there are none, or one of them is not printable.
abbrev pub IsUnfit : Text → Type 0
IsUnfit s = (take 64 s ≡ []) ⊎ (all is_printable (take 64 s) ≡ false)

-- The header is absent, or does not read as a text, or as one that is no key.
abbrev pub IsUnusable : (Text → Option Text) → Request → Type 0
IsUnusable to_str req =
    (req.x_caller_id ≡ none)
    ⊎ ((raw : Text) × (req.x_caller_id ≡ some raw)
        × ((to_str raw ≡ none) ⊎ ((s : Text) × (to_str raw ≡ some s) × IsUnfit s)))

unfit :
    (t : Text)
    → (not (is_empty t) && all is_printable t) ≡ false
    → (t ≡ []) ⊎ (all is_printable t ≡ false)
unfit [] h = inl refl
unfit (c ∷ t) h = inr (ground arith)

header_key_cases :
    (s fallback : Text)
    → IsHeaderKey s (header_key s fallback) ⊎ ((header_key s fallback ≡ fallback) × IsUnfit s)
unfolding header_key
header_key_cases s fallback =
    elim (Bool-cases (not (is_empty (take 64 s)) && all is_printable (take 64 s))) [
      | inl good ↦
          let (full, printable) = &&-eq-true _ _ good in
          rw good
            (inl (refl, printable, length_pos (take 64 s) full, omega (arith, length-take 64 s)))
      | inr bad ↦ rw bad (inr (refl, unfit (take 64 s) bad))
    ]

extract_read :
    (to_str : Text → Option Text) (req : Request) (raw s : Text)
    → req.x_caller_id ≡ some raw
    → to_str raw ≡ some s
    → extract_caller_key to_str req ≡ header_key s (client_key req)
unfolding extract_caller_key
extract_read to_str req raw s present read = ground arith

-- The address of the peer, or "unknown" without one.
abbrev pub peer_key : Option Text → Text
peer_key none = codes "unknown"
peer_key (some ip) = ip

by_address : (req : Request) → client_key req ≡ peer_key req.client_ip
unfolding client_key
by_address req = elim (Option-cases req.client_ip) [
  | inl absent ↦ rw absent refl
  | inr (ip, known) ↦ rw known refl
]

-- A caller is known by the first 64 bytes of a header `x-caller-id` that reads as a text, if there
-- are any and all of them are printable ASCII; then the key has 1 to 64 bytes. If the header is
-- absent, does not read as a text, or its first 64 bytes are none or not all printable, the caller
-- is known by the address of the peer, or as "unknown" without one.
pub caller_key_cases :
    (to_str : Text → Option Text) (req : Request)
    → ((raw s : Text) × (req.x_caller_id ≡ some raw)
        × (to_str raw ≡ some s)
        × IsHeaderKey s (extract_caller_key to_str req))
      ⊎ ((extract_caller_key to_str req ≡ peer_key req.client_ip) × IsUnusable to_str req)
unfolding extract_caller_key client_key
caller_key_cases to_str req = elim (Option-cases req.x_caller_id) [
  | inl absent ↦ inr (ground (arith, by_address req), inl absent)
  | inr (raw, present) ↦ elim (Option-cases (to_str raw)) [
    | inl opaque ↦ inr (ground (arith, by_address req), inr (raw, present, inl opaque))
    | inr (s, read) ↦
        let same = extract_read to_str req raw s present read in
        elim (header_key_cases s (client_key req)) [
          | inl good ↦ inl (raw, s, present, read, rw same good)
          | inr (fallback, bad) ↦
              inr (same ∙ fallback ∙ by_address req, inr (raw, present, inr (s, read, bad)))
        ]
  ]
]
