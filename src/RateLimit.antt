-- ===== src/RateLimit.antt =====
-- The request rate limiter, security/rate_limit.rs. An `Instant` is a number of nanoseconds, and
-- `duration_since` is truncated subtraction, as in the standard library. The lock of the counters
-- is held through `check`, so a schedule of calls is a list of them.
pub mod Budget
pub mod Sliding
pub mod Promises
pub mod Liveness
mod Examples
use vaultproxy.Prelude.{
  ℕ, suc, ◌+◌, ◌-◌, ◌*◌, ◌%◌, ◌^◌, Bool, true, false, not, ◌&&◌, ◌||◌, Option, none, some, List, [],
  ◌∷◌, if◌then◌else◌, leb, ltb, HasEq, ◌==◌, nat_eq, text_eq, pair_eq, Text, codes, length, take,
  all, any,
}
use vaultproxy.HashMap.{HashMap, get, insert, retain_map}
use vaultproxy.Text.{is_empty, ends_with_char, trim_end_matches}

pub record RouteCounter : Type 0 where
  pub count : ℕ  -- u64
  pub window_start : ℕ

abbrev pub Key : Type 0
Key = Text × Text

pub record RateLimiter : Type 0 where
  pub counters : HashMap Key RouteCounter
  pub max_requests : ℕ
  pub window : ℕ
  pub per_route : HashMap Text ℕ
  pub last_gc : ℕ

abbrev pub max_caller_entries : ℕ
max_caller_entries = 10000

abbrev pub from_secs : ℕ → ℕ
from_secs n = n * 1000000000

abbrev pub gc_min_interval : ℕ
gc_min_interval = from_secs 1

unfoldable pub get_or_default : Option ℕ → ℕ → ℕ
get_or_default none d = d
get_or_default (some n) d = n

-- `now` is the value of `Instant::now()`, of which the first call may lie within a second of the
-- clock's origin.
unfoldable pub with_per_route_overrides : ℕ → ℕ → HashMap Text ℕ → ℕ → RateLimiter
with_per_route_overrides max_requests window_secs per_route now = record {
  counters = [];
  max_requests = max_requests;
  window = from_secs window_secs;
  per_route = per_route;
  last_gc = if leb gc_min_interval now then now - gc_min_interval else now;
}

unfoldable pub new : ℕ → ℕ → ℕ → RateLimiter
unfolding with_per_route_overrides
new max_requests window_secs now = with_per_route_overrides max_requests window_secs [] now

unfoldable pub limit_of : RateLimiter → Text → ℕ
unfolding get_or_default
limit_of l path = get_or_default (get path l.per_route) l.max_requests

unfoldable pub is_live : ℕ → ℕ → Key → RouteCounter → Bool
is_live window now k c = ltb (now - c.window_start) (window * 4)

-- The amortized sweep of `check`.
unfoldable pub gc : RateLimiter → ℕ → RateLimiter
gc l now =
    if leb gc_min_interval (now - l.last_gc)
    then record l { counters = retain_map (is_live l.window now) l.counters; last_gc = now }
    else l

-- `entry(key).or_insert(..)`, the reset of an expired window, and the increment.
unfoldable pub bump : ℕ → ℕ → Option RouteCounter → RouteCounter
bump window now none = record { count = 1; window_start = now }
bump window now (some c) =
    if leb window (now - c.window_start)
    then record { count = 1; window_start = now }
    else record c { count = (c.count + 1) % 2 ^ 64 }

unfoldable pub is_full : RateLimiter → Key → Bool
is_full l key = elim (get key l.counters) [
  | none ↦ leb max_caller_entries (length l.counters)
  | some _ ↦ false
]

-- What `check` does after the sweep.
unfoldable pub admit : ℕ → RateLimiter → Key → ℕ → RateLimiter × Bool
unfolding is_full
admit limit l key now =
    if is_full l key
    then (l, false)
    else let c = bump l.window now (get key l.counters) in
      (record l { counters = insert key c l.counters }, leb c.count limit)

unfoldable pub check : RateLimiter → Text → Text → ℕ → RateLimiter × Bool
check l path caller_key now = admit (limit_of l path) (gc l now) (path, caller_key) now

-- A request, by what the middleware reads of it: the bytes of the header `x-caller-id`, and the
-- printed address of the peer.
pub record Request : Type 0 where
  pub path : Text
  pub x_caller_id : Option Text
  pub client_ip : Option Text

unfoldable pub is_printable : ℕ → Bool
is_printable b = (leb 0x21 b && leb b 0x7e) || (b == 0x20)

unfoldable pub client_key : Request → Text
client_key req = elim req.client_ip [ none ↦ codes "unknown" | some ip ↦ ip ]

unfoldable pub header_key : Text → Text → Text
unfolding is_printable
header_key s fallback =
    let truncated = take 64 s in
    if not (is_empty truncated) && all is_printable truncated then truncated else fallback

abbrev pub rate_limited_paths : List Text
rate_limited_paths =
    codes "/proxy"
    ∷ codes "/vault/totp"
    ∷ codes "/vault/resync"
    ∷ codes "/vault/items/delete"
    ∷ codes "/vault/items/update"
    ∷ codes "/vault/folders/delete"
    ∷ codes "/rotate"
    ∷ codes "/browser/rotate"
    ∷ codes "/sync/init"
    ∷ codes "/vault/audit/run"
    ∷ codes "/vault/permissions"
    ∷ []

abbrev pub per_route_limits : HashMap Text ℕ
per_route_limits =
    (codes "/vault/items/delete", 10)
    ∷ (codes "/vault/items/update", 10)
    ∷ (codes "/vault/folders/delete", 10)
    ∷ (codes "/vault/audit/run", 2)
    ∷ []

unfoldable pub default_rate_limiter : ℕ → RateLimiter
unfolding with_per_route_overrides
default_rate_limiter now = with_per_route_overrides 60 60 per_route_limits now

unfoldable pub normalize_path : Text → Text
normalize_path raw =
    if ltb 1 (length raw) && ends_with_char raw b'/' then trim_end_matches b'/' raw else raw

-- The two answers of the middleware: 429, or what the next handler answers to the request that it
-- is given.
pub data Outcome : Type 0 where
  too_many_requests : Outcome
  next : Request → Outcome

-- `to_str` is that of the crate `http`, which answers for ASCII texts only.
module _ (to_str : Text → Option Text) where
  unfoldable pub extract_caller_key : Request → Text
  extract_caller_key req = elim req.x_caller_id [
    | none ↦ client_key req
    | some raw ↦ elim (to_str raw) [
      | none ↦ client_key req
      | some s ↦ header_key s (client_key req)
    ]
  ]

  unfoldable pub rate_limit_middleware : RateLimiter → Request → ℕ → RateLimiter × Outcome
  rate_limit_middleware limiter req now =
      let path = normalize_path req.path in
      if any (λ p. path == p) rate_limited_paths
      then (let (limiter', allowed) = check limiter path (extract_caller_key req) now in
          (limiter', if allowed then next req else too_many_requests))
      else (limiter, next req)
