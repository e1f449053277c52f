-- ===== src/RateLimit/Liveness.antt =====
-- A caller of security/rate_limit.rs whose window has ended is let through again.
use vaultproxy.Prelude.{
  ℕ, ◌-◌, ◌≤◌, ◌<◌, if◌then◌else◌, ◌≡◌, ap, ◌∙◌, true, none, some, arith, leb, text_eq, pair_eq,
  Text, length, Bool-cases, inl, inr, ◌⊎◌,
}
use vaultproxy.HashMap.{get, IsMap}
use vaultproxy.HashMap.Laws.{get-retain_map, keep_if, length-retain_map-lt}
use vaultproxy.RateLimit.{
  RouteCounter, Key, RateLimiter, limit_of, is_live, gc, bump, admit, check, max_caller_entries,
  gc_min_interval,
}
use vaultproxy.RateLimit.Budget.{gc-window}

-- The sweep keeps the entry of a key, or makes room.
gc_lem :
    (l : RateLimiter) (now : ℕ) (k : Key) (e : RouteCounter)
    → IsMap l.counters
    → get k l.counters ≡ some e
    → (get k (gc l now).counters ≡ some e)
      ⊎ ((get k (gc l now).counters ≡ none) × (length (gc l now).counters < length l.counters))
unfolding gc
gc_lem l now k e m h = elim (Bool-cases (leb gc_min_interval (now - l.last_gc))) [
  | inr waits ↦ rw waits (inl h)
  | inl sweeps ↦ rw sweeps (elim (Bool-cases (is_live l.window now k e)) [
    | inl live ↦ inl (
        get-retain_map (is_live l.window now) k l.counters m
        ∙ ap (keep_if (is_live l.window now k)) h
        ∙ ap (λ b. if b then some e else none) live)
    | inr dead ↦ inr (
      get-retain_map (is_live l.window now) k l.counters m
          ∙ ap (keep_if (is_live l.window now k)) h
          ∙ ap (λ b. if b then some e else none) dead,
      length-retain_map-lt (is_live l.window now) k e l.counters h dead,
    )
  ])
]

admit_ended :
    (limit : ℕ) (g : RateLimiter) (k : Key) (now : ℕ) (e : RouteCounter)
    → get k g.counters ≡ some e
    → g.window ≤ now - e.window_start
    → 1 ≤ limit
    → (admit limit g k now).1 ≡ true
unfolding admit bump
admit_ended limit g k now e h w one = rw h (ground arith)

admit_new :
    (limit : ℕ) (g : RateLimiter) (k : Key) (now : ℕ)
    → get k g.counters ≡ none
    → length g.counters < max_caller_entries
    → 1 ≤ limit
    → (admit limit g k now).1 ≡ true
unfolding admit bump
admit_new limit g k now h room one = rw h (ground arith)

-- A caller who has an entry for a route and waits until its window has ended is let through by the
-- next call, however full the limiter is, if the route has a limit of one call at least and the
-- entries are within their cap.
pub check_ended :
    (l : RateLimiter) (path caller : Text) (now : ℕ) (e : RouteCounter)
    → IsMap l.counters
    → length l.counters ≤ max_caller_entries
    → get (path, caller) l.counters ≡ some e
    → l.window ≤ now - e.window_start
    → 1 ≤ limit_of l path
    → (check l path caller now).1 ≡ true
unfolding check
check_ended l path caller now e m cap h w one = elim (gc_lem l now (path, caller) e m h) [
  | inl kept ↦
      admit_ended (limit_of l path) (gc l now) (path, caller) now e kept
        (omega (arith, w, gc-window l now)) one
  | inr (swept, room) ↦
      admit_new (limit_of l path) (gc l now) (path, caller) now swept (omega (arith, room, cap)) one
]
