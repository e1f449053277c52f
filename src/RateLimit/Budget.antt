-- ===== src/RateLimit/Budget.antt =====
-- How many requests `check` of security/rate_limit.rs lets through for one caller of one route.
use Prim.Native.Nat.{min}
use vaultproxy.Prelude.{
  ℕ, ◌+◌, ◌-◌, ◌^◌, ◌≤◌, ◌<◌, ◌≡◌, Bool, true, false, ◌&&◌, some, List, [], ◌∷◌, arith, leb, ◌==◌,
  text_eq, pair_eq, Text, length, Bool-cases, inl, inr, ◌⊎◌, ◌%◌, ==_refl, ◌∙◌, ap,
}
use vaultproxy.HashMap.{get, IsMap}
use vaultproxy.HashMap.Laws.{get-insert, get-retain_map, insert-IsMap, retain_map-IsMap, keep_if}
use vaultproxy.RateLimit.{
  RouteCounter, Key, RateLimiter, limit_of, is_live, gc, bump, is_full, admit, check,
}

-- A schedule: the route, the caller and the time of each call.
pub record Call : Type 0 where
  pub path : Text
  pub caller : Text
  pub time : ℕ

abbrev pub key_of : Call → Key
key_of c = (c.path, c.caller)

unfoldable pub check_all : RateLimiter → List Call → RateLimiter
check_all l [] = l
check_all l (c ∷ cs) = check_all (check l c.path c.caller c.time).0 cs

abbrev pub one : Bool → ℕ
one true = 1
one false = 0

-- The number of calls for a key, and of those among them that were let through.
unfoldable pub requests : Key → List Call → ℕ
requests k [] = 0
requests k (c ∷ cs) = one (key_of c == k) + requests k cs

unfoldable pub allowed : Key → RateLimiter → List Call → ℕ
allowed k l [] = 0
allowed k l (c ∷ cs) =
    let (l', answer) = check l c.path c.caller c.time in
    one (key_of c == k && answer) + allowed k l' cs

-- Every call lies in the interval that starts at `from` and is shorter than `width`.
abbrev pub Within : ℕ → ℕ → List Call → Type 0
Within from width [] = Unit
Within from width (c ∷ cs) = (from ≤ c.time) × (c.time < from + width) × Within from width cs

-- What `check` leaves alone.
check_keeps :
    (l : RateLimiter) (c : Call) (path : Text)
    → ((check l c.path c.caller c.time).0.window ≡ l.window)
      × (limit_of (check l c.path c.caller c.time).0 path ≡ limit_of l path)
unfolding check admit gc limit_of
check_keeps l c path = ground arith

-- The entry of a key after the sweep.
pub get-gc :
    (l : RateLimiter) (now : ℕ) (k : Key)
    → IsMap l.counters
    → (get k (gc l now).counters ≡ get k l.counters)
      ⊎ (get k (gc l now).counters ≡ keep_if (is_live l.window now k) (get k l.counters))
unfolding gc
get-gc l now k m = ground (arith, get-retain_map (is_live l.window now) k l.counters m)

-- An entry whose window still runs survives the sweep.
get-gc_live :
    (l : RateLimiter) (now : ℕ) (k : Key) (e : RouteCounter)
    → IsMap l.counters
    → get k l.counters ≡ some e
    → now - e.window_start < l.window
    → get k (gc l now).counters ≡ some e
unfolding is_live
get-gc_live l now k e m h w = ground (arith, get-gc l now k m)

gc-IsMap : (l : RateLimiter) (now : ℕ) → IsMap l.counters → IsMap (gc l now).counters
unfolding gc
gc-IsMap l now m = ground (arith, retain_map-IsMap (is_live l.window now) l.counters m)

pub gc-window : (l : RateLimiter) (now : ℕ) → (gc l now).window ≡ l.window
unfolding gc
gc-window l now = ground arith

pub check-IsMap :
    (l : RateLimiter) (path caller : Text) (now : ℕ)
    → IsMap l.counters
    → IsMap (check l path caller now).0.counters
unfolding check admit
check-IsMap l path caller now m = elim (Bool-cases (is_full (gc l now) (path, caller))) [
  | inl full ↦ rw full (gc-IsMap l now m)
  | inr free ↦ rw free (insert-IsMap _ _ _ (gc-IsMap l now m))
]

module _ (limit : ℕ) (g : RateLimiter) (key : Key) (now : ℕ) where
  -- A call that finds a running entry.
  admit_live :
      (e : RouteCounter)
      → get key g.counters ≡ some e
      → now - e.window_start < g.window
      → e.count + 1 < 2 ^ 64
      → ((admit limit g key now).1 ≡ leb (e.count + 1) limit)
        × (get key (admit limit g key now).0.counters ≡ some (record e { count = e.count + 1 }))
  unfolding admit bump
  admit_live e h w r = rw h (
      ground (
        arith,
        get-insert key key (record e { count = (e.count + 1) % 2 ^ 64 }) g.counters,
        ==_refl key,
      ))

  pub get-admit_other :
      (k : Key) → (key == k) ≡ false → get k (admit limit g key now).0.counters ≡ get k g.counters
  unfolding admit
  get-admit_other k ne =
      ground (arith, get-insert key k (bump g.window now (get key g.counters)) g.counters)

module _ (l : RateLimiter) (m : IsMap l.counters) (e : RouteCounter) where
  -- A call for the key of a running entry counts it up and compares it to the limit.
  check_live :
      (p u : Text) (now : ℕ)
      → get (p, u) l.counters ≡ some e
      → now - e.window_start < l.window
      → e.count + 1 < 2 ^ 64
      → ((check l p u now).1 ≡ leb (e.count + 1) (limit_of l p))
        × (get (p, u) (check l p u now).0.counters ≡ some (record e { count = e.count + 1 }))
  unfolding check
  check_live p u now h w r =
      admit_live (limit_of l p) (gc l now) (p, u) now e (get-gc_live l now (p, u) e m h w)
        (omega (arith, gc-window l now)) r

  -- A call for another key leaves a running entry as it is.
  check_other :
      (p u : Text) (now : ℕ) (k : Key)
      → ((p, u) == k) ≡ false
      → get k l.counters ≡ some e
      → now - e.window_start < l.window
      → get k (check l p u now).0.counters ≡ some e
  unfolding check
  check_other p u now k ne h w =
      get-admit_other (limit_of l p) (gc l now) (p, u) now k ne ∙ get-gc_live l now k e m h w

-- The limiter as one key sees it: its keys are distinct, its window and the route's limit are given.
abbrev pub Tuned : ℕ → ℕ → Text → RateLimiter → Type 0
Tuned width n p l = IsMap l.counters × (l.window ≡ width) × (limit_of l p ≡ n)

pub check-Tuned :
    (width n : ℕ) (p : Text) (l : RateLimiter) (c : Call)
    → Tuned width n p l
    → Tuned width n p (check l c.path c.caller c.time).0
check-Tuned width n p l c (m, w, b) =
    let kept = check_keeps l c p in (check-IsMap l c.path c.caller c.time m, kept.0 ∙ w, kept.1 ∙ b)

pub eq_of_== : (j k : Key) → (j == k) ≡ true → j ≡ k
eq_of_== j k = ((pair_eq {A = Text} {B = Text}).same_iff j k).0

module _ (from width n : ℕ) (p u : Text) where
  pub live_step :
      (l : RateLimiter) (e : RouteCounter) (c : Call)
      → Tuned width n p l
      → get (p, u) l.counters ≡ some e
      → c.time - e.window_start < width
      → e.count + 1 < 2 ^ 64
      → (key_of c == (p, u)) ≡ true
      → ((check l c.path c.caller c.time).1 ≡ leb (e.count + 1) n)
        × (get (p, u) (check l c.path c.caller c.time).0.counters
            ≡ some (record e { count = e.count + 1 }))
  live_step l e c (m, w, b) h run r same =
      let k = eq_of_== (key_of c) (p, u) same in
      rw (ap (λ (q : Key). q.0) k, ap (λ (q : Key). q.1) k, ← b)
        (check_live l m e p u c.time h (rw w run) r)

  other_step :
      (l : RateLimiter) (e : RouteCounter) (c : Call)
      → Tuned width n p l
      → get (p, u) l.counters ≡ some e
      → c.time - e.window_start < width
      → (key_of c == (p, u)) ≡ false
      → get (p, u) (check l c.path c.caller c.time).0.counters ≡ some e
  other_step l e c (m, w, b) h run other =
      check_other l m e c.path c.caller c.time (p, u) other h (rw w run)

  -- In a running window, the calls let through are exactly as many as the limit leaves.
  pub allowed-live :
      (l : RateLimiter) (e : RouteCounter) (cs : List Call)
      → Tuned width n p l
      → get (p, u) l.counters ≡ some e
      → from ≤ e.window_start
      → Within from width cs
      → e.count + length cs < 2 ^ 64
      → allowed (p, u) l cs ≡ min (n - e.count) (requests (p, u) cs)
  unfolding allowed requests
  allowed-live l e [] t h b w r = omega arith
  allowed-live l e (c ∷ cs) t h b w r =
      let t' = check-Tuned width n p l c t in
      elim (Bool-cases (key_of c == (p, u))) [
        | inl same ↦
            let (ans, h') = live_step l e c t h (omega arith) (omega arith) same in
            let e' : RouteCounter = record e { count = e.count + 1 } in
            let rest =
              allowed-live (check l c.path c.caller c.time).0 e' cs t' h' b w.2 (omega arith) in
            rw (same, ans) (ground (arith, rest))
        | inr other ↦
            let h' = other_step l e c t h (omega arith) other in
            let rest =
              allowed-live (check l c.path c.caller c.time).0 e cs t' h' b w.2 (omega arith) in
            rw other (omega (arith, rest))
      ]
