-- ===== src/RateLimit/Sliding.antt =====
-- The bound over any interval shorter than the window, from any state: security/rate_limit.rs
-- counts in fixed windows, of which such an interval meets two at most.
use vaultproxy.Prelude.{
  ℕ, suc, ◌+◌, ◌-◌, ◌^◌, ◌≤◌, ◌<◌, ◌≡◌, refl, Bool, false, Option, none, some, List, [], ◌∷◌, arith,
  leb, ◌==◌, text_eq, pair_eq, Text, length, Bool-cases, inl, inr, ◌⊎◌, ◌%◌, ==_refl, ap,
}
use vaultproxy.HashMap.{get}
use vaultproxy.HashMap.Laws.{get-insert, keep_if}
use vaultproxy.RateLimit.{RouteCounter, Key, RateLimiter, limit_of, is_live, gc, bump, admit, check}
use vaultproxy.RateLimit.Budget.{
  Call, key_of, allowed, Within, Tuned, check-Tuned, eq_of_==, allowed-live, get-gc,
  get-admit_other, one,
}

-- What a window that is already running may still let through.
abbrev spare : ℕ → Option RouteCounter → ℕ
spare n none = 0
spare n (some e) = n - e.count

abbrev pub count_of : Option RouteCounter → ℕ
count_of none = 0
count_of (some e) = e.count

-- The answer to a call, by the entry that it finds after the sweep.
abbrev Opens : ℕ → Key → ℕ → RateLimiter × Bool → Type 0
Opens n k now r =
    (get k r.0.counters ≡ some (record { count = 1; window_start = now })) × (r.1 ≡ leb 1 n)

abbrev Counts : ℕ → Key → RouteCounter → RateLimiter × Bool → Type 0
Counts n k e r =
    (get k r.0.counters ≡ some (record e { count = (e.count + 1) % 2 ^ 64 }))
    × (r.1 ≡ leb ((e.count + 1) % 2 ^ 64) n)

module _ (n : ℕ) (g : RateLimiter) (k : Key) (now : ℕ) where
  admit-none :
      get k g.counters ≡ none
      → ((get k (admit n g k now).0.counters ≡ none) × ((admit n g k now).1 ≡ false))
        ⊎ Opens n k now (admit n g k now)
  unfolding admit bump
  admit-none h = rw h (
      ground
        (arith, h, ==_refl k, get-insert k k (record { count = 1; window_start = now }) g.counters))

  admit-some :
      (e : RouteCounter)
      → get k g.counters ≡ some e
      → Counts n k e (admit n g k now) ⊎ Opens n k now (admit n g k now)
  unfolding admit bump
  admit-some e h = rw h (
      ground (
        arith,
        h,
        ==_refl k,
        get-insert k k (record { count = 1; window_start = now }) g.counters,
        get-insert k k (record e { count = (e.count + 1) % 2 ^ 64 }) g.counters,
      ))

-- What a call for the key finds and does.
data Found (n : ℕ) (k : Key) (now : ℕ) (before : Option RouteCounter) (r : RateLimiter × Bool)
    : Type 0 where
  turned_away : get k r.0.counters ≡ none → r.1 ≡ false → Found n k now before r
  opened : Opens n k now r → Found n k now before r
  counted : (e : RouteCounter) → before ≡ some e → Counts n k e r → Found n k now before r

Found-admit :
    (n : ℕ) (g : RateLimiter) (k : Key) (now : ℕ) (before after : Option RouteCounter)
    → get k g.counters ≡ after
    → (after ≡ none) ⊎ (after ≡ before)
    → Found n k now before (admit n g k now)
Found-admit n g k now before none h s = elim (admit-none n g k now h) [
  | inl (gone, no_answer) ↦ turned_away gone no_answer
  | inr o ↦ opened o
]
Found-admit n g k now before (some e) h s = elim (admit-some n g k now e h) [
  | inl c ↦ counted e (ground arith) c
  | inr o ↦ opened o
]

keep_if_cases :
    (p : RouteCounter → Bool) (o : Option RouteCounter) → (keep_if p o ≡ none) ⊎ (keep_if p o ≡ o)
keep_if_cases p none = inl refl
keep_if_cases p (some e) = ground arith

swept_cases :
    (l : RateLimiter) (now : ℕ) (k : Key)
    → Tuned l.window (limit_of l k.0) k.0 l
    → (get k (gc l now).counters ≡ none) ⊎ (get k (gc l now).counters ≡ get k l.counters)
swept_cases l now k (m, _, _) =
    ground (arith, get-gc l now k m, keep_if_cases (is_live l.window now k) (get k l.counters))

module _ (from width n : ℕ) (p u : Text) where
  Found-check :
      (l : RateLimiter) (now : ℕ)
      → Tuned width n p l
      → Found n (p, u) now (get (p, u) l.counters) (check l p u now)
  unfolding check
  Found-check l now (m, w, b) = rw b (
      Found-admit n (gc l now) (p, u) now (get (p, u) l.counters) _ refl
        (swept_cases l now (p, u) (m, refl, refl)))

  shrink_other :
      (l : RateLimiter) (c : Call)
      → Tuned width n p l
      → (key_of c == (p, u)) ≡ false
      → (spare n (get (p, u) (check l c.path c.caller c.time).0.counters)
          ≤ spare n (get (p, u) l.counters))
        × (count_of (get (p, u) (check l c.path c.caller c.time).0.counters)
            ≤ count_of (get (p, u) l.counters))
  unfolding check
  shrink_other l c (m, w, b) other =
      rw (get-admit_other (limit_of l c.path) (gc l c.time) (c.path, c.caller) c.time (p, u) other)
        (ground (arith, swept_cases l c.time (p, u) (m, refl, refl)))

module _ (from width n : ℕ) (p u : Text) where
  abbrev Bound : RateLimiter → List Call → Type 0
  Bound l cs = allowed (p, u) l cs ≤ spare n (get (p, u) l.counters) + n

  -- One call for the key, with the bound for the calls after it.
  same_step :
      (l : RateLimiter) (c : Call) (cs : List Call) (r : RateLimiter × Bool)
      → Found n (p, u) c.time (get (p, u) l.counters) r
      → Tuned width n p r.0
      → from ≤ c.time
      → Within from width cs
      → count_of (get (p, u) l.counters) + suc (length cs) < 2 ^ 64
      → (count_of (get (p, u) r.0.counters) + length cs < 2 ^ 64 → Bound r.0 cs)
      → one r.1 + allowed (p, u) r.0 cs ≤ spare n (get (p, u) l.counters) + n
  same_step l c cs r (turned_away gone no_answer) t b w room ih =
      rw no_answer (ground (arith, ih (rw gone (omega arith)), gone))
  same_step l c cs r (opened (h, a)) t b w room ih =
      let e : RouteCounter = record { count = 1; window_start = c.time } in
      let rest = allowed-live from width n p u r.0 e cs t h b w (omega arith) in
      rw (a, rest) (ground arith)
  same_step l c cs r (counted e h (h', a)) t b w room ih =
      let small : e.count + suc (length cs) < 2 ^ 64 = rw h at room in
      let step : (e.count + 1) % 2 ^ 64 ≡ e.count + 1 = omega arith in
      let rest = ih (rw (h', step) (omega arith)) in
      let rest' : allowed (p, u) r.0 cs ≤ n - (e.count + 1) + n = rw (h', step) at rest in
      rw (a, h, step) (ground arith)

  -- In an interval shorter than the window a key gets at most what its running window leaves and
  -- one whole budget.
  pub allowed-Within :
      (l : RateLimiter) (cs : List Call)
      → Tuned width n p l
      → Within from width cs
      → count_of (get (p, u) l.counters) + length cs < 2 ^ 64
      → Bound l cs
  unfolding allowed
  allowed-Within l [] t w room = omega arith
  allowed-Within l (c ∷ cs) t (b, _, w) room =
      let t' = check-Tuned width n p l c t in
      let l' = (check l c.path c.caller c.time).0 in
      let ih : count_of (get (p, u) l'.counters) + length cs < 2 ^ 64 → Bound l' cs =
        λ r. allowed-Within l' cs t' w r in
      elim (Bool-cases (key_of c == (p, u))) [
        | inl same ↦
            let k = eq_of_== (key_of c) (p, u) same in
            let found : Found n (p, u) c.time (get (p, u) l.counters)
                (check l c.path c.caller c.time) =
              rw (ap (λ (q : Key). q.0) k, ap (λ (q : Key). q.1) k)
                (Found-check from width n p u l c.time t) in
            rw same (same_step l c cs (check l c.path c.caller c.time) found t' b w room ih)
        | inr other ↦
            let (fewer, lower) = shrink_other from width n p u l c t other in
            let rest = ih (omega arith) in rw other (omega (arith, fewer, rest))
      ]
