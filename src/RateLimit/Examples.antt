-- ===== src/RateLimit/Examples.antt =====
-- Runs of the rate limiter, and its theorems at concrete inputs.
use Prim.Native.Nat.{min}
use vaultproxy.Prelude.{
  ℕ, ◌-◌, ◌≤◌, ◌≡◌, refl, true, some, none, List, [], ◌∷◌, ◌*◌, ◌++◌, arith, Text, codes, length,
  text_eq, pair_eq, Option, ◌⊎◌,
}
use vaultproxy.HashMap.{get, insert, retain_map}
use vaultproxy.Text.{ends_with_char}
use vaultproxy.Text.Laws.{replicate}
use vaultproxy.RateLimit.{
  RateLimiter, from_secs, check, admit, gc, bump, limit_of, default_rate_limiter,
  max_caller_entries, is_live, Request, rate_limit_middleware, extract_caller_key,
}
use vaultproxy.RateLimit.Budget.{Call, requests, allowed}
use vaultproxy.RateLimit.Liveness.{check_ended}
use vaultproxy.RateLimit.Promises.{
  exact_budget, two_budgets, check-max_caller_entries, middleware_trailing_slashes,
  caller_key_cases, IsHeaderKey, IsUnusable, peer_key, carried,
}

abbrev run_path : Text
run_path = codes "/vault/audit/run"

abbrev alice : Text
alice = codes "alice"

abbrev call : Text → ℕ → Call
call u t = record { path = run_path; caller = u; time = from_secs t }

-- Alice has used one of the two audit runs of her window.
abbrev used_one : RateLimiter
used_one = record {
  counters = ((run_path, alice), record { count = 1; window_start = from_secs 100 }) ∷ [];
  max_requests = 60;
  window = from_secs 60;
  per_route = (run_path, 2) ∷ [];
  last_gc = from_secs 100;
}

abbrev schedule : List Call
schedule = call alice 110 ∷ call (codes "bob") 111 ∷ call alice 112 ∷ call alice 150 ∷ []

allowed_run : allowed (run_path, alice) used_one schedule ≡ 1
unfolding allowed check admit gc bump limit_of get insert retain_map is_live
allowed_run = refl

default_is_tight : limit_of (default_rate_limiter 0) run_path ≡ 2
unfolding limit_of default_rate_limiter get
default_is_tight = refl

exact_budget_example :
    allowed (run_path, alice) used_one schedule
    ≡ min (limit_of used_one run_path - 1) (requests (run_path, alice) schedule)
unfolding get
exact_budget_example =
    exact_budget used_one schedule (from_secs 100) run_path alice
      (record { count = 1; window_start = from_secs 100 }) (refl, tt) refl (omega arith)
      (omega arith) (omega arith)

two_budgets_example :
    (allowed (run_path, alice) used_one schedule ≤ 2 * limit_of used_one run_path)
    × (get (run_path, alice) used_one.counters ≡ none
        → allowed (run_path, alice) used_one schedule ≤ limit_of used_one run_path)
unfolding get
two_budgets_example =
    two_budgets used_one schedule (from_secs 110) run_path alice (refl, tt) (omega arith)
      (omega arith)

check-max_caller_entries_example :
    length (check used_one run_path alice (from_secs 110)).0.counters ≤ max_caller_entries
check-max_caller_entries_example =
    check-max_caller_entries used_one run_path alice (from_secs 110) (omega arith)

abbrev to_str : Text → Option Text
to_str = some

abbrev request : Request
request = record { path = run_path; x_caller_id = some alice; client_ip = none }

middleware_trailing_slashes_example :
    rate_limit_middleware to_str used_one
      (record request { path = run_path ++ replicate 2 b'/' })
      (from_secs 110)
    ≡ (
      (rate_limit_middleware to_str used_one request (from_secs 110)).0,
      carried
          (record request { path = run_path ++ replicate 2 b'/' })
          (rate_limit_middleware to_str used_one request (from_secs 110)).1,
    )
unfolding ends_with_char
middleware_trailing_slashes_example =
    middleware_trailing_slashes to_str used_one request (from_secs 110) 2 (cc) refl

caller_key_cases_example :
    ((raw s : Text) × (request.x_caller_id ≡ some raw)
      × (to_str raw ≡ some s)
      × IsHeaderKey s (extract_caller_key to_str request))
    ⊎ ((extract_caller_key to_str request ≡ peer_key request.client_ip) × IsUnusable to_str request)
caller_key_cases_example = caller_key_cases to_str request

check_ended_example : (check used_one run_path alice (from_secs 160)).1 ≡ true
unfolding get limit_of
check_ended_example =
    check_ended used_one run_path alice (from_secs 160)
      (record { count = 1; window_start = from_secs 100 }) (refl, tt) (omega arith) refl
      (omega arith) (omega arith)
