-- ===== src/Window.antt =====
-- Limits over a list of recorded instants, as notify.rs and dashboard/auth.rs keep them: prune what
-- is older than the window, refuse at the limit, else record. An `Instant` is a number of
-- nanoseconds, and `elapsed` is truncated subtraction.
pub mod Bound
use vaultproxy.Prelude.{
  ℕ, ◌-◌, Bool, true, false, List, [], ◌∷◌, ◌++◌, if◌then◌else◌, leb, ltb, length, retain,
}

-- `timestamps.retain(|t| now.duration_since(*t) < window)`
unfoldable pub prune : ℕ → ℕ → List ℕ → List ℕ
prune window now = retain (λ t. ltb (now - t) window)

unfoldable pub check_and_record : ℕ → ℕ → List ℕ → ℕ → List ℕ × Bool
check_and_record max_count window timestamps now =
    let recent = prune window now timestamps in
    if leb max_count (length recent) then (recent, false) else (recent ++ now ∷ [], true)
