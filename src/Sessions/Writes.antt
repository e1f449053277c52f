-- ===== src/Sessions/Writes.antt =====
-- The limit on configuration writes of dashboard/auth.rs, which is that of Window.
use vaultproxy.Prelude.{
  ℕ, ◌+◌, ◌≤◌, ◌≡◌, refl, List, [], ◌∷◌, arith, if◌then◌else◌, leb, length, ok, err, inl, inr,
  Bool-cases, ap,
}
use vaultproxy.Window.{prune, check_and_record}
use vaultproxy.Window.Bound.{since, Within, allowed, allowed-since-le}
use vaultproxy.Sessions.{SessionStore, from_secs, check_config_write_rate, Checked}

abbrev pub granted : Checked → ℕ
granted (ok u) = 1
granted (err e) = 0

-- Writes that are let through by checks at the given instants.
unfoldable pub writes : SessionStore → List ℕ → ℕ
writes s [] = 0
writes s (t ∷ ts) =
    granted (check_config_write_rate s t).1 + writes (check_config_write_rate s t).0 ts

write-check_and_record :
    (s : SessionStore) (t : ℕ)
    → ((check_config_write_rate s t).0.config_write_attempts
        ≡ (check_and_record 30 (from_secs 60) s.config_write_attempts t).0)
      × (granted (check_config_write_rate s t).1
          ≡ (if (check_and_record 30 (from_secs 60) s.config_write_attempts t).1 then 1 else 0))
unfolding check_config_write_rate check_and_record
write-check_and_record s t =
    elim (Bool-cases (leb 30 (length (prune (from_secs 60) t s.config_write_attempts)))) [
      | inl full ↦ rw (full, granted) (refl, refl)
      | inr room ↦ rw (room, granted) (refl, refl)
    ]

writes-allowed :
    (s : SessionStore) (ts : List ℕ)
    → writes s ts ≡ allowed 30 (from_secs 60) s.config_write_attempts ts
unfolding writes allowed
writes-allowed s [] = refl
writes-allowed s (t ∷ ts) =
    let (kept, one) = write-check_and_record s t in
    let rest = writes-allowed (check_config_write_rate s t).0 ts in
    let shown : allowed 30 (from_secs 60) (check_config_write_rate s t).0.config_write_attempts ts
        ≡ allowed 30 (from_secs 60) (check_and_record 30 (from_secs 60) s.config_write_attempts t).0
            ts =
      ap (λ a. allowed 30 (from_secs 60) a ts) kept in
    omega (arith, one, rest, shown)

-- In an interval shorter than one minute at most thirty configuration writes are let through,
-- counted with those recorded in it before.
pub writes_le_thirty :
    (s : SessionStore) (from : ℕ) (ts : List ℕ)
    → Within from (from_secs 60) ts
    → since from s.config_write_attempts ≤ 30
    → writes s ts + since from s.config_write_attempts ≤ 30
writes_le_thirty s from ts w le =
    let most = allowed-since-le 30 (from_secs 60) from s.config_write_attempts ts w le in
    omega (arith, writes-allowed s ts, most)
