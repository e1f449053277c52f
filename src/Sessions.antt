-- ===== src/Sessions.antt =====
-- `SessionStore` of dashboard/auth.rs. Instants are numbers of nanoseconds, and time stamps are
-- seconds since 1970. `bcrypt::verify`, the random session id and the file are arguments.
pub mod Expiry
pub mod Guessing
pub mod Runs
pub mod Granted
pub mod Concurrent
pub mod Writes
mod Examples
use vaultproxy.Prelude.{
  ℕ, ◌+◌, ◌*◌, Bool, true, false, Option, none, some, List, [], ◌∷◌, ◌++◌, if◌then◌else◌, leb, ltb,
  HasEq, text_eq, Text, codes, length, Result, ok, err,
}
use vaultproxy.HashMap.{HashMap, get, insert, remove, retain_map}
use vaultproxy.Window.{prune}

pub record SessionStore : Type 0 where
  pub hash : Option Text
  pub sessions : HashMap Text ℕ
  pub failed_attempts : List ℕ
  pub unlock_failed_attempts : List ℕ
  pub config_write_attempts : List ℕ

abbrev pub from_secs : ℕ → ℕ
from_secs n = n * 1000000000

-- `new`, from the password hash of the configuration file, if it has one.
unfoldable pub new : Option Text → SessionStore
new hash = record {
  hash = hash;
  sessions = [];
  failed_attempts = [];
  unlock_failed_attempts = [];
  config_write_attempts = [];
}

abbrev pub Checked : Type 0
Checked = Result Text (Unit {0})

unfoldable pub check_unlock_rate_limit : SessionStore → ℕ → SessionStore × Checked
check_unlock_rate_limit s now =
    let attempts = prune (from_secs 300) now s.unlock_failed_attempts in
    (
      record s { unlock_failed_attempts = attempts },
      if leb 5 (length attempts)
          then err (codes "too many failed unlock attempts — try again later")
          else ok tt,
    )

unfoldable pub record_unlock_failure : SessionStore → ℕ → SessionStore
record_unlock_failure s now = record s {
  unlock_failed_attempts = s.unlock_failed_attempts ++ now ∷ [];
}

unfoldable pub reset_unlock_failures : SessionStore → SessionStore
reset_unlock_failures s = record s { unlock_failed_attempts = [] }

unfoldable pub check_config_write_rate : SessionStore → ℕ → SessionStore × Checked
check_config_write_rate s now =
    let attempts = prune (from_secs 60) now s.config_write_attempts in
    if leb 30 (length attempts)
    then (
      record s { config_write_attempts = attempts },
      err (codes "config write rate limit exceeded — try again later"),
    )
    else (record s { config_write_attempts = attempts ++ now ∷ [] }, ok tt)

unfoldable pub is_configured : SessionStore → Bool
is_configured s = elim s.hash [ none ↦ false | some _ ↦ true ]

-- `set_password`, given what `bcrypt::hash` and the write of the file answer.
unfoldable pub set_password :
    SessionStore → Result Text Text → Result Text (Unit {0}) → SessionStore × Checked
set_password s (err e) written = (s, err (codes "bcrypt hash failed: " ++ e))
set_password s (ok hashed) (err e) = (s, err (codes "write config: " ++ e))
set_password s (ok hashed) (ok _) = (record s { hash = some hashed }, ok tt)

-- The first part of `login`, under the lock of the failed attempts.
unfoldable pub login_check : SessionStore → ℕ → SessionStore × Checked
login_check s now =
    let attempts = prune (from_secs 300) now s.failed_attempts in
    (
      record s { failed_attempts = attempts },
      if leb 5 (length attempts)
          then err (codes "too many failed attempts — try again later")
          else ok tt,
    )

-- The second part: a hash that is not loaded is read from the file. `on_disk` is the password hash
-- of the file, if the file is there and can be parsed.
abbrev pub or_disk : Option Text → Option Text → Option Text
or_disk none on_disk = on_disk
or_disk (some h) on_disk = some h

unfoldable pub load_hash : SessionStore → Option Text → SessionStore
load_hash s on_disk = record s { hash = or_disk s.hash on_disk }

abbrev pub max_sessions : ℕ
max_sessions = 100

-- `iter().min_by_key(|(_, exp)| exp)`: the first entry with the least expiry.
abbrev pub earlier : Text × ℕ → Option (Text × ℕ) → Text × ℕ
earlier e none = e
earlier e (some f) = if ltb f.1 e.1 then f else e

unfoldable pub oldest : HashMap Text ℕ → Option (Text × ℕ)
oldest [] = none
oldest (e ∷ m) = some (earlier e (oldest m))

abbrev pub without_oldest : HashMap Text ℕ → Option (Text × ℕ) → HashMap Text ℕ
without_oldest m none = m
without_oldest m (some (id, _)) = remove id m

unfoldable pub evict : HashMap Text ℕ → HashMap Text ℕ
evict m = if leb max_sessions (length m) then without_oldest m (oldest m) else m

unfoldable pub create_session : SessionStore → Text → ℕ → SessionStore
create_session s id timestamp = record s {
  sessions = insert id (timestamp + 86400) (evict s.sessions);
}

unfoldable pub is_valid : SessionStore → Text → ℕ → SessionStore × Bool
is_valid s id timestamp = elim (get id s.sessions) [
  | none ↦ (s, false)
  | some expiry ↦
      if ltb timestamp expiry
      then (s, true)
      else (record s { sessions = remove id s.sessions }, false)
]

unfoldable pub cleanup_expired : SessionStore → ℕ → SessionStore
cleanup_expired s now = record s { sessions = retain_map (λ id expiry. ltb now expiry) s.sessions }

-- What a login takes from outside: the clocks, the file and the new session id.
pub record Login : Type 0 where
  pub password : Text
  pub now : ℕ
  pub failed_at : ℕ
  pub timestamp : ℕ
  pub on_disk : Option Text
  pub session_id : Text

-- `verify password hash` is the answer of bcrypt.
module _ (verify : Text → Text → Result Text Bool) where
  -- The last part of `login`, with what bcrypt answers for the password.
  unfoldable pub conclude :
      SessionStore → Login → Result Text Bool → SessionStore × Result Text Text
  conclude s l (err e) = (s, err (codes "bcrypt verify: " ++ e))
  conclude s l (ok false) = (
    record s { failed_attempts = s.failed_attempts ++ l.failed_at ∷ [] },
    err (codes "invalid password"),
  )
  conclude s l (ok true) = (create_session s l.session_id l.timestamp, ok l.session_id)

  unfoldable pub with_hash : SessionStore → Login → Option Text → SessionStore × Result Text Text
  with_hash s l none = (s, err (codes "no password configured"))
  with_hash s l (some hash) = conclude s l (verify l.password hash)

  unfoldable pub login_finish : SessionStore → Login → SessionStore × Result Text Text
  login_finish s l = let s1 = load_hash s l.on_disk in with_hash s1 l s1.hash

  unfoldable pub after_check : SessionStore → Login → Checked → SessionStore × Result Text Text
  after_check s l (err e) = (s, err e)
  after_check s l (ok _) = login_finish s l

  unfoldable pub login : SessionStore → Login → SessionStore × Result Text Text
  login s l = let (s1, checked) = login_check s l.now in after_check s1 l checked
