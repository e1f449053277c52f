-- ===== src/Sessions/Examples.antt =====
-- Runs of the session store of dashboard/auth.rs, and its theorems at concrete inputs. A password is
-- its own hash here.
use vaultproxy.Prelude.{
  ℕ, ◌+◌, ◌≤◌, ◌≡◌, ◌<◌, refl, Bool, true, none, some, List, [], ◌∷◌, arith, text_beq, Text, codes,
  length, Result, ok, err, ltb, text_eq,
}
use vaultproxy.HashMap.{get, insert, retain_map}
use vaultproxy.Window.{prune}
use vaultproxy.Window.Bound.{since}
use vaultproxy.Sessions.{
  SessionStore, Login, new, from_secs, login, is_valid, after_check, login_check, login_finish,
  with_hash, conclude, load_hash, create_session, evict, oldest, cleanup_expired,
  check_config_write_rate,
}
use vaultproxy.Sessions.Expiry.{IsBounded}
use vaultproxy.Sessions.Runs.{
  Operation, log_in, clean_up, check_write, run, step, run-new-IsBounded, valid-IsGranted,
  IsGranted,
}
use vaultproxy.Sessions.Guessing.{guesses, guesses_le_five}
use vaultproxy.Sessions.Granted.{login-is_valid, IsAccepted}
use vaultproxy.Sessions.Concurrent.{login_all, login_all_wrong, store}

abbrev is_same : Text → Text → Result Text Bool
is_same password hash = ok (text_beq password hash)

abbrev secret : Text
secret = codes "s3"

abbrev attempt : Text → ℕ → Text → Login
attempt p t id = record {
  password = p;
  now = from_secs t;
  failed_at = from_secs t;
  timestamp = t;
  on_disk = none;
  session_id = id;
}

abbrev first : Text
first = codes "a"

abbrev second : Text
second = codes "b"

abbrev fresh : SessionStore
fresh = new (some secret)

abbrev day : List Operation
day =
    log_in (attempt secret 10 first)
    ∷ log_in (attempt first 11 second)
    ∷ check_write 12
    ∷ clean_up 20
    ∷ []

login_run : (login is_same fresh (attempt secret 10 first)).1 ≡ ok first
unfolding login login_check after_check login_finish with_hash conclude load_hash new prune
login_run = refl

wrong_run : (login is_same fresh (attempt first 10 first)).1 ≡ err (codes "invalid password")
unfolding login login_check after_check login_finish with_hash conclude load_hash new prune
wrong_run = refl

valid_run : (is_valid (run is_same fresh day) first 86409).1 ≡ true
unfolding step run is_valid get insert evict oldest create_session cleanup_expired retain_map
    check_config_write_rate prune login login_check after_check login_finish with_hash conclude
    load_hash new
valid_run = refl

run-new-IsBounded_example : IsBounded (run is_same fresh day)
run-new-IsBounded_example = run-new-IsBounded is_same (some secret) day

valid-IsGranted_example : (e : ℕ) × IsGranted is_same fresh day first e × (86409 < e)
valid-IsGranted_example = valid-IsGranted is_same (some secret) day first 86409 valid_run

abbrev guess_list : List Login
guess_list =
    attempt first 10 first
    ∷ attempt second 20 first
    ∷ attempt first 30 second
    ∷ attempt secret 40 first
    ∷ attempt second 50 first
    ∷ attempt second 60 first
    ∷ attempt second 70 first
    ∷ []

guesses_run : guesses is_same 0 fresh guess_list ≡ 5
unfolding guesses create_session evict insert prune login login_check after_check login_finish
    with_hash conclude load_hash new
guesses_run = refl

guesses_le_five_example :
    guesses is_same (from_secs 10) fresh guess_list + since (from_secs 10) fresh.failed_attempts ≤ 5
unfolding new since
guesses_le_five_example =
    guesses_le_five is_same (from_secs 10) fresh guess_list
      (
        (omega arith, omega arith, omega arith),
        (
          (omega arith, omega arith, omega arith),
          (
            (omega arith, omega arith, omega arith),
            (
              (omega arith, omega arith, omega arith),
              (
                (omega arith, omega arith, omega arith),
                (
                  (omega arith, omega arith, omega arith),
                  ((omega arith, omega arith, omega arith), tt),
                ),
              ),
            ),
          ),
        ),
      )
      (omega arith)

login-is_valid_example :
    IsAccepted is_same (attempt secret 10 first) (some secret)
    × ((t : ℕ)
        → (is_valid (login is_same fresh (attempt secret 10 first)).0 first t).1 ≡ ltb t 86410)
unfolding new
login-is_valid_example = login-is_valid is_same fresh (attempt secret 10 first) first login_run

abbrev with_session : SessionStore
with_session = record {
  hash = some secret;
  sessions = (second, 90) ∷ [];
  failed_attempts = [];
  unlock_failed_attempts = [];
  config_write_attempts = [];
}

second_run : (login is_same with_session (attempt secret 10 first)).1 ≡ ok first
unfolding login login_check after_check login_finish with_hash conclude load_hash prune
second_run = refl

login_all_wrong_example :
    length
      (login_all is_same (store is_same fresh secret []) (
        attempt first 1 first
        ∷ attempt second 1 first
        ∷ attempt first 1 first
        ∷ attempt second 1 first
        ∷ attempt first 1 first
        ∷ attempt second 1 first
        ∷ [])).failed_attempts
    ≡ 6
login_all_wrong_example =
    login_all_wrong is_same fresh secret
      (attempt first 1 first
        ∷ attempt second 1 first
        ∷ attempt first 1 first
        ∷ attempt second 1 first
        ∷ attempt first 1 first
        ∷ attempt second 1 first
        ∷ [])
      (refl, (refl, (refl, (refl, (refl, (refl, tt))))))
