-- ===== src/AccessLog/Examples.antt =====
-- Runs of the access log of access_log.rs, and its theorems at concrete inputs, with an encoding in
-- the place of JSON and another in that of the HMAC.
use vaultproxy.Prelude.{
  ℕ, ◌+◌, ◌≡◌, ◌≢◌, ◌⊎◌, refl, true, Option, none, some, List, [], ◌∷◌, ◌++◌, arith, text_eq, Text,
  codes, length, take, drop, ok, err, map, all,
}
use vaultproxy.Text.{trim, trim_start, trim_end, is_whitespace}
use vaultproxy.Text.Laws.{replicate}
use vaultproxy.AccessLog.{
  Event, StoredEvent, event_of, AccessLog, File, read_lines, partial, chain_broken, unsynced,
  synced, record_event, last_of, last_hmac_from, compute_last_hmac, open_log, check_key,
  check_stored, verify_line, verify_from, verify, hmac_mismatch,
}
use vaultproxy.AccessLog.Chain.{
  record_all, AllReadable, record_all-verify, unsynced_breaks, IsConsistent, verified,
}
use vaultproxy.AccessLog.Tampering.{same_hash_cases, IsVerified, bodies_onto, Collision, no_brace}

abbrev put_text : Text → Text → Text
put_text s r = length s ∷ s ++ r

abbrev event_code : Event → Text
event_code ev = b'{' ∷ ev.ts ∷ ev.action

abbrev stored_code : StoredEvent → Text
stored_code e = b'{' ∷ e.ts ∷ put_text e.action (put_text e.prev_hmac e.hmac)

abbrev plain : ℕ → Text → Text → Text → StoredEvent
plain t a p h = record {
  ts = t;
  action = a;
  item = none;
  fields = [];
  peer_pid = none;
  peer_uid = none;
  peer_cmdline = none;
  outcome = [];
  prev_hmac = p;
  hmac = h;
}

abbrev read_hashes : ℕ → Text → Text → Option StoredEvent
read_hashes t a [] = none
read_hashes t a (n ∷ r) = some (plain t a (take n r) (drop n r))

abbrev from_code : Text → Option StoredEvent
from_code (b ∷ t ∷ n ∷ r) = read_hashes t (take n r) (drop n r)
from_code _ = none

abbrev shifted : Text → Text
shifted m = map (λ c. c + 200) m

abbrev hash : Text → Text → Text
hash key m = b'a' ∷ shifted m

shifted-no_brace : (m : Text) → all no_brace (shifted m) ≡ true
shifted-no_brace [] = refl
shifted-no_brace (c ∷ m) = ground (arith, shifted-no_brace m)

abbrev key : Text
key = replicate 32 7

abbrev event : ℕ → Event
event t = event_of (plain t (codes "get") [] [])

abbrev no_lines : File
no_lines = record { lines = []; tail = [] }

abbrev file_of : List Text → File
file_of lines = record { lines = lines; tail = [] }

abbrev start : AccessLog
start = record { hmac_key = key; last_hmac = []; file = no_lines }

-- The line of one event.
abbrev one_line : Text
one_line = stored_code (plain 300 (codes "get") [] (hash key (event_code (event 300))))

abbrev unended : File
unended = record { lines = []; tail = one_line }

-- Without its last line feed the file is verified, but then an event is recorded in the same line.
unended_verified : verify event_code from_code hash (some key) unended ≡ ok tt
unfolding verify verify_from verify_line check_stored check_key trim trim_start trim_end
    is_whitespace
unended_verified = refl

after_unended :
    verify event_code from_code hash
      (some key)
      (record_event event_code stored_code hash
        (record { hmac_key = key; last_hmac = hash key (event_code (event 300)); file = unended })
        (event 301)
        synced).0.file
    ≡ err (hmac_mismatch 1)
unfolding verify verify_from verify_line check_stored check_key trim trim_start trim_end
    is_whitespace record_event
after_unended = refl

-- So is an event after one of which only a part was written.
after_partial :
    verify event_code from_code hash
      (some key)
      (record_event event_code stored_code hash
        (record_event event_code stored_code hash start (event 300) (partial 4)).0
        (event 301)
        synced).0.file
    ≢ ok tt
unfolding verify verify_from verify_line check_stored check_key trim trim_start trim_end
    is_whitespace record_event
after_partial h = cc

abbrev two : List Event
two = event 300 ∷ event 301 ∷ []

abbrev two_lines : List Text
two_lines =
    stored_code (plain 300 (codes "get") [] (hash key (event_code (event 300))))
    ∷ []
    ∷ stored_code (
        plain 301 (codes "get") (hash key (event_code (event 300)))
          (hash key (hash key (event_code (event 300)) ++ event_code (event 301))))
    ∷ []

two_verified : verify event_code from_code hash (some key) (file_of two_lines) ≡ ok tt
unfolding verify verify_from verify_line check_stored check_key trim trim_start trim_end
    is_whitespace
two_verified = refl

-- A changed action is found.
forged :
    verify event_code from_code hash
      (some key)
      (file_of (stored_code (plain 300 (codes "put") [] (hash key (event_code (event 300)))) ∷ []))
    ≡ err (hmac_mismatch 1)
unfolding verify verify_from verify_line check_stored check_key trim trim_start trim_end
    is_whitespace
forged = refl

two_readable : AllReadable event_code stored_code from_code hash start two
unfolding AllReadable record_event trim trim_start trim_end is_whitespace
two_readable = ((refl, refl), ((refl, refl), tt))

start_opened : open_log from_code (some key) no_lines ≡ ok start
unfolding open_log compute_last_hmac last_hmac_from check_key
start_opened = refl

record_all-verify_example :
    (verify event_code from_code hash
        (some key)
        (record_all event_code stored_code from_code hash start two).file
      ≡ ok tt)
    × (open_log from_code
          (some key)
          (record_all event_code stored_code from_code hash start two).file
        ≡ ok (record_all event_code stored_code from_code hash start two))
unfolding verify verify_from check_key
record_all-verify_example =
    record_all-verify event_code stored_code from_code hash key no_lines start two refl refl
      start_opened two_readable

start-IsConsistent : IsConsistent event_code stored_code from_code hash start
unfolding verify_from last_hmac_from
start-IsConsistent = record { ended = refl; sound = refl; current = refl }

not_empty : (c : ℕ) (s : Text) → c ∷ s ≢ []
not_empty c s h = cc

unsynced_breaks_example :
    (n : ℕ) × (verified event_code stored_code from_code hash key [] 1 (
        read_lines
          (record_event event_code stored_code hash
            (record_event event_code stored_code hash start (event 300) unsynced).0
            (event 301)
            synced).0.file)
      ≡ err (chain_broken n))
unfolding trim trim_start trim_end is_whitespace
unsynced_breaks_example =
    unsynced_breaks event_code stored_code from_code hash start (event 300) (event 301)
      start-IsConsistent (refl, refl) (refl, refl)
      (λ h. not_empty b'a' (shifted (event_code (event 300))) h)

abbrev last : Text
last = hash key (hash key (event_code (event 300)) ++ event_code (event 301))

-- The same lines without the blank one.
abbrev two_plain : List Text
two_plain = read_lines (record_all event_code stored_code from_code hash start two).file

two_plain-IsVerified : IsVerified event_code from_code hash key two_plain last
unfolding verify_from verify_line check_stored last_hmac_from last_of trim trim_start trim_end
    is_whitespace record_all record_event
two_plain-IsVerified = (refl, refl)

two-IsVerified : IsVerified event_code from_code hash key two_lines last
unfolding verify_from verify_line check_stored last_hmac_from last_of trim trim_start trim_end
    is_whitespace
two-IsVerified = (refl, refl)

same_hash_cases_example :
    (bodies_onto event_code from_code hash key [] two_lines
      ≡ bodies_onto event_code from_code hash key [] two_plain)
    ⊎ Collision event_code from_code hash key
same_hash_cases_example =
    same_hash_cases event_code from_code hash key (λ ev. (ev.ts ∷ ev.action, refl))
      (λ m. shifted-no_brace m) (λ m. not_empty b'a' (shifted m)) two_lines two_plain last
      two-IsVerified two_plain-IsVerified
