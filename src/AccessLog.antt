-- ===== src/AccessLog.antt =====
-- access_log.rs: the log whose lines are chained by an HMAC. The file is the list of its lines that
-- end in a line feed and what stands after the last of them; JSON, whose texts hold no line feed, and
-- the HMAC, with its hex digits, are parameters.
pub mod Chain
pub mod Tampering
mod Examples
use vaultproxy.Prelude.{
  ℕ, suc, Bool, true, false, not, Option, none, some, List, [], ◌∷◌, ◌++◌, if◌then◌else◌, eqb,
  HasEq, ◌==◌, text_eq, Text, length, take, Result, ok, err, ◌>>=◌,
}
use vaultproxy.Text.{is_empty, trim}

pub record Event : Type 0 where
  pub ts : ℕ
  pub action : Text
  pub item : Option Text
  pub fields : List Text
  pub peer_pid : Option ℕ
  pub peer_uid : Option ℕ
  pub peer_cmdline : Option Text
  pub outcome : Text

pub record StoredEvent : Type 0 where
  pub ts : ℕ
  pub action : Text
  pub item : Option Text
  pub fields : List Text
  pub peer_pid : Option ℕ
  pub peer_uid : Option ℕ
  pub peer_cmdline : Option Text
  pub outcome : Text
  pub prev_hmac : Text
  pub hmac : Text

abbrev pub stored_event : Event → Text → Text → StoredEvent
stored_event ev prev hmac = record {
  ts = ev.ts;
  action = ev.action;
  item = ev.item;
  fields = ev.fields;
  peer_pid = ev.peer_pid;
  peer_uid = ev.peer_uid;
  peer_cmdline = ev.peer_cmdline;
  outcome = ev.outcome;
  prev_hmac = prev;
  hmac = hmac;
}

-- The event that `verify` makes of a stored one.
abbrev pub event_of : StoredEvent → Event
event_of stored = record {
  ts = stored.ts;
  action = stored.action;
  item = stored.item;
  fields = stored.fields;
  peer_pid = stored.peer_pid;
  peer_uid = stored.peer_uid;
  peer_cmdline = stored.peer_cmdline;
  outcome = stored.outcome;
}

-- The lines that end in a line feed, and what stands after the last line feed.
pub record File : Type 0 where
  pub lines : List Text
  pub tail : Text

-- `BufReader::lines`: what stands after the last line feed is a line, if it is not empty.
abbrev pub last_line : Text → List Text
last_line [] = []
last_line (c ∷ tail) = (c ∷ tail) ∷ []

abbrev pub read_lines : File → List Text
read_lines file = file.lines ++ last_line file.tail

-- What is written goes on where the file ends, also in a line that has no line feed yet.
abbrev pub append_line : File → Text → File
append_line file line = record { lines = file.lines ++ (file.tail ++ line) ∷ []; tail = [] }

abbrev pub append_part : File → Text → File
append_part file part = record file { tail = file.tail ++ part }

-- The log with its file.
pub record AccessLog : Type 0 where
  pub hmac_key : Text
  pub last_hmac : Text
  pub file : File

-- What becomes of a write: nothing is written, only so many bytes of the line and not its line
-- feed are written, the line is in the file but `sync_data` fails, or it succeeds.
pub data Write : Type 0 where
  unwritten : Write
  partial : (n : ℕ) → Write
  unsynced : Write
  synced : Write

pub data Failure : Type 0 where
  key_unreadable : Failure
  key_length : ℕ → Failure
  unparsed : ℕ → Failure
  chain_broken : ℕ → Failure
  hmac_mismatch : ℕ → Failure
  write_failed : Failure

abbrev pub is_blank : Text → Bool
is_blank line = is_empty (trim line)

-- The key of a file that was read, or of the bytes that were drawn if there was no file.
unfoldable pub check_key : Option Text → Result Failure Text
check_key none = err key_unreadable
check_key (some key) = if eqb (length key) 32 then ok key else err (key_length (length key))

module _ (event_json : Event → Text) (hex_hmac : Text → Text → Text) where
  abbrev pub chained : Text → Text → Event → Text
  chained key prev ev = hex_hmac key (prev ++ event_json ev)

  -- What `verify` checks of a line that is not blank, answering with its hash.
  unfoldable pub check_stored : Text → Text → ℕ → StoredEvent → Result Failure Text
  check_stored key prev n stored =
      if not (stored.prev_hmac == prev)
      then err (chain_broken n)
      else if not (chained key stored.prev_hmac (event_of stored) == stored.hmac)
      then err (hmac_mismatch n)
      else ok stored.hmac

module _ (event_json : Event → Text) (stored_json : StoredEvent → Text)
    (hex_hmac : Text → Text → Text) where
  abbrev pub line_of : AccessLog → Event → Text
  line_of log ev =
      stored_json
        (stored_event ev log.last_hmac (chained event_json hex_hmac log.hmac_key log.last_hmac ev))

  -- `record`
  unfoldable pub record_event : AccessLog → Event → Write → AccessLog × Result Failure Unit
  record_event log ev unwritten = (log, err write_failed)
  record_event log ev (partial n) =
      (record log { file = append_part log.file (take n (line_of log ev)) }, err write_failed)
  record_event log ev unsynced =
      (record log { file = append_line log.file (line_of log ev) }, err write_failed)
  record_event log ev synced = (
    record log {
      file = append_line log.file (line_of log ev);
      last_hmac = chained event_json hex_hmac log.hmac_key log.last_hmac ev;
    },
    ok tt,
  )

module _ (from_json : Text → Option StoredEvent) where
  -- One line in the loop of `compute_last_hmac`, after lines whose last hash is `last`.
  unfoldable pub last_of : Text → ℕ → Text → Result Failure Text
  last_of last n line =
      if is_blank line
      then ok last
      else elim (from_json line) [ none ↦ err (unparsed n) | some stored ↦ ok stored.hmac ]

  unfoldable pub last_hmac_from : Text → ℕ → List Text → Result Failure Text
  last_hmac_from last n [] = ok last
  last_hmac_from last n (line ∷ lines) = last_of last n line >>= λ h. last_hmac_from h (suc n) lines

  -- `compute_last_hmac`, of a file that can be read.
  unfoldable pub compute_last_hmac : File → Result Failure Text
  compute_last_hmac file = last_hmac_from [] 1 (read_lines file)

  -- `open`
  unfoldable pub open_log : Option Text → File → Result Failure AccessLog
  open_log key file = check_key key >>= λ hmac_key. compute_last_hmac file >>= λ last.
      ok (record { hmac_key = hmac_key; last_hmac = last; file = file })

module _ (event_json : Event → Text) (from_json : Text → Option StoredEvent)
    (hex_hmac : Text → Text → Text) where
  -- One line in the loop of `verify`, after lines whose last hash is `prev`.
  unfoldable pub verify_line : Text → Text → ℕ → Text → Result Failure Text
  verify_line key prev n line = if is_blank line then ok prev else elim (from_json line) [
    | none ↦ err (unparsed n)
    | some stored ↦ check_stored event_json hex_hmac key prev n stored
  ]

  unfoldable pub verify_from : Text → Text → ℕ → List Text → Result Failure Unit
  verify_from key prev n [] = ok tt
  verify_from key prev n (line ∷ lines) =
      verify_line key prev n line >>= λ h. verify_from key h (suc n) lines

  unfoldable pub verify : Option Text → File → Result Failure Unit
  verify key file = check_key key >>= λ hmac_key. verify_from hmac_key [] 1 (read_lines file)
