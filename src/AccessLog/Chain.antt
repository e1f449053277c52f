-- ===== src/AccessLog/Chain.antt =====
-- The log of access_log.rs as it is written: what is recorded is verified, also after the log was
-- opened again, and a failed sync breaks the chain.
use mathlib.Core.List.{append_assoc, append-nil}
use mathlib.Core.Path.{subst}
use vaultproxy.Prelude.{
  ℕ, suc, ◌≡◌, ◌≢◌, refl, ap, ◌∙◌, sym, false, Option, some, List, [], ◌∷◌, ◌++◌, arith, eqb, ◌==◌,
  ==_refl, text_eq, Text, length, Result, ok, err, >>=-eq-ok, Bool-cases, Option-cases, inl, inr,
}
use vaultproxy.AccessLog.{
  Event, StoredEvent, stored_event, AccessLog, File, read_lines, last_line, append_line, unsynced,
  synced, Failure, chain_broken, is_blank, check_key, chained, line_of, record_event, last_of,
  last_hmac_from, compute_last_hmac, open_log, check_stored, verify_line, verify_from, verify,
}

pub ok-injective : {E A : Type 0} {a b : A} → ◌≡◌ {A = Result E A} (ok a) (ok b) → a ≡ b
ok-injective h = cc

-- A line that is written to a file that ends in a line feed is one more line.
read_lines-append_line :
    (file : File) (line : Text)
    → file.tail ≡ []
    → read_lines (append_line file line) ≡ read_lines file ++ line ∷ []
read_lines-append_line file line ended =
    append-nil (file.lines ++ (file.tail ++ line) ∷ [])
    ∙ ap (λ t. file.lines ++ (t ++ line) ∷ []) ended
    ∙ ap (λ l. l ++ line ∷ [])
        (sym (ap (λ t. file.lines ++ last_line t) ended ∙ append-nil file.lines))

read_lines-append_two :
    (file : File) (first second : Text)
    → file.tail ≡ []
    → read_lines (append_line (append_line file first) second)
      ≡ read_lines file ++ first ∷ second ∷ []
read_lines-append_two file first second ended =
    read_lines-append_line (append_line file first) second refl
    ∙ ap (λ l. l ++ second ∷ []) (read_lines-append_line file first ended)
    ∙ append_assoc (read_lines file) (first ∷ []) (second ∷ [])

module _ (event_json : Event → Text) (from_json : Text → Option StoredEvent)
    (hex_hmac : Text → Text → Text) where
  pub verify_line-last_of :
      (key prev line h : Text) (n : ℕ)
      → verify_line event_json from_json hex_hmac key prev n line ≡ ok h
      → last_of from_json prev n line ≡ ok h
  unfolding verify_line last_of check_stored
  verify_line-last_of key prev line h n v = elim (Bool-cases (is_blank line)) [
    | inl blank ↦ ground arith
    | inr text ↦ elim (Option-cases (from_json line)) [
      | inl absent ↦ ground arith
      | inr (read, found) ↦ ground arith
    ]
  ]

module _ (event_json : Event → Text) (stored_json : StoredEvent → Text)
    (from_json : Text → Option StoredEvent) (hex_hmac : Text → Text → Text) where
  abbrev pub verified : Text → Text → ℕ → List Text → Result Failure Unit
  verified = verify_from event_json from_json hex_hmac

  -- A file that is verified has a last hash, and what is appended is checked against it.
  pub verified-append :
      (key prev : Text) (n : ℕ) (file more : List Text)
      → verified key prev n file ≡ ok tt
      → (h : Text) × (last_hmac_from from_json prev n file ≡ ok h)
        × ((k : ℕ) × (verified key prev n (file ++ more) ≡ verified key h k more)
            × (last_hmac_from from_json prev n (file ++ more) ≡ last_hmac_from from_json h k more))
  unfolding verify_from last_hmac_from
  verified-append key prev n [] more v = (prev, refl, (n, refl, refl))
  verified-append key prev n (line ∷ file) more v =
      let (h, first, others) =
        >>=-eq-ok (verify_line event_json from_json hex_hmac key prev n line)
          (λ h'. verified key h' (suc n) file) v in
      let (last, found, (k, same, same_last)) = verified-append key h (suc n) file more others in
      let read = verify_line-last_of event_json from_json hex_hmac key prev line h n first in
      (last, rw read found, (k, rw first same, rw read same_last))

  -- A line is not blank and is read back.
  abbrev pub IsReadable : StoredEvent → Type 0
  IsReadable stored =
      (is_blank (stored_json stored) ≡ false) × (from_json (stored_json stored) ≡ some stored)

  abbrev pub stored_of : AccessLog → Event → StoredEvent
  stored_of log ev =
      stored_event ev log.last_hmac (chained event_json hex_hmac log.hmac_key log.last_hmac ev)

  verify_line-line_of :
      (log : AccessLog) (ev : Event) (n : ℕ)
      → IsReadable (stored_of log ev)
      → verify_line event_json from_json hex_hmac log.hmac_key log.last_hmac n
          (line_of event_json stored_json hex_hmac log ev)
        ≡ ok (chained event_json hex_hmac log.hmac_key log.last_hmac ev)
  unfolding verify_line check_stored
  verify_line-line_of log ev n (b, r) =
      rw (b, r)
        (rw
          (
            ==_refl log.last_hmac,
            ==_refl (chained event_json hex_hmac log.hmac_key log.last_hmac ev),
          )
          refl)

  -- The file is verified and ends in a line feed, if it is not empty, and the log goes on from its
  -- last hash.
  pub record IsConsistent (log : AccessLog) : Type 0 where
    pub ended : log.file.tail ≡ []
    pub sound : verified log.hmac_key [] 1 (read_lines log.file) ≡ ok tt
    pub current : last_hmac_from from_json [] 1 (read_lines log.file) ≡ ok log.last_hmac

  append-IsConsistent :
      (log : AccessLog) (ev : Event)
      → IsReadable (stored_of log ev)
      → IsConsistent log
      → IsConsistent (record_event event_json stored_json hex_hmac log ev synced).0
  unfolding record_event verify_from last_hmac_from
  append-IsConsistent log ev r c =
      let line = line_of event_json stored_json hex_hmac log ev in
      let (h, found, (k, same, same_last)) =
        verified-append log.hmac_key [] 1 (read_lines log.file) (line ∷ []) c.sound in
      let whole = read_lines-append_line log.file line c.ended in
      let now : log.last_hmac ≡ h = ok-injective (sym c.current ∙ found) in
      let good = verify_line-line_of log ev k r in
      let read =
        verify_line-last_of event_json from_json hex_hmac log.hmac_key log.last_hmac line
          (stored_of log ev).hmac k good in
      record {
        ended = refl;
        sound = ap (verified log.hmac_key [] 1) whole ∙ same ∙ rw (sym now, good) refl;
        current = ap (last_hmac_from from_json [] 1) whole ∙ same_last ∙ rw (sym now, read) refl;
      }

  -- Records that all succeed.
  unfoldable pub record_all : AccessLog → List Event → AccessLog
  record_all log [] = log
  record_all log (ev ∷ evs) =
      record_all (record_event event_json stored_json hex_hmac log ev synced).0 evs

  unfoldable pub AllReadable : AccessLog → List Event → Type 0
  AllReadable log [] = Unit
  AllReadable log (ev ∷ evs) =
      IsReadable (stored_of log ev)
      × AllReadable (record_event event_json stored_json hex_hmac log ev synced).0 evs

  record_all-IsConsistent :
      (log : AccessLog) (evs : List Event)
      → AllReadable log evs
      → IsConsistent log
      → IsConsistent (record_all log evs)
  unfolding record_all AllReadable
  record_all-IsConsistent log [] r c = c
  record_all-IsConsistent log (ev ∷ evs) (r, rs) c =
      record_all-IsConsistent (record_event event_json stored_json hex_hmac log ev synced).0 evs rs
        (append-IsConsistent log ev r c)

  record_all-hmac_key :
      (log : AccessLog) (evs : List Event) → (record_all log evs).hmac_key ≡ log.hmac_key
  unfolding record_all record_event
  record_all-hmac_key log [] = refl
  record_all-hmac_key log (ev ∷ evs) =
      record_all-hmac_key (record_event event_json stored_json hex_hmac log ev synced).0 evs

  -- A consistent log is verified with its key, and opened as it is.
  consistent_log :
      (key : Text) (log : AccessLog)
      → log.hmac_key ≡ key
      → length key ≡ 32
      → IsConsistent log
      → (verify event_json from_json hex_hmac (some key) log.file ≡ ok tt)
        × (open_log from_json (some key) log.file ≡ ok log)
  unfolding verify open_log check_key compute_last_hmac
  consistent_log key log same l c = (
    rw l (ap (λ k. verified k [] 1 (read_lines log.file)) (sym same) ∙ c.sound),
    rw l (
        rw c.current (
          ap (λ k. ok (record { hmac_key = k; last_hmac = log.last_hmac; file = log.file }))
            (sym same))),
  )

  verify_sound :
      (key : Text) (file : File)
      → verify event_json from_json hex_hmac (some key) file ≡ ok tt
      → (length key ≡ 32) × (verified key [] 1 (read_lines file) ≡ ok tt)
  unfolding verify check_key
  verify_sound key file v = elim (Bool-cases (eqb (length key) 32)) [
    | inl right ↦ ground arith
    | inr wrong ↦ ground arith
  ]

  -- A file that is verified with the key, and ends in a line feed if it is not empty, is opened by it.
  verify-open_log :
      (key : Text) (file : File)
      → verify event_json from_json hex_hmac (some key) file ≡ ok tt
      → file.tail ≡ []
      → (length key ≡ 32)
        × ((log : AccessLog) × (open_log from_json (some key) file ≡ ok log)
            × (log.hmac_key ≡ key)
            × IsConsistent log)
  verify-open_log key file v ended =
      let (right, sound) = verify_sound key file v in
      let (h, found, _) = verified-append key [] 1 (read_lines file) [] sound in
      let log : AccessLog = record { hmac_key = key; last_hmac = h; file = file } in
      let start : IsConsistent log = record { ended = ended; sound = sound; current = found } in
      (right, (log, (consistent_log key log refl right start).1, refl, start))

  -- Whatever is recorded, by writes that succeed, in a log that was opened on a verified file that is
  -- empty or ends in a line feed, the file is verified, and opening it again gives the log as it is,
  -- provided that the lines are not blank and are read back.
  pub record_all-verify :
      (key : Text) (file : File) (log : AccessLog) (evs : List Event)
      → verify event_json from_json hex_hmac (some key) file ≡ ok tt
      → file.tail ≡ []
      → open_log from_json (some key) file ≡ ok log
      → AllReadable log evs
      → (verify event_json from_json hex_hmac (some key) (record_all log evs).file ≡ ok tt)
        × (open_log from_json (some key) (record_all log evs).file ≡ ok (record_all log evs))
  record_all-verify key file log evs v ended o r =
      let (right, (log', o', same_key, start)) = verify-open_log key file v ended in
      let same : log' ≡ log = ok-injective (sym o' ∙ o) in
      consistent_log key (record_all log evs)
        (record_all-hmac_key log evs ∙ ap (λ t. t.hmac_key) (sym same) ∙ same_key) right
        (record_all-IsConsistent log evs r (subst (λ t. IsConsistent t) same start))

  not_chained :
      (log : AccessLog) (next : Event) (h : Text) (n : ℕ)
      → IsReadable (stored_of log next)
      → h ≢ log.last_hmac
      → verify_line event_json from_json hex_hmac log.hmac_key h n
          (line_of event_json stored_json hex_hmac log next)
        ≡ err (chain_broken n)
  unfolding verify_line check_stored
  not_chained log next h n (b, r) differ = elim (Bool-cases (log.last_hmac == h)) [
    | inl same ↦ absurd (differ (sym ((text_eq.same_iff log.last_hmac h).0 same)))
    | inr other ↦ rw (b, r) (rw other refl)
  ]

  -- When the line of an event has reached the file of a consistent log but could not be synced, the
  -- next line is chained to the hash before that event, and the file is not verified any more,
  -- unless the two hashes are the same.
  pub unsynced_breaks :
      (log : AccessLog) (ev next : Event)
      → IsConsistent log
      → IsReadable (stored_of log ev)
      → IsReadable (stored_of log next)
      → chained event_json hex_hmac log.hmac_key log.last_hmac ev ≢ log.last_hmac
      → (n : ℕ) × (verified log.hmac_key [] 1 (
            read_lines
              (record_event event_json stored_json hex_hmac
                (record_event event_json stored_json hex_hmac log ev unsynced).0
                next
                synced).0.file)
          ≡ err (chain_broken n))
  unfolding record_event verify_from
  unsynced_breaks log ev next c r s differ =
      let first = line_of event_json stored_json hex_hmac log ev in
      let second = line_of event_json stored_json hex_hmac log next in
      let (h, found, (k, same, _)) =
        verified-append log.hmac_key [] 1 (read_lines log.file) (first ∷ second ∷ []) c.sound in
      let now : log.last_hmac ≡ h = ok-injective (sym c.current ∙ found) in
      let good = verify_line-line_of log ev k r in
      let bad = not_chained log next (stored_of log ev).hmac (suc k) s differ in
      (
        suc k,
        ap (verified log.hmac_key [] 1) (read_lines-append_two log.file first second c.ended)
            ∙ same
            ∙ rw (sym now, good) (rw bad refl),
      )
