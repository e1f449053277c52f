-- ===== src/Sessions/Guessing.antt =====
-- The login limit of dashboard/auth.rs: five wrong passwords in five minutes.
use vaultproxy.Prelude.{
  ℕ, ◌+◌, ◌≤◌, ◌<◌, ◌≡◌, refl, ap, ◌∙◌, Bool, true, false, Option, none, some, List, [], ◌∷◌, arith,
  if◌then◌else◌, leb, text_beq, Text, codes, length, Result, ok, err, inl, inr, ◌⊎◌, Bool-cases,
}
use vaultproxy.Window.{prune}
use vaultproxy.Window.Bound.{since, since-prune, since-le-length, since-append}
use vaultproxy.Sessions.{
  SessionStore, Login, from_secs, login, create_session, login_check, after_check, login_finish,
  with_hash, conclude, load_hash, Checked,
}

-- The answer of a login that has tried a wrong password.
abbrev pub is_wrong : Result Text Text → Bool
is_wrong (ok id) = false
is_wrong (err e) = text_beq e (codes "invalid password")

abbrev pub cost : Result Text Text → ℕ
cost r = if is_wrong r then 1 else 0

-- Both readings of the clock fall into five minutes from `from`.
abbrev pub IsDuring : ℕ → Login → Type 0
IsDuring from l = (from ≤ l.now) × (l.now < from + from_secs 300) × (from ≤ l.failed_at)

abbrev pub AllDuring : ℕ → List Login → Type 0
AllDuring from [] = Unit
AllDuring from (l ∷ ls) = IsDuring from l × AllDuring from ls

-- What the first part of a login has found out.
abbrev IsChecked : SessionStore → Checked → Type 0
IsChecked s (err e) = cost (err e) ≡ 0
IsChecked s (ok u) = length s.failed_attempts < 5

login_check-IsChecked :
    (s : SessionStore) (now : ℕ) → IsChecked (login_check s now).0 (login_check s now).1
unfolding login_check
login_check-IsChecked s now = decided (Bool-cases (leb 5 (length recent)))
  where
    recent : List ℕ
    recent = prune (from_secs 300) now s.failed_attempts

    decided :
        (leb 5 (length recent) ≡ true) ⊎ (leb 5 (length recent) ≡ false)
        → IsChecked (login_check s now).0 (login_check s now).1
    decided (inl full) = rw (full, IsChecked) refl
    decided (inr room) = rw (room, IsChecked) (ground arith)

module _ (verify : Text → Text → Result Text Bool) (from : ℕ) where
  -- Wrong passwords tried by logins one after the other.
  unfoldable pub guesses : SessionStore → List Login → ℕ
  guesses s [] = 0
  guesses s (l ∷ ls) = cost (login verify s l).1 + guesses (login verify s l).0 ls

  conclude-since :
      (s : SessionStore) (l : Login) (answer : Result Text Bool)
      → from ≤ l.failed_at
      → since from (conclude verify s l answer).0.failed_attempts
        ≡ since from s.failed_attempts + cost (conclude verify s l answer).1
  unfolding conclude create_session
  conclude-since s l (err e) h = omega arith
  conclude-since s l (ok true) h = omega arith
  conclude-since s l (ok false) h =
      let one : since from (l.failed_at ∷ []) ≡ 1 = unfold since in ground arith in
      omega (arith, since-append from s.failed_attempts (l.failed_at ∷ []), one)

  with_hash-since :
      (s : SessionStore) (l : Login) (hash : Option Text)
      → from ≤ l.failed_at
      → since from (with_hash verify s l hash).0.failed_attempts
        ≡ since from s.failed_attempts + cost (with_hash verify s l hash).1
  unfolding with_hash
  with_hash-since s l none h = omega arith
  with_hash-since s l (some hash) h = conclude-since s l (verify l.password hash) h

  cost-le : (r : Result Text Text) → cost r ≤ 1
  cost-le r = ground arith

  after_check-since :
      (s : SessionStore) (l : Login) (checked : Checked)
      → from ≤ l.failed_at
      → since from s.failed_attempts ≤ 5
      → IsChecked s checked
      → (since from (after_check verify s l checked).0.failed_attempts
          ≡ since from s.failed_attempts + cost (after_check verify s l checked).1)
        × (since from (after_check verify s l checked).0.failed_attempts ≤ 5)
  unfolding after_check login_finish load_hash
  after_check-since s l (err e) f le fine = omega (arith, fine, le)
  after_check-since s l (ok u) f le room =
      let s1 = load_hash s l.on_disk in
      let more = with_hash-since s1 l s1.hash f in
      let few = since-le-length from s.failed_attempts in
      let most = cost-le (with_hash verify s1 l s1.hash).1 in omega (arith, more, few, most, room)

  login-since :
      (s : SessionStore) (l : Login)
      → IsDuring from l
      → since from s.failed_attempts ≤ 5
      → (since from (login verify s l).0.failed_attempts
          ≡ since from s.failed_attempts + cost (login verify s l).1)
        × (since from (login verify s l).0.failed_attempts ≤ 5)
  unfolding login login_check
  login-since s l (b, h, f) le =
      let kept = since-prune from (from_secs 300) l.now s.failed_attempts b h in
      let fine = login_check-IsChecked s l.now in
      let (more, less) =
        after_check-since (login_check s l.now).0 l (login_check s l.now).1 f
          (omega (arith, kept, le)) fine in
      (more ∙ ap (λ n. n + cost (login verify s l).1) kept, less)

  -- From any instant on, logins that run one after the other, and read the clock for the limit within
  -- five minutes of it, try at most five wrong passwords, counted together with the failures that the
  -- store holds from that instant on, if these are no more than five.
  pub guesses_le_five :
      (s : SessionStore) (ls : List Login)
      → AllDuring from ls
      → since from s.failed_attempts ≤ 5
      → guesses s ls + since from s.failed_attempts ≤ 5
  unfolding guesses
  guesses_le_five s [] d le = omega arith
  guesses_le_five s (l ∷ ls) (d, ds) le =
      let (more, less) = login-since s l d le in
      omega (arith, more, guesses_le_five (login verify s l).0 ls ds less)
