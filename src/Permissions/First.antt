-- ===== src/Permissions/First.antt =====
-- The first of the longest keywords in the order of the map, in the loop of
-- security/permissions.rs.
use mathlib.Core.Path.{subst}
use vaultproxy.Prelude.{
  ℕ, suc, ◌≤◌, ◌<◌, ◌++◌, &&-eq-true, ◌≡◌, ◌⊎◌, inl, inr, refl, ap, ◌∙◌, true, false, ◌&&◌, Option,
  none, some, [], ◌∷◌, arith, if◌then◌else◌, ltb, text_eq, Text, Bool-cases,
}
use vaultproxy.Text.{contains, byte_len}
use vaultproxy.HashMap.{HashMap}
use vaultproxy.Permissions.{Permission, match_from, is_longer}

-- The map holds the entry.
abbrev pub Holds : HashMap Text Permission → Text × Permission → Type 0
Holds [] e = ⊥
Holds (f ∷ m) e = (f ≡ e) ⊎ Holds m e

not_longer : (m n : ℕ) → n ≤ m → ltb m n ≡ false
not_longer m n le = ground arith

module _ (lower : Text) where
  -- The keywords of the map that occur have fewer bytes.
  abbrev pub AllShorter : HashMap Text Permission → ℕ → Type 0
  AllShorter m n =
      (f : Text × Permission) → Holds m f → contains lower f.0 ≡ true → byte_len f.0 < n

  match_from_kept :
      (a : Text) (p : Permission) (post : HashMap Text Permission)
      → AllShorter post (suc (byte_len a))
      → match_from lower (some (a, p)) post ≡ some (a, p)
  unfolding match_from
  match_from_kept a p [] h = refl
  match_from_kept a p ((c, r) ∷ post) h =
      let later = match_from_kept a p post (λ f held. h f (inr held)) in
      elim (Bool-cases (contains lower c)) [
        | inl occurs ↦
            let le = h (c, r) (inl refl) occurs in
            rw (occurs, not_longer (byte_len a) (byte_len c) (omega (arith, le))) later
        | inr absent ↦ rw absent later
      ]

  -- A match so far that is shorter.
  abbrev IsBelow : Option (Text × Permission) → ℕ → Type 0
  IsBelow none n = Unit
  IsBelow (some e) n = byte_len e.0 < n

  taken_first :
      (matched : Option (Text × Permission)) (a : Text) (p : Permission)
      → IsBelow matched (byte_len a)
      → contains lower a ≡ true
      → (if contains lower a && is_longer a matched then some (a, p) else matched) ≡ some (a, p)
  taken_first none a p below k = rw k refl
  taken_first (some e) a p below k = rw k (ground arith)

  next-IsBelow :
      (matched : Option (Text × Permission)) (c : Text) (r : Permission) (n : ℕ)
      → IsBelow matched n
      → (contains lower c ≡ true → byte_len c < n)
      → IsBelow (if contains lower c && is_longer c matched then some (c, r) else matched) n
  next-IsBelow none c r n below h = elim (Bool-cases (contains lower c)) [
    | inl occurs ↦ rw occurs (h occurs)
    | inr absent ↦ rw absent tt
  ]
  next-IsBelow (some e) c r n below h =
      elim (Bool-cases (contains lower c && ltb (byte_len e.0) (byte_len c))) [
        | inl taken ↦ rw taken (h (&&-eq-true _ _ taken).0)
        | inr kept ↦ rw kept below
      ]

  pub match_from_first :
      (pre post : HashMap Text Permission) (matched : Option (Text × Permission)) (a : Text)
      (p : Permission)
      → IsBelow matched (byte_len a)
      → contains lower a ≡ true
      → AllShorter pre (byte_len a)
      → AllShorter post (suc (byte_len a))
      → match_from lower matched (pre ++ (a, p) ∷ post) ≡ some (a, p)
  unfolding match_from
  match_from_first [] post matched a p below k before after =
      ap (λ o. match_from lower o post) (taken_first matched a p below k)
      ∙ match_from_kept a p post after
  match_from_first ((c, r) ∷ pre) post matched a p below k before after =
      match_from_first pre post _ a p
        (next-IsBelow matched c r (byte_len a) below (before (c, r) (inl refl))) k
        (λ f held. before f (inr held)) after

  pub tied_bound :
      (b : Text) (q : Permission) (post : HashMap Text Permission) (n : ℕ)
      → byte_len b ≡ n
      → AllShorter post (suc n)
      → AllShorter ((b, q) ∷ post) (suc n)
  tied_bound b q post n same after f (inl here) k =
      subst (λ e. byte_len e.0 < suc n) here (omega (arith, same))
  tied_bound b q post n same after f (inr held) k = after f held k
