-- ===== src/Permissions/Keywords.antt =====
-- The keyword that decides in security/permissions.rs, and what the order of the map does to it.
use mathlib.Core.Path.{subst}
use vaultproxy.Prelude.{
  ℕ, suc, ◌≤◌, ◌++◌, ◌≡◌, ◌⊎◌, ◌↔◌, inl, inr, refl, sym, ap, ◌∙◌, true, false, ◌&&◌, Option, none,
  some, [], ◌∷◌, arith, if◌then◌else◌, ltb, text_eq, Text, Bool-cases, Option-cases,
}
use vaultproxy.Text.{contains, byte_len}
use vaultproxy.HashMap.{HashMap, get}
use vaultproxy.Permissions.First.{Holds, AllShorter, match_from_first, tied_bound}
use vaultproxy.Permissions.{
  Permission, log, ToolPermissions, match_from, permission_of, unless_overridden, get_permission,
}

some-injective : {A : Type 0} {a b : A} → ◌≡◌ {A = Option A} (some a) (some b) → a ≡ b
some-injective h = cc

none-some : {A : Type 0} {a : A} → ◌≡◌ {A = Option A} none (some a) → ⊥
none-some h = cc

module _ (lower : Text) where
  -- The entry is in the map, its keyword occurs, and no keyword that occurs is longer.
  abbrev pub IsBest : HashMap Text Permission → Text × Permission → Type 0
  IsBest m e =
      Holds m e
      × (contains lower e.0 ≡ true)
      × ((f : Text × Permission)
          → Holds m f
          → contains lower f.0 ≡ true
          → byte_len f.0 ≤ byte_len e.0)

  abbrev AtMost : Option (Text × Permission) → ℕ → Type 0
  AtMost none n = Unit
  AtMost (some a) n = byte_len a.0 ≤ n

  abbrev Bounds : HashMap Text Permission → Text × Permission → Type 0
  Bounds m e =
      (f : Text × Permission) → Holds m f → contains lower f.0 ≡ true → byte_len f.0 ≤ byte_len e.0

  abbrev Comes : Option (Text × Permission) → HashMap Text Permission → Text × Permission → Type 0
  Comes matched m e = (matched ≡ some e) ⊎ (Holds m e × (contains lower e.0 ≡ true))

  abbrev Matched : Option (Text × Permission) → HashMap Text Permission → Text × Permission → Type 0
  Matched matched m e = Comes matched m e × AtMost matched (byte_len e.0) × Bounds m e

  cons_bound :
      (c : Text) (p : Permission) (m : HashMap Text Permission) (e : Text × Permission)
      → (contains lower c ≡ true → byte_len c ≤ byte_len e.0)
      → Bounds m e
      → Bounds ((c, p) ∷ m) e
  cons_bound c p m e here there f (inl same) k =
      subst (λ x. byte_len x ≤ byte_len e.0) (ap (λ g. g.0) same)
        (here (ap (λ g. contains lower g.0) same ∙ k))
  cons_bound c p m e here there f (inr held) k = there f held k

  taken_lem :
      (c : Text) (p : Permission) (m : HashMap Text Permission) (e : Text × Permission)
      → contains lower c ≡ true
      → Matched (some (c, p)) m e
      → (Holds ((c, p) ∷ m) e × (contains lower e.0 ≡ true)) × Bounds ((c, p) ∷ m) e
  taken_lem c p m e k (inl same, le, b) =
      let same_entry : (c, p) ≡ e = some-injective same in
      (
        (inl same_entry, ap (λ g. contains lower g.0) (sym same_entry) ∙ k),
        cons_bound c p m e (λ _. le) b,
      )
  taken_lem c p m e k (inr (held, k'), le, b) = ((inr held, k'), cons_bound c p m e (λ _. le) b)

  kept_lem :
      (matched : Option (Text × Permission)) (c : Text) (p : Permission)
      (m : HashMap Text Permission) (e : Text × Permission)
      → (contains lower c ≡ true → byte_len c ≤ byte_len e.0)
      → Matched matched m e
      → Matched matched ((c, p) ∷ m) e
  kept_lem matched c p m e here (inl same, le, b) = (inl same, le, cons_bound c p m e here b)
  kept_lem matched c p m e here (inr (held, k), le, b) =
      (inr (inr held, k), le, cons_bound c p m e here b)

  match_from-Matched :
      (matched : Option (Text × Permission)) (m : HashMap Text Permission) (e : Text × Permission)
      → match_from lower matched m ≡ some e
      → Matched matched m e
  unfolding match_from
  match_from-Matched none [] e h = cc
  match_from-Matched (some a) [] e h = (
    inl h,
    subst (λ x. byte_len a.0 ≤ byte_len x.0) (some-injective h) (omega arith),
    λ f z. elim z [ ],
  )
  match_from-Matched none ((c, p) ∷ m) e h = elim (Bool-cases (contains lower c)) [
    | inl occurs ↦
        let again =
          ap (λ b. match_from lower (if b && true then some (c, p) else none) m) (sym occurs) ∙ h in
        let (t, b) = taken_lem c p m e occurs (match_from-Matched (some (c, p)) m e again) in
        (inr t, tt, b)
    | inr absent ↦
        let again =
          ap (λ b. match_from lower (if b && true then some (c, p) else none) m) (sym absent) ∙ h in
        kept_lem none c p m e (λ k. ground (arith, k, absent)) (match_from-Matched none m e again)
  ]
  match_from-Matched (some a) ((c, p) ∷ m) e h = elim (Bool-cases (contains lower c)) [
    | inl occurs ↦ elim (Bool-cases (ltb (byte_len a.0) (byte_len c))) [
      | inl longer ↦
          let again =
            ap (λ b. match_from lower (if b && true then some (c, p) else some a) m) (sym occurs)
            ∙ ap (λ b. match_from lower (if contains lower c && b then some (c, p) else some a) m)
                (sym longer)
            ∙ h in
          let all = match_from-Matched (some (c, p)) m e again in
          let (t, b) = taken_lem c p m e occurs all in (inr t, ground (arith, all.1, longer), b)
      | inr shorter ↦
          let again =
            ap (λ b. match_from lower (if b && false then some (c, p) else some a) m) (sym occurs)
            ∙ ap (λ b. match_from lower (if contains lower c && b then some (c, p) else some a) m)
                (sym shorter)
            ∙ h in
          let all = match_from-Matched (some a) m e again in
          kept_lem (some a) c p m e (λ k. ground (arith, all.1, shorter)) all
    ]
    | inr absent ↦
        let again =
          ap
            (λ b.
              match_from lower
                (if b && ltb (byte_len a.0) (byte_len c) then some (c, p) else some a) m)
            (sym absent)
          ∙ h in
        kept_lem (some a) c p m e (λ k. ground (arith, k, absent))
          (match_from-Matched (some a) m e again)
  ]

  match_from-some :
      (a : Text × Permission) (m : HashMap Text Permission)
      → (e : Text × Permission) × (match_from lower (some a) m ≡ some e)
  unfolding match_from
  match_from-some a [] = (a, refl)
  match_from-some a ((c, p) ∷ m) =
      elim (Bool-cases (contains lower c && ltb (byte_len a.0) (byte_len c))) [
        | inl taken ↦ rw taken (match_from-some (c, p) m)
        | inr kept ↦ rw kept (match_from-some a m)
      ]

  match_from-none :
      (m : HashMap Text Permission)
      → match_from lower none m ≡ none
      → (f : Text × Permission) → Holds m f
      → contains lower f.0 ≡ false
  unfolding match_from
  match_from-none [] h f held = elim held [ ]
  match_from-none ((c, p) ∷ m) h f held = elim (Bool-cases (contains lower c)) [
    | inl occurs ↦
        let again =
          ap (λ b. match_from lower (if b && true then some (c, p) else none) m) (sym occurs) ∙ h in
        let (e, found) = match_from-some (c, p) m in absurd (none-some (sym again ∙ found))
    | inr absent ↦ elim held [
      | inl same ↦ ap (λ g. contains lower g.0) (sym same) ∙ absent
      | inr later ↦
          let again =
            ap (λ b. match_from lower (if b && true then some (c, p) else none) m) (sym absent)
            ∙ h in
          match_from-none m again f later
    ]
  ]

  match_from-IsBest :
      (m : HashMap Text Permission) (e : Text × Permission)
      → match_from lower none m ≡ some e
      → IsBest m e
  match_from-IsBest m e h =
      let (from, le, b) = match_from-Matched none m e h in
      elim from [ inl same ↦ absurd (none-some same) | inr (held, occurs) ↦ (held, occurs, b) ]

  -- No keyword of the map occurs.
  abbrev pub HasNone : HashMap Text Permission → Type 0
  HasNone m = (f : Text × Permission) → Holds m f → contains lower f.0 ≡ false

  match_from_cases :
      (m : HashMap Text Permission)
      → (HasNone m × (match_from lower none m ≡ none))
        ⊎ ((e : Text × Permission) × IsBest m e × (match_from lower none m ≡ some e))
  match_from_cases m = elim (Option-cases (match_from lower none m)) [
    | inl none_found ↦ inl (match_from-none m none_found, none_found)
    | inr (e, found) ↦ inr (e, match_from-IsBest m e found, found)
  ]

  -- Different entries whose keywords occur have keywords of different lengths.
  abbrev pub HasNoTie : HashMap Text Permission → Type 0
  HasNoTie m =
      (e f : Text × Permission)
      → Holds m e
      → Holds m f
      → contains lower e.0 ≡ true
      → contains lower f.0 ≡ true
      → byte_len e.0 ≡ byte_len f.0
      → e ≡ f

  match_from-order :
      (m m' : HashMap Text Permission)
      → ((e : Text × Permission) → Holds m e ↔ Holds m' e)
      → HasNoTie m
      → match_from lower none m ≡ match_from lower none m'
  match_from-order m m' same apart = elim (match_from_cases m) [
    | inl (absent, nothing) ↦ elim (match_from_cases m') [
      | inl (absent', nothing') ↦ nothing ∙ sym nothing'
      | inr (f, (held, occurs, _), found) ↦ ground (arith, absent f ((same f).1 held), occurs)
    ]
    | inr (e, (held, occurs, le), found) ↦ elim (match_from_cases m') [
      | inl (absent', nothing') ↦ ground (arith, absent' e ((same e).0 held), occurs)
      | inr (f, (held', occurs', le'), found') ↦
          let equal =
            apart e f held ((same f).1 held') occurs occurs'
              (omega (arith, le f ((same f).1 held') occurs', le' e ((same e).0 held) occurs)) in
          found ∙ ap (λ x. some x) equal ∙ sym found'
    ]
  ]

module _ (to_lowercase : Text → Text) where
  get_permission-match_from :
      (t : ToolPermissions) (tool_name : Text)
      → get tool_name t.overrides ≡ none
      → get_permission to_lowercase t tool_name
        ≡ permission_of (match_from (to_lowercase tool_name) none t.defaults)
  unfolding get_permission
  get_permission-match_from t tool_name none_set =
      ap (λ o. unless_overridden o (match_from (to_lowercase tool_name) none t.defaults)) none_set

  -- A tool without an override has the permission of a keyword that occurs in its name in lower case
  -- and is as long as any that does, or `log` if none does.
  pub get_permission_cases :
      (t : ToolPermissions) (tool_name : Text)
      → get tool_name t.overrides ≡ none
      → (HasNone (to_lowercase tool_name) t.defaults
          × (get_permission to_lowercase t tool_name ≡ log))
        ⊎ ((e : Text × Permission) × IsBest (to_lowercase tool_name) t.defaults e
            × (get_permission to_lowercase t tool_name ≡ e.1))
  get_permission_cases t tool_name none_set =
      let now = get_permission-match_from t tool_name none_set in
      elim (match_from_cases (to_lowercase tool_name) t.defaults) [
        | inl (absent, nothing) ↦ inl (absent, now ∙ ap permission_of nothing)
        | inr (e, best, found) ↦ inr (e, best, now ∙ ap permission_of found)
      ]

  -- When no two keywords that occur in the name are of one length, the permission does not depend on
  -- the order in which the map of the keywords is gone through.
  pub get_permission_order :
      (defaults defaults' overrides : HashMap Text Permission) (tool_name : Text)
      → ((e : Text × Permission) → Holds defaults e ↔ Holds defaults' e)
      → HasNoTie (to_lowercase tool_name) defaults
      → get_permission to_lowercase
          (record { defaults = defaults; overrides = overrides })
          tool_name
        ≡ get_permission to_lowercase
            (record { defaults = defaults'; overrides = overrides })
            tool_name
  unfolding get_permission
  get_permission_order defaults defaults' overrides tool_name same apart =
      ap (unless_overridden (get tool_name overrides))
        (match_from-order (to_lowercase tool_name) defaults defaults' same apart)

  -- Of two keywords of one length that stand next to each other in the map and both occur in the
  -- name of a tool without an override, the one that the map gives first decides, whatever their
  -- permissions are, if of the other keywords that occur none before them is as long and none after
  -- them is longer. So another order of the map gives another permission.
  pub get_permission_tie :
      (pre post : HashMap Text Permission) (a b : Text) (p q : Permission)
      (overrides : HashMap Text Permission) (tool_name : Text)
      → get tool_name overrides ≡ none
      → contains (to_lowercase tool_name) a ≡ true
      → contains (to_lowercase tool_name) b ≡ true
      → byte_len b ≡ byte_len a
      → AllShorter (to_lowercase tool_name) pre (byte_len a)
      → AllShorter (to_lowercase tool_name) post (suc (byte_len a))
      → (get_permission to_lowercase
            (record { defaults = pre ++ (a, p) ∷ (b, q) ∷ post; overrides = overrides })
            tool_name
          ≡ p)
        × (get_permission to_lowercase
              (record { defaults = pre ++ (b, q) ∷ (a, p) ∷ post; overrides = overrides })
              tool_name
            ≡ q)
  get_permission_tie pre post a b p q overrides tool_name none_set k l same before after =
      let lower = to_lowercase tool_name in
      let decided = λ (m : HashMap Text Permission).
        get_permission-match_from (record { defaults = m; overrides = overrides }) tool_name
          none_set in
      let a_first =
        match_from_first lower pre ((b, q) ∷ post) none a p tt k before
          (tied_bound lower b q post (byte_len a) same after) in
      let b_first =
        match_from_first lower pre ((a, p) ∷ post) none b q tt l
          (subst (AllShorter lower pre) (sym same) before)
          (subst (λ n. AllShorter lower ((a, p) ∷ post) (suc n)) (sym same)
            (tied_bound lower a p post (byte_len a) refl after)) in
      (
        decided (pre ++ (a, p) ∷ (b, q) ∷ post) ∙ ap permission_of a_first,
        decided (pre ++ (b, q) ∷ (a, p) ∷ post) ∙ ap permission_of b_first,
      )
