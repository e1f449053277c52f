-- ===== src/Transparent/Registry/Build.antt =====
-- What the loop that builds the registry of proxy/transparent/registry.rs adds and keeps.
use vaultproxy.Prelude.{
  ok-injective, ℕ, ◌≡◌, refl, sym, ap, ◌∙◌, ◌⊎◌, inl, inr, Bool, true, false, Option, none, some,
  List, [], ◌∷◌, ◌++◌, text_eq, Text, codes, ok, ◌>>=◌, >>=-eq-ok, Bool-cases, if◌then◌else◌,
}
use vaultproxy.Text.{starts_with}
use vaultproxy.HashMap.{HashMap, get, insert}
use vaultproxy.HashMap.Laws.{get-insert_distinct}
use vaultproxy.Transparent.Service.{ServiceEntry}
use vaultproxy.Transparent.Registry.{
  WildcardPattern, TransparentRegistry, is_off, host_port, parse, add_wildcard, add_exact, add_host,
  claimed, add_entry, add_entries,
}

pub some-injective : {A : Type 0} {a b : A} → ◌≡◌ {A = Option A} (some a) (some b) → a ≡ b
some-injective h = cc

pub none-some : {A : Type 0} {a : A} → ◌≡◌ {A = Option A} none (some a) → ⊥
none-some h = cc

module _ {A : Type 0} where
  pub if-true : (b : Bool) (x y : A) → b ≡ true → (if b then x else y) ≡ x
  if-true b x y h = rw h refl

  pub if-false : (b : Bool) (x y : A) → b ≡ false → (if b then x else y) ≡ y
  if-false b x y h = rw h refl

module _ (to_lowercase : Text → Text) (parse_url : Text → Option (Option Text × Option ℕ)) where
  -- An entry that is not off and claims a host, exact or with a wildcard.
  abbrev pub ClaimsExact : ServiceEntry → Text → Type 0
  ClaimsExact entry key =
      (is_off entry.transparent_mode ≡ false)
      × (host : Text) × (port : ℕ) × (claimed to_lowercase parse_url entry ≡ ok (host, port))
      × (starts_with host (codes "*.") ≡ false)
      × (host_port host port ≡ key)

  abbrev pub ClaimsWildcard : ServiceEntry → WildcardPattern → Type 0
  ClaimsWildcard entry pat =
      (is_off entry.transparent_mode ≡ false)
      × (host : Text) × (port : ℕ) × (claimed to_lowercase parse_url entry ≡ ok (host, port))
      × (parse to_lowercase host port ≡ some pat)

  -- What one round of the loop does.
  abbrev pub AddsClaim : TransparentRegistry → ServiceEntry → TransparentRegistry → Type 0
  AddsClaim r entry r' =
      ((key : Text) × ClaimsExact entry key
        × (get key r.by_host_port ≡ none)
        × (r' ≡ record r { by_host_port = insert key entry r.by_host_port }))
      ⊎ ((pat : WildcardPattern) × ClaimsWildcard entry pat
          × (r' ≡ record r { wildcards = r.wildcards ++ (pat, entry) ∷ [] }))

  abbrev pub AddsOne : TransparentRegistry → ServiceEntry → TransparentRegistry → Type 0
  AddsOne r entry r' = (r' ≡ r) ⊎ AddsClaim r entry r'

  pub add_exact_lem :
      (r r' : TransparentRegistry) (entry : ServiceEntry) (key : Text) (o : Option ServiceEntry)
      → add_exact to_lowercase parse_url r entry key o ≡ ok r'
      → (o ≡ none) × (r' ≡ record r { by_host_port = insert key entry r.by_host_port })
  add_exact_lem r r' entry key none h = (refl, sym (ok-injective h))
  add_exact_lem r r' entry key (some prev) h = cc

  add_wildcard_lem :
      (r r' : TransparentRegistry) (entry : ServiceEntry) (o : Option WildcardPattern)
      → add_wildcard to_lowercase parse_url r entry o ≡ ok r'
      → (pat : WildcardPattern) × (o ≡ some pat)
        × (r' ≡ record r { wildcards = r.wildcards ++ (pat, entry) ∷ [] })
  add_wildcard_lem r r' entry none h = cc
  add_wildcard_lem r r' entry (some pat) h = (pat, refl, sym (ok-injective h))

  add_host_lem :
      (r r' : TransparentRegistry) (entry : ServiceEntry) (host : Text) (port : ℕ)
      → is_off entry.transparent_mode ≡ false
      → claimed to_lowercase parse_url entry ≡ ok (host, port)
      → add_host to_lowercase parse_url r entry host port ≡ ok r'
      → AddsClaim r entry r'
  add_host_lem r r' entry host port wanted here h =
      let key = host_port host port in
      let wild = add_wildcard to_lowercase parse_url r entry (parse to_lowercase host port) in
      let exact = add_exact to_lowercase parse_url r entry key (get key r.by_host_port) in
      elim (Bool-cases (starts_with host (codes "*."))) [
        | inl star ↦
            let (pat, parsed, same) =
              add_wildcard_lem r r' entry (parse to_lowercase host port)
                (sym (if-true (starts_with host (codes "*.")) wild exact star) ∙ h) in
            inr (pat, (wanted, host, port, here, parsed), same)
        | inr plain ↦
            let (free, same) =
              add_exact_lem r r' entry key (get key r.by_host_port)
                (sym (if-false (starts_with host (codes "*.")) wild exact plain) ∙ h) in
            inl (key, (wanted, host, port, here, plain, refl), free, same)
      ]

  pub add_entry-AddsOne :
      (r r' : TransparentRegistry) (entry : ServiceEntry)
      → add_entry to_lowercase parse_url r entry ≡ ok r'
      → AddsOne r entry r'
  unfolding add_entry
  add_entry-AddsOne r r' entry h =
      let add = claimed to_lowercase parse_url entry >>= λ c.
      add_host to_lowercase parse_url r entry c.0 c.1 in
      elim (Bool-cases (is_off entry.transparent_mode)) [
        | inl none_wanted ↦ inl (
            sym (
              ok-injective
                (sym (if-true (is_off entry.transparent_mode) (ok r) add none_wanted) ∙ h)))
        | inr wanted ↦
            let ((host, port), here, added) =
              >>=-eq-ok (claimed to_lowercase parse_url entry)
                (λ c. add_host to_lowercase parse_url r entry c.0 c.1)
                (sym (if-false (is_off entry.transparent_mode) (ok r) add wanted) ∙ h) in
            inr (add_host_lem r r' entry host port wanted here added)
      ]

  -- A host that is claimed stays with its service.
  insert_keeps :
      (m : HashMap Text ServiceEntry) (key k : Text) (entry e : ServiceEntry)
      → get key m ≡ none
      → get k m ≡ some e
      → get k (insert key entry m) ≡ some e
  insert_keeps m key k entry e free held =
      get-insert_distinct key k entry m
        (λ same. none-some (sym free ∙ ap (λ x. get x m) same ∙ held))
      ∙ held

  add_entry_keeps :
      (r r' : TransparentRegistry) (entry : ServiceEntry) (k : Text) (e : ServiceEntry)
      → add_entry to_lowercase parse_url r entry ≡ ok r'
      → get k r.by_host_port ≡ some e
      → get k r'.by_host_port ≡ some e
  add_entry_keeps r r' entry k e h held = elim (add_entry-AddsOne r r' entry h) [
    | inl same ↦ ap (λ x. get k x.by_host_port) same ∙ held
    | inr (inl (key, claim, free, same)) ↦
        ap (λ x. get k x.by_host_port) same ∙ insert_keeps r.by_host_port key k entry e free held
    | inr (inr (pat, claim, same)) ↦ ap (λ x. get k x.by_host_port) same ∙ held
  ]

  pub add_entries_keep :
      (r r' : TransparentRegistry) (entries : List ServiceEntry) (k : Text) (e : ServiceEntry)
      → add_entries to_lowercase parse_url r entries ≡ ok r'
      → get k r.by_host_port ≡ some e
      → get k r'.by_host_port ≡ some e
  unfolding add_entries
  add_entries_keep r r' [] k e h held = ap (λ x. get k x.by_host_port) (sym (ok-injective h)) ∙ held
  add_entries_keep r r' (entry ∷ entries) k e h held =
      let (r1, first, others) =
        >>=-eq-ok (add_entry to_lowercase parse_url r entry)
          (λ x. add_entries to_lowercase parse_url x entries) h in
      add_entries_keep r1 r' entries k e others (add_entry_keeps r r1 entry k e first held)
