-- ===== src/Transparent/Registry/Lookup.antt =====
-- Which services the lookup of proxy/transparent/registry.rs finds.
use mathlib.Core.List.{Mem, mem-cons_self, mem-cons_of_mem}
use mathlib.Core.Path.{subst}
use vaultproxy.Prelude.{
  ok-injective, ◌==◌, text_beq_iff, ℕ, ◌≡◌, sym, ap, ◌∙◌, ◌⊎◌, inl, inr, true, false, Option, some,
  List, [], ◌∷◌, ◌++◌, text_eq, Text, codes, ok, ◌>>=◌, >>=-eq-ok, Bool-cases, Option-cases,
}
use vaultproxy.Text.{starts_with}
use vaultproxy.HashMap.{HashMap, get, insert}
use vaultproxy.HashMap.Laws.{get-insert, get-insert_same}
use vaultproxy.Transparent.Service.{ServiceEntry}
use vaultproxy.Transparent.Registry.{
  WildcardPattern, TransparentRegistry, is_off, host_port, parse, matches, first_match, or_wildcard,
  lookup, add_wildcard, add_exact, add_host, claimed, add_entry, add_entries, build,
}
use vaultproxy.Transparent.Registry.Build.{
  ClaimsExact, ClaimsWildcard, add_entry-AddsOne, add_entries_keep, add_exact_lem, none-some,
  if-true, if-false, some-injective,
}

module _ (to_lowercase : Text → Text) (parse_url : Text → Option (Option Text × Option ℕ)) where
  add_entry-exact :
      (r r' : TransparentRegistry) (entry : ServiceEntry) (host : Text) (port : ℕ)
      → is_off entry.transparent_mode ≡ false
      → claimed to_lowercase parse_url entry ≡ ok (host, port)
      → starts_with host (codes "*.") ≡ false
      → add_entry to_lowercase parse_url r entry ≡ ok r'
      → get (host_port host port) r'.by_host_port ≡ some entry
  unfolding add_entry
  add_entry-exact r r' entry host port wanted here plain h =
      let key = host_port host port in
      let wild = add_wildcard to_lowercase parse_url r entry (parse to_lowercase host port) in
      let exact = add_exact to_lowercase parse_url r entry key (get key r.by_host_port) in
      let add = claimed to_lowercase parse_url entry >>= λ c.
      add_host to_lowercase parse_url r entry c.0 c.1 in
      let (free, same) =
        add_exact_lem to_lowercase parse_url r r' entry key (get key r.by_host_port) (
          sym (if-false (starts_with host (codes "*.")) wild exact plain)
          ∙ sym (ap (λ x. x >>= λ c. add_host to_lowercase parse_url r entry c.0 c.1) here)
          ∙ sym (if-false (is_off entry.transparent_mode) (ok r) add wanted)
          ∙ h) in
      ap (λ x. get key x.by_host_port) same ∙ get-insert_same key entry r.by_host_port

  add_entries-append :
      (r r' : TransparentRegistry) (a b : List ServiceEntry)
      → add_entries to_lowercase parse_url r (a ++ b) ≡ ok r'
      → (r1 : TransparentRegistry) × (add_entries to_lowercase parse_url r1 b ≡ ok r')
  unfolding add_entries
  add_entries-append r r' [] b h = (r, h)
  add_entries-append r r' (entry ∷ a) b h =
      let (r1, first, others) =
        >>=-eq-ok (add_entry to_lowercase parse_url r entry)
          (λ x. add_entries to_lowercase parse_url x (a ++ b)) h in
      add_entries-append r1 r' a b others

  -- A service that claims a host without a wildcard and is not off is found by that host, in any
  -- case of its letters, and that port, whatever the other services are, if the registry is built.
  pub lookup-build :
      (before after : List ServiceEntry) (entry : ServiceEntry) (r : TransparentRegistry)
      (host name : Text) (port : ℕ)
      → build to_lowercase parse_url (before ++ entry ∷ after) ≡ ok r
      → is_off entry.transparent_mode ≡ false
      → claimed to_lowercase parse_url entry ≡ ok (host, port)
      → starts_with host (codes "*.") ≡ false
      → to_lowercase name ≡ host
      → lookup to_lowercase r name port ≡ some entry
  unfolding build lookup add_entries
  lookup-build before after entry r host name port built wanted here plain same =
      let (r1, rest) =
        add_entries-append (record { by_host_port = []; wildcards = [] }) r before (entry ∷ after)
          built in
      let (r2, first, others) =
        >>=-eq-ok (add_entry to_lowercase parse_url r1 entry)
          (λ x. add_entries to_lowercase parse_url x after) rest in
      let held =
        add_entries_keep to_lowercase parse_url r2 r after (host_port host port) entry others
          (add_entry-exact r1 r2 entry host port wanted here plain first) in
      ap
        (λ k.
          or_wildcard to_lowercase (get (host_port k port) r.by_host_port)
            (first_match to_lowercase name port r.wildcards))
        same
      ∙ ap (λ o. or_wildcard to_lowercase o (first_match to_lowercase name port r.wildcards)) held

  -- Every service that the registry holds is one of the list, with its claim.
  abbrev AllWildcards : List ServiceEntry → List (WildcardPattern × ServiceEntry) → Type 0
  AllWildcards services [] = Unit
  AllWildcards services ((pat, e) ∷ ws) =
      (Mem e services × ClaimsWildcard to_lowercase parse_url e pat) × AllWildcards services ws

  abbrev IsSound : List ServiceEntry → TransparentRegistry → Type 0
  IsSound services r =
      ((k : Text) (e : ServiceEntry)
        → get k r.by_host_port ≡ some e
        → Mem e services × ClaimsExact to_lowercase parse_url e k)
      × AllWildcards services r.wildcards

  AllWildcards-append :
      (services : List ServiceEntry) (ws : List (WildcardPattern × ServiceEntry))
      (pat : WildcardPattern) (e : ServiceEntry)
      → AllWildcards services ws
      → Mem e services
      → ClaimsWildcard to_lowercase parse_url e pat
      → AllWildcards services (ws ++ (pat, e) ∷ [])
  AllWildcards-append services [] pat e a m c = ((m, c), tt)
  AllWildcards-append services (w ∷ ws) pat e (first, others) m c =
      (first, AllWildcards-append services ws pat e others m c)

  get-insert_sound :
      (services : List ServiceEntry) (m : HashMap Text ServiceEntry) (key k : Text)
      (entry e : ServiceEntry)
      → ((j : Text) (x : ServiceEntry)
          → get j m ≡ some x
          → Mem x services × ClaimsExact to_lowercase parse_url x j)
      → Mem entry services
      → ClaimsExact to_lowercase parse_url entry key
      → get k (insert key entry m) ≡ some e
      → Mem e services × ClaimsExact to_lowercase parse_url e k
  get-insert_sound services m key k entry e sound member claim h = elim (Bool-cases (key == k)) [
    | inl same ↦
        let found = some-injective (
          sym (if-true (key == k) (some entry) (get k m) same)
          ∙ sym (get-insert key k entry m)
          ∙ h) in
        subst (λ (x : ServiceEntry). Mem x services × ClaimsExact to_lowercase parse_url x k) found
          (
            member,
            subst (ClaimsExact to_lowercase parse_url entry) ((text_beq_iff key k).0 same) claim,
          )
    | inr other ↦ sound k e (
        sym (if-false (key == k) (some entry) (get k m) other) ∙ sym (get-insert key k entry m) ∙ h)
  ]

  add_entry-IsSound :
      (services : List ServiceEntry) (r r' : TransparentRegistry) (entry : ServiceEntry)
      → IsSound services r
      → Mem entry services
      → add_entry to_lowercase parse_url r entry ≡ ok r'
      → IsSound services r'
  add_entry-IsSound services r r' entry (exact, wild) member h =
      elim (add_entry-AddsOne to_lowercase parse_url r r' entry h) [
        | inl same ↦ subst (IsSound services) (sym same) (exact, wild)
        | inr (inl (key, claim, free, same)) ↦ subst (IsSound services) (sym same) (
          λ k e found.
              get-insert_sound services r.by_host_port key k entry e exact member claim found,
          wild,
        )
        | inr (inr (pat, claim, same)) ↦
            subst (IsSound services) (sym same)
              (exact, AllWildcards-append services r.wildcards pat entry wild member claim)
      ]

  add_entries-IsSound :
      (services : List ServiceEntry) (r r' : TransparentRegistry) (entries : List ServiceEntry)
      → IsSound services r
      → ((e : ServiceEntry) → Mem e entries → Mem e services)
      → add_entries to_lowercase parse_url r entries ≡ ok r'
      → IsSound services r'
  unfolding add_entries
  add_entries-IsSound services r r' [] sound sub h = subst (IsSound services) (ok-injective h) sound
  add_entries-IsSound services r r' (entry ∷ entries) sound sub h =
      let (r1, first, others) =
        >>=-eq-ok (add_entry to_lowercase parse_url r entry)
          (λ x. add_entries to_lowercase parse_url x entries) h in
      add_entries-IsSound services r1 r' entries
        (add_entry-IsSound services r r1 entry sound (sub entry mem-cons_self) first)
        (λ e m. sub e (mem-cons_of_mem entry m)) others

  build-IsSound :
      (services : List ServiceEntry) (r : TransparentRegistry)
      → build to_lowercase parse_url services ≡ ok r
      → IsSound services r
  unfolding build get
  build-IsSound services r h =
      add_entries-IsSound services (record { by_host_port = []; wildcards = [] }) r services
        (λ k e found. absurd (none-some found), tt) (λ e m. m) h

  -- The name and the port are those that the service claims, or match its wildcard.
  abbrev pub Serves : ServiceEntry → Text → ℕ → Type 0
  Serves e name port =
      ClaimsExact to_lowercase parse_url e (host_port (to_lowercase name) port)
      ⊎ ((pat : WildcardPattern) × ClaimsWildcard to_lowercase parse_url e pat
          × (matches to_lowercase pat name port ≡ true))

  first_match-Serves :
      (services : List ServiceEntry) (ws : List (WildcardPattern × ServiceEntry)) (e : ServiceEntry)
      (name : Text) (port : ℕ)
      → AllWildcards services ws
      → first_match to_lowercase name port ws ≡ some e
      → Mem e services × Serves e name port
  first_match-Serves services [] e name port a h = absurd (none-some h)
  first_match-Serves services ((pat, x) ∷ ws) e name port ((member, claim), others) h =
      let rest = first_match to_lowercase name port ws in
      elim (Bool-cases (matches to_lowercase pat name port)) [
        | inl fits ↦
            subst (λ (y : ServiceEntry). Mem y services × Serves y name port)
              (some-injective
                (sym (if-true (matches to_lowercase pat name port) (some x) rest fits) ∙ h))
              (member, inr (pat, claim, fits))
        | inr misses ↦
            first_match-Serves services ws e name port others
              (sym (if-false (matches to_lowercase pat name port) (some x) rest misses) ∙ h)
      ]

  -- A service that is found for a name and a port is one of the services, is not off, and claims that
  -- name, with its letters in lower case, and that port, or a wildcard that matches them.
  pub lookup-Serves :
      (services : List ServiceEntry) (r : TransparentRegistry) (e : ServiceEntry) (name : Text)
      (port : ℕ)
      → build to_lowercase parse_url services ≡ ok r
      → lookup to_lowercase r name port ≡ some e
      → Mem e services × Serves e name port
  unfolding lookup
  lookup-Serves services r e name port built h =
      let (exact, wild) = build-IsSound services r built in
      let key = host_port (to_lowercase name) port in
      elim (Option-cases (get key r.by_host_port)) [
        | inl none_held ↦ first_match-Serves services r.wildcards e name port wild (
            sym (
              ap (λ o. or_wildcard to_lowercase o (first_match to_lowercase name port r.wildcards))
                none_held)
            ∙ h)
        | inr (x, held) ↦
            let same = some-injective (
              sym (
                ap
                  (λ o. or_wildcard to_lowercase o (first_match to_lowercase name port r.wildcards))
                  held)
              ∙ h) in
            let (member, claim) = exact key e (held ∙ ap (λ y. some y) same) in (member, inl claim)
      ]
