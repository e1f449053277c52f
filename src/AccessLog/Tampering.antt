-- ===== src/AccessLog/Tampering.antt =====
-- What `verify` of access_log.rs shows of a file: with its last hash, its events.
use vaultproxy.Prelude.{
  ℕ, suc, ◌≡◌, ◌≢◌, ◌⊎◌, refl, ap, ◌∙◌, sym, Bool, true, not, Option, none, some, List, [], ◌∷◌,
  ◌++◌, arith, if◌then◌else◌, eqb, ◌==◌, text_eq, Text, ok, >>=-eq-ok, Bool-cases, Option-cases,
  inl, inr, all,
}
use vaultproxy.AccessLog.Chain.{verify_line-last_of, ok-injective}
use vaultproxy.AccessLog.{
  Event, StoredEvent, event_of, is_blank, chained, last_of, last_hmac_from, check_stored,
  verify_line, verify_from,
}

-- Not an opening brace.
abbrev pub no_brace : ℕ → Bool
no_brace c = not (eqb c b'{')

-- What stands before the first brace is told from what follows it.
brace_cases :
    (a b x y : Text)
    → all no_brace a ≡ true
    → all no_brace b ≡ true
    → (a ++ b'{' ∷ x) ≡ (b ++ b'{' ∷ y)
    → (a ≡ b) × (x ≡ y)
brace_cases [] [] x y h k e = (refl, cc)
brace_cases [] (d ∷ b) x y h k e = ground arith
brace_cases (c ∷ a) [] x y h k e = ground arith
brace_cases (c ∷ a) (d ∷ b) x y h k e = ground (arith, brace_cases a b x y)

module _ (event_json : Event → Text) (from_json : Text → Option StoredEvent)
    (hex_hmac : Text → Text → Text) (key : Text) where
  -- The bodies of the events of a file, the newest first, on those of the lines before.
  abbrev pub body_onto : List Text → Text → List Text
  body_onto acc line =
      if is_blank line
      then acc
      else elim (from_json line) [ none ↦ acc | some stored ↦ event_json (event_of stored) ∷ acc ]

  unfoldable pub bodies_onto : List Text → List Text → List Text
  bodies_onto acc [] = acc
  bodies_onto acc (line ∷ lines) = bodies_onto (body_onto acc line) lines

  -- The hash that a chain of bodies ends in.
  unfoldable pub chain_of : List Text → Text
  chain_of [] = []
  chain_of (body ∷ older) = hex_hmac key (chain_of older ++ body)

  check_stored-hash :
      (prev h : Text) (n : ℕ) (stored : StoredEvent)
      → check_stored event_json hex_hmac key prev n stored ≡ ok h
      → h ≡ chained event_json hex_hmac key prev (event_of stored)
  unfolding check_stored
  check_stored-hash prev h n stored v =
      let again = chained event_json hex_hmac key stored.prev_hmac (event_of stored) in
      ground (arith, text_eq.same_iff stored.prev_hmac prev, text_eq.same_iff again stored.hmac)

  verify_line-chain_of :
      (acc : List Text) (n : ℕ) (line h : Text)
      → verify_line event_json from_json hex_hmac key (chain_of acc) n line ≡ ok h
      → h ≡ chain_of (body_onto acc line)
  unfolding verify_line chain_of
  verify_line-chain_of acc n line h v = elim (Bool-cases (is_blank line)) [
    | inl blank ↦ ground arith
    | inr text ↦ elim (Option-cases (from_json line)) [
      | inl absent ↦ ground arith
      | inr (stored, found) ↦ ground (arith, check_stored-hash (chain_of acc) h n stored)
    ]
  ]

  -- The file is verified and ends in this hash.
  abbrev pub IsVerified : List Text → Text → Type 0
  IsVerified file h =
      (verify_from event_json from_json hex_hmac key [] 1 file ≡ ok tt)
      × (last_hmac_from from_json [] 1 file ≡ ok h)

  verify_from-chain_of :
      (acc : List Text) (n : ℕ) (file : List Text) (h : Text)
      → verify_from event_json from_json hex_hmac key (chain_of acc) n file ≡ ok tt
      → last_hmac_from from_json (chain_of acc) n file ≡ ok h
      → h ≡ chain_of (bodies_onto acc file)
  unfolding verify_from last_hmac_from bodies_onto
  verify_from-chain_of acc n [] h v l = cc
  verify_from-chain_of acc n (line ∷ file) h v l =
      let (g, first, others) =
        >>=-eq-ok (verify_line event_json from_json hex_hmac key (chain_of acc) n line)
          (λ h'. verify_from event_json from_json hex_hmac key h' (suc n) file) v in
      let (f, read, later) =
        >>=-eq-ok (last_of from_json (chain_of acc) n line)
          (λ h'. last_hmac_from from_json h' (suc n) file) l in
      let same : f ≡ g = ok-injective (
        sym read
        ∙ verify_line-last_of event_json from_json hex_hmac key (chain_of acc) line g n first) in
      let next = verify_line-chain_of acc n line g first in
      verify_from-chain_of (body_onto acc line) (suc n) file h (rw (sym next) others)
        (rw (sym next, sym same) later)

  -- Two different messages with the same hash.
  abbrev pub Collision : Type 0
  Collision = (m m' : Text) × (m ≢ m') × (hex_hmac key m ≡ hex_hmac key m')

  abbrev pub AllBraced : List Text → Type 0
  AllBraced [] = Unit
  AllBraced (body ∷ bodies) = ((rest : Text) × (body ≡ b'{' ∷ rest)) × AllBraced bodies

  module _ (is_object : (ev : Event) → (rest : Text) × (event_json ev ≡ b'{' ∷ rest))
      (is_hex : (m : Text) → all no_brace (hex_hmac key m) ≡ true)
      (not_empty : (m : Text) → hex_hmac key m ≢ []) where
    bodies_onto-AllBraced :
        (acc : List Text) (file : List Text) → AllBraced acc → AllBraced (bodies_onto acc file)
    unfolding bodies_onto
    bodies_onto-AllBraced acc [] b = b
    bodies_onto-AllBraced acc (line ∷ file) b =
        bodies_onto-AllBraced (body_onto acc line) file (elim (Bool-cases (is_blank line)) [
          | inl blank ↦ rw blank b
          | inr text ↦ elim (Option-cases (from_json line)) [
            | inl absent ↦ rw (text, absent) b
            | inr (stored, found) ↦ rw (text, found) (is_object (event_of stored), b)
          ]
        ])

    chain_of-no_brace : (bodies : List Text) → all no_brace (chain_of bodies) ≡ true
    unfolding chain_of
    chain_of-no_brace [] = refl
    chain_of-no_brace (body ∷ older) = is_hex (chain_of older ++ body)

    chain_of_cases :
        (es fs : List Text)
        → AllBraced es
        → AllBraced fs
        → chain_of es ≡ chain_of fs
        → (es ≡ fs) ⊎ Collision
    unfolding chain_of
    chain_of_cases [] [] a b e = inl refl
    chain_of_cases [] (y ∷ fs) a b e = absurd (not_empty (chain_of fs ++ y) (sym e))
    chain_of_cases (x ∷ es) [] a b e = absurd (not_empty (chain_of es ++ x) e)
    chain_of_cases (x ∷ es) (y ∷ fs) ((r, p), a) ((q, o), b) e =
        elim (Bool-cases ((chain_of es ++ x) == (chain_of fs ++ y))) [
          | inl equal ↦
              let (hashes, bodies) =
                brace_cases (chain_of es) (chain_of fs) r q (chain_of-no_brace es)
                  (chain_of-no_brace fs)
                  (ap (λ z. chain_of es ++ z) (sym p)
                    ∙ (text_eq.same_iff (chain_of es ++ x) (chain_of fs ++ y)).0 equal
                    ∙ ap (λ z. chain_of fs ++ z) o) in
              elim (chain_of_cases es fs a b hashes) [
                | inl rest ↦
                    inl (rw rest (ap (λ z. z ∷ fs) (p ∙ ap (λ z. b'{' ∷ z) bodies ∙ sym o)))
                | inr collision ↦ inr collision
              ]
          | inr other ↦ inr (
            chain_of es ++ x,
            chain_of fs ++ y,
            (λ same.
                ground (arith, (text_eq.same_iff (chain_of es ++ x) (chain_of fs ++ y)).1 same)),
            e,
          )
        ]

    -- Two files that are verified with one key and end in the same hash hold the same event bodies in
    -- the same order, or two different messages have the same hash.
    pub same_hash_cases :
        (file file' : List Text) (h : Text)
        → IsVerified file h
        → IsVerified file' h
        → (bodies_onto [] file ≡ bodies_onto [] file') ⊎ Collision
    same_hash_cases file file' h (v, l) (w, k) =
        chain_of_cases (bodies_onto [] file) (bodies_onto [] file')
          (bodies_onto-AllBraced [] file tt) (bodies_onto-AllBraced [] file' tt)
          (sym (verify_from-chain_of [] 1 file h (unfold chain_of in v) (unfold chain_of in l))
            ∙ verify_from-chain_of [] 1 file' h (unfold chain_of in w) (unfold chain_of in k))
