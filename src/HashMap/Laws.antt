-- ===== src/HashMap/Laws.antt =====
-- What a lookup, the size and the uniqueness of keys are after each operation of a map.
use mathlib.Core.Option.{some-injective}
use vaultproxy.Prelude.{
  ==_refl, ◌≢◌, ap, ◌∙◌, inl, inr, Bool-cases, suc, ◌≤◌, ◌<◌, ◌≡◌, refl, sym, Bool, true, false,
  Option, none, some, [], ◌∷◌, arith, if◌then◌else◌, HasEq, ◌==◌, length,
}
use vaultproxy.HashMap.{HashMap, get, insert, remove, retain_map, IsMap}

abbrev pub keep_if {ℓ} : {V : Type ℓ} → (V → Bool) → Option V → Option V
keep_if p none = none
keep_if p (some v) = if p v then some v else none

module _ {ℓ κ} {K : Type ℓ} {V : Type κ} ⦃e : HasEq K⦄ where
  pub get-insert :
      (k j : K) (v : V) (m : HashMap K V)
      → get j (insert k v m) ≡ (if k == j then some v else get j m)
  unfolding get insert
  get-insert k j v [] = refl
  get-insert k j v ((i, w) ∷ m) =
      ground (arith, e.same_iff i k, e.same_iff i j, e.same_iff k j, get-insert k j v m)

  pub get-insert_same : (k : K) (v : V) (m : HashMap K V) → get k (insert k v m) ≡ some v
  get-insert_same k v m = get-insert k k v m ∙ ap (λ b. if b then some v else get k m) (==_refl k)

  pub get-insert_distinct :
      (k j : K) (v : V) (m : HashMap K V) → k ≢ j → get j (insert k v m) ≡ get j m
  get-insert_distinct k j v m n = elim (Bool-cases (k == j)) [
    | inl same ↦ absurd (n ((e.same_iff k j).0 same))
    | inr other ↦ get-insert k j v m ∙ ap (λ b. if b then some v else get j m) other
  ]

  pub get-remove :
      (k j : K) (m : HashMap K V) → get j (remove k m) ≡ (if k == j then none else get j m)
  unfolding get remove
  get-remove k j [] = ground arith
  get-remove k j ((i, w) ∷ m) =
      ground (arith, e.same_iff i k, e.same_iff i j, e.same_iff k j, get-remove k j m)

  get-retain_map-none :
      (p : K → V → Bool) (k : K) (m : HashMap K V) → get k m ≡ none → get k (retain_map p m) ≡ none
  unfolding get retain_map
  get-retain_map-none p k [] h = refl
  get-retain_map-none p k ((i, w) ∷ m) h = ground (arith, get-retain_map-none p k m)

  pub get-retain_map :
      (p : K → V → Bool) (k : K) (m : HashMap K V)
      → IsMap m
      → get k (retain_map p m) ≡ keep_if (p k) (get k m)
  unfolding get retain_map
  get-retain_map p k [] h = refl
  get-retain_map p k ((i, w) ∷ m) h =
      ground (arith, e.same_iff i k, get-retain_map-none p k m, get-retain_map p k m)

  pub insert-IsMap : (k : K) (v : V) (m : HashMap K V) → IsMap m → IsMap (insert k v m)
  unfolding insert get
  insert-IsMap k v [] h = (refl, tt)
  insert-IsMap k v ((i, w) ∷ m) h =
      ground (arith, get-insert k i v m, insert-IsMap k v m, e.same_iff i k, e.same_iff k i)

  pub remove-IsMap : (k : K) (m : HashMap K V) → IsMap m → IsMap (remove k m)
  unfolding remove
  remove-IsMap k [] h = tt
  remove-IsMap k ((i, w) ∷ m) h = ground (arith, get-remove k i m, remove-IsMap k m)

  pub retain_map-IsMap : (p : K → V → Bool) (m : HashMap K V) → IsMap m → IsMap (retain_map p m)
  unfolding retain_map
  retain_map-IsMap p [] h = tt
  retain_map-IsMap p ((i, w) ∷ m) h =
      ground (arith, get-retain_map-none p i m, retain_map-IsMap p m)

  pub length-insert :
      (k : K) (v : V) (m : HashMap K V)
      → length (insert k v m) ≡ elim (get k m) [ none ↦ suc (length m) | some _ ↦ length m ]
  unfolding get insert
  length-insert k v [] = refl
  length-insert k v ((i, w) ∷ m) = ground (arith, length-insert k v m)

  length-remove_absent : (k : K) (m : HashMap K V) → get k m ≡ none → length (remove k m) ≡ length m
  unfolding get remove
  length-remove_absent k [] h = refl
  length-remove_absent k ((i, w) ∷ m) h = ground (arith, length-remove_absent k m)

  pub length-remove :
      (k : K) (m : HashMap K V)
      → IsMap m
      → length m
        ≡ elim (get k m) [ none ↦ length (remove k m) | some _ ↦ suc (length (remove k m)) ]
  unfolding get remove
  length-remove k [] h = refl
  length-remove k ((i, w) ∷ m) h =
      ground (arith, length-remove k m, length-remove_absent k m, e.same_iff i k)

module _ {ℓ κ} {K : Type ℓ} {V : Type κ} where
  pub length-retain_map-le :
      (p : K → V → Bool) (m : HashMap K V) → length (retain_map p m) ≤ length m
  unfolding retain_map
  length-retain_map-le p [] = omega arith
  length-retain_map-le p ((i, w) ∷ m) = ground (arith, length-retain_map-le p m)

module _ {ℓ κ} {K : Type ℓ} {V : Type κ} ⦃e : HasEq K⦄ (p : K → V → Bool) (k : K) (v : V) where
  dropped_here :
      (j : K) (w : V) (o : Option V)
      → (j == k) ≡ true
      → (if j == k then some w else o) ≡ some v
      → p k v ≡ false
      → p j w ≡ false
  dropped_here j w o same h d =
      let found = some-injective w v (sym (ap (λ b. if b then some w else o) same) ∙ h) in
      ap (λ x. p x w) ((e.same_iff j k).0 same) ∙ ap (p k) found ∙ d

  -- An entry that is not kept makes the map smaller.
  pub length-retain_map-lt :
      (m : HashMap K V) → get k m ≡ some v → p k v ≡ false → length (retain_map p m) < length m
  unfolding get retain_map
  length-retain_map-lt [] h d = cc
  length-retain_map-lt ((j, w) ∷ m) h d = elim (Bool-cases (j == k)) [
    | inl same ↦
        let out = dropped_here j w (get k m) same h d in
        ground (arith, out, length-retain_map-le p m)
    | inr other ↦
        let smaller =
          length-retain_map-lt m (sym (ap (λ b. if b then some w else get k m) other) ∙ h) d in
        ground (arith, smaller)
  ]
