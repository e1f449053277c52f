-- ===== src/HashMap.antt =====
-- `std::collections::HashMap` and `DashMap` as the program uses them: an association list, whose
-- order stands for the map's iteration order.
pub mod Laws
use vaultproxy.Prelude.{
  ◌≡◌, Bool, true, false, Option, none, some, List, [], ◌∷◌, if◌then◌else◌, HasEq, ◌==◌,
}

abbrev pub HashMap {ℓ κ} : Type ℓ → Type κ → Type (ℓ ⊔ κ)
HashMap K V = List (K × V)

module _ {ℓ κ} {K : Type ℓ} {V : Type κ} where
  -- `retain`, and `iter().filter().collect()`
  unfoldable pub retain_map : (K → V → Bool) → HashMap K V → HashMap K V
  retain_map p [] = []
  retain_map p ((j, v) ∷ m) =
      let rest = retain_map p m in elim (p j v) [ true ↦ (j, v) ∷ rest | false ↦ rest ]

module _ {ℓ κ} {K : Type ℓ} {V : Type κ} ⦃e : HasEq K⦄ where
  unfoldable pub get : K → HashMap K V → Option V
  get k [] = none
  get k ((j, v) ∷ m) = if j == k then some v else get k m

  unfoldable pub insert : K → V → HashMap K V → HashMap K V
  insert k v [] = (k, v) ∷ []
  insert k v ((j, w) ∷ m) = let rest = insert k v m in if j == k then (j, v) ∷ m else (j, w) ∷ rest

  unfoldable pub remove : K → HashMap K V → HashMap K V
  remove k [] = []
  remove k ((j, w) ∷ m) = let rest = remove k m in if j == k then rest else (j, w) ∷ rest

  -- A map holds each key once.
  abbrev pub IsMap : HashMap K V → Type κ
  IsMap [] = Unit
  IsMap ((j, v) ∷ m) = (get j m ≡ none) × IsMap m
