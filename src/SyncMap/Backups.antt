-- ===== src/SyncMap/Backups.antt =====
-- What the backups of sync/mapping.rs are good for.
use vaultproxy.Prelude.{
  ℕ, zero, suc, ◌<◌, ◌≡◌, refl, ap, ◌∙◌, Bool, true, false, Option, some, List, [], ◌∷◌, arith, ltb,
  nat_eq, text_eq, Text, drop, ok, Bool-cases, inl, inr,
}
use vaultproxy.HashMap.{HashMap, insert, remove}
use vaultproxy.SyncMap.{
  SyncMap, Contents, contents, Store, Copy, copied, has_no_items, insert_newest, list_backups,
  prune_each, prune_backups, rotate_backup, first_usable, restore_newest_backup, load, save,
}

-- The backups are older than the time stamp.
abbrev pub AllOlder : ℕ → List (ℕ × Contents) → Type 0
AllOlder ts [] = Unit
AllOlder ts (e ∷ m) = (e.0 < ts) × AllOlder ts m

insert_newest-AllOlder :
    (ts : ℕ) (e : ℕ × Contents) (m : List (ℕ × Contents))
    → e.0 < ts
    → AllOlder ts m
    → AllOlder ts (insert_newest e m)
unfolding insert_newest
insert_newest-AllOlder ts e [] h o = (h, tt)
insert_newest-AllOlder ts e (f ∷ m) h (k, o) = elim (Bool-cases (ltb e.0 f.0)) [
  | inl older ↦ rw older (k, insert_newest-AllOlder ts e m h o)
  | inr newer ↦ rw newer (h, (k, o))
]

list_backups-AllOlder :
    (ts : ℕ) (m : HashMap ℕ Contents) → AllOlder ts m → AllOlder ts (list_backups m)
unfolding list_backups
list_backups-AllOlder ts [] o = tt
list_backups-AllOlder ts (e ∷ m) (h, o) =
    insert_newest-AllOlder ts e (list_backups m) h (list_backups-AllOlder ts m o)

drop-AllOlder : (ts n : ℕ) (m : List (ℕ × Contents)) → AllOlder ts m → AllOlder ts (drop n m)
drop-AllOlder ts zero m o = o
drop-AllOlder ts (suc n) [] o = tt
drop-AllOlder ts (suc n) (e ∷ m) (h, o) = drop-AllOlder ts n m o

remove-AllOlder : (ts k : ℕ) (m : HashMap ℕ Contents) → AllOlder ts m → AllOlder ts (remove k m)
unfolding remove
remove-AllOlder ts k [] o = tt
remove-AllOlder ts k ((j, c) ∷ m) (h, o) = ground (arith, remove-AllOlder ts k m o)

list_backups-insert :
    (ts : ℕ) (c : Contents) (m : HashMap ℕ Contents)
    → AllOlder ts m
    → list_backups (insert ts c m) ≡ (ts, c) ∷ list_backups m
unfolding list_backups insert insert_newest
list_backups-insert ts c [] o = refl
list_backups-insert ts c ((j, d) ∷ m) (h, o) = ground (arith, list_backups-insert ts c m o)

remove-insert :
    (ts k : ℕ) (c : Contents) (m : HashMap ℕ Contents)
    → k < ts
    → remove k (insert ts c m) ≡ insert ts c (remove k m)
unfolding remove insert
remove-insert ts k c [] h = ground arith
remove-insert ts k c ((j, d) ∷ m) h = ground (arith, remove-insert ts k c m h)

prune_each-insert :
    (removable : ℕ → Bool) (ts : ℕ) (c : Contents) (old : List (ℕ × Contents))
    (m : HashMap ℕ Contents)
    → AllOlder ts old
    → AllOlder ts m
    → (rest : HashMap ℕ Contents) × (prune_each removable old (insert ts c m) ≡ insert ts c rest)
      × AllOlder ts rest
unfolding prune_each
prune_each-insert removable ts c [] m o a = (m, refl, a)
prune_each-insert removable ts c ((k, d) ∷ old) m (h, o) a = elim (Bool-cases (removable k)) [
  | inl gone ↦
      rw (gone, remove-insert ts k c m h)
        (prune_each-insert removable ts c old (remove k m) o (remove-AllOlder ts k m a))
  | inr stays ↦ rw stays (prune_each-insert removable ts c old m o a)
]

-- The newest backup survives the pruning.
prune_backups-insert :
    (removable : ℕ → Bool) (ts : ℕ) (c : Contents) (m : HashMap ℕ Contents)
    → AllOlder ts m
    → (rest : List (ℕ × Contents)) × (list_backups (prune_backups removable (insert ts c m))
        ≡ (ts, c) ∷ rest)
unfolding prune_backups
prune_backups-insert removable ts c m a =
    let sorted = list_backups-insert ts c m a in
    let old = drop 9 (list_backups m) in
    let older = drop-AllOlder ts 9 (list_backups m) (list_backups-AllOlder ts m a) in
    let (rest, pruned, still) = prune_each-insert removable ts c old m older a in
    (
      list_backups rest,
      ap (λ l. list_backups (prune_each removable (drop 10 l) (insert ts c m))) sorted
          ∙ ap list_backups pruned
          ∙ list_backups-insert ts c rest still,
    )

module _ (from_json : Text → Option SyncMap) (to_json : SyncMap → Text) where
  -- A map with items that is saved is loaded again, if its text is read back.
  pub load-save :
      (removable : ℕ → Bool) (ts : ℕ) (copy : Copy) (map : SyncMap) (s : Store)
      → from_json (to_json map) ≡ some map
      → has_no_items map ≡ false
      → load from_json (save to_json removable ts copy map s) ≡ ok map
  unfolding load save
  load-save removable ts copy map s back full = rw (back, full) refl

  -- When a map without items is saved over the text of one that has items, what is loaded is that
  -- map, from the backup that the save has made, if the copy succeeds, it is the newest backup, and
  -- both texts are read back.
  pub load-save_empty :
      (removable : ℕ → Bool) (ts : ℕ) (map empty : SyncMap) (text : Text)
      (backups : HashMap ℕ Contents)
      → from_json text ≡ some map
      → has_no_items map ≡ false
      → from_json (to_json empty) ≡ some empty
      → has_no_items empty ≡ true
      → AllOlder ts backups
      → load from_json (
          save to_json removable ts copied empty
            (record { live = contents text; backups = backups }))
        ≡ ok map
  unfolding load save rotate_backup restore_newest_backup first_usable
  load-save_empty removable ts map empty text backups back full back_empty none_left older =
      let (rest, first) = prune_backups-insert removable ts (contents text) backups older in
      rw (back_empty, none_left) (rw first (rw (back, full) refl))
