-- ===== src/SyncMap/Examples.antt =====
-- Runs of the map of sync/mapping.rs, and its theorems at concrete inputs, with an encoding in the
-- place of JSON.
use vaultproxy.Prelude.{
  ◌≡◌, refl, true, Option, none, some, [], ◌∷◌, arith, nat_eq, Text, codes, ok,
}
use vaultproxy.SyncMap.{
  get_cloud_id, find_cloud_id, SyncMap, ItemMapping, contents, unreadable, load, save, copied,
  list_backups, insert_newest,
}
use vaultproxy.SyncMap.Backups.{load-save_empty}

abbrev item : Text → ItemMapping
item id = record { vw_id = id; last_cloud_rev = none; last_vw_rev = none }

-- One item of a map, or none.
abbrev encode : SyncMap → Text
encode map = elim map.items [ [] ↦ [] | e ∷ es ↦ 1 ∷ e.1.vw_id ]

abbrev decode : Text → Option SyncMap
decode [] = some (record { items = []; folders = [] })
decode (c ∷ id) = some (record { items = (codes "a", item id) ∷ []; folders = [] })

abbrev one_item : SyncMap
one_item = record { items = (codes "a", item (codes "x")) ∷ []; folders = [] }

abbrev no_item : SyncMap
no_item = record { items = []; folders = [] }

newest_first :
    list_backups ((1, unreadable) ∷ (3, unreadable) ∷ (2, unreadable) ∷ [])
    ≡ (3, unreadable) ∷ (2, unreadable) ∷ (1, unreadable) ∷ []
unfolding list_backups insert_newest
newest_first = refl

load-save_empty_example :
    load decode (
      save encode
        (λ ts. true)
        5
        copied
        no_item
        (record { live = contents (encode one_item); backups = (4, unreadable) ∷ [] }))
    ≡ ok one_item
load-save_empty_example =
    load-save_empty decode encode (λ ts. true) 5 one_item no_item (encode one_item)
      ((4, unreadable) ∷ []) refl refl refl refl (omega arith, tt)

found : get_cloud_id one_item (codes "x") ≡ some (codes "a")
unfolding get_cloud_id find_cloud_id
found = refl

not_there : get_cloud_id one_item (codes "y") ≡ none
unfolding get_cloud_id find_cloud_id
not_there = refl
