-- ===== src/SyncMap/Entries.antt =====
-- The entries of the map of sync/mapping.rs, looked up in both directions.
use vaultproxy.Prelude.{◌≡◌, refl, ap, Option, none, some, [], ◌∷◌, arith, ==_refl, text_eq, Text}
use vaultproxy.HashMap.{HashMap, get, insert, IsMap}
use vaultproxy.HashMap.Laws.{get-insert_same}
use vaultproxy.SyncMap.{
  SyncMap, ItemMapping, vw_id_of, get_vw_id, find_cloud_id, get_cloud_id, set_item,
}

-- An item found by its second id is in the map under its first.
find_cloud_id-get :
    (items : HashMap Text ItemMapping) (vw_id cloud_id : Text)
    → IsMap items
    → find_cloud_id items vw_id ≡ some cloud_id
    → vw_id_of (get cloud_id items) ≡ some vw_id
unfolding find_cloud_id get
find_cloud_id-get [] vw_id cloud_id h f = cc
find_cloud_id-get ((c, mapping) ∷ items) vw_id cloud_id (absent, h) f = ground (
  arith,
  find_cloud_id-get items vw_id cloud_id h,
  text_eq.same_iff mapping.vw_id vw_id,
  ==_refl c,
  text_eq.same_iff c cloud_id,
)

find_cloud_id-insert :
    (items : HashMap Text ItemMapping) (vw_id cloud_id : Text) (mapping : ItemMapping)
    → mapping.vw_id ≡ vw_id
    → find_cloud_id items vw_id ≡ none
    → find_cloud_id (insert cloud_id mapping items) vw_id ≡ some cloud_id
unfolding find_cloud_id insert
find_cloud_id-insert [] vw_id cloud_id mapping same f =
    ground (arith, (text_eq.same_iff mapping.vw_id vw_id).1 same)
find_cloud_id-insert ((c, other) ∷ items) vw_id cloud_id mapping same f = ground (
  arith,
  find_cloud_id-insert items vw_id cloud_id mapping same,
  (text_eq.same_iff mapping.vw_id vw_id).1 same,
  text_eq.same_iff c cloud_id,
)

-- An item that is found by its VaultWarden id has that id, in a map that holds each key once.
pub get_vw_id-get_cloud_id :
    (map : SyncMap) (vw_id cloud_id : Text)
    → IsMap map.items
    → get_cloud_id map vw_id ≡ some cloud_id
    → get_vw_id map cloud_id ≡ some vw_id
unfolding get_vw_id get_cloud_id
get_vw_id-get_cloud_id map vw_id cloud_id h f = find_cloud_id-get map.items vw_id cloud_id h f

-- After an item is set to a VaultWarden id that none has, each of its ids finds the other.
pub set_item_found :
    (map : SyncMap) (cloud_id vw_id : Text) (cloud_rev vw_rev : Option Text)
    → get_cloud_id map vw_id ≡ none
    → (get_cloud_id (set_item map cloud_id vw_id cloud_rev vw_rev) vw_id ≡ some cloud_id)
      × (get_vw_id (set_item map cloud_id vw_id cloud_rev vw_rev) cloud_id ≡ some vw_id)
unfolding get_vw_id get_cloud_id set_item
set_item_found map cloud_id vw_id cloud_rev vw_rev f =
    let mapping : ItemMapping = record {
      vw_id = vw_id;
      last_cloud_rev = cloud_rev;
      last_vw_rev = vw_rev;
    } in
    (
      find_cloud_id-insert map.items vw_id cloud_id mapping refl f,
      ap vw_id_of (get-insert_same cloud_id mapping map.items),
    )
