-- ===== src/SyncMap.antt =====
-- sync/mapping.rs: the map of synchronised items with its backups. A backup is named by its time
-- stamp, here a number, whose order is that of the names; JSON is a parameter.
pub mod Backups
pub mod Entries
mod Examples
use vaultproxy.Prelude.{
  ◌==◌, HasEq, ℕ, suc, Bool, true, false, not, Option, none, some, List, [], ◌∷◌, if◌then◌else◌,
  ltb, leb, nat_eq, text_eq, Text, codes, length, drop, Result, ok, err,
}
use vaultproxy.HashMap.{HashMap, get, insert, remove}

pub record ItemMapping : Type 0 where
  pub vw_id : Text
  pub last_cloud_rev : Option Text
  pub last_vw_rev : Option Text

pub record FolderMapping : Type 0 where
  pub collection_id : Text
  pub org_id : Text
  pub vw_folder_id : Text
  pub name : Text

pub record SyncMap : Type 0 where
  pub items : HashMap Text ItemMapping
  pub folders : HashMap Text FolderMapping

abbrev pub default_map : SyncMap
default_map = record { items = []; folders = [] }

abbrev pub has_no_items : SyncMap → Bool
has_no_items map = if leb (length map.items) 0 then true else false

-- What reading a file comes to.
pub data Contents : Type 0 where
  not_found : Contents
  unreadable : Contents
  contents : Text → Contents

-- The live file, and the backups beside it.
pub record Store : Type 0 where
  pub live : Contents
  pub backups : HashMap ℕ Contents

pub data LoadError : Type 0 where
  parse_failed : LoadError
  read_failed : LoadError

abbrev pub retention : ℕ
retention = 10

unfoldable pub insert_newest : ℕ × Contents → List (ℕ × Contents) → List (ℕ × Contents)
insert_newest e [] = e ∷ []
insert_newest e (f ∷ fs) =
    let rest = insert_newest e fs in if ltb e.0 f.0 then f ∷ rest else e ∷ f ∷ fs

-- `list_backups`: newest first.
unfoldable pub list_backups : HashMap ℕ Contents → List (ℕ × Contents)
list_backups [] = []
list_backups (e ∷ m) = insert_newest e (list_backups m)

-- `removable` tells which files can be removed.
unfoldable pub prune_each :
    (ℕ → Bool) → List (ℕ × Contents) → HashMap ℕ Contents → HashMap ℕ Contents
prune_each removable [] m = m
prune_each removable ((ts, c) ∷ old) m =
    prune_each removable old (if removable ts then remove ts m else m)

unfoldable pub prune_backups : (ℕ → Bool) → HashMap ℕ Contents → HashMap ℕ Contents
prune_backups removable m = prune_each removable (drop retention (list_backups m)) m

-- How the copy of the live file ends. One that fails may leave a part of it under the name.
pub data Copy : Type 0 where
  copied : Copy
  failed : (left : Option Contents) → Copy

abbrev pub left_at : ℕ → Option Contents → HashMap ℕ Contents → HashMap ℕ Contents
left_at ts none m = m
left_at ts (some part) m = insert ts part m

-- Only a file that can be read is copied.
abbrev pub rotated : (ℕ → Bool) → ℕ → Copy → Contents → HashMap ℕ Contents → HashMap ℕ Contents
rotated removable ts copy not_found m = m
rotated removable ts copied unreadable m = m
rotated removable ts copied (contents text) m =
    prune_backups removable (insert ts (contents text) m)
rotated removable ts (failed left) unreadable m = left_at ts left m
rotated removable ts (failed left) (contents text) m = left_at ts left m

-- `rotate_backup`, at the time stamp. An error only ends it: `save` goes on. When the directory
-- cannot be listed, nothing is pruned, as when nothing is removable.
unfoldable pub rotate_backup : (ℕ → Bool) → ℕ → Copy → Store → Store
rotate_backup removable ts copy s = record s {
  backups = rotated removable ts copy s.live s.backups;
}

module _ (from_json : Text → Option SyncMap) where
  abbrev pub read_map : Contents → Option SyncMap
  read_map (contents text) = from_json text
  read_map not_found = none
  read_map unreadable = none

  abbrev pub or_older : Option SyncMap → Option SyncMap → Option SyncMap
  or_older none older = older
  or_older (some map) older = if has_no_items map then older else some map

  unfoldable pub first_usable : List (ℕ × Contents) → Option SyncMap
  first_usable [] = none
  first_usable ((ts, c) ∷ rest) = or_older (read_map c) (first_usable rest)

  unfoldable pub restore_newest_backup : Store → Option SyncMap
  restore_newest_backup s = first_usable (list_backups s.backups)

  abbrev pub restored_or : Option SyncMap → Result LoadError SyncMap → Result LoadError SyncMap
  restored_or none r = r
  restored_or (some map) r = ok map

  abbrev pub parsed_or : Option SyncMap → Option SyncMap → Result LoadError SyncMap
  parsed_or none backup = restored_or backup (err parse_failed)
  parsed_or (some map) backup = if has_no_items map then restored_or backup (ok map) else ok map

  abbrev pub loaded : Contents → Option SyncMap → Result LoadError SyncMap
  loaded (contents text) backup = parsed_or (from_json text) backup
  loaded not_found backup = restored_or backup (ok default_map)
  loaded unreadable backup = err read_failed

  unfoldable pub load : Store → Result LoadError SyncMap
  load s = loaded s.live (restore_newest_backup s)

module _ (to_json : SyncMap → Text) where
  -- `save`, when the write of the live file succeeds.
  unfoldable pub save : (ℕ → Bool) → ℕ → Copy → SyncMap → Store → Store
  save removable ts copy map s = record (rotate_backup removable ts copy s) {
    live = contents (to_json map);
  }

abbrev pub vw_id_of : Option ItemMapping → Option Text
vw_id_of none = none
vw_id_of (some mapping) = some mapping.vw_id

unfoldable pub get_vw_id : SyncMap → Text → Option Text
get_vw_id map cloud_id = vw_id_of (get cloud_id map.items)

-- `iter().find(..)`, in the order of the map.
unfoldable pub find_cloud_id : HashMap Text ItemMapping → Text → Option Text
find_cloud_id [] vw_id = none
find_cloud_id ((cloud_id, mapping) ∷ items) vw_id =
    let rest = find_cloud_id items vw_id in if mapping.vw_id == vw_id then some cloud_id else rest

unfoldable pub get_cloud_id : SyncMap → Text → Option Text
get_cloud_id map vw_id = find_cloud_id map.items vw_id

unfoldable pub set_item : SyncMap → Text → Text → Option Text → Option Text → SyncMap
set_item map cloud_id vw_id cloud_rev vw_rev = record map {
  items =
      insert cloud_id (record { vw_id = vw_id; last_cloud_rev = cloud_rev; last_vw_rev = vw_rev })
        map.items;
}

unfoldable pub remove_item : SyncMap → Text → SyncMap
remove_item map cloud_id = record map { items = remove cloud_id map.items }

unfoldable pub set_folder : SyncMap → Text → Text → Text → Text → SyncMap
set_folder map collection_id org_id vw_folder_id name = record map {
  folders =
      insert collection_id
        (record {
          collection_id = collection_id;
          org_id = org_id;
          vw_folder_id = vw_folder_id;
          name = name;
        })
        map.folders;
}

abbrev pub folder_id_of : Option FolderMapping → Option Text
folder_id_of none = none
folder_id_of (some mapping) = some mapping.vw_folder_id

unfoldable pub get_folder_id : SyncMap → Text → Option Text
get_folder_id map collection_id = folder_id_of (get collection_id map.folders)
