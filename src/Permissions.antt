-- ===== src/Permissions.antt =====
-- security/permissions.rs: which tools may run freely. `str::to_lowercase`, which follows the tables
-- of Unicode, is a parameter.
mod First
pub mod Keywords
mod Examples
use vaultproxy.Prelude.{
  ℕ, Bool, true, false, ◌&&◌, Option, none, some, List, [], ◌∷◌, if◌then◌else◌, ltb, HasEq, text_eq,
  Text, codes,
}
use vaultproxy.Text.{contains, byte_len}
use vaultproxy.HashMap.{HashMap, get, insert}

pub data Permission : Type 0 where
  allow : Permission
  ask : Permission
  block : Permission
  log : Permission

pub record ToolPermissions : Type 0 where
  pub defaults : HashMap Text Permission
  pub overrides : HashMap Text Permission

-- `Default::default`
abbrev pub default_permissions : ToolPermissions
default_permissions = record {
  defaults =
      (codes "list", allow)
      ∷ (codes "get", allow)
      ∷ (codes "status", allow)
      ∷ (codes "health", allow)
      ∷ (codes "create", log)
      ∷ (codes "update", log)
      ∷ (codes "add", log)
      ∷ (codes "delete", ask)
      ∷ (codes "remove", ask)
      ∷ (codes "ssh", ask)
      ∷ (codes "rotate", ask)
      ∷ (codes "change_password", ask)
      ∷ (codes "firewall", ask)
      ∷ (codes "restart", ask)
      ∷ [];
  overrides = [];
}

-- `matched.is_none() || category.len() > matched.unwrap().0.len()`
abbrev pub is_longer : Text → Option (Text × Permission) → Bool
is_longer category none = true
is_longer category (some (c, p)) = ltb (byte_len c) (byte_len category)

-- The loop over the categories, in the order of the map.
unfoldable pub match_from :
    Text → Option (Text × Permission) → HashMap Text Permission → Option (Text × Permission)
match_from lower matched [] = matched
match_from lower matched ((category, perm) ∷ m) =
    match_from lower
      (if contains lower category && is_longer category matched
        then some (category, perm)
        else matched)
      m

abbrev pub permission_of : Option (Text × Permission) → Permission
permission_of none = log
permission_of (some (category, perm)) = perm

abbrev pub unless_overridden : Option Permission → Option (Text × Permission) → Permission
unless_overridden (some perm) matched = perm
unless_overridden none matched = permission_of matched

abbrev pub category_of : Option (Text × Permission) → Text
category_of none = codes "other"
category_of (some (category, perm)) = category

module _ (to_lowercase : Text → Text) where
  unfoldable pub get_default_permission : ToolPermissions → Text → Permission
  get_default_permission t tool_name =
      permission_of (match_from (to_lowercase tool_name) none t.defaults)

  unfoldable pub get_permission : ToolPermissions → Text → Permission
  get_permission t tool_name =
      unless_overridden (get tool_name t.overrides)
        (match_from (to_lowercase tool_name) none t.defaults)

  unfoldable pub get_category : ToolPermissions → Text → Text
  get_category t tool_name = category_of (match_from (to_lowercase tool_name) none t.defaults)
