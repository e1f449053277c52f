-- ===== src/MountHelper/Request.antt =====
-- `parse_request` of bin/mount_helper.rs: the request of the caller, read and validated.
use vaultproxy.Prelude.{
  not, Option, none, some, List, [], if◌then◌else◌, ◌==◌, text_eq, Text, codes, Result, ok, ◌>>=◌,
  ◌>>◌, reject_if, ok_or,
}
use vaultproxy.Text.{is_utf8}
use vaultproxy.MountHelper.Validate.{
  Checked, validate_slug, validate_share, validate_abs_path, validate_creds_dir,
  validate_mount_point, validate_username, validate_password, validate_fs_options,
}
use vaultproxy.MountHelper.Json.{Obj, Bytes, find_string, find_string_array, parse}

pub record Request : Type 0 where
  pub action : Text
  pub slug : Text
  pub share : Text
  pub mount_point : Text
  pub username : Text
  pub password : Text
  pub fs_options : List Text
  pub creds_dir : Text
  pub fstab_path : Text
  pub allowed_mount_root : Text

abbrev pub default_creds_dir : Text
default_creds_dir = codes "/etc/samba"

abbrev pub default_fstab : Text
default_fstab = codes "/etc/fstab"

abbrev pub default_mount_root : Text
default_mount_root = codes "/mnt"

abbrev pub unwrap_or {ℓ} : {A : Type ℓ} → Option A → A → A
unwrap_or none d = d
unwrap_or (some a) d = a

-- The fields of a request; only `action` and `slug` have no default.
unfoldable pub read_fields : Obj → Result Text Request
read_fields obj = do
  let string = λ (key : Text). find_string key obj.fields
  action ← ok_or (string (codes "action")) (codes "missing action")
  slug ← ok_or (string (codes "slug")) (codes "missing slug")
  ok (record {
    action = action;
    slug = slug;
    share = unwrap_or (string (codes "share")) [];
    mount_point = unwrap_or (string (codes "mount_point")) [];
    username = unwrap_or (string (codes "username")) [];
    password = unwrap_or (string (codes "password")) [];
    fs_options = unwrap_or (find_string_array (codes "fs_options") obj.fields) [];
    creds_dir = unwrap_or (string (codes "creds_dir")) default_creds_dir;
    fstab_path = unwrap_or (string (codes "fstab_path")) default_fstab;
    allowed_mount_root = unwrap_or (string (codes "allowed_mount_root")) default_mount_root;
  })

-- What only a `mount` has validated.
unfoldable pub validate_mount : Request → Checked
validate_mount req = do
  validate_share req.share
  validate_mount_point req.mount_point req.allowed_mount_root
  validate_username req.username
  validate_password req.password
  validate_fs_options req.fs_options

unfoldable pub validate_action : Request → Checked
validate_action req =
    if req.action == codes "mount"
    then validate_mount req
    else if req.action == codes "unmount"
    then validate_mount_point req.mount_point req.allowed_mount_root
    else ok tt

unfoldable pub validate_request : Request → Checked
validate_request req = do
  validate_slug req.slug
  validate_creds_dir req.creds_dir
  validate_abs_path req.fstab_path (codes "fstab_path")
  validate_abs_path req.allowed_mount_root (codes "allowed_mount_root")
  validate_action req

unfoldable pub parse_request : Bytes → Result Text Request
parse_request buf = do
  reject_if (not (is_utf8 buf)) (codes "request must be utf-8")
  obj ← parse buf
  req ← read_fields obj
  validate_request req
  ok req
