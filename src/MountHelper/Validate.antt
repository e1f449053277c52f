-- ===== src/MountHelper/Validate.antt =====
-- The validators of bin/mount_helper.rs.
pub mod Accepted
use vaultproxy.Prelude.{
  ℕ, zero, suc, ◌+◌, Bool, true, false, not, ◌&&◌, ◌||◌, Option, none, some, List, [], ◌∷◌, ◌++◌,
  if◌then◌else◌, leb, ltb, eqb, HasEq, ◌==◌, text_eq, Text, codes, length, drop, all, any, Result,
  ok, err, ◌>>=◌, ◌>>◌, reject_if, ok_or,
}
use vaultproxy.Text.{
  is_empty, starts_with, contains, starts_with_char, ends_with_char, trim_end_matches, split_once,
  split, byte_len, is_ascii_alphanumeric,
}

abbrev pub Checked : Type 0
Checked = Result Text (Unit {0})

-- `matches!(b, b'a'..=b'z' | b'0'..=b'9' | b'-')`
unfoldable pub is_slug_char : ℕ → Bool
is_slug_char b = (leb b'a' b && leb b b'z') || (leb b'0' b && leb b b'9') || eqb b b'-'

unfoldable pub is_host_char : ℕ → Bool
unfolding is_ascii_alphanumeric
is_host_char b = is_ascii_alphanumeric b || eqb b b'.' || eqb b b'-' || eqb b b'_'

unfoldable pub is_path_char : ℕ → Bool
unfolding is_host_char
is_path_char b = is_host_char b || eqb b b'/'

unfoldable pub is_user_char : ℕ → Bool
unfolding is_host_char
is_user_char b = is_host_char b || eqb b b'@'

unfoldable pub is_option_char : ℕ → Bool
unfolding is_host_char
is_option_char b = is_host_char b || eqb b b'=' || eqb b b':' || eqb b b'/'

unfoldable pub validate_slug : Text → Checked
validate_slug s = do
  reject_if (is_empty s || ltb 32 (byte_len s)) (codes "slug length must be 1..=32")
  reject_if (not (all is_slug_char s)) (codes "slug must match [a-z0-9-]")
  reject_if (starts_with_char s b'-' || ends_with_char s b'-')
      (codes "slug must not start or end with '-'")

unfoldable pub check_host_path : Text → Text × Text → Checked
check_host_path s (host, path) = do
  reject_if (is_empty host || is_empty path) (codes "share host and path required")
  reject_if (not (all is_host_char host)) (codes "share host has invalid characters")
  reject_if (not (all is_path_char path)) (codes "share path has invalid characters")
  reject_if (contains path (codes "..")) (codes "share path must not contain ..")
  reject_if (ltb 256 (byte_len s)) (codes "share too long")

unfoldable pub validate_share : Text → Checked
validate_share s = do
  reject_if (not (starts_with s (codes "//"))) (codes "share must start with //")
  parts ← ok_or (split_once b'/' (drop 2 s)) (codes "share must be //host/path")
  check_host_path s parts

-- `Path::components` yields `ParentDir` for each part between slashes that is `..`.
unfoldable pub has_parent_dir : Text → Bool
has_parent_dir s = any (λ part. part == codes "..") (split b'/' s)

unfoldable pub validate_abs_path : Text → Text → Checked
unfolding has_parent_dir
validate_abs_path s field = do
  reject_if (not (starts_with_char s b'/')) (field ++ codes " must be absolute")
  reject_if (has_parent_dir s) (field ++ codes " must not contain ..")

unfoldable pub validate_creds_dir : Text → Checked
validate_creds_dir s = do
  validate_abs_path s (codes "creds_dir")
  reject_if
      (not (
        s == codes "/etc/samba"
        || starts_with s (codes "/etc/samba/")
        || s == codes "/run/vaultproxy/smb"))
      (codes "creds_dir must be /etc/samba or /run/vaultproxy/smb")

unfoldable pub validate_mount_point : Text → Text → Checked
validate_mount_point mp allowed_root = do
  validate_abs_path mp (codes "mount_point")
  let root = trim_end_matches b'/' allowed_root
  reject_if (mp == root) (codes "mount_point must be a subdirectory of allowed_mount_root")
  reject_if (not (starts_with mp (root ++ codes "/")))
      (codes "mount_point must begin with " ++ root ++ codes "/")
  reject_if (ltb 256 (byte_len mp)) (codes "mount_point too long")
  reject_if (any (λ b. not (is_path_char b)) mp) (codes "mount_point has invalid characters")

unfoldable pub validate_username : Text → Checked
validate_username s = do
  reject_if (is_empty s || ltb 64 (byte_len s)) (codes "username length must be 1..=64")
  reject_if (not (all is_user_char s)) (codes "username has invalid characters")

unfoldable pub breaks_creds_file : ℕ → Bool
breaks_creds_file b = eqb b 0x0a || eqb b 0x0d || eqb b 0

unfoldable pub validate_password : Text → Checked
validate_password p = do
  reject_if (is_empty p) (codes "password missing")
  reject_if (ltb 512 (byte_len p)) (codes "password too long")
  reject_if (any breaks_creds_file p) (codes "password contains forbidden bytes")

-- `o.split('=').next()`
unfoldable pub option_key : Text → Text
option_key [] = []
option_key (c ∷ o) = let rest = option_key o in if eqb c b'=' then [] else c ∷ rest

abbrev pub reserved : List Text
reserved =
    codes "credentials" ∷ codes "username" ∷ codes "password" ∷ codes "pass" ∷ codes "user" ∷ []

unfoldable pub is_reserved : Text → Bool
is_reserved key = any (λ r. key == r) reserved

unfoldable pub validate_fs_option : Text → Checked
validate_fs_option o = do
  reject_if (is_empty o || ltb 128 (byte_len o)) (codes "fs_option length must be 1..=128")
  reject_if (not (all is_option_char o)) (codes "fs_option has invalid characters")
  reject_if (is_reserved (option_key o))
      (codes "fs_option '" ++ option_key o ++ codes "' is reserved")
  reject_if (any (λ c. eqb c b',') o || any (λ c. eqb c b' ') o)
      (codes "fs_option must not contain ',' or whitespace")

-- The loop of `validate_fs_options`.
unfoldable pub validate_each : List Text → Checked
validate_each [] = ok tt
validate_each (o ∷ opts) = do validate_fs_option o; validate_each opts

unfoldable pub validate_fs_options : List Text → Checked
validate_fs_options opts = do
  reject_if (ltb 32 (length opts)) (codes "too many fs_options")
  validate_each opts
