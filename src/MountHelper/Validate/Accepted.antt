-- ===== src/MountHelper/Validate/Accepted.antt =====
-- What the validators of bin/mount_helper.rs have established when they accept.
use vaultproxy.Prelude.{
  ℕ, ◌≤◌, true, false, not, ◌≡◌, refl, ap, ◌∙◌, List, [], ◌∷◌, ◌++◌, arith, ◌==◌, text_eq, Text,
  all, any, all-append, inl, inr, drop, length, some, ok, reject_if, >>-eq-ok, >>=-eq-ok, codes,
  ok_or, Option-cases,
}
use vaultproxy.Text.{
  is_empty, starts_with, starts_with_char, split_once, byte_len, trim_end_matches, contains,
}
use vaultproxy.MountHelper.Validate.{
  is_slug_char, is_host_char, is_path_char, is_option_char, validate_slug, check_host_path,
  validate_share, validate_abs_path, validate_mount_point, validate_fs_option, validate_each,
  validate_fs_options, option_key, is_reserved, has_parent_dir,
}

-- Every accepted option.
abbrev pub IsOption : Text → Type 0
IsOption o =
    (is_empty o ≡ false)
    × (byte_len o ≤ 128)
    × (all is_option_char o ≡ true)
    × (is_reserved (option_key o) ≡ false)

abbrev pub AllOptions : List Text → Type 0
AllOptions [] = Unit
AllOptions (o ∷ os) = IsOption o × AllOptions os

pub slug_accepted :
    (s : Text)
    → validate_slug s ≡ ok tt
    → (is_empty s ≡ false) × (byte_len s ≤ 32) × (all is_slug_char s ≡ true)
unfolding validate_slug
slug_accepted s h = ground arith

host_char-is_path_char : (c : ℕ) → is_host_char c ≡ true → is_path_char c ≡ true
unfolding is_path_char
host_char-is_path_char c h = ground arith

all-host-path : (s : Text) → all is_host_char s ≡ true → all is_path_char s ≡ true
all-host-path [] h = refl
all-host-path (c ∷ s) h = ground (arith, all-host-path s, host_char-is_path_char c)

split_once-eq-some : (c : ℕ) (s a b : Text) → split_once c s ≡ some (a, b) → s ≡ a ++ c ∷ b
unfolding split_once
split_once-eq-some c [] a b h = cc
split_once-eq-some c (d ∷ s) a b h = elim (Option-cases (split_once c s)) [
  | inl absent ↦ ground arith
  | inr ((a', b'), e) ↦ ground (arith, split_once-eq-some c s a' b' e)
]

starts_with-eq-append : (s p : Text) → starts_with s p ≡ true → s ≡ p ++ drop (length p) s
unfolding starts_with
starts_with-eq-append s [] h = refl
starts_with-eq-append (d ∷ s) (c ∷ p) h = ground (arith, starts_with-eq-append s p)
starts_with-eq-append [] (c ∷ p) h = cc

host_path_accepted :
    (s host path : Text)
    → check_host_path s (host, path) ≡ ok tt
    → (all is_path_char host ≡ true)
      × (all is_path_char path ≡ true)
      × (byte_len s ≤ 256)
      × (contains path (codes "..") ≡ false)
      × (is_empty host ≡ false)
      × (is_empty path ≡ false)
unfolding check_host_path
host_path_accepted s host path h = ground (arith, all-host-path host)

pub slash-is_path_char : is_path_char b'/' ≡ true
unfolding is_path_char
slash-is_path_char = refl

all-share :
    (host path : Text)
    → all is_path_char host ≡ true
    → all is_path_char path ≡ true
    → all is_path_char (codes "//" ++ (host ++ b'/' ∷ path)) ≡ true
all-share host path h p =
    ground (arith, all-append is_path_char host (b'/' ∷ path), slash-is_path_char)

-- A share is `//host/path` with a host and a path of path characters.
pub share_accepted :
    (s : Text)
    → validate_share s ≡ ok tt
    → (host path : Text) × (s ≡ codes "//" ++ (host ++ b'/' ∷ path))
      × (all is_path_char s ≡ true)
      × (is_empty host ≡ false)
      × (is_empty path ≡ false)
      × (contains path (codes "..") ≡ false)
unfolding validate_share
share_accepted s h =
    let (slashes, h1) =
      >>-eq-ok (reject_if (not (starts_with s (codes "//"))) (codes "share must start with //")) _
        h in
    let ((host, path), found, h2) =
      >>=-eq-ok (ok_or (split_once b'/' (drop 2 s)) (codes "share must be //host/path"))
        (check_host_path s) h1 in
    let parts = host_path_accepted s host path h2 in
    let rest : drop 2 s ≡ host ++ b'/' ∷ path =
      split_once-eq-some b'/' (drop 2 s) host path (ground arith) in
    let whole : s ≡ codes "//" ++ (host ++ b'/' ∷ path) =
      starts_with-eq-append s (codes "//") (ground arith) ∙ ap (λ r. codes "//" ++ r) rest in
    (
      host,
      path,
      whole,
      rw whole (all-share host path parts.0 parts.1),
      ground arith,
      ground arith,
      ground arith,
    )

pub IsOption-accepted : (o : Text) → validate_fs_option o ≡ ok tt → IsOption o
unfolding validate_fs_option
IsOption-accepted o h = ground arith

each_accepted : (os : List Text) → validate_each os ≡ ok tt → AllOptions os
unfolding validate_each
each_accepted [] h = tt
each_accepted (o ∷ os) h =
    let (first, rest) = >>-eq-ok (validate_fs_option o) (validate_each os) h in
    (IsOption-accepted o first, each_accepted os rest)

pub options_accepted : (os : List Text) → validate_fs_options os ≡ ok tt → AllOptions os
unfolding validate_fs_options
options_accepted os h = each_accepted os (ground arith)

pub abs_path_accepted :
    (s field : Text)
    → validate_abs_path s field ≡ ok tt
    → (starts_with_char s b'/' ≡ true) × (has_parent_dir s ≡ false)
unfolding validate_abs_path
abs_path_accepted s field h = ground arith

any-all : (s : Text) → any (λ b. not (is_path_char b)) s ≡ false → all is_path_char s ≡ true
any-all [] h = refl
any-all (c ∷ s) h = ground (arith, any-all s)

pub mount_point_accepted :
    (mp root : Text)
    → validate_mount_point mp root ≡ ok tt
    → (starts_with_char mp b'/' ≡ true)
      × (has_parent_dir mp ≡ false)
      × ((mp == trim_end_matches b'/' root) ≡ false)
      × (starts_with mp (trim_end_matches b'/' root ++ codes "/") ≡ true)
      × (byte_len mp ≤ 256)
      × (all is_path_char mp ≡ true)
unfolding validate_mount_point
mount_point_accepted mp root h =
    let (a, _) = >>-eq-ok (validate_abs_path mp (codes "mount_point")) _ h in
    let (b, c) = abs_path_accepted mp (codes "mount_point") a in ground (arith, any-all mp)
