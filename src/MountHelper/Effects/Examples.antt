-- ===== src/MountHelper/Effects/Examples.antt =====
-- Runs of the actions of bin/mount_helper.rs, and their theorems at concrete inputs.
use vaultproxy.Prelude.{◌≡◌, refl, ap, none, some, [], ◌∷◌, arith, text_eq, text_beq, codes, err}
use vaultproxy.MountHelper.Request.{Request}
use vaultproxy.MountHelper.Fstab.{creds_path_for, build_fstab_line}
use vaultproxy.MountHelper.Effects.{
  World, do_mount, system_call, write_creds_file, make_dirs, open_file,
}
use vaultproxy.MountHelper.Effects.Atomic.{IsRewritten}
use vaultproxy.MountHelper.Effects.Mount.{do_mount-IsRewritten, creds_path}

abbrev request : Request
request = record {
  action = codes "mount";
  slug = codes "nas";
  share = codes "//nas/media";
  mount_point = codes "/mnt/media";
  username = codes "u";
  password = codes "p";
  fs_options = codes "ro" ∷ [];
  creds_dir = codes "/etc/samba";
  fstab_path = codes "/etc/fstab";
  allowed_mount_root = codes "/mnt";
}

-- The second call fails: the credentials file cannot be opened.
abbrev failing : World
failing = record {
  files =
      (
        codes "/etc/fstab",
        record { content = codes "proc /proc proc defaults 0 0\n"; mode = 0o644 },
      )
      ∷ [];
  dirs = codes "/mnt" ∷ [];
  mounted = [];
  outcomes = none ∷ some 0 ∷ [];
}

failing_mount : (do_mount request failing).1 ≡ err (codes "open creds tmp: ")
unfolding do_mount write_creds_file make_dirs open_file system_call
failing_mount = refl

do_mount-IsRewritten_example :
    IsRewritten failing
      (codes "/etc/fstab")
      (codes "nas")
      (some (build_fstab_line request (creds_path failing request)))
      (do_mount request failing)
unfolding creds_path_for
do_mount-IsRewritten_example =
    do_mount-IsRewritten failing request
      (λ h. ground (arith, ap (λ s. text_beq s (codes "/etc/fstab")) h))
      (λ h. ground (arith, ap (λ s. text_beq s (codes "/etc/fstab")) h))
