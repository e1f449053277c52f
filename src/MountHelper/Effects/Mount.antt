-- ===== src/MountHelper/Effects/Mount.antt =====
-- The two actions of bin/mount_helper.rs: what they do to the file system table.
use vaultproxy.Prelude.{
  ℕ, ◌≡◌, ◌≢◌, inl, inr, refl, sym, ap, ◌∙◌, Bool, true, false, Option, none, some, ◌∷◌, ◌++◌,
  if◌then◌else◌, text_eq, Text, codes, take, Result, ok, err,
}
use vaultproxy.HashMap.{get, remove}
use vaultproxy.HashMap.Laws.{get-insert_distinct}
use vaultproxy.MountHelper.Request.{Request}
use vaultproxy.MountHelper.Fstab.{creds_path_for, build_fstab_line, rewrite_fstab}
use vaultproxy.MountHelper.Effects.{
  File, World, Effect, resume, ◌>>◌, system_call, set_file, open_file, opened, written, with_mode,
  write_all, sync_all, set_mode, move, rename, make_dirs, ignored, return, content_of,
  write_fstab_block, creds_tmp, creds_body, write_creds_file, ensure_mount_dir, path_exists, is_dir,
  mount_path, umount_path, without, do_mount, do_unmount, remove_creds, is_file,
}
use vaultproxy.MountHelper.Effects.Atomic.{
  Keeps, then-Keeps, system_call-Keeps, sync_all-Keeps, set_file-other, resume-Keeps,
  get-remove_distinct, ignored-Keeps, IsRewritten, write_fstab_block-IsRewritten,
}

module _ (path : Text) where
  make_dirs-Keeps : (message dir : Text) → Keeps path (make_dirs message dir)
  unfolding make_dirs
  make_dirs-Keeps message dir =
      system_call-Keeps path message (λ w. record w { dirs = dir ∷ w.dirs }) (λ n w. w) (λ w. refl)
        (λ n w. refl)

  move-other :
      (from to : Text) (o : Option File) (w : World)
      → from ≢ path
      → to ≢ path
      → get path (move from to o w).files ≡ get path w.files
  move-other from to none w f t = refl
  move-other from to (some file) w f t =
      get-insert_distinct to path file (remove from w.files) t
      ∙ get-remove_distinct from path w.files f

  rename-Keeps :
      (message from to : Text) → from ≢ path → to ≢ path → Keeps path (rename message from to)
  unfolding rename
  rename-Keeps message from to f t =
      system_call-Keeps path message (λ w. move from to (get from w.files) w) (λ n w. w)
        (λ w. move-other from to (get from w.files) w f t) (λ n w. refl)

  open_file-Keeps :
      (message other : Text) (mode : ℕ) → other ≢ path → Keeps path (open_file message other mode)
  unfolding open_file
  open_file-Keeps message other mode n =
      system_call-Keeps path message (λ w. set_file other (opened mode (get other w.files)) w)
        (λ k w. w) (λ w. set_file-other path other (opened mode (get other w.files)) w n)
        (λ k w. refl)

  write_all-Keeps :
      (message other body : Text) → other ≢ path → Keeps path (write_all message other body)
  unfolding write_all
  write_all-Keeps message other body n =
      system_call-Keeps path message (λ w. set_file other (written body (get other w.files)) w)
        (λ k w. set_file other (written (take k body) (get other w.files)) w)
        (λ w. set_file-other path other (written body (get other w.files)) w n)
        (λ k w. set_file-other path other (written (take k body) (get other w.files)) w n)

  set_mode-Keeps :
      (message other : Text) (mode : ℕ) → other ≢ path → Keeps path (set_mode message other mode)
  unfolding set_mode
  set_mode-Keeps message other mode n =
      system_call-Keeps path message (λ w. set_file other (with_mode mode (get other w.files)) w)
        (λ k w. w) (λ w. set_file-other path other (with_mode mode (get other w.files)) w n)
        (λ k w. refl)

  write_creds_file-Keeps :
      (dir creds username password : Text)
      → creds_tmp creds ≢ path
      → creds ≢ path
      → Keeps path (write_creds_file dir creds username password)
  unfolding write_creds_file
  write_creds_file-Keeps dir creds username password t c =
      let e1 = make_dirs (codes "mkdir creds dir: ") dir in
      let e2 = open_file (codes "open creds tmp: ") (creds_tmp creds) 0o600 in
      let e3 = write_all (codes "write creds: ") (creds_tmp creds) (creds_body username password) in
      let e4 = sync_all (codes "fsync creds: ") in
      let e5 = set_mode (codes "chmod creds: ") (creds_tmp creds) 0o600 in
      let e6 = rename (codes "rename creds: ") (creds_tmp creds) creds in
      let k2 =
        then-Keeps path e1 e2 (make_dirs-Keeps (codes "mkdir creds dir: ") dir)
          (open_file-Keeps (codes "open creds tmp: ") (creds_tmp creds) 0o600 t) in
      let k3 = then-Keeps path (e1 >> e2) e3 k2 (
        write_all-Keeps (codes "write creds: ") (creds_tmp creds) (creds_body username password)
          t) in
      let k4 =
        then-Keeps path (e1 >> e2 >> e3) e4 k3 (sync_all-Keeps path (codes "fsync creds: ")) in
      let k5 =
        then-Keeps path (e1 >> e2 >> e3 >> e4) e5 k4
          (set_mode-Keeps (codes "chmod creds: ") (creds_tmp creds) 0o600 t) in
      then-Keeps path (e1 >> e2 >> e3 >> e4 >> e5) e6 k5
        (rename-Keeps (codes "rename creds: ") (creds_tmp creds) creds t c)

  if-Keeps :
      (b : Bool) (m k : Effect Unit) → Keeps path m → Keeps path k → Keeps path (if b then m else k)
  if-Keeps true m k h g = h
  if-Keeps false m k h g = g

  ensure_mount_dir-Keeps : (mp : Text) → Keeps path (ensure_mount_dir mp)
  unfolding ensure_mount_dir
  ensure_mount_dir-Keeps mp w =
      let make = make_dirs (codes "mkdir mount: ") mp >> sync_all (codes "chmod mount: ") in
      let first = if path_exists w mp then return (ok tt) else make in
      let check = λ (v : World).
        return
          (if is_dir v mp then ok tt else err (codes "mount_point exists and is not a directory"))
          v in
      then-Keeps path first check
        (if-Keeps (path_exists w mp) (return (ok tt)) make (λ v. refl)
          (then-Keeps path (make_dirs (codes "mkdir mount: ") mp) (sync_all (codes "chmod mount: "))
            (make_dirs-Keeps (codes "mkdir mount: ") mp)
            (sync_all-Keeps path (codes "chmod mount: "))))
        (λ v. refl) w

  mount_path-Keeps : (mp : Text) → Keeps path (mount_path mp)
  unfolding mount_path
  mount_path-Keeps mp =
      let message = codes "mount " ++ (mp ++ codes " exited with ") in
      let done = λ (w : World). record w { mounted = mp ∷ w.mounted } in
      then-Keeps path (sync_all (codes "spawn mount: ")) (system_call message done (λ n w. w))
        (sync_all-Keeps path (codes "spawn mount: "))
        (system_call-Keeps path message done (λ n w. w) (λ w. refl) (λ n w. refl))

  umount_path-Keeps : (mp : Text) → Keeps path (umount_path mp)
  unfolding umount_path
  umount_path-Keeps mp =
      let message = codes "umount " ++ (mp ++ codes " exited with ") in
      let done = λ (w : World). record w { mounted = without mp w.mounted } in
      then-Keeps path (sync_all (codes "spawn umount: ")) (system_call message done (λ n w. w))
        (sync_all-Keeps path (codes "spawn umount: "))
        (system_call-Keeps path message done (λ n w. w) (λ w. refl) (λ n w. refl))

  remove_creds-Keeps : (creds : Text) → creds ≢ path → Keeps path (remove_creds creds)
  unfolding remove_creds
  remove_creds-Keeps creds c w =
      let done = λ (v : World). record v { files = remove creds v.files } in
      let call = system_call (codes "remove creds: ") done (λ n v. v) in
      if-Keeps (is_file (get creds w.files)) call (return (ok tt))
        (system_call-Keeps path (codes "remove creds: ") done (λ n v. v)
          (λ v. get-remove_distinct creds path v.files c) (λ n v. refl))
        (λ v. refl) w

module _ (w : World) (fstab slug : Text) (line : Option Text) where
  -- What runs before or after the block and keeps the table leaves the statement true.
  before-IsRewritten :
      (m k : Effect Unit)
      → Keeps fstab m
      → ((v : World) → IsRewritten v fstab slug line (k v))
      → IsRewritten w fstab slug line ((m >> k) w)
  before-IsRewritten m k h rewritten = of_result (m w) (h w)
    where
      of_result :
          (r : World × Result Text Unit)
          → get fstab r.0.files ≡ get fstab w.files
          → IsRewritten w fstab slug line (resume (λ _. k) r)
      of_result (v, err e) kept = inl kept
      of_result (v, ok u) kept = elim (rewritten v) [
        | inl same ↦ inl (same ∙ kept)
        | inr (out, made, new) ↦
            inr (out, ap (λ o. rewrite_fstab (content_of o) slug line) (sym kept) ∙ made, new)
      ]

  after-IsRewritten :
      (m k : Effect Unit)
      → IsRewritten w fstab slug line (m w)
      → Keeps fstab k
      → IsRewritten w fstab slug line ((m >> k) w)
  after-IsRewritten m k h keeps =
      let later = resume-Keeps fstab (λ _. k) (m w) (λ _. keeps) in
      elim h [ inl same ↦ inl (later ∙ same) | inr (out, made, new) ↦ inr (out, made, later ∙ new) ]

module _ (w : World) (req : Request) where
  abbrev pub creds_path : Text
  creds_path = creds_path_for req.creds_dir req.slug

  -- Whichever calls of a mount fail, the table holds what it held or the whole of what
  -- `rewrite_fstab` makes of it with the entry of the request, provided that the credentials file and
  -- its temporary file are other files.
  pub do_mount-IsRewritten :
      creds_tmp creds_path ≢ req.fstab_path
      → creds_path ≢ req.fstab_path
      → IsRewritten w req.fstab_path req.slug
          (some (build_fstab_line req creds_path))
          (do_mount req w)
  unfolding do_mount
  do_mount-IsRewritten t c =
      let e1 = write_creds_file req.creds_dir creds_path req.username req.password in
      let e2 = ensure_mount_dir req.mount_point in
      let line = some (build_fstab_line req creds_path) in
      let e3 = write_fstab_block req.fstab_path req.slug line in
      after-IsRewritten w req.fstab_path req.slug line (e1 >> e2 >> e3) (mount_path req.mount_point)
        (before-IsRewritten w req.fstab_path req.slug line (e1 >> e2) e3
          (then-Keeps req.fstab_path e1 e2
            (write_creds_file-Keeps req.fstab_path req.creds_dir creds_path req.username
              req.password t c)
            (ensure_mount_dir-Keeps req.fstab_path req.mount_point))
          (λ v. write_fstab_block-IsRewritten v req.fstab_path req.slug line))
        (mount_path-Keeps req.fstab_path req.mount_point)

  -- The same for an unmount, with the entry of the request removed.
  pub do_unmount-IsRewritten :
      creds_path ≢ req.fstab_path → IsRewritten w req.fstab_path req.slug none (do_unmount req w)
  unfolding do_unmount
  do_unmount-IsRewritten c =
      let e1 = ignored (umount_path req.mount_point) in
      let e2 = write_fstab_block req.fstab_path req.slug none in
      after-IsRewritten w req.fstab_path req.slug none (e1 >> e2) (remove_creds creds_path)
        (before-IsRewritten w req.fstab_path req.slug none e1 e2
          (ignored-Keeps req.fstab_path (umount_path req.mount_point)
            (umount_path-Keeps req.fstab_path req.mount_point))
          (λ v. write_fstab_block-IsRewritten v req.fstab_path req.slug none))
        (remove_creds-Keeps req.fstab_path creds_path c)
