-- ===== src/MountHelper/Effects.antt =====
-- The effects of bin/mount_helper.rs: the files it writes and the programs it runs. Each system call
-- takes the next of a list of outcomes; the text of an errno is left out of the messages.
pub mod Atomic
pub mod Mount
mod Examples
use vaultproxy.Prelude.{
  ℕ, Bool, true, false, not, ◌&&◌, ◌||◌, Option, none, some, List, [], ◌∷◌, ◌++◌, if◌then◌else◌,
  eqb, HasEq, ◌==◌, text_eq, Text, codes, any, take, retain, Result, ok, err,
}
use vaultproxy.Text.{is_empty, split}
use vaultproxy.HashMap.{HashMap, get, insert, remove}
use vaultproxy.MountHelper.Request.{Request}
use vaultproxy.MountHelper.Fstab.{creds_path_for, build_fstab_line, rewrite_fstab}

pub record File : Type 0 where
  pub content : Text
  pub mode : ℕ

-- The outcome of a system call is `none` if it succeeds, and else the number of bytes that a write
-- has got through before it failed. Calls after the last outcome succeed.
pub record World : Type 0 where
  pub files : HashMap Text File
  pub dirs : List Text
  pub mounted : List Text
  pub outcomes : List (Option ℕ)

abbrev pub Effect : Type 0 → Type 0
Effect A = World → World × Result Text A

module _ {A B : Type 0} where
  abbrev pub resume : (A → Effect B) → World × Result Text A → World × Result Text B
  resume f (w, ok a) = f a w
  resume f (w, err e) = (w, err e)

  -- `?`
  infixl 5 ◌>>=◌
  abbrev pub ◌>>=◌ : Effect A → (A → Effect B) → Effect B
  (m >>= f) w = resume f (m w)

module _ {B : Type 0} where
  infixl 5 ◌>>◌
  abbrev pub ◌>>◌ : Effect Unit → Effect B → Effect B
  m >> k = m >>= λ _. k

-- A call that changes the world to `done`, or to `failed n` when it fails.
abbrev pub outcome : Text → (World → World) → (ℕ → World → World) → List (Option ℕ) → Effect Unit
outcome message done failed [] w = (done w, ok tt)
outcome message done failed (none ∷ os) w = (done (record w { outcomes = os }), ok tt)
outcome message done failed (some n ∷ os) w = (failed n (record w { outcomes = os }), err message)

unfoldable pub system_call : Text → (World → World) → (ℕ → World → World) → Effect Unit
system_call message done failed w = outcome message done failed w.outcomes w

abbrev pub unchanged : World → World
unchanged w = w

abbrev pub set_file : Text → File → World → World
set_file path file w = record w { files = insert path file w.files }

-- `open` with `create` and `truncate`: a file that is there keeps its mode.
abbrev pub opened : ℕ → Option File → File
opened mode none = record { content = []; mode = mode }
opened mode (some file) = record { content = []; mode = file.mode }

abbrev pub written : Text → Option File → File
written body none = record { content = body; mode = 0 }
written body (some file) = record file { content = body }

abbrev pub with_mode : ℕ → Option File → File
with_mode mode none = record { content = []; mode = mode }
with_mode mode (some file) = record file { mode = mode }

unfoldable pub open_file : Text → Text → ℕ → Effect Unit
open_file message path mode =
    system_call message (λ w. set_file path (opened mode (get path w.files)) w) (λ n w. w)

unfoldable pub write_all : Text → Text → Text → Effect Unit
write_all message path body =
    system_call message (λ w. set_file path (written body (get path w.files)) w)
      (λ n w. set_file path (written (take n body) (get path w.files)) w)

-- A call that changes no file: a sync, a read, or the start of a program.
unfoldable pub sync_all : Text → Effect Unit
sync_all message = system_call message unchanged (λ n w. w)

unfoldable pub set_mode : Text → Text → ℕ → Effect Unit
set_mode message path mode =
    system_call message (λ w. set_file path (with_mode mode (get path w.files)) w) (λ n w. w)

abbrev pub move : Text → Text → Option File → World → World
move from to none w = w
move from to (some file) w = record w { files = insert to file (remove from w.files) }

unfoldable pub rename : Text → Text → Text → Effect Unit
rename message from to = system_call message (λ w. move from to (get from w.files) w) (λ n w. w)

-- `create_dir_all`; the directories above are not kept.
unfoldable pub make_dirs : Text → Text → Effect Unit
make_dirs message path = system_call message (λ w. record w { dirs = path ∷ w.dirs }) (λ n w. w)

abbrev pub ignore_outcome : World × Result Text Unit → World × Result Text Unit
ignore_outcome (w, r) = (w, ok tt)

-- `let _ = m;`
abbrev pub ignored : Effect Unit → Effect Unit
ignored m w = ignore_outcome (m w)

abbrev pub return : Result Text Unit → Effect Unit
return r w = (w, r)

-- The last of the parts of a path, where `.` and nothing between slashes are no parts.
abbrev pub last_part : List Text → Text
last_part [] = []
last_part (p ∷ []) = p
last_part (p ∷ q ∷ ps) = last_part (q ∷ ps)

abbrev pub parts : Text → List Text
parts path = retain (λ p. not (is_empty p || p == codes ".")) (split b'/' path)

-- `file_name` is none for a path without parts and for one whose last part is `..`.
unfoldable pub has_file_name : Text → Bool
has_file_name path = let name = last_part (parts path) in not (is_empty name || name == codes "..")

-- The message for a path without a file name: one without parts has no parent either.
abbrev pub nameless : Text → Text
nameless path =
    if is_empty (last_part (parts path))
    then codes "path has no parent"
    else codes "path has no filename"

-- The temporary file beside the file, for a path that does not end in a slash.
abbrev pub atomic_tmp : Text → Text
atomic_tmp path = path ++ codes ".vaultproxy.tmp"

-- Everything of `atomic_write` up to the rename.
unfoldable pub prepare : Text → Text → ℕ → Effect Unit
prepare tmp body mode =
    open_file (codes "open tmp: ") tmp mode
    >> write_all (codes "write tmp: ") tmp body
    >> sync_all (codes "fsync tmp: ")
    >> set_mode (codes "chmod tmp: ") tmp mode

unfoldable pub atomic_write : Text → Text → ℕ → Effect Unit
atomic_write path body mode =
    if has_file_name path
    then prepare (atomic_tmp path) body mode
      >> rename (codes "rename tmp: ") (atomic_tmp path) path
      >> ignored (sync_all [])
    else return (err (nameless path))

abbrev pub content_of : Option File → Text
content_of none = []
content_of (some file) = file.content

abbrev pub write_result : Text → Result Text Text → Effect Unit
write_result fstab (ok out) = atomic_write fstab out 0o644
write_result fstab (err e) = return (err e)

-- `write_fstab_block`; a file that is not there is read as an empty one.
unfoldable pub write_fstab_block : Text → Text → Option Text → Effect Unit
write_fstab_block fstab slug line w =
    (sync_all (codes "read fstab: ") >> λ v.
    write_result fstab (rewrite_fstab (content_of (get fstab v.files)) slug line) v)
      w

-- `with_extension("credentials.tmp")` of a path that ends in `.credentials`.
abbrev pub creds_tmp : Text → Text
creds_tmp path = path ++ codes ".tmp"

unfoldable pub creds_body : Text → Text → Text
creds_body username password =
    codes "username=" ++ (username ++ 0x0a ∷ (codes "password=" ++ (password ++ 0x0a ∷ [])))

-- `write_creds_file`, for a file in the directory `dir`.
unfoldable pub write_creds_file : Text → Text → Text → Text → Effect Unit
write_creds_file dir path username password =
    make_dirs (codes "mkdir creds dir: ") dir
    >> open_file (codes "open creds tmp: ") (creds_tmp path) 0o600
    >> write_all (codes "write creds: ") (creds_tmp path) (creds_body username password)
    >> sync_all (codes "fsync creds: ")
    >> set_mode (codes "chmod creds: ") (creds_tmp path) 0o600
    >> rename (codes "rename creds: ") (creds_tmp path) path

abbrev pub is_file : Option File → Bool
is_file none = false
is_file (some file) = true

abbrev pub is_dir : World → Text → Bool
is_dir w path = any (λ d. d == path) w.dirs

abbrev pub path_exists : World → Text → Bool
path_exists w path = is_file (get path w.files) || is_dir w path

-- The modes of directories are not kept.
unfoldable pub ensure_mount_dir : Text → Effect Unit
ensure_mount_dir path w =
    ((if path_exists w path
          then return (ok tt)
          else (make_dirs (codes "mkdir mount: ") path >> sync_all (codes "chmod mount: ")))
        >> λ v.
            return
              (if is_dir v path
                then ok tt
                else err (codes "mount_point exists and is not a directory"))
              v)
      w

unfoldable pub mount_path : Text → Effect Unit
mount_path mp =
    sync_all (codes "spawn mount: ")
    >> system_call (codes "mount " ++ (mp ++ codes " exited with "))
        (λ w. record w { mounted = mp ∷ w.mounted }) (λ n w. w)

abbrev pub without : Text → List Text → List Text
without mp [] = []
without mp (m ∷ ms) = if m == mp then ms else m ∷ without mp ms

unfoldable pub umount_path : Text → Effect Unit
umount_path mp =
    sync_all (codes "spawn umount: ")
    >> system_call (codes "umount " ++ (mp ++ codes " exited with "))
        (λ w. record w { mounted = without mp w.mounted }) (λ n w. w)

unfoldable pub do_mount : Request → Effect Unit
do_mount req =
    let creds_path = creds_path_for req.creds_dir req.slug in
    write_creds_file req.creds_dir creds_path req.username req.password
    >> ensure_mount_dir req.mount_point
    >> write_fstab_block req.fstab_path req.slug (some (build_fstab_line req creds_path))
    >> mount_path req.mount_point

unfoldable pub remove_creds : Text → Effect Unit
remove_creds path w =
    (if is_file (get path w.files)
        then system_call (codes "remove creds: ") (λ v. record v { files = remove path v.files })
            (λ n v. v)
        else return (ok tt))
      w

unfoldable pub do_unmount : Request → Effect Unit
do_unmount req =
    ignored (umount_path req.mount_point)
    >> write_fstab_block req.fstab_path req.slug none
    >> remove_creds (creds_path_for req.creds_dir req.slug)

unfoldable pub act : Request → Effect Unit
act req =
    if req.action == codes "mount"
    then do_mount req
    else if req.action == codes "unmount"
    then do_unmount req
    else return (err (codes "unknown action: " ++ req.action))
