-- ===== src/MountHelper/Fstab.antt =====
-- The fstab entry of bin/mount_helper.rs and the block that holds it.
pub mod Lines
pub mod Block
pub mod Entry
pub mod Promises
pub mod Gaps
use vaultproxy.Prelude.{
  ℕ, Bool, true, false, not, ◌&&◌, ◌||◌, Option, none, some, List, [], ◌∷◌, ◌++◌, if◌then◌else◌,
  eqb, HasEq, ◌==◌, text_eq, Text, codes, any, Result, ok, err, ◌>>=◌, ◌>>◌, reject_if,
}
use vaultproxy.Text.{
  is_empty, starts_with_char, ends_with_char, trim, lines, split_whitespace, second, join,
}
use vaultproxy.MountHelper.Request.{Request, unwrap_or}

abbrev pub marker_begin : Text
marker_begin = codes "# BEGIN vaultproxy:"

abbrev pub marker_end : Text
marker_end = codes "# END vaultproxy:"

unfoldable pub creds_path_for : Text → Text → Text
creds_path_for dir slug = dir ++ (codes "/vaultproxy-" ++ (slug ++ codes ".credentials"))

unfoldable pub build_options : Request → Text → Text
build_options req creds_path = join b',' ((codes "credentials=" ++ creds_path) ∷ req.fs_options)

unfoldable pub build_fstab_line : Request → Text → Text
build_fstab_line req creds_path =
    req.share
    ++ (b' '
        ∷ (req.mount_point ++ (codes " cifs " ++ (build_options req creds_path ++ codes " 0 0"))))

-- The first loop of `write_fstab_block`: the lines that it keeps, and whether a block is still open.
module _ (begin end : Text) where
  unfoldable pub next_in_block : Bool → Text → Bool
  next_in_block in_block raw =
      if trim raw == begin then true else if in_block then not (trim raw == end) else false

  unfoldable pub kept : Bool → List Text → List Text × Bool
  kept in_block [] = ([], in_block)
  kept in_block (raw ∷ rest) =
      let (out, open_at_end) = kept (next_in_block in_block raw) rest in
      (if trim raw == begin || in_block then out else raw ∷ out, open_at_end)

-- `out.push_str(raw); out.push('\n')`
unfoldable pub unlines : List Text → Text
unlines [] = []
unlines (l ∷ ls) = l ++ 0x0a ∷ unlines ls

-- An entry of the file, not blank and no comment, with that mount point.
unfoldable pub is_entry_of : Text → Text → Bool
is_entry_of mp raw =
    let t = trim raw in
    not (is_empty t || starts_with_char t b'#')
    && elim (second (split_whitespace t)) [ none ↦ false | some existing ↦ existing == mp ]

unfoldable pub append_block : Text → Text → Text → Text → Text
append_block begin end out new_line =
    let start =
      if not (ends_with_char out 0x0a) && not (is_empty out) then out ++ 0x0a ∷ [] else out in
    start ++ (begin ++ 0x0a ∷ (new_line ++ 0x0a ∷ (end ++ 0x0a ∷ [])))

unfoldable pub finish_block : Text → Text → Text → Option Text → Result Text Text
finish_block begin end out none = ok out
finish_block begin end out (some new_line) = do
  let mp = unwrap_or (second (split_whitespace new_line)) []
  reject_if (any (is_entry_of mp) (lines out))
      (codes "mount_point " ++ (mp ++ codes " already present in fstab outside vaultproxy block"))
  ok (append_block begin end out new_line)

unfoldable pub rewrite_block : Text → Text → Text → Option Text → Result Text Text
rewrite_block begin end original line = do
  let (out, in_block) = kept begin end false (lines original)
  reject_if in_block (codes "fstab contains unterminated vaultproxy block")
  finish_block begin end (unlines out) line

-- `write_fstab_block`, from the text of the file to the text that is written.
unfoldable pub rewrite_fstab : Text → Text → Option Text → Result Text Text
rewrite_fstab original slug line =
    rewrite_block (marker_begin ++ slug) (marker_end ++ slug) original line
