-- ===== src/MountHelper/Fstab/Promises.antt =====
-- What the fstab code of bin/mount_helper.rs promises for a validated request.
use vaultproxy.Prelude.{
  Bool, true, false, ◌≡◌, refl, ap, ◌∙◌, List, [], ◌∷◌, ◌++◌, arith, ◌==◌, text_eq, Text, all, any,
  all_mono, none, some, ok, codes,
}
use vaultproxy.Text.{is_whitespace, split_whitespace, split, trim, trim_start, trim_end, lines}
use vaultproxy.Text.Words.{trim-append}
use vaultproxy.MountHelper.Validate.{is_path_char}
use vaultproxy.MountHelper.Request.{Request, validate_request}
use vaultproxy.MountHelper.Fstab.{
  build_fstab_line, rewrite_fstab, kept, next_in_block, marker_begin, marker_end,
}
use vaultproxy.MountHelper.Fstab.Lines.{in_line, no_cr}
use vaultproxy.MountHelper.Fstab.Block.{IsBlock, block_round_trip}
use vaultproxy.MountHelper.Fstab.Entry.{
  IsMount, validate_request-IsMount, Plain-IsWord, entry_line, options_of, creds_option,
  line_fields, line_in_line, options_split, is_plain, plain-in_line,
}

-- The entry of a validated `mount` request with a credentials directory of path characters is one
-- line of six fields: the share, the mount point, `cifs`, the options, and two zeros. The options
-- are the credentials file and then the options of the request, none merged or split.
pub fstab_line_fields :
    (req : Request)
    → validate_request req ≡ ok tt
    → req.action ≡ codes "mount"
    → all is_path_char req.creds_dir ≡ true
    → (all in_line (entry_line req) ≡ true)
      × (split_whitespace (entry_line req)
          ≡ req.share
            ∷ req.mount_point
            ∷ codes "cifs"
            ∷ options_of req
            ∷ codes "0"
            ∷ codes "0"
            ∷ [])
      × (split b',' (options_of req) ≡ creds_option req ∷ req.fs_options)
fstab_line_fields req v a h =
    let m = validate_request-IsMount req v a in
    (line_in_line req m h, line_fields req m h, options_split req m h)

trim_not_marker : (s t : Text) → (trim (b'/' ∷ s) == b'#' ∷ t) ≡ false
unfolding trim trim_start trim_end is_whitespace
trim_not_marker s t = ground arith

line-IsBlock :
    (req : Request)
    → IsMount req
    → all is_path_char req.creds_dir ≡ true
    → IsBlock (marker_begin ++ req.slug) (entry_line req) (marker_end ++ req.slug)
unfolding is_whitespace build_fstab_line
line-IsBlock req m h =
    let word = Plain-IsWord req.slug m.slug in
    let (rest, start) = m.share_start in
    let slug = all_mono is_plain in_line req.slug plain-in_line m.slug.1 in
    (
      trim-append b'#' (codes " BEGIN vaultproxy:") req.slug refl word,
      trim-append b'#' (codes " END vaultproxy:") req.slug refl word,
      refl,
      rw start (trim_not_marker _ _),
      rw (line_in_line req m h) (unfold in_line in rw slug),
    )

kept_all :
    (begin end : Text) (ls : List Text)
    → any (λ raw. trim raw == begin) ls ≡ false
    → kept begin end false ls ≡ (ls, false)
unfolding kept next_in_block
kept_all begin end [] h = refl
kept_all begin end (l ∷ ls) h = ground (arith, kept_all begin end ls)

abbrev pub block_of : Request → List Text
block_of req = (marker_begin ++ req.slug) ∷ entry_line req ∷ (marker_end ++ req.slug) ∷ []

-- After the entry of a validated `mount` request is written into a file without carriage returns:
-- to remove it gives what its removal from the first file gives, to write it again changes
-- nothing, and the file has the lines that it had outside the block, in order, and then the
-- block. If no line was the begin marker, these are all the lines that it had.
pub mount_round_trip :
    (req : Request) (s s' : Text)
    → validate_request req ≡ ok tt
    → req.action ≡ codes "mount"
    → all is_path_char req.creds_dir ≡ true
    → all no_cr s ≡ true
    → rewrite_fstab s req.slug (some (entry_line req)) ≡ ok s'
    → (rewrite_fstab s' req.slug none ≡ rewrite_fstab s req.slug none)
      × (rewrite_fstab s' req.slug (some (entry_line req)) ≡ ok s')
      × (lines s'
          ≡ (kept (marker_begin ++ req.slug) (marker_end ++ req.slug) false (lines s)).0
            ++ block_of req)
      × (any (λ raw. trim raw == marker_begin ++ req.slug) (lines s) ≡ false
          → lines s' ≡ lines s ++ block_of req)
unfolding rewrite_fstab
mount_round_trip req s s' v a h clean w =
    let m = validate_request-IsMount req v a in
    let begin = marker_begin ++ req.slug in
    let end = marker_end ++ req.slug in
    let (removed, again, ls) =
      block_round_trip begin (entry_line req) end s s' (line-IsBlock req m h) clean w in
    (
      removed,
      again,
      ls,
      λ none_begins.
          ls
          ∙ ap (λ (k : List Text × Bool). k.0 ++ block_of req)
              (kept_all begin end (lines s) none_begins),
    )
