-- ===== src/MountHelper/Fstab/Block.antt =====
-- `write_fstab_block` of bin/mount_helper.rs, for markers and an entry that are lines of their own.
use mathlib.Core.List.{append-nil}
use vaultproxy.Prelude.{
  ℕ, Bool, true, false, not, ◌&&◌, ◌≡◌, refl, ap, sym, ◌∙◌, List, [], ◌∷◌, ◌++◌, arith, ◌==◌,
  ==_refl, text_eq, Text, all, any, all-append, none, some, ok,
}
use vaultproxy.Text.{lines, trim, is_empty, ends_with_char, second, split_whitespace}
use vaultproxy.MountHelper.Request.{unwrap_or}
use vaultproxy.MountHelper.Fstab.{
  kept, next_in_block, unlines, append_block, finish_block, is_entry_of, rewrite_block,
}
use vaultproxy.MountHelper.Fstab.Lines.{
  in_line, no_cr, lines-unlines, unlines-append, lines-in_line, kept-in_line, kept-append_kept,
}

ends_with_char-append :
    (c d : ℕ) (s r : Text) → ends_with_char (s ++ d ∷ r) c ≡ ends_with_char (d ∷ r) c
unfolding ends_with_char
ends_with_char-append c d [] r = refl
ends_with_char-append c d (e ∷ []) r = refl
ends_with_char-append c d (e ∷ f ∷ s) r = ends_with_char-append c d (f ∷ s) r

ends_with_lf : (ls : List Text) → ends_with_char (0x0a ∷ unlines ls) 0x0a ≡ true
unfolding unlines ends_with_char
ends_with_lf [] = refl
ends_with_lf (l ∷ ls) = ends_with_char-append 0x0a 0x0a (0x0a ∷ l) (unlines ls) ∙ ends_with_lf ls

-- A text made of lines is empty or ends in a line feed.
unlines_ends :
    (ls : List Text)
    → (not (ends_with_char (unlines ls) 0x0a) && not (is_empty (unlines ls))) ≡ false
unfolding unlines
unlines_ends [] = ground arith
unlines_ends (l ∷ ls) = rw (ends_with_char-append 0x0a 0x0a l (unlines ls), ends_with_lf ls)

-- A line between its markers.
abbrev pub IsBlock : Text → Text → Text → Type 0
IsBlock begin line end =
    (trim begin ≡ begin)
    × (trim end ≡ end)
    × ((end == begin) ≡ false)
    × ((trim line == end) ≡ false)
    × (all (all in_line) (begin ∷ line ∷ end ∷ []) ≡ true)

module _ (begin line end : Text) (block : IsBlock begin line end) where
  kept_block : kept begin end false (begin ∷ line ∷ end ∷ []) ≡ ([], false)
  unfolding kept next_in_block
  kept_block =
      let (hb, he, ne, nl, _) = block in
      let sb : (trim begin == begin) ≡ true = rw hb (==_refl begin) in
      let se : (trim end == end) ≡ true = rw he (==_refl end) in
      let nb : (trim end == begin) ≡ false = rw he ne in rw (sb, nl, nb, se) (ground arith)

  append_block-unlines :
      (ls : List Text)
      → append_block begin end (unlines ls) line ≡ unlines (ls ++ begin ∷ line ∷ end ∷ [])
  unfolding append_block
  append_block-unlines ls = rw (unlines_ends ls, unlines-append) (unfold unlines in refl)

  lines-append_block :
      (ls : List Text)
      → all (all in_line) ls ≡ true
      → lines (append_block begin end (unlines ls) line) ≡ ls ++ begin ∷ line ∷ end ∷ []
  lines-append_block ls h = rw append_block-unlines (lines-unlines _ (rw all-append (ground arith)))

  -- A second pass over what was written keeps the same lines.
  kept-append_block :
      (s : Text)
      → all no_cr s ≡ true
      → kept begin end false
          (lines (append_block begin end (unlines (kept begin end false (lines s)).0) line))
        ≡ ((kept begin end false (lines s)).0, false)
  kept-append_block s h = rw (
    lines-append_block _ (kept-in_line begin end false (lines s) (lines-in_line s h)),
    kept-append_kept,
    kept_block,
    append-nil,
  )

-- What a successful write of an entry has found and written.
abbrev Written : Text → Text → Text → Text → Text → Type 0
Written begin end s line s' =
    ((kept begin end false (lines s)).1 ≡ false)
    × (s' ≡ append_block begin end (unlines (kept begin end false (lines s)).0) line)
    × (any (is_entry_of (unwrap_or (second (split_whitespace line)) []))
          (lines (unlines (kept begin end false (lines s)).0))
        ≡ false)

module _ (begin line end : Text) (s s' : Text) where
  rewrite-Written : rewrite_block begin end s (some line) ≡ ok s' → Written begin end s line s'
  unfolding rewrite_block finish_block
  rewrite-Written h = ground arith

  rewrite_of_Written : Written begin end s line s' → rewrite_block begin end s (some line) ≡ ok s'
  unfolding rewrite_block finish_block
  rewrite_of_Written (closed, same, free) = rw (closed, free, same)

  rewrite_none :
      (kept begin end false (lines s)).1 ≡ false
      → rewrite_block begin end s none ≡ ok (unlines (kept begin end false (lines s)).0)
  unfolding rewrite_block finish_block
  rewrite_none closed = rw closed

-- After an entry is written, its removal gives what the removal would have given at once, writing
-- it again changes nothing, and the file has the lines that it had outside the block, and the block.
pub block_round_trip :
    (begin line end s s' : Text)
    → IsBlock begin line end
    → all no_cr s ≡ true
    → rewrite_block begin end s (some line) ≡ ok s'
    → (rewrite_block begin end s' none ≡ rewrite_block begin end s none)
      × (rewrite_block begin end s' (some line) ≡ ok s')
      × (lines s' ≡ (kept begin end false (lines s)).0 ++ begin ∷ line ∷ end ∷ [])
block_round_trip begin line end s s' block clean h =
    let (closed, same, free) = rewrite-Written begin line end s s' h in
    let again : kept begin end false (lines s') ≡ ((kept begin end false (lines s)).0, false) =
      rw same (kept-append_block begin line end block s clean) in
    (
      rewrite_none begin line end s' s' (ap (λ (p : List Text × Bool). p.1) again)
          ∙ ap (λ (p : List Text × Bool). ok (unlines p.0)) again
          ∙ sym (rewrite_none begin line end s s closed),
      rewrite_of_Written begin line end s' s' (rw again (refl, same, free)),
      rw same (
          lines-append_block begin line end block (kept begin end false (lines s)).0
            (kept-in_line begin end false (lines s) (lines-in_line s clean))),
    )
