-- ===== src/MountHelper/Fstab/Gaps.antt =====
-- Values that the validators of bin/mount_helper.rs let through.
use mathlib.Core.List.{append-nil, append_assoc}
use mathlib.Core.Path.{subst}
use vaultproxy.Prelude.{
  ℕ, ◌≤◌, ◌<◌, true, false, not, ◌≡◌, refl, List, [], ◌∷◌, ◌++◌, arith, ◌==◌, text_eq, Text, all,
  any, all-append, ok, codes, sym, ap, ◌∙◌,
}
use vaultproxy.Text.Laws.{byte_len-append}
use vaultproxy.Text.{starts_with, starts_with_char, ends_with_char, byte_len, join}
use vaultproxy.Text.Laws.{trim_end_matches_self}
use vaultproxy.MountHelper.Validate.{
  is_path_char, validate_abs_path, validate_mount_point, has_parent_dir, validate_creds_dir,
}
use vaultproxy.MountHelper.Validate.Accepted.{slash-is_path_char}
use vaultproxy.MountHelper.Request.{Request}
use vaultproxy.MountHelper.Fstab.{build_fstab_line, build_options, creds_path_for}
use vaultproxy.MountHelper.Fstab.Entry.{entry_line}

starts_with_self : (s r : Text) → starts_with (s ++ r) s ≡ true
unfolding starts_with
starts_with_self [] r = ground arith
starts_with_self (c ∷ s) r = ground (arith, starts_with_self s r)

snoc-ne : (c : ℕ) (s : Text) → (s ++ c ∷ [] == s) ≡ false
snoc-ne c [] = refl
snoc-ne c (d ∷ s) = ground (arith, snoc-ne c s)

any-not : (s : Text) → all is_path_char s ≡ true → any (λ b. not (is_path_char b)) s ≡ false
any-not [] h = refl
any-not (c ∷ s) h = ground (arith, any-not s)

slash_len : byte_len (codes "/") ≡ 1
unfolding byte_len
slash_len = refl

abs_path_ok :
    (s field : Text)
    → starts_with_char s b'/' ≡ true
    → has_parent_dir s ≡ false
    → validate_abs_path s field ≡ ok tt
unfolding validate_abs_path
abs_path_ok s field a p = rw (a, p)

creds_dir_ok :
    (d : Text)
    → starts_with_char d b'/' ≡ true
    → has_parent_dir d ≡ false
    → starts_with d (codes "/etc/samba/") ≡ true
    → validate_creds_dir d ≡ ok tt
unfolding validate_creds_dir
creds_dir_ok d a p s = rw (abs_path_ok d (codes "creds_dir") a p, s) (ground arith)

-- The text has a line feed, and what follows it begins with `t`.
abbrev pub Breaks : Text → Text → Type 0
Breaks t s = (first rest : Text) × (s ≡ first ++ 0x0a ∷ (t ++ rest))

Breaks-before : (t s p : Text) → Breaks t s → Breaks t (p ++ s)
Breaks-before t s p (first, rest, same) =
    (p ++ first, rest, ap (λ u. p ++ u) same ∙ sym (append_assoc p first (0x0a ∷ (t ++ rest))))

Breaks-after : (t s p : Text) → Breaks t s → Breaks t (s ++ p)
Breaks-after t s p (first, rest, same) = (
  first,
  rest ++ p,
  ap (λ u. u ++ p) same
      ∙ append_assoc first (0x0a ∷ (t ++ rest)) p
      ∙ ap (λ u. first ++ 0x0a ∷ u) (append_assoc t rest p),
)

Breaks-join : (t p : Text) (ps : List Text) → Breaks t p → Breaks t (join b',' (p ∷ ps))
unfolding join
Breaks-join t p [] h = h
Breaks-join t p (q ∷ ps) h = Breaks-after t p _ h

-- The root itself passes for a subdirectory when it is written with a slash at its end.
pub mount_root_accepted :
    (root : Text)
    → starts_with_char root b'/' ≡ true
    → ends_with_char root b'/' ≡ false
    → has_parent_dir (root ++ codes "/") ≡ false
    → all is_path_char root ≡ true
    → byte_len root < 256
    → validate_mount_point (root ++ codes "/") root ≡ ok tt
unfolding validate_mount_point
mount_root_accepted [] s e p c l = cc
mount_root_accepted (d ∷ r) s e p c l =
    let root = d ∷ r in
    let chars : all is_path_char (root ++ codes "/") ≡ true =
      ground (arith, all-append is_path_char root (codes "/"), slash-is_path_char) in
    let size : byte_len (root ++ codes "/") ≤ 256 =
      omega (arith, byte_len-append root (codes "/"), slash_len) in
    let prefix : starts_with (root ++ codes "/") (root ++ codes "/") ≡ true =
      rw append-nil at (starts_with_self (root ++ codes "/") []) in
    rw
      (
        abs_path_ok (root ++ codes "/") (codes "mount_point") s p,
        trim_end_matches_self b'/' root e,
        snoc-ne b'/' root,
        prefix,
        any-not (root ++ codes "/") chars,
      )
      (ground arith)

-- Any credentials directory below /etc/samba that has no component `..` is accepted, also when it
-- has a line feed: then the fstab entry has one too, and what follows it begins with what follows
-- it in the directory, so that the sender of the request chooses how the next line of the table
-- begins.
pub creds_dir_injection :
    (req : Request) (a t : Text)
    → req.creds_dir ≡ codes "/etc/samba/" ++ (a ++ 0x0a ∷ t)
    → has_parent_dir req.creds_dir ≡ false
    → (validate_creds_dir req.creds_dir ≡ ok tt)
      × ((first rest : Text) × (entry_line req ≡ first ++ 0x0a ∷ (t ++ rest)))
unfolding build_fstab_line build_options creds_path_for
creds_dir_injection req a t e p =
    let tail = a ++ 0x0a ∷ t in
    let name = codes "/vaultproxy-" ++ (req.slug ++ codes ".credentials") in
    let here : Breaks t (a ++ 0x0a ∷ t) = (a, [], ap (λ u. a ++ 0x0a ∷ u) (sym (append-nil t))) in
    let dir : Breaks t req.creds_dir =
      subst (Breaks t) (sym e) (Breaks-before t tail (codes "/etc/samba/") here) in
    let first = codes "credentials=" ++ (req.creds_dir ++ name) in
    let option : Breaks t first =
      Breaks-before t (req.creds_dir ++ name) (codes "credentials=")
        (Breaks-after t req.creds_dir name dir) in
    let options = join b',' (first ∷ req.fs_options) in
    let end : Breaks t (options ++ codes " 0 0") =
      Breaks-after t options (codes " 0 0") (Breaks-join t first req.fs_options option) in
    (
      creds_dir_ok req.creds_dir (rw e refl) p (rw e (starts_with_self (codes "/etc/samba/") tail)),
      Breaks-before t _ req.share (
          Breaks-before t _ (codes " ")
            (Breaks-before t _ req.mount_point (Breaks-before t _ (codes " cifs ") end))),
    )
