-- ===== src/MountHelper/Fstab/Entry.antt =====
-- The fstab entry of a validated request of bin/mount_helper.rs is one line of six fields.
use vaultproxy.Prelude.{
  ℕ, Bool, true, false, not, ◌&&◌, ◌≡◌, refl, ap, ◌∙◌, List, [], ◌∷◌, ◌++◌, arith, eqb, leb, ◌==◌,
  text_eq, Text, all, all-append, all_mono, ok, >>-eq-ok, codes,
}
use vaultproxy.Text.{is_empty, is_whitespace, starts_with_char, split_whitespace, split, join}
use vaultproxy.Text.Words.{
  not_space, IsWord, no_sep, split_whitespace-word_space, split_whitespace-word, split-join,
}
use vaultproxy.MountHelper.Validate.{
  is_path_char, is_option_char, is_slug_char, validate_slug, validate_creds_dir, validate_abs_path,
  validate_share, validate_mount_point, validate_username, validate_password,
}
use vaultproxy.MountHelper.Validate.Accepted.{
  AllOptions, slug_accepted, share_accepted, mount_point_accepted, options_accepted,
}
use vaultproxy.MountHelper.Request.{Request, validate_request, validate_action, validate_mount}
use vaultproxy.MountHelper.Fstab.{build_fstab_line, build_options, creds_path_for}
use vaultproxy.MountHelper.Fstab.Lines.{in_line}

-- Printable ASCII but the space, and no comma.
abbrev pub is_plain : ℕ → Bool
is_plain c = leb 0x21 c && leb c 0x7e && not (eqb c b',')

path_char-plain : (c : ℕ) → is_path_char c ≡ true → is_plain c ≡ true
unfolding is_path_char
path_char-plain c h = ground arith

option_char-plain : (c : ℕ) → is_option_char c ≡ true → is_plain c ≡ true
unfolding is_option_char
option_char-plain c h = ground arith

slug_char-plain : (c : ℕ) → is_slug_char c ≡ true → is_plain c ≡ true
unfolding is_slug_char
slug_char-plain c h = ground arith

plain-not_space : (c : ℕ) → is_plain c ≡ true → not_space c ≡ true
unfolding not_space is_whitespace
plain-not_space c h = ground arith

pub plain-in_line : (c : ℕ) → is_plain c ≡ true → in_line c ≡ true
unfolding in_line
plain-in_line c h = ground arith

plain-no_sep : (c : ℕ) → is_plain c ≡ true → no_sep b',' c ≡ true
unfolding no_sep
plain-no_sep c h = ground arith

abbrev pub Plain : Text → Type 0
Plain s = (is_empty s ≡ false) × (all is_plain s ≡ true)

pub Plain-IsWord : (s : Text) → Plain s → IsWord s
Plain-IsWord s (e, h) = (e, all_mono is_plain not_space s plain-not_space h)

-- What a validated `mount` request holds.
pub record IsMount (req : Request) : Type 0 where
  pub slug : Plain req.slug
  pub share : Plain req.share
  pub share_start : (r : Text) × (req.share ≡ b'/' ∷ r)
  pub mount_point : Plain req.mount_point
  pub fs_options : AllOptions req.fs_options
  pub password : validate_password req.password ≡ ok tt
  pub username : validate_username req.username ≡ ok tt

validated_mount :
    (req : Request)
    → validate_request req ≡ ok tt
    → req.action ≡ codes "mount"
    → (validate_slug req.slug ≡ ok tt) × (validate_mount req ≡ ok tt)
unfolding validate_request validate_action
validated_mount req h a =
    let is_mount : (req.action == codes "mount") ≡ true = rw a refl in
    let (slug, h1) = >>-eq-ok (validate_slug req.slug) _ h in
    let (creds, h2) = >>-eq-ok (validate_creds_dir req.creds_dir) _ h1 in
    let (fstab, h3) = >>-eq-ok (validate_abs_path req.fstab_path (codes "fstab_path")) _ h2 in
    let (root, h4) =
      >>-eq-ok (validate_abs_path req.allowed_mount_root (codes "allowed_mount_root")) _ h3 in
    (slug, rw is_mount at h4)

starts_with_char-cons : (s : Text) (c : ℕ) → starts_with_char s c ≡ true → is_empty s ≡ false
starts_with_char-cons [] c h = cc
starts_with_char-cons (d ∷ s) c h = refl

pub validate_request-IsMount :
    (req : Request) → validate_request req ≡ ok tt → req.action ≡ codes "mount" → IsMount req
unfolding validate_mount
validate_request-IsMount req h a =
    let (slug, h0) = validated_mount req h a in
    let (share, h1) = >>-eq-ok (validate_share req.share) _ h0 in
    let (mp, h2) = >>-eq-ok (validate_mount_point req.mount_point req.allowed_mount_root) _ h1 in
    let (user, h3) = >>-eq-ok (validate_username req.username) _ h2 in
    let (pass, opts) = >>-eq-ok (validate_password req.password) _ h3 in
    let (s1, _, s2) = slug_accepted req.slug slug in
    let (host, path, whole, chars, _, _, _) = share_accepted req.share share in
    let (m1, _, _, _, _, m2) = mount_point_accepted req.mount_point req.allowed_mount_root mp in
    record {
      slug = (s1, all_mono is_slug_char is_plain req.slug slug_char-plain s2);
      share = (rw whole refl, all_mono is_path_char is_plain req.share path_char-plain chars);
      share_start = (b'/' ∷ (host ++ b'/' ∷ path), whole);
      mount_point = (
        starts_with_char-cons req.mount_point b'/' m1,
        all_mono is_path_char is_plain req.mount_point path_char-plain m2,
      );
      fs_options = options_accepted req.fs_options opts;
      password = pass;
      username = user;
    }

all_plain_options : (os : List Text) → AllOptions os → all (all is_plain) os ≡ true
all_plain_options [] h = refl
all_plain_options (o ∷ os) (h, hs) =
    rw (all_mono is_option_char is_plain o option_char-plain h.2) (all_plain_options os hs)

all-join :
    (q : ℕ → Bool) (p : Text) (ps : List Text)
    → q b',' ≡ true
    → all (all q) (p ∷ ps) ≡ true
    → all q (join b',' (p ∷ ps)) ≡ true
unfolding join
all-join q p [] c h = ground arith
all-join q p (r ∷ ps) c h =
    ground (arith, all-append q p (b',' ∷ join b',' (r ∷ ps)), all-join q r ps c)

join_full : (p : Text) (ps : List Text) → is_empty p ≡ false → is_empty (join b',' (p ∷ ps)) ≡ false
unfolding join
join_full p [] h = h
join_full [] (q ∷ ps) h = cc
join_full (c ∷ p) (q ∷ ps) h = refl

parts_mono :
    (q : ℕ → Bool) (ps : List Text)
    → ((c : ℕ) → is_plain c ≡ true → q c ≡ true)
    → all (all is_plain) ps ≡ true
    → all (all q) ps ≡ true
parts_mono q ps h = all_mono (all is_plain) (all q) ps (λ p. all_mono is_plain q p h)

abbrev pub creds_option : Request → Text
creds_option req = codes "credentials=" ++ creds_path_for req.creds_dir req.slug

creds_option-plain :
    (req : Request)
    → IsMount req
    → all is_path_char req.creds_dir ≡ true
    → all is_plain (creds_option req) ≡ true
unfolding creds_path_for
creds_option-plain req m h =
    let dir = all_mono is_path_char is_plain req.creds_dir path_char-plain h in
    let tail = codes "/vaultproxy-" ++ (req.slug ++ codes ".credentials") in
    ground (
      arith,
      all-append is_plain req.creds_dir tail,
      all-append is_plain req.slug (codes ".credentials"),
      m.slug.1,
    )

abbrev pub entry_line : Request → Text
entry_line req = build_fstab_line req (creds_path_for req.creds_dir req.slug)

abbrev pub options_of : Request → Text
options_of req = build_options req (creds_path_for req.creds_dir req.slug)

module _ (req : Request) (m : IsMount req) (h : all is_path_char req.creds_dir ≡ true) where
  all_options : all (all is_plain) (creds_option req ∷ req.fs_options) ≡ true
  all_options = rw (creds_option-plain req m h) (all_plain_options req.fs_options m.fs_options)

  options-IsWord : IsWord (options_of req)
  unfolding build_options not_space is_whitespace
  options-IsWord = (
    join_full (creds_option req) req.fs_options refl,
    all-join not_space (creds_option req) req.fs_options refl
        (parts_mono not_space (creds_option req ∷ req.fs_options) plain-not_space all_options),
  )

  pub options_split : split b',' (options_of req) ≡ creds_option req ∷ req.fs_options
  unfolding build_options
  options_split =
      split-join b',' (creds_option req) req.fs_options
        (parts_mono (no_sep b',') (creds_option req ∷ req.fs_options) plain-no_sep all_options)

  pub line_fields :
      split_whitespace (entry_line req)
      ≡ req.share ∷ req.mount_point ∷ codes "cifs" ∷ options_of req ∷ codes "0" ∷ codes "0" ∷ []
  unfolding build_fstab_line not_space is_whitespace
  line_fields =
      let opts = options_of req in
      split_whitespace-word_space req.share _ (Plain-IsWord req.share m.share)
      ∙ ap (λ r. req.share ∷ r)
          (split_whitespace-word_space req.mount_point _
              (Plain-IsWord req.mount_point m.mount_point)
            ∙ ap (λ r. req.mount_point ∷ r)
                (split_whitespace-word_space (codes "cifs") (opts ++ codes " 0 0") (refl, refl)
                  ∙ ap (λ r. codes "cifs" ∷ r)
                      (split_whitespace-word_space opts (codes "0 0") options-IsWord
                        ∙ ap (λ r. opts ∷ r)
                            (split_whitespace-word_space (codes "0") (codes "0") (refl, refl)
                              ∙ ap (λ r. codes "0" ∷ r)
                                  (split_whitespace-word (codes "0") (refl, refl))))))

  options_in_line : all in_line (options_of req) ≡ true
  unfolding build_options in_line
  options_in_line =
      all-join in_line (creds_option req) req.fs_options refl
        (parts_mono in_line (creds_option req ∷ req.fs_options) plain-in_line all_options)

  pub line_in_line : all in_line (entry_line req) ≡ true
  unfolding build_fstab_line in_line
  line_in_line =
      let opts = options_of req in
      let end = opts ++ codes " 0 0" in
      ground (
        arith,
        all-append in_line req.share (b' ' ∷ (req.mount_point ++ (codes " cifs " ++ end))),
        all-append in_line req.mount_point (codes " cifs " ++ end),
        all-append in_line opts (codes " 0 0"),
        all_mono is_plain in_line req.share plain-in_line m.share.1,
        all_mono is_plain in_line req.mount_point plain-in_line m.mount_point.1,
        options_in_line,
      )
