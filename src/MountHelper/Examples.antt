-- ===== src/MountHelper/Examples.antt =====
-- Runs of the mount helper, and its theorems at concrete inputs.
use vaultproxy.Prelude.{
  true, false, ◌≡◌, ◌≢◌, refl, List, [], ◌∷◌, ◌++◌, ◌==◌, text_eq, Text, codes, all, any, none,
  some, ok, err, ◌↔◌,
}
use vaultproxy.Text.{
  starts_with, contains, ends_with_char, trim_end_matches, split_once, split, byte_len,
  is_whitespace, trim, trim_start, trim_end, lines, split_whitespace, second, join,
}
use vaultproxy.MountHelper.Validate.{
  is_path_char, is_host_char, is_slug_char, is_user_char, is_option_char, validate_slug,
  validate_share, check_host_path, validate_abs_path, validate_creds_dir, has_parent_dir,
  validate_mount_point, validate_username, validate_password, breaks_creds_file,
  validate_fs_options, validate_each, validate_fs_option, option_key, is_reserved,
}
use vaultproxy.MountHelper.Json.{
  Value, string, string_array, parse, stuck, parse_object, object_loop, parse_value, parse_string,
  string_loop, expect, skip_ws, is_ws, escape, serde_escape, escape_char,
}
use vaultproxy.MountHelper.Json.Documents.{print_obj, parse-print_obj, print_fields, print_value}
use vaultproxy.MountHelper.Json.Fuel.{parse_ends}
use vaultproxy.MountHelper.Request.{Request, validate_request, validate_action, validate_mount}
use vaultproxy.MountHelper.Fstab.{
  build_fstab_line, build_options, creds_path_for, rewrite_fstab, rewrite_block, finish_block,
  append_block, kept, next_in_block, is_entry_of, unlines, marker_begin, marker_end,
}
use vaultproxy.MountHelper.Fstab.Lines.{in_line, no_cr}
use vaultproxy.MountHelper.Fstab.Entry.{entry_line, options_of, creds_option}
use vaultproxy.MountHelper.Fstab.Promises.{fstab_line_fields, mount_round_trip, block_of}
use vaultproxy.MountHelper.Fstab.Gaps.{creds_dir_injection}
use vaultproxy.MountHelper.Json.Strings.{print_string}
use vaultproxy.MountHelper.Json.Bytewise.{bytewise, all_ascii}
use vaultproxy.Text.Encode.{encode, encode_char}

abbrev media : Request
media = record {
  action = codes "mount";
  slug = codes "media";
  share = codes "//nas/films";
  mount_point = codes "/mnt/films";
  username = codes "bob";
  password = codes "s3cret";
  fs_options = codes "vers=3.0" ∷ codes "ro" ∷ [];
  creds_dir = codes "/etc/samba";
  fstab_path = codes "/etc/fstab";
  allowed_mount_root = codes "/mnt/";
}

media_is_valid : validate_request media ≡ ok tt
unfolding validate_request validate_action validate_mount validate_slug validate_share
    check_host_path validate_abs_path validate_creds_dir validate_mount_point validate_username
    validate_password validate_fs_options validate_each validate_fs_option option_key is_reserved
    breaks_creds_file is_slug_char is_host_char is_path_char is_user_char is_option_char
    has_parent_dir starts_with contains ends_with_char trim_end_matches split_once split byte_len
media_is_valid = refl

abbrev fstab : Text
fstab = codes "/dev/sda1 / ext4 defaults 0 1\n# swap\n"

abbrev written : Text
written =
    fstab
    ++ codes
        "# BEGIN vaultproxy:media\n//nas/films /mnt/films cifs credentials=/etc/samba/vaultproxy-media.credentials,vers=3.0,ro 0 0\n# END vaultproxy:media\n"

writes : rewrite_fstab fstab (codes "media") (some (entry_line media)) ≡ ok written
unfolding rewrite_fstab rewrite_block finish_block append_block kept next_in_block is_entry_of
    unlines build_fstab_line build_options creds_path_for lines trim trim_start trim_end
    is_whitespace split_whitespace second join ends_with_char
writes = refl

fstab_line_fields_example :
    (all in_line (entry_line media) ≡ true)
    × (split_whitespace (entry_line media)
        ≡ media.share
          ∷ media.mount_point
          ∷ codes "cifs"
          ∷ options_of media
          ∷ codes "0"
          ∷ codes "0"
          ∷ [])
    × (split b',' (options_of media) ≡ creds_option media ∷ media.fs_options)
unfolding is_path_char
fstab_line_fields_example = fstab_line_fields media media_is_valid refl refl

mount_round_trip_example :
    (rewrite_fstab written (codes "media") none ≡ rewrite_fstab fstab (codes "media") none)
    × (rewrite_fstab written (codes "media") (some (entry_line media)) ≡ ok written)
    × (lines written
        ≡ (kept (marker_begin ++ codes "media") (marker_end ++ codes "media") false (lines fstab)).0
          ++ block_of media)
    × (any (λ raw. trim raw == marker_begin ++ codes "media") (lines fstab) ≡ false
        → lines written ≡ lines fstab ++ block_of media)
unfolding is_path_char no_cr
mount_round_trip_example = mount_round_trip media fstab written media_is_valid refl refl refl writes

abbrev injecting : Request
injecting = record media { creds_dir = codes "/etc/samba/x\n//evil/x /mnt/y cifs guest 0 0\n#" }

creds_dir_injection_example :
    (validate_creds_dir injecting.creds_dir ≡ ok tt)
    × ((first rest : Text) × (entry_line injecting
          ≡ first ++ 0x0a ∷ (codes "//evil/x /mnt/y cifs guest 0 0\n#" ++ rest)))
unfolding has_parent_dir split
creds_dir_injection_example =
    creds_dir_injection injecting (codes "x") (codes "//evil/x /mnt/y cifs guest 0 0\n#") refl refl

abbrev fields : List (Text × Value)
fields =
    (codes "action", string (codes "mount"))
    ∷ (codes "fs_options", string_array (codes "ro" ∷ codes "a\"b\n" ∷ []))
    ∷ []

parse-print_obj_example :
    (parse (print_obj fields) ≡ ok (record { fields = bytewise fields }))
    × ((bytewise fields ≡ fields) ↔ (all_ascii fields ≡ true))
parse-print_obj_example = parse-print_obj fields

fields_come_back : bytewise fields ≡ fields
unfolding encode encode_char
fields_come_back = refl

-- A password that is not ASCII comes back as another one.
mangled :
    parse (print_obj ((codes "password", string (0xe9 ∷ [])) ∷ []))
    ≡ ok (record { fields = (codes "password", string (0xc3 ∷ 0xa9 ∷ [])) ∷ [] })
unfolding parse parse_object object_loop parse_value parse_string string_loop expect skip_ws is_ws
    escape print_obj print_fields print_value print_string serde_escape escape_char encode_char
mangled = refl

parse_ends_example : parse (codes "{\"a\": [") ≢ err stuck
parse_ends_example = parse_ends (codes "{\"a\": [")
