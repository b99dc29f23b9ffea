-- ===== src/Names.antt =====
-- src/caformat-util.c: the names of feature flags and of the items of the format, whose type numbers are
-- src/caformat.h's.
pub mod Lookup
mod Tests
use Prim.Native.String.{String}
use text.Mathlib.Text
use casync.Prelude.{
  ℕ, Option, none, some, List, [], ◌∷◌, if◌then◌else◌, ◌==◌, Result, ok, err, enxio,
}
use casync.Prelude.{enomem, einval, bit_and, bit_or, not64, not}
use casync.Features.{
  exclude_nodump, exclude_submounts, with_16bit_uids, with_2sec_time, with_32bit_uids, with_acl,
  with_best, with_chattr, with_device_nodes, with_fat, with_fat_attrs, with_fcaps, with_fifos,
  with_flag_append, with_flag_archive, with_flag_compr, with_flag_dirsync, with_flag_hidden,
  with_flag_immutable, with_flag_noatime, with_flag_nocomp, with_flag_nocow, with_flag_nodump,
  with_flag_projinherit, with_flag_sync, with_flag_system, with_fuse, with_nsec_time,
  with_permissions, with_privileged, with_read_only, with_sec_time, with_sockets, with_symlinks,
  with_unix, with_usec_time, with_user_names, with_xattrs,
}

-- CA_FORMAT_X
abbrev pub type_entry : ℕ
type_entry = 1411591222519905105

abbrev pub type_user : ℕ
type_user = 17605436373646101683

abbrev pub type_group : ℕ
type_group = 2732395012216678994

abbrev pub type_xattr : ℕ
type_xattr = 13264632049723753606

abbrev pub type_fcaps : ℕ
type_fcaps = 17809059974302467625

abbrev pub type_acl_user : ℕ
type_acl_user = 2989766227757445039

abbrev pub type_acl_group : ℕ
type_acl_group = 3959416917624872203

abbrev pub type_acl_group_obj : ℕ
type_acl_group_obj = 2523266005910632691

abbrev pub type_acl_default : ℕ
type_acl_default = 18320341633595116752

abbrev pub type_acl_default_user : ℕ
type_acl_default_user = 13686507410406050449

abbrev pub type_acl_default_group : ℕ
type_acl_default_group = 11586373606731226961

abbrev pub type_symlink : ℕ
type_symlink = 7370826569818705260

abbrev pub type_device : ℕ
type_device = 12411266240836789827

abbrev pub type_payload : ℕ
type_payload = 10060511138394472393

abbrev pub type_filename : ℕ
type_filename = 7907035327516516107

abbrev pub type_goodbye : ℕ
type_goodbye = 16128336251540980739

abbrev pub type_index : ℕ
type_index = 10845316187136630777

abbrev pub type_table : ℕ
type_table = 16671092242283708797

-- `ca_format_type_name`; `none` is NULL.
unfoldable pub type_name : ℕ → Option String
type_name u =
    if u == type_entry
    then some "entry"
    else if u == type_user
    then some "user"
    else if u == type_group
    then some "group"
    else if u == type_xattr
    then some "xattr"
    else if u == type_fcaps
    then some "fcaps"
    else if u == type_acl_user
    then some "acl-user"
    else if u == type_acl_group
    then some "acl-group"
    else if u == type_acl_group_obj
    then some "acl-group-obj"
    else if u == type_acl_default
    then some "acl-default"
    else if u == type_acl_default_user
    then some "acl-default-user"
    else if u == type_acl_default_group
    then some "acl-default-group"
    else if u == type_symlink
    then some "symlink"
    else if u == type_device
    then some "device"
    else if u == type_payload
    then some "payload"
    else if u == type_filename
    then some "filename"
    else if u == type_goodbye
    then some "goodbye"
    else if u == type_index
    then some "index"
    else if u == type_table
    then some "table"
    else none

abbrev pub with_feature_map : List (String × ℕ)
with_feature_map =
    ("16bit-uids", with_16bit_uids)
    ∷ ("32bit-uids", with_32bit_uids)
    ∷ ("user-names", with_user_names)
    ∷ ("sec-time", with_sec_time)
    ∷ ("usec-time", with_usec_time)
    ∷ ("nsec-time", with_nsec_time)
    ∷ ("2sec-time", with_2sec_time)
    ∷ ("read-only", with_read_only)
    ∷ ("permissions", with_permissions)
    ∷ ("symlinks", with_symlinks)
    ∷ ("device-nodes", with_device_nodes)
    ∷ ("fifos", with_fifos)
    ∷ ("sockets", with_sockets)
    ∷ ("flag-hidden", with_flag_hidden)
    ∷ ("flag-system", with_flag_system)
    ∷ ("flag-archive", with_flag_archive)
    ∷ ("flag-append", with_flag_append)
    ∷ ("flag-noatime", with_flag_noatime)
    ∷ ("flag-compr", with_flag_compr)
    ∷ ("flag-nocow", with_flag_nocow)
    ∷ ("flag-nodump", with_flag_nodump)
    ∷ ("flag-dirsync", with_flag_dirsync)
    ∷ ("flag-immutable", with_flag_immutable)
    ∷ ("flag-sync", with_flag_sync)
    ∷ ("flag-nocomp", with_flag_nocomp)
    ∷ ("flag-projinherit", with_flag_projinherit)
    ∷ ("xattrs", with_xattrs)
    ∷ ("acl", with_acl)
    ∷ ("fcaps", with_fcaps)
    ∷ ("best", with_best)
    ∷ ("unix", with_unix)
    ∷ ("fat", with_fat)
    ∷ ("chattr", with_chattr)
    ∷ ("fat-attrs", with_fat_attrs)
    ∷ ("privileged", with_privileged)
    ∷ ("fuse", with_fuse)
    ∷ []

-- The loop of `ca_with_feature_flags_parse_one`
unfoldable pub find : List (String × ℕ) → String → Result ℕ
find [] name = err enxio
find ((n, feature) ∷ rest) name = if Text.◌==◌ n name then ok feature else find rest name

-- `ca_with_feature_flags_parse_one`
unfoldable pub parse_one : String → Result ℕ
parse_one name = find with_feature_map name

module _ (strextend : Option String → String → String → Option String) where
  -- The loop of `ca_with_feature_flags_format`: the flags that are left, and the text. `strextend`
  -- adds two texts to one that may be there, or fails.
  unfoldable pub format_rows : List (String × ℕ) → ℕ → Option String → Result (ℕ × Option String)
  format_rows [] features s = ok (features, s)
  format_rows ((name, f) ∷ rest) features s =
      let skipped = format_rows rest features s in
      if features == 0
      then ok (features, s)
      else if not (bit_and features f == f)
      then skipped
      else elim (strextend s (elim s [ none ↦ "" | some text ↦ " " ]) name) [
        | none ↦ err enomem
        | some text ↦ format_rows rest (bit_and features (not64 f)) (some text)
      ]

  -- `ca_with_feature_flags_format`
  unfoldable pub format_flags : ℕ → Result (Option String)
  format_flags features = elim (format_rows with_feature_map features none) [
    | err e ↦ err e
    | ok (left, s) ↦
        if bit_and left (not64 (bit_or exclude_nodump exclude_submounts)) == 0
        then ok s
        else err einval
  ]
