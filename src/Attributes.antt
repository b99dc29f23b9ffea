-- ===== src/Attributes.antt =====
-- src/caformat-util.c: feature flags from and to the attribute bits of files, and from the kind of a file
-- system. The bits and the magic numbers of Linux are parameters.
mod RoundTrip
pub mod Bits
mod Tests
use casync.Prelude.{ℕ, List, [], ◌∷◌, bit_or, if◌then◌else◌, ◌==◌}
use casync.Features.{has, any_of}
use casync.Features.{
  with_16bit_uids, with_2sec_time, with_32bit_uids, with_acl, with_device_nodes, with_fcaps,
  with_fifos, with_flag_append, with_flag_archive, with_flag_compr, with_flag_dirsync,
  with_flag_hidden, with_flag_immutable, with_flag_noatime, with_flag_nocomp, with_flag_nocow,
  with_flag_nodump, with_flag_projinherit, with_flag_sync, with_flag_system, with_fuse,
  with_nsec_time, with_permissions, with_read_only, with_sec_time, with_sockets, with_symlinks,
  with_usec_time, with_user_names, with_xattrs,
}

-- The loops over `chattr_map` and `fat_attrs_map`: a flag for each bit that is set.
unfoldable pub collect : List (ℕ × ℕ) → ℕ → ℕ → ℕ
collect [] flags f = f
collect ((test, flag) ∷ rest) flags f =
    collect rest flags (if has flags test then bit_or f flag else f)

abbrev pub swap : List (ℕ × ℕ) → List (ℕ × ℕ)
swap [] = []
swap ((a, b) ∷ rest) = (b, a) ∷ swap rest

-- FS_X_FL of linux/fs.h
pub record ChattrBits : Type 0 where
  pub append : ℕ
  pub noatime : ℕ
  pub compr : ℕ
  pub nocow : ℕ
  pub nodump : ℕ
  pub dirsync : ℕ
  pub immutable : ℕ
  pub sync : ℕ
  pub nocomp : ℕ
  pub projinherit : ℕ

-- ATTR_HIDDEN, ATTR_SYS and ATTR_ARCH of linux/msdos_fs.h
pub record FatBits : Type 0 where
  pub hidden : ℕ
  pub system : ℕ
  pub archive : ℕ

abbrev pub chattr_map : ChattrBits → List (ℕ × ℕ)
chattr_map c =
    (with_flag_append, c.append)
    ∷ (with_flag_noatime, c.noatime)
    ∷ (with_flag_compr, c.compr)
    ∷ (with_flag_nocow, c.nocow)
    ∷ (with_flag_nodump, c.nodump)
    ∷ (with_flag_dirsync, c.dirsync)
    ∷ (with_flag_immutable, c.immutable)
    ∷ (with_flag_sync, c.sync)
    ∷ (with_flag_nocomp, c.nocomp)
    ∷ (with_flag_projinherit, c.projinherit)
    ∷ []

-- `ca_feature_flags_from_chattr`
unfoldable pub from_chattr : ChattrBits → ℕ → ℕ
from_chattr c flags = collect (swap (chattr_map c)) flags 0

-- `ca_feature_flags_to_chattr`
unfoldable pub to_chattr : ChattrBits → ℕ → ℕ
to_chattr c flags = collect (chattr_map c) flags 0

abbrev pub fat_attrs_map : FatBits → List (ℕ × ℕ)
fat_attrs_map b =
    (with_flag_hidden, b.hidden)
    ∷ (with_flag_system, b.system)
    ∷ (with_flag_archive, b.archive)
    ∷ []

-- `ca_feature_flags_from_fat_attrs`
unfoldable pub from_fat_attrs : FatBits → ℕ → ℕ
from_fat_attrs b flags = collect (swap (fat_attrs_map b)) flags 0

-- `ca_feature_flags_to_fat_attrs`
unfoldable pub to_fat_attrs : FatBits → ℕ → ℕ
to_fat_attrs b flags = collect (fat_attrs_map b) flags 0

-- The magic numbers of linux/magic.h
pub record Magics : Type 0 where
  pub msdos : ℕ
  pub ext2 : ℕ
  pub xfs : ℕ
  pub btrfs : ℕ
  pub tmpfs : ℕ
  pub fuse : ℕ

abbrev pub msdos_features : ℕ
msdos_features =
    any_of (
      with_2sec_time ∷ with_read_only ∷ with_flag_hidden ∷ with_flag_system ∷ with_flag_archive
      ∷ [])

abbrev pub ext2_features : ℕ
ext2_features = any_of (
    with_16bit_uids ∷ with_32bit_uids ∷ with_user_names ∷ with_sec_time ∷ with_usec_time
    ∷ with_nsec_time ∷ with_2sec_time ∷ with_read_only ∷ with_permissions ∷ with_symlinks
    ∷ with_device_nodes ∷ with_fifos ∷ with_sockets ∷ with_flag_append ∷ with_flag_noatime
    ∷ with_flag_nodump ∷ with_flag_dirsync ∷ with_flag_immutable ∷ with_flag_sync ∷ with_xattrs
    ∷ with_acl ∷ with_fcaps ∷ [])

abbrev pub xfs_features : ℕ
xfs_features = any_of (
    with_16bit_uids ∷ with_32bit_uids ∷ with_user_names ∷ with_sec_time ∷ with_usec_time
    ∷ with_nsec_time ∷ with_2sec_time ∷ with_read_only ∷ with_permissions ∷ with_symlinks
    ∷ with_device_nodes ∷ with_fifos ∷ with_sockets ∷ with_flag_append ∷ with_flag_noatime
    ∷ with_flag_nodump ∷ with_flag_immutable ∷ with_flag_sync ∷ with_xattrs ∷ with_acl ∷ with_fcaps
    ∷ [])

abbrev pub btrfs_features : ℕ
btrfs_features = any_of (
    with_16bit_uids ∷ with_32bit_uids ∷ with_user_names ∷ with_sec_time ∷ with_usec_time
    ∷ with_nsec_time ∷ with_2sec_time ∷ with_read_only ∷ with_permissions ∷ with_symlinks
    ∷ with_device_nodes ∷ with_fifos ∷ with_sockets ∷ with_flag_append ∷ with_flag_noatime
    ∷ with_flag_compr ∷ with_flag_nocow ∷ with_flag_nodump ∷ with_flag_dirsync ∷ with_flag_immutable
    ∷ with_flag_sync ∷ with_flag_nocomp ∷ with_xattrs ∷ with_acl ∷ with_fcaps ∷ [])

abbrev pub tmpfs_features : ℕ
tmpfs_features = any_of (
    with_16bit_uids ∷ with_32bit_uids ∷ with_user_names ∷ with_sec_time ∷ with_usec_time
    ∷ with_nsec_time ∷ with_2sec_time ∷ with_read_only ∷ with_permissions ∷ with_symlinks
    ∷ with_device_nodes ∷ with_fifos ∷ with_sockets ∷ with_acl ∷ [])

abbrev pub other_features : ℕ
other_features = any_of (
    with_16bit_uids ∷ with_32bit_uids ∷ with_user_names ∷ with_sec_time ∷ with_usec_time
    ∷ with_nsec_time ∷ with_2sec_time ∷ with_read_only ∷ with_permissions ∷ with_symlinks
    ∷ with_device_nodes ∷ with_fifos ∷ with_sockets ∷ [])

-- `ca_feature_flags_from_magic`
unfoldable pub from_magic : Magics → ℕ → ℕ
from_magic m magic =
    if magic == m.msdos
    then msdos_features
    else if magic == m.ext2
    then ext2_features
    else if magic == m.xfs
    then xfs_features
    else if magic == m.btrfs
    then btrfs_features
    else if magic == m.tmpfs
    then tmpfs_features
    else if magic == m.fuse
    then with_fuse
    else other_features
