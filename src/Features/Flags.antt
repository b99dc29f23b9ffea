-- ===== src/Features/Flags.antt =====
-- The feature flags of src/caformat.h. A composite flag is the bitwise or of its parts.
use casync.Prelude.{ℕ, List, [], ◌∷◌, bit_or}

-- CA_FORMAT_WITH_X and CA_FORMAT_EXCLUDE_X

abbrev pub with_16bit_uids : ℕ
with_16bit_uids = 1

abbrev pub with_32bit_uids : ℕ
with_32bit_uids = 2

abbrev pub with_user_names : ℕ
with_user_names = 4

abbrev pub with_sec_time : ℕ
with_sec_time = 8

abbrev pub with_usec_time : ℕ
with_usec_time = 16

abbrev pub with_nsec_time : ℕ
with_nsec_time = 32

abbrev pub with_2sec_time : ℕ
with_2sec_time = 64

abbrev pub with_read_only : ℕ
with_read_only = 128

abbrev pub with_permissions : ℕ
with_permissions = 256

abbrev pub with_symlinks : ℕ
with_symlinks = 512

abbrev pub with_device_nodes : ℕ
with_device_nodes = 1024

abbrev pub with_fifos : ℕ
with_fifos = 2048

abbrev pub with_sockets : ℕ
with_sockets = 4096

abbrev pub with_flag_hidden : ℕ
with_flag_hidden = 8192

abbrev pub with_flag_system : ℕ
with_flag_system = 16384

abbrev pub with_flag_archive : ℕ
with_flag_archive = 32768

abbrev pub with_flag_append : ℕ
with_flag_append = 65536

abbrev pub with_flag_noatime : ℕ
with_flag_noatime = 131072

abbrev pub with_flag_compr : ℕ
with_flag_compr = 262144

abbrev pub with_flag_nocow : ℕ
with_flag_nocow = 524288

abbrev pub with_flag_nodump : ℕ
with_flag_nodump = 1048576

abbrev pub with_flag_dirsync : ℕ
with_flag_dirsync = 2097152

abbrev pub with_flag_immutable : ℕ
with_flag_immutable = 4194304

abbrev pub with_flag_sync : ℕ
with_flag_sync = 8388608

abbrev pub with_flag_nocomp : ℕ
with_flag_nocomp = 16777216

abbrev pub with_flag_projinherit : ℕ
with_flag_projinherit = 33554432

abbrev pub with_xattrs : ℕ
with_xattrs = 268435456

abbrev pub with_acl : ℕ
with_acl = 536870912

abbrev pub with_fcaps : ℕ
with_fcaps = 2147483648

abbrev pub exclude_submounts : ℕ
exclude_submounts = 4611686018427387904

abbrev pub exclude_nodump : ℕ
exclude_nodump = 9223372036854775808

abbrev pub any_of : List ℕ → ℕ
any_of [] = 0
any_of (f ∷ fs) = bit_or f (any_of fs)

abbrev pub with_best : ℕ
with_best = any_of (
    with_32bit_uids ∷ with_user_names ∷ with_nsec_time ∷ with_symlinks ∷ with_device_nodes
    ∷ with_fifos ∷ with_sockets ∷ with_flag_hidden ∷ with_flag_system ∷ with_flag_archive
    ∷ with_flag_append ∷ with_flag_noatime ∷ with_flag_compr ∷ with_flag_nocow ∷ with_flag_nodump
    ∷ with_flag_dirsync ∷ with_flag_immutable ∷ with_flag_sync ∷ with_flag_nocomp
    ∷ with_flag_projinherit ∷ with_xattrs ∷ with_acl ∷ with_fcaps ∷ [])

abbrev pub with_unix : ℕ
with_unix = any_of (
    with_16bit_uids ∷ with_permissions ∷ with_sec_time ∷ with_symlinks ∷ with_device_nodes
    ∷ with_fifos ∷ with_sockets ∷ [])

abbrev pub with_fat : ℕ
with_fat =
    any_of (
      with_2sec_time ∷ with_read_only ∷ with_flag_hidden ∷ with_flag_system ∷ with_flag_archive
      ∷ [])

abbrev pub with_chattr : ℕ
with_chattr = any_of (
    with_flag_append ∷ with_flag_noatime ∷ with_flag_compr ∷ with_flag_nocow ∷ with_flag_nodump
    ∷ with_flag_dirsync ∷ with_flag_immutable ∷ with_flag_sync ∷ with_flag_nocomp
    ∷ with_flag_projinherit ∷ [])

abbrev pub with_fat_attrs : ℕ
with_fat_attrs = any_of (with_flag_hidden ∷ with_flag_system ∷ with_flag_archive ∷ [])

abbrev pub with_privileged : ℕ
with_privileged = any_of (
    with_16bit_uids ∷ with_32bit_uids ∷ with_user_names ∷ with_device_nodes ∷ with_flag_system
    ∷ with_flag_append ∷ with_flag_immutable ∷ with_acl ∷ with_fcaps ∷ [])

abbrev pub with_fuse : ℕ
with_fuse = any_of (
    with_16bit_uids ∷ with_32bit_uids ∷ with_sec_time ∷ with_usec_time ∷ with_nsec_time
    ∷ with_2sec_time ∷ with_read_only ∷ with_permissions ∷ with_symlinks ∷ with_device_nodes
    ∷ with_fifos ∷ with_sockets ∷ with_fat_attrs ∷ with_chattr ∷ with_xattrs ∷ [])

-- CA_FORMAT_FEATURE_FLAGS_MAX
abbrev pub feature_flags_max : ℕ
feature_flags_max = bit_or 4294967295 (bit_or exclude_nodump exclude_submounts)
