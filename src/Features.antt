-- ===== src/Features.antt =====
-- src/caformat-util.c: the feature flags of an archive, a uint64_t of single bits.
mod Flags
pub mod Exclusion
pub mod Normal
pub mod Granularity
mod Tests
pub use Flags.*
use casync.Prelude.{
  ℕ, ◌+◌, ◌-◌, Bool, true, false, ◌&&◌, not, if◌then◌else◌, ◌==◌, bit_and, bit_or, max64, not64,
  Result, ok, err, einval, eopnotsupp, enodata,
}

-- `flags & mask`, as a test
abbrev pub has : ℕ → ℕ → Bool
has flags mask = not (bit_and flags mask == 0)

-- `flags &= ~mask`
abbrev pub clear : ℕ → ℕ → ℕ
clear flags mask = bit_and flags (not64 mask)

-- `if (flags & flag) flags &= ~mask;`
unfoldable pub drop_if : ℕ → ℕ → ℕ → ℕ
drop_if flag mask flags = if has flags flag then clear flags mask else flags

abbrev pub with_ids : ℕ
with_ids = bit_or with_16bit_uids (bit_or with_32bit_uids with_user_names)

abbrev pub coarser_than_usec : ℕ
coarser_than_usec = bit_or with_sec_time with_2sec_time

abbrev pub coarser_than_nsec : ℕ
coarser_than_nsec = bit_or with_usec_time coarser_than_usec

abbrev pub modes : ℕ
modes = bit_or with_permissions with_read_only

-- The first change that `ca_feature_flags_normalize` makes: access control lists name users and groups.
unfoldable pub add_ids : ℕ → ℕ
add_ids flags =
    if has flags with_acl && (bit_and flags with_ids == 0)
    then bit_or flags (bit_or with_32bit_uids with_user_names)
    else flags

-- All changes that `ca_feature_flags_normalize` makes, in order.
unfoldable pub normalized : ℕ → ℕ
normalized flags =
    let ids = drop_if with_32bit_uids with_16bit_uids (add_ids flags) in
    let nsec = drop_if with_nsec_time coarser_than_nsec ids in
    let usec = drop_if with_usec_time coarser_than_usec nsec in
    let sec = drop_if with_sec_time with_2sec_time usec in
    let acl = drop_if with_acl modes sec in
    let permissions = drop_if with_permissions with_read_only acl in
    drop_if exclude_nodump with_flag_nodump permissions

-- `ca_feature_flags_normalize`
unfoldable pub normalize : ℕ → Result ℕ
normalize flags =
    if flags == max64
    then err einval
    else if has flags (not64 feature_flags_max)
    then err eopnotsupp
    else ok (normalized flags)

-- `ca_feature_flags_are_normalized`
unfoldable pub are_normalized : ℕ → Result Bool
are_normalized flags =
    if flags == max64
    then err einval
    else if has flags (not64 feature_flags_max)
    then err eopnotsupp
    else if has flags with_nsec_time && has flags coarser_than_nsec
    then ok false
    else if has flags with_usec_time && has flags coarser_than_usec
    then ok false
    else if has flags with_sec_time && has flags with_2sec_time
    then ok false
    else if bit_and flags (bit_or with_16bit_uids with_32bit_uids)
        == bit_or with_16bit_uids with_32bit_uids
    then ok false
    else if has flags with_permissions && has flags with_read_only
    then ok false
    else if has flags with_acl && has flags modes
    then ok false
    else if has flags with_acl && (bit_and flags with_ids == 0)
    then ok false
    else if has flags exclude_nodump && has flags with_flag_nodump
    then ok false
    else ok true

-- `ca_feature_flags_time_granularity_nsec`
unfoldable pub time_granularity_nsec : ℕ → Result ℕ
time_granularity_nsec flags =
    if has flags (not64 feature_flags_max)
    then err eopnotsupp
    else if has flags with_nsec_time
    then ok 1
    else if has flags with_usec_time
    then ok 1000
    else if has flags with_sec_time
    then ok 1000000000
    else if has flags with_2sec_time
    then ok 2000000000
    else err enodata
