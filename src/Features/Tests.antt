-- ===== src/Features/Tests.antt =====
-- Runs of the feature flags of src/caformat-util.c, and instances of their theorems.
use casync.Prelude.{
  ℕ, ◌≡◌, ◌↔◌, refl, bit_or, ok, err, true, false, einval, eopnotsupp, max64, arith,
}
use casync.Features.{
  drop_if, add_ids, normalized, normalize, are_normalized, time_granularity_nsec, with_acl,
  with_nsec_time, with_2sec_time, with_32bit_uids, with_user_names, with_permissions, with_best,
  with_unix, with_fat, with_fuse,
}
use casync.Features.Normal.{normalize-are_normalized, are_normalized_iff}
use casync.Features.Granularity.{time_granularity-normalize}

-- Access control lists, permissions and two granularities.
abbrev mixed : ℕ
mixed = bit_or with_acl (bit_or with_permissions (bit_or with_nsec_time with_2sec_time))

abbrev mixed_normal : ℕ
mixed_normal = bit_or with_acl (bit_or with_nsec_time (bit_or with_32bit_uids with_user_names))

normalize-mixed : normalize mixed ≡ ok mixed_normal
unfolding normalize normalized drop_if add_ids
normalize-mixed = refl

normalize_refuses : (normalize max64 ≡ err einval) × (normalize 4294967296 ≡ err eopnotsupp)
unfolding normalize
normalize_refuses = (refl, refl)

sets :
    (are_normalized with_best ≡ ok true)
    × (are_normalized with_unix ≡ ok true)
    × (are_normalized with_fat ≡ ok true)
    × (are_normalized with_fuse ≡ ok false)
unfolding are_normalized
sets = (refl, refl, refl, refl)

normalize-are_normalized_example : are_normalized mixed_normal ≡ ok true
normalize-are_normalized_example = normalize-are_normalized mixed normalize-mixed

are_normalized_iff_example : (are_normalized mixed ≡ ok true) ↔ (normalize mixed ≡ ok mixed)
are_normalized_iff_example = are_normalized_iff mixed (omega arith)

time_granularity-normalize_example :
    time_granularity_nsec mixed_normal ≡ time_granularity_nsec mixed
time_granularity-normalize_example = time_granularity-normalize mixed normalize-mixed
