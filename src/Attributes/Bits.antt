-- ===== src/Attributes/Bits.antt =====
-- `ca_feature_flags_to_chattr` and `ca_feature_flags_to_fat_attrs` of src/caformat-util.c, and back again.
use native.Mathlib.Nat.{suc-mul}
use casync.Prelude.{
  ℕ, ◌+◌, ◌-◌, ◌*◌, ◌/◌, ◌%◌, ◌^◌, ◌≡◌, ◌≢◌, ap, ◌∙◌, arith, bit_and, bit_and_high, not64, drop,
  bit_and_le, pow_double, zero, suc, ◌≤◌,
}
use casync.Features.{with_chattr, with_fat_attrs, feature_flags_max}
use casync.Attributes.{
  ChattrBits, FatBits, Magics, chattr_map, fat_attrs_map, from_chattr, to_chattr, from_fat_attrs,
  to_fat_attrs, from_magic,
}
use casync.Attributes.RoundTrip.{IsApart, IsTable, collect-collect}

-- The bits of Linux: not 0, and no two the same.
pub record IsChattr (c : ChattrBits) : Type 0 where
  pub some_bit :
      (c.append ≢ 0)
      × (c.noatime ≢ 0)
      × (c.compr ≢ 0)
      × (c.nocow ≢ 0)
      × (c.nodump ≢ 0)
      × (c.dirsync ≢ 0)
      × (c.immutable ≢ 0)
      × (c.sync ≢ 0)
      × (c.nocomp ≢ 0)
      × (c.projinherit ≢ 0)
  pub append_apart : IsApart c.append (drop 1 (chattr_map c))
  pub noatime_apart : IsApart c.noatime (drop 2 (chattr_map c))
  pub compr_apart : IsApart c.compr (drop 3 (chattr_map c))
  pub nocow_apart : IsApart c.nocow (drop 4 (chattr_map c))
  pub nodump_apart : IsApart c.nodump (drop 5 (chattr_map c))
  pub dirsync_apart : IsApart c.dirsync (drop 6 (chattr_map c))
  pub immutable_apart : IsApart c.immutable (drop 7 (chattr_map c))
  pub sync_apart : IsApart c.sync (drop 8 (chattr_map c))
  pub nocomp_apart : IsApart c.nocomp (drop 9 (chattr_map c))

single : (k x : ℕ) → bit_and x (2 ^ (k + 1) - 2 ^ k) ≢ 0 → bit_and x (2 ^ (k + 1) - 2 ^ k) ≡ 2 ^ k
single k x h = omega (
  arith,
  bit_and_le x (2 ^ (k + 1) - 2 ^ k),
  bit_and_high k 1 x,
  at_least (x % 2 ^ (k + 1) / 2 ^ k) (λ e. h (bit_and_high k 1 x ∙ e)),
  pow_double k,
  ap (λ n. 2 ^ n) {x = k + 1} {y = suc k} (omega arith),
)
  where
    at_least : (q : ℕ) → q * 2 ^ k ≢ 0 → 2 ^ k ≤ q * 2 ^ k
    at_least zero e = absurd (e (omega arith))
    at_least (suc q) e = omega (arith, suc-mul q (2 ^ k))

chattr-IsTable : (c : ChattrBits) → IsChattr c → IsTable (chattr_map c)
unfolding IsTable IsApart
chattr-IsTable c h = (
  h.some_bit.0,
  single 16,
  h.append_apart,
  (
    h.some_bit.1,
    single 17,
    h.noatime_apart,
    (
      h.some_bit.2,
      single 18,
      h.compr_apart,
      (
        h.some_bit.3,
        single 19,
        h.nocow_apart,
        (
          h.some_bit.4,
          single 20,
          h.nodump_apart,
          (
            h.some_bit.5,
            single 21,
            h.dirsync_apart,
            (
              h.some_bit.6,
              single 22,
              h.immutable_apart,
              (
                h.some_bit.7,
                single 23,
                h.sync_apart,
                (h.some_bit.8, single 24, h.nocomp_apart, (h.some_bit.9, single 25, tt, tt)),
              ),
            ),
          ),
        ),
      ),
    ),
  ),
)

-- Feature flags that are turned into chattr bits and back are the chattr flags among them, where the
-- bits of Linux differ.
pub from_chattr-to_chattr :
    (c : ChattrBits) (flags : ℕ)
    → IsChattr c
    → from_chattr c (to_chattr c flags) ≡ bit_and flags with_chattr
unfolding from_chattr to_chattr
from_chattr-to_chattr c flags h = collect-collect (chattr_map c) flags (chattr-IsTable c h)

-- The features that a file system is said to have are feature flags.
pub from_magic_known :
    (m : Magics) (magic : ℕ) → bit_and (from_magic m magic) (not64 feature_flags_max) ≡ 0
unfolding from_magic
from_magic_known m magic = ground arith

-- The bits of the FAT file system: not 0, and no two the same.
pub record IsFat (b : FatBits) : Type 0 where
  pub some_bit : (b.hidden ≢ 0) × (b.system ≢ 0) × (b.archive ≢ 0)
  pub hidden_apart : IsApart b.hidden (drop 1 (fat_attrs_map b))
  pub system_apart : IsApart b.system (drop 2 (fat_attrs_map b))

fat-IsTable : (b : FatBits) → IsFat b → IsTable (fat_attrs_map b)
unfolding IsTable IsApart
fat-IsTable b h = (
  h.some_bit.0,
  single 13,
  h.hidden_apart,
  (h.some_bit.1, single 14, h.system_apart, (h.some_bit.2, single 15, tt, tt)),
)

-- Feature flags that are turned into FAT attributes and back are the FAT flags among them, where the
-- bits of Linux differ.
pub from_fat_attrs-to_fat_attrs :
    (b : FatBits) (flags : ℕ)
    → IsFat b
    → from_fat_attrs b (to_fat_attrs b flags) ≡ bit_and flags with_fat_attrs
unfolding from_fat_attrs to_fat_attrs
from_fat_attrs-to_fat_attrs b flags h = collect-collect (fat_attrs_map b) flags (fat-IsTable b h)
