-- ===== src/ImageSize.antt =====
-- src/fssize.c: the size of a file system image from its superblock. What pread() gives, or its errno, and
-- the magic numbers of Linux are parameters. Integers are read as on a little-endian machine.
pub mod Squashfs
mod Tests
use casync.Prelude.{
  ℕ, zero, suc, ◌+◌, ◌*◌, ◌/◌, ◌%◌, ◌^◌, Bool, true, false, ◌&&◌, not, Option, none, some, List,
  if◌then◌else◌, ltb, ◌==◌, wrap64, align_to, length, drop, Result, ok, err,
}
use casync.ChunkId.{little_endian}

-- SQUASHFS_MAGIC and EXT2_SUPER_MAGIC
pub record Magics : Type 0 where
  pub squashfs : ℕ
  pub ext2 : ℕ

-- The field of so many bytes at an offset of the superblock
unfoldable pub field : List ℕ → ℕ → ℕ → ℕ
field block offset width = little_endian width (drop offset block)

-- `sizeof(superblock)`
abbrev pub superblock_size : ℕ
superblock_size = 1082

-- __builtin_popcount of a word of so many digits
unfoldable pub popcount : ℕ → ℕ → ℕ
popcount zero x = 0
popcount (suc n) x = x % 2 + popcount n (x / 2)

-- IS_POWER_OF_TWO of src/util.h, on an unsigned int
unfoldable pub is_power_of_two : ℕ → Bool
is_power_of_two x = popcount 32 x == 1

unfoldable pub bootimg_size : List ℕ → Option ℕ
bootimg_size b =
    let pagesize = field b 36 4 in
    if (field b 0 4 == 1380208193) && (field b 4 4 == 558123343) && is_power_of_two pagesize
    then some (
        wrap64 (
          align_to 608 pagesize
          + align_to (field b 8 4) pagesize
          + align_to (field b 16 4) pagesize
          + align_to (field b 24 4) pagesize
          + align_to (field b 40 4) pagesize))
    else none

unfoldable pub fat_size : List ℕ → Option ℕ
fat_size b =
    let sector_size = field b 11 2 in
    let short = wrap64 (field b 19 2 * sector_size) in
    let l = if short == 0 then wrap64 (field b 32 4 * sector_size) else short in
    if (field b 510 2 == 43605) && is_power_of_two sector_size && ltb 0 l then some l else none

unfoldable pub ext_size : Magics → List ℕ → Option ℕ
ext_size m b =
    let shift = 10 + field b 1048 4 in
    if (field b 1080 2 == m.ext2) && ltb shift 64
    then some (wrap64 (field b 1028 4 * 2 ^ shift))
    else none

-- The first of two sizes that is known.
abbrev pub or_else : Option ℕ → Option ℕ → Option ℕ
or_else (some l) other = some l
or_else none other = other

-- `read_file_system_size`; `ok none` is the result 0, where no size is known.
unfoldable pub read_file_system_size : Magics → Result (List ℕ) → Result (Option ℕ)
read_file_system_size m (err e) = err e
read_file_system_size m (ok b) =
    if not (length b == superblock_size)
    then ok none
    else if field b 0 4 == m.squashfs
    then ok (some (align_to (field b 40 8) 4096))
    else ok (or_else (bootimg_size b) (or_else (fat_size b) (ext_size m b)))
