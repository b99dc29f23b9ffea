-- ===== src/Index.antt =====
-- src/caindex.c: the index of a blob, which is a table of where each chunk ends and of its id. An object is a
-- record over the open file `F`; a function that changes it is an action on the record. The functions
-- that write, read and seek have modules of their own.
pub mod Write
pub mod Read
pub mod Open
pub mod Rounds
pub mod Seek
pub mod Table
pub mod Writing
pub mod Reading
mod Tests
pub mod Seeking
pub mod BlobSize
pub mod Bisection
pub mod Positions
pub mod RoundTrip
pub mod Opening
pub mod Head
pub mod Listing
pub mod Untrusted
use Prim.Native.String.{String}
use casync.Prelude.{
  ℕ, ◌+◌, ◌<◌, Bool, true, false, ◌&&◌, ◌||◌, not, Option, none, some, List, [], ◌∷◌, if◌then◌else◌,
  ltb, leb, ◌==◌, max64, wrap64, bit_and, length, Result, ok, err, einval, ebusy, enotty, eunatch,
  e2big, epipe, ebadmsg, eagain, erofs, enodata, ebadf, assertion,
}
use casync.Action.{Action, pure, fail, lift, gets, modify, require, ensure, ◌>>=◌, ◌>>◌}
use casync.Files.{loop_read, loop_write, Files, Access, rdonly, wronly, rdwr}
use casync.Format.{words}
use casync.ChunkId.{u64}
use casync.Chunker.{size_limit_min, size_limit_max}
use casync.Features.{are_normalized, normalize}

-- `CaIndexMode`
pub data Mode : Type 0 where
  index_write index_read index_incremental_write index_incremental_read : Mode

-- `struct CaIndex`. `fd` is the open file, if there is one.
pub record Index (F : Type 0) : Type 0 where
  pub mode : Mode
  pub open_flags : Access
  pub fd : Option F
  pub make_mode : ℕ
  pub path : Option String
  pub temporary_path : Option String
  pub wrote_eof : Bool
  pub start_offset : ℕ
  pub cooked_offset : ℕ
  pub raw_offset : ℕ
  pub item_position : ℕ
  pub previous_chunk_offset : ℕ
  pub chunk_size_min : ℕ
  pub chunk_size_max : ℕ
  pub chunk_size_avg : ℕ
  pub feature_flags : ℕ
  pub file_size : ℕ
  pub blob_size : ℕ

abbrev pub is_cooked_write : Mode → Bool
is_cooked_write index_write = true
is_cooked_write index_incremental_write = true
is_cooked_write _ = false

abbrev pub is_cooked_read : Mode → Bool
is_cooked_read index_read = true
is_cooked_read index_incremental_read = true
is_cooked_read _ = false

abbrev pub is_read : Mode → Bool
is_read index_read = true
is_read _ = false

abbrev pub is_incremental_read : Mode → Bool
is_incremental_read index_incremental_read = true
is_incremental_read _ = false

abbrev pub is_incremental_write : Mode → Bool
is_incremental_write index_incremental_write = true
is_incremental_write _ = false

abbrev pub is_some {ℓ} : {A : Type ℓ} → Option A → Bool
is_some none = false
is_some (some a) = true

-- sizeof(CaFormatIndex), offsetof(CaFormatTable, items), and sizeof(CaFormatTableItem) with
-- sizeof(CaFormatTableTail)
abbrev pub index_struct_size : ℕ
index_struct_size = 48

abbrev pub header_size : ℕ
header_size = 16

abbrev pub item_size : ℕ
item_size = 40

-- The size of the index's header and the table's together
abbrev pub head_size : ℕ
head_size = 64

-- CA_FORMAT_INDEX, CA_FORMAT_TABLE, CA_FORMAT_TABLE_TAIL_MARKER
abbrev pub format_index : ℕ
format_index = 10845316187136630777

abbrev pub format_table : ℕ
format_table = 16671092242283708797

abbrev pub table_tail_marker : ℕ
table_tail_marker = 5426561635123326161

module _ {F : Type 0} where
  -- CA_INDEX_METADATA_SIZE
  abbrev pub metadata_size : Index F → ℕ
  metadata_size i = wrap64 (i.start_offset + item_size)

  -- `ca_index_new`, with what the four functions for the modes set
  abbrev pub new_index : Mode → Access → ℕ → Index F
  new_index mode access flags = record {
    mode = mode;
    open_flags = access;
    fd = none;
    make_mode = 4294967295;
    path = none;
    temporary_path = none;
    wrote_eof = false;
    start_offset = 0;
    cooked_offset = 0;
    raw_offset = 0;
    item_position = 0;
    previous_chunk_offset = 0;
    chunk_size_min = 0;
    chunk_size_max = 0;
    chunk_size_avg = 0;
    feature_flags = flags;
    file_size = max64;
    blob_size = max64;
  }

  -- `ca_index_new_write`
  unfoldable pub new_write : Index F
  new_write = new_index index_write wronly 0

  -- `ca_index_new_read`
  unfoldable pub new_read : Index F
  new_read = new_index index_read rdonly max64

  -- `ca_index_new_incremental_write`
  unfoldable pub new_incremental_write : Index F
  new_incremental_write = new_index index_incremental_write rdwr 0

  -- `ca_index_new_incremental_read`
  unfoldable pub new_incremental_read : Index F
  new_incremental_read = new_index index_incremental_read rdwr max64

  -- A call on the file. A descriptor that is not one gives EBADF.
  unfoldable pub on_file : {A : Type 0} → (F → F × Result A) → Action (Index F) A
  on_file call i = elim i.fd [
    | none ↦ (i, err ebadf)
    | some f ↦ (record i { fd = some (call f).0 }, (call f).1)
  ]

  -- `ca_index_enough_data`
  unfoldable pub enough_data : Index F → ℕ → Result Bool
  enough_data i n =
      let end = wrap64 (i.cooked_offset + n) in
      if is_read i.mode
      then ok true
      else if not (is_incremental_read i.mode)
      then err enotty
      else if i.wrote_eof
      then ok true
      else if ltb end i.cooked_offset
      then err e2big
      else if ltb i.raw_offset end
      then ok false
      else ok true

  -- The test of `ca_index_enough_data` where EAGAIN is given for too little.
  abbrev pub await_data : ℕ → Action (Index F) (Unit {0})
  await_data n = do there ← λ i. (i, enough_data i n); require there eagain

  -- The bytes of the two headers
  unfoldable pub head_bytes : Index F → List ℕ
  head_bytes i = words (
      index_struct_size ∷ format_index ∷ i.feature_flags ∷ i.chunk_size_min ∷ i.chunk_size_avg
      ∷ i.chunk_size_max ∷ max64 ∷ format_table ∷ [])

unfoldable pub in_limits : ℕ → Bool
in_limits size = leb size_limit_min size && leb size size_limit_max

-- The checks of `ca_index_read_head` on what it has read
unfoldable pub check_head : List ℕ → Result (Unit {0})
check_head head =
    if not (u64 head 0 == index_struct_size) || not (u64 head 1 == format_index)
    then err ebadmsg
    else elim (are_normalized (u64 head 2)) [
      | err e ↦ err e
      | ok false ↦ err einval
      | ok true ↦
          if not (in_limits (u64 head 3))
            || not (in_limits (u64 head 4))
            || not (in_limits (u64 head 5))
          then err ebadmsg
          else if not (leb (u64 head 3) (u64 head 4) && leb (u64 head 4) (u64 head 5))
          then err ebadmsg
          else if not (u64 head 6 == max64) || not (u64 head 7 == format_table)
          then err ebadmsg
          else ok tt
    ]
