-- ===== src/Index/Write.antt =====
-- src/caindex.c: configuring an index and writing it.
use Prim.Native.String.{String}
use casync.Prelude.{
  ℕ, ◌+◌, ◌-◌, ◌*◌, Bool, true, false, not, Option, none, some, List, [], ◌∷◌, ◌++◌, if◌then◌else◌,
  leb, ◌==◌, max64, wrap64, bit_and, Result, ok, err, einval, ebusy, enotty, e2big, erofs, enodata,
  enomem,
}
use casync.Action.{Action, lift, gets, modify, require, ensure, ◌>>=◌, ◌>>◌}
use casync.Files.{loop_write, Files}
use casync.Format.{words}
use casync.Features.{normalize}
use casync.Index.{
  Index, is_cooked_write, is_read, is_some, on_file, in_limits, index_struct_size, header_size,
  item_size, table_tail_marker,
}
use casync.Index.Open.{open_index}

-- `CaFormatTableItem`
unfoldable pub item_bytes : ℕ → List ℕ → List ℕ
item_bytes end id = words (end ∷ []) ++ id

-- `CaFormatTableTail`
unfoldable pub tail_bytes : ℕ → List ℕ
tail_bytes size = words (0 ∷ 0 ∷ index_struct_size ∷ size ∷ table_tail_marker ∷ [])

abbrev known_size : ℕ → Result ℕ
known_size size = if size == 0 then err enodata else ok size

module _ {F : Type 0} where
  -- `ca_index_set_make_mode`
  unfoldable pub set_make_mode : ℕ → Action (Index F) (Unit {0})
  set_make_mode m = do
    require (bit_and m (4294967295 - 438) == 0) einval
    ensure (λ i. not (is_read i.mode)) enotty
    ensure (λ i. i.make_mode == 4294967295) ebusy
    modify (λ i. record i { make_mode = m })

  -- `ca_index_set_fd`
  unfoldable pub set_fd : Option F → Action (Index F) (Unit {0})
  set_fd fd = do
    ensure (λ i. not (is_some i.fd)) ebusy
    ensure (λ i. not (is_some i.path)) ebusy
    modify (λ i. record i { fd = fd })

  -- `ca_index_set_path`, given the copy of the path that strdup() makes
  unfoldable pub set_path : Option String → Action (Index F) (Unit {0})
  set_path copy = do
    ensure (λ i. not (is_some i.fd)) ebusy
    ensure (λ i. not (is_some i.path)) ebusy
    require (is_some copy) enomem
    modify (λ i. record i { path = copy })

  abbrev can_set_size : ℕ → Action (Index F) (Unit {0})
  can_set_size size = do require (in_limits size) einval; ensure (λ i. is_cooked_write i.mode) erofs

  -- `ca_index_set_chunk_size_min`
  unfoldable pub set_chunk_size_min : ℕ → Action (Index F) (Unit {0})
  set_chunk_size_min size = do can_set_size size; modify (λ i. record i { chunk_size_min = size })

  -- `ca_index_set_chunk_size_avg`
  unfoldable pub set_chunk_size_avg : ℕ → Action (Index F) (Unit {0})
  set_chunk_size_avg size = do can_set_size size; modify (λ i. record i { chunk_size_avg = size })

  -- `ca_index_set_chunk_size_max`
  unfoldable pub set_chunk_size_max : ℕ → Action (Index F) (Unit {0})
  set_chunk_size_max size = do can_set_size size; modify (λ i. record i { chunk_size_max = size })

  -- `ca_index_get_chunk_size_min`
  unfoldable pub get_chunk_size_min : Index F → Result ℕ
  get_chunk_size_min i = known_size i.chunk_size_min

  -- `ca_index_get_chunk_size_avg`
  unfoldable pub get_chunk_size_avg : Index F → Result ℕ
  get_chunk_size_avg i = known_size i.chunk_size_avg

  -- `ca_index_get_chunk_size_max`
  unfoldable pub get_chunk_size_max : Index F → Result ℕ
  get_chunk_size_max i = known_size i.chunk_size_max

  -- `ca_index_set_feature_flags`
  unfoldable pub set_feature_flags : ℕ → Action (Index F) (Unit {0})
  set_feature_flags flags = do
    ensure (λ i. is_cooked_write i.mode) enotty
    ensure (λ i. i.start_offset == 0) ebusy
    normal ← lift (normalize flags)
    modify (λ i. record i { feature_flags = normal })

  -- `ca_index_get_feature_flags`
  unfoldable pub get_feature_flags : Index F → Result ℕ
  get_feature_flags i = if i.feature_flags == max64 then err enodata else ok i.feature_flags

module _ {F : Type 0} (files : Files F) where
  -- `ca_index_write_chunk`
  unfoldable pub write_chunk : List ℕ → ℕ → Action (Index F) (Unit {0})
  write_chunk id size = do
    require (not (size == 0)) einval
    ensure (λ i. is_cooked_write i.mode) enotty
    ensure (λ i. not i.wrote_eof) ebusy
    open_index files
    ensure (λ i. leb size i.chunk_size_max) einval
    start ← gets (λ i. i.previous_chunk_offset)
    require (leb start (wrap64 (start + size))) e2big
    on_file (λ f. loop_write files f (item_bytes (wrap64 (start + size)) id))
    modify (λ i. record i {
      previous_chunk_offset = wrap64 (start + size);
      cooked_offset = wrap64 (i.cooked_offset + item_size);
      item_position = wrap64 (i.item_position + 1);
    })

  -- `ca_index_write_eof`
  unfoldable pub write_eof : Action (Index F) (Unit {0})
  write_eof = do
    ensure (λ i. is_cooked_write i.mode) enotty
    ensure (λ i. not i.wrote_eof) ebusy
    open_index files
    tail ← gets (λ i. tail_bytes (wrap64 (header_size + i.item_position * item_size + item_size)))
    on_file (λ f. loop_write files f tail)
    modify
        (λ i. record i { cooked_offset = wrap64 (i.cooked_offset + item_size); wrote_eof = true })

  -- `ca_index_install`; the result says whether the file was renamed.
  unfoldable pub install : Action (Index F) Bool
  install = do
    ensure (λ i. not (is_read i.mode)) enotty
    ensure (λ i. i.wrote_eof) ebusy
    (λ i. elim i.temporary_path [
      | none ↦ (i, ok false)
      | some from ↦ elim i.path [
        | none ↦ (i, ok false)
        | some to ↦ elim (files.rename from to) [
          | err e ↦ (i, err e)
          | ok u ↦ (record i { temporary_path = none }, ok true)
        ]
      ]
    ])
