-- ===== src/Index/Read.antt =====
-- src/caindex.c: reading an index, from a file or while it arrives.
use casync.Prelude.{
  ℕ, ◌+◌, ◌-◌, ◌*◌, ◌/◌, ◌%◌, min, Bool, true, false, ◌&&◌, ◌||◌, not, none, some, List, ◌++◌,
  if◌then◌else◌, ltb, leb, ◌==◌, max64, wrap64, take, drop, length, replicate, Result, ok, err,
  einval, ebusy, enotty, epipe, ebadmsg, eagain, enodata, enomem, efbig, eio, ebadfd,
}
use casync.Action.{Action, pure, gets, modify, require, ensure, ◌>>=◌, ◌>>◌}
use casync.Files.{loop_read, Files}
use casync.ChunkId.{u64, id_size}
use casync.Buffer.{Buffer, Heap, acquire, empty, shorten, store, buffer_size}
use casync.Index.{
  Index, is_cooked_read, is_read, is_incremental_read, is_incremental_write, on_file, await_data,
  metadata_size, index_struct_size, header_size, item_size, table_tail_marker,
}
use casync.Index.Open.{open_index, read_head}

-- What `ca_index_read_chunk` gives where it does not fail: the id, the end and the size of a chunk, or that
-- there are no more.
pub record Chunk : Type 0 where
  pub id : List ℕ
  pub offset_end : ℕ
  pub size : ℕ

abbrev pub end_chunk : Chunk
end_chunk = record { id = replicate id_size 0; offset_end = max64; size = 0 }

-- The test for the table's tail
unfoldable pub is_tail : ℕ → List ℕ → Bool
is_tail size b =
    (u64 b 4 == table_tail_marker)
    && (u64 b 0 == 0)
    && (u64 b 1 == 0)
    && (u64 b 2 == index_struct_size)
    && (u64 b 3 == size)

module _ {F : Type 0} where
  -- The size that the table's tail records, if the next item is the tail.
  abbrev pub table_size : Index F → ℕ
  table_size i =
      wrap64 (i.cooked_offset + 18446744073709551616 - i.start_offset + header_size + item_size)

  -- The part of `ca_index_read_chunk` for an item
  unfoldable pub take_item : List ℕ → Action (Index F) (Bool × Chunk)
  take_item b = do
    start ← gets (λ i. i.previous_chunk_offset)
    require (start == max64 || ltb start (u64 b 0)) ebadmsg
    ensure (λ i. start == max64 || leb (u64 b 0 - start) i.chunk_size_max) ebadmsg
    modify (λ i. record i {
      previous_chunk_offset = u64 b 0;
      item_position = wrap64 (i.item_position + 1);
      cooked_offset = wrap64 (i.cooked_offset + item_size);
    })
    pure (
      true,
      record {
        id = take id_size (drop 8 b);
        offset_end = u64 b 0;
        size = if start == max64 then max64 else u64 b 0 - start;
      },
    )

  -- `ca_index_get_position`
  unfoldable pub get_position : Index F → Result ℕ
  get_position i = if i.start_offset == 0 then err enodata else ok i.item_position

module _ {F : Type 0} (files : Files F) where
  -- The part of `ca_index_read_chunk` for the table's tail: nothing may follow it.
  unfoldable pub take_tail : Action (Index F) (Bool × Chunk)
  take_tail = do
    garbage ← on_file (λ f. files.read f 1)
    require (length garbage == 0) ebadmsg
    pure (false, end_chunk)

  -- `ca_index_read_chunk`; the Boolean is the result 1 or 0.
  unfoldable pub read_chunk : Action (Index F) (Bool × Chunk)
  read_chunk = do
    open_index files
    ensure (λ i. is_cooked_read i.mode) enotty
    await_data (item_size + 1)
    b ← on_file (λ f. loop_read files f item_size)
    require (length b == item_size) epipe
    size ← gets table_size
    if is_tail size b then take_tail else take_item b

  -- `ca_index_set_position`
  unfoldable pub set_position : ℕ → Action (Index F) (Unit {0})
  set_position position = do
    ensure (λ i. is_cooked_read i.mode) enotty
    ensure (λ i. not (i.start_offset == 0)) enodata
    require (leb position (wrap64 (position * item_size))) einval
    start ← gets (λ i. i.start_offset)
    require (leb (wrap64 (position * item_size)) (wrap64 (start + wrap64 (position * item_size))))
        einval
    on_file (λ f. files.lseek f (wrap64 (start + wrap64 (position * item_size))))
    modify (λ i. record i {
      cooked_offset = wrap64 (start + wrap64 (position * item_size));
      item_position = position;
      previous_chunk_offset = if position == 0 then 0 else max64;
    })

  -- `read_file_size`
  unfoldable pub read_file_size : Action (Index F) (Unit {0})
  read_file_size i = if not (i.file_size == max64) then (i, ok tt) else elim i.fd [
    | none ↦ (i, err ebadfd)
    | some f ↦ elim (files.fstat f) [
      | err e ↦ (i, err e)
      | ok (is_regular, size) ↦
          if is_regular then (record i { file_size = size }, ok tt) else (i, err ebadfd)
    ]
  ]

  -- The number of chunks whose items are there, of so many bytes
  unfoldable pub count_available : ℕ → Index F → Result ℕ
  count_available available i =
      let complete = is_read i.mode || i.wrote_eof in
      if ltb available (metadata_size i)
      then (if complete then err ebadmsg else ok 0)
      else if complete && not ((available - metadata_size i) % item_size == 0)
      then err ebadmsg
      else ok ((available - metadata_size i) / item_size)

  -- `ca_index_get_available_chunks`
  unfoldable pub get_available_chunks : Action (Index F) ℕ
  get_available_chunks = do
    read_head files
    ensure (λ i. not (i.start_offset == 0)) enodata
    (λ i. (if is_read i.mode then read_file_size i else (i, ok tt)))
    ensure (λ i. is_cooked_read i.mode) enotty
    (λ i. (i, count_available (if is_read i.mode then i.file_size else i.raw_offset) i))

  -- `ca_index_incremental_write`
  unfoldable pub incremental_write : List ℕ → Action (Index F) (Unit {0})
  incremental_write bytes = do
    require (not (length bytes == 0)) einval
    ensure (λ i. is_incremental_read i.mode) enotty
    ensure (λ i. not i.wrote_eof) ebusy
    open_index files
    at ← gets (λ i. i.raw_offset)
    require (leb at (wrap64 (at + length bytes))) efbig
    n ← on_file (λ f. files.pwrite f bytes at)
    require (n == length bytes) eio
    modify (λ i. record i { raw_offset = wrap64 (at + length bytes) })

  -- `ca_index_incremental_eof`
  unfoldable pub incremental_eof : Action (Index F) (Unit {0})
  incremental_eof = do
    ensure (λ i. is_incremental_read i.mode) enotty
    ensure (λ i. not i.wrote_eof) ebusy
    open_index files
    modify (λ i. record i { wrote_eof = true })

  -- What `ca_index_incremental_read` does with `m` bytes of room in the buffer
  unfoldable pub fill_buffer : ℕ → Buffer × ℕ → Index F → (Index F × Buffer) × Result Bool
  fill_buffer m (b, p) i =
      let (i', got) = on_file (λ f. files.pread f m i.raw_offset) i in
      elim got [
        | err e ↦ ((i', empty b), err e)
        | ok q ↦ elim (shorten (store b p q) (m - length q)) [
          | err e ↦ ((i', store b p q), err e)
          | ok b' ↦ ((record i' { raw_offset = wrap64 (i'.raw_offset + length q) }, b'), ok true)
        ]
      ]

  -- `ca_index_incremental_read`; the result is 1 or 0.
  unfoldable pub incremental_read : Heap → Buffer → Index F → (Index F × Buffer) × Result Bool
  incremental_read heap b i =
      if not (is_incremental_write i.mode)
      then ((i, b), err enotty)
      else let (j, opened) = open_index files i in
        elim opened [
          | err e ↦ ((j, b), err e)
          | ok u ↦
              if leb j.cooked_offset j.raw_offset
              then ((j, b), (if j.wrote_eof then ok false else err eagain))
              else elim (acquire heap b (min buffer_size (j.cooked_offset - j.raw_offset))) [
                | none ↦ ((j, b), err enomem)
                | some room ↦ fill_buffer (min buffer_size (j.cooked_offset - j.raw_offset)) room j
              ]
        ]

  -- `ca_index_get_index_size`
  unfoldable pub get_index_size : Action (Index F) ℕ
  get_index_size = do
    open_index files
    read_head files
    (λ i. (if is_read i.mode then read_file_size i else (i, ok tt)))
    ensure (λ i. is_cooked_read i.mode) enotty
    ensure (λ i. is_read i.mode || i.wrote_eof) eagain
    size ← gets (λ i. if is_read i.mode then i.file_size else i.raw_offset)
    ensure (λ i. leb (metadata_size i) size) ebadmsg
    ensure (λ i. (size - metadata_size i) % item_size == 0) ebadmsg
    pure size

  -- `ca_index_get_total_chunks`
  unfoldable pub get_total_chunks : Action (Index F) ℕ
  get_total_chunks = do size ← get_index_size; gets (λ i. (size - metadata_size i) / item_size)

  -- The bytes that `ca_index_read_tail` looks at: the last item, zero if there is none, and the tail.
  unfoldable pub last_bytes : ℕ → Action (Index F) (List ℕ)
  last_bytes size i =
      if size == metadata_size i
      then (do
        tail ← on_file (λ f. files.pread f item_size (size - item_size))
        require (length tail == item_size) ebadmsg
        pure (replicate item_size 0 ++ tail))
          i
      else (do
        both ← on_file (λ f. files.pread f (2 * item_size) (size - 2 * item_size))
        require (length both == 2 * item_size) ebadmsg
        pure both)
          i

  -- `ca_index_read_tail`
  unfoldable pub read_tail : Action (Index F) (Unit {0})
  read_tail = do
    size ← get_index_size
    b ← last_bytes size
    require (u64 (drop item_size b) 4 == table_tail_marker) ebadmsg
    require (u64 (drop item_size b) 2 == index_struct_size) ebadmsg
    require (wrap64 (u64 (drop item_size b) 3 + index_struct_size) == size) ebadmsg
    modify (λ i. record i { blob_size = u64 b 0 })

  -- `ca_index_get_blob_size`
  unfoldable pub get_blob_size : Action (Index F) ℕ
  get_blob_size = do
    (λ i. (if i.blob_size == max64 then read_tail i else (i, ok tt)))
    gets (λ i. i.blob_size)
