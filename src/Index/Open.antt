-- ===== src/Index/Open.antt =====
-- src/caindex.c: opening an index, which writes or reads its header.
use Prim.Native.String.{String}
use casync.Prelude.{
  Bool, true, false, ◌&&◌, ◌||◌, not, none, some, if◌then◌else◌, leb, ◌==◌, max64, bit_and, length,
  Result, ok, err, einval, eunatch, epipe, eagain, assertion,
}
use casync.Action.{Action, lift, gets, modify, require, ensure, ◌>>=◌, ◌>>◌}
use casync.Files.{loop_read, loop_write, Files, rdonly}
use casync.ChunkId.{u64}
use casync.Index.{
  Index, is_cooked_write, is_cooked_read, is_some, head_size, head_bytes, check_head, on_file,
  await_data,
}

module _ {F : Type 0} where
  abbrev pub but_eagain : Index F × Result (Unit {0}) → Index F × Result (Unit {0})
  but_eagain (i, ok u) = (i, ok u)
  but_eagain (i, err eagain) = (i, ok tt)
  but_eagain (i, err e) = (i, err e)

module _ {F : Type 0} (files : Files F) where
  -- The name that `ca_index_open_fd` opens.
  unfoldable pub open_name : Action (Index F) String
  open_name i = elim i.open_flags [
    | rdonly ↦ elim i.path [ none ↦ (i, err eunatch) | some p ↦ (i, ok p) ]
    | _ ↦ elim i.temporary_path [
      | some p ↦ (i, ok p)
      | none ↦ elim (files.temporary_name i.path) [
        | err e ↦ (i, err e)
        | ok p ↦ (record i { temporary_path = some p }, ok p)
      ]
    ]
  ]

  unfoldable pub open_named : String → Action (Index F) Bool
  open_named p i = elim (files.open_file i.open_flags p (bit_and 438 i.make_mode)) [
    | err e ↦ (i, err e)
    | ok f ↦ (record i { fd = some f }, ok true)
  ]

  -- `ca_index_open_fd`; the result says whether the file was opened now.
  unfoldable pub open_fd : Action (Index F) Bool
  open_fd i = if is_some i.fd then (i, ok false) else (open_name >>= open_named) i

  -- `ca_index_write_head` from the checks on
  unfoldable pub write_head_now : Action (Index F) (Unit {0})
  write_head_now = do
    ensure (λ i. not (i.feature_flags == max64)) einval
    ensure (λ i. not (i.chunk_size_min == 0 || i.chunk_size_avg == 0 || i.chunk_size_max == 0))
        eunatch
    ensure (λ i. leb i.chunk_size_min i.chunk_size_avg && leb i.chunk_size_avg i.chunk_size_max)
        einval
    ensure (λ i. i.cooked_offset == 0) assertion
    head ← gets head_bytes
    on_file (λ f. loop_write files f head)
    modify (λ i. record i { start_offset = head_size; cooked_offset = head_size })

  -- `ca_index_write_head`
  unfoldable pub write_head : Action (Index F) (Unit {0})
  write_head i =
      if is_cooked_write i.mode && i.start_offset == 0 then write_head_now i else (i, ok tt)

  -- `ca_index_read_head` from the assertion on
  unfoldable pub read_head_now : Action (Index F) (Unit {0})
  read_head_now = do
    ensure (λ i. i.cooked_offset == 0) assertion
    await_data head_size
    head ← on_file (λ f. loop_read files f head_size)
    require (length head == head_size) epipe
    lift (check_head head)
    modify (λ i. record i {
      start_offset = head_size;
      cooked_offset = head_size;
      feature_flags = u64 head 2;
      chunk_size_min = u64 head 3;
      chunk_size_avg = u64 head 4;
      chunk_size_max = u64 head 5;
    })

  -- `ca_index_read_head`
  unfoldable pub read_head : Action (Index F) (Unit {0})
  read_head i = if is_cooked_read i.mode && i.start_offset == 0 then read_head_now i else (i, ok tt)

  -- `ca_index_open`
  unfoldable pub open_index : Action (Index F) (Unit {0})
  open_index = do opened ← open_fd; (λ i. but_eagain (read_head i)); write_head
